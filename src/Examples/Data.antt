-- ===== src/Examples/Data.antt =====
-- A cluster with one environment, one service and two nodes, and a server that always answers the same.
use custom_cloudstack_ccm.Prelude.{String, Bool, true, false, none, some, List, [], ◌∷◌}
use custom_cloudstack_ccm.Prelude.Int.{pos}
use custom_cloudstack_ccm.Prelude.Outcome.{Result, ok, err, failed, remote}
use custom_cloudstack_ccm.Kube.{ObjectMeta, Service, Node, TargetPort, ServicePort}
use custom_cloudstack_ccm.Config.{CsConfig, Client, CsCloud}
use custom_cloudstack_ccm.Cloudstack.{
  Tag, CloudstackIp, LoadBalancerRule, VirtualMachine, LoadBalancer,
}
use custom_cloudstack_ccm.Api.{Server}
use custom_cloudstack_ccm.World.{NodeInfo, NodeRegistry, QueueEntry, World}

abbrev pub client : Client
client = record { api_url = "api"; api_key = "k"; secret_key = "s"; ssl_no_verify = false }

abbrev pub config : CsConfig
config = record {
  global = record {
    service_filter_label = "";
    node_filter_label = "";
    node_name_label = "";
    project_id_label = "project";
    environment_label = "environment";
    internal_ip_index = pos 0;
    external_ip_index = pos 0;
    update_lb_workers = pos 5;
  };
  environment =
      (
        "env",
        record {
          api_url = "api";
          api_key = "k";
          secret_key = "s";
          lb_environment_id = "";
          lb_domain = "example";
          project_id = "p1";
          ssl_no_verify = false;
          remove_lbs = true;
        },
      )
      ∷ [];
  command = record {
    associate_ip = "";
    disassociate_ip = "";
    assign_networks = "";
    delete_lb_rule = "";
  };
  command_args = [];
}

-- The cloud, which removes load balancers or keeps them.
abbrev pub cloud : Bool → CsCloud
cloud remove_lbs = record {
  environments =
      (
        "env",
        record {
          client = some client;
          lb_environment_id = "";
          lb_domain = "example";
          remove_lbs = remove_lbs;
        },
      )
      ∷ [];
  config = config;
}

abbrev pub meta_of : String → ObjectMeta
meta_of name = record { name = name; namespace = "ns"; labels = none; annotations = [] }

abbrev pub port : ServicePort
port = record {
  name = "http";
  protocol = "TCP";
  port = 80;
  target_port = TargetPort.number 8080;
  node_port = 30080;
}

abbrev pub service : Service
service = record {
  meta = meta_of "web";
  ports = port ∷ [];
  session_affinity = "None";
  load_balancer_ip = "";
  ingress = [];
}

abbrev pub tags : List Tag
tags =
    record { key = "cloudprovider"; value = "custom-cloudstack" }
    ∷ record { key = "kubernetes_service"; value = "web" }
    ∷ record { key = "kubernetes_namespace"; value = "ns" }
    ∷ []

abbrev pub rule : LoadBalancerRule
rule = record {
  id = "rule1";
  name = "web.example";
  algorithm = "roundrobin";
  cidrlist = "";
  networkid = "net1";
  privateport = "30080";
  publicport = "80";
  publicip = "10.0.0.1";
  publicipid = "ip1";
  zoneid = "z1";
  protocol = "TCP";
  tags = tags;
  additional_port_map = [];
}

abbrev pub ip : CloudstackIp
ip = record { id = "ip1"; address = "10.0.0.1"; networkid = "net1" }

abbrev pub load_balancer : LoadBalancer
load_balancer = record {
  project_id = "p1";
  environment = "env";
  name = "web.example";
  algorithm = "";
  main_network_id = "net1";
  ip = ip;
  rule = some rule;
  service = service;
}

abbrev pub machine : VirtualMachine
machine = record {
  id = "vm1";
  name = "node1";
  hostname = "node1";
  publicip = "";
  state = "Running";
  zonename = "z1";
  serviceofferingid = "o1";
  serviceofferingname = "small";
  nic = record { ipaddress = "10.0.1.1"; networkid = "net1" } ∷ [];
}

-- The server: what it answers to the requests that change something is given.
abbrev pub server : Result String → Result (Unit {0}) → Server
server job done = record {
  rules = λ h. ok (1, rule ∷ []);
  addresses = λ h. ok (0, []);
  instances = λ h. ok (1, machine ∷ []);
  pools = λ h. ok (0, []);
  ip_response =
      λ h. ok (record { id = "ip2"; ipaddress = "10.0.0.2"; networkid = "net1"; job_id = "" });
  rule_response = λ h. err (failed "no");
  job_response = λ h. job;
  pool_response = λ h. ok none;
  done = λ h. done;
  network = λ h. (1, ok "");
  machine = λ h. (1, ok machine);
  job_result = λ h. ok "";
  endpoint_subsets = λ h. ok [];
  node = λ h. err (failed "no");
  cache_get = λ c k h. none;
  int_value = λ t. 0;
  port_text = λ t. "";
  json_values = λ t. ok [];
  unmarshal_ip = λ t r. (r, ok tt);
  unmarshal_rule = λ t r. (r, ok tt);
  unmarshal_pool = λ t r. (r, ok tt);
}

abbrev pub up : Server
up = server (ok "") (ok tt)

abbrev pub down : Server
down = server (err (remote "down")) (err (remote "down"))

abbrev pub node : Node
node = record { meta = meta_of "node1"; provider_id = "" }

abbrev pub node_info : NodeInfo
node_info = record {
  name = "node1";
  vm_id = "vm1";
  network_id = "net1";
  host_name = "node1";
  project_id = "p1";
  environment_id = "env";
  filter_value = "";
  revision = 1;
}

abbrev pub registry : NodeRegistry
registry = record { nodes = ("node1", node_info) ∷ []; svc_nodes = []; revision = 1 }

abbrev pub entry : QueueEntry
entry = record { service = service; lb = none; update_pool = true; start = 5; backoff_until = 0 }

-- The service waits.
abbrev pub waiting : World
waiting = record {
  history = [];
  registry = registry;
  queue = (record { namespace = "ns"; name = "web" }, entry) ∷ [];
}

-- Nothing waits.
abbrev pub idle : World
idle = record { history = []; registry = registry; queue = [] }
