-- ===== src/Lib.antt =====
-- custom-cloudstack-ccm: the CloudStack cloud provider for Kubernetes.
--
-- Kubernetes calls the provider to create, update and delete the load balancer of a service, and to
-- look up the instances behind its nodes. The provider calls CloudStack, and the Kubernetes API for
-- endpoints, nodes and one patch. The model has its state as values: the calls made so far are a
-- history, the node registry and the queue of updates are in World, and code that calls, changes the
-- state and may fail is an Action, a function from the state to a result and the state after it.
--
-- What is outside the repository is an argument: CloudStack and the Kubernetes API are a Server (Api),
-- which answers each call with anything, from all the calls before; the clock, the rate limiter, the
-- resolver, the process's variables, the parser of the configuration and what a cache has are
-- arguments too. A panic is an error of its own.
--
-- - Config, Provider: cloudstack/cloudstack.go, and what reads the configuration in
--   cloudstack/instances.go and cloudstack/loadbalancer.go. Kube and Cloudstack are the objects of the
--   two APIs, with the fields that are used.
-- - Controller: GetLoadBalancer, EnsureLoadBalancer, UpdateLoadBalancer and EnsureLoadBalancerDeleted
--   of cloudstack/loadbalancer.go. Balancer: what they are made of, in Rules, Addresses, Pools (health
--   checks), Members (hosts, networks) and Client (tags, jobs). Tags, Ports and Hosts: its decisions.
-- - Nodes, Endpoints: the registry of cloudstack/nodes.go. Machines and Pages: cloudstack/helpers.go.
-- - Queue: cloudstack/service_queue.go, with a worker's loop over what it receives, and with
--   several workers that interleave in any order. ServiceLock: cloudstack/servicelock.go, likewise.
-- - Patch: the label patch of cloudstack/loadbalancer.go. Fake: the test server of
--   cloudstack/fake/cloudstack.go, with Listings and Orders for its commands and Jobs for the closures
--   that a query for a job runs.
-- - Instances: cloudstack/instances.go and cloudstack/zones.go.
-- - Trace: rules for what a piece of code calls. Examples: a small cluster, and the theorems on it.
--
-- EnsureLoadBalancer and the worker call nodesForService of the registry, and put an
-- entry into the queue. They hold the service's lock, and so do the other handlers but
-- UpdateLoadBalancer: Queue/Workers puts the queue and the locks together.
--
-- A map is a list of entries; a range over it visits them in the order of the list. Go's sorts are an
-- insertion sort. Numbers that the provider counts are natural numbers, and the revisions wrap at
-- 2 ^ 64. The only loop that needs fuel is the one over the pages of an answer, which asks until
-- CloudStack says that there is no more: the fuel is an argument, and more than any count that
-- CloudStack states is enough, as list_all_pages-ne-out_of_fuel says.
--
-- Where code relies on what CloudStack does, KeepsMembers (Balancer/Members/Contract) says it: the
-- machines behind a rule change as they are asked to, by two requests, and not by the others of a
-- synchronization, and a listing shows them page by page.
--
-- Not modelled: the texts of errors beyond their formats, logs, metrics, events, the informers' wiring,
-- the cost function of the cache and cmd/controller/main.go. What starts the workers is their number.
-- Where several workers run at once (Queue/Workers), an update of a load balancer is one step. A
-- panic in an update ends the process: it ends the steps there, and is an error in `work`.
pub mod Prelude
pub mod Kube
pub mod Config
pub mod Provider
pub mod Cloudstack
pub mod Tags
pub mod Api
pub mod Patch
pub mod Ports
pub mod World
pub mod Machines
pub mod Nodes
pub mod Endpoints
pub mod Hosts
pub mod Pages
pub mod ServiceLock
pub mod Trace
pub mod Balancer
pub mod Queue
pub mod Controller
pub mod Instances
pub mod Fake
pub mod Examples
