-- ===== src/Balancer.antt =====
-- cloudstack/loadbalancer.go: what it asks of CloudStack. Each function makes its calls in the order of
-- the source and stops at the first error; a load balancer that a method changes is its result.
pub mod Client
pub mod Addresses
pub mod Rules
pub mod Pools
pub mod Members
pub mod Calls
