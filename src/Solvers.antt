-- ===== src/Solvers.antt =====
-- The implementations of the trait `Solver` (crates/manager/src/external_ip_source/solvers/).
pub mod Static
pub mod Ingress
pub mod Dns
pub mod Interface
pub mod Caching
pub mod IpApi
pub mod Mock
pub mod Merge
pub mod Dispatch
pub mod Kinds
pub mod Framing
pub mod Framed
