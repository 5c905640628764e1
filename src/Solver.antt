-- ===== src/Solver.antt =====
-- The structs behind `Box<dyn Solver>` (crates/manager/src/external_ip_source/solvers/).
use externalip_manager.Prelude.{ℕ, String, Option, List}
use externalip_manager.Prelude.Outcome.{Result}
use externalip_manager.Net.{IpAddr}
use externalip_manager.Errors.{IpProviderError}
use externalip_manager.Crd.{PartialSolver}

pub data IpProvider : Type 0 where
  my_ip ipify : IpProvider

-- Durations and instants in nanoseconds.
pub record IpProviderResponse : Type 0 where
  pub timeout : ℕ
  pub timestamp : ℕ
  pub expires_at : ℕ
  pub response : Result IpProviderError (List IpAddr)

-- `IpApiSolver` over the providers of one type.
pub record IpApiSolverOf (Provider : Type 0) : Type 0 where
  pub inner : Provider
  pub cache : Option IpProviderResponse

-- `Box<dyn IpProvider>` outside of the tests: a constructor for each implementation.
abbrev pub IpApiSolver : Type 0
IpApiSolver = IpApiSolverOf IpProvider

pub record Interface : Type 0 where
  pub identifier : Option String

-- The resolver is the environment's.
pub record DnsHostname : Type 0 where
  pub host : String

pub record LoadBalancerIngress : Type 0 where

pub record Static : Type 0 where
  pub addresses : List IpAddr

pub record Merge : Type 0 where
  pub partial_solvers : List PartialSolver

-- `dyn Solver`: a constructor for each implementation.
pub data Solver : Type 0 where
  ip_api : IpApiSolver → Solver
  interface : Interface → Solver
  dns_hostname : DnsHostname → Solver
  load_balancer_ingress : LoadBalancerIngress → Solver
  static : Static → Solver
  merge : Merge → Solver
