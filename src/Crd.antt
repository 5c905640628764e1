-- ===== src/Crd.antt =====
-- crates/manager/src/crd/v1alpha1/mod.rs: the resource ClusterExternalIPSource.
use externalip_manager.Prelude.{String, Option, List}
use externalip_manager.Prelude.Eq.{String-discrete}
use externalip_manager.Net.{IpAddr, IpAddr-discrete}

abbrev pub cluster_external_ip_source_kind : String
cluster_external_ip_source_kind = "ClusterExternalIPSource"

pub data QueryMode : Type 0 where
  first_found all : QueryMode

-- `#[default]`
abbrev pub default_query_mode : QueryMode
default_query_mode = first_found

pub data IpSolverProvider : Type 0 where
  my_ip ipify : IpSolverProvider

pub record IpApiConfig : Type 0 where
  pub provider : IpSolverProvider

pub record InterfaceConfig : Type 0 where
  pub name : Option String

pub record DnsHostnameConfig : Type 0 where
  pub host : String

pub record LoadBalancerIngressConfig : Type 0 where

pub record StaticConfig : Type 0 where
  pub addresses : List IpAddr

pub data PartialSolverKind : Type 0 where
  ip_api : IpApiConfig → PartialSolverKind
  interface : InterfaceConfig → PartialSolverKind
  dns_hostname : DnsHostnameConfig → PartialSolverKind
  load_balancer_ingress : LoadBalancerIngressConfig → PartialSolverKind
  static : StaticConfig → PartialSolverKind

pub record PartialSolver : Type 0 where
  pub solver : PartialSolverKind
  pub mask : IpAddr

pub record MergeConfig : Type 0 where
  pub partial_solvers : List PartialSolver

pub data SolverKind : Type 0 where
  ip_api : IpApiConfig → SolverKind
  interface : InterfaceConfig → SolverKind
  dns_hostname : DnsHostnameConfig → SolverKind
  load_balancer_ingress : LoadBalancerIngressConfig → SolverKind
  static : StaticConfig → SolverKind
  merge : MergeConfig → SolverKind

-- The derived `PartialEq`.
unfoldable pub SolverKind-discrete : Discrete SolverKind
unfolding IpAddr-discrete String-discrete
SolverKind-discrete = hlevel (IpAddr-discrete, String-discrete)

-- `impl From<PartialSolverKind> for SolverKind`
abbrev pub from_partial : PartialSolverKind → SolverKind
from_partial (PartialSolverKind.ip_api c) = SolverKind.ip_api c
from_partial (PartialSolverKind.dns_hostname c) = SolverKind.dns_hostname c
from_partial (PartialSolverKind.load_balancer_ingress c) = SolverKind.load_balancer_ingress c
from_partial (PartialSolverKind.static c) = SolverKind.static c
from_partial (PartialSolverKind.interface c) = SolverKind.interface c

pub record IpSolversConfig : Type 0 where
  pub query_mode : Option QueryMode
  pub solvers : List SolverKind

pub record ClusterExternalIpSourceSpec : Type 0 where
  pub ipv4 : Option IpSolversConfig
  pub ipv6 : Option IpSolversConfig

-- The resource that `derive(CustomResource)` makes of the spec, with the one field of its
-- metadata that the program reads.
pub record ClusterExternalIpSource : Type 0 where
  pub name : Option String
  pub spec : ClusterExternalIpSourceSpec
