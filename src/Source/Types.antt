-- ===== src/Source/Types.antt =====
-- The structs of crates/manager/src/external_ip_source/source.rs.
use externalip_manager.Prelude.{String, Option, List}
use externalip_manager.Crd.{SolverKind}

pub data ExternalIpSourceKind : Type 0 where
  cluster : String → ExternalIpSourceKind

pub data QueryMode : Type 0 where
  first_found all : QueryMode

pub record SolverList : Type 0 where
  pub solver_refs : List SolverKind
  pub query_mode : QueryMode

pub record ExternalIpSource : Type 0 where
  pub kind : ExternalIpSourceKind
  pub v4 : Option SolverList
  pub v6 : Option SolverList
