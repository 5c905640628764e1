-- ===== src/Source.antt =====
-- crates/manager/src/external_ip_source/source.rs
pub mod Types
pub mod Modes
use externalip_manager.Prelude.{
  ℕ, String, Bool, ◌&&◌, true, false, Option, none, some, List, [], ◌∷◌, ◌++◌,
}
use externalip_manager.Prelude.{is_empty, if◌then◌else◌}
use externalip_manager.Prelude.Outcome.{
  Result, ok, err, done, no_solvers, Exec, pure, crash, lift, ◌>>=◌,
}
use externalip_manager.Net.{IpAddr, AddressKind, ipv4, ipv6}
use externalip_manager.Errors.{
  SolverError, IpSourceError, Malformation, malformed, no_source_block, sources_empty,
  solver_not_found, solver_timeout, no_addresses, Reason,
}
use externalip_manager.Crd
use externalip_manager.Crd.{
  SolverKind, IpSolversConfig, ClusterExternalIpSource, default_query_mode,
  cluster_external_ip_source_kind,
}
use externalip_manager.Kube.{Service}
use externalip_manager.Env.{Env}
use externalip_manager.State.{State}
use externalip_manager.Solvers.Merge.{visit}
use externalip_manager.Solvers.Dispatch
use externalip_manager.Source.Types.{
  ExternalIpSourceKind, cluster, QueryMode, first_found, all, SolverList, ExternalIpSource,
}

-- `ExternalIpSourceKind::name`
abbrev pub source_name : ExternalIpSourceKind → String
source_name (cluster name) = name

-- `ExternalIpSourceKind::kind`
abbrev pub source_kind : ExternalIpSourceKind → String
source_kind (cluster name) = cluster_external_ip_source_kind

-- `IpSourceError::Solver(SolverError { reason })`
abbrev pub solver_failed : Reason → IpSourceError
solver_failed why = IpSourceError.solver (record { reason = why })

-- How one turn of the loop ends: the list's addresses are found, or the next solver is asked.
pub data Turn : Type 0 where
  stop : List IpAddr → Turn
  go : List IpAddr → Turn

-- The match on a solver's answer, given the addresses collected so far.
unfoldable pub turn : QueryMode → List IpAddr → Result SolverError (List IpAddr) → Turn
turn mode collected (err e) = go collected
turn mode collected (ok []) = go collected
turn first_found collected (ok addrs) = stop addrs
turn all collected (ok addrs) = go (collected ++ addrs)

-- The match on the mode behind the loop.
unfoldable pub conclude : QueryMode → List IpAddr → Result IpSourceError (List IpAddr)
conclude first_found collected = err (solver_failed no_addresses)
conclude all [] = err (solver_failed no_addresses)
conclude all collected = ok collected

-- Solvers call solvers at most twice deep: a solver list a merge, and a merge a solver.
abbrev pub max_depth : ℕ
max_depth = 2

-- What a turn leads to.
abbrev pub take_turn :
    (E : Env)
    → Turn
    → (List IpAddr → Exec (State E) IpSourceError (List IpAddr))
    → Exec (State E) IpSourceError (List IpAddr)
take_turn E (stop addrs) rest st = (done addrs, st)
take_turn E (go collected) rest st = rest collected st

module _ (E : Env) (mode : QueryMode) (kind : AddressKind) (svc : Service) where
  abbrev pub ask_solver :
      SolverKind → Exec (State E) IpSourceError (Result SolverError (List IpAddr))
  ask_solver solv_ref =
      visit (Dispatch.get_addresses E max_depth) (solver_failed (solver_not_found solv_ref kind))
        (solver_failed solver_timeout) (solv_ref, kind) svc

  abbrev pub conclusion : List IpAddr → Exec (State E) IpSourceError (List IpAddr)
  conclusion collected st = lift (conclude mode collected) st

  -- The loop over the solvers.
  unfoldable pub query_solvers :
      List SolverKind → List IpAddr → Exec (State E) IpSourceError (List IpAddr)
  unfolding ◌>>=◌ turn conclude
  query_solvers [] collected = conclusion collected
  query_solvers (solv_ref ∷ rest) collected = ask_solver solv_ref >>= λ answer.
      take_turn E (turn mode collected answer) (query_solvers rest)

module _ (E : Env) where
  -- The `assert!`, and the loop.
  abbrev pub unless_empty :
      Bool → SolverList → AddressKind → Service → Exec (State E) IpSourceError (List IpAddr)
  unless_empty true self kind svc = crash no_solvers
  unless_empty false self kind svc = query_solvers E self.query_mode kind svc self.solver_refs []

  -- `SolverList::query`
  unfoldable pub query_list :
      SolverList → AddressKind → Service → Exec (State E) IpSourceError (List IpAddr)
  unfolding query_solvers
  query_list self = unless_empty (is_empty self.solver_refs) self

  abbrev pub query_family :
      Option SolverList → AddressKind → Service → Exec (State E) IpSourceError (List IpAddr)
  query_family none kind svc = pure []
  query_family (some solvers) kind svc = query_list solvers kind svc

  -- `ExternalIpSource::query`
  unfoldable pub query : ExternalIpSource → Service → Exec (State E) IpSourceError (List IpAddr)
  unfolding ◌>>=◌ query_list
  query self svc = do
    addrs4 ← query_family self.v4 ipv4 svc
    addrs6 ← query_family self.v6 ipv6 svc
    pure (addrs4 ++ addrs6)

-- `impl From<v1alpha1::QueryMode> for QueryMode`
abbrev pub from_mode : Crd.QueryMode → QueryMode
from_mode Crd.QueryMode.first_found = first_found
from_mode Crd.QueryMode.all = all

abbrev pub mode_of : Option Crd.QueryMode → QueryMode
mode_of none = from_mode default_query_mode
mode_of (some m) = from_mode m

abbrev pub list_unless : Bool → IpSolversConfig → Result IpSourceError SolverList
list_unless true value = err (malformed sources_empty)
list_unless false value =
    ok (record { solver_refs = value.solvers; query_mode = mode_of value.query_mode })

-- `impl TryFrom<v1alpha1::IpSolversConfig> for SolverList`
unfoldable pub try_from_config : IpSolversConfig → Result IpSourceError SolverList
try_from_config value = list_unless (is_empty value.solvers) value

-- `Result::ok`
abbrev pub to_option : {A F : Type 0} → Result F A → Option A
to_option (ok a) = some a
to_option (err e) = none

-- `and_then(|config| SolverList::try_from(config).ok())`: a list that is refused is dropped.
unfoldable pub family : Option IpSolversConfig → Option SolverList
unfolding try_from_config
family none = none
family (some config) = to_option (try_from_config config)

abbrev pub name_or_default : Option String → String
name_or_default none = ""
name_or_default (some name) = name

abbrev pub is_none : {A : Type 0} → Option A → Bool
is_none none = true
is_none (some a) = false

-- `impl TryFrom<v1alpha1::ClusterExternalIPSource> for ExternalIpSource`
unfoldable pub try_from : ClusterExternalIpSource → Result IpSourceError ExternalIpSource
unfolding family
try_from value =
    if is_none value.spec.ipv4 && is_none value.spec.ipv6
    then err (malformed no_source_block)
    else ok (record {
      kind = cluster (name_or_default value.name);
      v4 = family value.spec.ipv4;
      v6 = family value.spec.ipv6;
    })

-- `impl TryFrom<&v1alpha1::ClusterExternalIPSource> for ExternalIpSource`
abbrev pub try_from_ref : ClusterExternalIpSource → Result IpSourceError ExternalIpSource
try_from_ref value = try_from value
