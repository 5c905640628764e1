-- ===== src/Registry.antt =====
-- crates/manager/src/external_ip_source/registry.rs
pub mod Matches
pub mod Idle
pub mod Quiet
pub mod QuietApi
pub mod Leaves
pub mod Merges
pub mod SolverLists
pub mod Queries
pub mod Refresh
pub mod Walk
pub mod Keys
pub mod Collected
pub mod Refreshed
pub mod Builds
pub mod Contents
pub mod Depth
pub mod Plain
pub mod Visits
pub mod UnlockedMerges
pub mod Unlocked
pub mod Declared
pub mod DeclaredAnswers
pub mod DeclaredTurns
pub mod DeclaredQueries
use externalip_manager.Prelude.{
  String, false, Option, none, some, List, [], ◌∷◌, ◌++◌, map, filter_map, flat_map,
}
use externalip_manager.Prelude.Eq.{String-eq}
use externalip_manager.Prelude.Map
use externalip_manager.Prelude.Map.{Map}
use externalip_manager.Prelude.Outcome.{Result, ok, err, done, fail, Exec, pure, ◌>>=◌}
use externalip_manager.Net.{AddressKind, ipv4, ipv6}
use externalip_manager.Errors.{IpSourceError, source_error_of_kube}
use externalip_manager.Crd.{
  SolverKind, PartialSolver, ClusterExternalIpSource, IpSolversConfig, from_partial,
}
use externalip_manager.Kube.{source_ref, warning, invalid_source, Event}
use externalip_manager.Env.{Env}
use externalip_manager.State.{State, Key, Key-eq, with_world}
use externalip_manager.Solver.{Solver}
use externalip_manager.Solvers.Dispatch
use externalip_manager.Source
use externalip_manager.Source.Types.{ExternalIpSource}
use externalip_manager.Events.{publish}

abbrev pub reason_eip_error : String
reason_eip_error = "InvalidIPSource"

-- The two halves of `partition`: the sources that convert, and the errors of the others.
abbrev pub converted : ClusterExternalIpSource → Option ExternalIpSource
converted ceips = elim (Source.try_from_ref ceips) [ ok source ↦ some source | err e ↦ none ]

abbrev pub rejected : ClusterExternalIpSource → Option (IpSourceError × Option String)
rejected ceips = elim (Source.try_from_ref ceips) [
  | ok source ↦ none
  | err e ↦ some (e, ceips.name)
]

-- `collect` into the map of sources: of two sources with one name the later stays.
unfoldable pub insert_all :
    Map String ExternalIpSource → List ExternalIpSource → Map String ExternalIpSource
insert_all m [] = m
insert_all m (source ∷ rest) =
    insert_all (Map.insert m (Source.source_name source.kind) source) rest

unfoldable pub collect_sources : List ClusterExternalIpSource → Map String ExternalIpSource
unfolding insert_all Source.try_from
collect_sources list = insert_all [] (filter_map converted list)

abbrev pub parse_event : IpSourceError × Option String → Event
parse_event (e, name) = record {
  type_ = warning;
  reason = reason_eip_error;
  action = "ParsingClusterExternalIPSource";
  note = some (invalid_source e);
  object = source_ref name;
}

-- The keys of one solver: those of a merge's partial solvers stand before its own.
abbrev pub solver_keys : AddressKind → SolverKind → List Key
solver_keys kind (SolverKind.merge c) =
    map (λ (ps : PartialSolver). (from_partial ps.solver, kind)) c.partial_solvers
    ++ (SolverKind.merge c, kind) ∷ []
solver_keys kind s = (s, kind) ∷ []

abbrev pub family_keys : AddressKind → Option IpSolversConfig → List Key
family_keys kind none = []
family_keys kind (some config) = flat_map (solver_keys kind) config.solvers

abbrev pub source_keys : ClusterExternalIpSource → List Key
source_keys ceips = family_keys ipv4 ceips.spec.ipv4 ++ family_keys ipv6 ceips.spec.ipv6

module _ (E : Env) where
  -- The loop over the errors.
  unfoldable pub publish_all : List (IpSourceError × Option String) → State E → State E
  unfolding publish
  publish_all [] st = st
  publish_all (e ∷ rest) st = publish_all rest (publish E (parse_event e) st)

  abbrev pub received :
      Result String (List ClusterExternalIpSource)
      → E.World
      → Exec (State E) IpSourceError (List ClusterExternalIpSource)
  received (ok items) w st = (done items, with_world st w)
  received (err e) w st = (fail (source_error_of_kube e), with_world st w)

  abbrev pub list_sources : Exec (State E) IpSourceError (List ClusterExternalIpSource)
  list_sources st = let (answer, w) = E.list_sources st.world in received answer w st

  -- `self.cluster_eip_sources = ...`, and the events about the others.
  unfoldable pub take_sources : List ClusterExternalIpSource → State E → State E
  unfolding publish_all collect_sources
  take_sources items st =
      publish_all (filter_map rejected items)
        (record st { cluster_eip_sources = collect_sources items })

  -- `entry(key).or_insert(RwLock::new(solver))`: a solver that is registered stays.
  abbrev pub register : Key → Solver → Exec (State E) IpSourceError Unit
  register key s st = (
    done tt,
    record st { solvers = Map.or_insert st.solvers key (record { solver = s; locked = false }) },
  )

  -- The loop over `current_solver_refs`. The solver is made for each key, also for one that is
  -- registered, and the first that cannot be made ends the loop.
  unfoldable pub populate : List Key → Exec (State E) IpSourceError Unit
  unfolding ◌>>=◌
  populate [] = pure tt
  populate (key ∷ rest) = Dispatch.try_from E key.0 >>= λ s. register key s >>= λ _. populate rest

  abbrev pub populate_from : List ClusterExternalIpSource → Exec (State E) IpSourceError Unit
  populate_from items st = populate (E.iterate_solvers st.world (flat_map source_keys items)) st

  abbrev pub take_in : List ClusterExternalIpSource → Exec (State E) IpSourceError Unit
  take_in items st = populate_from items (take_sources items st)

  -- `IPSourceRegistry::refresh`
  unfoldable pub refresh : Exec (State E) IpSourceError Unit
  unfolding ◌>>=◌ populate take_sources
  refresh = list_sources >>= take_in

  -- The empty maps of `new`.
  abbrev pub cleared : State E → State E
  cleared st = record st { solvers = []; cluster_eip_sources = [] }

  -- `IPSourceRegistry::new`
  abbrev pub new : Exec (State E) IpSourceError Unit
  new st = refresh (cleared st)

  -- `IPSourceRegistry::get_cluster`
  unfoldable pub get_cluster : String → State E → Option ExternalIpSource
  get_cluster name st = Map.get st.cluster_eip_sources name
