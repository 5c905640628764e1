-- ===== src/Manager.antt =====
-- crates/manager/src/lib.rs
pub mod Views
pub mod Steps
pub mod Passes
pub mod Rounds
pub mod Effects
pub mod Requests
pub mod Own
pub mod DryRun
pub mod Settled
pub mod Sets
pub mod Told
pub mod Emptied
pub mod Declared
pub mod DeclaredPasses
pub mod Quiescent
use externalip_manager.Prelude.{
  String, Bool, true, ◌&&◌, Option, none, some, List, [], ◌∷◌, ◌++◌, map,
}
use externalip_manager.Prelude.{filter_map, contains, if◌then◌else◌}
use externalip_manager.Prelude.Outcome.{
  Result, ok, err, Outcome, done, fail, panic, no_namespace, no_name, Exec, pure, crash, map_err,
  ◌>>=◌, ◌>>◌,
}
use externalip_manager.Net.{IpAddr, IpAddr-eq}
use externalip_manager.Errors.{
  Error, FinderError, service, ip_source, IpSourceError, error_of_kube, error_of_parse,
}
use externalip_manager.Kube.{
  Service, ServiceSpec, Event, EventType, Note, normal, warning, service_ref, ObjectReference,
  invalid_external_ips, source_missing, lookup_failed, patched,
}
use externalip_manager.Env.{Env}
use externalip_manager.State.{State, with_world, record_effect}
use externalip_manager.Source
use externalip_manager.Source.{name_or_default, source_name}
use externalip_manager.Source.Types.{ExternalIpSource}
use externalip_manager.Registry
use externalip_manager.Events.{publish}
use externalip_manager.Svc
use externalip_manager.Svc.{ExternalIpSvc}

abbrev pub action_update_eips : String
action_update_eips = "UpdatingExternlIPs"

pub record ManagerConfig : Type 0 where
  pub dry_run : Bool

abbrev pub object_ref : Service → ObjectReference
object_ref svc = service_ref svc.metadata.namespace svc.metadata.name

-- An event about a service.
abbrev pub event : Service → EventType → String → Option Note → Event
event svc type_ reason note = record {
  type_ = type_;
  reason = reason;
  action = action_update_eips;
  note = note;
  object = object_ref svc;
}

-- `spec.as_ref().and_then(|spec| spec.external_ips.clone()).unwrap_or_default()`
abbrev pub listed : Option ServiceSpec → List String
listed none = []
listed (some spec) = elim spec.external_ips [ none ↦ [] | some ips ↦ ips ]

abbrev pub listed_ips : Service → List String
listed_ips svc = listed svc.spec

-- Equality of the `HashSet`s of two lists.
abbrev pub subset : List IpAddr → List IpAddr → Bool
subset [] ys = true
subset (x ∷ xs) ys = contains ys x && subset xs ys

unfoldable pub same_set : List IpAddr → List IpAddr → Bool
same_set xs ys = subset xs ys && subset ys xs

-- `filter_map(|svc| svc.as_ref().ok())`
abbrev pub found : Result FinderError ExternalIpSvc → Option ExternalIpSvc
found (ok svc) = some svc
found (err e) = none

module _ (E : Env) where
  -- `map(parse).collect()` into a `Result`: the first text that is no address is the error.
  unfoldable pub parse_ips : List String → Result Error (List IpAddr)
  parse_ips [] = ok []
  parse_ips (text ∷ rest) = elim (E.parse_ip text) [
    | none ↦ err (error_of_parse "invalid IP address syntax")
    | some addr ↦ elim (parse_ips rest) [ ok addrs ↦ ok (addr ∷ addrs) | err e ↦ err e ]
  ]

  abbrev pub checked : Service → Result Error (List IpAddr) → Exec (State E) Error (List IpAddr)
  checked svc (ok ips) st = (done ips, st)
  checked svc (err e) st =
      (fail e, publish E (event svc warning "InvalidExternalIP" (some invalid_external_ips)) st)

  -- The value of `current_ips`, with the event on an invalid entry.
  unfoldable pub current_ips : Service → Exec (State E) Error (List IpAddr)
  unfolding parse_ips publish
  current_ips svc = checked svc (parse_ips (listed_ips svc))

  -- The match on the result of `ip_source.query`.
  abbrev pub queried :
      Service
      → String
      → Outcome IpSourceError (List IpAddr)
      → State E
      → Outcome Error (List IpAddr) × State E
  queried svc name (done ips) st = (done ips, st)
  queried svc name (panic p) st = (panic p, st)
  queried svc name (fail e) st = (
    fail (ip_source name e),
    publish E (event svc warning "FailedExternalIPLookup" (some (lookup_failed e))) st,
  )

  abbrev pub query_source : Service → ExternalIpSource → Exec (State E) Error (List IpAddr)
  query_source svc source st =
      let (res, st1) = Source.query E source svc st in queried svc (source_name source.kind) res st1

  -- `get_cluster(name).ok_or(...)`, with the event on a missing source, and the query.
  abbrev pub resolve_with :
      ExternalIpSvc → Option ExternalIpSource → Exec (State E) Error (List IpAddr)
  resolve_with svc none st = (
    fail (service (record { missing_source = source_name svc.source })),
    publish E
        (event svc.svc warning "UnknownExternalIPSource"
          (some (source_missing (source_name svc.source))))
        st,
  )
  resolve_with svc (some source) st = query_source svc.svc source st

  -- `resolve_svc_extipsource_addresses`
  unfoldable pub resolve : ExternalIpSvc → Exec (State E) Error (List IpAddr)
  unfolding publish Registry.get_cluster
  resolve svc st = resolve_with svc (Registry.get_cluster E (source_name svc.source) st) st

  abbrev pub after_patch : Service → Result String Unit → State E → Outcome Error Unit × State E
  after_patch svc (ok _) st = (done tt, publish E (event svc normal "ExternalIPsUpdated" none) st)
  after_patch svc (err e) st = (fail (error_of_kube e), st)

  -- `update_svc_addresses`
  unfoldable pub update : ExternalIpSvc → List IpAddr → Exec (State E) Error Unit
  unfolding publish
  update svc addresses st =
      let strings = map E.ip_to_string addresses in
      let name = name_or_default svc.svc.metadata.name in
      let namespace = name_or_default svc.svc.metadata.namespace in
      let (answer, w) = E.patch_service namespace name strings st.world in
      after_patch svc.svc answer (record_effect (patched namespace name strings) (with_world st w))

  module _ (config : ManagerConfig) where
    -- What follows the resolution: the sets are compared, and the service is patched unless they
    -- agree or this is a dry run.
    unfoldable pub apply : ExternalIpSvc → List IpAddr → List IpAddr → Exec (State E) Error Unit
    unfolding update same_set
    apply svc current resolved st =
        if same_set current resolved
        then (done tt, st)
        else if config.dry_run
        then (done tt, st)
        else update svc (E.iterate_addresses st.world resolved) st

    unfoldable pub reconcile_svc : ExternalIpSvc → Exec (State E) Error Unit
    unfolding ◌>>=◌ current_ips resolve apply
    reconcile_svc svc = do
      current ← current_ips svc.svc
      resolved ← resolve svc
      apply svc current resolved

    -- The two `expect`s of the loop, which make the name for the log.
    abbrev pub named :
        Option String → Option String → Exec (State E) Error Unit → Exec (State E) Error Unit
    named none name body = crash no_namespace
    named (some namespace) none body = crash no_name
    named (some namespace) (some name) body = body

    -- `if let Err(e) = ... { errors.push(e) }`
    abbrev pub push_error : List Error → Outcome Error Unit → Outcome Error (List Error)
    push_error errors (done _) = done errors
    push_error errors (fail e) = done (errors ++ e ∷ [])
    push_error errors (panic p) = panic p

    abbrev pub attempt : ExternalIpSvc → List Error → Exec (State E) Error (List Error)
    attempt svc errors st =
        let meta = svc.svc.metadata in
        let (res, st1) = named meta.namespace meta.name (reconcile_svc svc) st in
        (push_error errors res, st1)

    -- The loop over the services.
    unfoldable pub reconcile_all :
        List ExternalIpSvc → List Error → Exec (State E) Error (List Error)
    unfolding ◌>>=◌ reconcile_svc
    reconcile_all [] errors = pure errors
    reconcile_all (svc ∷ rest) errors = attempt svc errors >>= λ errors'. reconcile_all rest errors'

    abbrev pub reconcile_found :
        List (Result FinderError ExternalIpSvc) → Exec (State E) Error (List Error)
    reconcile_found svcs = reconcile_all (filter_map found svcs) []

    -- The list of the annotated services, and the loop over them.
    unfoldable pub reconcile_listed : Exec (State E) Error (List Error)
    unfolding ◌>>=◌ reconcile_all
    reconcile_listed = map_err error_of_kube (Svc.find_annotated_svcs E) >>= reconcile_found

    unfoldable pub reconcile_svcs : Exec (State E) Error (List Error)
    unfolding ◌>>=◌ reconcile_listed
    reconcile_svcs = map_err (ip_source "registry") (Registry.refresh E) >>= λ _. reconcile_listed

  abbrev pub connected : Result String Unit → E.World → Exec (State E) Error Unit
  connected (ok _) w st = (done tt, with_world st w)
  connected (err e) w st = (fail (error_of_kube e), with_world st w)

  abbrev pub connect : Exec (State E) Error Unit
  connect st = let (answer, w) = E.try_default st.world in connected answer w st

  -- `Manager::new`: the manager's client, the finder, and the registry.
  unfoldable pub new : Exec (State E) Error Unit
  unfolding ◌>>=◌ ◌>>◌ Svc.new
  new = do
    connect
    map_err error_of_kube (Svc.new E)
    map_err (ip_source "registry") (Registry.new E)
