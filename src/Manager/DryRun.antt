-- ===== src/Manager/DryRun.antt =====
-- The effects of a pass on the world, and which of them are patches (lib.rs, registry.rs).
use externalip_manager.Prelude.{
  ◌≡◌, refl, Option, none, some, List, [], ◌∷◌, String, Bool, true, false, filter_map, filter_map,
}
use externalip_manager.Prelude.Outcome.{
  Outcome, done, fail, panic, Result, ok, err, Exec, ◌>>=◌, map_err, pure,
}
use externalip_manager.Errors.{Error, IpSourceError, ip_source}
use externalip_manager.Crd.{ClusterExternalIpSource, SolverKind, DnsHostnameConfig}
use externalip_manager.Kube.{Service, Effect, requested, published, patched}
use externalip_manager.Env.{Env}
use externalip_manager.State.{State, Key}
use externalip_manager.Events.{publish}
use externalip_manager.Solvers.Dns
use externalip_manager.Solvers.Dispatch
use externalip_manager.Solver.{Solver}
use externalip_manager.Registry.{
  publish_all, parse_event, populate, register, take_in, take_sources, rejected, received,
  list_sources, refresh,
}
use externalip_manager.Svc
use externalip_manager.Svc.{ExternalIpSvc}
use externalip_manager.Manager.{
  ManagerConfig, reconcile_svc, named, attempt, reconcile_all, reconcile_found, found,
  reconcile_listed, reconcile_svcs,
}
use externalip_manager.Manager.Effects.{Extends, Only, Extends-refl, Extends-trans, bind-Only}
use externalip_manager.Manager.Own.{IsOwn, IsHarmless, Extends-weaken, reconcile_svc-Only-Own}

IsHarmless-of_own :
    (dry : Bool) (svc : Service) → dry ≡ true → (e : Effect) → IsOwn dry svc e → IsHarmless e
IsHarmless-of_own dry svc h (requested url) k = tt
IsHarmless-of_own dry svc h (published e) k = tt
IsHarmless-of_own dry svc h (patched namespace name ips) k = cc (h, k.0)

module _ (E : Env) where
  boxed-IsHarmless : (m : Outcome IpSourceError _) → Only IsHarmless (Dispatch.boxed_merge E m)
  boxed-IsHarmless (done m) st = Extends-refl IsHarmless st.trace
  boxed-IsHarmless (fail e) st = Extends-refl IsHarmless st.trace
  boxed-IsHarmless (panic p) st = Extends-refl IsHarmless st.trace

  built-IsHarmless :
      (c : DnsHostnameConfig) (b : Bool) → Only IsHarmless (Dns.built E {F = IpSourceError} c b)
  built-IsHarmless c true st = Extends-refl IsHarmless st.trace
  built-IsHarmless c false st = Extends-refl IsHarmless st.trace

  try_from-IsHarmless : (k : SolverKind) → Only IsHarmless (Dispatch.try_from E k)
  unfolding Dispatch.try_from Dns.new
  try_from-IsHarmless (SolverKind.ip_api c) st = Extends-refl IsHarmless st.trace
  try_from-IsHarmless (SolverKind.interface c) st = Extends-refl IsHarmless st.trace
  try_from-IsHarmless (SolverKind.dns_hostname c) st =
      bind-Only IsHarmless (Dns.new E c) (λ d. pure (Solver.dns_hostname d))
        (λ u. built-IsHarmless c (E.build_resolver u.world).0 _)
        (λ d u. Extends-refl IsHarmless u.trace) st
  try_from-IsHarmless (SolverKind.load_balancer_ingress c) st = Extends-refl IsHarmless st.trace
  try_from-IsHarmless (SolverKind.static c) st = Extends-refl IsHarmless st.trace
  try_from-IsHarmless (SolverKind.merge c) st = boxed-IsHarmless _ st

  populate-IsHarmless : (keys : List Key) → Only IsHarmless (populate E keys)
  unfolding populate
  populate-IsHarmless [] st = Extends-refl IsHarmless st.trace
  populate-IsHarmless (key ∷ rest) st =
      bind-Only IsHarmless (Dispatch.try_from E key.0)
        (λ s. register E key s >>= λ _. populate E rest) (try_from-IsHarmless key.0)
        (λ s.
          bind-Only IsHarmless (register E key s) (λ _. populate E rest)
            (λ u. Extends-refl IsHarmless u.trace) λ _. populate-IsHarmless rest)
        st

  publish_all-IsHarmless :
      (errors : List (IpSourceError × Option String)) (st : State E)
      → Extends IsHarmless st.trace (publish_all E errors st).trace
  unfolding publish_all publish
  publish_all-IsHarmless [] st = Extends-refl IsHarmless st.trace
  publish_all-IsHarmless (e ∷ rest) st =
      Extends-trans IsHarmless
        (record { added = published (parse_event e) ∷ []; grown = refl; each = (tt, tt) })
        (publish_all-IsHarmless rest (publish E (parse_event e) st))

  take_in-IsHarmless : (items : List ClusterExternalIpSource) → Only IsHarmless (take_in E items)
  unfolding take_sources
  take_in-IsHarmless items st =
      Extends-trans IsHarmless (publish_all-IsHarmless (filter_map rejected items) _)
        (populate-IsHarmless _ _)

  received-IsHarmless :
      (answer : Result String (List ClusterExternalIpSource)) (w : E.World)
      → Only IsHarmless (received E answer w)
  received-IsHarmless (ok items) w st = Extends-refl IsHarmless st.trace
  received-IsHarmless (err e) w st = Extends-refl IsHarmless st.trace

  pub refresh-IsHarmless : Only IsHarmless (refresh E)
  unfolding refresh
  refresh-IsHarmless =
      bind-Only IsHarmless (list_sources E) (take_in E)
        (λ st. received-IsHarmless (E.list_sources st.world).0 (E.list_sources st.world).1 st)
        take_in-IsHarmless

  module _ (config : ManagerConfig) (dry : config.dry_run ≡ true) where
    svc-IsHarmless : (svc : ExternalIpSvc) → Only IsHarmless (reconcile_svc E config svc)
    svc-IsHarmless svc st =
        Extends-weaken (IsOwn config.dry_run svc.svc) IsHarmless
          (IsHarmless-of_own config.dry_run svc.svc dry) (reconcile_svc-Only-Own E config svc st)

    named-IsHarmless :
        (namespace name : Option String) (body : Exec (State E) Error Unit)
        → Only IsHarmless body
        → Only IsHarmless (named E config namespace name body)
    named-IsHarmless none name body h st = Extends-refl IsHarmless st.trace
    named-IsHarmless (some namespace) none body h st = Extends-refl IsHarmless st.trace
    named-IsHarmless (some namespace) (some name) body h st = h st

    all-IsHarmless :
        (svcs : List ExternalIpSvc) (errors : List Error)
        → Only IsHarmless (reconcile_all E config svcs errors)
    unfolding reconcile_all
    all-IsHarmless [] errors st = Extends-refl IsHarmless st.trace
    all-IsHarmless (svc ∷ rest) errors st =
        bind-Only IsHarmless (attempt E config svc errors) (reconcile_all E config rest)
          (named-IsHarmless svc.svc.metadata.namespace svc.svc.metadata.name
            (reconcile_svc E config svc) (svc-IsHarmless svc))
          (all-IsHarmless rest) st

    svcs-IsHarmless :
        (answer : Result String (List Service)) (w : E.World)
        → Only IsHarmless (map_err Error.kube (Svc.received E answer w))
    svcs-IsHarmless (ok items) w st = Extends-refl IsHarmless st.trace
    svcs-IsHarmless (err e) w st = Extends-refl IsHarmless st.trace

    -- In a dry run a whole pass patches no service, however it ends: all it does to the world
    -- beyond reading it is to send requests to address providers and to publish events.
    pub reconcile_svcs-Only-IsHarmless : Only IsHarmless (reconcile_svcs E config)
    unfolding reconcile_svcs reconcile_listed Svc.find_annotated_svcs
    reconcile_svcs-Only-IsHarmless =
        bind-Only IsHarmless (map_err (ip_source "registry") (refresh E))
          (λ _. reconcile_listed E config) refresh-IsHarmless
          λ _.
            bind-Only IsHarmless (map_err Error.kube (Svc.find_annotated_svcs E))
              (reconcile_found E config)
              (λ st. svcs-IsHarmless (E.list_services st.world).0 (E.list_services st.world).1 st)
              λ svcs. all-IsHarmless (filter_map found svcs) []
