-- ===== src/Manager/Rounds.antt =====
-- `reconcile_svcs` as a whole, round after round of the program's main loop.
use mathlib.Core.Path.{subst}
use mathlib.Core.Option.{some-injective}
use externalip_manager.Prelude.{
  ◌≡◌, refl, ◌∙◌, ap, sym, Option, none, some, List, [], ◌∷◌, String, All, filter_map,
  All-filter_map,
}
use externalip_manager.Prelude.Eq.{String-eq}
use externalip_manager.Prelude.Map
use externalip_manager.Prelude.Map.{Map}
use externalip_manager.Prelude.Outcome.{
  Outcome, done, fail, panic, Result, ok, err, resume, ◌>>=◌, recast,
}
use externalip_manager.Errors.{Error, FinderError, IpSourceError, ip_source}
use externalip_manager.Kube.{Service}
use externalip_manager.Env.{Env}
use externalip_manager.State.{State, with_world}
use externalip_manager.Registry.{refresh, get_cluster}
use externalip_manager.Registry.SolverLists.{IsIdle}
use externalip_manager.Registry.Matches.{snd_of}
use externalip_manager.Registry.Keys.{IsLawful}
use externalip_manager.Registry.Refreshed.{refresh-KeepsIdle, refresh-SourceRegistered}
use externalip_manager.Svc
use externalip_manager.Svc.{
  ExternalIpSvc, find, selected, annotated, find_annotated_svcs,
  annotation_cluster_external_ip_source,
}
use externalip_manager.Manager.{
  ManagerConfig, found, reconcile_listed, reconcile_found, reconcile_svcs,
}
use externalip_manager.Prelude.Outcome.{NoPanic}
use externalip_manager.Manager.Steps.{IsReady, IsNamed}
use externalip_manager.Manager.Passes.{Passed, reconcile_all-Passed}

-- What the API promises of the services that it lists: each has a name and a namespace.
abbrev pub HasName : Service → Type 0
HasName svc =
    (namespace : String) × (name : String) × (svc.metadata.namespace ≡ some namespace)
    × (svc.metadata.name ≡ some name)

abbrev pub ListsNamed : Env → Type 0
ListsNamed E =
    (w : E.World) (items : List Service) → (E.list_services w).0 ≡ ok items → All HasName items

-- The services that a pass is about.
abbrev pub annotated_svcs : List Service → List ExternalIpSvc
annotated_svcs items = filter_map found (filter_map find items)

selected-IsNamed :
    (svc : Service) (source : Option String) (e : ExternalIpSvc)
    → HasName svc
    → (r : Result FinderError ExternalIpSvc) → selected svc source ≡ some r
    → found r ≡ some e
    → IsNamed e
selected-IsNamed svc none e h r p q = cc p
selected-IsNamed svc (some source) e h r p q =
    let same : ok (record { svc = svc; source = externalip_manager.Source.Types.cluster source })
        ≡ r =
      some-injective _ r p in
    let this =
      some-injective (record { svc = svc; source = externalip_manager.Source.Types.cluster source })
        e (ap found same ∙ q) in
    subst IsNamed this h

annotated-IsNamed :
    (svc : Service) (annotations : Option (Map String String)) (e : ExternalIpSvc)
    → HasName svc
    → (r : Result FinderError ExternalIpSvc) → annotated svc annotations ≡ some r
    → found r ≡ some e
    → IsNamed e
annotated-IsNamed svc none e h r p q = cc p
annotated-IsNamed svc (some annotations) e h r p q =
    selected-IsNamed svc (Map.get annotations annotation_cluster_external_ip_source) e h r p q

find-IsNamed :
    (items : List Service)
    → All HasName items
    → All
        (λ svc.
          (r : Result FinderError ExternalIpSvc)
          → find svc ≡ some r
          → (e : ExternalIpSvc) → found r ≡ some e
          → IsNamed e)
        items
unfolding find
find-IsNamed [] h = tt
find-IsNamed (svc ∷ items) h =
    (λ r p e q. annotated-IsNamed svc svc.metadata.annotations e h.0 r p q, find-IsNamed items h.1)

pub annotated_svcs-IsNamed :
    (items : List Service) → All HasName items → All IsNamed (annotated_svcs items)
annotated_svcs-IsNamed items h = All-filter_map IsNamed found (filter_map find items) (
    All-filter_map (λ r. (e : ExternalIpSvc) → found r ≡ some e → IsNamed e) find items
      (find-IsNamed items h))

-- How a round may end: it panics only if its refresh does, and no lock is left held.
pub record Rounded {E : Env} {A B : Type 0} (refreshed : Outcome IpSourceError A)
    (end : Outcome Error B × State E) : Type 0 where
  pub calm : NoPanic refreshed → NoPanic end.0
  pub idle : IsIdle end.1.solvers

module _ (E : Env) (config : ManagerConfig) (law : IsLawful E) where
  -- After a refresh that succeeded.
  pub refreshed-IsReady :
      (st t : State E) → IsIdle st.solvers → refresh E st ≡ (done tt, t) → IsReady t
  refreshed-IsReady st t idle h = record {
    idle =
        subst (λ (x : State E). IsIdle x.solvers) (ap snd_of h) (refresh-KeepsIdle E law st idle).0;
    registered = refresh-SourceRegistered E law st t idle h;
  }

  -- The pass behind a refresh.
  listed-Passed :
      (items : List Service) (t : State E) (w : E.World)
      → IsReady t
      → All HasName items
      → E.list_services t.world ≡ (ok items, w)
      → Passed E config (annotated_svcs items) [] (with_world t w) (reconcile_listed E config t)
  unfolding reconcile_listed find_annotated_svcs ◌>>=◌
  listed-Passed items t w ready h e =
      subst
        (λ (a : Result String (List Service) × E.World).
          Passed E config (annotated_svcs items) [] (with_world t w) (
            resume (recast Error.kube (Svc.received E a.0 a.1 t).0) (reconcile_found E config)
              (Svc.received E a.0 a.1 t).1))
        (sym e)
        (reconcile_all-Passed E config (annotated_svcs items) [] (with_world t w)
          (record { idle = ready.idle; registered = ready.registered })
          (annotated_svcs-IsNamed items h))

  -- In a lawful environment, from a registry with no lock held, once the refresh succeeded and the API has listed the
  -- services, each with a name and a namespace: the pass reconciles every annotated service, in
  -- order, whatever errors the others came to, and gives the errors in that order.
  pub reconcile_svcs-Passed :
      (items : List Service) (st t : State E) (w : E.World)
      → IsIdle st.solvers
      → All HasName items
      → refresh E st ≡ (done tt, t)
      → E.list_services t.world ≡ (ok items, w)
      → Passed E config (annotated_svcs items) [] (with_world t w) (reconcile_svcs E config st)
  unfolding reconcile_svcs ◌>>=◌
  reconcile_svcs-Passed items st t w idle h e f =
      subst
        (λ (p : Outcome IpSourceError Unit × State E).
          Passed E config (annotated_svcs items) [] (with_world t w)
            (resume (recast (ip_source "registry") p.0) (λ _. reconcile_listed E config) p.1))
        (sym e) (listed-Passed items t w (refreshed-IsReady st t idle e) h f)

  received-Rounded :
      (answer : Result String (List Service)) (w : E.World) (t : State E)
      → IsReady t
      → ((items : List Service) → answer ≡ ok items → All HasName items)
      → Rounded (done tt) (
          resume
            (recast Error.kube (Svc.received E answer w t).0)
            (reconcile_found E config)
            (Svc.received E answer w t).1)
  unfolding get_cluster
  received-Rounded (ok items) w t ready h =
      let (more, came, pass, ready') =
        reconcile_all-Passed E config (annotated_svcs items) [] (with_world t w)
          (record { idle = ready.idle; registered = ready.registered })
          (annotated_svcs-IsNamed items (h items refl)) in
      record { calm = λ c. subst NoPanic (sym came) tt; idle = ready'.idle }
  received-Rounded (err e) w t ready h = record { calm = λ c. tt; idle = ready.idle }

  listed-Rounded :
      (t : State E) → IsReady t → ListsNamed E → Rounded (done tt) (reconcile_listed E config t)
  unfolding reconcile_listed find_annotated_svcs ◌>>=◌
  listed-Rounded t ready named =
      received-Rounded (E.list_services t.world).0 (E.list_services t.world).1 t ready
        (λ items e. named t.world items e)

  after-Rounded :
      (r : Outcome IpSourceError Unit) (st t : State E)
      → refresh E st ≡ (r, t)
      → IsIdle st.solvers
      → IsIdle t.solvers
      → ListsNamed E
      → Rounded r (resume (recast (ip_source "registry") r) (λ _. reconcile_listed E config) t)
  after-Rounded (done tt) st t e idle idle' named =
      listed-Rounded t (refreshed-IsReady st t idle e) named
  after-Rounded (fail x) st t e idle idle' named = record { calm = λ c. tt; idle = idle' }
  after-Rounded (panic p) st t e idle idle' named = record { calm = λ c. c; idle = idle' }

  reconcile_svcs-Rounded :
      (st : State E)
      → IsIdle st.solvers
      → ListsNamed E
      → Rounded (refresh E st).0 (reconcile_svcs E config st)
  unfolding reconcile_svcs ◌>>=◌
  reconcile_svcs-Rounded st idle named =
      after-Rounded (refresh E st).0 st (refresh E st).1 refl idle
        (refresh-KeepsIdle E law st idle).0 named

  -- In a lawful environment, from a registry with no lock held, and however the API, the providers and the resolver answer,
  -- a pass over services that have a name and a namespace leaves no lock held.
  pub reconcile_svcs-IsIdle :
      (st : State E)
      → IsIdle st.solvers
      → ListsNamed E
      → IsIdle (reconcile_svcs E config st).1.solvers
  reconcile_svcs-IsIdle st idle named = (reconcile_svcs-Rounded st idle named).idle

  -- In a lawful environment, from a registry with no lock held, a pass over services that have a name and a namespace
  -- does not panic when its refresh does not.
  pub reconcile_svcs-NoPanic :
      (st : State E)
      → IsIdle st.solvers
      → ListsNamed E
      → NoPanic (refresh E st).0
      → NoPanic (reconcile_svcs E config st).0
  reconcile_svcs-NoPanic st idle named c = (reconcile_svcs-Rounded st idle named).calm c
