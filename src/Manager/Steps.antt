-- ===== src/Manager/Steps.antt =====
-- The steps of a pass of the manager (crates/manager/src/lib.rs), and how each ends.
use mathlib.Core.Path.{subst}
use externalip_manager.Prelude.{
  ◌≡◌, refl, ◌∙◌, ap, sym, Option, none, some, List, Bool, true, false, String, if◌then◌else◌,
}
use externalip_manager.Prelude.Eq.{String-eq}
use externalip_manager.Prelude.Map
use externalip_manager.Prelude.Outcome.{
  Outcome, NoPanic, done, fail, panic, Result, ok, err, Exec, resume, ◌>>=◌,
}
use externalip_manager.Net.{IpAddr}
use externalip_manager.Errors.{Error, IpSourceError, ip_source}
use externalip_manager.Kube.{Service}
use externalip_manager.Env.{Env}
use externalip_manager.State.{State}
use externalip_manager.Source
use externalip_manager.Source.{source_name}
use externalip_manager.Source.Types.{ExternalIpSource}
use externalip_manager.Events.{publish}
use externalip_manager.Registry.{refresh, get_cluster}
use externalip_manager.Registry.Matches.{Frame}
use externalip_manager.Registry.Idle.{Kept, Nobody}
use externalip_manager.Registry.Merges.{Kept-refl, Kept-trans}
use externalip_manager.Registry.Queries.{SourceRegistered, SourceRegistered-SameKeys, query-Ended}
use externalip_manager.Registry.SolverLists.{IsIdle, IsResolved}
use externalip_manager.Svc.{ExternalIpSvc}
use externalip_manager.Manager.{
  ManagerConfig, parse_ips, listed_ips, checked, current_ips, queried, resolve_with, resolve,
  after_patch, update, apply, same_set, reconcile_svc,
}

-- No lock is held, and every source that is found has its solvers registered.
pub record IsReady {E : Env} (st : State E) : Type 0 where
  pub idle : IsIdle st.solvers
  pub registered :
      (name : String) (source : ExternalIpSource)
      → get_cluster E name st ≡ some source
      → SourceRegistered st.solvers source

-- How a step of a pass ends.
pub record Steady {E : Env} {A : Type 0} (st : State E) (end : Outcome Error A × State E)
    : Type 0 where
  pub calm : NoPanic end.0
  pub kept : Kept Nobody st end.1

-- The service has the name and the namespace that the loop expects.
abbrev pub IsNamed : ExternalIpSvc → Type 0
IsNamed svc =
    (namespace : String) × (name : String) × (svc.svc.metadata.namespace ≡ some namespace)
    × (svc.svc.metadata.name ≡ some name)

module _ {E : Env} where
  pub IsReady-Kept : {st t : State E} → IsReady st → Kept Nobody st t → IsReady t
  unfolding get_cluster
  IsReady-Kept {st} {t} ready k = record {
    idle = k.idle;
    registered = λ name source e.
        SourceRegistered-SameKeys st.solvers t.solvers source k.same_keys
          (ready.registered name source (ap (λ m. Map.get m name) (sym k.sources) ∙ e));
  }

  Steady-refl :
      {A : Type 0} (r : Outcome Error A) (st : State E) → NoPanic r → IsReady st → Steady st (r, st)
  Steady-refl r st c ready = record { calm = c; kept = Kept-refl Nobody st ready.idle }

  -- An event, or a patch.
  Steady-Frame :
      {A : Type 0} (r : Outcome Error A) (st t : State E)
      → NoPanic r
      → IsReady st
      → Frame st t
      → Steady st (r, t)
  Steady-Frame r st t c ready f = record {
    calm = c;
    kept = record {
      idle = subst IsIdle (sym f.solvers) ready.idle;
      same_keys = λ k. ap (λ r'. externalip_manager.Registry.Idle.has r' k) (sym f.solvers);
      sources = f.sources;
    };
  }

  Steady-after :
      {A : Type 0} {st t : State E} {end : Outcome Error A × State E}
      → Kept Nobody st t
      → Steady t end
      → Steady st end
  Steady-after k s = record { calm = s.calm; kept = Kept-trans Nobody k s.kept }

  Steady-if :
      {A : Type 0} (b : Bool) (x y : Outcome Error A × State E) (st : State E)
      → Steady st x
      → Steady st y
      → Steady st (if b then x else y)
  Steady-if true x y st h k = h
  Steady-if false x y st h k = k

  Steady-resume :
      {A B : Type 0} (r : Outcome Error A) (f : A → Exec (State E) Error B) (st t : State E)
      → NoPanic r
      → Kept Nobody st t
      → ((a : A) → Steady t (f a t))
      → Steady st (resume r f t)
  Steady-resume (done a) f st t c k h = Steady-after k (h a)
  Steady-resume (fail e) f st t c k h = record { calm = tt; kept = k }
  Steady-resume (panic p) f st t c k h = elim c [ ]

  Steady-bind :
      {A B : Type 0} (m : Exec (State E) Error A) (f : A → Exec (State E) Error B) (st : State E)
      → IsReady st
      → Steady st (m st)
      → ((a : A) (t : State E) → IsReady t → Steady t (f a t))
      → Steady st ((m >>= f) st)
  unfolding ◌>>=◌
  Steady-bind m f st ready s h =
      Steady-resume (m st).0 f st (m st).1 s.calm s.kept
        λ a. h a (m st).1 (IsReady-Kept ready s.kept)

  checked-Steady :
      (svc : Service) (r : Result Error (List IpAddr)) (st : State E)
      → IsReady st
      → Steady st (checked E svc r st)
  unfolding publish
  checked-Steady svc (ok ips) st ready = Steady-refl (done ips) st tt ready
  checked-Steady svc (err e) st ready =
      Steady-Frame (fail e) st _ tt ready (record { solvers = refl; sources = refl })

  queried-Steady :
      (svc : Service) (name : String) (r : Outcome IpSourceError (List IpAddr)) (st : State E)
      → IsResolved r
      → IsReady st
      → Steady st (queried E svc name r st)
  unfolding publish
  queried-Steady svc name (done ips) st c ready = Steady-refl (done ips) st tt ready
  queried-Steady svc name (fail e) st c ready =
      Steady-Frame (fail (ip_source name e)) st _ tt ready
        (record { solvers = refl; sources = refl })
  queried-Steady svc name (panic p) st c ready = elim c [ ]

  resolve-Steady :
      (svc : ExternalIpSvc) (o : Option ExternalIpSource) (st : State E)
      → get_cluster E (source_name svc.source) st ≡ o
      → IsReady st
      → Steady st (resolve_with E svc o st)
  unfolding publish
  resolve-Steady svc none st e ready =
      Steady-Frame _ st _ tt ready (record { solvers = refl; sources = refl })
  resolve-Steady svc (some source) st e ready =
      let q =
        query-Ended E svc.svc source st ready.idle
          (ready.registered (source_name svc.source) source e) in
      let end = Source.query E source svc.svc st in
      Steady-after q.kept (
        queried-Steady svc.svc (source_name source.kind) end.0 end.1 q.resolved
          (IsReady-Kept ready q.kept))

  after_patch-Steady :
      (svc : Service) (answer : Result String Unit) (st : State E)
      → IsReady st
      → Steady st (after_patch E svc answer st)
  unfolding publish
  after_patch-Steady svc (ok _) st ready =
      Steady-Frame (done tt) st _ tt ready (record { solvers = refl; sources = refl })
  after_patch-Steady svc (err e) st ready = Steady-refl (fail (Error.kube e)) st tt ready

  update-Steady :
      (svc : ExternalIpSvc) (addrs : List IpAddr) (st : State E)
      → IsReady st
      → Steady st (update E svc addrs st)
  unfolding update
  update-Steady svc addrs st ready =
      let k : Kept Nobody st _ = record {
        idle = ready.idle;
        same_keys = λ k. refl;
        sources = refl;
      } in
      Steady-after k (after_patch-Steady svc.svc _ _ (IsReady-Kept ready k))

  apply-Steady :
      (config : ManagerConfig) (svc : ExternalIpSvc) (current resolved : List IpAddr) (st : State E)
      → IsReady st
      → Steady st (apply E config svc current resolved st)
  unfolding apply
  apply-Steady config svc current resolved st ready =
      let unchanged = Steady-refl (done tt) st tt ready in
      Steady-if (same_set current resolved) _ _ st unchanged (
        Steady-if config.dry_run _ _ st unchanged
          (update-Steady svc (E.iterate_addresses st.world resolved) st ready))

  -- The reconciliation of a service does not panic, and keeps the registry ready.
  pub reconcile_svc-Steady :
      (config : ManagerConfig) (svc : ExternalIpSvc) (st : State E)
      → IsReady st
      → Steady st (reconcile_svc E config svc st)
  unfolding reconcile_svc current_ips resolve
  reconcile_svc-Steady config svc st ready =
      Steady-bind (current_ips E svc.svc) _ st ready
        (checked-Steady svc.svc (parse_ips E (listed_ips svc.svc)) st ready)
        λ current t ready_t.
          Steady-bind (resolve E svc) (apply E config svc current) t ready_t
            (resolve-Steady svc _ t refl ready_t)
            λ resolved u ready_u. apply-Steady config svc current resolved u ready_u
