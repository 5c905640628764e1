-- ===== src/Manager/Passes.antt =====
-- The passes of the manager (crates/manager/src/lib.rs): the run of a pass over its services.
use mathlib.Core.Path.{subst}
use mathlib.Core.List.{append_assoc, append-nil}
use externalip_manager.Prelude.{◌≡◌, refl, ◌∙◌, ap, sym, List, [], ◌∷◌, ◌++◌, All}
use externalip_manager.Prelude.Eq.{String-eq}
use externalip_manager.Prelude.Outcome.{Outcome, done, fail, panic, resume, ◌>>=◌}
use externalip_manager.Errors.{Error}
use externalip_manager.Env.{Env}
use externalip_manager.State.{State}
use externalip_manager.Svc.{ExternalIpSvc}
use externalip_manager.Manager.{
  ManagerConfig, reconcile_svc, named, push_error, attempt, reconcile_all,
}
use externalip_manager.Prelude.Outcome.{NoPanic}
use externalip_manager.Manager.Steps.{IsReady, IsNamed, IsReady-Kept, reconcile_svc-Steady}

module _ (E : Env) (config : ManagerConfig) where
  -- A whole pass: every service is reconciled, in order and from the state that the one before
  -- left; the errors are collected.
  pub data Pass : List ExternalIpSvc → State E → List Error → State E → Type 0 where
    finished : {st : State E} → Pass [] st [] st
    fine :
        {svc : ExternalIpSvc} {rest : List ExternalIpSvc} {st t u : State E} {errors : List Error}
        → reconcile_svc E config svc st ≡ (done tt, t)
        → Pass rest t errors u
        → Pass (svc ∷ rest) st errors u
    failed :
        {svc : ExternalIpSvc} {rest : List ExternalIpSvc} {st t u : State E} {e : Error}
        {errors : List Error}
        → reconcile_svc E config svc st ≡ (fail e, t)
        → Pass rest t errors u
        → Pass (svc ∷ rest) st (e ∷ errors) u

  -- How the loop over the services ends, from what it had collected.
  abbrev pub Passed :
      List ExternalIpSvc → List Error → State E → Outcome Error (List Error) × State E → Type 0
  Passed svcs errors st end =
      (more : List Error) × (end.0 ≡ done (errors ++ more))
      × Pass svcs st more end.1
      × IsReady end.1

  pub attempt-named :
      (svc : ExternalIpSvc) (errors : List Error) (st : State E)
      → IsNamed svc
      → attempt E config svc errors st ≡ (
        push_error E config errors (reconcile_svc E config svc st).0,
        (reconcile_svc E config svc st).1,
      )
  attempt-named svc errors st (namespace, name, e, f) = λ i. (
    push_error E config errors (named E config (e i) (f i) (reconcile_svc E config svc) st).0,
    (named E config (e i) (f i) (reconcile_svc E config svc) st).1,
  )

  next :
      (svc : ExternalIpSvc) (rest : List ExternalIpSvc) (errors : List Error) (st t : State E)
      (r : Outcome Error Unit)
      → reconcile_svc E config svc st ≡ (r, t)
      → NoPanic r
      → ((errors' : List Error) → Passed rest errors' t (reconcile_all E config rest errors' t))
      → Passed
          (svc ∷ rest)
          errors
          st
          (resume (push_error E config errors r) (λ errors'. reconcile_all E config rest errors') t)
  next svc rest errors st t (done tt) e c h =
      let (more, came, pass, ready) = h errors in (more, came, fine e pass, ready)
  next svc rest errors st t (fail x) e c h =
      let (more, came, pass, ready) = h (errors ++ x ∷ []) in
      (x ∷ more, came ∙ ap done (append_assoc errors (x ∷ []) more), failed e pass, ready)
  next svc rest errors st t (panic p) e c h = elim c [ ]

  -- From a registry that is ready, the loop over services that have a name and a namespace
  -- reconciles every one of them, in order, whatever errors the others came to; it gives the
  -- errors in that order, it does not panic, and the registry is ready again.
  pub reconcile_all-Passed :
      (svcs : List ExternalIpSvc) (errors : List Error) (st : State E)
      → IsReady st
      → All IsNamed svcs
      → Passed svcs errors st (reconcile_all E config svcs errors st)
  unfolding reconcile_all ◌>>=◌
  reconcile_all-Passed [] errors st ready h =
      ([], ap done (sym (append-nil errors)), finished, ready)
  reconcile_all-Passed (svc ∷ rest) errors st ready h =
      let s = reconcile_svc-Steady config svc st ready in
      let (r, t) = reconcile_svc E config svc st in
      subst
        (λ (p : Outcome Error (List Error) × State E).
          Passed (svc ∷ rest) errors st
            (resume p.0 (λ errors'. reconcile_all E config rest errors') p.1))
        (sym (attempt-named svc errors st h.0))
        (next svc rest errors st t r refl s.calm
          λ errors'. reconcile_all-Passed rest errors' t (IsReady-Kept ready s.kept) h.1)
