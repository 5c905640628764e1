-- ===== src/Registry/Depth.antt =====
-- How deep solvers call one another: the bound on the depth of `get_addresses`.
use mathlib.Core.Path.{subst}
use externalip_manager.Prelude.{
  ◌≡◌, ◌≢◌, refl, ◌∙◌, ap, sym, ℕ, zero, suc, ◌+◌, ◌-◌, ◌≤◌, arith, List, [], ◌∷◌, ◌++◌, Option,
  none, some,
}
use externalip_manager.Prelude.Outcome.{Outcome, done, fail, panic, recursion, Exec, resume, ◌>>=◌}
use externalip_manager.Net.{IpAddr, AddressKind}
use externalip_manager.Errors.{SolverError, solver_not_found, solver_timeout}
use externalip_manager.Crd.{SolverKind, PartialSolver, from_partial}
use externalip_manager.Kube.{Service}
use externalip_manager.Env.{Env}
use externalip_manager.Solver.{Solver, Merge}
use externalip_manager.State.{State, Key, acquire, release}
use externalip_manager.Solvers.Merge as MergeCode
use externalip_manager.Solvers.Merge.{
  Call, attempted, guarded, visit, part, part_of, collect_parts, query_parts, proceed, assemble,
  find_mismatch,
}
use externalip_manager.Solvers.Dispatch
use externalip_manager.Source.{ask_solver, max_depth, solver_failed}
use externalip_manager.Source.Types.{QueryMode}
use externalip_manager.Registry.SolverLists.{IsIdle, IsRegistered, ask-Answered}

-- The call did not run into the bound.
abbrev pub Finished : {F A : Type 0} → Outcome F A → Type 0
Finished (done a) = Unit
Finished (fail e) = Unit
Finished (panic p) = p ≢ recursion

-- The second call ends as the first does, if the first finished.
abbrev Deeper : {S F A : Type 0} → Outcome F A × S → Outcome F A × S → Type 0
Deeper p q = Finished p.0 → q ≡ p

resume-Deeper :
    {S F A B : Type 0} (f g : A → Exec S F B) (r : Outcome F A) (s : S) (q : Outcome F A × S)
    → Deeper (r, s) q
    → ((a : A) (t : S) → Deeper (f a t) (g a t))
    → Deeper (resume r f s) (resume q.0 g q.1)
resume-Deeper {S = S} {F = F} {A = A} f g (done a) s q d k h =
    ap (λ (p : Outcome F A × S). resume p.0 g p.1) (d tt) ∙ k a s h
resume-Deeper {S = S} {F = F} {A = A} f g (fail e) s q d k h =
    ap (λ (p : Outcome F A × S). resume p.0 g p.1) (d tt)
resume-Deeper {S = S} {F = F} {A = A} f g (panic p) s q d k h =
    ap (λ (p : Outcome F A × S). resume p.0 g p.1) (d h)

bind-Deeper :
    {S F A B : Type 0} (m n : Exec S F A) (f g : A → Exec S F B) (s : S)
    → Deeper (m s) (n s)
    → ((a : A) (t : S) → Deeper (f a t) (g a t))
    → Deeper ((m >>= f) s) ((n >>= g) s)
unfolding ◌>>=◌
bind-Deeper m n f g s d k = resume-Deeper f g (m s).0 (m s).1 (n s) d k

attempted-Finished :
    (F : Type 0) (r : Outcome SolverError (List IpAddr))
    → Finished (attempted {F = F} r)
    → Finished r
attempted-Finished F (done a) h = tt
attempted-Finished F (fail e) h = tt
attempted-Finished F (panic p) h = h

module _ {E : Env} where
  -- The second call ends as the first does wherever the first finished.
  abbrev Reaches : Call E → Call E → Type 0
  Reaches c d =
      (s : Solver) (kind : AddressKind) (svc : Service) (st : State E)
      → Finished (c s kind svc st).0
      → d s kind svc st ≡ c s kind svc st

  module _ (c d : Call E) (reaches : Reaches c d) where
    visit-Deeper :
        {F : Type 0} (missing timed_out : F) (key : Key) (svc : Service) (st : State E)
        → Deeper (visit c missing timed_out key svc st) (visit d missing timed_out key svc st)
    unfolding visit
    visit-Deeper {F = F} missing timed_out key svc st =
        bind-Deeper (acquire missing timed_out key) (acquire missing timed_out key)
          (guarded c key svc) (guarded d key svc) st (λ h. refl)
          λ s t h.
            ap
              (λ (p : Outcome SolverError (List IpAddr) × Solver × State E).
                (attempted {F = F} p.0, release key p.1 p.2))
              (reaches s key.1 svc t (attempted-Finished F (c s key.1 svc t).0 h))

    part-Deeper :
        (kind : AddressKind) (svc : Service) (ps : PartialSolver) (st : State E)
        → Deeper (part c kind svc ps st) (part d kind svc ps st)
    part-Deeper kind svc ps st =
        bind-Deeper _ _ _ _ st (visit-Deeper _ _ (from_partial ps.solver, kind) svc st)
          λ answer t h. refl

    collect_parts-Deeper :
        (kind : AddressKind) (svc : Service) (pss : List PartialSolver) (parts : List ℕ)
        (st : State E)
        → Deeper (collect_parts c kind svc pss parts st) (collect_parts d kind svc pss parts st)
    unfolding collect_parts
    collect_parts-Deeper kind svc [] parts st = λ h. refl
    collect_parts-Deeper kind svc (ps ∷ pss) parts st =
        bind-Deeper (part c kind svc ps) (part d kind svc ps) _ _ st (part-Deeper kind svc ps st)
          λ bits t. collect_parts-Deeper kind svc pss (parts ++ bits ∷ []) t

    proceed-Deeper :
        (m : Merge) (kind : AddressKind) (svc : Service) (o : Option IpAddr) (st : State E)
        → Deeper (proceed c m kind svc o st) (proceed d m kind svc o st)
    proceed-Deeper m kind svc (some mask) st = λ h. refl
    proceed-Deeper m kind svc none st =
        bind-Deeper (collect_parts c kind svc m.partial_solvers [])
          (collect_parts d kind svc m.partial_solvers []) _ _ st
          (collect_parts-Deeper kind svc m.partial_solvers [] st) λ parts t h. refl

    merge-Deeper :
        (m : Merge) (kind : AddressKind) (svc : Service) (st : State E)
        → Deeper (MergeCode.get_addresses c m kind svc st) (MergeCode.get_addresses d m kind svc st)
    unfolding MergeCode.get_addresses
    merge-Deeper m kind svc st = proceed-Deeper m kind svc _ st

module _ (E : Env) where
  once :
      (depth : ℕ) → Reaches (Dispatch.get_addresses E depth) (Dispatch.get_addresses E (suc depth))
  unfolding Dispatch.get_addresses
  once zero s kind svc st h = elim (h refl) [ ]
  once (suc depth) (Solver.ip_api s) kind svc st h = refl
  once (suc depth) (Solver.interface s) kind svc st h = refl
  once (suc depth) (Solver.dns_hostname s) kind svc st h = refl
  once (suc depth) (Solver.load_balancer_ingress s) kind svc st h = refl
  once (suc depth) (Solver.static s) kind svc st h = refl
  once (suc depth) (Solver.merge s) kind svc st h =
      ap (λ (p : Outcome SolverError (List IpAddr) × State E). (p.0, Solver.merge s, p.1))
        (merge-Deeper (Dispatch.get_addresses E depth) (Dispatch.get_addresses E (suc depth))
          (once depth) s kind svc st h)

  shifted :
      (n depth deep : ℕ)
      → deep ≡ n + depth
      → Reaches (Dispatch.get_addresses E depth) (Dispatch.get_addresses E deep)
  shifted zero depth deep e s kind svc st h =
      let same : deep ≡ depth = omega (arith, e) in
      ap (λ (d : ℕ). Dispatch.get_addresses E d s kind svc st) same
  shifted (suc n) depth zero e s kind svc st h = absurd (omega (arith, e))
  shifted (suc n) depth (suc deep) e s kind svc st h =
      let ih = shifted n depth deep (omega (arith, e)) s kind svc st h in
      once deep s kind svc st (
        subst (λ (p : Outcome SolverError (List IpAddr) × Solver × State E). Finished p.0) (sym ih)
          h)
      ∙ ih

  -- A call that did not run into the bound on the depth ends the same, with the same effects,
  -- under every larger bound.
  pub get_addresses_deeper :
      (depth deep : ℕ) (s : Solver) (kind : AddressKind) (svc : Service) (st : State E)
      → depth ≤ deep
      → Finished (Dispatch.get_addresses E depth s kind svc st).0
      → Dispatch.get_addresses E deep s kind svc st ≡ Dispatch.get_addresses E depth s kind svc st
  get_addresses_deeper depth deep s kind svc st le h =
      shifted (deep - depth) depth deep (omega (arith, le)) s kind svc st h

  -- From a registry with no lock held, the bound is not felt: a registered solver whose callees
  -- are registered, asked under any bound of at least two, answers as it does under the bound of
  -- two, with the same effects.
  pub ask_solver_deeper :
      (deep : ℕ) (mode : QueryMode) (kind : AddressKind) (svc : Service) (s : SolverKind)
      (st : State E)
      → max_depth ≤ deep
      → IsIdle st.solvers
      → IsRegistered st.solvers kind s
      → visit
          (Dispatch.get_addresses E deep)
          (solver_failed (solver_not_found s kind))
          (solver_failed solver_timeout)
          (s, kind)
          svc
          st
        ≡ ask_solver E mode kind svc s st
  ask_solver_deeper deep mode kind svc s st le idle h =
      visit-Deeper (Dispatch.get_addresses E max_depth) (Dispatch.get_addresses E deep)
        (λ s' kind' svc' t f. get_addresses_deeper max_depth deep s' kind' svc' t le f) _ _
        (s, kind) svc st (subst Finished (sym (ask-Answered E mode kind svc s st idle h).came) tt)
