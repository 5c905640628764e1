-- ===== src/Registry/Visits.antt =====
-- A visit of a solver behind its lock, seen without the lock.
use externalip_manager.Prelude.{
  ◌≡◌, refl, ◌∙◌, ap, sym, ℕ, suc, Bool, true, false, Option, some, List, if◌then◌else◌,
}
use externalip_manager.Prelude.Map
use externalip_manager.Prelude.Outcome.{
  Outcome, done, fail, panic, Result, ok, err, Exec, resume, lift, ◌>>=◌,
}
use externalip_manager.Net.{IpAddr, AddressKind}
use externalip_manager.Errors.{SolverError}
use externalip_manager.Crd.{SolverKind}
use externalip_manager.Kube.{Service}
use externalip_manager.Env.{Env}
use externalip_manager.Solver.{Solver}
use externalip_manager.State.{
  State, Key, Key-eq, Slot, SolverRegistry, acquire, lock, lock_slot, set_slot, release,
}
use externalip_manager.Solvers.Merge.{Call, visit, guarded, attempted}
use externalip_manager.Solvers.Dispatch
use externalip_manager.Solvers.Framed.{IsSimple, get_addresses-Framed}
use externalip_manager.Registry.Matches.{Matches}
use externalip_manager.Registry.Quiet.{IsLeaf}
use externalip_manager.Registry.Plain.{
  Plain, plain, solver_of, keeping, Ask, consult, consult_found, ask_simple, ask_any,
}

-- The second end is the first without the locks.
abbrev pub Sees : {E : Env} {F A : Type 0} → Outcome F A × State E → Outcome F A × Plain E → Type 0
Sees p q = q ≡ (p.0, plain p.1)

solver_of-if :
    (b : Bool) (slot : Slot) (o : Option Slot)
    → solver_of (if b then some slot else o) ≡ (if b then some slot.solver else solver_of o)
solver_of-if true slot o = refl
solver_of-if false slot o = refl

same_solver :
    (m : SolverRegistry) (key k : Key) (slot : Slot) (b : Bool)
    → Map.get m key ≡ some slot
    → solver_of (Map.get (Map.insert m key (record { solver = slot.solver; locked = b })) k)
      ≡ solver_of (Map.get m k)
same_solver m key k slot b e = elim (Key-eq.dec k key) [
  | yes p ↦
      ap
        (λ j.
          solver_of (Map.get (Map.insert m key (record { solver = slot.solver; locked = b })) j))
        p
      ∙ ap solver_of (Map.get-insert_self m key _)
      ∙ sym (ap solver_of e)
      ∙ sym (ap (λ j. solver_of (Map.get m j)) p)
  | no n ↦ ap solver_of (Map.get-insert_ne m key _ n)
]

module _ {E : Env} where
  resume-Sees :
      {F A B : Type 0} (r : Outcome F A) (f : A → Exec (State E) F B) (g : A → Exec (Plain E) F B)
      (t : State E)
      → ((a : A) → r ≡ done a → Sees (f a t) (g a (plain t)))
      → Sees (resume r f t) (resume r g (plain t))
  resume-Sees (done a) f g t h = h a refl
  resume-Sees (fail e) f g t h = refl
  resume-Sees (panic p) f g t h = refl

  pub bind-Sees :
      {F A B : Type 0} (m : Exec (State E) F A) (n : Exec (Plain E) F A)
      (f : A → Exec (State E) F B) (g : A → Exec (Plain E) F B) (st : State E)
      → Sees (m st) (n (plain st))
      → ((a : A) → (m st).0 ≡ done a → Sees (f a (m st).1) (g a (plain (m st).1)))
      → Sees ((m >>= f) st) ((n >>= g) (plain st))
  unfolding ◌>>=◌
  bind-Sees {F = F} {A = A} m n f g st h k =
      ap (λ (p : Outcome F A × Plain E). resume p.0 g p.1) h ∙ resume-Sees (m st).0 f g (m st).1 k

  pub lift-Sees :
      {F A : Type 0} (r : Result F A) (st : State E) → Sees (lift r st) (lift r (plain st))
  lift-Sees (ok a) st = refl
  lift-Sees (err e) st = refl

  abbrev with_solvers : Plain E → (Key → Option Solver) → Plain E
  with_solvers p f = record p { solver = f }

  -- Giving a lock back is to keep the solver.
  release-keeping :
      (key : Key) (s : Solver) (t : State E) → plain (release key s t) ≡ keeping key s (plain t)
  unfolding release
  release-keeping key s t = ap (with_solvers (plain t)) λ i k.
      (ap solver_of (Map.get-insert t.solvers key (record { solver = s; locked = false }) k)
          ∙ solver_of-if _ (record { solver = s; locked = false }) (Map.get t.solvers k))
        i

  -- Taking a lock cannot be seen.
  lock-plain :
      (key : Key) (slot : Slot) (st : State E)
      → Map.get st.solvers key ≡ some slot
      → plain (set_slot key (record { solver = slot.solver; locked = true }) st) ≡ plain st
  lock-plain key slot st e =
      ap (with_solvers (plain st)) λ i k. same_solver st.solvers key k slot true e i

  module _ {F : Type 0} (call : Call E) (ask : Ask E) (missing timed_out : F) (svc : Service) where
    locked_call :
        (key : Key) (s : Solver) (locked : Bool) (st : State E)
        → locked ≡ false
        → resume
            (lock timed_out key s locked st).0
            (guarded call key svc)
            (lock timed_out key s locked st).1
          ≡ guarded call key svc s (set_slot key (record { solver = s; locked = true }) st)
    locked_call key s true st h = cc h
    locked_call key s false st h = refl

    visit_runs :
        (key : Key) (slot : Slot) (st : State E)
        → Map.get st.solvers key ≡ some slot
        → slot.locked ≡ false
        → visit call missing timed_out key svc st
          ≡ guarded call key svc slot.solver
              (set_slot key (record { solver = slot.solver; locked = true }) st)
    unfolding visit acquire ◌>>=◌
    visit_runs key slot st e free =
        ap
          (λ (o : Option Slot).
            resume (lock_slot missing timed_out key o st).0 (guarded call key svc)
              (lock_slot missing timed_out key o st).1)
          e
        ∙ locked_call key slot.solver slot.locked st free

    -- If the solver that is there, called under its lock, does what it does alone, so does its
    -- visit.
    pub visit-Sees :
        (key : Key) (slot : Slot) (st : State E)
        → Map.get st.solvers key ≡ some slot
        → slot.locked ≡ false
        → (let u = set_slot key (record { solver = slot.solver; locked = true }) st in
            ask slot.solver key.1 svc (plain u) ≡ (
              (call slot.solver key.1 svc u).0,
              (call slot.solver key.1 svc u).1,
              plain (call slot.solver key.1 svc u).2,
            ))
        → Sees (visit call missing timed_out key svc st) (consult ask missing key svc (plain st))
    visit-Sees key slot st e free same =
        let u = set_slot key (record { solver = slot.solver; locked = true }) st in
        let r = call slot.solver key.1 svc u in
        ap (λ o. consult_found ask missing key svc o (plain st)) (ap solver_of e)
        ∙ ap (λ p. consult_found ask missing key svc (some slot.solver) p)
            (sym (lock-plain key slot st e))
        ∙ ap
            (λ (p : Outcome SolverError (List IpAddr) × Solver × Plain E).
              (attempted {F = F} p.0, keeping key p.1 p.2))
            same
        ∙ ap (λ (p : Plain E). (attempted {F = F} r.0, p)) (sym (release-keeping key r.1 r.2))
        ∙ ap (λ (p : Outcome F (Result SolverError (List IpAddr)) × State E). (p.0, plain p.1))
            (sym (visit_runs key slot st e free))

  -- A solver that calls no other does under any locks what it does alone.
  pub ask_simple-Sees :
      (depth : ℕ) (s : Solver) (kind : AddressKind) (svc : Service) (st : State E)
      → IsSimple E s
      → ask_simple s kind svc (plain st) ≡ (
        (Dispatch.get_addresses E (suc depth) s kind svc st).0,
        (Dispatch.get_addresses E (suc depth) s kind svc st).1,
        plain (Dispatch.get_addresses E (suc depth) s kind svc st).2,
      )
  ask_simple-Sees depth s kind svc st h = sym (
      ap (λ (p : Outcome SolverError (List IpAddr) × Solver × State E). (p.0, p.1, plain p.2))
        (get_addresses-Framed E depth s kind svc st h))

  pub simple_asked :
      (s : Solver) (kind : AddressKind) (svc : Service) (p : Plain E)
      → IsSimple E s
      → ask_any s kind svc p ≡ ask_simple s kind svc p
  unfolding ask_any
  simple_asked (Solver.ip_api s) kind svc p h = refl
  simple_asked (Solver.interface s) kind svc p h = refl
  simple_asked (Solver.dns_hostname s) kind svc p h = refl
  simple_asked (Solver.load_balancer_ingress s) kind svc p h = refl
  simple_asked (Solver.static s) kind svc p h = refl
  simple_asked (Solver.merge s) kind svc p h = elim h [ ]

module _ (E : Env) where
  pub leaf-IsSimple : (k : SolverKind) (s : Solver) → IsLeaf k → Matches k s → IsSimple E s
  leaf-IsSimple k (Solver.ip_api s) l m = tt
  leaf-IsSimple k (Solver.interface s) l m = tt
  leaf-IsSimple k (Solver.dns_hostname s) l m = tt
  leaf-IsSimple k (Solver.load_balancer_ingress s) l m = tt
  leaf-IsSimple k (Solver.static s) l m = tt
  leaf-IsSimple (SolverKind.merge c) (Solver.merge s) l m = l
  leaf-IsSimple (SolverKind.ip_api c) (Solver.merge s) l m = m
  leaf-IsSimple (SolverKind.interface c) (Solver.merge s) l m = m
  leaf-IsSimple (SolverKind.dns_hostname c) (Solver.merge s) l m = m
  leaf-IsSimple (SolverKind.load_balancer_ingress c) (Solver.merge s) l m = m
  leaf-IsSimple (SolverKind.static c) (Solver.merge s) l m = m
