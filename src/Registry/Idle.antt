-- ===== src/Registry/Idle.antt =====
-- The registry between calls and during them: which locks are held, and that each solver stands
-- for its key.
use mathlib.Core.Path.{subst, subst₂}
use mathlib.Core.Option.{some-injective}
use externalip_manager.Prelude.{
  ◌≡◌, ◌≢◌, refl, ◌∙◌, ap, sym, ◌⊎◌, inl, inr, Option, none, some, List, Bool, true, false, not,
  arith,
}
use externalip_manager.Prelude.Map
use externalip_manager.Prelude.Outcome.{Outcome, done, fail, panic, Result, ok, err, resume}
use externalip_manager.Net.{IpAddr}
use externalip_manager.Errors.{SolverError}
use externalip_manager.Kube.{Service}
use externalip_manager.Env.{Env}
use externalip_manager.Solver.{Solver}
use externalip_manager.Source.{is_none}
use externalip_manager.State.{
  State, Key, Key-eq, SolverRegistry, Slot, acquire, lock, lock_slot, set_slot, release,
}
use externalip_manager.Solvers.Merge.{Call, visit, guarded, attempted}
use externalip_manager.Registry.Matches.{Matches, Calm, CalmAnswer}

-- The key is registered.
abbrev pub has : SolverRegistry → Key → Bool
has r k = not (is_none (Map.get r k))

-- The solver of the slot stands for the key, and its lock is free.
abbrev pub IsFree : Key → Slot → Type 0
IsFree k slot = (slot.locked ≡ false) × Matches k.0 slot.solver

-- Every slot is free, but for those of the keys in `X`, whose calls are under way.
abbrev pub IsIdleBut : (Key → Type 0) → SolverRegistry → Type 0
IsIdleBut X r = (k : Key) (slot : Slot) → Map.get r k ≡ some slot → X k ⊎ IsFree k slot

abbrev pub Nobody : Key → Type 0
Nobody k = ⊥

abbrev pub Also : Key → (Key → Type 0) → Key → Type 0
Also key X k = (k ≡ key) ⊎ X k

abbrev pub SameKeys : SolverRegistry → SolverRegistry → Type 0
SameKeys r r' = (k : Key) → has r k ≡ has r' k

-- What a call of a solver must keep, for a key whose lock is held.
pub record Kept {E : Env} (X : Key → Type 0) (st t : State E) : Type 0 where
  pub idle : IsIdleBut X t.solvers
  pub same_keys : SameKeys st.solvers t.solvers
  pub sources : t.cluster_eip_sources ≡ st.cluster_eip_sources

pub has-insert :
    (r : SolverRegistry) (key k : Key) (slot : Slot)
    → has r key ≡ true
    → has r k ≡ has (Map.insert r key slot) k
has-insert r key k slot h = ground (arith, Map.get-insert r key slot k)

IsFree-of_insert :
    (r : SolverRegistry) (key k : Key) (slot s : Slot)
    → k ≡ key
    → Map.get (Map.insert r key slot) k ≡ some s
    → IsFree key slot
    → IsFree k s
IsFree-of_insert r key k slot s p e free =
    let same : slot ≡ s = some-injective slot s (
      sym (Map.get-insert_self r key slot)
      ∙ ap (λ j. Map.get (Map.insert r key slot) j) (sym p)
      ∙ e) in
    subst₂ IsFree (sym p) same free

unlocked :
    (X : Key → Type 0) (key k : Key) (s : Slot)
    → k ≢ key
    → (Also key X k ⊎ IsFree k s)
    → X k ⊎ IsFree k s
unlocked X key k s n (inl (inl p)) = absurd (n p)
unlocked X key k s n (inl (inr x)) = inl x
unlocked X key k s n (inr free) = inr free

-- The key of a slot that is put in becomes free, and no other key is touched.
IsIdleBut-insert :
    (X : Key → Type 0) (r : SolverRegistry) (key : Key) (slot : Slot)
    → IsIdleBut (Also key X) r
    → IsFree key slot
    → IsIdleBut X (Map.insert r key slot)
IsIdleBut-insert X r key slot idle free k s e = elim (Key-eq.dec k key) [
  | yes p ↦ inr (IsFree-of_insert r key k slot s p e free)
  | no n ↦ unlocked X key k s n (idle k s (sym (Map.get-insert_ne r key slot n) ∙ e))
]

weaken :
    (X : Key → Type 0) (key k : Key) (s : Slot) → (X k ⊎ IsFree k s) → Also key X k ⊎ IsFree k s
weaken X key k s (inl x) = inl (inr x)
weaken X key k s (inr free) = inr free

pub IsIdleBut-lock :
    (X : Key → Type 0) (r : SolverRegistry) (key : Key) (slot : Slot)
    → IsIdleBut X r
    → IsIdleBut (Also key X) (Map.insert r key slot)
IsIdleBut-lock X r key slot idle k s e = elim (Key-eq.dec k key) [
  | yes p ↦ inl (inl p)
  | no n ↦ weaken X key k s (idle k s (sym (Map.get-insert_ne r key slot n) ∙ e))
]

-- How a call under a lock has to end.
pub record EndsWell {E : Env} (X : Key → Type 0) (key : Key) (st : State E)
    (end : Outcome SolverError (List IpAddr) × Solver × State E) : Type 0 where
  pub calm : Calm end.0
  pub matches : Matches key.0 end.1
  pub kept : Kept X st end.2

-- A call that ends well whenever it is made under the lock of its key.
abbrev pub IsGoodCall :
    {E : Env} → (Key → Type 0) → Key → Call E → Service → SolverRegistry → Type 0
IsGoodCall {E} X key call svc r =
    (s : Solver) (st : State E)
    → Matches key.0 s
    → IsIdleBut (Also key X) st.solvers
    → SameKeys r st.solvers
    → EndsWell (Also key X) key st (call s key.1 svc st)

-- A visit came back with an answer, from a solver that was there and free.
pub record Answered {E : Env} {F : Type 0} (X : Key → Type 0) (st : State E)
    (end : Outcome F (Result SolverError (List IpAddr)) × State E) : Type 0 where
  pub answer : Result SolverError (List IpAddr)
  pub came : end.0 ≡ done answer
  pub calm : CalmAnswer answer
  pub kept : Kept X st end.1

pub some_of : {A : Type 0} (o : Option A) → not (is_none o) ≡ true → (a : A) × (o ≡ some a)
some_of none h = cc h
some_of (some a) h = (a, refl)

attempted-done :
    {F : Type 0} (res : Outcome SolverError (List IpAddr))
    → Calm res
    → (answer : Result SolverError (List IpAddr)) × (attempted {F = F} res ≡ done answer)
      × CalmAnswer answer
attempted-done (done addrs) h = (ok addrs, refl, tt)
attempted-done (fail e) h = (err e, refl, h)
attempted-done (panic p) h = elim h [ ]

module _ {E : Env} (X : Key → Type 0) (key : Key) where
  -- The lock is taken, the call is made, the guard is dropped.
  release-Kept :
      (st : State E) (slot : Slot) (s : Solver) (t : State E)
      → has st.solvers key ≡ true
      → Matches key.0 s
      → Kept (Also key X) (set_slot key slot st) t
      → Kept X st (release key s t)
  unfolding release
  release-Kept st slot s t h m kept =
      let taken = has-insert st.solvers key in
      record {
        idle = IsIdleBut-insert X t.solvers key _ kept.idle (refl, m);
        same_keys = λ k.
            taken k slot h
            ∙ kept.same_keys k
            ∙ has-insert t.solvers key k _ (sym (kept.same_keys key) ∙ sym (taken key slot h) ∙ h);
        sources = kept.sources;
      }

pub slot-IsFree :
    (X : Key → Type 0) (key : Key) (slot : Slot)
    → ¬ X key
    → X key ⊎ IsFree key slot
    → IsFree key slot
slot-IsFree X key slot free (inl x) = absurd (free x)
slot-IsFree X key slot free (inr f) = f

module _ {E : Env} (call : Call E) {F : Type 0} (missing timed_out : F) (svc : Service) where
  visit_slot :
      (X : Key → Type 0) (key : Key) (st : State E) (s : Solver) (locked : Bool)
      → locked ≡ false
      → Matches key.0 s
      → IsIdleBut X st.solvers
      → has st.solvers key ≡ true
      → IsGoodCall X key call svc st.solvers
      → Answered X st (
          resume
            (lock timed_out key s locked st).0
            (guarded call key svc)
            (lock timed_out key s locked st).1)
  visit_slot X key st s true held m idle h good = cc held
  visit_slot X key st s false held m idle h good =
      let slot : Slot = record { solver = s; locked = true } in
      let st1 = set_slot key slot st in
      let end =
        good s st1 m (IsIdleBut-lock X st.solvers key slot idle)
          (λ k. has-insert st.solvers key k slot h) in
      let (answer, came, calm) = attempted-done {F = F} (call s key.1 svc st1).0 end.calm in
      record {
        answer = answer;
        came = came;
        calm = calm;
        kept =
            release-Kept X key st slot (call s key.1 svc st1).1 (call s key.1 svc st1).2 h
              end.matches end.kept;
      }

  -- From a registry in which only the locks of `X` are held, a visit of a registered key outside
  -- `X` always reaches the solver, and gives its lock back.
  pub visit-Answered :
      (X : Key → Type 0) (key : Key) (st : State E)
      → ¬ X key
      → IsIdleBut X st.solvers
      → has st.solvers key ≡ true
      → IsGoodCall X key call svc st.solvers
      → Answered X st (visit call missing timed_out key svc st)
  unfolding visit acquire
  visit-Answered X key st free idle h good =
      let (slot, e) = some_of (Map.get st.solvers key) h in
      let f = slot-IsFree X key slot free (idle key slot e) in
      subst
        (λ (o : Option Slot). Answered X st (
          resume (lock_slot missing timed_out key o st).0 (guarded call key svc)
            (lock_slot missing timed_out key o st).1))
        (sym e) (visit_slot X key st slot.solver slot.locked f.0 f.1 idle h good)
