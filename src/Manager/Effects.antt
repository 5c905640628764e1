-- ===== src/Manager/Effects.antt =====
-- The effects of calls on the world, as what they add to the trace.
use mathlib.Core.List.{append_assoc, append-nil}
use externalip_manager.Prelude.{
  ◌≡◌, ◌∙◌, ap, sym, ℕ, Option, none, some, List, [], ◌∷◌, ◌++◌, All, All-append, Bool, true, false,
}
use externalip_manager.Prelude.Outcome.{
  Outcome, done, fail, panic, Result, ok, err, Exec, resume, ◌>>=◌, lift,
}
use externalip_manager.Net.{IpAddr, AddressKind}
use externalip_manager.Crd.{PartialSolver}
use externalip_manager.Kube.{Service, Effect, requested, published, patched}
use externalip_manager.Env.{Env}
use externalip_manager.Solver.{Solver, Merge as MergeSolver}
use externalip_manager.State.{State, Key, Slot, lock, lock_slot, acquire, release}
use externalip_manager.Solvers.Merge
use externalip_manager.Solvers.Merge.{
  Call, visit, guarded, collect_parts, part, part_of, proceed, query_parts,
}

-- The trace grew by effects that all have the property.
pub record Extends (P : Effect → Type 0) (before after : List Effect) : Type 0 where
  pub added : List Effect
  pub grown : after ≡ before ++ added
  pub each : All P added

-- The call has only effects with the property.
abbrev pub Only : (P : Effect → Type 0) {E : Env} {F A : Type 0} → Exec (State E) F A → Type 0
Only P {E} m = (st : State E) → Extends P st.trace (m st).1.trace

abbrev pub IsRequest : Effect → Type 0
IsRequest (requested url) = Unit
IsRequest (published e) = ⊥
IsRequest (patched namespace name ips) = ⊥

module _ (P : Effect → Type 0) where
  pub Extends-refl : (l : List Effect) → Extends P l l
  Extends-refl l = record { added = []; grown = sym (append-nil l); each = tt }

  pub Extends-same : (l m : List Effect) → m ≡ l → Extends P l m
  Extends-same l m e = record { added = []; grown = e ∙ sym (append-nil l); each = tt }

  pub Extends-trans : {l m n : List Effect} → Extends P l m → Extends P m n → Extends P l n
  Extends-trans {l} a b = record {
    added = a.added ++ b.added;
    grown = b.grown ∙ ap (λ x. x ++ b.added) a.grown ∙ append_assoc l a.added b.added;
    each = All-append P a.added b.added a.each b.each;
  }

  module _ {E : Env} {F A B : Type 0} where
    Extends-resume :
        (r : Outcome F A) (f : A → Exec (State E) F B) (before : List Effect) (t : State E)
        → Extends P before t.trace
        → ((a : A) → Only P (f a))
        → Extends P before (resume r f t).1.trace
    Extends-resume (done a) f before t h k = Extends-trans h (k a t)
    Extends-resume (fail e) f before t h k = h
    Extends-resume (panic p) f before t h k = h

    pub bind-Only :
        (m : Exec (State E) F A) (f : A → Exec (State E) F B)
        → Only P m
        → ((a : A) → Only P (f a))
        → Only P (m >>= f)
    unfolding ◌>>=◌
    bind-Only m f h k st = Extends-resume (m st).0 f st.trace (m st).1 (h st) k

  pub lift-Only : {E : Env} {F A : Type 0} (r : Result F A) → Only P {E = E} (lift r)
  lift-Only (ok a) st = Extends-refl st.trace
  lift-Only (err e) st = Extends-refl st.trace

-- What a call of a solver does.
abbrev pub CallOnly : (P : Effect → Type 0) {E : Env} → Call E → Type 0
CallOnly P {E} call =
    (s : Solver) (kind : AddressKind) (svc : Service) (st : State E)
    → Extends P st.trace (call s kind svc st).2.trace

module _ (P : Effect → Type 0) {E : Env} where
  lock_slot-Only :
      {F : Type 0} (missing timed_out : F) (key : Key) (o : Option Slot)
      → Only P {E = E} (lock_slot missing timed_out key o)
  lock_slot-Only missing timed_out key none st = Extends-refl P st.trace
  lock_slot-Only missing timed_out key (some slot) st = lock-Only slot.solver slot.locked
    where
      lock-Only : (s : Solver) (b : Bool) → Extends P st.trace (lock timed_out key s b st).1.trace
      lock-Only s true = Extends-refl P st.trace
      lock-Only s false = Extends-refl P st.trace

  pub visit-Only :
      {F : Type 0} (call : Call E) (missing timed_out : F) (key : Key) (svc : Service)
      → CallOnly P call
      → Only P (visit call missing timed_out key svc)
  unfolding visit acquire release
  visit-Only call missing timed_out key svc h =
      bind-Only P (acquire missing timed_out key) (guarded call key svc)
        (λ st. lock_slot-Only missing timed_out key _ st) λ s st. h s key.1 svc st

  module _ (call : Call E) (h : CallOnly P call) (kind : AddressKind) (svc : Service) where
    part-Only : (ps : PartialSolver) → Only P (part call kind svc ps)
    part-Only ps = bind-Only P _ _ (visit-Only call _ _ _ svc h) λ answer.
        bind-Only P (lift answer) _ (lift-Only P answer) λ addrs. lift-Only P (part_of ps addrs)

    collect_parts-Only :
        (pss : List PartialSolver) (parts : List ℕ) → Only P (collect_parts call kind svc pss parts)
    unfolding collect_parts
    collect_parts-Only [] parts st = Extends-refl P st.trace
    collect_parts-Only (ps ∷ pss) parts st =
        bind-Only P (part call kind svc ps)
          (λ bits. collect_parts call kind svc pss (parts ++ bits ∷ [])) (part-Only ps)
          (λ bits. collect_parts-Only pss (parts ++ bits ∷ [])) st

    proceed-Only : (m : MergeSolver) (o : Option IpAddr) → Only P (proceed call m kind svc o)
    proceed-Only m (some mask) st = Extends-refl P st.trace
    proceed-Only m none st =
        bind-Only P (collect_parts call kind svc m.partial_solvers []) _
          (collect_parts-Only m.partial_solvers []) (λ parts st'. Extends-refl P st'.trace) st

    pub merge-Only : (m : MergeSolver) → Only P (Merge.get_addresses call m kind svc)
    unfolding Merge.get_addresses
    merge-Only m = proceed-Only m _
