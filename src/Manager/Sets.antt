-- ===== src/Manager/Sets.antt =====
-- The sets that `reconcile_svc` compares (crates/manager/src/lib.rs): a set of addresses is a list
-- of addresses up to its order and its repetitions.
use mathlib.Core.Quot
use mathlib.Core.Quot.{Quot, Quot-set}
use externalip_manager.Prelude.{
  ◌≡◌, ◌↔◌, refl, ap, sym, ◌∙◌, List, [], ◌∷◌, Bool, true, false, contains, arith, if◌then◌else◌,
}
use externalip_manager.Prelude.Outcome.{done}
use externalip_manager.Net.{IpAddr, IpAddr-eq}
use externalip_manager.Env.{Env}
use externalip_manager.State.{State}
use externalip_manager.Svc.{ExternalIpSvc}
use externalip_manager.Manager.{ManagerConfig, apply, update, subset, same_set}

-- The lists hold the same addresses.
abbrev pub SameElements : List IpAddr → List IpAddr → Type 0
SameElements xs ys = (a : IpAddr) → contains xs a ≡ contains ys a

abbrev pub AddressSet : Type 0
AddressSet = Quot SameElements

abbrev pub address_set : List IpAddr → AddressSet
address_set xs = Quot.mk xs

unfoldable pub member : AddressSet → IpAddr → Bool
member = Quot.lift (hlevel) contains (λ xs ys h i a. h a i)

subset-contains :
    (xs ys : List IpAddr) (a : IpAddr)
    → subset xs ys ≡ true
    → contains xs a ≡ true
    → contains ys a ≡ true
subset-contains [] ys a h k = cc k
subset-contains (x ∷ xs) ys a h k = ground (arith, subset-contains xs ys a)

contains-subset :
    (xs ys : List IpAddr)
    → ((a : IpAddr) → contains xs a ≡ true → contains ys a ≡ true)
    → subset xs ys ≡ true
contains-subset [] ys h = refl
contains-subset (x ∷ xs) ys h =
    ground (arith, h x, contains-subset xs ys (λ a m. h a (ground (arith, m))))

both : (a b : Bool) → (a ≡ true → b ≡ true) → (b ≡ true → a ≡ true) → a ≡ b
both true true f g = refl
both true false f g = sym (f refl)
both false true f g = g refl
both false false f g = refl

same_set-SameElements : (xs ys : List IpAddr) → same_set xs ys ≡ true → SameElements xs ys
unfolding same_set
same_set-SameElements xs ys h a =
    both _ _ (subset-contains xs ys a (ground (arith, h)))
      (subset-contains ys xs a (ground (arith, h)))

-- The comparison of two lists of addresses succeeds exactly if the lists are the same set.
pub same_set-AddressSet :
    (xs ys : List IpAddr) → (same_set xs ys ≡ true) ↔ (address_set xs ≡ address_set ys)
unfolding same_set member
same_set-AddressSet xs ys = (
  (λ h. Quot.sound (same_set-SameElements xs ys h)),
  λ e.
      let same : (a : IpAddr) → contains xs a ≡ contains ys a = λ a. ap (λ s. member s a) e in
      ground (
        arith,
        contains-subset xs ys (λ a m. sym (same a) ∙ m),
        contains-subset ys xs (λ a m. same a ∙ m),
      ),
)

module _ (E : Env) (config : ManagerConfig) (svc : ExternalIpSvc) where
  branch-Dec :
      {A B : Type 0} (x y : B) (b : Bool)
      → ((b ≡ true) ↔ A)
      → (d : Dec A) → (if b then x else y) ≡ elim d [ yes e ↦ x | no e ↦ y ]
  branch-Dec x y true iff (yes e) = refl
  branch-Dec x y true iff (no e) = elim (e (iff.0 refl)) [ ]
  branch-Dec x y false iff (yes e) = cc (iff.1 e)
  branch-Dec x y false iff (no e) = refl

  -- The step after the resolution, as a decision on two sets of addresses, however it is made: if
  -- the sets are equal nothing happens, in a dry run nothing happens either, and otherwise the
  -- service is patched with the resolved set.
  pub apply-AddressSet :
      (current resolved : List IpAddr) (st : State E)
      (agree : Dec (address_set current ≡ address_set resolved))
      → apply E config svc current resolved st ≡ elim agree [
        | yes e ↦ (done tt, st)
        | no e ↦
            if config.dry_run
            then (done tt, st)
            else update E svc (E.iterate_addresses st.world resolved) st
      ]
  unfolding apply
  apply-AddressSet current resolved st agree =
      branch-Dec _ _ (same_set current resolved) (same_set-AddressSet current resolved) agree
