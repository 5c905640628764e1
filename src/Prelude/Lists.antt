-- ===== src/Prelude/Lists.antt =====
-- Lists over the native numbers, predicates on their elements, and Rust's iterator adaptors.
use Prim.Native.Nat.{ℕ, suc, ◌+◌}
use mathlib.Core.Path.{◌≡◌, refl, subst, sym}
use mathlib.Core.Bool.{Bool, true, false, ◌||◌}
use mathlib.Core.Logic.{◌⊎◌, inl, inr}
use mathlib.Core.Option.{Option, none, some}
use mathlib.Core.List.{List, [], ◌∷◌, ◌++◌, map}
use native.Mathlib.Omega.{arith}
use externalip_manager.Prelude.Tests.{if◌then◌else◌}
use externalip_manager.Prelude.Eq.{Eq, ◌=?◌}

module _ {ℓ} {A : Type ℓ} where
  abbrev pub length : List A → ℕ
  length [] = 0
  length (x ∷ xs) = suc (length xs)

  -- `Vec::is_empty`
  abbrev pub is_empty : List A → Bool
  is_empty [] = true
  is_empty (x ∷ xs) = false

  -- `slice::last`
  abbrev pub get_last? : List A → Option A
  get_last? [] = none
  get_last? (x ∷ []) = some x
  get_last? (x ∷ y ∷ xs) = get_last? (y ∷ xs)

  -- `Iterator::filter`
  abbrev pub keep : (A → Bool) → List A → List A
  keep p [] = []
  keep p (x ∷ xs) = if p x then x ∷ keep p xs else keep p xs

  -- Every element has the property.
  abbrev pub All {κ} : (A → Type κ) → List A → Type κ
  All P [] = Unit
  All P (x ∷ xs) = P x × All P xs

  pub All-append {κ} : (P : A → Type κ) (xs ys : List A) → All P xs → All P ys → All P (xs ++ ys)
  All-append P [] ys h k = k
  All-append P (x ∷ xs) ys h k = (h.0, All-append P xs ys h.1 k)

  pub length-append : (xs ys : List A) → length (xs ++ ys) ≡ length xs + length ys
  length-append [] ys = omega arith
  length-append (x ∷ xs) ys = omega (arith, length-append xs ys)

module _ {ℓ κ} {A : Type ℓ} (P : A → Type κ) where
  pub All-split : (xs ys : List A) → All P (xs ++ ys) → All P xs × All P ys
  All-split [] ys h = (tt, h)
  All-split (x ∷ xs) ys h = let (a, b) = All-split xs ys h.1 in ((h.0, a), b)

module _ {A : Type 0} where
  -- The element occurs.
  abbrev pub Has : A → List A → Type 0
  Has a [] = ⊥
  Has a (x ∷ xs) = (a ≡ x) ⊎ Has a xs

  pub All-of_Has {κ} : (P : A → Type κ) (xs : List A) → ((a : A) → Has a xs → P a) → All P xs
  All-of_Has P [] h = tt
  All-of_Has P (x ∷ xs) h = (h x (inl refl), All-of_Has P xs (λ a m. h a (inr m)))

  pub All-Has {κ} : (P : A → Type κ) (xs : List A) (a : A) → All P xs → Has a xs → P a
  All-Has P [] a h m = elim m [ ]
  All-Has P (x ∷ xs) a h (inl e) = subst P (sym e) h.0
  All-Has P (x ∷ xs) a h (inr m) = All-Has P xs a h.1 m

  pub Has-append_left : (a : A) (xs ys : List A) → Has a xs → Has a (xs ++ ys)
  Has-append_left a [] ys h = elim h [ ]
  Has-append_left a (x ∷ xs) ys (inl e) = inl e
  Has-append_left a (x ∷ xs) ys (inr h) = inr (Has-append_left a xs ys h)

  pub Has-append_right : (a : A) (xs ys : List A) → Has a ys → Has a (xs ++ ys)
  Has-append_right a [] ys h = h
  Has-append_right a (x ∷ xs) ys h = inr (Has-append_right a xs ys h)

All-kept {κ} :
    {B : Type 0}
    → (P : B → Type κ) (o : Option B) (ys : List B) → ((b : B) → o ≡ some b → P b)
    → All P ys
    → All P (elim o [ none ↦ ys | some b ↦ b ∷ ys ])
All-kept P none ys h k = k
All-kept P (some b) ys h k = (h b refl, k)

-- `Iterator::filter_map` and `Iterator::flat_map`
module _ {A B : Type 0} where
  abbrev pub filter_map : (A → Option B) → List A → List B
  filter_map f [] = []
  filter_map f (x ∷ xs) = elim (f x) [ none ↦ filter_map f xs | some b ↦ b ∷ filter_map f xs ]

  abbrev pub flat_map : (A → List B) → List A → List B
  flat_map f [] = []
  flat_map f (x ∷ xs) = f x ++ flat_map f xs

  pub All-filter_map {κ} :
      (P : B → Type κ) (f : A → Option B) (xs : List A)
      → All (λ a. (b : B) → f a ≡ some b → P b) xs
      → All P (filter_map f xs)
  All-filter_map P f [] h = tt
  All-filter_map P f (x ∷ xs) h = All-kept P (f x) _ h.0 (All-filter_map P f xs h.1)

  pub All-flat_map {κ} :
      (P : B → Type κ) (f : A → List B) (xs : List A)
      → All (λ a. All P (f a)) xs
      → All P (flat_map f xs)
  All-flat_map P f [] h = tt
  All-flat_map P f (x ∷ xs) h = All-append P (f x) (flat_map f xs) h.0 (All-flat_map P f xs h.1)

  pub All-of_flat_map {κ} :
      (P : B → Type κ) (f : A → List B) (xs : List A)
      → All P (flat_map f xs)
      → All (λ a. All P (f a)) xs
  All-of_flat_map P f [] h = tt
  All-of_flat_map P f (x ∷ xs) h =
      let (a, b) = All-split P (f x) (flat_map f xs) h in (a, All-of_flat_map P f xs b)

  pub All-map {κ} :
      (P : B → Type κ) (f : A → B) (xs : List A) → All P (map f xs) → All (λ a. P (f a)) xs
  All-map P f [] h = tt
  All-map P f (x ∷ xs) h = (h.0, All-map P f xs h.1)

  pub Has-flat_map :
      (f : A → List B) (b : B) (a : A) (xs : List A)
      → Has a xs
      → Has b (f a)
      → Has b (flat_map f xs)
  Has-flat_map f b a [] h k = elim h [ ]
  Has-flat_map f b a (x ∷ xs) (inl e) k = Has-append_left b (f x) (flat_map f xs) (rw (← e) k)
  Has-flat_map f b a (x ∷ xs) (inr h) k =
      Has-append_right b (f x) (flat_map f xs) (Has-flat_map f b a xs h k)

module _ {ℓ} {A : Type ℓ} ⦃e : Eq A⦄ where
  -- `slice::contains`, `HashSet::contains`
  abbrev pub contains : List A → A → Bool
  contains [] a = false
  contains (x ∷ xs) a = a =? x || contains xs a
