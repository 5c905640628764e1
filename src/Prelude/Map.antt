-- ===== src/Prelude/Map.antt =====
-- `HashMap` and `BTreeMap` as association lists: the program only looks up, inserts and overwrites.
use mathlib.Core.Path.{◌≡◌, refl}
use mathlib.Core.Logic.{◌≢◌, ◌⊎◌}
use mathlib.Core.Option.{Option, none, some}
use mathlib.Core.List.{List, [], ◌∷◌}
use native.Mathlib.Omega.{arith}
use externalip_manager.Prelude.Tests.{if◌then◌else◌}
use externalip_manager.Prelude.Eq.{Eq, ◌=?◌}

abbrev pub Map {ℓ κ} : Type ℓ → Type κ → Type (ℓ ⊔ κ)
Map K V = List (K × V)

module _ {ℓ κ} {K : Type ℓ} {V : Type κ} ⦃e : Eq K⦄ where
  -- `get`
  unfoldable pub get : Map K V → K → Option V
  get [] k = none
  get ((j, v) ∷ m) k = if k =? j then some v else get m k

  -- `insert`: the value of a key that is there is replaced.
  unfoldable pub insert : Map K V → K → V → Map K V
  insert [] k v = (k, v) ∷ []
  insert ((j, w) ∷ m) k v = if k =? j then (k, v) ∷ m else (j, w) ∷ insert m k v

  pub get-insert :
      (m : Map K V) (k : K) (v : V) (j : K)
      → get (insert m k v) j ≡ (if j =? k then some v else get m j)
  unfolding get insert
  get-insert [] k v j = refl
  get-insert ((i, w) ∷ m) k v j = ground (arith, get-insert m k v j)

  pub get-insert_self : (m : Map K V) (k : K) (v : V) → get (insert m k v) k ≡ some v
  get-insert_self m k v = ground (arith, get-insert m k v k)

  pub get-insert_ne : (m : Map K V) (k : K) (v : V) {j : K} → j ≢ k → get (insert m k v) j ≡ get m j
  get-insert_ne m k v {j} h = ground (arith, get-insert m k v j)

  -- `entry(k).or_insert(v)`: the value of a key that is there is kept.
  unfoldable pub or_insert : Map K V → K → V → Map K V
  unfolding get insert
  or_insert m k v = elim (get m k) [ none ↦ insert m k v | some w ↦ m ]

  pub get-or_insert :
      (m : Map K V) (k : K) (v : V) (j : K)
      → get (or_insert m k v) j
        ≡ elim (get m j) [ some w ↦ some w | none ↦ if j =? k then some v else none ]
  unfolding or_insert
  get-or_insert m k v j = ground (arith, get-insert m k v j)

  pub get-or_insert_kept :
      (m : Map K V) (k : K) (v : V) (j : K) {w : V}
      → get m j ≡ some w
      → get (or_insert m k v) j ≡ some w
  get-or_insert_kept m k v j h = ground (arith, get-or_insert m k v j)

  pub get-or_insert_old :
      (m : Map K V) (k : K) (v : V) (j : K) {w : V}
      → get (or_insert m k v) j ≡ some w
      → (get m j ≡ some w) ⊎ ((j ≡ k) × (some v ≡ some w))
  get-or_insert_old m k v j h = ground (arith, get-or_insert m k v j)
