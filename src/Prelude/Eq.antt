-- ===== src/Prelude/Eq.antt =====
-- Decided equality as an instance: Rust's `PartialEq` and `Eq`, derived or of the standard library.
use mathlib.Core.Logic.{ite, dite}
use mathlib.Core.Bool.{Bool, true, false, Bool-discrete}
use native.Mathlib.Decide.{ℕ_discrete}
use Prim.Native.Nat.{ℕ}
use Prim.Native.String.{String}
use text.Mathlib.Text
use text.Mathlib.TextEquality.{eq_iff}

pub record Eq {ℓ} (A : Type ℓ) : Type ℓ where
  pub dec : Discrete A

infix 50 ◌=?◌
abbrev pub ◌=?◌ {ℓ} : {A : Type ℓ} ⦃e : Eq A⦄ → A → A → Bool
◌=?◌ ⦃e⦄ a b = ite (e.dec a b) true false

unfoldable pub String-discrete : Discrete String
String-discrete s t =
    dite (Bool-discrete (Text.◌==◌ s t) true) (λ same. yes ((eq_iff s t).0 same))
      (λ differ. no (λ p. differ ((eq_iff s t).1 p)))

-- Shut in proofs: a test on two texts splits into their equation and its negation.
instance unfoldable pub String-eq : Eq String
unfolding String-discrete
String-eq = record { dec = String-discrete }

instance unfoldable pub ℕ-eq : Eq ℕ
unfolding ℕ_discrete
ℕ-eq = record { dec = ℕ_discrete }
