-- ===== src/Prelude/Bits.antt =====
-- Laws of `&` on numbers of any width, by the binary digits.
use Prim.Native.Nat.{ℕ, zero, suc, ◌+◌, ◌*◌, ◌/◌, ◌%◌, ◌≤◌, min, bit_and, digits, bit_and-bitwise}
use mathlib.Core.Path.{◌≡◌, refl, ap, sym, ◌∙◌}
use native.Mathlib.Omega.{arith}

-- The recursion that `&` stands for, with its fuel in front.
abbrev conj : (fuel left right : ℕ) → ℕ
conj = digits (λ d. zero) min

conj_zero : (fuel right : ℕ) → conj fuel 0 right ≡ 0
conj_zero zero right = refl
conj_zero (suc fuel) right = refl

-- Fuel beyond the left number is not used.
spare :
    (left need given right : ℕ)
    → left ≤ need
    → need ≤ given
    → conj given left right ≡ conj need left right
spare zero need given right p q = conj_zero given right ∙ sym (conj_zero need right)
spare (suc n) need zero right p q = absurd (omega arith)
spare (suc n) zero (suc given) right p q = absurd (omega arith)
spare (suc n) (suc need) (suc given) right p q =
    let half : suc n / 2 ≤ need = omega arith in
    let rest = spare (suc n / 2) need given (right / 2) half (omega arith) in omega (arith, rest)

zero-bit_and : (b : ℕ) → bit_and 0 b ≡ 0
zero-bit_and b = bit_and-bitwise 0 b ∙ conj_zero 0 b

-- The lowest digit, and the others.
by_digit : (x y : ℕ) → bit_and x y ≡ min (x % 2) (y % 2) + 2 * bit_and (x / 2) (y / 2)
by_digit zero y = omega (arith, zero-bit_and y, zero-bit_and (y / 2))
by_digit (suc n) y =
    let whole = bit_and-bitwise (suc n) y in
    let half = bit_and-bitwise (suc n / 2) (y / 2) in
    let same = spare (suc n / 2) (suc n / 2) n (y / 2) (omega arith) (omega arith) in
    omega (arith, whole, half, same)

below : (f a b : ℕ) → a ≤ f → bit_and a b ≤ b
below f zero b h = omega (arith, zero-bit_and b)
below zero (suc a) b h = absurd (omega arith)
below (suc f) (suc a) b h =
    omega (arith, by_digit (suc a) b, below f (suc a / 2) (b / 2) (omega arith))

pub bit_and-le : (a b : ℕ) → bit_and a b ≤ b
bit_and-le a b = below a a b (omega arith)

-- The digits of `x` lie within `m`.
abbrev pub Within : ℕ → ℕ → Type 0
Within x m = bit_and x m ≡ x

-- No digit is in both.
abbrev pub Apart : ℕ → ℕ → Type 0
Apart x m = bit_and x m ≡ 0

within : (f a m : ℕ) → a ≤ f → Within (bit_and a m) m
within f zero m h = rw (zero-bit_and m) (zero-bit_and m)
within zero (suc a) m h = absurd (omega arith)
within (suc f) (suc a) m h =
    let ih = within f (suc a / 2) (m / 2) (omega arith) in
    let e : bit_and (suc a) m / 2 ≡ bit_and (suc a / 2) (m / 2) =
      omega (arith, by_digit (suc a) m) in
    let d : bit_and (bit_and (suc a) m / 2) (m / 2) ≡ bit_and (suc a / 2) (m / 2) = rw e ih in
    omega (arith, by_digit (suc a) m, by_digit (bit_and (suc a) m) m)

pub Within-bit_and : (a m : ℕ) → Within (bit_and a m) m
Within-bit_and a m = within a a m (omega arith)

comm : (f a b : ℕ) → a ≤ f → bit_and a b ≡ bit_and b a
comm zero a b h =
    omega (arith, bit_and-le b a, zero-bit_and b, ap (λ (t : ℕ). bit_and t b) (zero_of a h))
  where
    zero_of : (a : ℕ) → a ≤ 0 → a ≡ 0
    zero_of a h = omega arith
comm (suc f) a b h = omega (arith, by_digit a b, by_digit b a, comm f (a / 2) (b / 2) (omega arith))

pub bit_and_comm : (a b : ℕ) → bit_and a b ≡ bit_and b a
bit_and_comm a b = comm a a b (omega arith)

-- Numbers that lie apart add up without a carry.
carry_free : (f x y m : ℕ) → m ≤ f → Apart x y → bit_and (x + y) m ≡ bit_and x m + bit_and y m
carry_free zero x y m h d = omega (arith, bit_and-le (x + y) m, bit_and-le x m, bit_and-le y m)
carry_free (suc f) x y m h d =
    let low : x % 2 + y % 2 ≤ 1 = omega (arith, by_digit x y) in
    let high : bit_and (x / 2) (y / 2) ≡ 0 = omega (arith, by_digit x y) in
    let e : (x + y) / 2 ≡ x / 2 + y / 2 = omega arith in
    let ih : bit_and ((x + y) / 2) (m / 2) ≡ bit_and (x / 2) (m / 2) + bit_and (y / 2) (m / 2) =
      rw e (carry_free f (x / 2) (y / 2) (m / 2) (omega arith) high) in
    omega (arith, by_digit (x + y) m, by_digit x m, by_digit y m)

pub add-bit_and : (x y m : ℕ) → Apart x y → bit_and (x + y) m ≡ bit_and x m + bit_and y m
add-bit_and x y m d = carry_free m x y m (omega arith) d

Apart-Within_below : (f y n m : ℕ) → m ≤ f → Within y n → Apart n m → Apart y m
Apart-Within_below zero y n m h w d = omega (arith, bit_and-le y m)
Apart-Within_below (suc f) y n m h w d = omega (
  arith,
  by_digit y m,
  by_digit y n,
  by_digit n m,
  Apart-Within_below f (y / 2) (n / 2) (m / 2) (omega arith) (omega (arith, by_digit y n))
      (omega (arith, by_digit n m)),
)

pub Apart-Within : (y n m : ℕ) → Within y n → Apart n m → Apart y m
Apart-Within y n m = Apart-Within_below m y n m (omega arith)

pub Apart-sym : (x y : ℕ) → Apart x y → Apart y x
Apart-sym x y d = bit_and_comm y x ∙ d

pub Apart-add : (x y m : ℕ) → Apart x y → Apart x m → Apart y m → Apart (x + y) m
Apart-add x y m d p q = omega (arith, add-bit_and x y m d)

-- Sums of numbers within masks that lie apart.
pub Within-add : (x y m n : ℕ) → Apart m n → Within x m → Within y n → Within (x + y) (m + n)
Within-add x y m n d p q = omega (
  arith,
  add-bit_and x y (m + n) (Apart-sym y x (Apart-Within y n x q (Apart-sym x n x_n))),
  bit_and_comm x (m + n),
  bit_and_comm y (m + n),
  add-bit_and m n x d,
  add-bit_and m n y d,
  bit_and_comm m x,
  bit_and_comm n y,
  x_n,
  Apart-sym x n x_n,
  Apart-sym y m (Apart-Within y n m q (Apart-sym m n d)),
)
  where
    x_n : Apart x n
    x_n = Apart-Within x m n p d
