-- ===== src/Solvers/Merge/Masks.antt =====
-- The sums that a merge takes: of its masks when it is made, and of the parts of an address.
use externalip_manager.Prelude.{
  ℕ, ◌+◌, ◌^◌, ◌≤◌, ◌<◌, bit_and, ◌≡◌, ◌||◌, none, some, List, [], ◌∷◌, map, arith, sym, ◌==◌, ltb,
  if◌then◌else◌, ◌⊎◌, ◌*◌, All, length,
}
use mathlib.Core.Path.{subst}
use externalip_manager.Prelude.Bits.{
  Within, Apart, Within-bit_and, Within-add, Apart-Within, Apart-sym, Apart-add, add-bit_and,
  bit_and-le, bit_and_comm,
}
use externalip_manager.Prelude.Outcome.{Outcome, done, fail, panic, sum_overflow}
use externalip_manager.Net.{IpAddr, AddressKind, ipv4, ipv6, v4, v6, InRange}
use externalip_manager.Errors.{IpSourceError, malformed, mask_sum}
use externalip_manager.Crd.{PartialSolver}
use externalip_manager.Solver.{Merge}
use externalip_manager.Solvers.Merge.{
  find_mismatch, sum_onto, new, mask_bits, ip_to_u128, u32_max, u128_max, assemble,
}

-- The exact sum.
abbrev pub total : List ℕ → ℕ
total [] = 0
total (x ∷ xs) = x + total xs

sum_onto_lem :
    (acc : ℕ) (xs : List ℕ)
    → acc < 2 ^ 128
    → sum_onto acc xs ≡ (if ltb (acc + total xs) (2 ^ 128) then some (acc + total xs) else none)
unfolding sum_onto
sum_onto_lem acc [] h = ground arith
sum_onto_lem acc (x ∷ xs) h = ground (arith, sum_onto_lem (acc + x) xs)

abbrev pub mask_total : List PartialSolver → ℕ
mask_total pss = total (map mask_bits pss)

-- What the exact sum of the masks decides: a sum of 2 ^ 128 or more panics, the two full masks
-- are accepted, and every other sum is malformed.
abbrev pub by_mask_total : List PartialSolver → ℕ → Outcome IpSourceError Merge
by_mask_total pss sum =
    if ltb sum (2 ^ 128)
    then if sum == u32_max || sum == u128_max
      then done (record { partial_solvers = pss })
      else fail (malformed (mask_sum sum))
    else panic sum_overflow

pub new-eq-by_mask_total : (pss : List PartialSolver) → new pss ≡ by_mask_total pss (mask_total pss)
unfolding new
new-eq-by_mask_total pss = ground (arith, sum_onto_lem 0 (map mask_bits pss) (omega arith))

-- A merge that was made has the masks that it was made of, and they add up to a full mask.
pub new-done :
    (pss : List PartialSolver) (m : Merge)
    → new pss ≡ done m
    → (m.partial_solvers ≡ pss) × ((mask_total pss ≡ u32_max) ⊎ (mask_total pss ≡ u128_max))
new-done pss m h = ground (arith, new-eq-by_mask_total pss, h)

-- The parts of the picked addresses.
abbrev pub parts_of : List PartialSolver → List IpAddr → List ℕ
parts_of [] picks = []
parts_of (ps ∷ pss) [] = []
parts_of (ps ∷ pss) (a ∷ picks) = bit_and (ip_to_u128 a) (mask_bits ps) ∷ parts_of pss picks

pub total-parts_of-le :
    (pss : List PartialSolver) (picks : List IpAddr) → total (parts_of pss picks) ≤ mask_total pss
total-parts_of-le [] picks = omega arith
total-parts_of-le (ps ∷ pss) [] = omega arith
total-parts_of-le (ps ∷ pss) (a ∷ picks) =
    omega (arith, total-parts_of-le pss picks, bit_and-le (ip_to_u128 a) (mask_bits ps))

-- No bit is in two masks.
abbrev pub AllApart : ℕ → List PartialSolver → Type 0
AllApart m [] = Unit
AllApart m (ps ∷ pss) = Apart m (mask_bits ps) × AllApart m pss

abbrev pub PairwiseApart : List PartialSolver → Type 0
PairwiseApart [] = Unit
PairwiseApart (ps ∷ pss) = AllApart (mask_bits ps) pss × PairwiseApart pss

-- Under every mask the address has the bits of the address that was picked for the mask.
abbrev pub Agrees : ℕ → List PartialSolver → List IpAddr → Type 0
Agrees bits [] picks = Unit
Agrees bits (ps ∷ pss) [] = Unit
Agrees bits (ps ∷ pss) (a ∷ picks) =
    (bit_and bits (mask_bits ps) ≡ bit_and (ip_to_u128 a) (mask_bits ps)) × Agrees bits pss picks

Apart-total :
    (m : ℕ) (pss : List PartialSolver)
    → AllApart m pss
    → PairwiseApart pss
    → Apart (mask_total pss) m
Apart-total m [] h p = omega (arith, bit_and_comm 0 m, bit_and-le m 0)
Apart-total m (ps ∷ pss) h p =
    Apart-add (mask_bits ps) (mask_total pss) m
      (Apart-sym _ _ (Apart-total (mask_bits ps) pss p.0 p.1)) (Apart-sym m _ h.0)
      (Apart-total m pss h.1 p.1)

part-Within :
    (a : IpAddr) (ps : PartialSolver)
    → Within (bit_and (ip_to_u128 a) (mask_bits ps)) (mask_bits ps)
part-Within a ps = Within-bit_and (ip_to_u128 a) (mask_bits ps)

zero-Within : (m : ℕ) → Within 0 m
zero-Within m = omega (arith, bit_and_comm 0 m, bit_and-le m 0)

Within-total :
    (pss : List PartialSolver) (picks : List IpAddr)
    → PairwiseApart pss
    → Within (total (parts_of pss picks)) (mask_total pss)
Within-total [] picks p = zero-Within 0
Within-total (ps ∷ pss) [] p = zero-Within _
Within-total (ps ∷ pss) (a ∷ picks) p =
    Within-add _ _ _ _ (Apart-sym _ _ (Apart-total (mask_bits ps) pss p.0 p.1)) (part-Within a ps)
      (Within-total pss picks p.1)

AllApart-Within :
    (y m : ℕ) (pss : List PartialSolver) → Within y m → AllApart m pss → AllApart y pss
AllApart-Within y m [] w h = tt
AllApart-Within y m (ps ∷ pss) w h =
    (Apart-Within y m (mask_bits ps) w h.0, AllApart-Within y m pss w h.1)

AllApart-add :
    (x y : ℕ) (pss : List PartialSolver)
    → Apart x y
    → AllApart x pss
    → AllApart y pss
    → AllApart (x + y) pss
AllApart-add x y [] d h k = tt
AllApart-add x y (ps ∷ pss) d h k =
    (Apart-add x y (mask_bits ps) d h.0 k.0, AllApart-add x y pss d h.1 k.1)

-- The parts of the other masks do not reach into a mask.
Agrees-onto :
    (y : ℕ) (pss : List PartialSolver) (picks : List IpAddr)
    → AllApart y pss
    → PairwiseApart pss
    → Agrees (y + total (parts_of pss picks)) pss picks
Agrees-onto y [] picks h p = tt
Agrees-onto y (ps ∷ pss) [] h p = tt
Agrees-onto y (ps ∷ pss) (a ∷ picks) h p =
    let m : ℕ = mask_bits ps in
    let x : ℕ = bit_and (ip_to_u128 a) m in
    let r : ℕ = total (parts_of pss picks) in
    let x_m : Within x m = part-Within a ps in
    let r_n : Within r (mask_total pss) = Within-total pss picks p.1 in
    let r_m : Apart r m = Apart-Within _ _ _ r_n (Apart-total m pss p.0 p.1) in
    let r_x : Apart r x = Apart-sym x r (Apart-Within x m r x_m (Apart-sym r m r_m)) in
    let xr : Within (x + r) (mask_total (ps ∷ pss)) = Within-total (ps ∷ pss) (a ∷ picks) p in
    let xr_y : Apart (x + r) y = Apart-Within _ _ _ xr (Apart-total y (ps ∷ pss) h p) in
    let x_y : Apart x y = Apart-Within x m y x_m (Apart-sym y m h.0) in
    let regroup : y + (x + r) ≡ (y + x) + r = omega arith in
    (
      omega (
        arith,
        add-bit_and y (x + r) m (Apart-sym _ _ xr_y),
        add-bit_and x r m (Apart-sym _ _ r_x),
        x_m,
        r_m,
        h.0,
      ),
      subst (λ t. Agrees t pss picks) (sym regroup)
          (Agrees-onto (y + x) pss picks
            (AllApart-add y x pss (Apart-sym x y x_y) h.1 (AllApart-Within x m pss x_m p.0)) p.1),
    )

AllApart-zero : (pss : List PartialSolver) → AllApart 0 pss
AllApart-zero [] = tt
AllApart-zero (ps ∷ pss) = (zero-Within (mask_bits ps), AllApart-zero pss)

pub total-Agrees :
    (pss : List PartialSolver) (picks : List IpAddr)
    → PairwiseApart pss
    → Agrees (total (parts_of pss picks)) pss picks
total-Agrees pss picks p =
    let e : 0 + total (parts_of pss picks) ≡ total (parts_of pss picks) = omega arith in
    rw e at (Agrees-onto 0 pss picks (AllApart-zero pss) p)

-- The masks fit the family.
abbrev pub width : AddressKind → ℕ
width ipv4 = 2 ^ 32
width ipv6 = 2 ^ 128

abbrev pub of_bits : AddressKind → ℕ → IpAddr
of_bits ipv4 = v4
of_bits ipv6 = v6

-- A sum of parts below the family's width is an address.
pub assemble_lem :
    (kind : AddressKind) (parts : List ℕ)
    → total parts < width kind
    → assemble kind parts ≡ done (of_bits kind (total parts) ∷ [])
unfolding assemble
assemble_lem ipv4 parts h = ground (arith, sum_onto_lem 0 parts (omega arith))
assemble_lem ipv6 parts h = ground (arith, sum_onto_lem 0 parts (omega arith))

-- What Rust's types say of a list of partial solvers: the masks are addresses, and a vector of
-- them has a length that fits a word of the machine.
pub record IsSane (pss : List PartialSolver) : Type 0 where
  pub ranges : All (λ (ps : PartialSolver). InRange ps.mask) pss
  pub fits : length pss < 2 ^ 64

mask_total_v4 :
    (pss : List PartialSolver)
    → find_mismatch ipv4 pss ≡ none
    → All (λ (ps : PartialSolver). InRange ps.mask) pss
    → mask_total pss ≤ length pss * 2 ^ 32
unfolding find_mismatch
mask_total_v4 [] e h = omega arith
mask_total_v4 (ps ∷ pss) e h = ground (arith, mask_total_v4 pss)

-- The masks of a merge that was made, and that passed the check of their family, stay below the
-- family's width together.
pub mask_total-lt-width :
    (kind : AddressKind) (pss : List PartialSolver) (m : Merge)
    → IsSane pss
    → new pss ≡ done m
    → find_mismatch kind pss ≡ none
    → mask_total pss < width kind
mask_total-lt-width ipv6 pss m s h e = omega (arith, (new-done pss m h).1)
mask_total-lt-width ipv4 pss m s h e =
    omega (arith, (new-done pss m h).1, mask_total_v4 pss e s.ranges, s.fits)
