-- ===== src/Solvers/Merge.antt =====
-- crates/manager/src/external_ip_source/solvers/merge.rs
pub mod Masks
pub mod Agreement
use externalip_manager.Prelude.{
  ℕ, ◌+◌, ◌-◌, ◌^◌, bit_and, Bool, ◌||◌, true, false, Option, none, some,
}
use externalip_manager.Prelude.{List, [], ◌∷◌, ◌++◌, map, ◌==◌, ltb, get_last?, if◌then◌else◌}
use externalip_manager.Prelude.Outcome.{
  Result, ok, err, Outcome, done, fail, panic, sum_overflow, ipv4_range, Exec, pure, lift, ◌>>=◌,
}
use externalip_manager.Net.{IpAddr, v4, v6, AddressKind, ipv4, ipv6}
use externalip_manager.Errors.{
  SolverError, partial_not_found, solver_lock_timeout, mask_mismatch, part_empty, IpSourceError,
  malformed, mask_sum,
}
use externalip_manager.Crd.{PartialSolver, from_partial}
use externalip_manager.Kube.{Service}
use externalip_manager.Env.{Env}
use externalip_manager.Solver.{Solver, Merge}
use externalip_manager.State.{State, Key, acquire, release}

-- `u32::MAX` and `u128::MAX`
abbrev pub u32_max : ℕ
u32_max = 2 ^ 32 - 1

abbrev pub u128_max : ℕ
u128_max = 2 ^ 128 - 1

abbrev pub ip_to_u128 : IpAddr → ℕ
ip_to_u128 (v4 b) = b
ip_to_u128 (v6 b) = b

-- `sum::<u128>()`: the build has `overflow-checks`, so a sum that does not fit panics (`none`).
unfoldable pub sum_onto : ℕ → List ℕ → Option ℕ
sum_onto acc [] = some acc
sum_onto acc (x ∷ xs) = if ltb (acc + x) (2 ^ 128) then sum_onto (acc + x) xs else none

abbrev pub sum_u128 : List ℕ → Option ℕ
sum_u128 = sum_onto 0

abbrev pub mask_bits : PartialSolver → ℕ
mask_bits ps = ip_to_u128 ps.mask

abbrev pub check_masks : List PartialSolver → Option ℕ → Outcome IpSourceError Merge
check_masks partial_solvers none = panic sum_overflow
check_masks partial_solvers (some mask) =
    if mask == u32_max || mask == u128_max
    then done (record { partial_solvers = partial_solvers })
    else fail (malformed (mask_sum mask))

-- `Merge::new`
unfoldable pub new : List PartialSolver → Outcome IpSourceError Merge
unfolding sum_onto
new partial_solvers = check_masks partial_solvers (sum_u128 (map mask_bits partial_solvers))

abbrev pub fits_kind : AddressKind → IpAddr → Bool
fits_kind ipv4 (v4 b) = true
fits_kind ipv6 (v6 b) = true
fits_kind _ _ = false

-- `find(|ps| !matches!(ps.mask, ...))`
unfoldable pub find_mismatch : AddressKind → List PartialSolver → Option IpAddr
find_mismatch kind [] = none
find_mismatch kind (ps ∷ rest) =
    if fits_kind kind ps.mask then find_mismatch kind rest else some ps.mask

-- A dynamic call of `get_addresses`: how it ended, the solver after it, and the state after it.
abbrev pub Call : Env → Type 0
Call E =
    Solver → AddressKind → Service → State E → Outcome SolverError (List IpAddr) × Solver × State E

-- What a call gave, as a value: an error of the solver does not yet end the caller.
abbrev pub attempted :
    {F : Type 0} → Outcome SolverError (List IpAddr) → Outcome F (Result SolverError (List IpAddr))
attempted (done addrs) = done (ok addrs)
attempted (fail e) = done (err e)
attempted (panic p) = panic p

module _ {E : Env} (call : Call E) where
  -- The guard of a solver's lock lives for one call.
  abbrev pub guarded :
      {F : Type 0} → Key → Service → Solver → Exec (State E) F (Result SolverError (List IpAddr))
  guarded key svc solver st =
      let (res, after, st1) = call solver key.1 svc st in (attempted res, release key after st1)

  -- Look the solver up, lock it, call it, unlock it: the body of both query loops.
  unfoldable pub visit :
      {F : Type 0} → F → F → Key → Service → Exec (State E) F (Result SolverError (List IpAddr))
  unfolding ◌>>=◌
  visit missing timed_out key svc = acquire missing timed_out key >>= guarded key svc

-- `addrs_ret.last().ok_or(...)?`, and the bits under the mask.
abbrev pub masked : PartialSolver → Option IpAddr → Result SolverError ℕ
masked ps none = err (record { reason = part_empty })
masked ps (some addr) = ok (bit_and (ip_to_u128 addr) (mask_bits ps))

abbrev pub part_of : PartialSolver → List IpAddr → Result SolverError ℕ
part_of ps addrs = masked ps (get_last? addrs)

module _ {E : Env} (call : Call E) (kind : AddressKind) (svc : Service) where
  abbrev pub part : PartialSolver → Exec (State E) SolverError ℕ
  part ps =
      visit call (record { reason = partial_not_found ps })
        (record { reason = solver_lock_timeout }) (from_partial ps.solver, kind) svc
      >>= λ answer. lift answer >>= λ addrs. lift (part_of ps addrs)

  -- The loop over the partial solvers, which pushes each part.
  unfoldable pub collect_parts : List PartialSolver → List ℕ → Exec (State E) SolverError (List ℕ)
  unfolding visit ◌>>=◌
  collect_parts [] parts = pure parts
  collect_parts (ps ∷ rest) parts = part ps >>= λ bits. collect_parts rest (parts ++ bits ∷ [])

-- The sum of the parts as an address.
abbrev pub address_of : AddressKind → ℕ → Outcome SolverError (List IpAddr)
address_of ipv4 bits = if ltb bits (2 ^ 32) then done (v4 bits ∷ []) else panic ipv4_range
address_of ipv6 bits = done (v6 bits ∷ [])

unfoldable pub assemble : AddressKind → List ℕ → Outcome SolverError (List IpAddr)
unfolding sum_onto
assemble kind parts = elim (sum_u128 parts) [
  | none ↦ panic sum_overflow
  | some bits ↦ address_of kind bits
]

module _ {E : Env} (call : Call E) where
  abbrev pub query_parts : Merge → AddressKind → Service → Exec (State E) SolverError (List IpAddr)
  query_parts self kind svc =
      collect_parts call kind svc self.partial_solvers [] >>= λ parts st. (assemble kind parts, st)

  -- The match on the mismatch of the masks, and what follows it.
  abbrev pub proceed :
      Merge → AddressKind → Service → Option IpAddr → Exec (State E) SolverError (List IpAddr)
  proceed self kind svc (some mask) st = (fail (record { reason = mask_mismatch kind mask }), st)
  proceed self kind svc none st = query_parts self kind svc st

  unfoldable pub get_addresses :
      Merge → AddressKind → Service → Exec (State E) SolverError (List IpAddr)
  unfolding ◌>>=◌ collect_parts find_mismatch assemble
  get_addresses self kind svc = proceed self kind svc (find_mismatch kind self.partial_solvers)
