-- ===== src/Solvers/Merge/Agreement.antt =====
-- What a merge returns: the address that has, under every mask, the bits of the address that was
-- picked for the mask.
use externalip_manager.Prelude.{
  ℕ, ◌<◌, ◌≡◌, refl, ap, ◌∙◌, sym, none, some, Option, List, [], ◌∷◌, ◌++◌, arith, get_last?,
  bit_and,
}
use mathlib.Core.Path.{subst}
use mathlib.Core.List.{append_assoc, append-nil}
use externalip_manager.Prelude.Binds.{>>=-done}
use externalip_manager.Prelude.Outcome.{Outcome, done, Result, ok, err, lift}
use externalip_manager.Net.{IpAddr, AddressKind}
use externalip_manager.Errors.{SolverError, partial_not_found, solver_lock_timeout}
use externalip_manager.Crd.{PartialSolver, from_partial}
use externalip_manager.Kube.{Service}
use externalip_manager.Env.{Env}
use externalip_manager.Solver.{Merge}
use externalip_manager.State.{State}
use externalip_manager.Solvers.Merge.{
  Call, visit, part, part_of, masked, collect_parts, assemble, get_addresses, proceed,
  find_mismatch, new, ip_to_u128, mask_bits,
}
use externalip_manager.Solvers.Merge.Masks.{
  parts_of, PairwiseApart, Agrees, total, total-Agrees, total-parts_of-le, assemble_lem, width,
  of_bits, IsSane, mask_total-lt-width,
}

abbrev outcome :
    {E : Env} → Outcome SolverError (List IpAddr) × State E → Outcome SolverError (List IpAddr)
outcome r = r.0

abbrev state : {E : Env} → Outcome SolverError (List IpAddr) × State E → State E
state r = r.1

module _ {E : Env} (call : Call E) (kind : AddressKind) (svc : Service) where
  -- The solver of a partial solver is asked.
  abbrev pub ask :
      PartialSolver → State E → Outcome SolverError (Result SolverError (List IpAddr)) × State E
  ask ps =
      visit call (record { reason = partial_not_found ps })
        (record { reason = solver_lock_timeout }) (from_partial ps.solver, kind) svc

  -- The partial solvers were asked in order, from one state to another; each answered with
  -- addresses, and these are the last ones of the answers.
  pub data Picked : List PartialSolver → State E → List IpAddr → State E → Type 0 where
    asked_none : {st : State E} → Picked [] st [] st
    asked :
        {ps : PartialSolver} {pss : List PartialSolver} {st t u : State E} {a : IpAddr}
        {addrs picks : List IpAddr}
        → ask ps st ≡ (done (ok addrs), t)
        → get_last? addrs ≡ some a
        → Picked pss t picks u
        → Picked (ps ∷ pss) st (a ∷ picks) u

  lift-done :
      {A : Type 0} (r : Result SolverError A) (st : State E) {a : A} {t : State E}
      → lift r st ≡ (done a, t)
      → (r ≡ ok a) × (st ≡ t)
  lift-done {A} (ok x) st h = (
    cc (ap (λ (p : Outcome SolverError A × State E). p.0) h),
    ap (λ (p : Outcome SolverError A × State E). p.1) h,
  )
  lift-done {A} (err x) st h = cc (ap (λ (p : Outcome SolverError A × State E). p.0) h)

  masked-ok :
      (ps : PartialSolver) (o : Option IpAddr) {bits : ℕ}
      → masked ps o ≡ ok bits
      → (a : IpAddr) × (o ≡ some a) × (bits ≡ bit_and (ip_to_u128 a) (mask_bits ps))
  masked-ok ps none h = cc h
  masked-ok ps (some a) h = (a, refl, cc h)

  part-done :
      (ps : PartialSolver) (st : State E) {bits : ℕ} {t : State E}
      → part call kind svc ps st ≡ (done bits, t)
      → (a : IpAddr) × (addrs : List IpAddr) × (ask ps st ≡ (done (ok addrs), t))
        × (get_last? addrs ≡ some a)
        × (bits ≡ bit_and (ip_to_u128 a) (mask_bits ps))
  part-done ps st {t} h =
      let (answer, u, asked_ps, rest) = >>=-done (ask ps) _ st h in
      let (addrs, v, lifted, last) = >>=-done (lift answer) _ u rest in
      let (e, u_v) = lift-done answer u lifted in
      let (f, v_t) = lift-done (part_of ps addrs) v last in
      let (a, g, b) = masked-ok ps (get_last? addrs) f in
      (a, addrs, asked_ps ∙ (λ i. (done (e i), (u_v ∙ v_t) i)), g, b)

  of_done :
      {xs ys : List ℕ} {s t : State E}
      → (◌≡◌ {A = Outcome SolverError (List ℕ) × State E} (done xs, s) (done ys, t))
      → xs ≡ ys
  of_done {xs} {ys} h = cc (ap (λ (p : Outcome SolverError (List ℕ) × State E). p.0) h)

  pub collect_parts-Picked :
      (pss : List PartialSolver) (parts : List ℕ) (st : State E) {all : List ℕ} {t : State E}
      → collect_parts call kind svc pss parts st ≡ (done all, t)
      → (picks : List IpAddr) × Picked pss st picks t × (all ≡ parts ++ parts_of pss picks)
  unfolding collect_parts
  collect_parts-Picked [] parts st h = (
    [],
    subst (λ u. Picked [] st [] u) (ap (λ (p : Outcome SolverError (List ℕ) × State E). p.1) h)
        asked_none,
    rw append-nil (sym (of_done h)),
  )
  collect_parts-Picked (ps ∷ pss) parts st {t} h =
      let (bits, u, one, rest) = >>=-done (part call kind svc ps) _ st h in
      let (a, addrs, asked_ps, last, b) = part-done ps st one in
      let (picks, picked, e) = collect_parts-Picked pss (parts ++ bits ∷ []) u rest in
      (
        a ∷ picks,
        asked asked_ps last picked,
        e
            ∙ append_assoc parts (bits ∷ []) (parts_of pss picks)
            ∙ ap (λ (z : ℕ). parts ++ (z ∷ parts_of pss picks)) b,
      )

  pub parts-total :
      (m : Merge) (picks : List IpAddr)
      → IsSane m.partial_solvers
      → new m.partial_solvers ≡ done m
      → find_mismatch kind m.partial_solvers ≡ none
      → total (parts_of m.partial_solvers picks) < width kind
  parts-total m picks s made e = omega (
    arith,
    total-parts_of-le m.partial_solvers picks,
    mask_total-lt-width kind m.partial_solvers m s made e,
  )

  -- What a merge returns, from what was picked.
  abbrev pub IsMerged : Merge → State E → List IpAddr → State E → Type 0
  IsMerged m st addrs t =
      (bits : ℕ) × (picks : List IpAddr) × Picked m.partial_solvers st picks t
      × (addrs ≡ of_bits kind bits ∷ [])
      × (bits < width kind)
      × Agrees bits m.partial_solvers picks

  proceed-IsMerged :
      (m : Merge) (o : Option IpAddr) (st : State E) {addrs : List IpAddr} {t : State E}
      → find_mismatch kind m.partial_solvers ≡ o
      → IsSane m.partial_solvers
      → new m.partial_solvers ≡ done m
      → PairwiseApart m.partial_solvers
      → proceed call m kind svc o st ≡ (done addrs, t)
      → IsMerged m st addrs t
  proceed-IsMerged m (some mask) st e s made p h = cc (ap outcome h)
  proceed-IsMerged m none st {addrs} {t} e s made p h =
      let pss = m.partial_solvers in
      let (parts, u, collected, assembled) =
        >>=-done (collect_parts call kind svc pss []) (λ ps st'. (assemble kind ps, st')) st h in
      let (picks, picked, parts_eq) = collect_parts-Picked pss [] st collected in
      let small = parts-total m picks s made e in
      let same : assemble kind parts ≡ done (of_bits kind (total (parts_of pss picks)) ∷ []) =
        rw parts_eq (assemble_lem kind _ small) in
      (
        total (parts_of pss picks),
        picks,
        subst (λ v. Picked pss st picks v) (ap state assembled) picked,
        cc (ap outcome assembled, same),
        small,
        total-Agrees pss picks p,
      )

  -- If the masks of a merge that Merge::new accepted are addresses, as many as a vector can hold,
  -- and no two of them share a bit (overlapping masks, which Merge::new may accept too, are not
  -- meant): if the merge returns, the solvers of its parts were asked in order, it returns one
  -- address of the family it was asked for, in range, and under each mask that address has the bits
  -- of the last address of the mask's solver.
  pub get_addresses-IsMerged :
      (m : Merge) (st : State E) {addrs : List IpAddr} {t : State E}
      → IsSane m.partial_solvers
      → new m.partial_solvers ≡ done m
      → PairwiseApart m.partial_solvers
      → get_addresses call m kind svc st ≡ (done addrs, t)
      → IsMerged m st addrs t
  unfolding get_addresses
  get_addresses-IsMerged m st s made p h = proceed-IsMerged m _ st refl s made p h
