-- ===== src/Registry/Builds.antt =====
-- The solvers that `refresh` makes: when making them succeeds, and when it panics.
use mathlib.Core.Path.{subst}
use externalip_manager.Prelude.{
  ◌≡◌, refl, ◌∙◌, ap, sym, ◌⊎◌, ℕ, ◌^◌, ◌<◌, List, [], ◌∷◌, Bool, true, false, String, All,
  All-of_Has, All-Has, Has, flat_map, arith,
}
use externalip_manager.Prelude.Outcome.{
  Outcome, NoPanic, done, fail, panic, Result, ok, err, Exec, resume, ◌>>=◌, pure,
}
use externalip_manager.Prelude.Binds.{>>=-done}
use externalip_manager.Errors.{IpSourceError}
use externalip_manager.Crd.{
  SolverKind, PartialSolverKind, PartialSolver, ClusterExternalIpSource, DnsHostnameConfig,
  from_partial,
}
use externalip_manager.Env.{Env}
use externalip_manager.Solver.{Solver, Merge as MergeStruct}
use externalip_manager.State.{State, Key, with_world}
use externalip_manager.Solvers.Dispatch
use externalip_manager.Solvers.Dns
use externalip_manager.Solvers.Merge
use externalip_manager.Solvers.Merge.{u32_max, u128_max}
use externalip_manager.Solvers.Merge.Masks.{
  mask_total, by_mask_total, new-eq-by_mask_total, new-done,
}
use externalip_manager.Registry.{
  refresh, populate, register, take_in, take_sources, received, list_sources, source_keys,
}
use externalip_manager.Registry.Matches.{fst_of}
use externalip_manager.Registry.Walk.{OfKey, AllSolvers, sources_keys, keys_sources}
use externalip_manager.Registry.Collected.{received-done}

-- The masks of a merge have a sum that fits 128 bits, or one of the two full masks as their sum.
abbrev pub FitsKind : SolverKind → Type 0
FitsKind (SolverKind.merge c) = mask_total c.partial_solvers < 2 ^ 128
FitsKind _ = Unit

abbrev pub IsFullKind : SolverKind → Type 0
IsFullKind (SolverKind.merge c) =
    (mask_total c.partial_solvers ≡ u32_max) ⊎ (mask_total c.partial_solvers ≡ u128_max)
IsFullKind _ = Unit

-- A hash set gives what was put in, the resolver can be built, and the API gives sources whose
-- merges have masks that do not overflow.
pub record IsBuildable (E : Env) : Type 0 where
  pub solvers_sound :
      (w : E.World) (keys : List Key) (k : Key) → Has k (E.iterate_solvers w keys) → Has k keys
  pub resolver : (w : E.World) → (E.build_resolver w).0 ≡ true
  pub fits :
      (w : E.World) (items : List ClusterExternalIpSource)
      → (E.list_sources w).0 ≡ ok items
      → All (AllSolvers FitsKind) items

part_fits : (p : PartialSolverKind) → FitsKind (from_partial p)
part_fits (PartialSolverKind.ip_api c) = tt
part_fits (PartialSolverKind.interface c) = tt
part_fits (PartialSolverKind.dns_hostname c) = tt
part_fits (PartialSolverKind.load_balancer_ingress c) = tt
part_fits (PartialSolverKind.static c) = tt

new-NoPanic : (pss : List PartialSolver) → mask_total pss < 2 ^ 128 → NoPanic (Merge.new pss)
new-NoPanic pss h = rw (new-eq-by_mask_total pss) (by_mask_total-NoPanic pss (mask_total pss) h)
  where
    by_mask_total-NoPanic :
        (pss : List PartialSolver) (n : ℕ) → n < 2 ^ 128 → NoPanic (by_mask_total pss n)
    by_mask_total-NoPanic pss n h = ground arith

module _ (E : Env) where
  NoPanic-resume :
      {A B : Type 0} (r : Outcome IpSourceError A) (f : A → Exec (State E) IpSourceError B)
      (t : State E)
      → NoPanic r
      → ((a : A) → NoPanic (f a t).0)
      → NoPanic (resume r f t).0
  NoPanic-resume (done a) f t h k = k a
  NoPanic-resume (fail e) f t h k = tt
  NoPanic-resume (panic p) f t h k = elim h [ ]

  built-NoPanic :
      (c : DnsHostnameConfig) (b : Bool) (st : State E)
      → b ≡ true
      → NoPanic ((Dns.built E {F = IpSourceError} c b >>= λ d. pure (Solver.dns_hostname d)) st).0
  unfolding ◌>>=◌
  built-NoPanic c true st h = tt
  built-NoPanic c false st h = cc h

  boxed-NoPanic :
      (m : Outcome IpSourceError MergeStruct) (st : State E)
      → NoPanic m
      → NoPanic (Dispatch.boxed_merge E m st).0
  boxed-NoPanic (done m) st h = tt
  boxed-NoPanic (fail e) st h = tt
  boxed-NoPanic (panic p) st h = h

  module _ (law : IsBuildable E) where
    try_from-NoPanic :
        (k : SolverKind) (st : State E) → FitsKind k → NoPanic (Dispatch.try_from E k st).0
    unfolding Dispatch.try_from Dns.new
    try_from-NoPanic (SolverKind.ip_api c) st h = tt
    try_from-NoPanic (SolverKind.interface c) st h = tt
    try_from-NoPanic (SolverKind.dns_hostname c) st h = built-NoPanic c _ _ (law.resolver st.world)
    try_from-NoPanic (SolverKind.load_balancer_ingress c) st h = tt
    try_from-NoPanic (SolverKind.static c) st h = tt
    try_from-NoPanic (SolverKind.merge c) st h =
        boxed-NoPanic _ st (new-NoPanic c.partial_solvers h)

    populate-NoPanic :
        (keys : List Key) (st : State E)
        → All (OfKey FitsKind) keys
        → NoPanic (populate E keys st).0
    unfolding populate ◌>>=◌
    populate-NoPanic [] st h = tt
    populate-NoPanic (key ∷ rest) st h =
        NoPanic-resume (Dispatch.try_from E key.0 st).0 _ _ (try_from-NoPanic key.0 st h.0)
          λ s. populate-NoPanic rest _ h.1

    take_in-NoPanic :
        (items : List ClusterExternalIpSource) (st : State E)
        → All (AllSolvers FitsKind) items
        → NoPanic (take_in E items st).0
    take_in-NoPanic items st h =
        let w = (take_sources E items st).world in
        let keys = flat_map source_keys items in
        let fit = sources_keys FitsKind part_fits items h in
        populate-NoPanic (E.iterate_solvers w keys) _ (
          All-of_Has (OfKey FitsKind) (E.iterate_solvers w keys)
            λ k m. All-Has (OfKey FitsKind) keys k fit (law.solvers_sound w keys k m))

    received-NoPanic :
        (answer : Result String (List ClusterExternalIpSource)) (w : E.World) (st : State E)
        → ((items : List ClusterExternalIpSource)
            → answer ≡ ok items
            → All (AllSolvers FitsKind) items)
        → NoPanic (resume (received E answer w st).0 (take_in E) (received E answer w st).1).0
    received-NoPanic (ok items) w st h = take_in-NoPanic items (with_world st w) (h items refl)
    received-NoPanic (err e) w st h = tt

    -- If a hash set gives only what was put in, the resolver can be built, and no merge of a
    -- source that the API lists has masks whose sum overflows 128 bits, a refresh does not panic.
    pub refresh-NoPanic : (st : State E) → NoPanic (refresh E st).0
    unfolding refresh ◌>>=◌
    refresh-NoPanic st =
        received-NoPanic (E.list_sources st.world).0 (E.list_sources st.world).1 st
          λ items e. law.fits st.world items e

  boxed-done :
      (pss : List PartialSolver) (m : Outcome IpSourceError MergeStruct) (st : State E) {s : Solver}
      {t : State E}
      → Merge.new pss ≡ m
      → Dispatch.boxed_merge E m st ≡ (done s, t)
      → (mask_total pss ≡ u32_max) ⊎ (mask_total pss ≡ u128_max)
  boxed-done pss (done m) st e h = (new-done pss m e).1
  boxed-done pss (fail x) st e h = cc (ap fst_of h)
  boxed-done pss (panic p) st e h = cc (ap fst_of h)

  try_from-done :
      (k : SolverKind) (st : State E) {s : Solver} {t : State E}
      → Dispatch.try_from E k st ≡ (done s, t)
      → IsFullKind k
  unfolding Dispatch.try_from
  try_from-done (SolverKind.ip_api c) st h = tt
  try_from-done (SolverKind.interface c) st h = tt
  try_from-done (SolverKind.dns_hostname c) st h = tt
  try_from-done (SolverKind.load_balancer_ingress c) st h = tt
  try_from-done (SolverKind.static c) st h = tt
  try_from-done (SolverKind.merge c) st h = boxed-done c.partial_solvers _ st refl h

  populate-done :
      (keys : List Key) (st : State E) {t : State E}
      → populate E keys st ≡ (done tt, t)
      → All (OfKey IsFullKind) keys
  unfolding populate ◌>>=◌
  populate-done [] st h = tt
  populate-done (key ∷ rest) st h =
      let (s, u, made, more) = >>=-done (Dispatch.try_from E key.0) _ st h in
      (try_from-done key.0 st made, populate-done rest (register E key s u).1 more)

  -- If a hash set gives all that was put in: a refresh succeeds only if every merge of every
  -- source that the API lists has a full mask as the sum of its masks; one that has not, in any
  -- source, makes the whole refresh fail.
  pub refresh-IsFull :
      ((w : E.World) (keys : List Key) (k : Key) → Has k keys → Has k (E.iterate_solvers w keys))
      → (items : List ClusterExternalIpSource) (st t : State E)
      → (E.list_sources st.world).0 ≡ ok items
      → refresh E st ≡ (done tt, t)
      → All (AllSolvers IsFullKind) items
  unfolding refresh
  refresh-IsFull complete items st t listed h =
      let (items', u, got, more) = >>=-done (list_sources E) (take_in E) st h in
      let (answer, at) =
        received-done E (E.list_sources st.world).0 (E.list_sources st.world).1 st got in
      let w = (take_sources E items' u).world in
      let keys = flat_map source_keys items' in
      let order = E.iterate_solvers w keys in
      let full = populate-done order (take_sources E items' u) more in
      subst (All (AllSolvers IsFullKind)) (same (sym answer ∙ listed)) (
        keys_sources IsFullKind items' (
          All-of_Has (OfKey IsFullKind) keys
            λ k m. All-Has (OfKey IsFullKind) order k full (complete w keys k m)))
    where
      same :
          {xs ys : List ClusterExternalIpSource}
          → ◌≡◌ {A = Result String (List ClusterExternalIpSource)} (ok xs) (ok ys)
          → xs ≡ ys
      same e = cc e
