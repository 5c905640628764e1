-- ===== src/Registry/Refresh.antt =====
-- `refresh`: the sources and the solvers that it leaves.
use mathlib.Core.Path.{subst, subst₂}
use mathlib.Core.Option.{some-injective}
use externalip_manager.Prelude.{
  ◌≡◌, refl, ◌∙◌, ap, sym, inl, inr, some, List, [], ◌∷◌, Bool, true, false, All, not, arith,
}
use externalip_manager.Prelude.Map
use externalip_manager.Prelude.Outcome.{Outcome, done, fail, panic, Exec, resume, ◌>>=◌, pure}
use externalip_manager.Prelude.Binds.{>>=-done}
use externalip_manager.Errors.{IpSourceError}
use externalip_manager.Crd.{SolverKind}
use externalip_manager.Env.{Env}
use externalip_manager.Solver.{Solver}
use externalip_manager.Source.{is_none}
use externalip_manager.State.{State, Key, Key-eq, SolverRegistry, Slot, with_world}
use externalip_manager.Solvers.Dispatch
use externalip_manager.Solvers.Dns
use externalip_manager.Registry.{populate, register}
use externalip_manager.Registry.Matches.{
  Matches, IsSaneKind, try_from-Matches, Frame, Frame-refl, snd_of,
}
use externalip_manager.Registry.Idle.{some_of, has, IsFree}
use externalip_manager.Registry.SolverLists.{IsIdle}

-- Every slot stays as it is.
abbrev pub KeepsSlots : SolverRegistry → SolverRegistry → Type 0
KeepsSlots r r' = (k : Key) (slot : Slot) → Map.get r k ≡ some slot → Map.get r' k ≡ some slot

-- What a stretch of `refresh` keeps, however it ends.
pub record Grown {E : Env} (st t : State E) : Type 0 where
  pub idle : IsIdle t.solvers
  pub slots : KeepsSlots st.solvers t.solvers
  pub sources : t.cluster_eip_sources ≡ st.cluster_eip_sources

module _ {E : Env} where
  Grown-refl : (st : State E) → IsIdle st.solvers → Grown st st
  Grown-refl st idle = record { idle = idle; slots = λ k s e. e; sources = refl }

  Grown-trans : {st t u : State E} → Grown st t → Grown t u → Grown st u
  Grown-trans a b = record {
    idle = b.idle;
    slots = λ k s e. b.slots k s (a.slots k s e);
    sources = b.sources ∙ a.sources;
  }

  Grown-Frame : {st t : State E} → IsIdle st.solvers → Frame st t → Grown st t
  Grown-Frame idle f = record {
    idle = subst IsIdle (sym f.solvers) idle;
    slots = λ k s e. subst (λ r. Map.get r k ≡ some s) (sym f.solvers) e;
    sources = f.sources;
  }

new_slot :
    (key k : Key) (s : Solver) (slot : Slot)
    → Matches key.0 s
    → (k ≡ key) × (some (record { solver = s; locked = false }) ≡ some slot)
    → IsFree k slot
new_slot key k s slot m (e, f) = subst₂ IsFree (sym e) (some-injective _ slot f) (refl, m)

IsIdle-or_insert :
    (r : SolverRegistry) (key : Key) (s : Solver)
    → IsIdle r
    → Matches key.0 s
    → IsIdle (Map.or_insert r key (record { solver = s; locked = false }))
IsIdle-or_insert r key s idle m k slot e = elim (Map.get-or_insert_old r key _ k e) [
  | inl old ↦ idle k slot old
  | inr new ↦ inr (new_slot key k s slot m new)
]

has-or_insert :
    (r : SolverRegistry) (key : Key) (slot : Slot) → has (Map.or_insert r key slot) key ≡ true
has-or_insert r key slot = ground (arith, Map.get-or_insert r key slot key)

has-KeepsSlots :
    (r r' : SolverRegistry) (k : Key) → KeepsSlots r r' → has r k ≡ true → has r' k ≡ true
has-KeepsSlots r r' k keeps h =
    let (slot, e) = some_of (Map.get r k) h in
    subst (λ o. not (is_none o) ≡ true) (sym (keeps k slot e)) refl

module _ (E : Env) where
  built-Frame :
      (c : _) (b : Bool) (st0 st : State E)
      → Frame st st0
      → Frame st ((Dns.built E {F = IpSourceError} c b >>= λ d. pure (Solver.dns_hostname d)) st0).1
  unfolding ◌>>=◌
  built-Frame c true st0 st f = f
  built-Frame c false st0 st f = f

  boxed-Frame :
      (m : Outcome IpSourceError _) (st : State E) → Frame st (Dispatch.boxed_merge E m st).1
  boxed-Frame (done m) st = Frame-refl st
  boxed-Frame (fail e) st = Frame-refl st
  boxed-Frame (panic p) st = Frame-refl st

  try_from-Frame : (k : SolverKind) (st : State E) → Frame st (Dispatch.try_from E k st).1
  unfolding Dispatch.try_from Dns.new
  try_from-Frame (SolverKind.ip_api c) st = Frame-refl st
  try_from-Frame (SolverKind.interface c) st = Frame-refl st
  try_from-Frame (SolverKind.dns_hostname c) st =
      built-Frame c (E.build_resolver st.world).0 (with_world st (E.build_resolver st.world).1) st
        (record { solvers = refl; sources = refl })
  try_from-Frame (SolverKind.load_balancer_ingress c) st = Frame-refl st
  try_from-Frame (SolverKind.static c) st = Frame-refl st
  try_from-Frame (SolverKind.merge c) st = boxed-Frame _ st

  -- A solver is registered for the key.
  registered :
      (key : Key) (s : Solver) (st : State E)
      → IsIdle st.solvers
      → Matches key.0 s
      → Grown st (register E key s st).1
  registered key s st idle m = record {
    idle = IsIdle-or_insert st.solvers key s idle m;
    slots = λ k slot e. Map.get-or_insert_kept st.solvers key _ k e;
    sources = refl;
  }

  Grown-resume :
      {A B : Type 0} (r : Outcome IpSourceError A) (f : A → Exec (State E) IpSourceError B)
      (st t : State E)
      → Grown st t
      → ((a : A) → r ≡ done a → Grown t (f a t).1)
      → Grown st (resume r f t).1
  Grown-resume (done a) f st t g h = Grown-trans g (h a refl)
  Grown-resume (fail e) f st t g h = g
  Grown-resume (panic p) f st t g h = g

  pub populate-Grown :
      (keys : List Key) (st : State E)
      → IsIdle st.solvers
      → All (λ (k : Key). IsSaneKind k.0) keys
      → Grown st (populate E keys st).1
  unfolding populate ◌>>=◌
  populate-Grown [] st idle sane = Grown-refl st idle
  populate-Grown (key ∷ rest) st idle sane =
      let made = Dispatch.try_from E key.0 st in
      let g = Grown-Frame idle (try_from-Frame key.0 st) in
      Grown-resume made.0 _ st made.1 g λ s e.
        let r =
          registered key s made.1 g.idle
            (try_from-Matches E key.0 st sane.0 (λ i. (e i, made.1))).0 in
        Grown-trans r (populate-Grown rest (register E key s made.1).1 r.idle sane.1)

  pub populate-has :
      (keys : List Key) (st : State E) {t : State E}
      → IsIdle st.solvers
      → All (λ (k : Key). IsSaneKind k.0) keys
      → populate E keys st ≡ (done tt, t)
      → All (λ k. has t.solvers k ≡ true) keys
  unfolding populate ◌>>=◌
  populate-has [] st idle sane h = tt
  populate-has (key ∷ rest) st {t} idle sane h =
      let (s, u, made, more) = >>=-done (Dispatch.try_from E key.0) _ st h in
      let (m, f) = try_from-Matches E key.0 st sane.0 made in
      let g = Grown-Frame idle f in
      let r = registered key s u g.idle m in
      let v = (register E key s u).1 in
      let p = populate-Grown rest v r.idle sane.1 in
      (
        has-KeepsSlots v.solvers t.solvers key
            (subst (λ (x : State E). KeepsSlots v.solvers x.solvers) (ap snd_of more) p.slots)
            (has-or_insert u.solvers key _),
        populate-has rest v r.idle sane.1 more,
      )
