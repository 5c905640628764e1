-- ===== src/Registry/Matches.antt =====
-- Which solver stands for which configuration, and what a call may leave alone.
use mathlib.Core.Path.{subst}
use externalip_manager.Prelude.{◌≡◌, refl, ◌∙◌, ap, sym, Bool, true, false}
use externalip_manager.Prelude.Outcome.{Outcome, done, fail, panic, Result, ok, err, pure, ◌>>=◌}
use externalip_manager.Errors.{
  Reason, SolverError, IpSourceError, solver_not_found, partial_not_found, solver_timeout,
  solver_lock_timeout,
}
use externalip_manager.Crd.{SolverKind, MergeConfig, DnsHostnameConfig}
use externalip_manager.Env.{Env}
use externalip_manager.Solver.{Solver, Merge as MergeStruct}
use externalip_manager.State.{State, Key-eq}
use externalip_manager.Solvers.IpApi
use externalip_manager.Solvers.Merge
use externalip_manager.Solvers.Dns
use externalip_manager.Solvers.Merge.Masks.{IsSane, new-done}
use externalip_manager.Solvers.Dispatch

-- The solver is one that the configuration makes, with any state of its own.
abbrev pub Matches : SolverKind → Solver → Type 0
Matches (SolverKind.ip_api c) (Solver.ip_api s) = s.inner ≡ (IpApi.new c.provider).inner
Matches (SolverKind.interface c) (Solver.interface s) = s.identifier ≡ c.name
Matches (SolverKind.dns_hostname c) (Solver.dns_hostname s) = s.host ≡ c.host
Matches (SolverKind.load_balancer_ingress c) (Solver.load_balancer_ingress s) = Unit
Matches (SolverKind.static c) (Solver.static s) = s.addresses ≡ c.addresses
Matches (SolverKind.merge c) (Solver.merge s) =
    (s.partial_solvers ≡ c.partial_solvers)
    × (Merge.new s.partial_solvers ≡ done s)
    × IsSane s.partial_solvers
Matches _ _ = ⊥

-- The masks of a merge are sane.
abbrev pub IsSaneKind : SolverKind → Type 0
IsSaneKind (SolverKind.merge c) = IsSane c.partial_solvers
IsSaneKind _ = Unit

-- The registry and the sources are as they were.
pub record Frame {E : Env} (st t : State E) : Type 0 where
  pub solvers : t.solvers ≡ st.solvers
  pub sources : t.cluster_eip_sources ≡ st.cluster_eip_sources

module _ {E : Env} where
  pub Frame-refl : (st : State E) → Frame st st
  Frame-refl st = record { solvers = refl; sources = refl }

  pub Frame-trans : {st t u : State E} → Frame st t → Frame t u → Frame st u
  Frame-trans f g = record { solvers = g.solvers ∙ f.solvers; sources = g.sources ∙ f.sources }

-- The call did not run into a lock, a missing solver or a panic.
abbrev pub IsOrdinary : Reason → Type 0
IsOrdinary (solver_not_found s kind) = ⊥
IsOrdinary (partial_not_found ps) = ⊥
IsOrdinary solver_timeout = ⊥
IsOrdinary solver_lock_timeout = ⊥
IsOrdinary _ = Unit

abbrev pub Calm : {A : Type 0} → Outcome SolverError A → Type 0
Calm (done a) = Unit
Calm (fail e) = IsOrdinary e.reason
Calm (panic p) = ⊥

abbrev pub CalmAnswer : {A : Type 0} → Result SolverError A → Type 0
CalmAnswer (ok a) = Unit
CalmAnswer (err e) = IsOrdinary e.reason

abbrev pub fst_of : {A B : Type 0} → A × B → A
fst_of p = p.0

abbrev pub snd_of : {A B : Type 0} → A × B → B
snd_of p = p.1

module _ (E : Env) where
  boxed-Matches :
      (c : MergeConfig) (m : Outcome IpSourceError MergeStruct) (st : State E) {s : Solver}
      {t : State E}
      → Merge.new c.partial_solvers ≡ m
      → IsSane c.partial_solvers
      → Dispatch.boxed_merge E m st ≡ (done s, t)
      → Matches (SolverKind.merge c) s × Frame st t
  boxed-Matches c (done m) st {s} {t} e sane h =
      let same = (new-done c.partial_solvers m e).0 in
      (
        subst (Matches (SolverKind.merge c)) {x = Solver.merge m} (made (ap fst_of h))
            (same, ap Merge.new same ∙ e, subst IsSane (sym same) sane),
        subst (Frame st) (ap snd_of h) (Frame-refl st),
      )
    where
      made :
          ◌≡◌ {A = Outcome IpSourceError Solver} (done (Solver.merge m)) (done s)
          → Solver.merge m ≡ s
      made p = cc p
  boxed-Matches c (fail x) st e sane h = cc (ap fst_of h)
  boxed-Matches c (panic p) st e sane h = cc (ap fst_of h)

  pure-Matches :
      (k : SolverKind) (made : Solver) (st : State E) {s : Solver} {t : State E}
      → Matches k made
      → pure {E = IpSourceError} made st ≡ (done s, t)
      → Matches k s × Frame st t
  pure-Matches k made st {s} h e =
      (subst (Matches k) (same (ap fst_of e)) h, subst (Frame st) (ap snd_of e) (Frame-refl st))
    where
      same : ◌≡◌ {A = Outcome IpSourceError Solver} (done made) (done s) → made ≡ s
      same p = cc p

  dns-Matches :
      (c : DnsHostnameConfig) (b : Bool) (st0 st : State E) {s : Solver} {t : State E}
      → Frame st st0
      → (Dns.built E {F = IpSourceError} c b >>= λ d. pure (Solver.dns_hostname d)) st0
        ≡ (done s, t)
      → Matches (SolverKind.dns_hostname c) s × Frame st t
  unfolding ◌>>=◌
  dns-Matches c true st0 st f h =
      let (m, g) = pure-Matches (SolverKind.dns_hostname c) _ st0 refl h in (m, Frame-trans f g)
  dns-Matches c false st0 st f h = cc (ap fst_of h)

  -- Making a solver changes nothing but the world, and what it makes matches.
  pub try_from-Matches :
      (k : SolverKind) (st : State E) {s : Solver} {t : State E}
      → IsSaneKind k
      → Dispatch.try_from E k st ≡ (done s, t)
      → Matches k s × Frame st t
  unfolding Dispatch.try_from Dns.new
  try_from-Matches (SolverKind.ip_api c) st sane h = pure-Matches (SolverKind.ip_api c) _ st refl h
  try_from-Matches (SolverKind.interface c) st sane h =
      pure-Matches (SolverKind.interface c) _ st refl h
  try_from-Matches (SolverKind.dns_hostname c) st sane h =
      dns-Matches c _ _ st (record { solvers = refl; sources = refl }) h
  try_from-Matches (SolverKind.load_balancer_ingress c) st sane h =
      pure-Matches (SolverKind.load_balancer_ingress c) _ st tt h
  try_from-Matches (SolverKind.static c) st sane h = pure-Matches (SolverKind.static c) _ st refl h
  try_from-Matches (SolverKind.merge c) st sane h = boxed-Matches c _ st refl sane h
