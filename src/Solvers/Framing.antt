-- ===== src/Solvers/Framing.antt =====
-- Calls that look at the world and the trace alone, one after another.
use externalip_manager.Prelude.{◌≡◌, refl, ◌∙◌, ap, sym, []}
use externalip_manager.Prelude.Outcome.{Outcome, done, fail, panic, Exec, resume, ◌>>=◌}
use externalip_manager.Errors.{SolverError}
use externalip_manager.Env.{Env}
use externalip_manager.State.{State}

module _ {E : Env} where
  -- The world and the trace of a state, with nothing registered.
  abbrev pub bare : State E → State E
  bare st = record { world = st.world; trace = st.trace; solvers = []; cluster_eip_sources = [] }

  -- A state with the world and the trace of another.
  abbrev pub seen : State E → State E → State E
  seen st u = record st { world = u.world; trace = u.trace }

  abbrev pub Framed : {X : Type 0} → (State E → X × State E) → Type 0
  Framed m = (st : State E) → m st ≡ ((m (bare st)).0, seen st (m (bare st)).1)

  resume-Framed :
      {A B : Type 0} (r : Outcome SolverError A) (f : A → Exec (State E) SolverError B)
      → ((a : A) → Framed (f a))
      → Framed (resume r f)
  resume-Framed (done a) f h st = h a st
  resume-Framed (fail e) f h st = refl
  resume-Framed (panic p) f h st = refl

  -- One call after another; what the second does is found by the first's world and trace.
  pub then-Framed :
      {X Y : Type 0} (m : State E → X × State E) (f : X → State E → Y × State E)
      → Framed m
      → ((x : X) → Framed (f x))
      → Framed (λ st. f (m st).0 (m st).1)
  then-Framed {X = X} {Y = Y} m f h k st =
      let x = (m (bare st)).0 in
      let u = (m (bare st)).1 in
      ap (λ (p : X × State E). f p.0 p.1) (h st)
      ∙ k x (seen st u)
      ∙ ap (λ (p : Y × State E). (p.0, seen st p.1)) (sym (k x u))

  pub bind-Framed :
      {A B : Type 0} (m : Exec (State E) SolverError A) (f : A → Exec (State E) SolverError B)
      → Framed m
      → ((a : A) → Framed (f a))
      → Framed (m >>= f)
  unfolding ◌>>=◌
  bind-Framed m f h k = then-Framed m (λ r. resume r f) h (λ r. resume-Framed r f k)
