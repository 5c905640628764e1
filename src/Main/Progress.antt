-- ===== src/Main/Progress.antt =====
-- The progress of the main loop (crates/bin/src/main.rs).
use mathlib.Core.Path.{subst}
use externalip_manager.Prelude.{◌≡◌, refl, ◌∙◌, ap, ℕ, zero, suc, List}
use externalip_manager.Prelude.Outcome.{Outcome, NoPanic, done, fail, panic, resume, ◌>>=◌}
use externalip_manager.Errors.{Error}
use externalip_manager.Env.{Env}
use externalip_manager.State.{State}
use externalip_manager.Registry.SolverLists.{IsIdle}
use externalip_manager.Registry.Keys.{IsLawful}
use externalip_manager.Registry.Builds.{IsBuildable, refresh-NoPanic}
use externalip_manager.Registry.Matches.{snd_of}
use externalip_manager.Manager
use externalip_manager.Manager.{ManagerConfig}
use externalip_manager.Manager.Rounds.{ListsNamed, reconcile_svcs-NoPanic}
use externalip_manager.Main.{Args, config_of, start, after_pass, turn, turns, main}
use externalip_manager.Main.Loop.{new-Keeps, turn-Keeps, nothing-IsIdle}

module _ (E : Env) (law : IsLawful E) (build : IsBuildable E) (named : ListsNamed E)
    (config : ManagerConfig) (interval : ℕ) where
  after_pass-done :
      (r : Outcome Error (List Error)) (st : State E)
      → NoPanic r
      → (after_pass E config interval r st).0 ≡ done tt
  after_pass-done (done errs) st h = refl
  after_pass-done (fail e) st h = refl
  after_pass-done (panic p) st h = elim h [ ]

  turn-done : (st : State E) → IsIdle st.solvers → (turn E config interval st).0 ≡ done tt
  turn-done st idle =
      let end = Manager.reconcile_svcs E config st in
      after_pass-done end.0 end.1
        (reconcile_svcs-NoPanic E config law st idle named (refresh-NoPanic E build st))

  turns-done :
      (n : ℕ) (st : State E) → IsIdle st.solvers → (turns E config interval n st).0 ≡ done tt
  unfolding turns ◌>>=◌
  turns-done zero st idle = refl
  turns-done (suc n) st idle =
      let t = (turn E config interval st).1 in
      ap (λ (r : Outcome Error Unit). (resume r (λ _. turns E config interval n) t).0)
        (turn-done st idle)
      ∙ turns-done n t (turn-Keeps E law named config interval st idle)

module _ (E : Env) where
  -- In a lawful environment whose API lists only services that have a name and a namespace, in
  -- which the DNS resolver can always be built, and whose API lists no merge with masks whose sum
  -- overflows 128 bits: once the manager has been made, the main loop makes any number of turns;
  -- no error and no panic ends it.
  pub main-done :
      (law : IsLawful E) (build : IsBuildable E) (named : ListsNamed E) (args : Args) (w : E.World)
      (t : State E) (n : ℕ)
      → Manager.new E (start E w) ≡ (done tt, t)
      → (main E args n (start E w)).0 ≡ done tt
  unfolding main ◌>>=◌
  main-done law build named args w t n made =
      ap
        (λ (p : Outcome Error Unit × State E).
          (resume p.0 (λ _. turns E (config_of args) args.interval n) p.1).0)
        made
      ∙ turns-done E law build named (config_of args) args.interval n t (
          subst (λ (x : State E). IsIdle x.solvers) (ap snd_of made)
            (new-Keeps E law (start E w) nothing-IsIdle))
