-- ===== src/Main.antt =====
-- crates/bin/src/main.rs: the arguments and the main loop. The log is left out.
pub mod Loop
pub mod Progress
pub mod DryRun
use externalip_manager.Prelude.{ℕ, zero, suc, Bool, false, List, []}
use externalip_manager.Prelude.Outcome.{Outcome, done, fail, panic, Exec, pure, ◌>>=◌}
use externalip_manager.Errors.{Error}
use externalip_manager.Env.{Env}
use externalip_manager.State.{State, with_world}
use externalip_manager.Solvers.Caching.{from_secs}
use externalip_manager.Manager
use externalip_manager.Manager.{ManagerConfig}

pub record Args : Type 0 where
  pub interval : ℕ
  pub dry_run : Bool

-- The values of `default_value_t`.
abbrev pub default_args : Args
default_args = record { interval = 60; dry_run = false }

abbrev pub config_of : Args → ManagerConfig
config_of args = record { dry_run = args.dry_run }

module _ (E : Env) where
  -- `IPSourceRegistry::new`, before its refresh: nothing is registered.
  abbrev pub start : E.World → State E
  start w = record { world = w; trace = []; solvers = []; cluster_eip_sources = [] }

  abbrev pub slept : ℕ → State E → State E
  slept interval st = with_world st (E.sleep (from_secs interval) st.world)

  module _ (config : ManagerConfig) (interval : ℕ) where
    -- The match on a pass, whose arms only log, and the sleep.
    abbrev pub after_pass : Outcome Error (List Error) → Exec (State E) Error Unit
    after_pass (done errs) st = (done tt, slept interval st)
    after_pass (fail e) st = (done tt, slept interval st)
    after_pass (panic p) st = (panic p, st)

    abbrev pub turn : Exec (State E) Error Unit
    turn st = let (r, st1) = Manager.reconcile_svcs E config st in after_pass r st1

    -- So many turns of the loop, which has no end.
    unfoldable pub turns : ℕ → Exec (State E) Error Unit
    unfolding ◌>>=◌
    turns zero = pure tt
    turns (suc n) = turn >>= λ _. turns n

  -- The program with its arguments, observed after so many turns.
  unfoldable pub main : Args → ℕ → Exec (State E) Error Unit
  unfolding ◌>>=◌ turns
  main args n = Manager.new E >>= λ _. turns (config_of args) args.interval n
