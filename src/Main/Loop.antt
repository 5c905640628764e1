-- ===== src/Main/Loop.antt =====
-- The registry through the life of the program.
use externalip_manager.Prelude.{ℕ, zero, suc, List, [], String}
use externalip_manager.Prelude.Map
use externalip_manager.Prelude.Outcome.{
  Outcome, done, fail, panic, Result, ok, err, Exec, ◌>>=◌, ◌>>◌, resume, map_err,
}
use externalip_manager.Errors.{Error, error_of_kube, ip_source}
use externalip_manager.Env.{Env}
use externalip_manager.State.{State}
use externalip_manager.Registry
use externalip_manager.Registry.SolverLists.{IsIdle}
use externalip_manager.Registry.Keys.{IsLawful}
use externalip_manager.Registry.Refreshed.{refresh-KeepsIdle}
use externalip_manager.Svc
use externalip_manager.Manager
use externalip_manager.Manager.{ManagerConfig, connect, connected}
use externalip_manager.Manager.Rounds.{ListsNamed, reconcile_svcs-IsIdle}
use externalip_manager.Main.{Args, config_of, start, after_pass, turn, turns, main}

pub nothing-IsIdle : IsIdle []
unfolding Map.get
nothing-IsIdle k slot e = cc e

-- The call leaves a registry with no lock held as one with no lock held.
abbrev pub Keeps : {E : Env} {F A : Type 0} → Exec (State E) F A → Type 0
Keeps {E} m = (st : State E) → IsIdle st.solvers → IsIdle (m st).1.solvers

module _ {E : Env} {F A B : Type 0} where
  resume-Keeps :
      (r : Outcome F A) (f : A → Exec (State E) F B) (t : State E)
      → IsIdle t.solvers
      → ((a : A) → Keeps (f a))
      → IsIdle (resume r f t).1.solvers
  resume-Keeps (done a) f t idle h = h a t idle
  resume-Keeps (fail e) f t idle h = idle
  resume-Keeps (panic p) f t idle h = idle

  bind-Keeps :
      (m : Exec (State E) F A) (f : A → Exec (State E) F B)
      → Keeps m
      → ((a : A) → Keeps (f a))
      → Keeps (m >>= f)
  unfolding ◌>>=◌
  bind-Keeps m f h k st idle = resume-Keeps (m st).0 f (m st).1 (h st idle) k

module _ (E : Env) (law : IsLawful E) where
  connected-Keeps : (answer : Result String Unit) (w : E.World) → Keeps (connected E answer w)
  connected-Keeps (ok _) w st idle = idle
  connected-Keeps (err e) w st idle = idle

  connect-Keeps : Keeps (connect E)
  connect-Keeps st = connected-Keeps (E.try_default st.world).0 (E.try_default st.world).1 st

  created-Keeps :
      (answer : Result String Unit) (w : E.World)
      → Keeps (map_err error_of_kube (Svc.created E answer w))
  created-Keeps (ok _) w st idle = idle
  created-Keeps (err e) w st idle = idle

  finder-Keeps : Keeps (map_err error_of_kube (Svc.new E))
  unfolding Svc.new
  finder-Keeps st = created-Keeps (E.try_default st.world).0 (E.try_default st.world).1 st

  refresh-Keeps : Keeps (map_err (ip_source "registry") (Registry.new E))
  refresh-Keeps st idle = (refresh-KeepsIdle E law (Registry.cleared E st) nothing-IsIdle).0

  pub new-Keeps : Keeps (Manager.new E)
  unfolding Manager.new ◌>>◌
  new-Keeps =
      bind-Keeps (connect E)
        (λ _. map_err error_of_kube (Svc.new E) >> map_err (ip_source "registry") (Registry.new E))
        connect-Keeps
        λ _.
          bind-Keeps (map_err error_of_kube (Svc.new E))
            (λ _. map_err (ip_source "registry") (Registry.new E)) finder-Keeps λ _. refresh-Keeps

  module _ (named : ListsNamed E) (config : ManagerConfig) (interval : ℕ) where
    after_pass-Keeps : (r : Outcome Error (List Error)) → Keeps (after_pass E config interval r)
    after_pass-Keeps (done errs) st idle = idle
    after_pass-Keeps (fail e) st idle = idle
    after_pass-Keeps (panic p) st idle = idle

    pub turn-Keeps : Keeps (turn E config interval)
    turn-Keeps st idle =
        let end = Manager.reconcile_svcs E config st in
        after_pass-Keeps end.0 end.1 (reconcile_svcs-IsIdle E config law st idle named)

    turns-Keeps : (n : ℕ) → Keeps (turns E config interval n)
    unfolding turns
    turns-Keeps zero st idle = idle
    turns-Keeps (suc n) st idle =
        bind-Keeps (turn E config interval) (λ _. turns E config interval n) turn-Keeps
          (λ _. turns-Keeps n) st idle

  -- In a lawful environment whose API lists only services that have a name and a namespace: from
  -- its start, and after any number of turns of the main loop, the program holds no lock,
  -- and each solver of its registry stands for its key.
  pub main-IsIdle :
      (named : ListsNamed E) (args : Args) (w : E.World) (n : ℕ)
      → IsIdle (main E args n (start E w)).1.solvers
  unfolding main
  main-IsIdle named args w n =
      bind-Keeps (Manager.new E) _ new-Keeps
        (λ _. turns-Keeps named (config_of args) args.interval n) (start E w) nothing-IsIdle
