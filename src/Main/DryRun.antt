-- ===== src/Main/DryRun.antt =====
-- The program in a dry run (crates/bin/src/main.rs).
use externalip_manager.Prelude.{◌≡◌, ℕ, zero, suc, true, String, List}
use externalip_manager.Prelude.Outcome.{Outcome, done, fail, panic, Result, ok, err, ◌>>◌, map_err}
use externalip_manager.Errors.{Error, error_of_kube, ip_source}
use externalip_manager.Env.{Env}
use externalip_manager.Registry
use externalip_manager.Svc
use externalip_manager.Manager
use externalip_manager.Manager.{connect, connected}
use externalip_manager.Manager.Effects.{Only, Extends-refl, Extends-trans, bind-Only}
use externalip_manager.Manager.DryRun.{refresh-IsHarmless, reconcile_svcs-Only-IsHarmless}
use externalip_manager.Manager.Own.{IsHarmless}
use externalip_manager.Main.{Args, config_of, after_pass, turn, turns, main}

module _ (E : Env) where
  connected-IsHarmless :
      (answer : Result String Unit) (w : E.World) → Only IsHarmless (connected E answer w)
  connected-IsHarmless (ok _) w st = Extends-refl IsHarmless st.trace
  connected-IsHarmless (err e) w st = Extends-refl IsHarmless st.trace

  connect-IsHarmless : Only IsHarmless (connect E)
  connect-IsHarmless st =
      connected-IsHarmless (E.try_default st.world).0 (E.try_default st.world).1 st

  created-IsHarmless :
      (answer : Result String Unit) (w : E.World)
      → Only IsHarmless (map_err error_of_kube (Svc.created E answer w))
  created-IsHarmless (ok _) w st = Extends-refl IsHarmless st.trace
  created-IsHarmless (err e) w st = Extends-refl IsHarmless st.trace

  finder-IsHarmless : Only IsHarmless (map_err error_of_kube (Svc.new E))
  unfolding Svc.new
  finder-IsHarmless st = created-IsHarmless (E.try_default st.world).0 (E.try_default st.world).1 st

  refresh-Harmless : Only IsHarmless (map_err (ip_source "registry") (Registry.new E))
  refresh-Harmless st = refresh-IsHarmless E (Registry.cleared E st)

  new-IsHarmless : Only IsHarmless (Manager.new E)
  unfolding Manager.new ◌>>◌
  new-IsHarmless =
      bind-Only IsHarmless (connect E)
        (λ _. map_err error_of_kube (Svc.new E) >> map_err (ip_source "registry") (Registry.new E))
        connect-IsHarmless
        λ _.
          bind-Only IsHarmless (map_err error_of_kube (Svc.new E))
            (λ _. map_err (ip_source "registry") (Registry.new E)) finder-IsHarmless
            (λ _. refresh-Harmless)

  module _ (args : Args) (dry : args.dry_run ≡ true) where
    after_pass-IsHarmless :
        (r : Outcome Error (List Error))
        → Only IsHarmless (after_pass E (config_of args) args.interval r)
    after_pass-IsHarmless (done errs) st = Extends-refl IsHarmless st.trace
    after_pass-IsHarmless (fail e) st = Extends-refl IsHarmless st.trace
    after_pass-IsHarmless (panic p) st = Extends-refl IsHarmless st.trace

    turns-IsHarmless : (n : ℕ) → Only IsHarmless (turns E (config_of args) args.interval n)
    unfolding turns
    turns-IsHarmless zero = λ st. Extends-refl IsHarmless st.trace
    turns-IsHarmless (suc n) =
        bind-Only IsHarmless (turn E (config_of args) args.interval)
          (λ _. turns E (config_of args) args.interval n)
          (λ st.
            Extends-trans IsHarmless (reconcile_svcs-Only-IsHarmless E (config_of args) dry st)
              (after_pass-IsHarmless _ _))
          (λ _. turns-IsHarmless n)

    -- With the argument for a dry run the program patches no service, from its start and however
    -- many turns its loop makes: it only sends requests to address providers and publishes events.
    pub main-Only-IsHarmless : (n : ℕ) → Only IsHarmless (main E args n)
    unfolding main
    main-Only-IsHarmless n =
        bind-Only IsHarmless (Manager.new E) _ new-IsHarmless (λ _. turns-IsHarmless n)
