-- ===== src/Tests/OfManager.antt =====
-- The theorems about the manager and the main loop at concrete inputs.
use text.Mathlib.TextBridge.{to_list, of_list, to_list-of_list}
use Prim.Native.Char.{Char}
use externalip_manager.Prelude.{
  ◌≡◌, refl, sym, ap, ◌∙◌, some, List, [], ◌∷◌, zero, suc, arith, All, String, false, true, Has,
}
use externalip_manager.Prelude.Outcome.{Outcome, done, Result, ok, err, ◌>>=◌, ◌>>◌, map_err}
use externalip_manager.Net.{IpAddr, InRange, v4, v6}
use externalip_manager.Env.{Env}
use externalip_manager.State.{State}
use mathlib.Core.Path.{subst}
use externalip_manager.Errors.{IpSourceError, ip_source}
use externalip_manager.Kube.{Service}
use externalip_manager.Source
use externalip_manager.Source.Types.{cluster}
use externalip_manager.Svc.{ExternalIpSvc}
use externalip_manager.Manager.{ManagerConfig, current_ips, apply}
use externalip_manager.Main
use externalip_manager.Main.Loop.{main-IsIdle}
use externalip_manager.Main.Progress.{main-done}
use externalip_manager.Main.DryRun.{main-Only-IsHarmless}
use externalip_manager.Manager
use externalip_manager.Registry.SolverLists.{IsIdle}
use externalip_manager.Prelude.Outcome.{NoPanic}
use externalip_manager.Prelude.{Option, ltb, ◌^◌, arith, none, if◌then◌else◌}
use externalip_manager.Manager.Passes.{Passed}
use externalip_manager.Manager.Rounds.{
  HasName, ListsNamed, annotated_svcs, reconcile_svcs-Passed, reconcile_svcs-NoPanic,
}
use externalip_manager.Manager.Effects.{IsRequest, Extends}
use externalip_manager.Manager.Requests.{query-Only_requests}
use externalip_manager.Manager.DryRun.{reconcile_svcs-Only-IsHarmless}
use externalip_manager.Manager.Own.{IsOwn, IsHarmless, reconcile_svc-Only-Own}
use externalip_manager.Manager.Settled.{IteratesAddresses, ReadsBack, apply-written}
use externalip_manager.Tests.OfRegistry.{
  sandbox-IsLawful, sandbox-IsBuildable, nothing-IsIdle, refreshed, refresh_run, dual_source,
}
use externalip_manager.Tests.Sandbox.{sandbox, web, fresh_at}

-- Addresses as texts, by their length.
abbrev chars : IpAddr → List Char
chars (v4 zero) = []
chars (v4 (suc n)) = "x" ∷ "x" ∷ chars (v4 n)
chars (v6 zero) = "x" ∷ []
chars (v6 (suc n)) = "x" ∷ "x" ∷ chars (v6 n)

abbrev bump : IpAddr → IpAddr
bump (v4 n) = v4 (suc n)
bump (v6 n) = v6 (suc n)

abbrev count : List Char → IpAddr
count [] = v4 0
count (c ∷ []) = v6 0
count (c ∷ d ∷ l) = bump (count l)

count-chars : (a : IpAddr) → count (chars a) ≡ a
count-chars (v4 zero) = refl
count-chars (v4 (suc n)) = ap bump (count-chars (v4 n))
count-chars (v6 zero) = refl
count-chars (v6 (suc n)) = ap bump (count-chars (v6 n))

-- Only the numbers that are addresses are read.
abbrev in_range : IpAddr → Option IpAddr
in_range (v4 n) = if ltb n (2 ^ 32) then some (v4 n) else none
in_range (v6 n) = if ltb n (2 ^ 128) then some (v6 n) else none

abbrev pub echo : Env
echo = record sandbox {
  parse_ip = λ text. in_range (count (to_list text));
  ip_to_string = λ addr. of_list (chars addr);
}

in_range_lem : (a : IpAddr) → InRange a → in_range a ≡ some a
in_range_lem (v4 n) h = ground arith
in_range_lem (v6 n) h = ground arith

pub echo-ReadsBack : ReadsBack echo
echo-ReadsBack a h =
    ap in_range (ap count (to_list-of_list (chars a)) ∙ count-chars a) ∙ in_range_lem a h

pub echo-IteratesAddresses : IteratesAddresses echo
echo-IteratesAddresses = record {
  addresses_sound = λ w xs a h. h;
  addresses_complete = λ w xs a h. h;
}

abbrev pub wet : ManagerConfig
wet = record { dry_run = false }

abbrev dry : ManagerConfig
dry = record { dry_run = true }

abbrev pub web_svc : ExternalIpSvc
web_svc = record { svc = web; source = cluster "dual" }

-- A service that lists two addresses, as they were written.
abbrev pub settled : ExternalIpSvc
settled = record {
  svc = record web {
    spec =
        some
          (record { external_ips = some (of_list (chars (v4 2)) ∷ of_list (chars (v6 1)) ∷ []) });
  };
  source = cluster "dual";
}

swapped : (a b x : IpAddr) → Has x (a ∷ b ∷ []) → Has x (b ∷ a ∷ [])
swapped a b x h = ground (arith, h)

apply-written_example :
    (current_ips echo settled.svc >>= λ current. apply echo wet settled current (v6 1 ∷ v4 2 ∷ []))
      (Main.start echo 0)
    ≡ (done tt, Main.start echo 0)
apply-written_example =
    apply-written echo echo-IteratesAddresses echo-ReadsBack wet settled 0 (v4 2 ∷ v6 1 ∷ [])
      (v6 1 ∷ v4 2 ∷ []) (Main.start echo 0) (omega arith, (omega arith, tt)) refl
      (swapped (v4 2) (v6 1)) (swapped (v6 1) (v4 2))

web-HasName : All HasName (web ∷ [])
web-HasName = (("default", "web", refl, refl), tt)

abbrev annotated_svcs-IsNamed : Result String (List Service) → Type 0
annotated_svcs-IsNamed (ok items) = All HasName items
annotated_svcs-IsNamed (err e) = Unit

sandbox-ListsNamed : ListsNamed sandbox
sandbox-ListsNamed w items e = subst annotated_svcs-IsNamed e web-HasName

reconcile_svcs-Passed_example :
    Passed sandbox wet
      (annotated_svcs (web ∷ []))
      []
      refreshed
      (Manager.reconcile_svcs sandbox wet (fresh_at 0))
reconcile_svcs-Passed_example =
    reconcile_svcs-Passed sandbox wet sandbox-IsLawful (web ∷ []) (fresh_at 0) refreshed 0
      nothing-IsIdle web-HasName refresh_run refl

reconcile_svcs-NoPanic_example : NoPanic (Manager.reconcile_svcs sandbox wet (fresh_at 0)).0
reconcile_svcs-NoPanic_example =
    reconcile_svcs-NoPanic sandbox wet sandbox-IsLawful (fresh_at 0) nothing-IsIdle
      sandbox-ListsNamed
      (subst (λ (p : Outcome IpSourceError Unit × State sandbox). NoPanic p.0) (sym refresh_run) tt)

main-IsIdle_example :
    IsIdle (Main.main sandbox Main.default_args 3 (Main.start sandbox 0)).1.solvers
main-IsIdle_example = main-IsIdle sandbox sandbox-IsLawful sandbox-ListsNamed Main.default_args 0 3

query-Only_requests_example :
    Extends IsRequest [] (Source.query sandbox dual_source web (fresh_at 0)).1.trace
query-Only_requests_example = query-Only_requests sandbox dual_source web (fresh_at 0)

reconcile_svc-Only-Own_example :
    Extends (IsOwn false web) [] (Manager.reconcile_svc sandbox wet web_svc (fresh_at 0)).1.trace
reconcile_svc-Only-Own_example = reconcile_svc-Only-Own sandbox wet web_svc (fresh_at 0)

reconcile_svcs-Only-IsHarmless_example :
    Extends IsHarmless [] (Manager.reconcile_svcs sandbox dry (fresh_at 0)).1.trace
reconcile_svcs-Only-IsHarmless_example =
    reconcile_svcs-Only-IsHarmless sandbox dry refl (fresh_at 0)

manager_made : Manager.new sandbox (Main.start sandbox 0) ≡ (done tt, refreshed)
unfolding Manager.new ◌>>=◌ ◌>>◌
manager_made =
    ap
      (λ (p : Outcome IpSourceError Unit × State sandbox).
        (map_err (ip_source "registry") (λ (st : State sandbox). p)) refreshed)
      refresh_run

main-done_example : (Main.main sandbox Main.default_args 3 (Main.start sandbox 0)).0 ≡ done tt
main-done_example =
    main-done sandbox sandbox-IsLawful sandbox-IsBuildable sandbox-ListsNamed Main.default_args 0
      refreshed 3 manager_made

main-Only-IsHarmless_example :
    Extends IsHarmless []
      (Main.main sandbox (record { interval = 5; dry_run = true }) 3 (fresh_at 0)).1.trace
main-Only-IsHarmless_example =
    main-Only-IsHarmless sandbox (record { interval = 5; dry_run = true }) refl 3 (fresh_at 0)
