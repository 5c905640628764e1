-- ===== src/Tests/OfRegistry.antt =====
-- The theorems about the registry at concrete inputs.
use native.Mathlib.Decide.{ℕ_discrete}
use mathlib.Core.Path.{subst}
use externalip_manager.Prelude.{
  ◌≡◌, refl, none, some, List, [], ◌∷◌, arith, All, String, false, ◌++◌, map, keep,
}
use externalip_manager.Prelude.Map
use externalip_manager.Prelude.Eq.{String-discrete, String-eq}
use externalip_manager.Prelude.Outcome.{done, NoPanic, Result, ok, err, ◌>>=◌}
use externalip_manager.Net.{IpAddr-discrete, AddressKind-discrete, v4, ipv4}
use externalip_manager.Crd.{SolverKind, SolverKind-discrete, ClusterExternalIpSource}
use externalip_manager.Env.{Env}
use externalip_manager.Source
use externalip_manager.Source.Types.{ExternalIpSource, cluster, first_found}
use externalip_manager.State.{State, Key-eq, Key-discrete}
use externalip_manager.Solver.{Solver}
use externalip_manager.Solvers.Merge
use externalip_manager.Solvers.Dispatch
use externalip_manager.Registry.{
  refresh, populate, take_sources, publish_all, insert_all, collect_sources, get_cluster,
}
use externalip_manager.Registry.Queries.{SourceRegistered, query-Ended}
use externalip_manager.Registry.SolverLists.{Ended, IsIdle}
use externalip_manager.Registry.Keys.{IsLawful, SaneSource}
use externalip_manager.Registry.Refreshed.{
  KeepsIdle, refresh-KeepsIdle, refresh-SourceRegistered, refresh-query,
}
use externalip_manager.Registry.Builds.{
  IsBuildable, FitsKind, IsFullKind, refresh-NoPanic, refresh-IsFull,
}
use externalip_manager.Registry.Walk.{AllSolvers}
use externalip_manager.Registry.Plain.{plain, plain_query}
use externalip_manager.Registry.Unlocked.{query-plain}
use externalip_manager.Registry.Contents.{
  latest, refused, refusal, refresh-latest, refresh-refusals,
}
use externalip_manager.Tests.Sandbox.{
  sandbox, home, away, web, dual, net_part, host_part, merge_config, home_config, free, fresh_at,
}

dual_sane : All SaneSource (dual ∷ [])
dual_sane = (
  (((record { ranges = (omega arith, (omega arith, tt)); fits = omega arith }), (tt, tt)), tt),
  tt,
)

abbrev SaneAnswer : Result String (List ClusterExternalIpSource) → Type 0
SaneAnswer (ok items) = All SaneSource items
SaneAnswer (err e) = Unit

pub sandbox-IsLawful : IsLawful sandbox
sandbox-IsLawful = record {
  solvers_sound = λ w keys k h. h;
  solvers_complete = λ w keys k h. h;
  sane = λ w items e. subst SaneAnswer e dual_sane;
}

pub nothing-IsIdle : IsIdle []
unfolding Map.get
nothing-IsIdle k slot e = cc e

abbrev pub dual_source : ExternalIpSource
dual_source = record {
  kind = cluster "dual";
  v4 = some (record {
    solver_refs = SolverKind.merge merge_config ∷ home_config ∷ [];
    query_mode = first_found;
  });
  v6 = none;
}

abbrev pub refreshed : State sandbox
refreshed = record {
  world = 0;
  trace = [];
  solvers =
      ((SolverKind.static (record { addresses = v4 home ∷ [] }), ipv4), free (v4 home))
      ∷ ((SolverKind.static (record { addresses = v4 away ∷ [] }), ipv4), free (v4 away))
      ∷ (
        (SolverKind.merge merge_config, ipv4),
        record {
          solver = Solver.merge (record { partial_solvers = net_part ∷ host_part ∷ [] });
          locked = false;
        },
      )
      ∷ [];
  cluster_eip_sources = ("dual", dual_source) ∷ [];
}

pub refresh_run : refresh sandbox (fresh_at 0) ≡ (done tt, refreshed)
unfolding refresh populate take_sources publish_all insert_all collect_sources Source.try_from
    Source.family Source.try_from_config Dispatch.try_from Merge.new Merge.sum_onto ◌>>=◌ Map.get
    Map.insert Map.or_insert Key-eq Key-discrete SolverKind-discrete IpAddr-discrete String-discrete
    String-eq AddressKind-discrete ℕ_discrete
refresh_run = refl

dual_found : get_cluster sandbox "dual" refreshed ≡ some dual_source
unfolding get_cluster Map.get String-eq String-discrete
dual_found = refl

refresh-KeepsIdle_example : KeepsIdle (fresh_at 0) (refresh sandbox (fresh_at 0)).1
refresh-KeepsIdle_example = refresh-KeepsIdle sandbox sandbox-IsLawful (fresh_at 0) nothing-IsIdle

refresh-SourceRegistered_example : SourceRegistered refreshed.solvers dual_source
refresh-SourceRegistered_example =
    refresh-SourceRegistered sandbox sandbox-IsLawful (fresh_at 0) refreshed nothing-IsIdle
      refresh_run "dual" dual_source dual_found

refresh-query_example : Ended refreshed (Source.query sandbox dual_source web refreshed)
refresh-query_example =
    refresh-query sandbox sandbox-IsLawful (fresh_at 0) refreshed web nothing-IsIdle refresh_run
      "dual" dual_source dual_found

pub refreshed-IsIdle : IsIdle refreshed.solvers
refreshed-IsIdle =
    subst (λ (x : State sandbox). IsIdle x.solvers) (λ i. (refresh_run i).1)
      (refresh-KeepsIdle sandbox sandbox-IsLawful (fresh_at 0) nothing-IsIdle).0

query-Ended_example : Ended refreshed (Source.query sandbox dual_source web refreshed)
query-Ended_example = query-Ended sandbox web dual_source refreshed refreshed-IsIdle (
    refresh-SourceRegistered sandbox sandbox-IsLawful (fresh_at 0) refreshed nothing-IsIdle
      refresh_run "dual" dual_source dual_found)

dual_fits : All (AllSolvers FitsKind) (dual ∷ [])
dual_fits = (((omega arith, (tt, tt)), tt), tt)

abbrev FitsAnswer : Result String (List ClusterExternalIpSource) → Type 0
FitsAnswer (ok items) = All (AllSolvers FitsKind) items
FitsAnswer (err e) = Unit

pub sandbox-IsBuildable : IsBuildable sandbox
sandbox-IsBuildable = record {
  solvers_sound = λ w keys k h. h;
  resolver = λ w. refl;
  fits = λ w items e. subst FitsAnswer e dual_fits;
}

refresh-NoPanic_example : NoPanic (refresh sandbox (fresh_at 0)).0
refresh-NoPanic_example = refresh-NoPanic sandbox sandbox-IsBuildable (fresh_at 0)

refresh-IsFull_example : All (AllSolvers IsFullKind) (dual ∷ [])
refresh-IsFull_example =
    refresh-IsFull sandbox (λ w keys k h. h) (dual ∷ []) (fresh_at 0) refreshed refl refresh_run

-- A source without a block, one that shares its name with a later one, and the later one.
abbrev three : List ClusterExternalIpSource
three =
    record { name = some "void"; spec = record { ipv4 = none; ipv6 = none } }
    ∷ record {
      name = some "dual";
      spec = record { ipv4 = none; ipv6 = some (record { query_mode = none; solvers = [] }) };
    }
    ∷ dual
    ∷ []

abbrev thrice : Env
thrice = record sandbox { list_sources = λ w. (ok three, w) }

abbrev begun : State thrice
begun = record { world = 0; trace = []; solvers = []; cluster_eip_sources = [] }

refresh-latest_example : get_cluster thrice "dual" (refresh thrice begun).1 ≡ latest "dual" three
refresh-latest_example = refresh-latest thrice three begun 0 "dual" refl

refresh-refusals_example : (refresh thrice begun).1.trace ≡ [] ++ map refusal (keep refused three)
refresh-refusals_example = refresh-refusals thrice three begun 0 refl

query-plain_example : plain_query dual_source web (plain refreshed) ≡ (
  (Source.query sandbox dual_source web refreshed).0,
  plain (Source.query sandbox dual_source web refreshed).1,
)
query-plain_example = query-plain sandbox web dual_source refreshed refreshed-IsIdle (
    refresh-SourceRegistered sandbox sandbox-IsLawful (fresh_at 0) refreshed nothing-IsIdle
      refresh_run "dual" dual_source dual_found)
