-- ===== src/Tests/OfDeclared.antt =====
-- The theorems about declared addresses at a concrete input.
use native.Mathlib.Decide.{ℕ_discrete}
use mathlib.Core.Path.{subst}
use mathlib.Core.Option.{some-injective}
use externalip_manager.Prelude.{arith}
use externalip_manager.Prelude.{
  ◌≡◌, refl, none, some, true, false, List, [], ◌∷◌, All, String, if◌then◌else◌, Bool,
}
use externalip_manager.Prelude.Map
use externalip_manager.Prelude.Eq.{String-discrete, String-eq, ◌=?◌}
use externalip_manager.Prelude.Outcome.{done, Result, ok, err, ◌>>=◌}
use externalip_manager.Net.{IpAddr-discrete, AddressKind-discrete, v4, v6}
use externalip_manager.Crd
use externalip_manager.Crd.{SolverKind, SolverKind-discrete, ClusterExternalIpSource}
use externalip_manager.Env.{Env}
use externalip_manager.Source
use externalip_manager.Source.{query}
use externalip_manager.Source.Types.{ExternalIpSource, cluster, all, first_found}
use externalip_manager.State.{State, Key-eq, Key-discrete}
use externalip_manager.Solvers.Dispatch
use externalip_manager.Registry.{
  refresh, populate, take_sources, publish_all, insert_all, collect_sources, get_cluster,
}
use externalip_manager.Registry.Keys.{IsLawful, SaneSource}
use externalip_manager.Registry.Plain.{plain}
use externalip_manager.Registry.Contents.{latest}
use externalip_manager.Registry.Declared.{IsDeclared}
use externalip_manager.Registry.DeclaredQueries.{refresh-IsDeclared}
use externalip_manager.Svc.{find}
use externalip_manager.Manager.{reconcile_svcs}
use externalip_manager.Manager.Rounds.{HasName, annotated_svcs}
use externalip_manager.Manager.Settled.{IteratesAddresses, ReadsBack}
use externalip_manager.Manager.Views.{SeesSame, from_view}
use externalip_manager.Manager.Declared.{declared_all}
use externalip_manager.Manager.DeclaredPasses.{listed_under, reconcile_svcs-SeesSame}
use externalip_manager.Manager.Quiescent.{IsSettled, reconcile_svcs_settled}
use externalip_manager.Tests.OfManager.{echo, echo-ReadsBack, wet, settled}
use externalip_manager.Tests.OfRegistry.{nothing-IsIdle}

-- A source with two static solvers for IPv4, whose addresses are both wanted, and one for IPv6.
abbrev two_config : SolverKind
two_config = SolverKind.static (record { addresses = v6 7 ∷ v4 2 ∷ [] })

abbrev one_config : SolverKind
one_config = SolverKind.static (record { addresses = v6 1 ∷ [] })

abbrev both : ClusterExternalIpSource
both = record {
  name = some "dual";
  spec = record {
    ipv4 =
        some
          (record { query_mode = some Crd.QueryMode.all; solvers = one_config ∷ two_config ∷ [] });
    ipv6 = some (record { query_mode = none; solvers = one_config ∷ [] });
  };
}

abbrev both_source : ExternalIpSource
both_source = record {
  kind = cluster "dual";
  v4 = some (record { solver_refs = one_config ∷ two_config ∷ []; query_mode = all });
  v6 = some (record { solver_refs = one_config ∷ []; query_mode = first_found });
}

-- The API gives the source, and a service that lists what it declares.
abbrev declaring : Env
declaring = record echo {
  list_sources = λ w. (ok (both ∷ []), w);
  list_services = λ w. (ok (settled.svc ∷ []), w);
}

abbrev started : State declaring
started = record { world = 0; trace = []; solvers = []; cluster_eip_sources = [] }

abbrev after_refresh : State declaring
after_refresh = (refresh declaring started).1

after_refresh_run : refresh declaring started ≡ (done tt, after_refresh)
unfolding refresh populate take_sources publish_all insert_all collect_sources Source.try_from
    Source.family Source.try_from_config Dispatch.try_from ◌>>=◌ Map.get Map.insert Map.or_insert
    Key-eq Key-discrete SolverKind-discrete IpAddr-discrete String-discrete String-eq
    AddressKind-discrete ℕ_discrete
after_refresh_run = refl

both_sane : All SaneSource (both ∷ [])
both_sane = (((tt, (tt, tt)), (tt, tt)), tt)

abbrev SaneAnswer : Result String (List ClusterExternalIpSource) → Type 0
SaneAnswer (ok items) = All SaneSource items
SaneAnswer (err e) = Unit

declaring-IsLawful : IsLawful declaring
declaring-IsLawful = record {
  solvers_sound = λ w keys k h. h;
  solvers_complete = λ w keys k h. h;
  sane = λ w items e. subst SaneAnswer e both_sane;
}

declaring-IteratesAddresses : IteratesAddresses declaring
declaring-IteratesAddresses = record {
  addresses_sound = λ w xs a h. h;
  addresses_complete = λ w xs a h. h;
}

declaring-ReadsBack : ReadsBack declaring
declaring-ReadsBack = echo-ReadsBack

both-IsDeclared : IsDeclared both_source
both-IsDeclared = ((tt, (tt, tt)), (tt, tt))

refresh-IsDeclared_example :
    (get_cluster declaring "dual" after_refresh ≡ some both_source)
    × ((query declaring both_source settled.svc after_refresh).0 ≡ done (v4 2 ∷ v6 1 ∷ []))
    × (plain (query declaring both_source settled.svc after_refresh).1 ≡ plain after_refresh)
unfolding Source.try_from Source.family Source.try_from_config String-eq String-discrete
refresh-IsDeclared_example =
    refresh-IsDeclared declaring settled.svc declaring-IsLawful (both ∷ []) started after_refresh 0
      "dual" both_source nothing-IsIdle refl after_refresh_run refl both-IsDeclared

-- There is one source.
under :
    (named : Bool) (source : ExternalIpSource)
    → (if named then some both_source else none) ≡ some source
    → IsDeclared source
under true source e = subst IsDeclared (some-injective both_source source e) both-IsDeclared
under false source e = cc e

all_declared :
    (name : String) (source : ExternalIpSource)
    → latest name (both ∷ []) ≡ some source
    → IsDeclared source
unfolding Source.try_from Source.family Source.try_from_config
all_declared name source e = under (name =? "dual") source e

settled-HasName : All HasName (settled.svc ∷ [])
settled-HasName = (("default", "web", refl, refl), tt)

reconcile_svcs-SeesSame_example : SeesSame (reconcile_svcs declaring wet started) (
    declared_all declaring wet
      (listed_under declaring wet (both ∷ []))
      (annotated_svcs (settled.svc ∷ []))
      []
      (from_view (0, after_refresh.trace)))
unfolding refresh Dispatch.try_from
reconcile_svcs-SeesSame_example =
    reconcile_svcs-SeesSame declaring wet (both ∷ []) declaring-IsLawful (settled.svc ∷ []) started
      after_refresh 0 0 nothing-IsIdle refl after_refresh_run refl settled-HasName all_declared

listed-IsSettled :
    All
      (IsSettled declaring wet (listed_under declaring wet (both ∷ [])))
      (annotated_svcs (settled.svc ∷ []))
unfolding Source.try_from Source.family Source.try_from_config String-eq String-discrete find
    Map.get
listed-IsSettled = (
  record {
    source = both_source;
    found = refl;
    resolved = v4 2 ∷ v6 1 ∷ [];
    ranges = (omega arith, (omega arith, tt));
    declares = refl;
    patched_at = 0;
    listed = refl;
  },
  tt,
)

reconcile_svcs_settled_example :
    ((reconcile_svcs declaring wet started).0 ≡ done [])
    × ((reconcile_svcs declaring wet started).1.trace ≡ after_refresh.trace)
unfolding refresh Dispatch.try_from
reconcile_svcs_settled_example =
    reconcile_svcs_settled declaring wet (both ∷ []) declaring-IsLawful declaring-IteratesAddresses
      declaring-ReadsBack (settled.svc ∷ []) started after_refresh 0 0 nothing-IsIdle refl
      after_refresh_run refl settled-HasName all_declared listed-IsSettled
