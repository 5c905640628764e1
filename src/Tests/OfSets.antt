-- ===== src/Tests/OfSets.antt =====
-- The theorems about address sets, ranges, depths and errors at concrete inputs.
use native.Mathlib.Decide.{ℕ_discrete}
use externalip_manager.Prelude.{
  ◌≡◌, refl, ℕ, Bool, List, true, not, none, some, [], ◌∷◌, arith, keep, All,
}
use externalip_manager.Prelude.Map
use externalip_manager.Prelude.Eq.{String-discrete, String-eq}
use externalip_manager.Prelude.Outcome.{done, ok, ◌>>=◌}
use externalip_manager.Net.{v4, v6, ipv4, IpAddr-eq, IpAddr-discrete}
use externalip_manager.Net.Classes.{
  is_private, is_broadcast, is_loopback_v4, is_multicast_v4, is_link_local, is_unspecified,
  is_documentation,
}
use externalip_manager.Errors.{service}
use externalip_manager.Crd.{ClusterExternalIpSource}
use externalip_manager.Env.{Env}
use externalip_manager.Events.{publish}
use externalip_manager.State.{State, Key-eq}
use externalip_manager.Solvers.Interface
use externalip_manager.Solvers.Interface.{filter_ipv4, filter_ipv6}
use externalip_manager.Solvers.Interface.Ranges.{
  any_covers, reserved_v4, reserved_v6, filters_reserved,
}
use externalip_manager.Solvers.Interface.Outside.{IsFiltering, IsOutside, get_addresses-IsOutside}
use externalip_manager.Manager.{
  same_set, apply, update, reconcile_svc, current_ips, parse_ips, resolve,
}
use externalip_manager.Manager.Sets.{address_set, same_set-AddressSet, apply-AddressSet}
use externalip_manager.Manager.Settled.{parse_ips-map}
use externalip_manager.Manager.Told.{Told, reconcile_svc-Told}
use externalip_manager.Registry.{get_cluster}
use externalip_manager.Source
use externalip_manager.Source.{ask_solver, solver_failed}
use externalip_manager.Source.Types.{ExternalIpSource, cluster}
use externalip_manager.Manager.Emptied.{reconcile_svc-IsVoid}
use externalip_manager.Tests.Sandbox.{sandbox, home, web, fresh_at}
use externalip_manager.Tests.OfManager.{
  wet, web_svc, settled, echo, echo-ReadsBack, echo-IteratesAddresses,
}

one_set : address_set (v4 1 ∷ v4 2 ∷ []) ≡ address_set (v4 2 ∷ v4 1 ∷ [])
unfolding same_set IpAddr-eq IpAddr-discrete ℕ_discrete
one_set = (same_set-AddressSet (v4 1 ∷ v4 2 ∷ []) (v4 2 ∷ v4 1 ∷ [])).0 refl

apply-AddressSet_example :
    apply sandbox wet web_svc (v4 1 ∷ v4 2 ∷ []) (v4 2 ∷ v4 1 ∷ []) (fresh_at 0)
    ≡ (done tt, fresh_at 0)
apply-AddressSet_example =
    apply-AddressSet sandbox wet web_svc (v4 1 ∷ v4 2 ∷ []) (v4 2 ∷ v4 1 ∷ []) (fresh_at 0)
      (yes one_set)

filters_reserved_example :
    (filter_ipv4 home ≡ not (any_covers reserved_v4 home))
    × (filter_ipv6 1 ≡ not (any_covers reserved_v6 1))
filters_reserved_example = filters_reserved home 1 (omega arith)

-- A host with one public address and one of the documentation.
abbrev host : Env
host = record sandbox {
  local_ipv4_addrs_by_filter = λ p w. (ok (keep p (134744072 ∷ home ∷ [])), w);
}

keep-All : (p : ℕ → Bool) (xs : List ℕ) → All (λ a. p a ≡ true) (keep p xs)
keep-All p [] = tt
keep-All p (x ∷ xs) = ground (arith, keep-All p xs)

host-IsFiltering : IsFiltering host
host-IsFiltering = record {
  ipv4_passing = λ i p w. keep-All p (home ∷ []);
  local_ipv4_passing = λ p w. keep-All p (134744072 ∷ home ∷ []);
  ipv6_passing = λ i p w. tt;
  local_ipv6_passing = λ p w. tt;
  ipv6_wide = λ i p w. tt;
  local_ipv6_wide = λ p w. tt;
}

get_addresses-IsOutside_example : All IsOutside (v4 134744072 ∷ [])
unfolding Interface.get_addresses ◌>>=◌ filter_ipv4 is_private is_broadcast is_loopback_v4
    is_multicast_v4 is_link_local is_unspecified is_documentation
get_addresses-IsOutside_example =
    get_addresses-IsOutside host host-IsFiltering (record { identifier = none }) ipv4
      (record { world = 0; trace = []; solvers = []; cluster_eip_sources = [] })
      (record { world = 0; trace = []; solvers = []; cluster_eip_sources = [] }) (v4 134744072 ∷ [])
      refl

-- The service's source is not there.
reconcile_svc-Told_example :
    Told web
      (service (record { missing_source = "dual" }))
      (reconcile_svc sandbox wet web_svc (fresh_at 0)).1
unfolding reconcile_svc current_ips parse_ips resolve get_cluster Map.get publish ◌>>=◌ String-eq
reconcile_svc-Told_example =
    reconcile_svc-Told sandbox wet web_svc (fresh_at 0)
      (reconcile_svc sandbox wet web_svc (fresh_at 0)).1
      (service (record { missing_source = "dual" })) refl

-- A source whose one block has an empty list.
abbrev void : ClusterExternalIpSource
void = record {
  name = some "dual";
  spec = record { ipv4 = some (record { query_mode = none; solvers = [] }); ipv6 = none };
}

abbrev void_source : ExternalIpSource
void_source = record { kind = cluster "dual"; v4 = none; v6 = none }

abbrev with_void : State echo
with_void = record {
  world = 0;
  trace = [];
  solvers = [];
  cluster_eip_sources = ("dual", void_source) ∷ [];
}

reconcile_svc-IsVoid_example :
    reconcile_svc echo wet settled with_void ≡ update echo settled [] with_void
unfolding parse_ips get_cluster Map.get String-eq String-discrete Source.try_from Source.family
    Source.try_from_config
reconcile_svc-IsVoid_example =
    reconcile_svc-IsVoid echo wet echo-IteratesAddresses settled void void_source (v4 2) (v6 1 ∷ [])
      with_void refl
      (parse_ips-map echo echo-ReadsBack (v4 2 ∷ v6 1 ∷ []) (omega arith, (omega arith, tt))) refl
      refl tt refl
