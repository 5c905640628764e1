-- ===== src/Manager/Emptied.antt =====
-- A service whose source has no solver left: every block of the source has an empty list
-- (crates/manager/src/external_ip_source/source.rs, crates/manager/src/lib.rs).
use externalip_manager.Prelude.{
  ◌≡◌, refl, ◌∙◌, ap, sym, Bool, true, false, Option, none, some, List, [], ◌∷◌, ◌++◌, Has,
  is_empty, inl, if◌then◌else◌,
}
use externalip_manager.Prelude.Outcome.{Outcome, done, Result, ok, err, resume, ◌>>=◌}
use externalip_manager.Net.{IpAddr, IpAddr-eq, ipv4, ipv6}
use externalip_manager.Errors.{Error, IpSourceError}
use externalip_manager.Crd.{IpSolversConfig, ClusterExternalIpSource}
use externalip_manager.Kube.{Service}
use externalip_manager.Env.{Env}
use externalip_manager.State.{State}
use externalip_manager.Source
use externalip_manager.Source.{source_name, name_or_default, is_none, family, query_family, query}
use externalip_manager.Source.Types.{ExternalIpSource, SolverList}
use externalip_manager.Registry
use externalip_manager.Svc.{ExternalIpSvc}
use externalip_manager.Manager.{
  ManagerConfig, checked, current_ips, parse_ips, listed_ips, queried, resolve_with, resolve,
  update, apply, same_set, reconcile_svc,
}
use externalip_manager.Manager.Settled.{IteratesAddresses}

-- The block is missing, or its list is empty.
abbrev pub IsVoid : Option IpSolversConfig → Type 0
IsVoid none = Unit
IsVoid (some config) = is_empty config.solvers ≡ true

family-IsVoid : (o : Option IpSolversConfig) → IsVoid o → family o ≡ none
unfolding family Source.try_from_config
family-IsVoid none h = refl
family-IsVoid (some config) h = ap (λ b. Source.to_option (Source.list_unless b config)) h

converted_source :
    (b : Bool) (e : IpSourceError) (x y : ExternalIpSource)
    → ◌≡◌ {A = Result IpSourceError ExternalIpSource} (if b then err e else ok x) (ok y)
    → x ≡ y
converted_source true e x y h = cc h
converted_source false e x y h = cc h

module _ (E : Env) where
  -- A source whose blocks are all missing or empty, where it converts at all, resolves to no
  -- addresses, without an error and without an effect.
  pub query-IsVoid :
      (ceips : ClusterExternalIpSource) (source : ExternalIpSource) (svc : Service) (st : State E)
      → IsVoid ceips.spec.ipv4
      → IsVoid ceips.spec.ipv6
      → Source.try_from ceips ≡ ok source
      → query E source svc st ≡ (done [], st)
  unfolding query ◌>>=◌ Source.try_from
  query-IsVoid ceips source svc st h k e =
      let same = converted_source _ _ _ source e in
      let v4 : source.v4 ≡ none = sym (ap (λ s. s.v4) same) ∙ family-IsVoid ceips.spec.ipv4 h in
      let v6 : source.v6 ≡ none = sym (ap (λ s. s.v6) same) ∙ family-IsVoid ceips.spec.ipv6 k in
      ap
        (λ (o : Option SolverList).
          resume (query_family E o ipv4 svc st).0
            (λ addrs4.
              query_family E source.v6 ipv6 svc >>= λ addrs6 t. (done (addrs4 ++ addrs6), t))
            (query_family E o ipv4 svc st).1)
        v4
      ∙ ap
          (λ (o : Option SolverList).
            resume (query_family E o ipv6 svc st).0 (λ addrs6 t. (done addrs6, t))
              (query_family E o ipv6 svc st).1)
          v6

  nothing-iterated : (sets : IteratesAddresses E) (w : E.World) → E.iterate_addresses w [] ≡ []
  nothing-iterated sets w = emptied (E.iterate_addresses w []) (sets.addresses_sound w [])
    where
      emptied : (xs : List IpAddr) → ((a : IpAddr) → Has a xs → Has a []) → xs ≡ []
      emptied [] h = refl
      emptied (x ∷ xs) h = elim (h x (inl refl)) [ ]

  -- If hash sets give what was put in: outside of a dry run, a service that lists at least one
  -- address, all of them readable, and whose source is found, and was made of blocks that are
  -- missing or have an empty list (not both missing, or it would not have been made), is patched
  -- with no addresses.
  pub reconcile_svc-IsVoid :
      (config : ManagerConfig) (sets : IteratesAddresses E) (svc : ExternalIpSvc)
      (ceips : ClusterExternalIpSource) (source : ExternalIpSource) (a : IpAddr)
      (current : List IpAddr) (st : State E)
      → config.dry_run ≡ false
      → parse_ips E (listed_ips svc.svc) ≡ ok (a ∷ current)
      → Registry.get_cluster E (source_name svc.source) st ≡ some source
      → IsVoid ceips.spec.ipv4
      → IsVoid ceips.spec.ipv6
      → Source.try_from ceips ≡ ok source
      → reconcile_svc E config svc st ≡ update E svc [] st
  unfolding reconcile_svc ◌>>=◌ current_ips resolve apply same_set
  reconcile_svc-IsVoid config sets svc ceips source a current st wet parsed found h k e =
      ap
        (λ (r : Result Error (List IpAddr)).
          resume (checked E svc.svc r st).0
            (λ current. resolve E svc >>= λ resolved. apply E config svc current resolved)
            (checked E svc.svc r st).1)
        parsed
      ∙ ap
          (λ (o : Option ExternalIpSource).
            resume (resolve_with E svc o st).0 (apply E config svc (a ∷ current))
              (resolve_with E svc o st).1)
          found
      ∙ ap
          (λ (p : Outcome IpSourceError (List IpAddr) × State E).
            let q = queried E svc.svc (source_name source.kind) p.0 p.1 in
            resume q.0 (apply E config svc (a ∷ current)) q.1)
          (query-IsVoid ceips source svc.svc st h k e)
      ∙ ap
          (λ (b : Bool).
            if b then (done tt, st) else update E svc (E.iterate_addresses st.world []) st)
          wet
      ∙ ap (λ (xs : List IpAddr). update E svc xs st) (nothing-iterated sets st.world)
