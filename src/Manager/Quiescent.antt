-- ===== src/Manager/Quiescent.antt =====
-- Passes over services that already list what their sources declare (crates/manager/src/lib.rs).
use externalip_manager.Prelude.{◌≡◌, refl, ◌∙◌, ap, Option, some, List, [], ◌∷◌, String, All, map}
use externalip_manager.Prelude.Outcome.{Outcome, done, ok, resume, ◌>>=◌}
use externalip_manager.Net.{IpAddr, InRange}
use externalip_manager.Errors.{Error, IpSourceError}
use externalip_manager.Crd.{ClusterExternalIpSource}
use externalip_manager.Kube.{Service}
use externalip_manager.Env.{Env}
use externalip_manager.State.{State}
use externalip_manager.Source.{source_name}
use externalip_manager.Source.Types.{ExternalIpSource}
use externalip_manager.Registry.{refresh}
use externalip_manager.Registry.SolverLists.{IsIdle}
use externalip_manager.Registry.Keys.{IsLawful}
use externalip_manager.Registry.Contents.{latest}
use externalip_manager.Registry.Declared.{IsDeclared, declared_source}
use externalip_manager.Svc.{ExternalIpSvc}
use externalip_manager.Manager.{
  ManagerConfig, checked, listed_ips, parse_ips, queried, apply, push_error, reconcile_svcs,
  current_ips,
}
use externalip_manager.Manager.Settled.{IteratesAddresses, ReadsBack, apply-written}
use externalip_manager.Manager.Views.{View, from_view, seen_of}
use externalip_manager.Manager.Rounds.{HasName, annotated_svcs}
use externalip_manager.Manager.Declared.{intended, declared_svc, declared_all}
use externalip_manager.Manager.DeclaredPasses.{listed_under, reconcile_svcs-SeesSame}

module _ (E : Env) (config : ManagerConfig) (sources : String → Option ExternalIpSource) where
  -- The service lists addresses as a patch wrote them, and its source declares them; they are of 32 bits or of 128.
  pub record IsSettled (svc : ExternalIpSvc) : Type 0 where
    pub source : ExternalIpSource
    pub found : sources (source_name svc.source) ≡ some source
    pub resolved : List IpAddr
    pub ranges : All InRange resolved
    pub declares : declared_source E svc.svc source ≡ done resolved
    pub patched_at : E.World
    pub listed : listed_ips svc.svc ≡ map E.ip_to_string (E.iterate_addresses patched_at resolved)

  declared_svc_settled :
      (sets : IteratesAddresses E) (reads : ReadsBack E) (svc : ExternalIpSvc) (st : State E)
      → IsSettled svc
      → declared_svc E config sources svc st ≡ (done tt, st)
  unfolding declared_svc ◌>>=◌ current_ips
  declared_svc_settled sets reads svc st h =
      ap
        (λ (o : Option ExternalIpSource).
          resume (checked E svc.svc (parse_ips E (listed_ips svc.svc)) st).0
            (λ current. intended E config sources svc o >>= apply E config svc current)
            (checked E svc.svc (parse_ips E (listed_ips svc.svc)) st).1)
        h.found
      ∙ ap
          (λ (r : Outcome IpSourceError (List IpAddr)).
            resume (checked E svc.svc (parse_ips E (listed_ips svc.svc)) st).0
              (λ current.
                queried E svc.svc (source_name h.source.kind) r >>= apply E config svc current)
              (checked E svc.svc (parse_ips E (listed_ips svc.svc)) st).1)
          h.declares
      ∙ apply-written E sets reads config svc h.patched_at h.resolved h.resolved st h.ranges
          h.listed (λ a m. m) (λ a m. m)

  declared_all_settled :
      (sets : IteratesAddresses E) (reads : ReadsBack E) (svcs : List ExternalIpSvc) (st : State E)
      → All IsSettled svcs
      → declared_all E config sources svcs [] st ≡ (done [], st)
  unfolding declared_all
  declared_all_settled sets reads [] st h = refl
  declared_all_settled sets reads (svc ∷ rest) st h =
      ap
        (λ (x : Outcome Error Unit × State E).
          resume (push_error E config [] x.0) (λ errors. declared_all E config sources rest errors)
            x.1)
        (declared_svc_settled sets reads svc st h.0)
      ∙ declared_all_settled sets reads rest st h.1

module _ (E : Env) (config : ManagerConfig) (sources : List ClusterExternalIpSource) where
  -- In a lawful environment in which the texts of addresses of 32 or 128 bits parse back and hash
  -- sets of addresses give what was put in, from a registry with no lock held: if the API lists
  -- these sources, the refresh succeeds, the API lists the services, each with a name and a
  -- namespace, the sources that are found have only static solvers and such as take the load
  -- balancer's addresses, and every annotated service lists what a patch with the addresses, of 32
  -- bits or of 128, that its source declares wrote at some time, then the pass ends without an
  -- error and leaves the trace as the refresh left it: it patches nothing and publishes nothing.
  pub reconcile_svcs_settled :
      (law : IsLawful E) (sets : IteratesAddresses E) (reads : ReadsBack E) (items : List Service)
      (st t : State E) (w w' : E.World)
      → IsIdle st.solvers
      → E.list_sources st.world ≡ (ok sources, w)
      → refresh E st ≡ (done tt, t)
      → E.list_services t.world ≡ (ok items, w')
      → All HasName items
      → ((name : String) (source : ExternalIpSource)
          → latest name sources ≡ some source
          → IsDeclared source)
      → All (IsSettled E config (listed_under E config sources)) (annotated_svcs items)
      → ((reconcile_svcs E config st).0 ≡ done [])
        × ((reconcile_svcs E config st).1.trace ≡ t.trace)
  reconcile_svcs_settled law sets reads items st t w w' idle listed refreshed found named declared
        settled =
      let same =
        reconcile_svcs-SeesSame E config sources law items st t w w' idle listed refreshed found
          named declared
        ∙ ap (λ (x : Outcome Error (List Error) × State E). seen_of x)
            (declared_all_settled E config (listed_under E config sources) sets reads
              (annotated_svcs items) (from_view (w', t.trace)) settled) in
      (
        ap (λ (x : Outcome Error (List Error) × View E). x.0) same,
        ap (λ (x : Outcome Error (List Error) × View E). x.1.1) same,
      )
