-- ===== src/Manager/DeclaredPasses.antt =====
-- `reconcile_svcs` over a cluster that declares its addresses (crates/manager/src/lib.rs).
use externalip_manager.Prelude.{◌≡◌, refl, ◌∙◌, ap, sym, Option, some, List, [], String, All}
use externalip_manager.Prelude.Outcome.{Outcome, done, Result, ok, resume, recast, ◌>>=◌}
use externalip_manager.Errors.{Error, IpSourceError, ip_source}
use externalip_manager.Crd.{ClusterExternalIpSource}
use externalip_manager.Kube.{Service}
use externalip_manager.Env.{Env}
use externalip_manager.State.{State, with_world}
use externalip_manager.Source.Types.{ExternalIpSource}
use externalip_manager.Registry.{refresh, get_cluster}
use externalip_manager.Registry.SolverLists.{IsIdle}
use externalip_manager.Registry.Keys.{IsLawful}
use externalip_manager.Registry.Contents.{latest, refresh-latest}
use externalip_manager.Registry.Declared.{IsDeclared}
use externalip_manager.Svc
use externalip_manager.Svc.{ExternalIpSvc, find_annotated_svcs}
use externalip_manager.Manager.{ManagerConfig, reconcile_found, reconcile_listed, reconcile_svcs}
use externalip_manager.Manager.Views.{from_view, seen_of, SeesSame}
use externalip_manager.Manager.Rounds.{
  HasName, annotated_svcs, annotated_svcs-IsNamed, refreshed-IsReady,
}
use externalip_manager.Manager.Declared.{IsDeclaring, declared_all, reconcile_all-SeesSame}

module _ (E : Env) (config : ManagerConfig) (sources : List ClusterExternalIpSource) where
  -- The sources by their names.
  abbrev pub listed_under : String → Option ExternalIpSource
  listed_under name = latest name sources

  reconcile_listed-SeesSame :
      (items : List Service) (t : State E) (w : E.World)
      → IsDeclaring E config listed_under t
      → All HasName items
      → E.list_services t.world ≡ (ok items, w)
      → SeesSame
          (reconcile_listed E config t)
          (declared_all E config listed_under (annotated_svcs items) [] (from_view (w, t.trace)))
  unfolding reconcile_listed find_annotated_svcs ◌>>=◌ get_cluster
  reconcile_listed-SeesSame items t w h named e =
      ap
        (λ (a : Result String (List Service) × E.World). seen_of (
          resume (recast Error.kube (Svc.received E a.0 a.1 t).0) (reconcile_found E config)
            (Svc.received E a.0 a.1 t).1))
        e
      ∙ reconcile_all-SeesSame E config listed_under (annotated_svcs items) [] (with_world t w) _
          (record {
            ready = record { idle = h.ready.idle; registered = h.ready.registered };
            finds = h.finds;
            declared = h.declared;
          })
          (annotated_svcs-IsNamed items named) refl

  -- In a lawful environment, from a registry with no lock held: if the API lists these sources,
  -- the refresh succeeds, the API lists the services, each with a name and a namespace, and the
  -- sources that are found, the last under each name, have only static solvers and such as take
  -- the load balancer's addresses, then the pass ends, with the same errors, and makes the same of
  -- the world, as the description without a registry: each annotated service in turn has its
  -- listed addresses read, and is told of as invalid, unknown or without addresses, or compared
  -- with the addresses that its source declares and patched with them.
  pub reconcile_svcs-SeesSame :
      (law : IsLawful E) (items : List Service) (st t : State E) (w w' : E.World)
      → IsIdle st.solvers
      → E.list_sources st.world ≡ (ok sources, w)
      → refresh E st ≡ (done tt, t)
      → E.list_services t.world ≡ (ok items, w')
      → All HasName items
      → ((name : String) (source : ExternalIpSource)
          → latest name sources ≡ some source
          → IsDeclared source)
      → SeesSame
          (reconcile_svcs E config st)
          (declared_all E config listed_under (annotated_svcs items) [] (from_view (w', t.trace)))
  unfolding reconcile_svcs ◌>>=◌
  reconcile_svcs-SeesSame law items st t w w' idle listed refreshed found named declared =
      let at : (name : String) → get_cluster E name t ≡ latest name sources = λ name.
        ap (λ (x : Outcome IpSourceError Unit × State E). get_cluster E name x.1) (sym refreshed)
        ∙ refresh-latest E sources st w name listed in
      ap
        (λ (p : Outcome IpSourceError Unit × State E).
          seen_of (resume (recast (ip_source "registry") p.0) (λ _. reconcile_listed E config) p.1))
        refreshed
      ∙ reconcile_listed-SeesSame items t w'
          (record {
            ready = refreshed-IsReady E config law st t idle refreshed;
            finds = at;
            declared = declared;
          })
          named found
