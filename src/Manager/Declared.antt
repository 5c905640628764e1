-- ===== src/Manager/Declared.antt =====
-- The passes of the manager over a cluster that declares its addresses, from the list of the
-- sources to the patches (crates/manager/src/lib.rs), and a description of them that knows no
-- registry, no lock and no solver.
use externalip_manager.Prelude.{◌≡◌, refl, ◌∙◌, ap, Option, none, some, List, [], ◌∷◌, String, All}
use externalip_manager.Prelude.Eq.{String-eq}
use externalip_manager.Prelude.Map
use externalip_manager.Prelude.Outcome.{Outcome, done, Exec, pure, resume, ◌>>=◌}
use externalip_manager.Net.{IpAddr}
use externalip_manager.Errors.{Error, IpSourceError}
use externalip_manager.Env.{Env}
use externalip_manager.State.{State}
use externalip_manager.Source.{source_name, query}
use externalip_manager.Source.Types.{ExternalIpSource}
use externalip_manager.Registry.{get_cluster}
use externalip_manager.Registry.Plain.{Plain}
use externalip_manager.Registry.Idle.{Kept, Nobody}
use externalip_manager.Registry.Declared.{IsDeclared, declared_source}
use externalip_manager.Registry.DeclaredQueries.{query-IsDeclared}
use externalip_manager.Svc.{ExternalIpSvc}
use externalip_manager.Manager.{
  ManagerConfig, current_ips, parse_ips, listed_ips, queried, resolve_with, resolve, apply,
  reconcile_svc, reconcile_all, push_error,
}
use externalip_manager.Manager.Views.{
  View, view, seen_of, SeesSame, resume-SeesSame, publish-SeesSame, apply-SeesSame,
  checked-SeesSame, queried-SeesSame,
}
use externalip_manager.Manager.Steps.{IsReady, IsReady-Kept, IsNamed, reconcile_svc-Steady}
use externalip_manager.Manager.Passes.{attempt-named}

module _ (E : Env) (config : ManagerConfig) (sources : String → Option ExternalIpSource) where
  -- What the resolution of a service comes to: the addresses that its source declares.
  abbrev pub intended : ExternalIpSvc → Option ExternalIpSource → Exec (State E) Error (List IpAddr)
  intended svc none = resolve_with E svc none
  intended svc (some source) =
      queried E svc.svc (source_name source.kind) (declared_source E svc.svc source)

  unfoldable pub declared_svc : ExternalIpSvc → Exec (State E) Error Unit
  unfolding ◌>>=◌
  declared_svc svc = do
    current ← current_ips E svc.svc
    resolved ← intended svc (sources (source_name svc.source))
    apply E config svc current resolved

  unfoldable pub declared_all : List ExternalIpSvc → List Error → Exec (State E) Error (List Error)
  unfolding declared_svc
  declared_all [] errors st = pure errors st
  declared_all (svc ∷ rest) errors st =
      let (r, t) = declared_svc svc st in
      resume (push_error E config errors r) (λ errors'. declared_all rest errors') t

  -- The registry has these sources, with their solvers, and they are declared.
  pub record IsDeclaring (st : State E) : Type 0 where
    pub ready : IsReady st
    pub finds : (name : String) → get_cluster E name st ≡ sources name
    pub declared :
        (name : String) (source : ExternalIpSource) → sources name ≡ some source → IsDeclared source

  resolved-SeesSame :
      (svc : ExternalIpSvc) (o : Option ExternalIpSource) (u v : State E)
      → IsDeclaring u
      → sources (source_name svc.source) ≡ o
      → view u ≡ view v
      → SeesSame (resolve_with E svc o u) (intended svc o v)
  resolved-SeesSame svc none u v h found e = publish-SeesSame E _ _ u v e
  resolved-SeesSame svc (some source) u v h found e =
      let name = source_name svc.source in
      let same =
        query-IsDeclared E svc.svc source u h.ready.idle
          (h.ready.registered name source (h.finds name ∙ found)) (h.declared name source found) in
      let after = (query E source svc.svc u).1 in
      ap
        (λ (x : Outcome IpSourceError (List IpAddr) × Plain E).
          seen_of (queried E svc.svc (source_name source.kind) x.0 after))
        same
      ∙ queried-SeesSame E svc.svc (source_name source.kind) (declared_source E svc.svc source)
          after v
          (ap (λ (x : Outcome IpSourceError (List IpAddr) × Plain E). (x.1.world, x.1.trace)) same
            ∙ e)

  resolve-SeesSame :
      (svc : ExternalIpSvc) (u v : State E)
      → IsDeclaring u
      → view u ≡ view v
      → SeesSame (resolve E svc u) (intended svc (sources (source_name svc.source)) v)
  unfolding resolve
  resolve-SeesSame svc u v h e =
      ap (λ (o : Option ExternalIpSource). seen_of (resolve_with E svc o u))
        (h.finds (source_name svc.source))
      ∙ resolved-SeesSame svc _ u v h refl e

  reconcile_svc-SeesSame :
      (svc : ExternalIpSvc) (u v : State E)
      → IsDeclaring u
      → view u ≡ view v
      → SeesSame (reconcile_svc E config svc u) (declared_svc svc v)
  unfolding reconcile_svc declared_svc ◌>>=◌ current_ips
  reconcile_svc-SeesSame svc u v h e =
      checked-SeesSame E svc.svc (parse_ips E (listed_ips svc.svc)) u v _ _ e λ current.
        let same = resolve-SeesSame svc u v h e in
        resume-SeesSame E (resolve E svc u) (intended svc (sources (source_name svc.source)) v)
          (apply E config svc current) (apply E config svc current) same
          λ resolved.
            apply-SeesSame E config svc current resolved _ _
              (ap (λ (x : Outcome Error (List IpAddr) × View E). x.1) same)

  IsDeclaring-Kept : (u t : State E) → IsDeclaring u → Kept Nobody u t → IsDeclaring t
  unfolding get_cluster
  IsDeclaring-Kept u t h k = record {
    ready = IsReady-Kept h.ready k;
    finds = λ name. ap (λ m. Map.get m name) k.sources ∙ h.finds name;
    declared = h.declared;
  }

  -- The loop over the services.
  pub reconcile_all-SeesSame :
      (svcs : List ExternalIpSvc) (errors : List Error) (u v : State E)
      → IsDeclaring u
      → All IsNamed svcs
      → view u ≡ view v
      → SeesSame (reconcile_all E config svcs errors u) (declared_all svcs errors v)
  unfolding reconcile_all declared_all ◌>>=◌
  reconcile_all-SeesSame [] errors u v h named e = ap (λ (x : View E). (done errors, x)) e
  reconcile_all-SeesSame (svc ∷ rest) errors u v h named e =
      let kept = (reconcile_svc-Steady config svc u h.ready).kept in
      let same = reconcile_svc-SeesSame svc u v h e in
      let (r, t) = reconcile_svc E config svc u in
      ap
        (λ (p : Outcome Error (List Error) × State E).
          seen_of (resume p.0 (λ errors'. reconcile_all E config rest errors') p.1))
        (attempt-named E config svc errors u named.0)
      ∙ resume-SeesSame E (push_error E config errors r, t)
          (push_error E config errors (declared_svc svc v).0, (declared_svc svc v).1) _ _
          (ap (λ (x : Outcome Error Unit × View E). (push_error E config errors x.0, x.1)) same)
          λ errors'.
            reconcile_all-SeesSame rest errors' t _ (IsDeclaring-Kept u t h kept) named.1
              (ap (λ (x : Outcome Error Unit × View E). x.1) same)
