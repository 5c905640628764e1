-- ===== src/Registry/DeclaredQueries.antt =====
-- The query of a source whose addresses are declared in the cluster, and what a refresh makes of
-- one (crates/manager/src/external_ip_source).
use mathlib.Core.Path.{subst}
use externalip_manager.Prelude.{◌≡◌, ◌∙◌, ap, sym, String, Option, none, some, List, [], ◌∷◌, All}
use externalip_manager.Prelude.Map
use externalip_manager.Prelude.Outcome.{Outcome, done, ok}
use externalip_manager.Net.{IpAddr, AddressKind, ipv4, ipv6}
use externalip_manager.Errors.{IpSourceError}
use externalip_manager.Crd.{SolverKind, ClusterExternalIpSource}
use externalip_manager.Kube.{Service}
use externalip_manager.Env.{Env}
use externalip_manager.State.{State, Key-eq}
use externalip_manager.Source.{query}
use externalip_manager.Source.Types.{SolverList, ExternalIpSource}
use externalip_manager.Registry.{refresh, get_cluster}
use externalip_manager.Registry.Matches.{snd_of}
use externalip_manager.Registry.Idle.{some_of, slot-IsFree, Nobody}
use externalip_manager.Registry.SolverLists.{IsIdle, IsRegistered, ListRegistered, own_registered}
use externalip_manager.Registry.Queries.{FamilyRegistered, SourceRegistered}
use externalip_manager.Registry.Plain.{Plain, plain, solver_of}
use externalip_manager.Registry.Unlocked.{query-plain}
use externalip_manager.Registry.Keys.{IsLawful}
use externalip_manager.Registry.Refreshed.{refresh-SourceRegistered, refresh-KeepsIdle}
use externalip_manager.Registry.Contents.{latest, refresh-latest}
use externalip_manager.Registry.Declared.{IsDeclared, declared_source}
use externalip_manager.Registry.DeclaredAnswers.{Stands}
use externalip_manager.Registry.DeclaredTurns.{FamilyStands, plain_query-IsDeclared}

module _ (E : Env) (svc : Service) where
  registered-Stands :
      (st : State E) (kind : AddressKind) (k : SolverKind)
      → IsIdle st.solvers
      → IsRegistered st.solvers kind k
      → Stands E svc (plain st) kind k
  registered-Stands st kind k idle h =
      let (slot, e) = some_of (Map.get st.solvers (k, kind)) (own_registered st.solvers kind k h) in
      let free = slot-IsFree Nobody (k, kind) slot (λ n. n) (idle (k, kind) slot e) in
      (slot.solver, ap solver_of e, free.1)

  list-Stands :
      (st : State E) (kind : AddressKind) (refs : List SolverKind)
      → IsIdle st.solvers
      → ListRegistered st.solvers kind refs
      → All (Stands E svc (plain st) kind) refs
  list-Stands st kind [] idle h = tt
  list-Stands st kind (k ∷ refs) idle h =
      (registered-Stands st kind k idle h.0, list-Stands st kind refs idle h.1)

  family-FamilyStands :
      (st : State E) (kind : AddressKind) (o : Option SolverList)
      → IsIdle st.solvers
      → FamilyRegistered st.solvers kind o
      → FamilyStands E svc (plain st) kind o
  family-FamilyStands st kind none idle h = tt
  family-FamilyStands st kind (some l) idle h = list-Stands st kind l.solver_refs idle h.1

  -- A query, with its locks, of a source whose addresses are declared.
  pub query-IsDeclared :
      (source : ExternalIpSource) (st : State E)
      → IsIdle st.solvers
      → SourceRegistered st.solvers source
      → IsDeclared source
      → ◌≡◌ {A = Outcome IpSourceError (List IpAddr) × Plain E}
          ((query E source svc st).0, plain (query E source svc st).1)
          (declared_source E svc source, plain st)
  query-IsDeclared source st idle h d =
      sym (query-plain E svc source st idle h)
      ∙ plain_query-IsDeclared E svc source (plain st) d
          (family-FamilyStands st ipv4 source.v4 idle h.0)
          (family-FamilyStands st ipv6 source.v6 idle h.1)

  -- In a lawful environment, where no lock is held and the API lists sources: after a refresh
  -- that succeeds, the last of them under a name, if all its solvers are static ones or take the
  -- load balancer's addresses, is found under the name, and its query gives the addresses that it
  -- and the service declare, those of its families one after the other, sends nothing, and leaves
  -- every solver as it was.
  pub refresh-IsDeclared :
      (law : IsLawful E) (items : List ClusterExternalIpSource) (st t : State E) (w : E.World)
      (name : String) (source : ExternalIpSource)
      → IsIdle st.solvers
      → E.list_sources st.world ≡ (ok items, w)
      → refresh E st ≡ (done tt, t)
      → latest name items ≡ some source
      → IsDeclared source
      → (get_cluster E name t ≡ some source)
        × ((query E source svc t).0 ≡ declared_source E svc source)
        × (plain (query E source svc t).1 ≡ plain t)
  refresh-IsDeclared law items st t w name source idle listed refreshed last d =
      let found : get_cluster E name t ≡ some source =
        ap (λ (x : Outcome _ Unit × State E). get_cluster E name x.1) (sym refreshed)
        ∙ refresh-latest E items st w name listed
        ∙ last in
      let idle_t =
        subst (λ (x : State E). IsIdle x.solvers) (ap snd_of refreshed)
          (refresh-KeepsIdle E law st idle).0 in
      let same =
        query-IsDeclared source t idle_t
          (refresh-SourceRegistered E law st t idle refreshed name source found) d in
      (
        found,
        ap (λ (x : Outcome IpSourceError (List IpAddr) × Plain E). x.0) same,
        ap (λ (x : Outcome IpSourceError (List IpAddr) × Plain E). x.1) same,
      )
