-- ===== src/Registry/Queries.antt =====
-- Queries of sources whose solvers are registered.
use externalip_manager.Prelude.{◌≡◌, Option, none, some, List, [], Bool, true, false, is_empty}
use externalip_manager.Prelude.Outcome.{Outcome, done, fail, panic, Exec, resume, ◌>>=◌}
use externalip_manager.Net.{IpAddr, AddressKind, ipv4, ipv6}
use externalip_manager.Errors.{IpSourceError}
use externalip_manager.Kube.{Service}
use externalip_manager.Env.{Env}
use externalip_manager.State.{State, SolverRegistry}
use externalip_manager.Source
use externalip_manager.Source.{
  solver_failed, turn, stop, go, Turn, conclude, ask_solver, query_solvers, query_list,
  query_family, query, conclusion, max_depth,
}
use externalip_manager.Source.Types.{ExternalIpSource, SolverList}
use externalip_manager.Registry.Idle.{Nobody, SameKeys, Kept}
use externalip_manager.Registry.Merges.{Kept-refl}
use externalip_manager.Registry.SolverLists.{
  ListRegistered, ListRegistered-SameKeys, IsIdle, IsResolved, Ended, after, query_solvers-Ended,
}

-- The lists of a source are not empty, and their solvers are registered.
abbrev pub FamilyRegistered : SolverRegistry → AddressKind → Option SolverList → Type 0
FamilyRegistered r kind none = Unit
FamilyRegistered r kind (some l) =
    (is_empty l.solver_refs ≡ false) × ListRegistered r kind l.solver_refs

abbrev pub SourceRegistered : SolverRegistry → ExternalIpSource → Type 0
SourceRegistered r source = FamilyRegistered r ipv4 source.v4 × FamilyRegistered r ipv6 source.v6

pub FamilyRegistered-SameKeys :
    (r r' : SolverRegistry) (kind : AddressKind) (o : Option SolverList)
    → SameKeys r r'
    → FamilyRegistered r kind o
    → FamilyRegistered r' kind o
FamilyRegistered-SameKeys r r' kind none same h = tt
FamilyRegistered-SameKeys r r' kind (some l) same h =
    (h.0, ListRegistered-SameKeys r r' kind l.solver_refs same h.1)

pub SourceRegistered-SameKeys :
    (r r' : SolverRegistry) (source : ExternalIpSource)
    → SameKeys r r'
    → SourceRegistered r source
    → SourceRegistered r' source
SourceRegistered-SameKeys r r' source same h = (
  FamilyRegistered-SameKeys r r' ipv4 source.v4 same h.0,
  FamilyRegistered-SameKeys r r' ipv6 source.v6 same h.1,
)

module _ (E : Env) (svc : Service) where
  list_lem :
      (l : SolverList) (kind : AddressKind) (empty : Bool) (st : State E)
      → empty ≡ false
      → IsIdle st.solvers
      → ListRegistered st.solvers kind l.solver_refs
      → Ended st (Source.unless_empty E empty l kind svc st)
  list_lem l kind true st e idle h = cc e
  list_lem l kind false st e idle h =
      query_solvers-Ended E l.query_mode kind svc l.solver_refs [] st idle h

  pub family_lem :
      (o : Option SolverList) (kind : AddressKind) (st : State E)
      → IsIdle st.solvers
      → FamilyRegistered st.solvers kind o
      → Ended st (query_family E o kind svc st)
  unfolding query_list
  family_lem none kind st idle h = record { resolved = tt; kept = Kept-refl Nobody st idle }
  family_lem (some l) kind st idle h = list_lem l kind _ st h.0 idle h.1

  Ended-resume :
      (r : Outcome IpSourceError (List IpAddr))
      (f : List IpAddr → Exec (State E) IpSourceError (List IpAddr)) (st t : State E)
      → IsResolved r
      → Kept Nobody st t
      → ((a : List IpAddr) → Ended t (f a t))
      → Ended st (resume r f t)
  Ended-resume (done a) f st t c k h = after E k (h a)
  Ended-resume (fail e) f st t c k h = record { resolved = c; kept = k }
  Ended-resume (panic p) f st t c k h = elim c [ ]

  -- From a registry with no lock held, the query of a source whose solvers are registered ends
  -- with addresses or with the error that no solver gave any: it does not panic, time out at a
  -- lock or miss a solver, and it leaves no lock held, no key lost or gained, and the sources.
  pub query-Ended :
      (source : ExternalIpSource) (st : State E)
      → IsIdle st.solvers
      → SourceRegistered st.solvers source
      → Ended st (query E source svc st)
  unfolding query ◌>>=◌
  query-Ended source st idle h =
      let a = family_lem source.v4 ipv4 st idle h.0 in
      let t = (query_family E source.v4 ipv4 svc st).1 in
      Ended-resume (query_family E source.v4 ipv4 svc st).0 _ st t a.resolved a.kept λ addrs4.
        let b =
          family_lem source.v6 ipv6 t a.kept.idle
            (FamilyRegistered-SameKeys _ _ ipv6 source.v6 a.kept.same_keys h.1) in
        let u = (query_family E source.v6 ipv6 svc t).1 in
        Ended-resume (query_family E source.v6 ipv6 svc t).0 _ t u b.resolved b.kept
          λ addrs6. record { resolved = tt; kept = Kept-refl Nobody u b.kept.idle }
