-- ===== src/Registry/Unlocked.antt =====
-- The query of a source, with its locks and without them
-- (crates/manager/src/external_ip_source/source.rs).
use mathlib.Core.Path.{subst}
use externalip_manager.Prelude.{
  ◌≡◌, refl, ◌∙◌, ap, sym, Bool, true, false, Option, none, some, List, [], ◌∷◌, ◌++◌,
}
use externalip_manager.Prelude.Map
use externalip_manager.Prelude.Outcome.{Outcome, Result, Exec, lift, pure}
use externalip_manager.Net.{IpAddr, AddressKind, ipv4, ipv6}
use externalip_manager.Errors.{SolverError, IpSourceError, solver_not_found}
use externalip_manager.Crd.{SolverKind, MergeConfig}
use externalip_manager.Kube.{Service}
use externalip_manager.Env.{Env}
use externalip_manager.Solver.{Solver, Merge}
use externalip_manager.State.{State, Key, Key-eq, Slot, set_slot}
use externalip_manager.Solvers.Merge as MergeCode
use externalip_manager.Solvers.Merge.{Call, part, part_of, collect_parts, proceed, assemble}
use externalip_manager.Solvers.Dispatch
use externalip_manager.Source
use externalip_manager.Source.{
  Turn, stop, go, turn, ask_solver, query_solvers, query_family, query, max_depth, conclude,
}
use externalip_manager.Source.Types.{ExternalIpSource, SolverList, QueryMode}
use externalip_manager.Registry.Matches.{Matches}
use externalip_manager.Registry.Quiet.{IsLeaf}
use externalip_manager.Registry.Idle.{
  some_of, IsIdleBut, Also, Nobody, slot-IsFree, IsIdleBut-lock, has-insert,
}
use externalip_manager.Registry.Merges.{AllRegistered}
use externalip_manager.Registry.Queries.{
  FamilyRegistered, FamilyRegistered-SameKeys, SourceRegistered, family_lem,
}
use externalip_manager.Registry.SolverLists.{
  IsIdle, IsRegistered, ListRegistered, ListRegistered-SameKeys, IsRegistered-SameKeys, only_own,
  own_registered, ask-Answered,
}
use externalip_manager.Registry.Plain.{
  Plain, plain, ask_any, consult, plain_turn, plain_solvers, plain_family, plain_query,
}
use externalip_manager.Registry.Visits.{
  Sees, bind-Sees, lift-Sees, visit-Sees, ask_simple-Sees, leaf-IsSimple, simple_asked,
}
use externalip_manager.Registry.UnlockedMerges.{proceed-Sees}

module _ (E : Env) (kind : AddressKind) (svc : Service) where
  abbrev SeesCall : Solver → State E → Type 0
  SeesCall s u = ask_any s kind svc (plain u) ≡ (
    (Dispatch.get_addresses E max_depth s kind svc u).0,
    (Dispatch.get_addresses E max_depth s kind svc u).1,
    plain (Dispatch.get_addresses E max_depth s kind svc u).2,
  )

  merge-Sees :
      (c : MergeConfig) (m : Merge) (st : State E)
      → m.partial_solvers ≡ c.partial_solvers
      → IsIdleBut (Also (SolverKind.merge c, kind) Nobody) st.solvers
      → AllRegistered st.solvers kind c.partial_solvers
      → SeesCall (Solver.merge m) st
  unfolding ask_any Dispatch.get_addresses MergeCode.get_addresses
  merge-Sees c m st same idle h =
      ap (λ (p : Outcome SolverError (List IpAddr) × Plain E). (p.0, Solver.merge m, p.1))
        (proceed-Sees (Also (SolverKind.merge c, kind) Nobody) 0 kind svc (only_own c kind) m _ st
          idle (subst (AllRegistered st.solvers kind) (sym same) h))

  leaf-Sees : (k : SolverKind) (s : Solver) (u : State E) → IsLeaf k → Matches k s → SeesCall s u
  leaf-Sees k s u l m =
      let simple = leaf-IsSimple E k s l m in
      simple_asked s kind svc (plain u) simple ∙ ask_simple-Sees 1 s kind svc u simple

  registered-Sees :
      (k : SolverKind) (s : Solver) (u : State E)
      → Matches k s
      → IsIdleBut (Also (k, kind) Nobody) u.solvers
      → IsRegistered u.solvers kind k
      → SeesCall s u
  registered-Sees (SolverKind.merge c) (Solver.merge m) u matches idle h =
      merge-Sees c m u matches.0 idle h.0
  registered-Sees (SolverKind.merge c) (Solver.ip_api s) u matches idle h = elim matches [ ]
  registered-Sees (SolverKind.merge c) (Solver.interface s) u matches idle h = elim matches [ ]
  registered-Sees (SolverKind.merge c) (Solver.dns_hostname s) u matches idle h = elim matches [ ]
  registered-Sees (SolverKind.merge c) (Solver.load_balancer_ingress s) u matches idle h =
      elim matches [ ]
  registered-Sees (SolverKind.merge c) (Solver.static s) u matches idle h = elim matches [ ]
  registered-Sees (SolverKind.ip_api c) s u matches idle h =
      leaf-Sees (SolverKind.ip_api c) s u tt matches
  registered-Sees (SolverKind.interface c) s u matches idle h =
      leaf-Sees (SolverKind.interface c) s u tt matches
  registered-Sees (SolverKind.dns_hostname c) s u matches idle h =
      leaf-Sees (SolverKind.dns_hostname c) s u tt matches
  registered-Sees (SolverKind.load_balancer_ingress c) s u matches idle h =
      leaf-Sees (SolverKind.load_balancer_ingress c) s u tt matches
  registered-Sees (SolverKind.static c) s u matches idle h =
      leaf-Sees (SolverKind.static c) s u tt matches

  module _ (mode : QueryMode) where
    abbrev asked : SolverKind → Exec (Plain E) IpSourceError (Result SolverError (List IpAddr))
    asked s = consult ask_any (Source.solver_failed (solver_not_found s kind)) (s, kind) svc

    ask-Sees :
        (s : SolverKind) (st : State E)
        → IsIdle st.solvers
        → IsRegistered st.solvers kind s
        → Sees (ask_solver E mode kind svc s st) (asked s (plain st))
    ask-Sees s st idle h =
        let key : Key = (s, kind) in
        let there = own_registered st.solvers kind s h in
        let (slot, e) = some_of (Map.get st.solvers key) there in
        let free = slot-IsFree Nobody key slot (λ n. n) (idle key slot e) in
        let taken : Slot = record { solver = slot.solver; locked = true } in
        visit-Sees (Dispatch.get_addresses E max_depth) ask_any _ _ svc key slot st e free.0 (
          registered-Sees s slot.solver (set_slot key taken st) free.1
            (IsIdleBut-lock Nobody st.solvers key taken idle)
            (IsRegistered-SameKeys st.solvers _ kind s
              (λ k. has-insert st.solvers key k taken there) h))

    conclusion-Sees :
        (collected : List IpAddr) (st : State E)
        → Sees
            (Source.conclusion E mode kind svc collected st)
            (lift (conclude mode collected) (plain st))
    conclusion-Sees collected st = lift-Sees (conclude mode collected) st

    turn-Sees :
        (t : Turn) (f : List IpAddr → Exec (State E) IpSourceError (List IpAddr))
        (g : List IpAddr → Exec (Plain E) IpSourceError (List IpAddr)) (st : State E)
        → ((collected : List IpAddr) → Sees (f collected st) (g collected (plain st)))
        → Sees (Source.take_turn E t f st) (plain_turn t g (plain st))
    turn-Sees (stop addrs) f g st h = refl
    turn-Sees (go collected) f g st h = h collected

    solvers-Sees :
        (refs : List SolverKind) (collected : List IpAddr) (st : State E)
        → IsIdle st.solvers
        → ListRegistered st.solvers kind refs
        → Sees
            (query_solvers E mode kind svc refs collected st)
            (plain_solvers mode kind svc refs collected (plain st))
    unfolding query_solvers plain_solvers
    solvers-Sees [] collected st idle h = conclusion-Sees collected st
    solvers-Sees (s ∷ refs) collected st idle h =
        let kept = (ask-Answered E mode kind svc s st idle h.0).kept in
        bind-Sees (ask_solver E mode kind svc s) (asked s)
          (λ answer.
            Source.take_turn E (turn mode collected answer) (query_solvers E mode kind svc refs))
          (λ answer. plain_turn (turn mode collected answer) (plain_solvers mode kind svc refs)) st
          (ask-Sees s st idle h.0)
          λ answer e.
            turn-Sees (turn mode collected answer) (query_solvers E mode kind svc refs)
              (plain_solvers mode kind svc refs) _
              λ more.
                solvers-Sees refs more _ kept.idle
                  (ListRegistered-SameKeys _ _ kind refs kept.same_keys h.1)

module _ (E : Env) (svc : Service) where
  list-Sees :
      (l : SolverList) (kind : AddressKind) (empty : Bool) (st : State E)
      → empty ≡ false
      → IsIdle st.solvers
      → ListRegistered st.solvers kind l.solver_refs
      → Sees
          (Source.unless_empty E empty l kind svc st)
          (plain_solvers l.query_mode kind svc l.solver_refs [] (plain st))
  list-Sees l kind true st e idle h = cc e
  list-Sees l kind false st e idle h =
      solvers-Sees E kind svc l.query_mode l.solver_refs [] st idle h

  family-Sees :
      (o : Option SolverList) (kind : AddressKind) (st : State E)
      → IsIdle st.solvers
      → FamilyRegistered st.solvers kind o
      → Sees (query_family E o kind svc st) (plain_family o kind svc (plain st))
  unfolding Source.query_list
  family-Sees none kind st idle h = refl
  family-Sees (some l) kind st idle h = list-Sees l kind _ st h.0 idle h.1

  -- From a registry with no lock held, the query of a source whose solvers are registered does
  -- what the query without locks does: it ends the same, with the same effects on the world, and
  -- leaves every solver as that leaves it.
  pub query-plain :
      (source : ExternalIpSource) (st : State E)
      → IsIdle st.solvers
      → SourceRegistered st.solvers source
      → plain_query source svc (plain st)
        ≡ ((query E source svc st).0, plain (query E source svc st).1)
  unfolding query plain_query
  query-plain source st idle h =
      let kept = (family_lem E svc source.v4 ipv4 st idle h.0).kept in
      bind-Sees (query_family E source.v4 ipv4 svc) (plain_family source.v4 ipv4 svc) _ _ st
        (family-Sees source.v4 ipv4 st idle h.0)
        λ addrs4 e.
          bind-Sees (query_family E source.v6 ipv6 svc) (plain_family source.v6 ipv6 svc)
            (λ addrs6. pure (addrs4 ++ addrs6)) (λ addrs6. pure (addrs4 ++ addrs6)) _
            (family-Sees source.v6 ipv6 _ kept.idle
              (FamilyRegistered-SameKeys _ _ ipv6 source.v6 kept.same_keys h.1))
            λ addrs6 f. refl
