-- ===== src/Registry/UnlockedMerges.antt =====
-- The query of a merge's parts, with their locks and without them
-- (crates/manager/src/external_ip_source/solvers/merge.rs).
use externalip_manager.Prelude.{◌≡◌, refl, ℕ, suc, true, Option, none, some, List, [], ◌∷◌, ◌++◌}
use externalip_manager.Prelude.Map
use externalip_manager.Prelude.Outcome.{lift, ◌>>=◌}
use externalip_manager.Net.{IpAddr, AddressKind}
use externalip_manager.Errors.{partial_not_found}
use externalip_manager.Crd.{PartialSolver, from_partial}
use externalip_manager.Kube.{Service}
use externalip_manager.Env.{Env}
use externalip_manager.Solver.{Merge}
use externalip_manager.State.{State, Key, Key-eq}
use externalip_manager.Solvers.Merge.{Call, part, part_of, collect_parts, proceed, assemble}
use externalip_manager.Solvers.Dispatch
use externalip_manager.Registry.Idle.{has, some_of, IsIdleBut, slot-IsFree}
use externalip_manager.Registry.Merges.{
  AllRegistered, AllRegistered-SameKeys, OnlyMerges, partial-IsLeaf, part-Went,
}
use externalip_manager.Registry.Plain.{
  plain, ask_simple, consult, plain_part, plain_parts, plain_proceed,
}
use externalip_manager.Registry.Visits.{
  Sees, bind-Sees, lift-Sees, visit-Sees, ask_simple-Sees, leaf-IsSimple,
}

module _ {E : Env} (X : Key → Type 0) (depth : ℕ) (kind : AddressKind) (svc : Service)
    (only : OnlyMerges X) where
  abbrev below : Call E
  below = Dispatch.get_addresses E (suc depth)

  part-Sees :
      (ps : PartialSolver) (st : State E)
      → IsIdleBut X st.solvers
      → has st.solvers (from_partial ps.solver, kind) ≡ true
      → Sees (part below kind svc ps st) (plain_part kind svc ps (plain st))
  part-Sees ps st idle h =
      let key : Key = (from_partial ps.solver, kind) in
      let (slot, e) = some_of (Map.get st.solvers key) h in
      let free =
        slot-IsFree X key slot (λ x. only key x (partial-IsLeaf ps.solver)) (idle key slot e) in
      let simple = leaf-IsSimple E key.0 slot.solver (partial-IsLeaf ps.solver) free.1 in
      bind-Sees _ (consult ask_simple (record { reason = partial_not_found ps }) key svc) _
        (λ answer. lift answer >>= λ addrs. lift (part_of ps addrs)) st
        (visit-Sees below ask_simple _ _ svc key slot st e free.0
          (ask_simple-Sees depth slot.solver kind svc _ simple))
        λ answer a.
          bind-Sees (lift answer) (lift answer) _ _ _ (lift-Sees answer _)
            λ addrs b. lift-Sees (part_of ps addrs) _

  parts-Sees :
      (pss : List PartialSolver) (parts : List ℕ) (st : State E)
      → IsIdleBut X st.solvers
      → AllRegistered st.solvers kind pss
      → Sees (collect_parts below kind svc pss parts st) (plain_parts kind svc pss parts (plain st))
  unfolding collect_parts plain_parts
  parts-Sees [] parts st idle h = refl
  parts-Sees (ps ∷ pss) parts st idle h =
      let w = part-Went X depth kind svc only ps st idle h.0 in
      bind-Sees (part below kind svc ps) (plain_part kind svc ps) _ _ st (part-Sees ps st idle h.0)
        λ bits e.
          parts-Sees pss (parts ++ bits ∷ []) _ w.kept.idle
            (AllRegistered-SameKeys _ _ kind pss w.kept.same_keys h.1)

  pub proceed-Sees :
      (m : Merge) (o : Option IpAddr) (st : State E)
      → IsIdleBut X st.solvers
      → AllRegistered st.solvers kind m.partial_solvers
      → Sees (proceed below m kind svc o st) (plain_proceed m kind svc o (plain st))
  proceed-Sees m (some mask) st idle h = refl
  proceed-Sees m none st idle h =
      bind-Sees (collect_parts below kind svc m.partial_solvers [])
        (plain_parts kind svc m.partial_solvers []) (λ parts t. (assemble kind parts, t))
        (λ parts q. (assemble kind parts, q)) st (parts-Sees m.partial_solvers [] st idle h)
        λ parts e. refl
