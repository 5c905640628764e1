-- ===== src/Registry/SolverLists.antt =====
-- The query of a solver list whose solvers are registered.
use mathlib.Core.Path.{subst}
use externalip_manager.Prelude.{◌≡◌, refl, ◌∙◌, sym, inl, inr, List, [], ◌∷◌, true, All}
use externalip_manager.Prelude.Outcome.{Outcome, done, fail, panic, Exec, resume}
use externalip_manager.Net.{IpAddr, AddressKind}
use externalip_manager.Errors.{IpSourceError, no_addresses}
use externalip_manager.Crd.{SolverKind, MergeConfig}
use externalip_manager.Kube.{Service}
use externalip_manager.Env.{Env}
use externalip_manager.Solver.{Solver}
use externalip_manager.State.{State, Key, SolverRegistry}
use externalip_manager.Solvers.Dispatch
use externalip_manager.Source
use externalip_manager.Source.{
  solver_failed, turn, stop, go, Turn, conclude, ask_solver, query_solvers, query_list,
  query_family, query, conclusion, max_depth,
}
use externalip_manager.Source.Types.{QueryMode, first_found, all}
use externalip_manager.Registry.Quiet.{IsLeaf}
use externalip_manager.Registry.Idle.{
  has, IsIdleBut, Also, Nobody, SameKeys, Kept, IsGoodCall, Answered, visit-Answered,
}
use externalip_manager.Registry.Merges.{
  AllRegistered, AllRegistered-SameKeys, leaf-IsGoodCall, merge-Went, Kept-refl, Kept-trans,
}

-- The solver is registered for the family, and so are those that it calls.
abbrev pub IsRegistered : SolverRegistry → AddressKind → SolverKind → Type 0
IsRegistered r kind (SolverKind.merge c) =
    AllRegistered r kind c.partial_solvers × (has r (SolverKind.merge c, kind) ≡ true)
IsRegistered r kind s = has r (s, kind) ≡ true

pub own_registered :
    (r : SolverRegistry) (kind : AddressKind) (s : SolverKind)
    → IsRegistered r kind s
    → has r (s, kind) ≡ true
own_registered r kind (SolverKind.merge c) h = h.1
own_registered r kind (SolverKind.ip_api c) h = h
own_registered r kind (SolverKind.interface c) h = h
own_registered r kind (SolverKind.dns_hostname c) h = h
own_registered r kind (SolverKind.load_balancer_ingress c) h = h
own_registered r kind (SolverKind.static c) h = h

pub IsRegistered-SameKeys :
    (r r' : SolverRegistry) (kind : AddressKind) (s : SolverKind)
    → SameKeys r r'
    → IsRegistered r kind s
    → IsRegistered r' kind s
IsRegistered-SameKeys r r' kind (SolverKind.merge c) same h =
    (AllRegistered-SameKeys r r' kind c.partial_solvers same h.0, sym (same _) ∙ h.1)
IsRegistered-SameKeys r r' kind (SolverKind.ip_api c) same h = sym (same _) ∙ h
IsRegistered-SameKeys r r' kind (SolverKind.interface c) same h = sym (same _) ∙ h
IsRegistered-SameKeys r r' kind (SolverKind.dns_hostname c) same h = sym (same _) ∙ h
IsRegistered-SameKeys r r' kind (SolverKind.load_balancer_ingress c) same h = sym (same _) ∙ h
IsRegistered-SameKeys r r' kind (SolverKind.static c) same h = sym (same _) ∙ h

-- All solvers of a list are registered.
abbrev pub ListRegistered : SolverRegistry → AddressKind → List SolverKind → Type 0
ListRegistered r kind refs = All (IsRegistered r kind) refs

pub ListRegistered-SameKeys :
    (r r' : SolverRegistry) (kind : AddressKind) (refs : List SolverKind)
    → SameKeys r r'
    → ListRegistered r kind refs
    → ListRegistered r' kind refs
ListRegistered-SameKeys r r' kind [] same h = tt
ListRegistered-SameKeys r r' kind (s ∷ refs) same h =
    (IsRegistered-SameKeys r r' kind s same h.0, ListRegistered-SameKeys r r' kind refs same h.1)

-- No lock is held, and each solver stands for its key.
abbrev pub IsIdle : SolverRegistry → Type 0
IsIdle = IsIdleBut Nobody

pub only_own :
    (c : MergeConfig) (kind : AddressKind) (k : Key)
    → Also (SolverKind.merge c, kind) Nobody k
    → ¬ IsLeaf k.0
only_own c kind k (inl e) l = subst (λ (j : Key). IsLeaf j.0) e l
only_own c kind k (inr n) l = n

module _ (E : Env) (kind : AddressKind) (svc : Service) where
  -- A call of a registered merge, two levels deep, is good; so is one of any other solver.
  merge-IsGoodCall :
      (c : MergeConfig) (r : SolverRegistry)
      → IsRegistered r kind (SolverKind.merge c)
      → IsGoodCall Nobody (SolverKind.merge c, kind) (Dispatch.get_addresses E max_depth) svc r
  unfolding Dispatch.get_addresses
  merge-IsGoodCall c r h (Solver.merge m) st (same, made, sane) idle keys =
      let w =
        merge-Went (Also (SolverKind.merge c, kind) Nobody) 0 kind svc (only_own c kind) m st sane
          made idle
          (subst (AllRegistered st.solvers kind) (sym same)
            (AllRegistered-SameKeys r st.solvers kind c.partial_solvers keys h.0)) in
      record { calm = w.calm; matches = (same, made, sane); kept = w.kept }
  merge-IsGoodCall c r h s st m idle keys = elim m [ ]

  solver-IsGoodCall :
      (s : SolverKind) (r : SolverRegistry)
      → IsRegistered r kind s
      → IsGoodCall Nobody (s, kind) (Dispatch.get_addresses E max_depth) svc r
  solver-IsGoodCall (SolverKind.merge c) r h = merge-IsGoodCall c r h
  solver-IsGoodCall (SolverKind.ip_api c) r h = leaf-IsGoodCall Nobody 1 _ svc r tt
  solver-IsGoodCall (SolverKind.interface c) r h = leaf-IsGoodCall Nobody 1 _ svc r tt
  solver-IsGoodCall (SolverKind.dns_hostname c) r h = leaf-IsGoodCall Nobody 1 _ svc r tt
  solver-IsGoodCall (SolverKind.load_balancer_ingress c) r h = leaf-IsGoodCall Nobody 1 _ svc r tt
  solver-IsGoodCall (SolverKind.static c) r h = leaf-IsGoodCall Nobody 1 _ svc r tt

-- A query ended with addresses, or with the error that no solver gave any.
abbrev pub IsResolved : Outcome IpSourceError (List IpAddr) → Type 0
IsResolved (done addrs) = Unit
IsResolved (fail e) = e ≡ solver_failed no_addresses
IsResolved (panic p) = ⊥

pub record Ended {E : Env} (st : State E) (end : Outcome IpSourceError (List IpAddr) × State E)
    : Type 0 where
  pub resolved : IsResolved end.0
  pub kept : Kept Nobody st end.1

module _ (E : Env) where
  pub after :
      {st t : State E} {end : Outcome IpSourceError (List IpAddr) × State E}
      → Kept Nobody st t
      → Ended t end
      → Ended st end
  after k e = record { resolved = e.resolved; kept = Kept-trans Nobody k e.kept }

  conclusion-Ended :
      (mode : QueryMode) (kind : AddressKind) (svc : Service) (collected : List IpAddr)
      (st : State E)
      → IsIdle st.solvers
      → Ended st (conclusion E mode kind svc collected st)
  unfolding conclude
  conclusion-Ended first_found kind svc collected st idle = record {
    resolved = refl;
    kept = Kept-refl Nobody st idle;
  }
  conclusion-Ended all kind svc [] st idle = record {
    resolved = refl;
    kept = Kept-refl Nobody st idle;
  }
  conclusion-Ended all kind svc (a ∷ as') st idle = record {
    resolved = tt;
    kept = Kept-refl Nobody st idle;
  }

  module _ (mode : QueryMode) (kind : AddressKind) (svc : Service) where
    pub ask-Answered :
        (s : SolverKind) (st : State E)
        → IsIdle st.solvers
        → IsRegistered st.solvers kind s
        → Answered Nobody st (ask_solver E mode kind svc s st)
    ask-Answered s st idle h =
        visit-Answered (Dispatch.get_addresses E max_depth) _ _ svc Nobody (s, kind) st (λ n. n)
          idle (own_registered st.solvers kind s h) (solver-IsGoodCall E kind svc s st.solvers h)

    turn-Ended :
        (t : Turn) (rest : List IpAddr → Exec (State E) IpSourceError (List IpAddr)) (st : State E)
        → IsIdle st.solvers
        → ((collected : List IpAddr) → Ended st (rest collected st))
        → Ended st (Source.take_turn E t rest st)
    turn-Ended (stop addrs) rest st idle h = record {
      resolved = tt;
      kept = Kept-refl Nobody st idle;
    }
    turn-Ended (go addrs) rest st idle h = h addrs

    pub query_solvers-Ended :
        (refs : List SolverKind) (collected : List IpAddr) (st : State E)
        → IsIdle st.solvers
        → ListRegistered st.solvers kind refs
        → Ended st (query_solvers E mode kind svc refs collected st)
    unfolding query_solvers
    query_solvers-Ended [] collected st idle h = conclusion-Ended mode kind svc collected st idle
    query_solvers-Ended (s ∷ refs) collected st idle h =
        let a = ask-Answered s st idle h.0 in
        let t = (ask_solver E mode kind svc s st).1 in
        subst
          (λ r. Ended st (
            resume r
              (λ answer.
                Source.take_turn E (turn mode collected answer)
                  (query_solvers E mode kind svc refs))
              t))
          (sym a.came)
          (after a.kept (
            turn-Ended (turn mode collected a.answer) (query_solvers E mode kind svc refs) t
              a.kept.idle
              λ more.
                query_solvers-Ended refs more t a.kept.idle
                  (ListRegistered-SameKeys _ _ kind refs a.kept.same_keys h.1)))
