-- ===== src/Source/Modes.antt =====
-- The two query modes of a solver list, by the answers of its solvers.
use mathlib.Core.List.{append_assoc, append-nil}
use externalip_manager.Prelude.{◌≡◌, refl, ◌∙◌, ap, sym, List, [], ◌∷◌, ◌++◌, All}
use externalip_manager.Prelude.Outcome.{Result, ok, err, Outcome, done, fail, resume, ◌>>=◌}
use externalip_manager.Net.{IpAddr, AddressKind}
use externalip_manager.Errors.{SolverError, IpSourceError, no_addresses}
use externalip_manager.Crd.{SolverKind}
use externalip_manager.Kube.{Service}
use externalip_manager.Env.{Env}
use externalip_manager.State.{State}
use externalip_manager.Source.{solver_failed, turn, conclude, take_turn, ask_solver, query_solvers}
use externalip_manager.Source.Types.{QueryMode, first_found, all}

-- The addresses of an answer; an error gives none.
abbrev pub given : Result SolverError (List IpAddr) → List IpAddr
given (ok addrs) = addrs
given (err e) = []

abbrev pub concat : List (List IpAddr) → List IpAddr
concat [] = []
concat (xs ∷ xss) = xs ++ concat xss

abbrev pub unless_none : List IpAddr → Outcome IpSourceError (List IpAddr)
unless_none [] = fail (solver_failed no_addresses)
unless_none (a ∷ addrs) = done (a ∷ addrs)

module _ (E : Env) (mode : QueryMode) (kind : AddressKind) (svc : Service) where
  -- The solvers were asked in order, from one state to another, and gave these addresses.
  pub data Ran : List SolverKind → State E → List (List IpAddr) → State E → Type 0 where
    ran_none : {st : State E} → Ran [] st [] st
    ran :
        {s : SolverKind} {refs : List SolverKind} {st t u : State E}
        {answer : Result SolverError (List IpAddr)} {answers : List (List IpAddr)}
        → ask_solver E mode kind svc s st ≡ (done answer, t)
        → Ran refs t answers u
        → Ran (s ∷ refs) st (given answer ∷ answers) u

  -- One turn of the loop, given the solver's answer.
  turn-taken :
      (s : SolverKind) (refs : List SolverKind) (collected : List IpAddr) (st t : State E)
      (answer : Result SolverError (List IpAddr))
      → ask_solver E mode kind svc s st ≡ (done answer, t)
      → query_solvers E mode kind svc (s ∷ refs) collected st
        ≡ take_turn E (turn mode collected answer) (query_solvers E mode kind svc refs) t
  unfolding query_solvers ◌>>=◌
  turn-taken s refs collected st t answer e =
      ap
        (λ (p : Outcome IpSourceError (Result SolverError (List IpAddr)) × State E).
          resume p.0 (λ a. take_turn E (turn mode collected a) (query_solvers E mode kind svc refs))
            p.1)
        e

module _ (E : Env) (kind : AddressKind) (svc : Service) where
  conclude_all :
      (collected : List IpAddr) (st : State E)
      → query_solvers E all kind svc [] collected st ≡ (unless_none collected, st)
  unfolding query_solvers conclude
  conclude_all [] st = refl
  conclude_all (a ∷ addrs) st = refl

  collected_turn :
      (refs : List SolverKind) (collected : List IpAddr) (t : State E)
      (answer : Result SolverError (List IpAddr))
      → take_turn E (turn all collected answer) (query_solvers E all kind svc refs) t
        ≡ query_solvers E all kind svc refs (collected ++ given answer) t
  unfolding turn
  collected_turn refs collected t (err e) =
      ap (λ c. query_solvers E all kind svc refs c t) (sym (append-nil collected))
  collected_turn refs collected t (ok []) =
      ap (λ c. query_solvers E all kind svc refs c t) (sym (append-nil collected))
  collected_turn refs collected t (ok (a ∷ addrs)) = refl

  all_onto :
      {refs : List SolverKind} {st t : State E} {answers : List (List IpAddr)}
      (collected : List IpAddr)
      → Ran E all kind svc refs st answers t
      → query_solvers E all kind svc refs collected st
        ≡ (unless_none (collected ++ concat answers), t)
  all_onto {st} collected ran_none =
      conclude_all collected st ∙ ap (λ c. (unless_none c, st)) (sym (append-nil collected))
  all_onto collected (ran {s} {refs} {st} {t} {u} {answer} {answers} e r) =
      turn-taken E all kind svc s refs collected st t answer e
      ∙ collected_turn refs collected t answer
      ∙ all_onto (collected ++ given answer) r
      ∙ ap (λ c. (unless_none c, u)) (append_assoc collected (given answer) (concat answers))

  -- In the mode `all`, when every solver answered, the query gives the addresses of all the
  -- answers in the order of the solvers, and the error that there are none only if all were empty.
  pub query_solvers_all :
      {refs : List SolverKind} {st t : State E} {answers : List (List IpAddr)}
      → Ran E all kind svc refs st answers t
      → query_solvers E all kind svc refs [] st ≡ (unless_none (concat answers), t)
  query_solvers_all r = all_onto [] r

  skipped_turn :
      (refs : List SolverKind) (t : State E) (answer : Result SolverError (List IpAddr))
      → given answer ≡ []
      → take_turn E (turn first_found [] answer) (query_solvers E first_found kind svc refs) t
        ≡ query_solvers E first_found kind svc refs [] t
  unfolding turn
  skipped_turn refs t (err e) h = refl
  skipped_turn refs t (ok []) h = refl
  skipped_turn refs t (ok (a ∷ addrs)) h = cc h

  skipped :
      {before : List SolverKind} {st t : State E} {answers : List (List IpAddr)}
      (after : List SolverKind)
      → Ran E first_found kind svc before st answers t
      → All (λ addrs. addrs ≡ []) answers
      → query_solvers E first_found kind svc (before ++ after) [] st
        ≡ query_solvers E first_found kind svc after [] t
  skipped after ran_none h = refl
  skipped after (ran {s} {refs} {st} {t} {u} {answer} e r) h =
      turn-taken E first_found kind svc s (refs ++ after) [] st t answer e
      ∙ skipped_turn (refs ++ after) t answer h.0
      ∙ skipped after r h.1

  -- In the mode `firstFound`, when the first solvers gave no address and the next one gives some,
  -- the query gives the addresses of that one and ends there: the state is the one that it left,
  -- whatever solvers follow.
  pub query_solvers_first :
      {before : List SolverKind} {st t u : State E} {answers : List (List IpAddr)} (s : SolverKind)
      (after : List SolverKind) (a : IpAddr) (addrs : List IpAddr)
      → Ran E first_found kind svc before st answers t
      → All (λ addrs. addrs ≡ []) answers
      → ask_solver E first_found kind svc s t ≡ (done (ok (a ∷ addrs)), u)
      → query_solvers E first_found kind svc (before ++ s ∷ after) [] st ≡ (done (a ∷ addrs), u)
  unfolding turn
  query_solvers_first {t} {u} s after a addrs r h e =
      skipped (s ∷ after) r h ∙ turn-taken E first_found kind svc s after [] t u (ok (a ∷ addrs)) e
