-- ===== src/Registry/DeclaredTurns.antt =====
-- A query without locks of a source whose addresses are declared in the cluster
-- (crates/manager/src/external_ip_source/source.rs).
use externalip_manager.Prelude.{
  ◌≡◌, refl, ◌∙◌, ap, sym, Option, none, some, List, [], ◌∷◌, ◌++◌, map, All,
}
use mathlib.Core.List.{append-nil, append_assoc}
use externalip_manager.Prelude.Outcome.{
  Outcome, done, fail, Result, ok, err, resume, panic, pure, ◌>>=◌,
}
use externalip_manager.Net.{IpAddr, AddressKind, ipv4, ipv6}
use externalip_manager.Errors.{SolverError, IpSourceError, solver_not_found}
use externalip_manager.Crd.{SolverKind}
use externalip_manager.Kube.{Service}
use externalip_manager.Env.{Env}
use externalip_manager.State.{Key-eq}
use externalip_manager.Source.{solver_failed, turn, conclude}
use externalip_manager.Source.Types.{QueryMode, first_found, all, SolverList, ExternalIpSource}
use externalip_manager.Source.Modes.{given, concat, unless_none}
use externalip_manager.Registry.Plain.{Plain, plain_turn, plain_solvers, plain_family, plain_query}
use externalip_manager.Registry.Declared.{
  IsDeclaredBy, AllDeclared, IsDeclared, first_given, picked, declared, declared_family,
  joined_with, joined, declared_source,
}
use externalip_manager.Registry.DeclaredAnswers.{
  Stands, answer_of_kind, given-answer_of_kind, consulted,
}

module _ (E : Env) (svc : Service) where
  -- One turn of the loop.
  turned :
      (mode : QueryMode) (kind : AddressKind) (k : SolverKind) (refs : List SolverKind)
      (collected : List IpAddr) (p : Plain E)
      → IsDeclaredBy k
      → Stands E svc p kind k
      → plain_solvers mode kind svc (k ∷ refs) collected p
        ≡ plain_turn
            (turn mode collected (answer_of_kind E svc kind k))
            (plain_solvers mode kind svc refs)
            p
  unfolding plain_solvers ◌>>=◌
  turned mode kind k refs collected p h there =
      ap
        (λ (x : Outcome IpSourceError (Result SolverError (List IpAddr)) × Plain E).
          resume x.0
            (λ answer. plain_turn (turn mode collected answer) (plain_solvers mode kind svc refs))
            x.1)
        (consulted E svc (solver_failed (solver_not_found k kind)) kind k p h there)

  turn_all :
      (kind : AddressKind) (refs : List SolverKind) (collected : List IpAddr) (p : Plain E)
      (answer : Result SolverError (List IpAddr))
      → plain_turn (turn all collected answer) (plain_solvers all kind svc refs) p
        ≡ plain_solvers all kind svc refs (collected ++ given answer) p
  unfolding turn
  turn_all kind refs collected p (err e) =
      ap (λ c. plain_solvers all kind svc refs c p) (sym (append-nil collected))
  turn_all kind refs collected p (ok []) =
      ap (λ c. plain_solvers all kind svc refs c p) (sym (append-nil collected))
  turn_all kind refs collected p (ok (a ∷ addrs)) = refl

  turn_first :
      (kind : AddressKind) (refs : List SolverKind) (p : Plain E)
      (answer : Result SolverError (List IpAddr)) (rest : List (List IpAddr))
      → plain_solvers first_found kind svc refs [] p ≡ (unless_none (first_given rest), p)
      → plain_turn (turn first_found [] answer) (plain_solvers first_found kind svc refs) p
        ≡ (unless_none (first_given (given answer ∷ rest)), p)
  unfolding turn
  turn_first kind refs p (err e) rest h = h
  turn_first kind refs p (ok []) rest h = h
  turn_first kind refs p (ok (a ∷ addrs)) rest h = refl

  conclude_none :
      (collected : List IpAddr) (kind : AddressKind) (p : Plain E)
      → plain_solvers all kind svc [] collected p ≡ (unless_none collected, p)
  unfolding plain_solvers conclude
  conclude_none [] kind p = refl
  conclude_none (a ∷ addrs) kind p = refl

  solvers_all :
      (kind : AddressKind) (refs : List SolverKind) (collected : List IpAddr) (p : Plain E)
      → All IsDeclaredBy refs
      → All (Stands E svc p kind) refs
      → plain_solvers all kind svc refs collected p
        ≡ (unless_none (collected ++ concat (map (declared E svc kind) refs)), p)
  solvers_all kind [] collected p h there =
      conclude_none collected kind p ∙ ap (λ c. (unless_none c, p)) (sym (append-nil collected))
  solvers_all kind (k ∷ refs) collected p h there =
      turned all kind k refs collected p h.0 there.0
      ∙ turn_all kind refs collected p (answer_of_kind E svc kind k)
      ∙ ap (λ c. plain_solvers all kind svc refs (collected ++ c) p)
          (given-answer_of_kind E svc kind k h.0)
      ∙ solvers_all kind refs (collected ++ declared E svc kind k) p h.1 there.1
      ∙ ap (λ c. (unless_none c, p))
          (append_assoc collected (declared E svc kind k) (concat (map (declared E svc kind) refs)))

  solvers_first :
      (kind : AddressKind) (refs : List SolverKind) (p : Plain E)
      → All IsDeclaredBy refs
      → All (Stands E svc p kind) refs
      → plain_solvers first_found kind svc refs [] p
        ≡ (unless_none (first_given (map (declared E svc kind) refs)), p)
  unfolding plain_solvers conclude
  solvers_first kind [] p h there = refl
  solvers_first kind (k ∷ refs) p h there =
      turned first_found kind k refs [] p h.0 there.0
      ∙ turn_first kind refs p (answer_of_kind E svc kind k) _
          (solvers_first kind refs p h.1 there.1)
      ∙ ap (λ c. (unless_none (first_given (c ∷ map (declared E svc kind) refs)), p))
          (given-answer_of_kind E svc kind k h.0)

  abbrev pub FamilyStands : Plain E → AddressKind → Option SolverList → Type 0
  FamilyStands p kind none = Unit
  FamilyStands p kind (some l) = All (Stands E svc p kind) l.solver_refs

  solvers_lem :
      (mode : QueryMode) (kind : AddressKind) (refs : List SolverKind) (p : Plain E)
      → All IsDeclaredBy refs
      → All (Stands E svc p kind) refs
      → plain_solvers mode kind svc refs [] p
        ≡ (unless_none (picked mode (map (declared E svc kind) refs)), p)
  solvers_lem first_found kind refs p h there = solvers_first kind refs p h there
  solvers_lem all kind refs p h there = solvers_all kind refs [] p h there

  family_declared :
      (kind : AddressKind) (o : Option SolverList) (p : Plain E)
      → AllDeclared o
      → FamilyStands p kind o
      → plain_family o kind svc p ≡ (declared_family E svc kind o, p)
  family_declared kind none p h there = refl
  family_declared kind (some l) p h there = solvers_lem l.query_mode kind l.solver_refs p h there

  joined_done :
      (addrs4 : List IpAddr) (r6 : Outcome IpSourceError (List IpAddr)) (p : Plain E)
      → resume {S = Plain E} r6 (λ addrs6 q. (done (addrs4 ++ addrs6), q)) p
        ≡ (joined_with E svc addrs4 r6, p)
  joined_done addrs4 (done addrs6) p = refl
  joined_done addrs4 (fail e) p = refl
  joined_done addrs4 (panic x) p = refl

  -- The second family is queried, and joined with what the first came to.
  second :
      (r4 : Outcome IpSourceError (List IpAddr)) (o : Option SolverList) (p : Plain E)
      → AllDeclared o
      → FamilyStands p ipv6 o
      → resume r4 (λ addrs4. plain_family o ipv6 svc >>= λ addrs6. pure (addrs4 ++ addrs6)) p
        ≡ (joined E svc r4 (declared_family E svc ipv6 o), p)
  unfolding ◌>>=◌
  second (done addrs4) o p h there =
      ap
        (λ (x : Outcome IpSourceError (List IpAddr) × Plain E).
          resume x.0 (λ addrs6 q. (done (addrs4 ++ addrs6), q)) x.1)
        (family_declared ipv6 o p h there)
      ∙ joined_done addrs4 (declared_family E svc ipv6 o) p
  second (fail e) o p h there = refl
  second (panic x) o p h there = refl

  pub plain_query-IsDeclared :
      (source : ExternalIpSource) (p : Plain E)
      → IsDeclared source
      → FamilyStands p ipv4 source.v4
      → FamilyStands p ipv6 source.v6
      → plain_query source svc p ≡ (declared_source E svc source, p)
  unfolding plain_query ◌>>=◌
  plain_query-IsDeclared source p h four six =
      ap
        (λ (x : Outcome IpSourceError (List IpAddr) × Plain E).
          resume x.0
            (λ addrs4. plain_family source.v6 ipv6 svc >>= λ addrs6. pure (addrs4 ++ addrs6)) x.1)
        (family_declared ipv4 source.v4 p h.0 four)
      ∙ second (declared_family E svc ipv4 source.v4) source.v6 p h.1 six
