-- ===== src/Registry/DeclaredAnswers.antt =====
-- What a solver answers, without locks, if its addresses are declared in the cluster
-- (crates/manager/src/external_ip_source/solvers/).
use externalip_manager.Prelude.{
  ◌≡◌, refl, ◌∙◌, ap, sym, true, false, Option, some, List, [], ◌∷◌, if◌then◌else◌, keep, ite,
}
use externalip_manager.Prelude.Outcome.{Outcome, done, Result, ok, err}
use externalip_manager.Net.{IpAddr, AddressKind, ipv4, ipv6, v4, v6}
use externalip_manager.Errors.{SolverError}
use externalip_manager.Crd.{SolverKind}
use externalip_manager.Kube.{Service}
use externalip_manager.Env.{Env}
use externalip_manager.Solver.{Solver}
use externalip_manager.State.{Key, Key-eq}
use externalip_manager.Solvers.Merge.{attempted}
use externalip_manager.Solvers.Static
use externalip_manager.Solvers.Ingress
use externalip_manager.Solvers.Dispatch
use externalip_manager.Solvers.Dispatch.{of_result}
use externalip_manager.Source.Modes.{given}
use externalip_manager.Registry.Matches.{Matches}
use externalip_manager.Registry.Plain.{Plain, keeping, ask_any, consult, consult_found}
use externalip_manager.Registry.Declared.{IsDeclaredBy, is_of, declared}

module _ (E : Env) (svc : Service) where
  -- The solver of the key stands in the registry.
  abbrev pub Stands : Plain E → AddressKind → SolverKind → Type 0
  Stands p kind k = (s : Solver) × (p.solver (k, kind) ≡ some s) × Matches k s

  static_kept :
      (kind : AddressKind) (addrs : List IpAddr)
      → Static.get_addresses (Static.new addrs) kind ≡ keep (is_of kind) addrs
  unfolding Static.get_addresses
  static_kept kind [] = refl
  static_kept ipv4 (v4 b ∷ addrs) = ap (λ rest. v4 b ∷ rest) (static_kept ipv4 addrs)
  static_kept ipv4 (v6 b ∷ addrs) = static_kept ipv4 addrs
  static_kept ipv6 (v4 b ∷ addrs) = static_kept ipv6 addrs
  static_kept ipv6 (v6 b ∷ addrs) = ap (λ rest. v6 b ∷ rest) (static_kept ipv6 addrs)

  -- The registry is as it was when a solver is put back unchanged.
  keeping_same :
      (key : Key) (s : Solver) (p : Plain E) → p.solver key ≡ some s → keeping key s p ≡ p
  keeping_same key s p e = λ i. record p { solver = λ k. same k (Key-eq.dec k key) i }
    where
      same :
          (k : Key) (d : Dec (k ≡ key))
          → (if ite d true false then some s else p.solver k) ≡ p.solver k
      same k (yes q) = sym e ∙ ap p.solver (sym q)
      same k (no n) = refl

  -- What a solver answers.
  abbrev pub answer_of_kind : AddressKind → SolverKind → Result SolverError (List IpAddr)
  answer_of_kind kind (SolverKind.static c) =
      ok (Static.get_addresses (Static.new c.addresses) kind)
  answer_of_kind kind (SolverKind.load_balancer_ingress c) = Ingress.get_addresses E kind svc
  answer_of_kind kind _ = ok []

  pub given-answer_of_kind :
      (kind : AddressKind) (k : SolverKind)
      → IsDeclaredBy k
      → given (answer_of_kind kind k) ≡ declared E svc kind k
  given-answer_of_kind kind (SolverKind.static c) h = static_kept kind c.addresses
  given-answer_of_kind kind (SolverKind.load_balancer_ingress c) h = refl
  given-answer_of_kind kind (SolverKind.ip_api c) h = absurd h
  given-answer_of_kind kind (SolverKind.interface c) h = absurd h
  given-answer_of_kind kind (SolverKind.dns_hostname c) h = absurd h
  given-answer_of_kind kind (SolverKind.merge c) h = absurd h

  asked_lem :
      (kind : AddressKind) (k : SolverKind) (s : Solver) (p : Plain E)
      → IsDeclaredBy k
      → Matches k s
      → ask_any s kind svc p ≡ (of_result (answer_of_kind kind k), s, p)
  unfolding ask_any Dispatch.get_addresses
  asked_lem kind (SolverKind.static c) (Solver.static s) p h m =
      λ i. (done (Static.get_addresses (Static.new (m i)) kind), Solver.static s, p)
  asked_lem kind (SolverKind.load_balancer_ingress c) (Solver.load_balancer_ingress s) p h m = refl
  asked_lem kind (SolverKind.static c) (Solver.load_balancer_ingress s) p h m = elim m [ ]
  asked_lem kind (SolverKind.static c) (Solver.ip_api s) p h m = elim m [ ]
  asked_lem kind (SolverKind.static c) (Solver.interface s) p h m = elim m [ ]
  asked_lem kind (SolverKind.static c) (Solver.dns_hostname s) p h m = elim m [ ]
  asked_lem kind (SolverKind.static c) (Solver.merge s) p h m = elim m [ ]
  asked_lem kind (SolverKind.load_balancer_ingress c) (Solver.static s) p h m = elim m [ ]
  asked_lem kind (SolverKind.load_balancer_ingress c) (Solver.ip_api s) p h m = elim m [ ]
  asked_lem kind (SolverKind.load_balancer_ingress c) (Solver.interface s) p h m = elim m [ ]
  asked_lem kind (SolverKind.load_balancer_ingress c) (Solver.dns_hostname s) p h m = elim m [ ]
  asked_lem kind (SolverKind.load_balancer_ingress c) (Solver.merge s) p h m = elim m [ ]
  asked_lem kind (SolverKind.ip_api c) s p h m = elim h [ ]
  asked_lem kind (SolverKind.interface c) s p h m = elim h [ ]
  asked_lem kind (SolverKind.dns_hostname c) s p h m = elim h [ ]
  asked_lem kind (SolverKind.merge c) s p h m = elim h [ ]

  attempted-of_result :
      {F : Type 0} (r : Result SolverError (List IpAddr)) → attempted {F = F} (of_result r) ≡ done r
  attempted-of_result (ok addrs) = refl
  attempted-of_result (err e) = refl

  pub consulted :
      {F : Type 0} (missing : F) (kind : AddressKind) (k : SolverKind) (p : Plain E)
      → IsDeclaredBy k
      → Stands p kind k
      → consult ask_any missing (k, kind) svc p ≡ (done (answer_of_kind kind k), p)
  consulted {F} missing kind k p h (s, found, matches) =
      ap (λ (o : Option Solver). consult_found ask_any missing (k, kind) svc o p) found
      ∙ ap
          (λ (x : Outcome SolverError (List IpAddr) × Solver × Plain E).
            (attempted {F = F} x.0, keeping (k, kind) x.1 x.2))
          (asked_lem kind k s p h matches)
      ∙ λ i. (
        attempted-of_result {F = F} (answer_of_kind kind k) i,
        keeping_same (k, kind) s p found i,
      )
