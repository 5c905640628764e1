-- ===== src/Registry/Plain.antt =====
-- What a query promises, without locks: each solver is asked in turn, alone, and keeps what it
-- learned. A solver sees the world and the trace, and no registry.
use externalip_manager.Prelude.{ℕ, Option, none, some, List, [], ◌∷◌, ◌++◌, if◌then◌else◌}
use externalip_manager.Prelude.Eq.{◌=?◌}
use externalip_manager.Prelude.Map
use externalip_manager.Prelude.Outcome.{Outcome, done, fail, Result, Exec, pure, lift, ◌>>=◌}
use externalip_manager.Net.{IpAddr, AddressKind, ipv4, ipv6}
use externalip_manager.Errors.{
  SolverError, IpSourceError, solver_not_found, partial_not_found, mask_mismatch,
}
use externalip_manager.Crd.{SolverKind, PartialSolver, from_partial}
use externalip_manager.Kube.{Service, Effect}
use externalip_manager.Env.{Env}
use externalip_manager.Solver.{Solver, Merge}
use externalip_manager.State.{State, Key, Key-eq, Slot}
use externalip_manager.Solvers.Merge.{attempted, part_of, assemble, find_mismatch}
use externalip_manager.Solvers.Dispatch
use externalip_manager.Source.{Turn, stop, go, turn, conclude, solver_failed}
use externalip_manager.Source.Types.{ExternalIpSource, SolverList, QueryMode}

-- The world, the trace, and the solvers by their keys.
pub record Plain (E : Env) : Type 0 where
  pub world : E.World
  pub trace : List Effect
  pub solver : Key → Option Solver

abbrev pub solver_of : Option Slot → Option Solver
solver_of none = none
solver_of (some slot) = some slot.solver

-- The state without its locks, and without the sources.
abbrev pub plain : {E : Env} → State E → Plain E
plain st = record {
  world = st.world;
  trace = st.trace;
  solver = λ k. solver_of (Map.get st.solvers k);
}

abbrev pub keeping : {E : Env} → Key → Solver → Plain E → Plain E
keeping key s p = record p { solver = λ k. if k =? key then some s else p.solver k }

abbrev pub Ask : Env → Type 0
Ask E =
    Solver → AddressKind → Service → Plain E → Outcome SolverError (List IpAddr) × Solver × Plain E

module _ {E : Env} where
  abbrev pub alone : Plain E → State E
  alone p = record { world = p.world; trace = p.trace; solvers = []; cluster_eip_sources = [] }

  -- A solver that calls no other.
  abbrev pub ask_simple : Ask E
  ask_simple s kind svc p =
      let (r, after, u) = Dispatch.get_addresses E 1 s kind svc (alone p) in
      (r, after, record p { world = u.world; trace = u.trace })

  abbrev pub consult_found :
      {F : Type 0}
      → Ask E
      → F
      → Key
      → Service
      → Option Solver
      → Exec (Plain E) F (Result SolverError (List IpAddr))
  consult_found ask missing key svc none p = (fail missing, p)
  consult_found ask missing key svc (some s) p =
      let (r, after, q) = ask s key.1 svc p in (attempted r, keeping key after q)

  -- Ask the solver of a key.
  abbrev pub consult :
      {F : Type 0} → Ask E → F → Key → Service → Exec (Plain E) F (Result SolverError (List IpAddr))
  consult ask missing key svc p = consult_found ask missing key svc (p.solver key) p

  abbrev pub plain_part : AddressKind → Service → PartialSolver → Exec (Plain E) SolverError ℕ
  plain_part kind svc ps =
      consult ask_simple (record { reason = partial_not_found ps }) (from_partial ps.solver, kind)
        svc
      >>= λ answer. lift answer >>= λ addrs. lift (part_of ps addrs)

  unfoldable pub plain_parts :
      AddressKind → Service → List PartialSolver → List ℕ → Exec (Plain E) SolverError (List ℕ)
  unfolding ◌>>=◌
  plain_parts kind svc [] parts = pure parts
  plain_parts kind svc (ps ∷ rest) parts =
      plain_part kind svc ps >>= λ bits. plain_parts kind svc rest (parts ++ bits ∷ [])

  abbrev pub plain_proceed :
      Merge → AddressKind → Service → Option IpAddr → Exec (Plain E) SolverError (List IpAddr)
  plain_proceed m kind svc (some mask) p = (fail (record { reason = mask_mismatch kind mask }), p)
  plain_proceed m kind svc none p =
      (plain_parts kind svc m.partial_solvers [] >>= λ parts q. (assemble kind parts, q)) p

  unfoldable pub ask_any : Ask E
  unfolding plain_parts ◌>>=◌ find_mismatch
  ask_any (Solver.merge m) kind svc p =
      let (r, q) = plain_proceed m kind svc (find_mismatch kind m.partial_solvers) p in
      (r, Solver.merge m, q)
  ask_any (Solver.ip_api s) kind svc p = ask_simple (Solver.ip_api s) kind svc p
  ask_any (Solver.interface s) kind svc p = ask_simple (Solver.interface s) kind svc p
  ask_any (Solver.dns_hostname s) kind svc p = ask_simple (Solver.dns_hostname s) kind svc p
  ask_any (Solver.load_balancer_ingress s) kind svc p =
      ask_simple (Solver.load_balancer_ingress s) kind svc p
  ask_any (Solver.static s) kind svc p = ask_simple (Solver.static s) kind svc p

  abbrev pub plain_turn :
      Turn
      → (List IpAddr → Exec (Plain E) IpSourceError (List IpAddr))
      → Exec (Plain E) IpSourceError (List IpAddr)
  plain_turn (stop addrs) rest p = (done addrs, p)
  plain_turn (go collected) rest p = rest collected p

  unfoldable pub plain_solvers :
      QueryMode
      → AddressKind
      → Service
      → List SolverKind
      → List IpAddr
      → Exec (Plain E) IpSourceError (List IpAddr)
  unfolding ◌>>=◌ turn conclude ask_any
  plain_solvers mode kind svc [] collected = λ p. lift (conclude mode collected) p
  plain_solvers mode kind svc (s ∷ rest) collected =
      consult ask_any (solver_failed (solver_not_found s kind)) (s, kind) svc >>= λ answer.
      plain_turn (turn mode collected answer) (plain_solvers mode kind svc rest)

  abbrev pub plain_family :
      Option SolverList → AddressKind → Service → Exec (Plain E) IpSourceError (List IpAddr)
  plain_family none kind svc = pure []
  plain_family (some l) kind svc = plain_solvers l.query_mode kind svc l.solver_refs []

  -- Both families of a source.
  unfoldable pub plain_query :
      ExternalIpSource → Service → Exec (Plain E) IpSourceError (List IpAddr)
  unfolding ◌>>=◌ plain_solvers
  plain_query source svc = do
    addrs4 ← plain_family source.v4 ipv4 svc
    addrs6 ← plain_family source.v6 ipv6 svc
    pure (addrs4 ++ addrs6)
