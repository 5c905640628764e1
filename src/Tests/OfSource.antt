-- ===== src/Tests/OfSource.antt =====
-- The theorems about the query modes at concrete inputs.
use native.Mathlib.Decide.{ℕ_discrete}
use externalip_manager.Prelude.{◌≡◌, refl, [], ◌∷◌}
use externalip_manager.Prelude.Map
use externalip_manager.Prelude.Eq.{String-discrete}
use externalip_manager.Prelude.Outcome.{done, ok, ◌>>=◌}
use externalip_manager.Net.{IpAddr, IpAddr-discrete, AddressKind-discrete, v4, v6, ipv4}
use externalip_manager.Crd.{SolverKind, SolverKind-discrete}
use externalip_manager.State.{State, Key-eq, Key-discrete, acquire, release}
use externalip_manager.Solvers.Static
use externalip_manager.Solvers.Dispatch
use externalip_manager.Solvers.Merge.{visit}
use externalip_manager.Source.{query_solvers, ask_solver}
use externalip_manager.Source.Types.{QueryMode, first_found, all}
use externalip_manager.Source.Modes.{ran, ran_none, query_solvers_all, query_solvers_first}
use externalip_manager.Tests.Sandbox.{sandbox, home, away, web, free}

-- A static solver of the address, and a state in which three of them are registered.
abbrev static_of : IpAddr → SolverKind
static_of addr = SolverKind.static (record { addresses = addr ∷ [] })

abbrev three : State sandbox
three = record {
  world = 0;
  trace = [];
  solvers =
      ((static_of (v6 1), ipv4), free (v6 1))
      ∷ ((static_of (v4 home), ipv4), free (v4 home))
      ∷ ((static_of (v4 away), ipv4), free (v4 away))
      ∷ [];
  cluster_eip_sources = [];
}

asked_v6 :
    (mode : QueryMode)
    → ask_solver sandbox mode ipv4 web (static_of (v6 1)) three ≡ (done (ok []), three)
unfolding visit acquire release Dispatch.get_addresses Static.get_addresses Map.get Map.insert
    Key-eq Key-discrete SolverKind-discrete IpAddr-discrete String-discrete AddressKind-discrete
    ℕ_discrete ◌>>=◌
asked_v6 mode = refl

asked_home :
    (mode : QueryMode)
    → ask_solver sandbox mode ipv4 web (static_of (v4 home)) three
      ≡ (done (ok (v4 home ∷ [])), three)
unfolding visit acquire release Dispatch.get_addresses Static.get_addresses Map.get Map.insert
    Key-eq Key-discrete SolverKind-discrete IpAddr-discrete String-discrete AddressKind-discrete
    ℕ_discrete ◌>>=◌
asked_home mode = refl

asked_away :
    (mode : QueryMode)
    → ask_solver sandbox mode ipv4 web (static_of (v4 away)) three
      ≡ (done (ok (v4 away ∷ [])), three)
unfolding visit acquire release Dispatch.get_addresses Static.get_addresses Map.get Map.insert
    Key-eq Key-discrete SolverKind-discrete IpAddr-discrete String-discrete AddressKind-discrete
    ℕ_discrete ◌>>=◌
asked_away mode = refl

query_solvers_all_example :
    query_solvers sandbox all ipv4 web
      (static_of (v6 1) ∷ static_of (v4 home) ∷ static_of (v4 away) ∷ [])
      []
      three
    ≡ (done (v4 home ∷ v4 away ∷ []), three)
query_solvers_all_example =
    query_solvers_all sandbox ipv4 web
      (ran (asked_v6 all) (ran (asked_home all) (ran (asked_away all) ran_none)))

query_solvers_first_example :
    query_solvers sandbox first_found ipv4 web
      (static_of (v6 1) ∷ static_of (v4 home) ∷ static_of (v4 away) ∷ [])
      []
      three
    ≡ (done (v4 home ∷ []), three)
query_solvers_first_example =
    query_solvers_first sandbox ipv4 web (static_of (v4 home)) (static_of (v4 away) ∷ []) (v4 home)
      [] (ran (asked_v6 first_found) ran_none) (refl, tt) (asked_home first_found)
