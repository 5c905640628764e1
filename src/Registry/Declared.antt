-- ===== src/Registry/Declared.antt =====
-- Sources whose addresses are declared in the cluster: by the source itself, or by the status of
-- the service (crates/manager/src/external_ip_source).
use externalip_manager.Prelude.{
  Bool, true, false, Option, none, some, List, [], ◌∷◌, ◌++◌, map, keep, All,
}
use externalip_manager.Prelude.Outcome.{Outcome, done}
use externalip_manager.Net.{IpAddr, AddressKind, ipv4, ipv6, v4, v6}
use externalip_manager.Errors.{IpSourceError}
use externalip_manager.Crd.{SolverKind}
use externalip_manager.Kube.{Service}
use externalip_manager.Env.{Env}
use externalip_manager.State.{Key-eq}
use externalip_manager.Solvers.Ingress
use externalip_manager.Source.Types.{QueryMode, first_found, all, SolverList, ExternalIpSource}
use externalip_manager.Source.Modes.{given, concat, unless_none}

abbrev pub IsDeclaredBy : SolverKind → Type 0
IsDeclaredBy (SolverKind.static c) = Unit
IsDeclaredBy (SolverKind.load_balancer_ingress c) = Unit
IsDeclaredBy _ = ⊥

abbrev pub AllDeclared : Option SolverList → Type 0
AllDeclared none = Unit
AllDeclared (some l) = All IsDeclaredBy l.solver_refs

-- Every solver of both families takes its addresses from the cluster.
abbrev pub IsDeclared : ExternalIpSource → Type 0
IsDeclared source = AllDeclared source.v4 × AllDeclared source.v6

abbrev pub is_of : AddressKind → IpAddr → Bool
is_of ipv4 (v4 b) = true
is_of ipv6 (v6 b) = true
is_of _ _ = false

-- The first of several lists that is not empty.
abbrev pub first_given : List (List IpAddr) → List IpAddr
first_given [] = []
first_given ([] ∷ rest) = first_given rest
first_given ((a ∷ addrs) ∷ rest) = a ∷ addrs

abbrev pub picked : QueryMode → List (List IpAddr) → List IpAddr
picked first_found given = first_given given
picked all given = concat given

module _ (E : Env) (svc : Service) where
  -- The addresses that the configuration of a solver declares.
  abbrev pub declared : AddressKind → SolverKind → List IpAddr
  declared kind (SolverKind.static c) = keep (is_of kind) c.addresses
  declared kind (SolverKind.load_balancer_ingress c) = given (Ingress.get_addresses E kind svc)
  declared kind _ = []

  abbrev pub declared_family : AddressKind → Option SolverList → Outcome IpSourceError (List IpAddr)
  declared_family kind none = done []
  declared_family kind (some l) =
      unless_none (picked l.query_mode (map (declared kind) l.solver_refs))

  -- Both families: the first that has no addresses is the error.
  abbrev pub joined_with :
      List IpAddr → Outcome IpSourceError (List IpAddr) → Outcome IpSourceError (List IpAddr)
  joined_with addrs4 (done addrs6) = done (addrs4 ++ addrs6)
  joined_with addrs4 r = r

  abbrev pub joined :
      Outcome IpSourceError (List IpAddr)
      → Outcome IpSourceError (List IpAddr)
      → Outcome IpSourceError (List IpAddr)
  joined (done addrs4) r = joined_with addrs4 r
  joined r s = r

  abbrev pub declared_source : ExternalIpSource → Outcome IpSourceError (List IpAddr)
  declared_source source = joined (declared_family ipv4 source.v4) (declared_family ipv6 source.v6)
