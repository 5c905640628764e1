-- ===== src/Solvers/Ingress.antt =====
-- crates/manager/src/external_ip_source/solvers/load_balancer_ingress.rs
use externalip_manager.Prelude.{String, Option, none, some, List, filter_map}
use externalip_manager.Prelude.Outcome.{Result, ok, err}
use externalip_manager.Net.{IpAddr, v4, v6, AddressKind, ipv4, ipv6}
use externalip_manager.Errors.{Reason, SolverError, no_status, no_load_balancer, no_ingress}
use externalip_manager.Kube.{Service, ServiceStatus, LoadBalancerStatus, LoadBalancerIngress}
use externalip_manager.Env.{Env}
use externalip_manager.Solver

-- `LoadBalancerIngress::new`
abbrev pub new : Solver.LoadBalancerIngress
new = record {}

-- `ok_or(SolverError { reason })?`
abbrev pub required :
    {A B : Type 0} → Option A → Reason → (A → Result SolverError B) → Result SolverError B
required none why next = err (record { reason = why })
required (some a) why next = next a

module _ (E : Env) where
  abbrev pub parse_kind : AddressKind → String → Option IpAddr
  parse_kind ipv4 text = elim (E.parse_ipv4 text) [ none ↦ none | some b ↦ some (v4 b) ]
  parse_kind ipv6 text = elim (E.parse_ipv6 text) [ none ↦ none | some b ↦ some (v6 b) ]

  -- The closure of `filter_map`.
  abbrev pub address_of : AddressKind → LoadBalancerIngress → Option IpAddr
  address_of kind addr = elim addr.ip [ none ↦ none | some text ↦ parse_kind kind text ]

  unfoldable pub get_addresses : AddressKind → Service → Result SolverError (List IpAddr)
  get_addresses kind svc = required svc.status no_status λ (status : ServiceStatus).
      required status.load_balancer no_load_balancer λ (balancer : LoadBalancerStatus).
        required balancer.ingress no_ingress
          λ (ingress : List LoadBalancerIngress). ok (filter_map (address_of kind) ingress)
