-- ===== src/Manager/Requests.antt =====
-- The effects of a query on the world (source.rs and the solvers).
use externalip_manager.Prelude.{
  ℕ, zero, suc, Option, none, some, List, [], ◌∷◌, String, Bool, true, false, is_empty,
}
use externalip_manager.Prelude.Outcome.{Outcome, Result, ok, err, Exec}
use externalip_manager.Net.{IpAddr, AddressKind, ipv4, ipv6, v4, v6}
use externalip_manager.Errors.{
  SolverError, IpSourceError, Reason, interfaces_unavailable, addresses_unavailable,
}
use externalip_manager.Crd.{SolverKind}
use externalip_manager.Kube.{Service, requested}
use externalip_manager.Env.{Env}
use externalip_manager.Solver.{Solver, IpApiSolver, Merge as MergeSolver}
use externalip_manager.State.{State}
use externalip_manager.Solvers.Dns
use externalip_manager.Solvers.Interface
use externalip_manager.Solvers.Caching
use externalip_manager.Solvers.IpApi.{ip_provider}
use externalip_manager.Solvers.IpApi
use externalip_manager.Solvers.IpApi.Sending.{refetch_trace, cached_trace}
use externalip_manager.Solvers.Dispatch
use externalip_manager.Source.{
  Turn, stop, go, take_turn, turn, query_solvers, query_list, query_family, query, conclude,
  ask_solver, unless_empty, max_depth,
}
use externalip_manager.Source.Types.{ExternalIpSource, QueryMode, SolverList}
use externalip_manager.Manager.Effects.{
  Extends, Only, IsRequest, CallOnly, Extends-refl, Extends-same, Extends-trans, bind-Only,
  lift-Only, visit-Only, merge-Only,
}

module _ (E : Env) where
  answered-requests :
      (s : IpApiSolver) (kind : AddressKind) (r : Option (Outcome SolverError (List IpAddr)))
      (st : State E)
      → Extends IsRequest st.trace (Caching.answered E s kind r st).2.trace
  answered-requests s kind (some reply) st = Extends-refl IsRequest st.trace
  answered-requests s kind none st = record {
    added = requested (IpApi.url_of E s.inner kind) ∷ [];
    grown = refetch_trace E s kind st;
    each = (tt, tt);
  }

  ip_api-requests :
      (s : IpApiSolver) (kind : AddressKind) (st : State E)
      → Extends IsRequest st.trace (Caching.get_addresses E s kind st).2.trace
  unfolding Caching.get_addresses
  ip_api-requests s kind st =
      Extends-trans IsRequest (Extends-same IsRequest _ _ (cached_trace E s.cache st))
        (answered-requests s kind _ _)

  dns-requests :
      (kind : AddressKind) (answer : Result String (List IpAddr))
      → Only IsRequest (Dns.answered E kind answer)
  dns-requests kind (ok addrs) st = Extends-refl IsRequest st.trace
  dns-requests kind (err e) st = Extends-refl IsRequest st.trace

  told-requests :
      {A : Type 0} (why : String → Reason) (r : Result String A)
      → Only IsRequest (Interface.told E why r)
  told-requests why (ok a) st = Extends-refl IsRequest st.trace
  told-requests why (err e) st = Extends-refl IsRequest st.trace

  ask-requests :
      {A : Type 0} (why : String → Reason) (call : E.World → Result String A × E.World)
      → Only IsRequest (Interface.ask E why call)
  ask-requests why call st = told-requests why (call st.world).0 _

  found-requests :
      (name : String) (o : Option E.Interface) → Only IsRequest (Interface.found E name o)
  found-requests name none st = Extends-refl IsRequest st.trace
  found-requests name (some i) st = Extends-refl IsRequest st.trace

  by_name-requests : (name : String) → Only IsRequest (Interface.by_name E name)
  by_name-requests name =
      bind-Only IsRequest (Interface.ask E interfaces_unavailable (E.interface_by_name name))
        (Interface.found E name) (ask-requests _ _) (found-requests name)

  addrs_v4-requests : (o : Option String) → Only IsRequest (Interface.addrs_v4 E o)
  addrs_v4-requests none =
      ask-requests addresses_unavailable (E.local_ipv4_addrs_by_filter Interface.filter_ipv4)
  addrs_v4-requests (some name) =
      bind-Only IsRequest (Interface.by_name E name)
        (λ i.
          Interface.ask E addresses_unavailable (E.ipv4_addrs_by_filter i Interface.filter_ipv4))
        (by_name-requests name) (λ i. ask-requests _ _)

  addrs_v6-requests : (o : Option String) → Only IsRequest (Interface.addrs_v6 E o)
  addrs_v6-requests none =
      ask-requests addresses_unavailable (E.local_ipv6_addrs_by_filter Interface.filter_ipv6)
  addrs_v6-requests (some name) =
      bind-Only IsRequest (Interface.by_name E name)
        (λ i.
          Interface.ask E addresses_unavailable (E.ipv6_addrs_by_filter i Interface.filter_ipv6))
        (by_name-requests name) (λ i. ask-requests _ _)

  interface-requests :
      (s : externalip_manager.Solver.Interface) (kind : AddressKind)
      → Only IsRequest (Interface.get_addresses E s kind)
  unfolding Interface.get_addresses
  interface-requests s ipv4 =
      bind-Only IsRequest (Interface.addrs_v4 E s.identifier) (Interface.collect E v4)
        (addrs_v4-requests s.identifier) λ a st. Extends-refl IsRequest st.trace
  interface-requests s ipv6 =
      bind-Only IsRequest (Interface.addrs_v6 E s.identifier) (Interface.collect E v6)
        (addrs_v6-requests s.identifier) λ a st. Extends-refl IsRequest st.trace

  call-requests : (depth : ℕ) → CallOnly IsRequest (Dispatch.get_addresses E depth)
  unfolding Dispatch.get_addresses Dns.get_addresses
  call-requests zero s kind svc st = Extends-refl IsRequest st.trace
  call-requests (suc d) (Solver.ip_api s) kind svc st = ip_api-requests s kind st
  call-requests (suc d) (Solver.interface s) kind svc st = interface-requests s kind st
  call-requests (suc d) (Solver.dns_hostname s) kind svc st =
      dns-requests kind (E.lookup_ip s.host st.world).0 _
  call-requests (suc d) (Solver.load_balancer_ingress s) kind svc st =
      Extends-refl IsRequest st.trace
  call-requests (suc d) (Solver.static s) kind svc st = Extends-refl IsRequest st.trace
  call-requests (suc d) (Solver.merge s) kind svc st =
      merge-Only IsRequest (Dispatch.get_addresses E d) (call-requests d) kind svc s st

  turn-requests :
      (t : Turn) (rest : List IpAddr → Exec (State E) IpSourceError (List IpAddr))
      → ((c : List IpAddr) → Only IsRequest (rest c))
      → Only IsRequest (take_turn E t rest)
  turn-requests (stop addrs) rest h st = Extends-refl IsRequest st.trace
  turn-requests (go c) rest h st = h c st

  solvers-requests :
      (mode : QueryMode) (kind : AddressKind) (svc : Service) (refs : List SolverKind)
      (collected : List IpAddr)
      → Only IsRequest (query_solvers E mode kind svc refs collected)
  unfolding query_solvers
  solvers-requests mode kind svc [] collected st = lift-Only IsRequest (conclude mode collected) st
  solvers-requests mode kind svc (s ∷ refs) collected st =
      bind-Only IsRequest (ask_solver E mode kind svc s)
        (λ answer. take_turn E (turn mode collected answer) (query_solvers E mode kind svc refs))
        (visit-Only IsRequest (Dispatch.get_addresses E max_depth) _ _ _ svc
          (call-requests max_depth))
        (λ answer.
          turn-requests (turn mode collected answer) _ (solvers-requests mode kind svc refs))
        st

  unless_empty-requests :
      (b : Bool) (l : SolverList) (kind : AddressKind) (svc : Service)
      → Only IsRequest (unless_empty E b l kind svc)
  unless_empty-requests true l kind svc st = Extends-refl IsRequest st.trace
  unless_empty-requests false l kind svc st =
      solvers-requests l.query_mode kind svc l.solver_refs [] st

  family-requests :
      (o : Option SolverList) (kind : AddressKind) (svc : Service)
      → Only IsRequest (query_family E o kind svc)
  unfolding query_list
  family-requests none kind svc st = Extends-refl IsRequest st.trace
  family-requests (some l) kind svc st =
      unless_empty-requests (is_empty l.solver_refs) l kind svc st

  -- However it ends, the query of a source has no other effect on the world than requests to
  -- address providers: it publishes no event and patches no service.
  pub query-Only_requests :
      (source : ExternalIpSource) (svc : Service) → Only IsRequest (query E source svc)
  unfolding query
  query-Only_requests source svc =
      bind-Only IsRequest (query_family E source.v4 ipv4 svc) _ (family-requests source.v4 ipv4 svc)
        λ addrs4.
          bind-Only IsRequest (query_family E source.v6 ipv6 svc) _
            (family-requests source.v6 ipv6 svc) λ addrs6 st. Extends-refl IsRequest st.trace
