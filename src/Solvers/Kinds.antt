-- ===== src/Solvers/Kinds.antt =====
-- The address family of what the solvers return.
use externalip_manager.Prelude.{ℕ, String, zero, suc, Option, none, some, List, [], ◌∷◌, map, arith}
use externalip_manager.Prelude.{All, keep, filter_map}
use externalip_manager.Prelude.Outcome.{
  Outcome, done, fail, panic, Exec, resume, ◌>>=◌, Result, ok, err,
}
use externalip_manager.Net.{IpAddr, v4, v6, AddressKind, ipv4, ipv6, OfKind}
use externalip_manager.Errors.{SolverError, Reason}
use externalip_manager.Kube.{Service, LoadBalancerIngress}
use externalip_manager.Env.{Env}
use externalip_manager.Solver.{
  Merge as MergeSolver, Solver, DnsHostname, Interface, ip_api, interface, dns_hostname,
  load_balancer_ingress, static, merge,
}
use externalip_manager.State.{State}
use externalip_manager.Solvers.Static
use externalip_manager.Solvers.Ingress
use externalip_manager.Solvers.Dns
use externalip_manager.Solvers.Interface
use externalip_manager.Solvers.Merge
use externalip_manager.Solvers.Merge.{assemble}
use externalip_manager.Solvers.Dispatch

-- Every address that a call returned has the property.
abbrev pub Returned : (IpAddr → Type 0) → Outcome SolverError (List IpAddr) → Type 0
Returned P (done addrs) = All P addrs
Returned P (fail e) = Unit
Returned P (panic p) = Unit

static_kind :
    (kind : AddressKind) (addrs : List IpAddr)
    → All (OfKind kind) (Static.get_addresses (Static.new addrs) kind)
unfolding Static.get_addresses
static_kind kind [] = tt
static_kind ipv4 (v4 b ∷ addrs) = (tt, static_kind ipv4 addrs)
static_kind ipv4 (v6 b ∷ addrs) = static_kind ipv4 addrs
static_kind ipv6 (v4 b ∷ addrs) = static_kind ipv6 addrs
static_kind ipv6 (v6 b ∷ addrs) = (tt, static_kind ipv6 addrs)

keep_kind :
    (kind : AddressKind) (addrs : List IpAddr) → All (OfKind kind) (keep (Dns.of_kind kind) addrs)
keep_kind kind [] = tt
keep_kind ipv4 (v4 b ∷ addrs) = (tt, keep_kind ipv4 addrs)
keep_kind ipv4 (v6 b ∷ addrs) = keep_kind ipv4 addrs
keep_kind ipv6 (v4 b ∷ addrs) = keep_kind ipv6 addrs
keep_kind ipv6 (v6 b ∷ addrs) = (tt, keep_kind ipv6 addrs)

map_v4 : (bits : List ℕ) → All (OfKind ipv4) (map v4 bits)
map_v4 [] = tt
map_v4 (b ∷ bits) = (tt, map_v4 bits)

map_v6 : (bits : List ℕ) → All (OfKind ipv6) (map v6 bits)
map_v6 [] = tt
map_v6 (b ∷ bits) = (tt, map_v6 bits)

assemble_kind : (kind : AddressKind) (parts : List ℕ) → Returned (OfKind kind) (assemble kind parts)
unfolding assemble
assemble_kind ipv4 parts = ground arith
assemble_kind ipv6 parts = ground arith

ingress_kind :
    (E : Env) (kind : AddressKind) (entries : List LoadBalancerIngress)
    → All (OfKind kind) (filter_map (Ingress.address_of E kind) entries)
ingress_kind E kind [] = tt
ingress_kind E ipv4 (entry ∷ entries) = ground (arith, ingress_kind E ipv4 entries)
ingress_kind E ipv6 (entry ∷ entries) = ground (arith, ingress_kind E ipv6 entries)

module _ {E : Env} {A : Type 0} (P : IpAddr → Type 0) where
  Returned-resume :
      (r : Outcome SolverError A) (f : A → Exec (State E) SolverError (List IpAddr)) (st : State E)
      → ((a : A) (t : State E) → Returned P (f a t).0)
      → Returned P (resume r f st).0
  Returned-resume (done a) f st h = h a st
  Returned-resume (fail e) f st h = tt
  Returned-resume (panic p) f st h = tt

module _ {A : Type 0} (P : IpAddr → Type 0) where
  Returned-required :
      (o : Option A) (why : Reason) (next : A → Result SolverError (List IpAddr))
      → ((a : A) → Returned P (Dispatch.of_result (next a)))
      → Returned P (Dispatch.of_result (Ingress.required o why next))
  Returned-required none why next h = tt
  Returned-required (some a) why next h = h a

module _ (E : Env) where
  answered_kind :
      (kind : AddressKind) (answer : Result String (List IpAddr)) (st : State E)
      → Returned (OfKind kind) (Dns.answered E kind answer st).0
  answered_kind kind (ok addrs) st = keep_kind kind addrs
  answered_kind kind (err e) st = tt

  dns_kind :
      (s : DnsHostname) (kind : AddressKind) (st : State E)
      → Returned (OfKind kind) (Dns.get_addresses E s kind st).0
  unfolding Dns.get_addresses
  dns_kind s kind st = answered_kind kind _ _

  interface_kind :
      (s : Interface) (kind : AddressKind) (st : State E)
      → Returned (OfKind kind) (Interface.get_addresses E s kind st).0
  unfolding Interface.get_addresses
  interface_kind s ipv4 st =
      Returned-resume (OfKind ipv4) _ (Interface.collect E v4) _ λ a t. map_v4 a
  interface_kind s ipv6 st =
      Returned-resume (OfKind ipv6) _ (Interface.collect E v6) _ λ a t. map_v6 a

  ingress_all :
      (kind : AddressKind) (svc : Service)
      → Returned (OfKind kind) (Dispatch.of_result (Ingress.get_addresses E kind svc))
  unfolding Ingress.get_addresses
  ingress_all kind svc = Returned-required (OfKind kind) svc.status _ _ λ status.
      Returned-required (OfKind kind) status.load_balancer _ _
        λ balancer. Returned-required (OfKind kind) balancer.ingress _ _ (ingress_kind E kind)

  proceed_kind :
      (call : Merge.Call E) (s : MergeSolver) (kind : AddressKind) (svc : Service)
      (mismatch : Option IpAddr) (st : State E)
      → Returned (OfKind kind) (Merge.proceed call s kind svc mismatch st).0
  unfolding ◌>>=◌
  proceed_kind call s kind svc (some mask) st = tt
  proceed_kind call s kind svc none st =
      Returned-resume (OfKind kind) _ (λ parts t. (assemble kind parts, t)) _
        λ parts t. assemble_kind kind parts

  merge_kind :
      (call : Merge.Call E) (s : MergeSolver) (kind : AddressKind) (svc : Service) (st : State E)
      → Returned (OfKind kind) (Merge.get_addresses call s kind svc st).0
  unfolding Merge.get_addresses
  merge_kind call s kind svc st = proceed_kind call s kind svc _ st

  abbrev Checks : Solver → Type 0
  Checks (ip_api s) = ⊥
  Checks _ = Unit

  -- Whatever it was asked for and however it ended, a solver other than `ipAPI` that returns
  -- addresses returns only addresses of the family it was asked for.
  pub get_addresses-OfKind :
      (depth : ℕ) (s : Solver) (kind : AddressKind) (svc : Service) (st : State E)
      → Checks s
      → Returned (OfKind kind) (Dispatch.get_addresses E depth s kind svc st).0
  unfolding Dispatch.get_addresses
  get_addresses-OfKind zero s kind svc st h = tt
  get_addresses-OfKind (suc d) (ip_api s) kind svc st h = elim h [ ]
  get_addresses-OfKind (suc d) (interface s) kind svc st h = interface_kind s kind st
  get_addresses-OfKind (suc d) (dns_hostname s) kind svc st h = dns_kind s kind st
  get_addresses-OfKind (suc d) (load_balancer_ingress s) kind svc st h = ingress_all kind svc
  get_addresses-OfKind (suc d) (static s) kind svc st h = static_kind kind s.addresses
  get_addresses-OfKind (suc d) (merge s) kind svc st h = merge_kind _ s kind svc st
