-- ===== src/Solvers/Framed.antt =====
-- The solvers that call no other, called with a registry and with an empty one
-- (crates/manager/src/external_ip_source/solvers/).
use externalip_manager.Prelude.{
  ◌≡◌, refl, ◌∙◌, ap, sym, ℕ, suc, String, Bool, true, false, Option, none, some, List,
}
use externalip_manager.Prelude.Outcome.{fail, Result, ok, err}
use externalip_manager.Net.{IpAddr, AddressKind, ipv4, ipv6, v4, v6}
use externalip_manager.Errors.{Reason, of_provider, rate_limited, request_failed, invalid_response}
use externalip_manager.Kube.{Service}
use externalip_manager.Env.{Env, ReqwestError}
use externalip_manager.Solver.{
  Solver, IpProvider, my_ip, ipify, IpProviderResponse, IpApiSolver, DnsHostname,
  Interface as InterfaceStruct,
}
use externalip_manager.State.{State, with_world}
use externalip_manager.Solvers.Caching
use externalip_manager.Solvers.IpApi.{ip_provider}
use externalip_manager.Solvers.IpApi
use externalip_manager.Solvers.Caching.{Answer, Reply}
use externalip_manager.Solvers.Dns
use externalip_manager.Solvers.Interface
use externalip_manager.Solvers.Dispatch
use externalip_manager.Solvers.Framing.{bare, seen, Framed, then-Framed, bind-Framed}

module _ (E : Env) where
  answered-Framed :
      (kind : AddressKind) (answer : Result String (List IpAddr))
      → Framed (Dns.answered E kind answer)
  answered-Framed kind (ok addrs) st = refl
  answered-Framed kind (err e) st = refl

  dns-Framed : (s : DnsHostname) (kind : AddressKind) → Framed (Dns.get_addresses E s kind)
  unfolding Dns.get_addresses
  dns-Framed s kind st =
      answered-Framed kind (E.lookup_ip s.host st.world).0
        (with_world st (E.lookup_ip s.host st.world).1)

  told-Framed :
      {A : Type 0} (why : String → Reason) (r : Result String A) → Framed (Interface.told E why r)
  told-Framed why (ok a) st = refl
  told-Framed why (err e) st = refl

  ask-Framed :
      {A : Type 0} (why : String → Reason) (call : E.World → Result String A × E.World)
      → Framed (Interface.ask E why call)
  ask-Framed why call st = told-Framed why (call st.world).0 (with_world st (call st.world).1)

  found-Framed : (name : String) (o : Option E.Interface) → Framed (Interface.found E name o)
  found-Framed name none st = refl
  found-Framed name (some i) st = refl

  by_name-Framed : (name : String) → Framed (Interface.by_name E name)
  by_name-Framed name =
      bind-Framed (Interface.ask E _ (E.interface_by_name name)) (Interface.found E name)
        (ask-Framed _ _) (found-Framed name)

  addrs_v4-Framed : (o : Option String) → Framed (Interface.addrs_v4 E o)
  addrs_v4-Framed none = ask-Framed _ _
  addrs_v4-Framed (some name) =
      bind-Framed (Interface.by_name E name) _ (by_name-Framed name) λ i. ask-Framed _ _

  addrs_v6-Framed : (o : Option String) → Framed (Interface.addrs_v6 E o)
  addrs_v6-Framed none = ask-Framed _ _
  addrs_v6-Framed (some name) =
      bind-Framed (Interface.by_name E name) _ (by_name-Framed name) λ i. ask-Framed _ _

  interface-Framed :
      (s : InterfaceStruct) (kind : AddressKind) → Framed (Interface.get_addresses E s kind)
  unfolding Interface.get_addresses
  interface-Framed s ipv4 =
      bind-Framed (Interface.addrs_v4 E s.identifier) (Interface.collect E v4)
        (addrs_v4-Framed s.identifier) λ addrs st. refl
  interface-Framed s ipv6 =
      bind-Framed (Interface.addrs_v6 E s.identifier) (Interface.collect E v6)
        (addrs_v6-Framed s.identifier) λ addrs st. refl

  abbrev Framed3 : {X Y : Type 0} → (State E → X × Y × State E) → Type 0
  Framed3 m = (st : State E) → m st ≡ ((m (bare st)).0, (m (bare st)).1, seen st (m (bare st)).2)

  then-Framed3 :
      {X Y Z : Type 0} (m : State E → X × State E) (f : X → State E → Y × Z × State E)
      → Framed m
      → ((x : X) → Framed3 (f x))
      → Framed3 (λ st. f (m st).0 (m st).1)
  then-Framed3 {X = X} {Y = Y} {Z = Z} m f h k st =
      let x = (m (bare st)).0 in
      let u = (m (bare st)).1 in
      ap (λ (p : X × State E). f p.0 p.1) (h st)
      ∙ k x (seen st u)
      ∙ ap (λ (p : Y × Z × State E). (p.0, p.1, seen st p.2)) (sym (k x u))

  cached_reply-Framed : (o : Option IpProviderResponse) → Framed (Caching.cached_reply E o)
  unfolding Caching.cached_reply Caching.expired
  cached_reply-Framed none st = refl
  cached_reply-Framed (some c) st = refl

  response_new-Framed :
      (timeout : ℕ) (answer : Answer) → Framed (Caching.response_new E timeout answer)
  unfolding Caching.response_new
  response_new-Framed timeout answer st = refl

  body_of-Framed :
      (p : IpProvider) (r : Result ReqwestError E.Response) → Framed (IpApi.body_of E p r)
  body_of-Framed p (err e) st = refl
  body_of-Framed ipify (ok body) st = refl
  body_of-Framed my_ip (ok body) st = refl

  limited_or-Framed :
      (p : IpProvider) (b : Bool) (r : Result ReqwestError E.Response)
      → Framed (IpApi.limited_or E p b r)
  limited_or-Framed p true r st = refl
  limited_or-Framed p false r st = body_of-Framed p r st

  answer_of-Framed :
      (p : IpProvider) (r : Result ReqwestError E.Response) → Framed (IpApi.answer_of E p r)
  answer_of-Framed p (err e) st = refl
  answer_of-Framed p (ok res) st = limited_or-Framed p _ (E.error_for_status res) st

  provider-Framed :
      (p : IpProvider) (kind : AddressKind) → Framed (IpApi.provider_get_addresses E p kind)
  unfolding IpApi.provider_get_addresses
  provider-Framed p kind =
      then-Framed (IpApi.sent E (IpApi.url_of E p kind))
        (λ res st1.
          let (answer, st2) = IpApi.answer_of E p res st1 in
          Caching.response_new E (IpApi.cache_duration p) answer st2)
        (λ st. refl)
        λ res.
          then-Framed (IpApi.answer_of E p res) (Caching.response_new E (IpApi.cache_duration p))
            (answer_of-Framed p res) (response_new-Framed (IpApi.cache_duration p))

  doubled-Framed :
      (timeout : ℕ) (answer : Answer) (resp : IpProviderResponse)
      → Framed (Caching.doubled E timeout answer resp)
  doubled-Framed timeout (ok addrs) resp st = refl
  doubled-Framed timeout (err rate_limited) resp st = response_new-Framed _ _ st
  doubled-Framed timeout (err (request_failed e)) resp st = refl
  doubled-Framed timeout (err (invalid_response e)) resp st = refl

  back_off-Framed :
      (o : Option IpProviderResponse) (resp : IpProviderResponse)
      → Framed (Caching.back_off E o resp)
  unfolding Caching.back_off
  back_off-Framed none resp st = refl
  back_off-Framed (some c) resp st = doubled-Framed c.timeout c.response resp st

  abbrev limited : Reply
  limited = fail (of_provider rate_limited)

  settle-Framed :
      (old : Option IpProviderResponse) (resp : IpProviderResponse) (answer : Answer)
      → Framed3 (Caching.settle E old resp answer)
  settle-Framed old resp (ok addrs) st = refl
  settle-Framed old resp (err rate_limited) st =
      ap (λ (p : IpProviderResponse × State E). (limited, some p.0, p.1))
        (back_off-Framed old resp st)
  settle-Framed old resp (err (request_failed e)) st = refl
  settle-Framed old resp (err (invalid_response e)) st = refl

  refetch-Framed : (self : IpApiSolver) (kind : AddressKind) → Framed3 (Caching.refetch E self kind)
  unfolding Caching.refetch
  refetch-Framed self kind =
      then-Framed3 (IpApi.provider_get_addresses E self.inner kind)
        (λ resp st1.
          let (res, cache, st2) = Caching.settle E self.cache resp resp.response st1 in
          (res, record self { cache = cache }, st2))
        (provider-Framed self.inner kind)
        λ resp st.
          ap
            (λ (p : Reply × Option IpProviderResponse × State E).
              (p.0, record self { cache = p.1 }, p.2))
            (settle-Framed self.cache resp resp.response st)

  replied-Framed :
      (self : IpApiSolver) (kind : AddressKind) (o : Option (Reply))
      → Framed3 (Caching.answered E self kind o)
  replied-Framed self kind (some reply) st = refl
  replied-Framed self kind none st = refetch-Framed self kind st

  ip_api-Framed : (s : IpApiSolver) (kind : AddressKind) → Framed3 (Caching.get_addresses E s kind)
  unfolding Caching.get_addresses
  ip_api-Framed s kind =
      then-Framed3 (Caching.cached_reply E s.cache) (Caching.answered E s kind)
        (cached_reply-Framed s.cache) (replied-Framed s kind)

  -- The solver is no merge.
  abbrev pub IsSimple : Solver → Type 0
  IsSimple (Solver.merge m) = ⊥
  IsSimple _ = Unit

  pub get_addresses-Framed :
      (depth : ℕ) (s : Solver) (kind : AddressKind) (svc : Service) (st : State E)
      → IsSimple s
      → Dispatch.get_addresses E (suc depth) s kind svc st ≡ (
        (Dispatch.get_addresses E 1 s kind svc (bare st)).0,
        (Dispatch.get_addresses E 1 s kind svc (bare st)).1,
        seen st (Dispatch.get_addresses E 1 s kind svc (bare st)).2,
      )
  unfolding Dispatch.get_addresses
  get_addresses-Framed depth (Solver.ip_api s) kind svc st h =
      ap (λ (p : Reply × IpApiSolver × State E). (p.0, Solver.ip_api p.1, p.2))
        (ip_api-Framed s kind st)
  get_addresses-Framed depth (Solver.interface s) kind svc st h =
      ap (λ (p : Reply × State E). (p.0, Solver.interface s, p.1)) (interface-Framed s kind st)
  get_addresses-Framed depth (Solver.dns_hostname s) kind svc st h =
      ap (λ (p : Reply × State E). (p.0, Solver.dns_hostname s, p.1)) (dns-Framed s kind st)
  get_addresses-Framed depth (Solver.load_balancer_ingress s) kind svc st h = refl
  get_addresses-Framed depth (Solver.static s) kind svc st h = refl
  get_addresses-Framed depth (Solver.merge s) kind svc st h = elim h [ ]
