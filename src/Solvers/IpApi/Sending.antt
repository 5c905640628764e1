-- ===== src/Solvers/IpApi/Sending.antt =====
-- The requests of the `ipAPI` solver: when a call sends one.
use externalip_manager.Prelude.{
  ℕ, ap, ◌<◌, ◌≡◌, refl, ◌∙◌, none, some, Option, List, [], ◌∷◌, ◌++◌, arith, ◌==◌, Bool, true,
  false, ltb, if◌then◌else◌,
}
use externalip_manager.Prelude.Outcome.{Result, ok, err, Outcome}
use externalip_manager.Net.{IpAddr, AddressKind}
use externalip_manager.Errors.{rate_limited, request_failed, invalid_response, SolverError}
use externalip_manager.Kube.{Effect, requested}
use externalip_manager.Env.{Env, ReqwestError}
use externalip_manager.Solver.{IpProvider, my_ip, ipify, IpProviderResponse, IpApiSolver}
use externalip_manager.State.{State}
use externalip_manager.Solvers.Caching.{
  get_addresses, answered, doubled, cached_reply, reuse, refetch, settle, back_off, response_new,
  Answer,
}
use externalip_manager.Solvers.IpApi.{
  provider_get_addresses, url_of, answer_of, body_of, limited_or, ip_provider,
}

module _ (E : Env) where
  body_trace :
      (p : IpProvider) (res : Result ReqwestError E.Response) (st : State E)
      → (body_of E p res st).1.trace ≡ st.trace
  body_trace p (err e) st = refl
  body_trace my_ip (ok body) st = refl
  body_trace ipify (ok body) st = refl

  limited_trace :
      (p : IpProvider) (limited : Bool) (res : Result ReqwestError E.Response) (st : State E)
      → (limited_or E p limited res st).1.trace ≡ st.trace
  limited_trace p true res st = refl
  limited_trace p false res st = body_trace p res st

  answer_trace :
      (p : IpProvider) (res : Result ReqwestError E.Response) (st : State E)
      → (answer_of E p res st).1.trace ≡ st.trace
  answer_trace p (err e) st = refl
  answer_trace p (ok res) st = limited_trace p (E.status res == 429) (E.error_for_status res) st

  provider_trace :
      (p : IpProvider) (kind : AddressKind) (st : State E)
      → (provider_get_addresses E p kind st).1.trace ≡ st.trace ++ requested (url_of E p kind) ∷ []
  unfolding provider_get_addresses
  provider_trace p kind st = answer_trace p (E.send _ _ _).0 _

  doubled_trace :
      (timeout : ℕ) (answer : Answer) (resp : IpProviderResponse) (st : State E)
      → (doubled E timeout answer resp st).1.trace ≡ st.trace
  unfolding response_new
  doubled_trace timeout (ok addrs) resp st = refl
  doubled_trace timeout (err rate_limited) resp st = refl
  doubled_trace timeout (err (request_failed e)) resp st = refl
  doubled_trace timeout (err (invalid_response e)) resp st = refl

  back_off_trace :
      (old : Option IpProviderResponse) (resp : IpProviderResponse) (st : State E)
      → (back_off E old resp st).1.trace ≡ st.trace
  unfolding back_off
  back_off_trace none resp st = refl
  back_off_trace (some c) resp st = doubled_trace c.timeout c.response resp st

  settle_trace :
      (old : Option IpProviderResponse) (resp : IpProviderResponse) (answer : Answer) (st : State E)
      → (settle E old resp answer st).2.trace ≡ st.trace
  settle_trace old resp (ok addrs) st = refl
  settle_trace old resp (err rate_limited) st = back_off_trace old resp st
  settle_trace old resp (err (request_failed e)) st = refl
  settle_trace old resp (err (invalid_response e)) st = refl

  pub refetch_trace :
      (self : IpApiSolver) (kind : AddressKind) (st : State E)
      → (refetch E self kind st).2.trace ≡ st.trace ++ requested (url_of E self.inner kind) ∷ []
  unfolding refetch
  refetch_trace self kind st = settle_trace self.cache _ _ _ ∙ provider_trace self.inner kind st

  -- There is no answer that has not expired.
  abbrev pub IsStale : Option IpProviderResponse → State E → Type 0
  IsStale none st = Unit
  IsStale (some c) st = c.expires_at < (E.now st.world).0

  late : (a b : ℕ) → a < b → ltb a b ≡ true
  late a b h = ground arith

  abbrev no_reply : Option (Outcome SolverError (List IpAddr))
  no_reply = none

  pub cached_reply_stale :
      (cache : Option IpProviderResponse) (st : State E)
      → IsStale cache st
      → (cached_reply E cache st).0 ≡ none
  unfolding cached_reply
  cached_reply_stale none st h = refl
  cached_reply_stale (some c) st h =
      ap (λ b. if b then no_reply else reuse E c.response) (late _ _ h)

  pub cached_trace :
      (cache : Option IpProviderResponse) (st : State E)
      → (cached_reply E cache st).1.trace ≡ st.trace
  unfolding cached_reply
  cached_trace none st = refl
  cached_trace (some c) st = refl

  pub get_addresses-eq-refetch :
      (self : IpApiSolver) (kind : AddressKind) (st : State E)
      → (cached_reply E self.cache st).0 ≡ none
      → get_addresses E self kind st ≡ refetch E self kind (cached_reply E self.cache st).1
  unfolding get_addresses
  get_addresses-eq-refetch self kind st h =
      ap
        (λ (r : Option (Outcome SolverError (List IpAddr))).
          answered E self kind r (cached_reply E self.cache st).1)
        h

  -- With no answer in the cache, or one that has expired, a call sends exactly one request, to
  -- the provider's address for the family, and has no other effect.
  pub trace-get_addresses_stale :
      (self : IpApiSolver) (kind : AddressKind) (st : State E)
      → IsStale self.cache st
      → (get_addresses E self kind st).2.trace
        ≡ st.trace ++ requested (url_of E self.inner kind) ∷ []
  trace-get_addresses_stale self kind st h =
      ap (λ (p : Outcome SolverError (List IpAddr) × IpApiSolver × State E). p.2.trace)
        (get_addresses-eq-refetch self kind st (cached_reply_stale self.cache st h))
      ∙ refetch_trace self kind _
      ∙ ap (λ (t : List Effect). t ++ requested (url_of E self.inner kind) ∷ [])
          (cached_trace self.cache st)
