-- ===== src/Solvers/IpApi/Held.antt =====
-- What a call of the `ipAPI` solver puts into the cache, and when.
use externalip_manager.Prelude.{
  ℕ, ◌+◌, ◌≤◌, ◌≡◌, refl, none, some, Option, arith, ◌==◌, Bool, true, false,
}
use externalip_manager.Prelude.Outcome.{Result, ok, err, done, fail, panic}
use externalip_manager.Net.{AddressKind}
use externalip_manager.Errors.{
  rate_limited, request_failed, invalid_response, Reason, provider_failed,
}
use externalip_manager.Env.{Env, ReqwestError}
use externalip_manager.Solver.{IpProvider, my_ip, ipify, IpProviderResponse, IpApiSolver}
use externalip_manager.State.{State}
use externalip_manager.Solvers.Caching.{
  settle, back_off, doubled, refetch, response_new, from_secs, Answer, Reply,
}
use externalip_manager.Solvers.Caching.Entries.{Cacheable}
use externalip_manager.Solvers.IpApi.{
  provider_get_addresses, cache_duration, answer_of, body_of, limited_or, url_of, ip_provider, sent,
}
use externalip_manager.Solvers.IpApi.Backoff.{cache_duration-le}

-- The clock does not go back, whatever is called in between.
pub record IsMonotone (E : Env) : Type 0 where
  pub now : (w : E.World) → (E.now w).0 ≤ (E.now (E.now w).1).0
  pub send : (url : _) (n : ℕ) (w : E.World) → (E.now w).0 ≤ (E.now (E.send url n w).1).0
  pub json_ipify : (r : E.Response) (w : E.World) → (E.now w).0 ≤ (E.now (E.json_ipify r w).1).0
  pub json_my_ip : (r : E.Response) (w : E.World) → (E.now w).0 ≤ (E.now (E.json_my_ip r w).1).0

-- The replies whose answers the cache keeps: addresses and rate limits.
abbrev lasting_reason : Reason → Bool
lasting_reason (provider_failed rate_limited) = true
lasting_reason _ = false

abbrev pub lasts : Reply → Bool
lasts (done addrs) = true
lasts (fail e) = lasting_reason e.reason
lasts (panic p) = false

-- A cache entry of a provider, made at a time or later.
pub record IsHeld (p : IpProvider) (t : ℕ) (c : IpProviderResponse) : Type 0 where
  pub cacheable : Cacheable c.response
  pub enough : cache_duration p ≤ c.timeout
  pub made : t + c.timeout ≤ c.expires_at

abbrev pub Stored : IpProvider → ℕ → Option IpProviderResponse → Type 0
Stored p t none = ⊥
Stored p t (some c) = IsHeld p t c

-- The cache's time-out is the provider's at least.
abbrev pub Patient : IpProvider → Option IpProviderResponse → Type 0
Patient p none = Unit
Patient p (some c) = cache_duration p ≤ c.timeout

-- The clock as a call finds it.
abbrev pub time : {E : Env} → State E → ℕ
time {E} st = (E.now st.world).0

module _ (E : Env) (mono : IsMonotone E) where
  body_later :
      (p : IpProvider) (res : Result ReqwestError E.Response) (st : State E)
      → time st ≤ time (body_of E p res st).1
  body_later p (err e) st = omega arith
  body_later my_ip (ok body) st = mono.json_my_ip body st.world
  body_later ipify (ok body) st = mono.json_ipify body st.world

  limited_later :
      (p : IpProvider) (limited : Bool) (res : Result ReqwestError E.Response) (st : State E)
      → time st ≤ time (limited_or E p limited res st).1
  limited_later p true res st = omega arith
  limited_later p false res st = body_later p res st

  answer_later :
      (p : IpProvider) (res : Result ReqwestError E.Response) (st : State E)
      → time st ≤ time (answer_of E p res st).1
  answer_later p (err e) st = omega arith
  answer_later p (ok res) st = limited_later p (E.status res == 429) (E.error_for_status res) st

  abbrev heard : IpProvider → AddressKind → State E → Answer × State E
  heard p kind st = let (res, st1) = sent E (url_of E p kind) st in answer_of E p res st1

  heard_later :
      (p : IpProvider) (kind : AddressKind) (st : State E) → time st ≤ time (heard p kind st).1
  heard_later p kind st =
      let (res, st1) = sent E (url_of E p kind) st in
      omega (arith, mono.send (url_of E p kind) (from_secs 10) st.world, answer_later p res st1)

  provider_later :
      (p : IpProvider) (kind : AddressKind) (st : State E)
      → time st ≤ time (provider_get_addresses E p kind st).1
  unfolding provider_get_addresses
  provider_later p kind st =
      omega (arith, heard_later p kind st, mono.now (heard p kind st).1.world)

  provider-IsHeld :
      (p : IpProvider) (kind : AddressKind) (st : State E)
      → Cacheable (provider_get_addresses E p kind st).0.response
      → IsHeld p (time st) (provider_get_addresses E p kind st).0
  unfolding provider_get_addresses
  provider-IsHeld p kind st k = record {
    cacheable = k;
    enough = omega arith;
    made = omega (arith, heard_later p kind st);
  }

  new-IsHeld :
      (p : IpProvider) (t timeout : ℕ) (st : State E)
      → t ≤ time st
      → cache_duration p ≤ timeout
      → IsHeld p t (response_new E timeout (err rate_limited) st).0
  unfolding response_new
  new-IsHeld p t timeout st h e = record { cacheable = tt; enough = e; made = omega arith }

  doubled-IsHeld :
      (p : IpProvider) (t timeout : ℕ) (answer : Answer) (resp : IpProviderResponse) (st : State E)
      → t ≤ time st
      → cache_duration p ≤ timeout
      → IsHeld p t resp
      → IsHeld p t (doubled E timeout answer resp st).0
  doubled-IsHeld p t timeout (ok addrs) resp st h e k = k
  doubled-IsHeld p t timeout (err rate_limited) resp st h e k =
      new-IsHeld p t _ st h (omega (arith, cache_duration-le E p))
  doubled-IsHeld p t timeout (err (request_failed e)) resp st h e' k = k
  doubled-IsHeld p t timeout (err (invalid_response e)) resp st h e' k = k

  back_off-IsHeld :
      (p : IpProvider) (t : ℕ) (old : Option IpProviderResponse) (resp : IpProviderResponse)
      (st : State E)
      → t ≤ time st
      → Patient p old
      → IsHeld p t resp
      → IsHeld p t (back_off E old resp st).0
  unfolding back_off
  back_off-IsHeld p t none resp st h e k = k
  back_off-IsHeld p t (some c) resp st h e k = doubled-IsHeld p t c.timeout c.response resp st h e k

  settle-Stored :
      (p : IpProvider) (t : ℕ) (old : Option IpProviderResponse) (resp : IpProviderResponse)
      (answer : Answer) (st : State E)
      → t ≤ time st
      → Patient p old
      → (Cacheable answer → IsHeld p t resp)
      → lasts (settle E old resp answer st).0 ≡ true
      → Stored p t (settle E old resp answer st).1
  settle-Stored p t old resp (ok addrs) st h e k lasting = k tt
  settle-Stored p t old resp (err rate_limited) st h e k lasting =
      back_off-IsHeld p t old resp st h e (k tt)
  settle-Stored p t old resp (err (request_failed e)) st h e' k lasting = cc lasting
  settle-Stored p t old resp (err (invalid_response e)) st h e' k lasting = cc lasting

  pub refetch-Stored :
      (self : IpApiSolver) (kind : AddressKind) (t : ℕ) (st : State E)
      → t ≤ time st
      → Patient self.inner self.cache
      → lasts (refetch E self kind st).0 ≡ true
      → Stored self.inner t (refetch E self kind st).1.cache
  unfolding refetch
  refetch-Stored self kind t st h patient lasting =
      let got = provider_get_addresses E self.inner kind st in
      settle-Stored self.inner t self.cache got.0 got.0.response got.1
        (omega (arith, provider_later self.inner kind st)) patient
        (λ k.
          let held = provider-IsHeld self.inner kind st k in
          record { cacheable = k; enough = held.enough; made = omega (arith, held.made) })
        lasting

  settle_lost :
      (old : Option IpProviderResponse) (resp : IpProviderResponse) (answer : Answer) (st : State E)
      → lasts (settle E old resp answer st).0 ≡ false
      → (settle E old resp answer st).1 ≡ none
  settle_lost old resp (ok addrs) st h = cc h
  settle_lost old resp (err rate_limited) st h = cc h
  settle_lost old resp (err (request_failed e)) st h = refl
  settle_lost old resp (err (invalid_response e)) st h = refl

  pub refetch_lost :
      (self : IpApiSolver) (kind : AddressKind) (st : State E)
      → lasts (refetch E self kind st).0 ≡ false
      → (refetch E self kind st).1.cache ≡ none
  unfolding refetch
  refetch_lost self kind st h =
      let got = provider_get_addresses E self.inner kind st in
      settle_lost self.cache got.0 got.0.response got.1 h
