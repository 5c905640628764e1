-- ===== src/Solvers/IpApi/Cache.antt =====
-- The cache of the `ipAPI` solver over the two providers: what may stand in it, and for how long.
use externalip_manager.Prelude.{ℕ, ◌-◌, ◌⊎◌, ◌≤◌, ◌≡◌, refl, none, some, Option, List, arith, false}
use externalip_manager.Prelude.Outcome.{ok, err, Outcome}
use externalip_manager.Net.{IpAddr, AddressKind}
use externalip_manager.Errors.{rate_limited, request_failed, invalid_response, SolverError}
use externalip_manager.Env.{Env}
use externalip_manager.Solver.{IpProvider, my_ip, ipify, IpProviderResponse, IpApiSolver}
use externalip_manager.State.{State}
use externalip_manager.Solvers.Caching.{
  get_addresses, answered, doubled, refetch, settle, back_off, response_new,
  ratelimit_backoff_duration_max, Answer, remaining, expired,
}
use externalip_manager.Solvers.Caching.Entries.{Cacheable, IsEntry, IsCache}
use externalip_manager.Solvers.IpApi.{provider_get_addresses, ip_provider}

module _ (E : Env) where
  response_new_lem :
      (timeout : ℕ) (answer : Answer) (st : State E)
      → timeout ≤ ratelimit_backoff_duration_max
      → Cacheable answer
      → IsEntry (response_new E timeout answer st).0
  unfolding response_new
  response_new_lem timeout answer st h k = record { expiry = refl; bounded = h; cacheable = k }

  doubled-IsEntry :
      (timeout : ℕ) (answer : Answer) (resp : IpProviderResponse) (st : State E)
      → IsEntry resp
      → IsEntry (doubled E timeout answer resp st).0
  doubled-IsEntry timeout (ok addrs) resp st h = h
  doubled-IsEntry timeout (err rate_limited) resp st h = response_new_lem _ _ st (omega arith) tt
  doubled-IsEntry timeout (err (request_failed e)) resp st h = h
  doubled-IsEntry timeout (err (invalid_response e)) resp st h = h

  back_off-IsEntry :
      (old : Option IpProviderResponse) (resp : IpProviderResponse) (st : State E)
      → IsEntry resp
      → IsEntry (back_off E old resp st).0
  unfolding back_off
  back_off-IsEntry none resp st h = h
  back_off-IsEntry (some cached) resp st h =
      doubled-IsEntry cached.timeout cached.response resp st h

  settle-IsCache :
      (old : Option IpProviderResponse) (resp : IpProviderResponse) (answer : Answer) (st : State E)
      → (Cacheable answer → IsEntry resp)
      → IsCache (settle E old resp answer st).1
  settle-IsCache old resp (ok addrs) st h = h tt
  settle-IsCache old resp (err rate_limited) st h = back_off-IsEntry old resp st (h tt)
  settle-IsCache old resp (err (request_failed e)) st h = tt
  settle-IsCache old resp (err (invalid_response e)) st h = tt

  provider-IsEntry :
      (p : IpProvider) (kind : AddressKind) (st : State E)
      → Cacheable (provider_get_addresses E p kind st).0.response
      → IsEntry (provider_get_addresses E p kind st).0
  unfolding provider_get_addresses
  provider-IsEntry my_ip kind st k = record { expiry = refl; bounded = omega arith; cacheable = k }
  provider-IsEntry ipify kind st k = record { expiry = refl; bounded = omega arith; cacheable = k }

  refetch-IsCache :
      (self : IpApiSolver) (kind : AddressKind) (st : State E)
      → IsCache (refetch E self kind st).1.cache
  unfolding refetch
  refetch-IsCache self kind st =
      settle-IsCache self.cache _ _ _ (provider-IsEntry self.inner kind st)

  answered-IsCache :
      (self : IpApiSolver) (kind : AddressKind) (r : Option (Outcome SolverError (List IpAddr)))
      (st : State E)
      → IsCache self.cache
      → IsCache (answered E self kind r st).1.cache
  answered-IsCache self kind (some reply) st h = h
  answered-IsCache self kind none st h = refetch-IsCache self kind st

  -- Whatever the providers answer, a call leaves the cache well formed: it never holds an error
  -- other than a rate limit, an entry expires its time-out after it was made, and no time-out is
  -- longer than two hours.
  pub get_addresses-IsCache :
      (self : IpApiSolver) (kind : AddressKind) (st : State E)
      → IsCache self.cache
      → IsCache (get_addresses E self kind st).1.cache
  unfolding get_addresses
  get_addresses-IsCache self kind st h = answered-IsCache self kind _ _ h

  -- If the clock has not gone back since a well-formed entry was made: what remains of it is the
  -- time to its expiry, at most two hours, and nothing remains of an entry that has expired.
  pub remaining-IsEntry :
      (c : IpProviderResponse) (st : State E)
      → IsEntry c
      → c.timestamp ≤ (E.now st.world).0
      → ((remaining E c st).0 ≡ c.expires_at - (E.now st.world).0)
        × ((remaining E c st).0 ≤ ratelimit_backoff_duration_max)
        × (((expired E c st).0 ≡ false) ⊎ ((remaining E c st).0 ≡ 0))
  unfolding remaining expired
  remaining-IsEntry c st entry past = (
    omega (arith, entry.expiry),
    omega (arith, entry.expiry, entry.bounded),
    ground (arith, entry.expiry),
  )
