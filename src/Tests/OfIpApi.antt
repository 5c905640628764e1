-- ===== src/Tests/OfIpApi.antt =====
-- The theorems about the `ipAPI` solver at concrete inputs.
use externalip_manager.Prelude.{
  ◌≡◌, refl, some, List, [], ◌∷◌, ℕ, arith, ◌⊎◌, ◌-◌, ◌+◌, if◌then◌else◌, none, ◌≤◌, false, true,
}
use externalip_manager.Prelude.Eq.{String-discrete, String-eq, ◌=?◌}
use externalip_manager.Crd.{SolverKind-discrete}
use externalip_manager.Prelude.Outcome.{done, fail, Result, err, ◌>>=◌, ◌>>◌}
use externalip_manager.Net.{IpAddr, v4, ipv4}
use externalip_manager.Errors.{SolverError, rate_limited, of_provider}
use externalip_manager.Kube.{requested}
use externalip_manager.Solver.{IpApiSolver, IpProviderResponse, ipify}
use externalip_manager.State.{State, Key-eq}
use externalip_manager.Solvers.Caching
use externalip_manager.Solvers.IpApi.{ip_provider}
use externalip_manager.Solvers.IpApi
use externalip_manager.Solvers.Caching.Entries.{IsEntry, IsCache, get_addresses_fresh}
use externalip_manager.Solvers.IpApi.Cache.{get_addresses-IsCache, remaining-IsEntry}
use externalip_manager.Solvers.IpApi.Held.{IsMonotone}
use externalip_manager.Solvers.IpApi.Requests.{Request, Apart}
use externalip_manager.Solvers.IpApi.Spacing.{Row, begun, next, Row-Apart}
use externalip_manager.Solvers.IpApi.Backoff.{
  Refused, again, never, HasBackedOff, Refused-HasBackedOff,
}
use externalip_manager.Solvers.IpApi.Sending.{trace-get_addresses_stale}
use externalip_manager.Solvers.Mock
use externalip_manager.Solvers.Mock.Passes.{eq_self}
use externalip_manager.Tests.Sandbox.{sandbox, fresh_at}
use externalip_manager.Env.{Env}

-- The `ipAPI` solver of ipify, empty and with an answer that expires after five minutes.
abbrev unasked : IpApiSolver
unasked = IpApi.new externalip_manager.Crd.IpSolverProvider.ipify

abbrev five_minutes : ℕ
five_minutes = 300_000_000_000

abbrev entry : Result externalip_manager.Errors.IpProviderError (List IpAddr) → IpProviderResponse
entry response = record {
  timeout = five_minutes;
  timestamp = 0;
  expires_at = five_minutes;
  response = response;
}

abbrev holding : Result externalip_manager.Errors.IpProviderError (List IpAddr) → IpApiSolver
holding response = record { inner = ipify; cache = some (entry response) }

get_addresses_fresh_example :
    Caching.get_addresses sandbox (holding (err rate_limited)) ipv4 (fresh_at 7)
    ≡ (fail (of_provider rate_limited), holding (err rate_limited), fresh_at 7)
get_addresses_fresh_example =
    get_addresses_fresh sandbox (holding (err rate_limited)) ipv4 (fresh_at 7) refl (omega arith) tt

get_addresses-IsCache_example :
    IsCache
      (Caching.get_addresses sandbox
        (holding (err rate_limited))
        ipv4
        (fresh_at 400_000_000_000)).1.cache
get_addresses-IsCache_example =
    get_addresses-IsCache sandbox (holding (err rate_limited)) ipv4 (fresh_at 400_000_000_000)
      (record { expiry = refl; bounded = omega arith; cacheable = tt })

trace-get_addresses_stale_example :
    (Caching.get_addresses sandbox unasked ipv4 (fresh_at 7)).2.trace
    ≡ requested "https://api.ipify.org?format=json" ∷ []
trace-get_addresses_stale_example = trace-get_addresses_stale sandbox unasked ipv4 (fresh_at 7) tt

-- The second refusal doubles the five minutes.
abbrev refused_twice : IpApiSolver
refused_twice = record {
  inner = ipify;
  cache = some (record {
    timeout = 600_000_000_000;
    timestamp = 400_000_000_000;
    expires_at = 1_000_000_000_000;
    response = err rate_limited;
  });
}

two_refusals : Refused sandbox ipv4 2 unasked refused_twice
unfolding Caching.get_addresses Caching.cached_reply Caching.refetch IpApi.provider_get_addresses
    Caching.back_off Caching.response_new Caching.expired
two_refusals =
    again (fresh_at 400_000_000_000)
      (again {t = unasked} {u = holding (err rate_limited)} (fresh_at 0) (never refl) tt refl refl)
      (omega arith) refl refl

Refused-HasBackedOff_example : HasBackedOff sandbox 2 unasked refused_twice
Refused-HasBackedOff_example = Refused-HasBackedOff sandbox two_refusals refl

sandbox-IsMonotone : IsMonotone sandbox
sandbox-IsMonotone = record {
  now = λ w. omega arith;
  send = λ url n w. omega arith;
  json_ipify = λ r w. omega arith;
  json_my_ip = λ r w. omega arith;
}

-- The requests of three calls, of which the second is answered from the cache.
abbrev two_requests : List Request
two_requests = record { at = 400_000_000_000; kept = true } ∷ record { at = 0; kept = true } ∷ []

three_calls : Row sandbox two_requests refused_twice
unfolding Caching.get_addresses Caching.cached_reply Caching.refetch IpApi.provider_get_addresses
    Caching.back_off Caching.response_new Caching.expired
three_calls =
    next {t = refused_twice} ipv4 (fresh_at 400_000_000_000)
      (next {s = holding (err rate_limited)} {t = holding (err rate_limited)} ipv4 (fresh_at 7)
        (next {s = unasked} {t = holding (err rate_limited)} ipv4 (fresh_at 0) (begun refl) refl)
        refl)
      refl

Row-Apart_example : Apart five_minutes two_requests
Row-Apart_example = Row-Apart sandbox sandbox-IsMonotone three_calls

-- A clock that a reading moves by a microsecond, and the addresses that the tests write.
abbrev ticking : Env
ticking = record sandbox {
  now = λ w. (w, w + 1000);
  sleep = λ n w. w + n;
  parse_ip = λ text.
      if text =? "0.0.0.0"
      then some (v4 0)
      else if text =? "1.1.1.1"
      then some (v4 16843009)
      else none;
}

abbrev noon : State ticking
noon = record { world = 43_200_000_000_000; trace = []; solvers = []; cluster_eip_sources = [] }

uses_cache_passes : (Mock.uses_cache ticking noon).0 ≡ done tt
unfolding Mock.uses_cache ◌>>=◌ ◌>>◌ Caching.get_addresses Caching.cached_reply Caching.refetch
    Caching.response_new Caching.back_off Caching.expired String-eq String-discrete
uses_cache_passes = rw (eq_self (v4 0 ∷ []), eq_self (v4 0 ∷ []))

waits_after_ratelimit_passes : (Mock.waits_after_ratelimit ticking noon).0 ≡ done tt
unfolding Mock.waits_after_ratelimit ◌>>=◌ ◌>>◌ Caching.get_addresses Caching.cached_reply
    Caching.refetch Caching.response_new Caching.back_off Caching.expired String-eq String-discrete
waits_after_ratelimit_passes = rw (eq_self (v4 0 ∷ []))

abbrev rate_limit : IpProviderResponse
rate_limit = record { timeout = 10; timestamp = 5; expires_at = 15; response = err rate_limited }

kept-IsEntry : IsEntry rate_limit
kept-IsEntry = record { expiry = omega arith; bounded = omega arith; cacheable = tt }

remaining-IsEntry_example :
    ((Caching.remaining sandbox rate_limit (fresh_at 9)).0 ≡ 15 - 9)
    × ((Caching.remaining sandbox rate_limit (fresh_at 9)).0
        ≤ Caching.ratelimit_backoff_duration_max)
    × (((Caching.expired sandbox rate_limit (fresh_at 9)).0 ≡ false)
        ⊎ ((Caching.remaining sandbox rate_limit (fresh_at 9)).0 ≡ 0))
remaining-IsEntry_example =
    remaining-IsEntry sandbox rate_limit (fresh_at 9) kept-IsEntry (omega arith)
