-- ===== src/Solvers/IpApi/Backoff.antt =====
-- The back-off of the `ipAPI` solver under repeated rate limits.
use native.Mathlib.Nat.{pow-suc}
use externalip_manager.Prelude.{
  ℕ, zero, suc, ap, ◌*◌, ◌^◌, ◌≤◌, ◌≡◌, refl, ◌∙◌, sym, none, some, Option, List, arith, min,
}
use externalip_manager.Prelude.Outcome.{ok, err, fail, Outcome}
use externalip_manager.Net.{IpAddr, AddressKind}
use externalip_manager.Errors.{
  rate_limited, request_failed, invalid_response, of_provider, SolverError,
}
use externalip_manager.Env.{Env}
use externalip_manager.Solver.{IpProvider, my_ip, ipify, IpProviderResponse, IpApiSolver}
use externalip_manager.State.{State}
use externalip_manager.Solvers.Caching.{
  get_addresses, answered, doubled, cached_reply, refetch, settle, back_off, response_new,
  ratelimit_backoff_duration_max, Answer,
}
use externalip_manager.Solvers.IpApi.{provider_get_addresses, cache_duration, ip_provider}
use externalip_manager.Solvers.IpApi.Sending.{IsStale, cached_reply_stale, get_addresses-eq-refetch}

module _ (E : Env) where
  -- A row of calls, with any other calls and changes of the world between them: each found its
  -- cache stale and came back with a rate limit.
  pub data Refused (kind : AddressKind) : ℕ → IpApiSolver → IpApiSolver → Type 0 where
    never : {s t : IpApiSolver} → s ≡ t → Refused kind zero s t
    again :
        {n : ℕ} {s t u : IpApiSolver} (st : State E)
        → Refused kind n s t
        → IsStale E t.cache st
        → (get_addresses E t kind st).0 ≡ fail (of_provider rate_limited)
        → (get_addresses E t kind st).1 ≡ u
        → Refused kind (suc n) s u

  -- What `n` refusals in a row leave behind.
  abbrev pub HasBackedOff : ℕ → IpApiSolver → IpApiSolver → Type 0
  HasBackedOff zero s t = s ≡ t
  HasBackedOff (suc n) s t =
      (c : IpProviderResponse) × (t.cache ≡ some c)
      × (c.response ≡ err rate_limited)
      × (c.timeout ≡ min (cache_duration s.inner * 2 ^ n) ratelimit_backoff_duration_max)
      × (t.inner ≡ s.inner)

  settle-limited :
      (old : Option IpProviderResponse) (resp : IpProviderResponse) (answer : Answer) (st : State E)
      → (settle E old resp answer st).0 ≡ fail (of_provider rate_limited)
      → (answer ≡ err rate_limited)
        × ((settle E old resp answer st).1 ≡ some (back_off E old resp st).0)
  settle-limited old resp (ok addrs) st h = cc h
  settle-limited old resp (err rate_limited) st h = (refl, refl)
  settle-limited old resp (err (request_failed e)) st h = (cc h, cc h)
  settle-limited old resp (err (invalid_response e)) st h = (cc h, cc h)

  pub cache_duration-le : (p : IpProvider) → cache_duration p ≤ ratelimit_backoff_duration_max
  cache_duration-le my_ip = omega arith
  cache_duration-le ipify = omega arith

  provider_timeout :
      (p : IpProvider) (kind : AddressKind) (st : State E)
      → (provider_get_addresses E p kind st).0.timeout ≡ cache_duration p
  unfolding provider_get_addresses
  provider_timeout p kind st = refl

  -- One more refusal of a solver whose cache is `old`.
  IsNext : Option IpProviderResponse → IpProvider → IpProviderResponse → Type 0
  IsNext none p c = (c.response ≡ err rate_limited) × (c.timeout ≡ cache_duration p)
  IsNext (some old) p c =
      old.response ≡ err rate_limited
      → (c.response ≡ err rate_limited)
        × (c.timeout ≡ min (old.timeout * 2) ratelimit_backoff_duration_max)

  doubled-eq :
      (timeout : ℕ) (answer : Answer) (resp : IpProviderResponse) (st : State E)
      → answer ≡ err rate_limited
      → doubled E timeout answer resp st
        ≡ response_new E (min (timeout * 2) ratelimit_backoff_duration_max) (err rate_limited) st
  doubled-eq timeout answer resp st e = rw e

  back_off-IsNext :
      (old : Option IpProviderResponse) (p : IpProvider) (resp : IpProviderResponse) (st : State E)
      → resp.response ≡ err rate_limited
      → resp.timeout ≡ cache_duration p
      → IsNext old p (back_off E old resp st).0
  unfolding back_off IsNext
  back_off-IsNext none p resp st e t = (e, t)
  back_off-IsNext (some c) p resp st e t = λ limited.
      let step = doubled-eq c.timeout c.response resp st limited in
      (
        ap (λ (q : IpProviderResponse × State E). q.0.response) step,
        ap (λ (q : IpProviderResponse × State E). q.0.timeout) step,
      )

  refetch-IsNext :
      (self : IpApiSolver) (kind : AddressKind) (st : State E)
      → (refetch E self kind st).0 ≡ fail (of_provider rate_limited)
      → (c : IpProviderResponse) × ((refetch E self kind st).1.cache ≡ some c)
        × IsNext self.cache self.inner c
  unfolding refetch
  refetch-IsNext self kind st h =
      let got = provider_get_addresses E self.inner kind st in
      let (answer, stored) = settle-limited self.cache got.0 got.0.response got.1 h in
      (
        (back_off E self.cache got.0 got.1).0,
        stored,
        back_off-IsNext self.cache self.inner got.0 got.1 answer
            (provider_timeout self.inner kind st),
      )

  call-IsNext :
      (self : IpApiSolver) (kind : AddressKind) (st : State E)
      → IsStale E self.cache st
      → (get_addresses E self kind st).0 ≡ fail (of_provider rate_limited)
      → (c : IpProviderResponse) × ((get_addresses E self kind st).1.cache ≡ some c)
        × IsNext self.cache self.inner c
  call-IsNext self kind st stale h =
      let e = get_addresses-eq-refetch E self kind st (cached_reply_stale E self.cache st stale) in
      let (c, stored, next) =
        refetch-IsNext self kind (cached_reply E self.cache st).1 (sym (ap outcome e) ∙ h) in
      (c, ap cache_of e ∙ stored, next)
    where
      outcome :
          Outcome SolverError (List IpAddr) × IpApiSolver × State E
          → Outcome SolverError (List IpAddr)
      outcome p = p.0

      cache_of :
          Outcome SolverError (List IpAddr) × IpApiSolver × State E → Option IpProviderResponse
      cache_of p = p.1.cache

  inner-get_addresses :
      (self : IpApiSolver) (kind : AddressKind) (r : Option (Outcome SolverError (List IpAddr)))
      (st : State E)
      → (answered E self kind r st).1.inner ≡ self.inner
  unfolding refetch
  inner-get_addresses self kind (some reply) st = refl
  inner-get_addresses self kind none st = refl

  pub inner_lem :
      (self : IpApiSolver) (kind : AddressKind) (st : State E)
      → (get_addresses E self kind st).1.inner ≡ self.inner
  unfolding get_addresses
  inner_lem self kind st = inner-get_addresses self kind _ _

  next-HasBackedOff :
      (n : ℕ) (s t u : IpApiSolver) {c : IpProviderResponse}
      → s.cache ≡ none
      → HasBackedOff n s t
      → u.inner ≡ t.inner
      → u.cache ≡ some c
      → IsNext t.cache t.inner c
      → HasBackedOff (suc n) s u
  unfolding IsNext
  next-HasBackedOff zero s t u {c} empty e inner stored next =
      let none_t : t.cache ≡ none = ap (λ (x : IpApiSolver). x.cache) (sym e) ∙ empty in
      let first : IsNext none t.inner c = rw none_t at next in
      (
        c,
        stored,
        first.0,
        omega (
          arith,
          first.1,
          ap (λ (x : IpApiSolver). cache_duration x.inner) e,
          cache_duration-le s.inner,
        ),
        inner ∙ ap (λ (x : IpApiSolver). x.inner) (sym e),
      )
  next-HasBackedOff (suc n) s t u {c} empty (d, held, limited, timeout, same) inner stored next =
      let again : IsNext (some d) t.inner c = rw held at next in
      let (limited', timeout') = again limited in
      (
        c,
        stored,
        limited',
        omega (arith, timeout, timeout', ap (λ (t : ℕ). cache_duration s.inner * t) (pow-suc 2 n)),
        inner ∙ same,
      )

  -- From a solver with an empty cache, after `n + 1` calls in a row that were rate limited the
  -- cache holds the rate limit with the provider's cache duration doubled `n` times, and two
  -- hours at most.
  pub Refused-HasBackedOff :
      {kind : AddressKind} {n : ℕ} {s t : IpApiSolver}
      → Refused kind n s t
      → s.cache ≡ none
      → HasBackedOff n s t
  Refused-HasBackedOff (never e) empty = e
  Refused-HasBackedOff {kind} (again {n} {s} {t} {u} st r stale limited e) empty =
      let (c, stored, next) = call-IsNext t kind st stale limited in
      next-HasBackedOff n s t u empty (Refused-HasBackedOff r empty)
        (ap (λ (x : IpApiSolver). x.inner) (sym e) ∙ inner_lem t kind st)
        (ap (λ (x : IpApiSolver). x.cache) (sym e) ∙ stored) next
