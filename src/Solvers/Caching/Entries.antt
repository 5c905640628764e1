-- ===== src/Solvers/Caching/Entries.antt =====
-- The cache of the solver over any provider: what may stand in it, and when a call is answered
-- from it.
use externalip_manager.Prelude.{
  ℕ, ap, ◌+◌, ◌≤◌, ◌≡◌, refl, ◌∙◌, none, some, Option, false, ltb, arith,
}
use externalip_manager.Prelude.Outcome.{ok, err, done, fail}
use externalip_manager.Net.{AddressKind}
use externalip_manager.Errors.{rate_limited, request_failed, invalid_response, of_provider}
use externalip_manager.Env.{Env}
use externalip_manager.Solver.{IpProviderResponse, IpApiSolverOf}
use externalip_manager.State.{State, with_world}
use externalip_manager.Solvers.Caching.{
  Answer, Reply, Provider, get_addresses, answered, unless_late, cached_reply, reuse,
  ratelimit_backoff_duration_max,
}

not_late : (a b : ℕ) → b ≤ a → ltb a b ≡ false
not_late a b h = ground arith

-- What may stand in the cache: addresses or a rate limit, for at most the longest back-off.
abbrev pub Cacheable : Answer → Type 0
Cacheable (ok addrs) = Unit
Cacheable (err rate_limited) = Unit
Cacheable (err e) = ⊥

pub record IsEntry (c : IpProviderResponse) : Type 0 where
  pub expiry : c.expires_at ≡ c.timestamp + c.timeout
  pub bounded : c.timeout ≤ ratelimit_backoff_duration_max
  pub cacheable : Cacheable c.response

abbrev pub IsCache : Option IpProviderResponse → Type 0
IsCache none = Unit
IsCache (some c) = IsEntry c

-- The reply that an answer stands for.
abbrev pub replied : Answer → Reply
replied (ok addrs) = done addrs
replied (err e) = fail (of_provider e)

module _ (E : Env) where
  unless_late-fresh :
      (c : IpProviderResponse) (now : ℕ) {reply : Reply}
      → now ≤ c.expires_at
      → reuse E c.response ≡ some reply
      → unless_late E (ltb c.expires_at now) c.response ≡ some reply
  unless_late-fresh c now fresh final = rw (not_late c.expires_at now fresh) final

  cached_reply-fresh :
      (c : IpProviderResponse) (st : State E) {reply : Reply}
      → (E.now st.world).0 ≤ c.expires_at
      → reuse E c.response ≡ some reply
      → cached_reply E (some c) st ≡ (some reply, with_world st (E.now st.world).1)
  unfolding cached_reply
  cached_reply-fresh c st fresh final =
      λ i. (unless_late-fresh c _ fresh final i, with_world st (E.now st.world).1)

  reuse-Cacheable : (answer : Answer) → Cacheable answer → reuse E answer ≡ some (replied answer)
  reuse-Cacheable (ok addrs) h = refl
  reuse-Cacheable (err rate_limited) h = refl
  reuse-Cacheable (err (request_failed e)) h = absurd h
  reuse-Cacheable (err (invalid_response e)) h = absurd h

  -- While the cached answer, addresses or a rate limit, has not expired, a call returns it
  -- whatever the provider is, sends no request, and changes neither the solver nor anything else
  -- but the clock.
  pub get_addresses_fresh :
      {Self : Type 0} ⦃P : Provider E Self⦄ (self : IpApiSolverOf Self) (kind : AddressKind)
      (st : State E) {c : IpProviderResponse}
      → self.cache ≡ some c
      → (E.now st.world).0 ≤ c.expires_at
      → Cacheable c.response
      → get_addresses E self kind st ≡ (replied c.response, self, with_world st (E.now st.world).1)
  unfolding get_addresses
  get_addresses_fresh self kind st {c} cached fresh keeps =
      ap
        (λ (o : Option IpProviderResponse).
          let (r, t) = cached_reply E o st in answered E self kind r t)
        cached
      ∙ ap (λ (p : Option Reply × State E). answered E self kind p.0 p.1)
          (cached_reply-fresh c st fresh (reuse-Cacheable c.response keeps))
