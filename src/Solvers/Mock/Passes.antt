-- ===== src/Solvers/Mock/Passes.antt =====
-- The tests of the `ipAPI` solver (crates/manager/src/external_ip_source/solvers/ip_api/solver.rs),
-- that wait for the cache to expire, run with any clock that keeps time.
use externalip_manager.Prelude.{ℕ, ◌+◌, ◌≤◌, ◌≡◌, refl, true, false, some, [], ◌∷◌, ltb, arith, ite}
use externalip_manager.Prelude.Outcome.{done, ◌>>=◌, ◌>>◌}
use externalip_manager.Prelude.Eq.{Eq, ◌=?◌}
use externalip_manager.Net.{IpAddr}
use externalip_manager.Env.{Env}
use externalip_manager.State.{State}
use externalip_manager.Solvers.Caching.{
  get_addresses, cached_reply, refetch, response_new, back_off, expired,
}
use externalip_manager.Solvers.Mock.{
  addresses-eq, cache_timeout, sleep_extra, cache_invalidates, errors_on_ratelimit,
  exponential_backoff_on_repeated_ratelimit,
}

-- The clock does not go back, and a sleep lasts at least as long as it was asked to.
pub record IsTimely (E : Env) : Type 0 where
  pub onward : (w : E.World) → (E.now w).0 ≤ (E.now (E.now w).1).0
  pub slept : (n : ℕ) (w : E.World) → (E.now w).0 + n ≤ (E.now (E.sleep n w)).0

when : {A : Type 0} {a : A} (d : Dec (a ≡ a)) → ite d true false ≡ true
when (yes e) = refl
when (no n) = absurd (n refl)

pub eq_self : {A : Type 0} ⦃e : Eq A⦄ (a : A) → (a =? a) ≡ true
eq_self ⦃e⦄ a = when (e.dec a a)

module _ (E : Env) where
  errors_on_ratelimit-passes : (st : State E) → (errors_on_ratelimit E st).0 ≡ done tt
  unfolding errors_on_ratelimit ◌>>=◌ get_addresses cached_reply refetch response_new back_off
      expired
  errors_on_ratelimit-passes st = refl

  abbrev tick : E.World → E.World
  tick w = (E.now w).1

  late :
      (made called : E.World)
      → (E.now made).0 ≤ (E.now called).0
      → (time : IsTimely E)
      → ltb
          ((E.now made).0 + cache_timeout)
          (E.now (E.sleep (cache_timeout + sleep_extra) called)).0
        ≡ true
  late made called h time = ground (arith, time.slept (cache_timeout + sleep_extra) called)

  late_thrice :
      (time : IsTimely E) (w : E.World)
      → ltb
          ((E.now w).0 + cache_timeout)
          (E.now (E.sleep (cache_timeout + sleep_extra) (tick (tick (tick w))))).0
        ≡ true
  late_thrice time w =
      late w _ (omega (arith, time.onward w, time.onward (tick w), time.onward (tick (tick w))))
        time

  cache_invalidates-passes :
      (time : IsTimely E) {a b : IpAddr} (st : State E)
      → E.parse_ip "0.0.0.0" ≡ some a
      → E.parse_ip "1.1.1.1" ≡ some b
      → (cache_invalidates E st).0 ≡ done tt
  unfolding cache_invalidates ◌>>=◌ get_addresses cached_reply refetch response_new back_off ◌>>◌
      expired
  cache_invalidates-passes time {a} {b} st e f =
      let w1 = tick st.world in
      rw (
        e,
        f,
        late st.world (tick w1) (omega (arith, time.onward st.world, time.onward w1)) time,
        eq_self (a ∷ []),
      )

  exponential_backoff_on_repeated_ratelimit-passes :
      (time : IsTimely E) {a : IpAddr} (st : State E)
      → E.parse_ip "0.0.0.0" ≡ some a
      → (exponential_backoff_on_repeated_ratelimit E st).0 ≡ done tt
  unfolding exponential_backoff_on_repeated_ratelimit ◌>>=◌ get_addresses cached_reply refetch
      response_new back_off ◌>>◌ expired
  exponential_backoff_on_repeated_ratelimit-passes time {a} st e = rw (e, late_thrice time st.world)

  -- If the clock does not go back, a sleep lasts as long as it was asked to, and the two addresses
  -- that the tests write can be read, then from any state the tests of an answer that expires, of
  -- a rate limit, and of two rate limits in a row pass: no assertion fails, and no provider is
  -- asked more often than it has responses.
  pub waiting_tests_pass :
      IsTimely E
      → (st : State E) {a b : IpAddr} → E.parse_ip "0.0.0.0" ≡ some a
      → E.parse_ip "1.1.1.1" ≡ some b
      → ((cache_invalidates E st).0 ≡ done tt)
        × ((errors_on_ratelimit E st).0 ≡ done tt)
        × ((exponential_backoff_on_repeated_ratelimit E st).0 ≡ done tt)
  waiting_tests_pass time st e f = (
    cache_invalidates-passes time st e f,
    errors_on_ratelimit-passes st,
    exponential_backoff_on_repeated_ratelimit-passes time st e,
  )
