-- ===== src/Solvers/Caching.antt =====
-- crates/manager/src/external_ip_source/solvers/ip_api: the trait of the address providers, and
-- the caching solver over any of them (mod.rs and solver.rs).
pub mod Entries
use externalip_manager.Prelude.{
  ℕ, ◌+◌, ◌-◌, ◌*◌, min, Bool, true, false, Option, none, some, List, ltb, if◌then◌else◌,
}
use externalip_manager.Prelude.Outcome.{Result, ok, err, Outcome, done, fail, panic, no_response}
use externalip_manager.Net.{IpAddr, AddressKind}
use externalip_manager.Errors.{IpProviderError, rate_limited, SolverError, of_provider}
use externalip_manager.Env.{Env}
use externalip_manager.Solver.{IpProviderResponse, IpApiSolverOf}
use externalip_manager.State.{State, with_world}

-- `Duration::from_secs`
abbrev pub from_secs : ℕ → ℕ
from_secs n = n * 1_000_000_000

abbrev pub ratelimit_backoff_duration_max : ℕ
ratelimit_backoff_duration_max = from_secs 7200

abbrev pub Answer : Type 0
Answer = Result IpProviderError (List IpAddr)

abbrev pub Reply : Type 0
Reply = Outcome SolverError (List IpAddr)

-- `trait IpProvider`. A provider's method may panic: it then has no response.
pub record Provider (E : Env) (Self : Type 0) : Type 0 where
  pub get_addresses : Self → AddressKind → State E → Option IpProviderResponse × Self × State E

module _ (E : Env) where
  -- `IpProviderResponse::new`
  unfoldable pub response_new : ℕ → Answer → State E → IpProviderResponse × State E
  response_new timeout response st =
      let (now, w) = E.now st.world in
      (
        record {
          timeout = timeout;
          timestamp = now;
          expires_at = now + timeout;
          response = response;
        },
        with_world st w,
      )

  -- `IpProviderResponse::expired`
  unfoldable pub expired : IpProviderResponse → State E → Bool × State E
  expired self st = let (now, w) = E.now st.world in (ltb self.expires_at now, with_world st w)

  -- `IpProviderResponse::remaining`: `elapsed` and the subtraction stop at zero.
  unfoldable pub remaining : IpProviderResponse → State E → ℕ × State E
  remaining self st =
      let (now, w) = E.now st.world in (self.timeout - (now - self.timestamp), with_world st w)

  -- The cached answers that end the call: addresses, and a rate limit.
  abbrev pub reuse : Answer → Option Reply
  reuse (ok addrs) = some (done addrs)
  reuse (err rate_limited) = some (fail (of_provider rate_limited))
  reuse (err e) = none

  abbrev pub unless_late : Bool → Answer → Option Reply
  unless_late late answer = if late then none else reuse answer

  -- `if let Some(cached) = &self.cache && !cached.expired()`
  unfoldable pub cached_reply : Option IpProviderResponse → State E → Option Reply × State E
  unfolding expired
  cached_reply none st = (none, st)
  cached_reply (some cached) st =
      let (late, st1) = expired cached st in (unless_late late cached.response, st1)

  -- The branch of a rate limit: the time-out of a cached rate limit doubles, up to the maximum.
  abbrev pub doubled : ℕ → Answer → IpProviderResponse → State E → IpProviderResponse × State E
  doubled timeout (ok addrs) resp st = (resp, st)
  doubled timeout (err rate_limited) resp st =
      response_new (min (timeout * 2) ratelimit_backoff_duration_max) (err rate_limited) st
  doubled timeout (err e) resp st = (resp, st)

  unfoldable pub back_off :
      Option IpProviderResponse → IpProviderResponse → State E → IpProviderResponse × State E
  unfolding response_new
  back_off none resp st = (resp, st)
  back_off (some cached) resp st = doubled cached.timeout cached.response resp st

  -- The match on the provider's response: the reply and the new cache.
  abbrev pub settle :
      Option IpProviderResponse
      → IpProviderResponse
      → Answer
      → State E
      → Reply × Option IpProviderResponse × State E
  settle old resp (ok addrs) st = (done addrs, some resp, st)
  settle old resp (err rate_limited) st =
      let (cache, st1) = back_off old resp st in (fail (of_provider rate_limited), some cache, st1)
  settle old resp (err e) st = (fail (of_provider e), none, st)

  module _ {Self : Type 0} ⦃P : Provider E Self⦄ where
    -- The solver has the provider as the call left it.
    abbrev pub settled :
        IpApiSolverOf Self
        → Self
        → Reply × Option IpProviderResponse × State E
        → Reply × IpApiSolverOf Self × State E
    settled self inner (res, cache, st) = (res, record { inner = inner; cache = cache }, st)

    abbrev pub received :
        IpApiSolverOf Self
        → Option IpProviderResponse
        → Self
        → State E
        → Reply × IpApiSolverOf Self × State E
    received self none inner st = (panic no_response, record self { inner = inner }, st)
    received self (some resp) inner st =
        settled self inner (settle self.cache resp resp.response st)

    unfoldable pub refetch :
        IpApiSolverOf Self → AddressKind → State E → Reply × IpApiSolverOf Self × State E
    unfolding back_off
    refetch self kind st =
        let (resp, inner, st1) = P.get_addresses self.inner kind st in received self resp inner st1

    abbrev pub answered :
        IpApiSolverOf Self
        → AddressKind
        → Option Reply
        → State E
        → Reply × IpApiSolverOf Self × State E
    answered self kind (some reply) st = (reply, self, st)
    answered self kind none st = refetch self kind st

    -- `IpApiSolver::get_addresses`
    unfoldable pub get_addresses :
        IpApiSolverOf Self → AddressKind → State E → Reply × IpApiSolverOf Self × State E
    unfolding cached_reply refetch
    get_addresses self kind st =
        let (cached, st1) = cached_reply self.cache st in answered self kind cached st1
