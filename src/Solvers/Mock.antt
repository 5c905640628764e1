-- ===== src/Solvers/Mock.antt =====
-- The tests of crates/manager/src/external_ip_source/solvers/ip_api/solver.rs and their provider.
-- A failed assertion, and an `unwrap` or `expect` of nothing, are panics.
pub mod Passes
use externalip_manager.Prelude.{
  ℕ, zero, suc, ◌+◌, ◌*◌, String, Bool, true, false, Option, none, some, List, [], ◌∷◌, ◌==◌,
}
use externalip_manager.Prelude.Eq.{Eq, ◌=?◌}
use externalip_manager.Prelude.Outcome.{
  ok, err, Outcome, done, fail, panic, Exec, pure, crash, unwrapped, assertion, ◌>>=◌, ◌>>◌,
}
use externalip_manager.Net.{IpAddr, IpAddr-discrete, AddressKind, ipv4}
use externalip_manager.Errors.{SolverError, rate_limited}
use externalip_manager.Env.{Env}
use externalip_manager.Solver.{IpProviderResponse, IpApiSolverOf}
use externalip_manager.State.{State, with_world}
use externalip_manager.Solvers.Caching.{Answer, Provider, response_new, get_addresses}
use mathlib.Core.List.{List-discrete}

-- 500 and 100 milliseconds
abbrev pub cache_timeout : ℕ
cache_timeout = 500_000_000

abbrev pub sleep_extra : ℕ
sleep_extra = 100_000_000

pub record MockSolver : Type 0 where
  pub count : ℕ
  pub responses : List IpProviderResponse

-- `MockSolver::new`
abbrev pub new : List IpProviderResponse → MockSolver
new responses = record { count = 0; responses = responses }

-- `responses[count]`, which panics beyond the end.
abbrev pub nth : List IpProviderResponse → ℕ → Option IpProviderResponse
nth [] n = none
nth (r ∷ rest) zero = some r
nth (r ∷ rest) (suc n) = nth rest n

abbrev pub counted : Option IpProviderResponse → MockSolver → MockSolver
counted none self = self
counted (some res) self = record self { count = self.count + 1 }

instance abbrev pub mock_solver : {E : Env} → Provider E MockSolver
mock_solver = record {
  get_addresses =
      λ self kind st. let res = nth self.responses self.count in (res, counted res self, st);
}

-- `IpApiSolver::with_test_provider`
abbrev pub with_test_provider : {P : Type 0} → P → IpApiSolverOf P
with_test_provider inner = record { inner = inner; cache = none }

instance unfoldable pub addresses-eq : Eq (List IpAddr)
addresses-eq = record { dec = List-discrete IpAddr-discrete }

module _ {S F : Type 0} where
  abbrev pub assert : Bool → Exec S F Unit
  assert true = pure tt
  assert false = crash assertion

  abbrev pub unwrap : {A : Type 0} → Option A → Exec S F A
  unwrap none = crash unwrapped
  unwrap (some a) = pure a

-- `result.is_err()` of a call that is not followed by `?`.
abbrev pub is_err : {F A : Type 0} → Outcome F A → Outcome F Bool
is_err (done a) = done false
is_err (fail e) = done true
is_err (panic p) = panic p

-- The solver of a test, and the rest of the world.
pub record Bench (E : Env) : Type 0 where
  pub solv : IpApiSolverOf MockSolver
  pub rest : State E

module _ (E : Env) where
  abbrev pub parsed : String → Exec (State E) SolverError IpAddr
  parsed text = unwrap (E.parse_ip text)

  abbrev pub response : Answer → Exec (State E) SolverError IpProviderResponse
  response answer st = let (r, st1) = response_new E cache_timeout answer st in (done r, st1)

  abbrev pub on_bench :
      List IpProviderResponse → Exec (Bench E) SolverError Unit → Exec (State E) SolverError Unit
  on_bench responses test st =
      let (r, bench) = test (record { solv = with_test_provider (new responses); rest = st }) in
      (r, bench.rest)

  -- `solv.get_addresses(..).await`
  abbrev pub asked : Exec (Bench E) SolverError (List IpAddr)
  asked bench =
      let (r, solv, st) = get_addresses E bench.solv ipv4 bench.rest in
      (r, record { solv = solv; rest = st })

  abbrev pub refused : Exec (Bench E) SolverError Bool
  refused bench = let (r, after) = asked bench in (is_err r, after)

  -- `tokio::time::sleep(CACHE_TIMEOUT + SLEEP_EXTRA).await`
  abbrev pub outwait : Exec (Bench E) SolverError Unit
  outwait bench =
      let woken = E.sleep (cache_timeout + sleep_extra) bench.rest.world in
      (done tt, record bench { rest = with_world bench.rest woken })

  -- `solv.cache.expect(..).timeout`
  abbrev pub cached_timeout : Exec (Bench E) SolverError ℕ
  cached_timeout bench = (unwrap bench.solv.cache >>= λ cached. pure cached.timeout) bench

  unfoldable pub uses_cache : Exec (State E) SolverError Unit
  unfolding ◌>>=◌
  uses_cache = do
    expected ← parsed "0.0.0.0"
    first ← response (ok (expected ∷ []))
    other ← parsed "1.1.1.1"
    second ← response (ok (other ∷ []))
    on_bench (first ∷ second ∷ []) do
      result ← asked
      assert (result =? expected ∷ [])
      result ← asked
      assert (result =? expected ∷ [])

  unfoldable pub cache_invalidates : Exec (State E) SolverError Unit
  unfolding ◌>>=◌
  cache_invalidates = do
    expected ← parsed "0.0.0.0"
    other ← parsed "1.1.1.1"
    first ← response (ok (other ∷ []))
    second ← response (ok (expected ∷ []))
    on_bench (first ∷ second ∷ [])
        do asked; outwait; result ← asked; assert (result =? expected ∷ [])

  unfoldable pub errors_on_ratelimit : Exec (State E) SolverError Unit
  unfolding ◌>>=◌
  errors_on_ratelimit = do
    first ← response (err rate_limited)
    on_bench (first ∷ []) do is_err ← refused; assert is_err

  unfoldable pub waits_after_ratelimit : Exec (State E) SolverError Unit
  unfolding ◌>>=◌
  waits_after_ratelimit = do
    expected ← parsed "0.0.0.0"
    first ← response (err rate_limited)
    second ← response (ok (expected ∷ []))
    on_bench (first ∷ second ∷ []) do
      failed ← refused
      assert failed
      failed ← refused
      assert failed
      outwait
      result ← asked
      assert (result =? expected ∷ [])

  unfoldable pub exponential_backoff_on_repeated_ratelimit : Exec (State E) SolverError Unit
  unfolding ◌>>=◌
  exponential_backoff_on_repeated_ratelimit = do
    expected ← parsed "0.0.0.0"
    first ← response (err rate_limited)
    second ← response (err rate_limited)
    third ← response (ok (expected ∷ []))
    on_bench (first ∷ second ∷ third ∷ []) do
      failed ← refused
      assert failed
      outwait
      failed ← refused
      assert failed
      timeout ← cached_timeout
      assert (timeout == cache_timeout * 2)
