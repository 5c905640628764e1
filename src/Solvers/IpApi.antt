-- ===== src/Solvers/IpApi.antt =====
-- crates/manager/src/external_ip_source/solvers/ip_api: the two address providers
-- (provider_ipify.rs and provider_myip.rs) and the caching solver over them.
pub mod Cache
pub mod Sending
pub mod Backoff
pub mod Held
pub mod Requests
pub mod Spacing
use externalip_manager.Prelude.{
  ℕ, ◌+◌, ◌-◌, ◌*◌, min, String, Bool, true, false, Option, none, some, List, [], ◌∷◌,
}
use externalip_manager.Prelude.{◌==◌, ltb, if◌then◌else◌}
use externalip_manager.Prelude.Outcome.{Result, ok, err, Outcome, done, fail}
use externalip_manager.Net.{IpAddr, AddressKind, ipv4, ipv6}
use externalip_manager.Errors.{
  IpProviderError, rate_limited, request_failed, invalid_response, SolverError, of_provider,
}
use externalip_manager.Crd.{IpSolverProvider}
use externalip_manager.Kube.{requested}
use externalip_manager.Env.{Env, ReqwestError, IpifyResponse, MyIpResponse}
use externalip_manager.Solver.{IpProvider, my_ip, ipify, IpProviderResponse, IpApiSolver}
use externalip_manager.State.{State, with_world, record_effect}
use externalip_manager.Solvers.Caching.{Answer, Provider, from_secs, response_new}

-- `CACHE_DURATION` of the two providers.
abbrev pub cache_duration : IpProvider → ℕ
cache_duration my_ip = from_secs 900
cache_duration ipify = from_secs 300

-- `impl From<reqwest::Error> for IpProviderError`
unfoldable pub of_reqwest : ReqwestError → IpProviderError
of_reqwest e = if e.is_decode then invalid_response e.text else request_failed e.text

abbrev pub my_ip_url : AddressKind → String
my_ip_url ipv4 = "https://api4.my-ip.io/v2/ip.json"
my_ip_url ipv6 = "https://api6.my-ip.io/v2/ip.json"

abbrev pub ipify_url : AddressKind → String
ipify_url ipv4 = "https://api.ipify.org?format=json"
ipify_url ipv6 = "https://api6.ipify.org?format=json"

-- `IpApiSolver::new`
abbrev pub new : IpSolverProvider → IpApiSolver
new IpSolverProvider.my_ip = record { inner = my_ip; cache = none }
new IpSolverProvider.ipify = record { inner = ipify; cache = none }

module _ (E : Env) where
  abbrev pub sent : String → State E → Result ReqwestError E.Response × State E
  sent url st =
      let (answer, w) = E.send url (from_secs 10) st.world in
      (answer, record_effect (requested url) (with_world st w))

  -- What follows `send`: the status, the body, the address in it.
  abbrev pub decode_ipify : Result ReqwestError IpifyResponse → Answer
  decode_ipify (ok resp) = ok (resp.ip ∷ [])
  decode_ipify (err e) = err (of_reqwest e)

  abbrev pub decode_my_ip : Result ReqwestError MyIpResponse → Answer
  decode_my_ip (ok resp) = ok (resp.ip ∷ [])
  decode_my_ip (err e) = err (of_reqwest e)

  abbrev pub body_of : IpProvider → Result ReqwestError E.Response → State E → Answer × State E
  body_of provider (err e) st = (err (of_reqwest e), st)
  body_of ipify (ok body) st =
      let (json, w) = E.json_ipify body st.world in (decode_ipify json, with_world st w)
  body_of my_ip (ok body) st =
      let (json, w) = E.json_my_ip body st.world in (decode_my_ip json, with_world st w)

  -- The test for status 429.
  abbrev pub limited_or :
      IpProvider → Bool → Result ReqwestError E.Response → State E → Answer × State E
  limited_or provider true body st = (err rate_limited, st)
  limited_or provider false body st = body_of provider body st

  abbrev pub answer_of : IpProvider → Result ReqwestError E.Response → State E → Answer × State E
  answer_of provider (err e) st = (err (of_reqwest e), st)
  answer_of provider (ok res) st =
      limited_or provider (E.status res == 429) (E.error_for_status res) st

  abbrev pub url_of : IpProvider → AddressKind → String
  url_of my_ip = my_ip_url
  url_of ipify = ipify_url

  -- `get_addresses` of the two providers; every one of its returns wraps an answer with the
  -- provider's `CACHE_DURATION`.
  unfoldable pub provider_get_addresses :
      IpProvider → AddressKind → State E → IpProviderResponse × State E
  unfolding response_new
  provider_get_addresses self kind st =
      let (res, st1) = sent (url_of self kind) st in
      let (answer, st2) = answer_of self res st1 in response_new E (cache_duration self) answer st2

instance abbrev pub ip_provider : {E : Env} → Provider E IpProvider
ip_provider {E} = record {
  get_addresses = λ self kind st.
      let (resp, st1) = provider_get_addresses E self kind st in (some resp, self, st1);
}
