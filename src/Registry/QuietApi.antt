-- ===== src/Registry/QuietApi.antt =====
-- The `ipAPI` solver leaves the registry alone and ends calmly
-- (crates/manager/src/external_ip_source/solvers/ip_api).
use externalip_manager.Prelude.{refl, Option, none, some, List, Bool, true, false, ℕ, ◌==◌}
use externalip_manager.Prelude.Outcome.{Outcome, Result, ok, err}
use externalip_manager.Net.{IpAddr, AddressKind}
use externalip_manager.Errors.{SolverError, rate_limited, request_failed, invalid_response}
use externalip_manager.Env.{Env, ReqwestError}
use externalip_manager.Solver.{IpProvider, my_ip, ipify, IpProviderResponse, IpApiSolver}
use externalip_manager.State.{State}
use externalip_manager.Solvers.Caching
use externalip_manager.Solvers.IpApi.{ip_provider}
use externalip_manager.Solvers.IpApi
use externalip_manager.Solvers.Caching.{Answer}
use externalip_manager.Registry.Matches.{Calm, Frame, Frame-refl, Frame-trans}
use externalip_manager.Registry.Quiet.{IsQuiet}

module _ (E : Env) where
  body-Frame :
      (p : IpProvider) (res : Result ReqwestError E.Response) (st : State E)
      → Frame st (IpApi.body_of E p res st).1
  body-Frame p (err e) st = Frame-refl st
  body-Frame my_ip (ok body) st = record { solvers = refl; sources = refl }
  body-Frame ipify (ok body) st = record { solvers = refl; sources = refl }

  unless_429 :
      (p : IpProvider) (late : Bool) (res : Result ReqwestError E.Response) (st : State E)
      → Frame st (IpApi.limited_or E p late res st).1
  unless_429 p true res st = Frame-refl st
  unless_429 p false res st = body-Frame p res st

  answer-Frame :
      (p : IpProvider) (res : Result ReqwestError E.Response) (st : State E)
      → Frame st (IpApi.answer_of E p res st).1
  answer-Frame p (err e) st = Frame-refl st
  answer-Frame p (ok res) st = unless_429 p (E.status res == 429) (E.error_for_status res) st

  provider-Frame :
      (p : IpProvider) (kind : AddressKind) (st : State E)
      → Frame st (IpApi.provider_get_addresses E p kind st).1
  unfolding IpApi.provider_get_addresses
  provider-Frame p kind st =
      let f = answer-Frame p (E.send _ _ _).0 _ in
      record { solvers = f.solvers; sources = f.sources }

  doubled-Frame :
      (timeout : ℕ) (answer : Answer) (resp : IpProviderResponse) (st : State E)
      → Frame st (Caching.doubled E timeout answer resp st).1
  unfolding Caching.response_new
  doubled-Frame timeout (ok addrs) resp st = Frame-refl st
  doubled-Frame timeout (err rate_limited) resp st = record { solvers = refl; sources = refl }
  doubled-Frame timeout (err (request_failed e)) resp st = Frame-refl st
  doubled-Frame timeout (err (invalid_response e)) resp st = Frame-refl st

  back_off-Frame :
      (old : Option IpProviderResponse) (resp : IpProviderResponse) (st : State E)
      → Frame st (Caching.back_off E old resp st).1
  unfolding Caching.back_off
  back_off-Frame none resp st = Frame-refl st
  back_off-Frame (some c) resp st = doubled-Frame c.timeout c.response resp st

  abbrev both : {A B : Type 0} → A × B × State E → A × State E
  both (a, b, st) = (a, st)

  settle-IsQuiet :
      (old : Option IpProviderResponse) (resp : IpProviderResponse) (answer : Answer) (st : State E)
      → IsQuiet E st (both (Caching.settle E old resp answer st))
  settle-IsQuiet old resp (ok addrs) st = record { calm = tt; frame = Frame-refl st }
  settle-IsQuiet old resp (err rate_limited) st = record {
    calm = tt;
    frame = back_off-Frame old resp st;
  }
  settle-IsQuiet old resp (err (request_failed e)) st = record { calm = tt; frame = Frame-refl st }
  settle-IsQuiet old resp (err (invalid_response e)) st = record {
    calm = tt;
    frame = Frame-refl st;
  }

  refetch-IsQuiet :
      (self : IpApiSolver) (kind : AddressKind) (st : State E)
      → IsQuiet E st (both (Caching.refetch E self kind st))
  unfolding Caching.refetch
  refetch-IsQuiet self kind st =
      let q = settle-IsQuiet self.cache _ _ _ in
      record { calm = q.calm; frame = Frame-trans (provider-Frame self.inner kind st) q.frame }

  abbrev CalmReply : Option (Outcome SolverError (List IpAddr)) → Type 0
  CalmReply none = Unit
  CalmReply (some r) = Calm r

  reuse_calm : (answer : Answer) → CalmReply (Caching.reuse E answer)
  reuse_calm (ok addrs) = tt
  reuse_calm (err rate_limited) = tt
  reuse_calm (err (request_failed e)) = tt
  reuse_calm (err (invalid_response e)) = tt

  unless_calm : (late : Bool) (answer : Answer) → CalmReply (Caching.unless_late E late answer)
  unless_calm true answer = tt
  unless_calm false answer = reuse_calm answer

  cached_calm :
      (cache : Option IpProviderResponse) (st : State E)
      → CalmReply (Caching.cached_reply E cache st).0
  unfolding Caching.cached_reply
  cached_calm none st = tt
  cached_calm (some c) st = unless_calm _ c.response

  cached-Frame :
      (cache : Option IpProviderResponse) (st : State E)
      → Frame st (Caching.cached_reply E cache st).1
  unfolding Caching.cached_reply
  cached-Frame none st = Frame-refl st
  cached-Frame (some c) st = record { solvers = refl; sources = refl }

  reply-IsQuiet :
      (self : IpApiSolver) (kind : AddressKind) (r : Option (Outcome SolverError (List IpAddr)))
      (st t : State E)
      → CalmReply r
      → Frame st t
      → IsQuiet E st (both (Caching.answered E self kind r t))
  reply-IsQuiet self kind none st t c f =
      let q = refetch-IsQuiet self kind t in record { calm = q.calm; frame = Frame-trans f q.frame }
  reply-IsQuiet self kind (some r) st t c f = record { calm = c; frame = f }

  pub ip_api-IsQuiet :
      (self : IpApiSolver) (kind : AddressKind) (st : State E)
      → IsQuiet E st (both (Caching.get_addresses E self kind st))
  unfolding Caching.get_addresses
  ip_api-IsQuiet self kind st =
      reply-IsQuiet self kind _ st _ (cached_calm self.cache st) (cached-Frame self.cache st)
