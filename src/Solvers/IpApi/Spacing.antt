-- ===== src/Solvers/IpApi/Spacing.antt =====
-- The time between the requests of one `ipAPI` solver.
use mathlib.Core.Path.{subst}
use externalip_manager.Prelude.{
  ap, ◌≤◌, ◌⊎◌, inl, inr, ◌≡◌, refl, sym, none, some, Option, List, [], ◌∷◌, arith, length, ◌==◌,
  true, false, Bool-cases,
}
use externalip_manager.Net.{AddressKind}
use externalip_manager.Kube.{requested}
use externalip_manager.Env.{Env}
use externalip_manager.Solver.{IpProvider, IpProviderResponse, IpApiSolver}
use externalip_manager.State.{State}
use externalip_manager.Solvers.Caching.{get_addresses, cached_reply}
use externalip_manager.Solvers.Caching.Entries.{Cacheable, get_addresses_fresh}
use externalip_manager.Solvers.IpApi.{cache_duration, url_of, ip_provider}
use externalip_manager.Solvers.IpApi.Sending.{
  IsStale, cached_reply_stale, get_addresses-eq-refetch, trace-get_addresses_stale,
}
use externalip_manager.Solvers.IpApi.Backoff.{inner_lem}
use externalip_manager.Solvers.IpApi.Held.{
  IsMonotone, lasts, Stored, time, Patient, refetch-Stored, refetch_lost,
}
use externalip_manager.Solvers.IpApi.Requests.{
  below_or, same_length, longer, length-snoc, Request, Since, Apart, Since-le, noted, KeptSince,
  kept-Patient, Stored-KeptSince, kept-Cacheable,
}

module _ (E : Env) where
  abbrev pub request_of : IpApiSolver → AddressKind → State E → Request
  request_of s kind st = record { at = time st; kept = lasts (get_addresses E s kind st).0 }

  -- Any row of calls of a solver that began with an empty cache, with any changes of the world
  -- between them; the requests, the latest first, and the solver that the row left. A call sent a
  -- request if the trace has grown.
  pub data Row : List Request → IpApiSolver → Type 0 where
    begun : {s : IpApiSolver} → s.cache ≡ none → Row [] s
    next :
        {requests : List Request} {s t : IpApiSolver} (kind : AddressKind) (st : State E)
        → Row requests s
        → (get_addresses E s kind st).1 ≡ t
        → Row
            (noted
              (length st.trace == length (get_addresses E s kind st).2.trace)
              (request_of s kind st)
              requests)
            t

record IsSpaced (requests : List Request) (s : IpApiSolver) : Type 0 where
  apart : Apart (cache_duration s.inner) requests
  kept : KeptSince s.inner requests s.cache

module _ (E : Env) (mono : IsMonotone E) where
  -- Before a call that finds no fresh answer.
  stale-Since :
      (p : IpProvider) (requests : List Request) (cache : Option IpProviderResponse) (st : State E)
      → KeptSince p requests cache
      → IsStale E cache st
      → Since (cache_duration p) (time st) requests
  stale-Since p [] cache st h stale = tt
  stale-Since p (request ∷ before) none st h stale = λ kept. cc (h, kept)
  stale-Since p (request ∷ before) (some c) st h stale =
      Since-le (cache_duration p) c.expires_at (time st) (request ∷ before) (omega (arith, stale))
        h.2

  cached_later :
      (cache : Option IpProviderResponse) (st : State E)
      → time st ≤ time (cached_reply E cache st).1
  unfolding cached_reply
  cached_later none st = omega arith
  cached_later (some c) st = mono.now st.world

  stale-Stored :
      (s : IpApiSolver) (kind : AddressKind) (st : State E)
      → IsStale E s.cache st
      → Patient s.inner s.cache
      → lasts (get_addresses E s kind st).0 ≡ true
      → Stored s.inner (time st) (get_addresses E s kind st).1.cache
  stale-Stored s kind st stale patient =
      rw (get_addresses-eq-refetch E s kind st (cached_reply_stale E s.cache st stale)) (
        refetch-Stored E mono s kind (time st) (cached_reply E s.cache st).1
          (cached_later s.cache st) patient)

  stale_lost :
      (s : IpApiSolver) (kind : AddressKind) (st : State E)
      → IsStale E s.cache st
      → lasts (get_addresses E s kind st).0 ≡ false
      → (get_addresses E s kind st).1.cache ≡ none
  stale_lost s kind st stale =
      rw (get_addresses-eq-refetch E s kind st (cached_reply_stale E s.cache st stale))
        (refetch_lost E mono s kind (cached_reply E s.cache st).1)

  asked-KeptSince :
      (requests : List Request) (s : IpApiSolver) (kind : AddressKind) (st : State E)
      → IsStale E s.cache st
      → Patient s.inner s.cache
      → KeptSince s.inner (request_of E s kind st ∷ requests) (get_addresses E s kind st).1.cache
  asked-KeptSince requests s kind st stale patient =
      elim (Bool-cases (lasts (get_addresses E s kind st).0)) [
        | inl lasting ↦
            Stored-KeptSince s.inner (request_of E s kind st) requests _
              (stale-Stored s kind st stale patient lasting)
        | inr lost ↦ rw (stale_lost s kind st stale lost) lost
      ]

  stale-Apart :
      (requests : List Request) (s : IpApiSolver) (kind : AddressKind) (st : State E)
      → IsSpaced requests s
      → IsStale E s.cache st
      → Apart (cache_duration s.inner) (request_of E s kind st ∷ requests)
  stale-Apart requests s kind st h stale =
      (stale-Since s.inner requests s.cache st h.kept stale, h.apart)

  stale-IsSpaced :
      (requests : List Request) (s : IpApiSolver) (kind : AddressKind) (st : State E)
      → IsSpaced requests s
      → IsStale E s.cache st
      → IsSpaced (request_of E s kind st ∷ requests) (get_addresses E s kind st).1
  stale-IsSpaced requests s kind st h stale =
      let same = inner_lem E s kind st in
      record {
        apart =
            subst (λ p. Apart (cache_duration p) (request_of E s kind st ∷ requests)) (sym same)
              (stale-Apart requests s kind st h stale);
        kept = rw same (
            asked-KeptSince requests s kind st stale
              (kept-Patient s.inner requests s.cache h.kept));
      }

  -- The requests after a call.
  after : List Request → IpApiSolver → AddressKind → State E → List Request
  after requests s kind st =
      noted (length st.trace == length (get_addresses E s kind st).2.trace) (request_of E s kind st)
        requests

  sent-after :
      (requests : List Request) (s : IpApiSolver) (kind : AddressKind) (st : State E)
      → IsStale E s.cache st
      → after requests s kind st ≡ request_of E s kind st ∷ requests
  unfolding after
  sent-after requests s kind st stale =
      ap (λ b. noted b (request_of E s kind st) requests)
        (longer (length st.trace) (length (get_addresses E s kind st).2.trace) (
          rw (trace-get_addresses_stale E s kind st stale)
            (length-snoc st.trace (requested (url_of E s.inner kind)))))

  -- What a call that finds a fresh answer leaves.
  fresh_lem :
      (s : IpApiSolver) (kind : AddressKind) (st : State E) {c : IpProviderResponse}
      → s.cache ≡ some c
      → time st ≤ c.expires_at
      → Cacheable c.response
      → ((get_addresses E s kind st).1 ≡ s) × ((get_addresses E s kind st).2.trace ≡ st.trace)
  fresh_lem s kind st cached fresh keeps =
      let same = get_addresses_fresh E s kind st cached fresh keeps in
      (ap (λ r. r.1) same, ap (λ r. r.2.trace) same)

  fresh-IsSpaced :
      (requests : List Request) (s : IpApiSolver) (kind : AddressKind) (st : State E)
      {c : IpProviderResponse}
      → IsSpaced requests s
      → s.cache ≡ some c
      → time st ≤ c.expires_at
      → IsSpaced (after requests s kind st) (get_addresses E s kind st).1
  unfolding after
  fresh-IsSpaced requests s kind st h cached fresh =
      let left =
        fresh_lem s kind st cached fresh (kept-Cacheable s.inner requests s.cache cached h.kept) in
      let same =
        same_length (length st.trace) (length (get_addresses E s kind st).2.trace)
          (ap length left.1) in
      subst
        (λ b. IsSpaced (noted b (request_of E s kind st) requests) (get_addresses E s kind st).1)
        (sym same) (subst (IsSpaced requests) (sym left.0) h)

  -- The cache has an answer that has not expired.
  Fresh : Option IpProviderResponse → State E → Type 0
  Fresh cache st = (c : IpProviderResponse) × (cache ≡ some c) × (time st ≤ c.expires_at)

  cache-cases :
      (cache : Option IpProviderResponse) (st : State E) → IsStale E cache st ⊎ Fresh cache st
  unfolding Fresh
  cache-cases none st = inl tt
  cache-cases (some c) st = elim (below_or c.expires_at (time st)) [
    | inl late ↦ inl late
    | inr early ↦ inr (c, refl, early)
  ]

  next-IsSpaced :
      (requests : List Request) (s : IpApiSolver) (kind : AddressKind) (st : State E)
      → IsSpaced requests s
      → IsSpaced (after requests s kind st) (get_addresses E s kind st).1
  unfolding Fresh
  next-IsSpaced requests s kind st h = elim (cache-cases s.cache st) [
    | inl stale ↦
        subst (λ rs. IsSpaced rs (get_addresses E s kind st).1)
          (sym (sent-after requests s kind st stale)) (stale-IsSpaced requests s kind st h stale)
    | inr (c, cached, early) ↦ fresh-IsSpaced requests s kind st h cached early
  ]

  Row-IsSpaced :
      {requests : List Request} {s : IpApiSolver} → Row E requests s → IsSpaced requests s
  unfolding after
  Row-IsSpaced (begun {s} empty) = record {
    apart = tt;
    kept = subst (KeptSince s.inner []) (sym empty) tt;
  }
  Row-IsSpaced (next {requests} {s} kind st row left) =
      subst (IsSpaced _) left (next-IsSpaced requests s kind st (Row-IsSpaced row))

  -- If the clock does not go back during a call: in any row of calls of one solver that began with
  -- an empty cache, with any changes of the world between the calls, each request was sent by a
  -- call that began at least the provider's cache duration after the call that sent the request
  -- before it, unless that one came back with neither addresses nor a rate limit.
  pub Row-Apart :
      {requests : List Request} {s : IpApiSolver}
      → Row E requests s
      → Apart (cache_duration s.inner) requests
  Row-Apart row = (Row-IsSpaced row).apart
