-- ===== src/Solvers/IpApi/Requests.antt =====
-- The requests of a row of calls of one `ipAPI` solver, and what its cache says of them.
use mathlib.Core.Path.{subst}
use externalip_manager.Prelude.{
  ℕ, ◌+◌, ◌≤◌, ◌<◌, ◌⊎◌, ◌≡◌, refl, none, some, Option, List, [], ◌∷◌, ◌++◌, arith, length, ◌==◌,
  Bool, true, false,
}
use externalip_manager.Kube.{Effect}
use externalip_manager.Solver.{IpProvider, IpProviderResponse}
use externalip_manager.Solvers.Caching.Entries.{Cacheable}
use externalip_manager.Solvers.IpApi.{cache_duration, ip_provider}
use externalip_manager.Solvers.IpApi.Held.{Stored, Patient}

pub below_or : (a b : ℕ) → (a < b) ⊎ (b ≤ a)
below_or a b = ground arith

pub same_length : (a b : ℕ) → b ≡ a → (a == b) ≡ true
same_length a b h = ground arith

pub longer : (a b : ℕ) → b ≡ a + 1 → (a == b) ≡ false
longer a b h = ground arith

pub length-snoc : (es : List Effect) (e : Effect) → length (es ++ e ∷ []) ≡ length es + 1
length-snoc [] e = refl
length-snoc (x ∷ es) e = omega (arith, length-snoc es e)

-- A request: when the call that sent it began, and whether the call came back with addresses or
-- a rate limit.
pub record Request : Type 0 where
  pub at : ℕ
  pub kept : Bool

-- The latest of the requests, unless its answer was lost, was sent this long before a time.
abbrev pub Since : ℕ → ℕ → List Request → Type 0
Since d now [] = Unit
Since d now (request ∷ before) = request.kept ≡ true → request.at + d ≤ now

-- Of the requests, the latest first, each was sent this long after the one before it, unless the
-- answer of the one before was lost.
abbrev pub Apart : ℕ → List Request → Type 0
Apart d [] = Unit
Apart d (request ∷ before) = Since d request.at before × Apart d before

pub Since-le :
    (d a b : ℕ) (requests : List Request) → a ≤ b → Since d a requests → Since d b requests
Since-le d a b [] le h = tt
Since-le d a b (request ∷ before) le h = λ kept. omega (arith, h kept)

abbrev pub noted : Bool → Request → List Request → List Request
noted true request before = before
noted false request before = request ∷ before

-- What a row of calls leaves in the cache.
abbrev pub KeptSince : IpProvider → List Request → Option IpProviderResponse → Type 0
KeptSince p [] none = Unit
KeptSince p (request ∷ before) none = request.kept ≡ false
KeptSince p requests (some c) =
    Cacheable c.response
    × (cache_duration p ≤ c.timeout)
    × Since (cache_duration p) c.expires_at requests

pub kept-Patient :
    (p : IpProvider) (requests : List Request) (cache : Option IpProviderResponse)
    → KeptSince p requests cache
    → Patient p cache
kept-Patient p [] none h = tt
kept-Patient p (request ∷ before) none h = tt
kept-Patient p [] (some c) h = h.1
kept-Patient p (request ∷ before) (some c) h = h.1

pub Stored-KeptSince :
    (p : IpProvider) (request : Request) (before : List Request) (cache : Option IpProviderResponse)
    → Stored p request.at cache
    → KeptSince p (request ∷ before) cache
Stored-KeptSince p request before none h = absurd h
Stored-KeptSince p request before (some c) h =
    (h.cacheable, h.enough, λ kept. omega (arith, h.enough, h.made))

pub kept-Cacheable :
    (p : IpProvider) (requests : List Request) (cache : Option IpProviderResponse)
    {c : IpProviderResponse}
    → cache ≡ some c
    → KeptSince p requests cache
    → Cacheable c.response
kept-Cacheable p [] cache {c} cached h = (subst (KeptSince p []) cached h).0
kept-Cacheable p (request ∷ before) cache {c} cached h =
    (subst (KeptSince p (request ∷ before)) cached h).0
