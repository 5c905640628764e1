-- ===== src/Solvers/Interface/Outside.antt =====
-- The addresses that the interface solver returns
-- (crates/manager/src/external_ip_source/solvers/interface.rs).
use mathlib.Core.Path.{subst}
use externalip_manager.Prelude.{
  ◌≡◌, refl, ◌∙◌, ap, sym, ℕ, ◌^◌, ◌<◌, Bool, true, false, not, String, Option, none, some, List,
  [], ◌∷◌, All, map,
}
use externalip_manager.Prelude.Outcome.{Outcome, done, Result, ok, err}
use externalip_manager.Prelude.Binds.{>>=-done}
use externalip_manager.Net.{IpAddr, AddressKind, v4, v6, ipv4, ipv6}
use externalip_manager.Errors.{SolverError, Reason, addresses_unavailable}
use externalip_manager.Env.{Env}
use externalip_manager.Solver.{Interface as InterfaceStruct}
use externalip_manager.State.{State}
use externalip_manager.Solvers.Interface.{
  filter_ipv4, filter_ipv6, told, by_name, addrs_v4, addrs_v6, collect, get_addresses,
}
use externalip_manager.Solvers.Interface.Ranges.{
  any_covers, reserved_v4, reserved_v6, filter_ipv4-reserved, filter_ipv6-reserved,
}

-- An answer of getifs lists only addresses that pass the filter.
abbrev pub Passing : (ℕ → Bool) → Result String (List ℕ) → Type 0
Passing p (ok addrs) = All (λ a. p a ≡ true) addrs
Passing p (err e) = Unit

-- An answer lists only numbers of 128 bits.
abbrev pub Wide : Result String (List ℕ) → Type 0
Wide (ok addrs) = All (λ a. a < 2 ^ 128) addrs
Wide (err e) = Unit

-- What getifs does with a filter.
pub record IsFiltering (E : Env) : Type 0 where
  pub ipv4_passing :
      (i : E.Interface) (p : ℕ → Bool) (w : E.World) → Passing p (E.ipv4_addrs_by_filter i p w).0
  pub local_ipv4_passing :
      (p : ℕ → Bool) (w : E.World) → Passing p (E.local_ipv4_addrs_by_filter p w).0
  pub ipv6_passing :
      (i : E.Interface) (p : ℕ → Bool) (w : E.World) → Passing p (E.ipv6_addrs_by_filter i p w).0
  pub local_ipv6_passing :
      (p : ℕ → Bool) (w : E.World) → Passing p (E.local_ipv6_addrs_by_filter p w).0
  pub ipv6_wide :
      (i : E.Interface) (p : ℕ → Bool) (w : E.World) → Wide (E.ipv6_addrs_by_filter i p w).0
  pub local_ipv6_wide : (p : ℕ → Bool) (w : E.World) → Wide (E.local_ipv6_addrs_by_filter p w).0

-- The address lies in none of the ranges that the filters leave out.
abbrev pub IsOutside : IpAddr → Type 0
IsOutside (v4 a) = any_covers reserved_v4 a ≡ false
IsOutside (v6 a) = any_covers reserved_v6 a ≡ false

not-true : (b : Bool) → not b ≡ true → b ≡ false
not-true false h = refl
not-true true h = cc h

passed_v4 : (addrs : List ℕ) → All (λ a. filter_ipv4 a ≡ true) addrs → All IsOutside (map v4 addrs)
passed_v4 [] h = tt
passed_v4 (a ∷ addrs) h = (not-true _ (sym (filter_ipv4-reserved a) ∙ h.0), passed_v4 addrs h.1)

passed_v6 :
    (addrs : List ℕ)
    → All (λ a. filter_ipv6 a ≡ true) addrs
    → All (λ a. a < 2 ^ 128) addrs
    → All IsOutside (map v6 addrs)
passed_v6 [] h k = tt
passed_v6 (a ∷ addrs) h k =
    (not-true _ (sym (filter_ipv6-reserved a k.0) ∙ h.0), passed_v6 addrs h.1 k.1)

same_answer :
    {E : Env} {xs ys : List ℕ} {st t : State E}
    → ◌≡◌ {A = Outcome SolverError (List ℕ) × State E} (done xs, st) (done ys, t)
    → ◌≡◌ {A = Result String (List ℕ)} (ok xs) (ok ys)
same_answer e = cc (ap (λ p. p.0) e)

module _ (E : Env) where
  told-done :
      (P : Result String (List ℕ) → Type 0) (why : String → Reason) (r : Result String (List ℕ))
      (st : State E) {addrs : List ℕ} {t : State E}
      → P r
      → told E why r st ≡ (done addrs, t)
      → P (ok addrs)
  told-done P why (ok xs) st h e = subst P (same_answer {E = E} e) h
  told-done P why (err x) st h e = cc (ap (λ (p : Outcome SolverError (List ℕ) × State E). p.0) e)

  module _ (law : IsFiltering E) where
    addrs_v4-done :
        (name : Option String) (st : State E) {addrs : List ℕ} {t : State E}
        → addrs_v4 E name st ≡ (done addrs, t)
        → Passing filter_ipv4 (ok addrs)
    addrs_v4-done none st e =
        told-done (Passing filter_ipv4) addresses_unavailable _ _
          (law.local_ipv4_passing filter_ipv4 st.world) e
    addrs_v4-done (some name) st e =
        let (i, u, got, more) = >>=-done (by_name E name) _ st e in
        told-done (Passing filter_ipv4) addresses_unavailable _ _
          (law.ipv4_passing i filter_ipv4 u.world) more

    abbrev Public6 : Result String (List ℕ) → Type 0
    Public6 r = Passing filter_ipv6 r × Wide r

    addrs_v6-done :
        (name : Option String) (st : State E) {addrs : List ℕ} {t : State E}
        → addrs_v6 E name st ≡ (done addrs, t)
        → Public6 (ok addrs)
    addrs_v6-done none st e =
        told-done Public6 addresses_unavailable _ _
          (law.local_ipv6_passing filter_ipv6 st.world, law.local_ipv6_wide filter_ipv6 st.world) e
    addrs_v6-done (some name) st e =
        let (i, u, got, more) = >>=-done (by_name E name) _ st e in
        told-done Public6 addresses_unavailable _ _
          (law.ipv6_passing i filter_ipv6 u.world, law.ipv6_wide i filter_ipv6 u.world) more

    mapped-done :
        (family : ℕ → IpAddr) (xs : List ℕ) (st : State E) {addrs : List IpAddr} {t : State E}
        → All IsOutside (map family xs)
        → collect E family xs st ≡ (done addrs, t)
        → All IsOutside addrs
    mapped-done family xs st h e =
        subst (All IsOutside)
          (inner (ap (λ (p : Outcome SolverError (List IpAddr) × State E). p.0) e)) h
      where
        inner :
            {x y : List IpAddr}
            → ◌≡◌ {A = Outcome SolverError (List IpAddr)} (done x) (done y)
            → x ≡ y
        inner e = cc e

    -- If getifs lists only addresses that pass the filter it is given, and IPv6 addresses of 128
    -- bits: of the addresses that the interface solver returns, no IPv4 address is private
    -- (RFC 1918), 255.255.255.255, in 127.0.0.0/8, 224.0.0.0/4 or 169.254.0.0/16, 0.0.0.0, or in
    -- 192.0.2.0/24, 198.51.100.0/24 or 203.0.113.0/24, and no IPv6 address is in fe80::/10,
    -- ff00::/8 or fc00::/7, ::1 or ::. Other ranges that are not public, such as 240.0.0.0/4 and
    -- 2001:db8::/32, are not among these.
    pub get_addresses-IsOutside :
        (self : InterfaceStruct) (kind : AddressKind) (st t : State E) (addrs : List IpAddr)
        → get_addresses E self kind st ≡ (done addrs, t)
        → All IsOutside addrs
    unfolding get_addresses
    get_addresses-IsOutside self ipv4 st t addrs e =
        let (xs, u, got, more) = >>=-done (addrs_v4 E self.identifier) (collect E v4) st e in
        mapped-done v4 xs u (passed_v4 xs (addrs_v4-done self.identifier st got)) more
    get_addresses-IsOutside self ipv6 st t addrs e =
        let (xs, u, got, more) = >>=-done (addrs_v6 E self.identifier) (collect E v6) st e in
        let p = addrs_v6-done self.identifier st got in
        mapped-done v6 xs u (passed_v6 xs p.0 p.1) more
