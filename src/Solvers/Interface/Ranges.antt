-- ===== src/Solvers/Interface/Ranges.antt =====
-- The addresses that the interface solver leaves out, as ranges of numbers
-- (crates/manager/src/external_ip_source/solvers/interface.rs).
use externalip_manager.Prelude.{
  ◌≡◌, refl, ap, ◌++◌, ℕ, ◌*◌, ◌-◌, ◌^◌, ◌<◌, Bool, false, not, ◌&&◌, ◌||◌, List, [], ◌∷◌, leb,
  arith,
}
use externalip_manager.Net.Classes.{
  is_private, is_broadcast, is_loopback_v4, is_multicast_v4, is_link_local, is_unspecified,
  is_documentation, is_unicast_link_local, is_loopback_v6, is_multicast_v6, is_unique_local,
}
use externalip_manager.Solvers.Interface.{filter_ipv4, filter_ipv6}

-- The first and the last address of a range.
abbrev pub Range : Type 0
Range = ℕ × ℕ

abbrev pub covers : Range → ℕ → Bool
covers (first, last) a = leb first a && leb a last

abbrev pub any_covers : List Range → ℕ → Bool
any_covers [] a = false
any_covers (r ∷ rs) a = covers r a || any_covers rs a

-- 10/8, 172.16/12 and 192.168/16
abbrev private_v4 : List Range
private_v4 =
    (0x0a00_0000, 0x0aff_ffff) ∷ (0xac10_0000, 0xac1f_ffff) ∷ (0xc0a8_0000, 0xc0a8_ffff) ∷ []

-- 255.255.255.255
abbrev broadcast : List Range
broadcast = (0xffff_ffff, 0xffff_ffff) ∷ []

-- 127/8
abbrev loopback_v4 : List Range
loopback_v4 = (0x7f00_0000, 0x7fff_ffff) ∷ []

-- 224/4
abbrev multicast_v4 : List Range
multicast_v4 = (0xe000_0000, 0xefff_ffff) ∷ []

-- 169.254/16
abbrev link_local : List Range
link_local = (0xa9fe_0000, 0xa9fe_ffff) ∷ []

-- 0.0.0.0, and ::
abbrev unspecified : List Range
unspecified = (0, 0) ∷ []

-- 192.0.2/24, 198.51.100/24 and 203.0.113/24
abbrev documentation : List Range
documentation =
    (0xc000_0200, 0xc000_02ff) ∷ (0xc633_6400, 0xc633_64ff) ∷ (0xcb00_7100, 0xcb00_71ff) ∷ []

-- fe80::/10
abbrev unicast_link_local : List Range
unicast_link_local = (0xfe80 * 2 ^ 112, 0xfec0 * 2 ^ 112 - 1) ∷ []

-- ::1
abbrev loopback_v6 : List Range
loopback_v6 = (1, 1) ∷ []

-- ff00::/8
abbrev multicast_v6 : List Range
multicast_v6 = (0xff00 * 2 ^ 112, 2 ^ 128 - 1) ∷ []

-- fc00::/7
abbrev unique_local : List Range
unique_local = (0xfc00 * 2 ^ 112, 0xfe00 * 2 ^ 112 - 1) ∷ []

abbrev pub reserved_v4 : List Range
reserved_v4 =
    private_v4 ++ broadcast ++ loopback_v4 ++ multicast_v4 ++ link_local ++ unspecified
    ++ documentation

abbrev pub reserved_v6 : List Range
reserved_v6 = unicast_link_local ++ loopback_v6 ++ multicast_v6 ++ unique_local ++ unspecified

private_lem : (a : ℕ) → is_private a ≡ any_covers private_v4 a
unfolding is_private
private_lem a = ground arith

documentation_lem : (a : ℕ) → is_documentation a ≡ any_covers documentation a
unfolding is_documentation
documentation_lem a = ground arith

broadcast_lem : (a : ℕ) → is_broadcast a ≡ any_covers broadcast a
unfolding is_broadcast
broadcast_lem a = ground arith

loopback_v4_lem : (a : ℕ) → is_loopback_v4 a ≡ any_covers loopback_v4 a
unfolding is_loopback_v4
loopback_v4_lem a = ground arith

multicast_v4_lem : (a : ℕ) → is_multicast_v4 a ≡ any_covers multicast_v4 a
unfolding is_multicast_v4
multicast_v4_lem a = ground arith

link_local_lem : (a : ℕ) → is_link_local a ≡ any_covers link_local a
unfolding is_link_local
link_local_lem a = ground arith

unspecified_lem : (a : ℕ) → is_unspecified a ≡ any_covers unspecified a
unfolding is_unspecified
unspecified_lem a = ground arith

unicast_link_local_lem : (a : ℕ) → is_unicast_link_local a ≡ any_covers unicast_link_local a
unfolding is_unicast_link_local
unicast_link_local_lem a = ground arith

loopback_v6_lem : (a : ℕ) → is_loopback_v6 a ≡ any_covers loopback_v6 a
unfolding is_loopback_v6
loopback_v6_lem a = ground arith

multicast_v6_lem : (a : ℕ) → a < 2 ^ 128 → is_multicast_v6 a ≡ any_covers multicast_v6 a
unfolding is_multicast_v6
multicast_v6_lem a h = ground arith

unique_local_lem : (a : ℕ) → is_unique_local a ≡ any_covers unique_local a
unfolding is_unique_local
unique_local_lem a = ground arith

any_covers-append :
    (xs ys : List Range) (a : ℕ) → any_covers (xs ++ ys) a ≡ (any_covers xs a || any_covers ys a)
any_covers-append [] ys a = refl
any_covers-append (x ∷ xs) ys a = ground (arith, any_covers-append xs ys a)

-- A test that the addresses outside the ranges pass.
record Passes (a : ℕ) (passed : Bool) (reserved : List Range) : Type 0 where
  outside : passed ≡ not (any_covers reserved a)

first : (a : ℕ) {c : Bool} (ys : List Range) → c ≡ any_covers ys a → Passes a (not c) ys
first a ys e = record { outside = ap not e }

joined : (p c x y z : Bool) → p ≡ not x → c ≡ y → z ≡ (x || y) → (p && not c) ≡ not z
joined p c x y z h e k = ground (arith, h, e, k)

-- One test more behind the others.
also :
    {a : ℕ} {passed c : Bool} {xs : List Range} (ys : List Range)
    → Passes a passed xs
    → c ≡ any_covers ys a
    → Passes a (passed && not c) (xs ++ ys)
also {a = a} {passed = passed} {c = c} {xs = xs} ys h e = record {
  outside = joined passed c _ _ _ h.outside e (any_covers-append xs ys a);
}

pub filter_ipv4-reserved : (a : ℕ) → filter_ipv4 a ≡ not (any_covers reserved_v4 a)
unfolding filter_ipv4
filter_ipv4-reserved a =
    let p = first a private_v4 (private_lem a) in
    let p = also broadcast p (broadcast_lem a) in
    let p = also loopback_v4 p (loopback_v4_lem a) in
    let p = also multicast_v4 p (multicast_v4_lem a) in
    let p = also link_local p (link_local_lem a) in
    let p = also unspecified p (unspecified_lem a) in
    (also documentation p (documentation_lem a)).outside

pub filter_ipv6-reserved : (a : ℕ) → a < 2 ^ 128 → filter_ipv6 a ≡ not (any_covers reserved_v6 a)
unfolding filter_ipv6
filter_ipv6-reserved a h =
    let p = first a unicast_link_local (unicast_link_local_lem a) in
    let p = also loopback_v6 p (loopback_v6_lem a) in
    let p = also multicast_v6 p (multicast_v6_lem a h) in
    let p = also unique_local p (unique_local_lem a) in
    (also unspecified p (unspecified_lem a)).outside

-- The filters test for classes of addresses: what the IPv4 filter lets through are the addresses
-- outside a list of numeric ranges, and what the IPv6 filter lets through are, of the addresses of
-- 128 bits, those outside another.
pub filters_reserved :
    (a b : ℕ)
    → b < 2 ^ 128
    → (filter_ipv4 a ≡ not (any_covers reserved_v4 a))
      × (filter_ipv6 b ≡ not (any_covers reserved_v6 b))
filters_reserved a b h = (filter_ipv4-reserved a, filter_ipv6-reserved b h)
