-- ===== src/Net/Classes.antt =====
-- The address classes of `std::net::Ipv4Addr` and `std::net::Ipv6Addr` that the program asks for,
-- on the address's bits.
use externalip_manager.Prelude.{ℕ, ◌/◌, ◌%◌, ◌^◌, Bool, ◌&&◌, ◌||◌, ◌==◌, leb}

-- The octet of an IPv4 address, from the left.
abbrev octet0 : ℕ → ℕ
octet0 a = a / 2 ^ 24

abbrev octet1 : ℕ → ℕ
octet1 a = a / 2 ^ 16 % 2 ^ 8

abbrev octet2 : ℕ → ℕ
octet2 a = a / 2 ^ 8 % 2 ^ 8

-- 10.0.0.0/8, 172.16.0.0/12, 192.168.0.0/16
unfoldable pub is_private : ℕ → Bool
is_private a =
    (octet0 a == 10)
    || ((octet0 a == 172) && leb 16 (octet1 a) && leb (octet1 a) 31)
    || ((octet0 a == 192) && (octet1 a == 168))

-- 255.255.255.255
unfoldable pub is_broadcast : ℕ → Bool
is_broadcast a = a == 0xffff_ffff

-- 127.0.0.0/8
unfoldable pub is_loopback_v4 : ℕ → Bool
is_loopback_v4 a = octet0 a == 127

-- 224.0.0.0/4
unfoldable pub is_multicast_v4 : ℕ → Bool
is_multicast_v4 a = leb 224 (octet0 a) && leb (octet0 a) 239

-- 169.254.0.0/16
unfoldable pub is_link_local : ℕ → Bool
is_link_local a = (octet0 a == 169) && (octet1 a == 254)

-- 0.0.0.0 and ::
unfoldable pub is_unspecified : ℕ → Bool
is_unspecified a = a == 0

-- 192.0.2.0/24, 198.51.100.0/24, 203.0.113.0/24
unfoldable pub is_documentation : ℕ → Bool
is_documentation a =
    ((octet0 a == 192) && (octet1 a == 0) && (octet2 a == 2))
    || ((octet0 a == 198) && (octet1 a == 51) && (octet2 a == 100))
    || ((octet0 a == 203) && (octet1 a == 0) && (octet2 a == 113))

-- fe80::/10
unfoldable pub is_unicast_link_local : ℕ → Bool
is_unicast_link_local a = a / 2 ^ 118 == 0x3fa

-- ::1
unfoldable pub is_loopback_v6 : ℕ → Bool
is_loopback_v6 a = a == 1

-- ff00::/8
unfoldable pub is_multicast_v6 : ℕ → Bool
is_multicast_v6 a = a / 2 ^ 120 == 0xff

-- fc00::/7
unfoldable pub is_unique_local : ℕ → Bool
is_unique_local a = a / 2 ^ 121 == 0x7e
