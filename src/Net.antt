-- ===== src/Net.antt =====
-- `std::net::IpAddr`: an address is its bits, big end first, as `to_bits` gives them; and
-- `AddressKind` of crates/manager/src/external_ip_source/source.rs.
pub mod Classes
use native.Mathlib.Decide.{ℕ_discrete}
use externalip_manager.Prelude.{ℕ, ◌^◌, ◌<◌, Bool, true, false, String}
use externalip_manager.Prelude.Eq.{Eq}

-- `V4(Ipv4Addr)` and `V6(Ipv6Addr)`
pub data IpAddr : Type 0 where
  v4 : ℕ → IpAddr
  v6 : ℕ → IpAddr

unfoldable pub IpAddr-discrete : Discrete IpAddr
IpAddr-discrete = hlevel ℕ_discrete

instance unfoldable pub IpAddr-eq : Eq IpAddr
unfolding IpAddr-discrete
IpAddr-eq = record { dec = IpAddr-discrete }

pub data AddressKind : Type 0 where
  ipv4 ipv6 : AddressKind

unfoldable pub AddressKind-discrete : Discrete AddressKind
AddressKind-discrete = hlevel

-- `impl Display for AddressKind`
abbrev pub kind_to_string : AddressKind → String
kind_to_string ipv4 = "IPv4"
kind_to_string ipv6 = "IPv6"

-- `IpAddr::is_ipv4` and `IpAddr::is_ipv6`
abbrev pub is_ipv4 : IpAddr → Bool
is_ipv4 (v4 b) = true
is_ipv4 (v6 b) = false

abbrev pub is_ipv6 : IpAddr → Bool
is_ipv6 (v4 b) = false
is_ipv6 (v6 b) = true

-- The address has the kind.
abbrev pub OfKind : AddressKind → IpAddr → Type 0
OfKind ipv4 (v4 b) = Unit
OfKind ipv4 (v6 b) = ⊥
OfKind ipv6 (v4 b) = ⊥
OfKind ipv6 (v6 b) = Unit

-- The bits fit the address: 32 of them, or 128.
abbrev pub InRange : IpAddr → Type 0
InRange (v4 b) = b < 2 ^ 32
InRange (v6 b) = b < 2 ^ 128
