-- ===== src/Solvers/Static.antt =====
-- crates/manager/src/external_ip_source/solvers/static.rs
use externalip_manager.Prelude.{Bool, true, false, ◌&&◌, Option, none, some, List, not}
use externalip_manager.Prelude.{filter_map, if◌then◌else◌}
use externalip_manager.Net.{IpAddr, AddressKind, ipv4, ipv6, is_ipv4, is_ipv6}
use externalip_manager.Solver.{Static}

abbrev pub is_kind : AddressKind → AddressKind → Bool
is_kind ipv4 ipv4 = true
is_kind ipv6 ipv6 = true
is_kind _ _ = false

-- `Static::new`
abbrev pub new : List IpAddr → Static
new addresses = record { addresses = addresses }

-- The closure of `filter_map`.
abbrev pub admit : AddressKind → IpAddr → Option IpAddr
admit kind addr =
    if is_kind kind ipv4 && not (is_ipv4 addr)
    then none
    else if is_kind kind ipv6 && not (is_ipv6 addr)
    then none
    else some addr

-- `get_addresses`, which cannot fail.
unfoldable pub get_addresses : Static → AddressKind → List IpAddr
get_addresses self kind = filter_map (admit kind) self.addresses
