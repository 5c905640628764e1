-- ===== src/Solvers/Interface.antt =====
-- crates/manager/src/external_ip_source/solvers/interface.rs
pub mod Ranges
pub mod Outside
use externalip_manager.Prelude.{ℕ, String, Bool, ◌&&◌, not, Option, none, some, List, map}
use externalip_manager.Prelude.Outcome.{Result, ok, err, done, fail, Exec, ◌>>=◌}
use externalip_manager.Net.{IpAddr, AddressKind, v4, v6, ipv4, ipv6}
use externalip_manager.Net.Classes.{
  is_private, is_broadcast, is_loopback_v4, is_multicast_v4, is_link_local, is_unspecified,
  is_documentation, is_unicast_link_local, is_loopback_v6, is_multicast_v6, is_unique_local,
}
use externalip_manager.Errors.{
  SolverError, Reason, interfaces_unavailable, interface_missing, addresses_unavailable,
}
use externalip_manager.Env.{Env}
use externalip_manager.Solver.{Interface}
use externalip_manager.State.{State, with_world}

-- `Interface::new`
abbrev pub new : Option String → Interface
new identifier = record { identifier = identifier }

-- The two closures `filter`.
unfoldable pub filter_ipv4 : ℕ → Bool
filter_ipv4 a =
    not (is_private a)
    && not (is_broadcast a)
    && not (is_loopback_v4 a)
    && not (is_multicast_v4 a)
    && not (is_link_local a)
    && not (is_unspecified a)
    && not (is_documentation a)

unfoldable pub filter_ipv6 : ℕ → Bool
filter_ipv6 a =
    not (is_unicast_link_local a)
    && not (is_loopback_v6 a)
    && not (is_multicast_v6 a)
    && not (is_unique_local a)
    && not (is_unspecified a)

module _ (E : Env) where
  abbrev pub told :
      {A : Type 0} → (String → Reason) → Result String A → Exec (State E) SolverError A
  told why (ok a) st = (done a, st)
  told why (err e) st = (fail (record { reason = why e }), st)

  -- A foreign call, with `map_err` and `?`.
  abbrev pub ask :
      {A : Type 0}
      → (String → Reason)
      → (E.World → Result String A × E.World)
      → Exec (State E) SolverError A
  ask why call st = let (answer, w) = call st.world in told why answer (with_world st w)

  -- `ok_or(...)?` on the interface of a name.
  abbrev pub found : String → Option E.Interface → Exec (State E) SolverError E.Interface
  found name none st = (fail (record { reason = interface_missing name }), st)
  found name (some interface) st = (done interface, st)

  abbrev pub by_name : String → Exec (State E) SolverError E.Interface
  by_name name = ask interfaces_unavailable (E.interface_by_name name) >>= found name

  -- `addrs`, for both kinds.
  abbrev pub addrs_v4 : Option String → Exec (State E) SolverError (List ℕ)
  addrs_v4 none = ask addresses_unavailable (E.local_ipv4_addrs_by_filter filter_ipv4)
  addrs_v4 (some name) = by_name name >>= λ interface.
      ask addresses_unavailable (E.ipv4_addrs_by_filter interface filter_ipv4)

  abbrev pub addrs_v6 : Option String → Exec (State E) SolverError (List ℕ)
  addrs_v6 none = ask addresses_unavailable (E.local_ipv6_addrs_by_filter filter_ipv6)
  addrs_v6 (some name) = by_name name >>= λ interface.
      ask addresses_unavailable (E.ipv6_addrs_by_filter interface filter_ipv6)

  abbrev pub collect : (ℕ → IpAddr) → List ℕ → Exec (State E) SolverError (List IpAddr)
  collect family addrs st = (done (map family addrs), st)

  unfoldable pub get_addresses : Interface → AddressKind → Exec (State E) SolverError (List IpAddr)
  unfolding ◌>>=◌
  get_addresses self ipv4 = addrs_v4 self.identifier >>= collect v4
  get_addresses self ipv6 = addrs_v6 self.identifier >>= collect v6
