-- ===== src/Solvers/Dns.antt =====
-- crates/manager/src/external_ip_source/solvers/dns_hostname.rs
use externalip_manager.Prelude.{String, Bool, true, false, List, keep}
use externalip_manager.Prelude.Outcome.{
  Result, ok, err, ok, err, done, fail, panic, resolver_build, Exec,
}
use externalip_manager.Net.{IpAddr, AddressKind, ipv4, ipv6, is_ipv4, is_ipv6}
use externalip_manager.Errors.{SolverError, lookup_failed}
use externalip_manager.Crd.{DnsHostnameConfig}
use externalip_manager.Env.{Env}
use externalip_manager.Solver.{DnsHostname}
use externalip_manager.State.{State, with_world}

-- The closure of `filter`.
abbrev pub of_kind : AddressKind → IpAddr → Bool
of_kind ipv4 = is_ipv4
of_kind ipv6 = is_ipv6

module _ (E : Env) {F : Type 0} where
  -- The two `expect`s.
  abbrev pub built : DnsHostnameConfig → Bool → Exec (State E) F DnsHostname
  built config true st = (done (record { host = config.host }), st)
  built config false st = (panic resolver_build, st)

  -- `DnsHostname::new`
  unfoldable pub new : DnsHostnameConfig → Exec (State E) F DnsHostname
  new config st = let (b, w) = E.build_resolver st.world in built config b (with_world st w)

module _ (E : Env) where
  -- `map_err(...)?`, and the filter.
  abbrev pub answered :
      AddressKind → Result String (List IpAddr) → Exec (State E) SolverError (List IpAddr)
  answered kind (err e) st = (fail (record { reason = lookup_failed e }), st)
  answered kind (ok addrs) st = (done (keep (of_kind kind) addrs), st)

  unfoldable pub get_addresses :
      DnsHostname → AddressKind → Exec (State E) SolverError (List IpAddr)
  get_addresses self kind st =
      let (answer, w) = E.lookup_ip self.host st.world in answered kind answer (with_world st w)
