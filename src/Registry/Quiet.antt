-- ===== src/Registry/Quiet.antt =====
-- How the calls of the solvers that call no other end
-- (crates/manager/src/external_ip_source/solvers/).
use externalip_manager.Prelude.{refl, Option, none, some, List, String}
use externalip_manager.Prelude.Outcome.{
  Outcome, done, fail, panic, Result, ok, err, Exec, resume, ◌>>=◌,
}
use externalip_manager.Net.{IpAddr, AddressKind, ipv4, ipv6, v4, v6}
use externalip_manager.Errors.{SolverError, Reason, interfaces_unavailable, addresses_unavailable}
use externalip_manager.Crd.{SolverKind}
use externalip_manager.Env.{Env}
use externalip_manager.Solver.{DnsHostname, Interface}
use externalip_manager.State.{State}
use externalip_manager.Solvers.IpApi.{ip_provider}
use externalip_manager.Solvers.Dns
use externalip_manager.Solvers.Interface
use externalip_manager.Registry.Matches.{Calm, IsOrdinary, Frame, Frame-refl, Frame-trans}

-- The solvers that call no other.
abbrev pub IsLeaf : SolverKind → Type 0
IsLeaf (SolverKind.merge c) = ⊥
IsLeaf _ = Unit

module _ (E : Env) where
  -- A call that ends calmly and leaves the registry alone.
  pub record IsQuiet {A : Type 0} (st : State E) (end : Outcome SolverError A × State E)
      : Type 0 where
    pub calm : Calm end.0
    pub frame : Frame st end.1

  IsQuiet-bind :
      {A B : Type 0} (r : Outcome SolverError A) (f : A → Exec (State E) SolverError B)
      (st t : State E)
      → Calm r
      → Frame st t
      → ((a : A) (u : State E) → IsQuiet u (f a u))
      → IsQuiet st (resume r f t)
  IsQuiet-bind (done a) f st t c fr h = record {
    calm = (h a t).calm;
    frame = Frame-trans fr (h a t).frame;
  }
  IsQuiet-bind (fail e) f st t c fr h = record { calm = c; frame = fr }
  IsQuiet-bind (panic p) f st t c fr h = elim c [ ]

  -- dnsHostname
  answered-IsQuiet :
      (kind : AddressKind) (answer : Result String (List IpAddr)) (st : State E)
      → IsQuiet st (Dns.answered E kind answer st)
  answered-IsQuiet kind (ok addrs) st = record { calm = tt; frame = Frame-refl st }
  answered-IsQuiet kind (err e) st = record { calm = tt; frame = Frame-refl st }

  pub dns-IsQuiet :
      (s : DnsHostname) (kind : AddressKind) (st : State E)
      → IsQuiet st (Dns.get_addresses E s kind st)
  unfolding Dns.get_addresses
  dns-IsQuiet s kind st =
      let q = answered-IsQuiet kind (E.lookup_ip s.host st.world).0 _ in
      record {
        calm = q.calm;
        frame = record { solvers = q.frame.solvers; sources = q.frame.sources };
      }

  -- interface
  told-IsQuiet :
      {A : Type 0} (why : String → Reason) (answer : Result String A) (st t : State E)
      → ((e : String) → IsOrdinary (why e))
      → Frame st t
      → IsQuiet st (Interface.told E why answer t)
  told-IsQuiet why (ok a) st t h f = record { calm = tt; frame = f }
  told-IsQuiet why (err e) st t h f = record { calm = h e; frame = f }

  ask-IsQuiet :
      {A : Type 0} (why : String → Reason) (call : E.World → Result String A × E.World)
      (st : State E)
      → ((e : String) → IsOrdinary (why e))
      → IsQuiet st (Interface.ask E why call st)
  ask-IsQuiet why call st h =
      told-IsQuiet why (call st.world).0 st _ h (record { solvers = refl; sources = refl })

  found-IsQuiet :
      (name : String) (o : Option E.Interface) (st : State E)
      → IsQuiet st (Interface.found E name o st)
  found-IsQuiet name none st = record { calm = tt; frame = Frame-refl st }
  found-IsQuiet name (some i) st = record { calm = tt; frame = Frame-refl st }

  bind-IsQuiet :
      {A B : Type 0} (m : Exec (State E) SolverError A) (f : A → Exec (State E) SolverError B)
      (st : State E)
      → IsQuiet st (m st)
      → ((a : A) (u : State E) → IsQuiet u (f a u))
      → IsQuiet st ((m >>= f) st)
  unfolding ◌>>=◌
  bind-IsQuiet m f st q h = IsQuiet-bind (m st).0 f st (m st).1 q.calm q.frame h

  by_name-IsQuiet : (name : String) (st : State E) → IsQuiet st (Interface.by_name E name st)
  by_name-IsQuiet name st =
      bind-IsQuiet (Interface.ask E _ (E.interface_by_name name)) (Interface.found E name) st
        (ask-IsQuiet interfaces_unavailable (E.interface_by_name name) st (λ e. tt))
        (found-IsQuiet name)

  addrs_v4-IsQuiet :
      (name : Option String) (st : State E) → IsQuiet st (Interface.addrs_v4 E name st)
  addrs_v4-IsQuiet none st =
      ask-IsQuiet addresses_unavailable (E.local_ipv4_addrs_by_filter Interface.filter_ipv4) st
        (λ e. tt)
  addrs_v4-IsQuiet (some name) st =
      bind-IsQuiet (Interface.by_name E name) _ st (by_name-IsQuiet name st) λ i u.
        ask-IsQuiet addresses_unavailable (E.ipv4_addrs_by_filter i Interface.filter_ipv4) u
          (λ e. tt)

  addrs_v6-IsQuiet :
      (name : Option String) (st : State E) → IsQuiet st (Interface.addrs_v6 E name st)
  addrs_v6-IsQuiet none st =
      ask-IsQuiet addresses_unavailable (E.local_ipv6_addrs_by_filter Interface.filter_ipv6) st
        (λ e. tt)
  addrs_v6-IsQuiet (some name) st =
      bind-IsQuiet (Interface.by_name E name) _ st (by_name-IsQuiet name st) λ i u.
        ask-IsQuiet addresses_unavailable (E.ipv6_addrs_by_filter i Interface.filter_ipv6) u
          (λ e. tt)

  pub interface-IsQuiet :
      (s : Interface) (kind : AddressKind) (st : State E)
      → IsQuiet st (Interface.get_addresses E s kind st)
  unfolding Interface.get_addresses
  interface-IsQuiet s ipv4 st =
      bind-IsQuiet (Interface.addrs_v4 E s.identifier) (Interface.collect E v4) st
        (addrs_v4-IsQuiet s.identifier st) λ a u. record { calm = tt; frame = Frame-refl u }
  interface-IsQuiet s ipv6 st =
      bind-IsQuiet (Interface.addrs_v6 E s.identifier) (Interface.collect E v6) st
        (addrs_v6-IsQuiet s.identifier st) λ a u. record { calm = tt; frame = Frame-refl u }
