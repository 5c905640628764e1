-- ===== src/Manager/Told.antt =====
-- What the reconciliation of a service says about its errors (crates/manager/src/lib.rs).
use mathlib.Core.Path.{subst}
use externalip_manager.Prelude.{
  ◌≡◌, refl, String, Bool, true, false, Option, none, some, List, [], ◌∷◌, ◌++◌, map, if◌then◌else◌,
}
use externalip_manager.Prelude.Outcome.{
  Outcome, done, fail, panic, Result, ok, err, Exec, resume, ◌>>=◌,
}
use externalip_manager.Net.{IpAddr}
use externalip_manager.Errors.{Error, service, invalid_ip_address, ip_source, IpSourceError}
use externalip_manager.Kube.{
  Service, Effect, published, patched, warning, invalid_external_ips, source_missing, lookup_failed,
}
use externalip_manager.Env.{Env}
use externalip_manager.State.{State}
use externalip_manager.Events.{publish}
use externalip_manager.Source
use externalip_manager.Source.{name_or_default, source_name}
use externalip_manager.Source.Types.{ExternalIpSource}
use externalip_manager.Registry
use externalip_manager.Svc.{ExternalIpSvc}
use externalip_manager.Manager.{
  ManagerConfig, event, checked, current_ips, parse_ips, listed_ips, queried, resolve_with, resolve,
  after_patch, update, apply, same_set, reconcile_svc,
}

-- The effect tells of the error: a warning on the service that says what is wrong, or for an
-- error of the API the patch that it refused.
abbrev pub Tells : Service → Error → Effect → Type 0
Tells svc (service e) eff =
    eff
    ≡ published
        (event svc warning "UnknownExternalIPSource" (some (source_missing e.missing_source)))
Tells svc (invalid_ip_address text) eff =
    eff ≡ published (event svc warning "InvalidExternalIP" (some invalid_external_ips))
Tells svc (ip_source name e) eff =
    eff ≡ published (event svc warning "FailedExternalIPLookup" (some (lookup_failed e)))
Tells svc (Error.kube e) eff =
    (strings : List String) × (eff
      ≡ patched (name_or_default svc.metadata.namespace) (name_or_default svc.metadata.name)
          strings)

-- The last effect tells of the error.
pub record Told {E : Env} (svc : Service) (e : Error) (t : State E) : Type 0 where
  pub before : List Effect
  pub last : Effect
  pub ends : t.trace ≡ before ++ last ∷ []
  pub tells : Tells svc e last

-- Whatever the error of the end, it is told.
abbrev EndTold : {A : Type 0} {E : Env} → Service → Outcome Error A × State E → Type 0
EndTold svc (fail e, t) = Told svc e t
EndTold svc (r, t) = Unit

module _ (E : Env) where
  abbrev OnlyInvalid : {A : Type 0} → Result Error A → Type 0
  OnlyInvalid (ok a) = Unit
  OnlyInvalid (err (invalid_ip_address text)) = Unit
  OnlyInvalid (err e) = ⊥

  parse_ips-OnlyInvalid : (texts : List String) → OnlyInvalid (parse_ips E texts)
  unfolding parse_ips
  parse_ips-OnlyInvalid [] = tt
  parse_ips-OnlyInvalid (text ∷ texts) =
      parsed (E.parse_ip text) (parse_ips E texts) (parse_ips-OnlyInvalid texts)
    where
      parsed :
          (o : Option IpAddr) (r : Result Error (List IpAddr))
          → OnlyInvalid r
          → OnlyInvalid (elim o [
            | none ↦ err (invalid_ip_address "invalid IP address syntax")
            | some addr ↦ elim r [ ok addrs ↦ ok (addr ∷ addrs) | err e ↦ err e ]
          ])
      parsed none r h = tt
      parsed (some addr) (ok addrs) h = tt
      parsed (some addr) (err (invalid_ip_address text)) h = tt
      parsed (some addr) (err (service e)) h = h
      parsed (some addr) (err (Error.kube e)) h = h
      parsed (some addr) (err (ip_source name e)) h = h

  checked-EndTold :
      (svc : Service) (r : Result Error (List IpAddr)) (st : State E)
      → OnlyInvalid r
      → EndTold svc (checked E svc r st)
  unfolding publish
  checked-EndTold svc (ok ips) st h = tt
  checked-EndTold svc (err (invalid_ip_address text)) st h = record {
    before = st.trace;
    last = _;
    ends = refl;
    tells = refl;
  }
  checked-EndTold svc (err (service e)) st h = elim h [ ]
  checked-EndTold svc (err (Error.kube e)) st h = elim h [ ]
  checked-EndTold svc (err (ip_source name e)) st h = elim h [ ]

  queried-EndTold :
      (svc : Service) (name : String) (r : Outcome IpSourceError (List IpAddr)) (st : State E)
      → EndTold svc (queried E svc name r st)
  unfolding publish
  queried-EndTold svc name (done ips) st = tt
  queried-EndTold svc name (fail e) st = record {
    before = st.trace;
    last = _;
    ends = refl;
    tells = refl;
  }
  queried-EndTold svc name (panic p) st = tt

  resolve_with-EndTold :
      (svc : ExternalIpSvc) (o : Option ExternalIpSource) (st : State E)
      → EndTold svc.svc (resolve_with E svc o st)
  unfolding publish
  resolve_with-EndTold svc none st = record {
    before = st.trace;
    last = _;
    ends = refl;
    tells = refl;
  }
  resolve_with-EndTold svc (some source) st =
      queried-EndTold svc.svc (source_name source.kind) (Source.query E source svc.svc st).0
        (Source.query E source svc.svc st).1

  after_patch-EndTold :
      (svc : Service) (strings : List String) (answer : Result String Unit) (before : List Effect)
      (st : State E)
      → st.trace
        ≡ before
          ++ patched
              (name_or_default svc.metadata.namespace)
              (name_or_default svc.metadata.name)
              strings
            ∷ []
      → EndTold svc (after_patch E svc answer st)
  after_patch-EndTold svc strings (ok _) before st h = tt
  after_patch-EndTold svc strings (err e) before st h = record {
    before = before;
    last = _;
    ends = h;
    tells = (strings, refl);
  }

  apply-EndTold :
      (config : ManagerConfig) (svc : ExternalIpSvc) (same dry : Bool) (addresses : List IpAddr)
      (st : State E)
      → EndTold svc.svc
          (if same then (done tt, st) else if dry then (done tt, st) else update E svc addresses st)
  unfolding update
  apply-EndTold config svc true dry addresses st = tt
  apply-EndTold config svc false true addresses st = tt
  apply-EndTold config svc false false addresses st =
      after_patch-EndTold svc.svc (map E.ip_to_string addresses) _ st.trace _ refl

  bind-EndTold :
      {A B : Type 0} (svc : Service) (m : Exec (State E) Error A) (f : A → Exec (State E) Error B)
      (st : State E)
      → EndTold svc (m st)
      → ((a : A) (t : State E) → EndTold svc (f a t))
      → EndTold svc ((m >>= f) st)
  unfolding ◌>>=◌
  bind-EndTold {A = A} svc m f st h k = resumed (m st).0 (m st).1 h
    where
      resumed :
          (r : Outcome Error A) (t : State E) → EndTold svc (r, t) → EndTold svc (resume r f t)
      resumed (done a) t h = k a t
      resumed (fail e) t h = h
      resumed (panic p) t h = tt

  -- A reconciliation that returns an error has told of it: its last effect is the warning on the
  -- service that says what is wrong, or the patch that the API refused.
  pub reconcile_svc-Told :
      (config : ManagerConfig) (svc : ExternalIpSvc) (st t : State E) (e : Error)
      → reconcile_svc E config svc st ≡ (fail e, t)
      → Told svc.svc e t
  unfolding reconcile_svc current_ips resolve apply
  reconcile_svc-Told config svc st t e h = subst (EndTold svc.svc) h (
      bind-EndTold svc.svc (current_ips E svc.svc)
        (λ current. resolve E svc >>= λ resolved. apply E config svc current resolved) st
        (checked-EndTold svc.svc (parse_ips E (listed_ips svc.svc)) st
          (parse_ips-OnlyInvalid (listed_ips svc.svc)))
        λ current u.
          bind-EndTold svc.svc (resolve E svc) (apply E config svc current) u
            (resolve_with-EndTold svc (Registry.get_cluster E (source_name svc.source) u) u)
            λ resolved v.
              apply-EndTold config svc (same_set current resolved) config.dry_run
                (E.iterate_addresses v.world resolved) v)
