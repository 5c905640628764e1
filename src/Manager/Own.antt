-- ===== src/Manager/Own.antt =====
-- What the reconciliation of one service does to the world (lib.rs).
use externalip_manager.Prelude.{
  ◌≡◌, refl, Option, none, some, List, [], ◌∷◌, String, All, Bool, true, false, if◌then◌else◌,
}
use externalip_manager.Prelude.Outcome.{Outcome, done, fail, panic, Result, ok, err}
use externalip_manager.Net.{IpAddr}
use externalip_manager.Errors.{Error, IpSourceError}
use externalip_manager.Kube.{Service, Event, Effect, requested, published, patched}
use externalip_manager.Env.{Env}
use externalip_manager.State.{State}
use externalip_manager.Events.{publish}
use externalip_manager.Source.{name_or_default}
use externalip_manager.Source.Types.{ExternalIpSource}
use externalip_manager.Svc.{ExternalIpSvc}
use externalip_manager.Manager.{
  ManagerConfig, checked, current_ips, parse_ips, listed_ips, queried, resolve_with, resolve,
  after_patch, update, apply, same_set, reconcile_svc,
}
use externalip_manager.Manager.Effects.{
  Extends, Only, IsRequest, Extends-refl, Extends-trans, bind-Only,
}
use externalip_manager.Manager.Requests.{query-Only_requests}

-- The effect is no patch, or one of the service.
abbrev pub IsOwn : Bool → Service → Effect → Type 0
IsOwn dry svc (requested url) = Unit
IsOwn dry svc (published e) = Unit
IsOwn dry svc (patched namespace name ips) =
    (dry ≡ false)
    × (namespace ≡ name_or_default svc.metadata.namespace)
    × (name ≡ name_or_default svc.metadata.name)

abbrev pub IsHarmless : Effect → Type 0
IsHarmless (requested url) = Unit
IsHarmless (published e) = Unit
IsHarmless (patched namespace name ips) = ⊥

pub Extends-weaken :
    (P Q : Effect → Type 0) {l m : List Effect}
    → ((e : Effect) → P e → Q e)
    → Extends P l m
    → Extends Q l m
Extends-weaken P Q h x = record { added = x.added; grown = x.grown; each = weaken x.added x.each }
  where
    weaken : (es : List Effect) → All P es → All Q es
    weaken [] k = tt
    weaken (e ∷ es) k = (h e k.0, weaken es k.1)

IsOwn-of_request : (dry : Bool) (svc : Service) (e : Effect) → IsRequest e → IsOwn dry svc e
IsOwn-of_request dry svc (requested url) h = tt
IsOwn-of_request dry svc (published e) h = tt
IsOwn-of_request dry svc (patched namespace name ips) h = elim h [ ]

module _ (E : Env) (config : ManagerConfig) (svc : ExternalIpSvc) where
  abbrev Own : Effect → Type 0
  Own = IsOwn config.dry_run svc.svc

  publish-Own : (event : Event) (st : State E) → Extends Own st.trace (publish E event st).trace
  unfolding publish
  publish-Own event st = record { added = published event ∷ []; grown = refl; each = (tt, tt) }

  checked-Own : (r : Result Error (List IpAddr)) → Only Own (checked E svc.svc r)
  checked-Own (ok ips) st = Extends-refl Own st.trace
  checked-Own (err e) st = publish-Own _ st

  queried-Own :
      (name : String) (r : Outcome IpSourceError (List IpAddr)) (st : State E)
      → Extends Own st.trace (queried E svc.svc name r st).1.trace
  queried-Own name (done ips) st = Extends-refl Own st.trace
  queried-Own name (fail e) st = publish-Own _ st
  queried-Own name (panic p) st = Extends-refl Own st.trace

  resolve-Own : (o : Option ExternalIpSource) → Only Own (resolve_with E svc o)
  resolve-Own none st = publish-Own _ st
  resolve-Own (some source) st =
      Extends-trans Own
        (Extends-weaken IsRequest Own (IsOwn-of_request config.dry_run svc.svc)
          (query-Only_requests E source svc.svc st))
        (queried-Own _ _ _)

  after_patch-Own : (answer : Result String Unit) → Only Own (after_patch E svc.svc answer)
  after_patch-Own (ok _) st = publish-Own _ st
  after_patch-Own (err e) st = Extends-refl Own st.trace

  update-Own : config.dry_run ≡ false → (addrs : List IpAddr) → Only Own (update E svc addrs)
  unfolding update
  update-Own wet addrs st =
      Extends-trans Own
        (record { added = patched _ _ _ ∷ []; grown = refl; each = ((wet, refl, refl), tt) })
        (after_patch-Own _ _)

  apply_unless :
      (same dry : Bool) (addrs : List IpAddr) (st : State E)
      → config.dry_run ≡ dry
      → Extends Own st.trace
          (if same
            then (done tt, st)
            else if dry
            then (done tt, st)
            else update E svc addrs st).1.trace
  apply_unless true dry addrs st e = Extends-refl Own st.trace
  apply_unless false true addrs st e = Extends-refl Own st.trace
  apply_unless false false addrs st e = update-Own e addrs st

  apply-Own : (current resolved : List IpAddr) → Only Own (apply E config svc current resolved)
  unfolding apply
  apply-Own current resolved st = apply_unless (same_set current resolved) config.dry_run _ st refl

  -- The reconciliation of a service patches no other service, and in a dry run none at all.
  pub reconcile_svc-Only-Own : Only Own (reconcile_svc E config svc)
  unfolding reconcile_svc current_ips resolve
  reconcile_svc-Only-Own =
      bind-Only Own (current_ips E svc.svc) _ (checked-Own (parse_ips E (listed_ips svc.svc)))
        λ current.
          bind-Only Own (resolve E svc) (apply E config svc current) (λ st. resolve-Own _ st)
            λ resolved. apply-Own current resolved
