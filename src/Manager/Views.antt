-- ===== src/Manager/Views.antt =====
-- What the steps of a pass make of the world, whatever stands in the registry
-- (crates/manager/src/lib.rs).
use externalip_manager.Prelude.{
  ◌≡◌, refl, ◌∙◌, ap, sym, Bool, true, false, List, [], if◌then◌else◌, String,
}
use externalip_manager.Prelude.Outcome.{Outcome, done, fail, panic, Result, ok, err, Exec, resume}
use externalip_manager.Net.{IpAddr}
use externalip_manager.Errors.{Error, IpSourceError, ip_source}
use externalip_manager.Kube.{Service, Event, Effect}
use externalip_manager.Env.{Env}
use externalip_manager.State.{State}
use externalip_manager.Events.{publish}
use externalip_manager.Svc.{ExternalIpSvc}
use externalip_manager.Manager.{
  ManagerConfig, checked, queried, update, after_patch, apply, same_set,
}

abbrev pub View : Env → Type 0
View E = E.World × List Effect

abbrev pub view : {E : Env} → State E → View E
view st = (st.world, st.trace)

-- A state that shows this and has an empty registry.
abbrev pub from_view : {E : Env} → View E → State E
from_view (w, trace) = record { world = w; trace = trace; solvers = []; cluster_eip_sources = [] }

-- How a step ended, and what it made of the world.
abbrev pub seen_of : {E : Env} {A : Type 0} → Outcome Error A × State E → Outcome Error A × View E
seen_of (r, st) = (r, view st)

-- Two steps that end the same and make the same of the world.
abbrev pub SeesSame :
    {E : Env} {A : Type 0} → Outcome Error A × State E → Outcome Error A × State E → Type 0
SeesSame p q = seen_of p ≡ seen_of q

module _ (E : Env) where
  pub ended-SeesSame :
      {A : Type 0} (r : Outcome Error A) (u v : State E) → view u ≡ view v → SeesSame (r, u) (r, v)
  ended-SeesSame r u v e = ap (λ (x : View E). (r, x)) e

  resumed :
      {A B : Type 0} (r : Outcome Error A) (u v : State E) (f g : A → Exec (State E) Error B)
      → view u ≡ view v
      → ((a : A) → SeesSame (f a u) (g a v))
      → SeesSame (resume r f u) (resume r g v)
  resumed (done a) u v f g e h = h a
  resumed (fail x) u v f g e h = ended-SeesSame (fail x) u v e
  resumed (panic x) u v f g e h = ended-SeesSame (panic x) u v e

  -- Steps that go on alike from outcomes that are the same.
  pub resume-SeesSame :
      {A B : Type 0} (p q : Outcome Error A × State E) (f g : A → Exec (State E) Error B)
      → SeesSame p q
      → ((a : A) → SeesSame (f a p.1) (g a q.1))
      → SeesSame (resume p.0 f p.1) (resume q.0 g q.1)
  resume-SeesSame {A} p q f g e h =
      resumed p.0 p.1 q.1 f g (ap (λ (x : Outcome Error A × View E). x.1) e) h
      ∙ ap (λ (x : Outcome Error A × View E). seen_of (resume x.0 g q.1)) e

  pub publish-view :
      (event : Event) (u v : State E)
      → view u ≡ view v
      → view (publish E event u) ≡ view (publish E event v)
  unfolding publish
  publish-view event u v e = ap (λ (x : View E). view (publish E event (from_view x))) e

  pub publish-SeesSame :
      {A : Type 0} (r : Outcome Error A) (event : Event) (u v : State E)
      → view u ≡ view v
      → SeesSame (r, publish E event u) (r, publish E event v)
  publish-SeesSame r event u v e = ap (λ (x : View E). (r, x)) (publish-view event u v e)

  after_patch-SeesSame :
      (svc : Service) (answer : Result String Unit) (u v : State E)
      → view u ≡ view v
      → SeesSame (after_patch E svc answer u) (after_patch E svc answer v)
  after_patch-SeesSame svc (ok x) u v e = publish-SeesSame (done tt) _ u v e
  after_patch-SeesSame svc (err x) u v e = ended-SeesSame (fail (Error.kube x)) u v e

  update_alone :
      (svc : ExternalIpSvc) (addrs : List IpAddr) (u : State E)
      → SeesSame (update E svc addrs u) (update E svc addrs (from_view (view u)))
  unfolding update
  update_alone svc addrs u = after_patch-SeesSame svc.svc _ _ _ refl

  module _ (config : ManagerConfig) (svc : ExternalIpSvc) where
    pub update-SeesSame :
        (addrs : List IpAddr) (u v : State E)
        → view u ≡ view v
        → SeesSame (update E svc addrs u) (update E svc addrs v)
    update-SeesSame addrs u v e =
        update_alone svc addrs u
        ∙ ap (λ (x : View E). seen_of (update E svc addrs (from_view x))) e
        ∙ sym (update_alone svc addrs v)

    branch-SeesSame :
        (b : Bool) (p q p' q' : Outcome Error Unit × State E)
        → SeesSame p p'
        → SeesSame q q'
        → SeesSame (if b then p else q) (if b then p' else q')
    branch-SeesSame true p q p' q' h k = h
    branch-SeesSame false p q p' q' h k = k

    pub apply-SeesSame :
        (current resolved : List IpAddr) (u v : State E)
        → view u ≡ view v
        → SeesSame (apply E config svc current resolved u) (apply E config svc current resolved v)
    unfolding apply
    apply-SeesSame current resolved u v e =
        let order : E.iterate_addresses u.world resolved ≡ E.iterate_addresses v.world resolved =
          ap (λ (x : View E). E.iterate_addresses x.0 resolved) e in
        let patched =
          update-SeesSame (E.iterate_addresses u.world resolved) u v e
          ∙ ap (λ addrs. seen_of (update E svc addrs v)) order in
        branch-SeesSame (same_set current resolved) _ _ _ _ (ended-SeesSame (done tt) u v e)
          (branch-SeesSame config.dry_run _ _ _ _ (ended-SeesSame (done tt) u v e) patched)

  pub checked-SeesSame :
      {A : Type 0} (svc : Service) (r : Result Error (List IpAddr)) (u v : State E)
      (f g : List IpAddr → Exec (State E) Error A)
      → view u ≡ view v
      → ((current : List IpAddr) → SeesSame (f current u) (g current v))
      → SeesSame
          (resume (checked E svc r u).0 f (checked E svc r u).1)
          (resume (checked E svc r v).0 g (checked E svc r v).1)
  checked-SeesSame svc (ok current) u v f g e h = h current
  checked-SeesSame svc (err x) u v f g e h = publish-SeesSame (fail x) _ u v e

  pub queried-SeesSame :
      (svc : Service) (name : String) (r : Outcome IpSourceError (List IpAddr)) (u v : State E)
      → view u ≡ view v
      → SeesSame (queried E svc name r u) (queried E svc name r v)
  queried-SeesSame svc name (done ips) u v e = ended-SeesSame (done ips) u v e
  queried-SeesSame svc name (fail x) u v e = publish-SeesSame (fail (ip_source name x)) _ u v e
  queried-SeesSame svc name (panic p) u v e = ended-SeesSame (panic p) u v e
