-- ===== src/Manager/Settled.antt =====
-- The comparison of a service's addresses with the resolved ones, after a patch (lib.rs).
use externalip_manager.Prelude.{
  ◌≡◌, refl, ◌∙◌, ap, inl, inr, some, List, [], ◌∷◌, Has, true, contains, if◌then◌else◌, map, arith,
  All, All-of_Has, All-Has,
}
use externalip_manager.Prelude.Outcome.{done, Result, ok, resume, ◌>>=◌}
use externalip_manager.Net.{IpAddr, IpAddr-eq, InRange}
use externalip_manager.Errors.{Error}
use externalip_manager.Env.{Env}
use externalip_manager.State.{State}
use externalip_manager.Svc.{ExternalIpSvc}
use externalip_manager.Manager.{
  ManagerConfig, checked, current_ips, parse_ips, listed_ips, apply, update, subset, same_set,
}

-- A hash set of addresses gives the elements that were put in, each of them and no other.
pub record IteratesAddresses (E : Env) : Type 0 where
  pub addresses_sound :
      (w : E.World) (xs : List IpAddr) (a : IpAddr) → Has a (E.iterate_addresses w xs) → Has a xs
  pub addresses_complete :
      (w : E.World) (xs : List IpAddr) (a : IpAddr) → Has a xs → Has a (E.iterate_addresses w xs)

-- The text of an address, of 32 bits or of 128, parses back.
abbrev pub ReadsBack : Env → Type 0
ReadsBack E = (a : IpAddr) → InRange a → E.parse_ip (E.ip_to_string a) ≡ some a

contains-Has : (a : IpAddr) (xs : List IpAddr) → Has a xs → contains xs a ≡ true
contains-Has a [] h = elim h [ ]
contains-Has a (x ∷ xs) (inl e) = ground (arith, e)
contains-Has a (x ∷ xs) (inr h) = ground (arith, contains-Has a xs h)

subset-Has : (xs ys : List IpAddr) → ((a : IpAddr) → Has a xs → Has a ys) → subset xs ys ≡ true
subset-Has [] ys h = refl
subset-Has (x ∷ xs) ys h =
    ground (arith, contains-Has x ys (h x (inl refl)), subset-Has xs ys (λ a m. h a (inr m)))

pub same_set-Has :
    (xs ys : List IpAddr)
    → ((a : IpAddr) → Has a xs → Has a ys)
    → ((a : IpAddr) → Has a ys → Has a xs)
    → same_set xs ys ≡ true
unfolding same_set
same_set-Has xs ys h k = ground (arith, subset-Has xs ys h, subset-Has ys xs k)

module _ (E : Env) (reads : ReadsBack E) where
  pub parse_ips-map :
      (xs : List IpAddr) → All InRange xs → parse_ips E (map E.ip_to_string xs) ≡ ok xs
  unfolding parse_ips
  parse_ips-map [] h = refl
  parse_ips-map (x ∷ xs) h = ground (arith, reads x h.0, parse_ips-map xs h.1)

module _ (E : Env) (sets : IteratesAddresses E) (reads : ReadsBack E) where
  apply-same :
      (config : ManagerConfig) (svc : ExternalIpSvc) (current resolved : List IpAddr) (st : State E)
      → same_set current resolved ≡ true
      → apply E config svc current resolved st ≡ (done tt, st)
  unfolding apply
  apply-same config svc current resolved st h =
      ap
        (λ b.
          if b
          then (done tt, st)
          else if config.dry_run
          then (done tt, st)
          else update E svc (E.iterate_addresses st.world resolved) st)
        h

  -- If the texts of addresses parse back and hash sets give what was put in: once a service lists
  -- the texts that a patch with some addresses, of 32 bits or of 128, wrote, its comparison with
  -- the same addresses, in any order and any number of times, succeeds and does nothing.
  pub apply-written :
      (config : ManagerConfig) (svc : ExternalIpSvc) (w : E.World) (before now : List IpAddr)
      (st : State E)
      → All InRange before
      → listed_ips svc.svc ≡ map E.ip_to_string (E.iterate_addresses w before)
      → ((a : IpAddr) → Has a before → Has a now)
      → ((a : IpAddr) → Has a now → Has a before)
      → (current_ips E svc.svc >>= λ current. apply E config svc current now) st ≡ (done tt, st)
  unfolding current_ips ◌>>=◌
  apply-written config svc w before now st ranges e h k =
      let xs = E.iterate_addresses w before in
      let in_range =
        All-of_Has InRange xs
          λ a m. All-Has InRange before a ranges (sets.addresses_sound w before a m) in
      let read : parse_ips E (listed_ips svc.svc) ≡ ok xs =
        ap (parse_ips E) e ∙ parse_ips-map E reads xs in_range in
      ap
        (λ (r : Result Error (List IpAddr)).
          resume (checked E svc.svc r st).0 (λ current. apply E config svc current now)
            (checked E svc.svc r st).1)
        read
      ∙ apply-same config svc xs now st (
          same_set-Has xs now (λ a m. h a (sets.addresses_sound w before a m))
            (λ a m. sets.addresses_complete w before a (k a m)))
