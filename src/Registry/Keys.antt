-- ===== src/Registry/Keys.antt =====
-- The keys of sources: what the registry makes solvers of, and what a query asks for.
use mathlib.Core.Path.{subst}
use externalip_manager.Prelude.{
  ◌≡◌, refl, sym, Option, none, some, List, [], ◌∷◌, Bool, true, false, All, Has, is_empty,
  flat_map, map, if◌then◌else◌, All-split, All-map,
}
use externalip_manager.Prelude.Outcome.{ok, err}
use externalip_manager.Net.{AddressKind, ipv4, ipv6}
use externalip_manager.Errors.{IpSourceError}
use externalip_manager.Crd.{
  SolverKind, PartialSolverKind, ClusterExternalIpSource, IpSolversConfig, PartialSolver,
  from_partial,
}
use externalip_manager.Env.{Env}
use externalip_manager.Source
use externalip_manager.Source.{is_none}
use externalip_manager.Source.Types.{ExternalIpSource}
use externalip_manager.State.{Key, Key-eq, SolverRegistry}
use externalip_manager.Registry.{solver_keys, source_keys, family_keys}
use externalip_manager.Registry.Matches.{IsSaneKind}
use externalip_manager.Registry.Walk.{OfKey, AllSolvers, sources_keys}
use externalip_manager.Registry.Idle.{has}
use externalip_manager.Registry.Queries.{SourceRegistered, FamilyRegistered}
use externalip_manager.Registry.SolverLists.{ListRegistered, IsRegistered}

abbrev pub SaneSource : ClusterExternalIpSource → Type 0
SaneSource = AllSolvers IsSaneKind

-- What the foreign code does: a hash set gives the elements that were put in, each of them and no
-- other; and the API gives sources whose masks are addresses and whose lists fit the memory.
pub record IsLawful (E : Env) : Type 0 where
  pub solvers_sound :
      (w : E.World) (keys : List Key) (k : Key) → Has k (E.iterate_solvers w keys) → Has k keys
  pub solvers_complete :
      (w : E.World) (keys : List Key) (k : Key) → Has k keys → Has k (E.iterate_solvers w keys)
  pub sane :
      (w : E.World) (items : List ClusterExternalIpSource)
      → (E.list_sources w).0 ≡ ok items
      → All SaneSource items

abbrev pub SaneKey : Key → Type 0
SaneKey = OfKey IsSaneKind

-- The solvers of parts are no merges.
partial_sane : (p : PartialSolverKind) → IsSaneKind (from_partial p)
partial_sane (PartialSolverKind.ip_api c) = tt
partial_sane (PartialSolverKind.interface c) = tt
partial_sane (PartialSolverKind.dns_hostname c) = tt
partial_sane (PartialSolverKind.load_balancer_ingress c) = tt
partial_sane (PartialSolverKind.static c) = tt

pub sources_sane :
    (items : List ClusterExternalIpSource)
    → All SaneSource items
    → All SaneKey (flat_map source_keys items)
sources_sane = sources_keys IsSaneKind partial_sane

-- From the keys to the sources.
module _ (r : SolverRegistry) where
  abbrev HasKey : Key → Type 0
  HasKey k = has r k ≡ true

  solver-IsRegistered :
      (kind : AddressKind) (s : SolverKind)
      → All HasKey (solver_keys kind s)
      → IsRegistered r kind s
  solver-IsRegistered kind (SolverKind.merge c) h =
      let (parts, own) =
        All-split HasKey
          (map (λ (ps : PartialSolver). (from_partial ps.solver, kind)) c.partial_solvers) _ h in
      (
        All-map HasKey (λ (ps : PartialSolver). (from_partial ps.solver, kind)) c.partial_solvers
            parts,
        own.0,
      )
  solver-IsRegistered kind (SolverKind.ip_api c) h = h.0
  solver-IsRegistered kind (SolverKind.interface c) h = h.0
  solver-IsRegistered kind (SolverKind.dns_hostname c) h = h.0
  solver-IsRegistered kind (SolverKind.load_balancer_ingress c) h = h.0
  solver-IsRegistered kind (SolverKind.static c) h = h.0

  list_registered :
      (kind : AddressKind) (refs : List SolverKind)
      → All HasKey (flat_map (solver_keys kind) refs)
      → ListRegistered r kind refs
  list_registered kind [] h = tt
  list_registered kind (s ∷ refs) h =
      let (a, b) = All-split HasKey (solver_keys kind s) _ h in
      (solver-IsRegistered kind s a, list_registered kind refs b)

  config_registered :
      (kind : AddressKind) (config : IpSolversConfig) (empty : Bool)
      → empty ≡ is_empty config.solvers
      → All HasKey (flat_map (solver_keys kind) config.solvers)
      → FamilyRegistered r kind (Source.to_option (Source.list_unless empty config))
  config_registered kind config true e h = tt
  config_registered kind config false e h = (sym e, list_registered kind config.solvers h)

  family_registered :
      (kind : AddressKind) (o : Option IpSolversConfig)
      → All HasKey (family_keys kind o)
      → FamilyRegistered r kind (Source.family o)
  unfolding Source.family
  family_registered kind none h = tt
  family_registered kind (some config) h = config_registered kind config _ refl h

  pub converts :
      (b : Bool) (value : ClusterExternalIpSource) (s source : ExternalIpSource) (e : IpSourceError)
      → (if b then err e else ok s) ≡ ok source
      → s ≡ source
  converts true value s source e h = cc h
  converts false value s source e h = cc h

  pub source_registered :
      (ceips : ClusterExternalIpSource) (source : ExternalIpSource)
      → All HasKey (source_keys ceips)
      → Source.try_from ceips ≡ ok source
      → SourceRegistered r source
  unfolding Source.try_from
  source_registered ceips source h e =
      let (h4, h6) = All-split HasKey (family_keys ipv4 ceips.spec.ipv4) _ h in
      subst (SourceRegistered r) (converts _ ceips _ source _ e)
        (family_registered ipv4 ceips.spec.ipv4 h4, family_registered ipv6 ceips.spec.ipv6 h6)
