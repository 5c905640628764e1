-- ===== src/Registry/Walk.antt =====
-- The solvers of sources and the keys that `refresh` makes of them.
use externalip_manager.Prelude.{
  Option, none, some, List, [], ◌∷◌, All, flat_map, map, All-append, All-split,
}
use externalip_manager.Net.{AddressKind, ipv4, ipv6}
use externalip_manager.Crd.{
  SolverKind, PartialSolverKind, ClusterExternalIpSource, IpSolversConfig, PartialSolver,
  from_partial,
}
use externalip_manager.State.{Key}
use externalip_manager.Registry.{solver_keys, source_keys, family_keys}

abbrev pub OfKey : (SolverKind → Type 0) → Key → Type 0
OfKey P k = P k.0

-- The property holds of every solver that the source lists.
abbrev pub AllListed : (SolverKind → Type 0) → Option IpSolversConfig → Type 0
AllListed P none = Unit
AllListed P (some config) = All P config.solvers

abbrev pub AllSolvers : (SolverKind → Type 0) → ClusterExternalIpSource → Type 0
AllSolvers P ceips = AllListed P ceips.spec.ipv4 × AllListed P ceips.spec.ipv6

module _ (P : SolverKind → Type 0) where
  own_key : (kind : AddressKind) (s : SolverKind) → All (OfKey P) (solver_keys kind s) → P s
  own_key kind (SolverKind.merge c) h =
      (All-split (OfKey P)
        (map (λ (ps : PartialSolver). (from_partial ps.solver, kind)) c.partial_solvers) _ h).1.0
  own_key kind (SolverKind.ip_api c) h = h.0
  own_key kind (SolverKind.interface c) h = h.0
  own_key kind (SolverKind.dns_hostname c) h = h.0
  own_key kind (SolverKind.load_balancer_ingress c) h = h.0
  own_key kind (SolverKind.static c) h = h.0

  list_listed :
      (kind : AddressKind) (refs : List SolverKind)
      → All (OfKey P) (flat_map (solver_keys kind) refs)
      → All P refs
  list_listed kind [] h = tt
  list_listed kind (s ∷ refs) h =
      let (a, b) = All-split (OfKey P) (solver_keys kind s) _ h in
      (own_key kind s a, list_listed kind refs b)

  family_listed :
      (kind : AddressKind) (o : Option IpSolversConfig)
      → All (OfKey P) (family_keys kind o)
      → AllListed P o
  family_listed kind none h = tt
  family_listed kind (some config) h = list_listed kind config.solvers h

  -- What holds of the keys holds of the solvers.
  pub keys_sources :
      (items : List ClusterExternalIpSource)
      → All (OfKey P) (flat_map source_keys items)
      → All (AllSolvers P) items
  keys_sources [] h = tt
  keys_sources (c ∷ items) h =
      let (own, rest) = All-split (OfKey P) (source_keys c) _ h in
      let (h4, h6) = All-split (OfKey P) (family_keys ipv4 c.spec.ipv4) _ own in
      (
        (family_listed ipv4 c.spec.ipv4 h4, family_listed ipv6 c.spec.ipv6 h6),
        keys_sources items rest,
      )

  module _ (of_part : (p : PartialSolverKind) → P (from_partial p)) where
    part_keys :
        (kind : AddressKind) (pss : List PartialSolver)
        → All (OfKey P) (map (λ (ps : PartialSolver). (from_partial ps.solver, kind)) pss)
    part_keys kind [] = tt
    part_keys kind (ps ∷ pss) = (of_part ps.solver, part_keys kind pss)

    own_keys : (kind : AddressKind) (s : SolverKind) → P s → All (OfKey P) (solver_keys kind s)
    own_keys kind (SolverKind.merge c) h =
        All-append (OfKey P) _ _ (part_keys kind c.partial_solvers) (h, tt)
    own_keys kind (SolverKind.ip_api c) h = (h, tt)
    own_keys kind (SolverKind.interface c) h = (h, tt)
    own_keys kind (SolverKind.dns_hostname c) h = (h, tt)
    own_keys kind (SolverKind.load_balancer_ingress c) h = (h, tt)
    own_keys kind (SolverKind.static c) h = (h, tt)

    list_keys :
        (kind : AddressKind) (refs : List SolverKind)
        → All P refs
        → All (OfKey P) (flat_map (solver_keys kind) refs)
    list_keys kind [] h = tt
    list_keys kind (s ∷ refs) h =
        All-append (OfKey P) (solver_keys kind s) _ (own_keys kind s h.0) (list_keys kind refs h.1)

    listed_keys :
        (kind : AddressKind) (o : Option IpSolversConfig)
        → AllListed P o
        → All (OfKey P) (family_keys kind o)
    listed_keys kind none h = tt
    listed_keys kind (some config) h = list_keys kind config.solvers h

    -- What holds of the solvers, and of those of parts, holds of the keys.
    pub sources_keys :
        (items : List ClusterExternalIpSource)
        → All (AllSolvers P) items
        → All (OfKey P) (flat_map source_keys items)
    sources_keys [] h = tt
    sources_keys (c ∷ items) h =
        All-append (OfKey P) (source_keys c) _
          (All-append (OfKey P) (family_keys ipv4 c.spec.ipv4) _
            (listed_keys ipv4 c.spec.ipv4 h.0.0) (listed_keys ipv6 c.spec.ipv6 h.0.1))
          (sources_keys items h.1)
