-- ===== src/Registry/Contents.antt =====
-- What `refresh` makes of the sources of the API: the map of sources, and the events.
use mathlib.Core.List.{append_assoc, append-nil}
use externalip_manager.Prelude.{
  ◌≡◌, refl, ◌∙◌, ap, sym, Option, none, some, List, [], ◌∷◌, ◌++◌, Bool, true, false, ◌&&◌, String,
  if◌then◌else◌, filter_map, flat_map, keep, map, arith,
}
use externalip_manager.Prelude.Eq.{String-eq, ◌=?◌}
use externalip_manager.Prelude.Map
use externalip_manager.Prelude.Map.{Map}
use externalip_manager.Prelude.Outcome.{
  Outcome, done, fail, panic, Result, ok, err, Exec, resume, ◌>>=◌, pure,
}
use externalip_manager.Errors.{IpSourceError, malformed, no_source_block}
use externalip_manager.Crd.{SolverKind, ClusterExternalIpSource, DnsHostnameConfig}
use externalip_manager.Kube.{Effect, published, warning, invalid_source, source_ref}
use externalip_manager.Env.{Env}
use externalip_manager.Solver.{Solver, Merge as MergeStruct}
use externalip_manager.Events.{publish}
use externalip_manager.Source
use externalip_manager.Source.{source_name, name_or_default, is_none}
use externalip_manager.Source.Types.{ExternalIpSource}
use externalip_manager.State.{State, Key, with_world}
use externalip_manager.Solvers.Dispatch
use externalip_manager.Solvers.Dns
use externalip_manager.Registry.{
  refresh, populate, register, take_in, take_sources, received, publish_all, parse_event, converted,
  rejected, insert_all, collect_sources, get_cluster, reason_eip_error, source_keys,
}
use externalip_manager.Registry.Collected.{take_sources-sources}

-- What is found under a name: the last source of the list that has the name and a block.
abbrev pub named_source : String → ClusterExternalIpSource → Option ExternalIpSource
named_source name ceips =
    if name =? name_or_default ceips.name
    then elim (Source.try_from ceips) [ ok source ↦ some source | err e ↦ none ]
    else none

abbrev pub or_else : {A : Type 0} → Option A → Option A → Option A
or_else (some a) b = some a
or_else none b = b

abbrev pub latest : String → List ClusterExternalIpSource → Option ExternalIpSource
latest name [] = none
latest name (ceips ∷ items) = or_else (latest name items) (named_source name ceips)

-- The source has no block.
abbrev pub refused : ClusterExternalIpSource → Bool
refused ceips = is_none ceips.spec.ipv4 && is_none ceips.spec.ipv6

abbrev pub refusal : ClusterExternalIpSource → Effect
refusal ceips = published (record {
  type_ = warning;
  reason = reason_eip_error;
  action = "ParsingClusterExternalIPSource";
  note = some (invalid_source (malformed no_source_block));
  object = source_ref ceips.name;
})

-- What a call leaves of the sources and of the trace.
pub record Leaves {E : Env} (st t : State E) : Type 0 where
  pub sources : t.cluster_eip_sources ≡ st.cluster_eip_sources
  pub trace : t.trace ≡ st.trace

module _ {E : Env} where
  Leaves-refl : (st : State E) → Leaves st st
  Leaves-refl st = record { sources = refl; trace = refl }

  Leaves-trans : {st t u : State E} → Leaves st t → Leaves t u → Leaves st u
  Leaves-trans a b = record { sources = b.sources ∙ a.sources; trace = b.trace ∙ a.trace }

  Leaves-resume :
      {A B : Type 0} (r : Outcome IpSourceError A) (f : A → Exec (State E) IpSourceError B)
      (st t : State E)
      → Leaves st t
      → ((a : A) → Leaves t (f a t).1)
      → Leaves st (resume r f t).1
  Leaves-resume (done a) f st t h k = Leaves-trans h (k a)
  Leaves-resume (fail e) f st t h k = h
  Leaves-resume (panic p) f st t h k = h

or_else-none : {A : Type 0} (o : Option A) → or_else o none ≡ o
or_else-none none = refl
or_else-none (some a) = refl

module _ (E : Env) where
  boxed-Leaves :
      (m : Outcome IpSourceError MergeStruct) (st : State E)
      → Leaves st (Dispatch.boxed_merge E m st).1
  boxed-Leaves (done m) st = Leaves-refl st
  boxed-Leaves (fail e) st = Leaves-refl st
  boxed-Leaves (panic p) st = Leaves-refl st

  built-Leaves :
      (c : DnsHostnameConfig) (b : Bool) (st0 st : State E)
      → Leaves st0 st
      → Leaves st0
          ((Dns.built E {F = IpSourceError} c b >>= λ d. pure (Solver.dns_hostname d)) st).1
  unfolding ◌>>=◌
  built-Leaves c true st0 st h = h
  built-Leaves c false st0 st h = h

  try_from-Leaves : (k : SolverKind) (st : State E) → Leaves st (Dispatch.try_from E k st).1
  unfolding Dispatch.try_from Dns.new
  try_from-Leaves (SolverKind.ip_api c) st = Leaves-refl st
  try_from-Leaves (SolverKind.interface c) st = Leaves-refl st
  try_from-Leaves (SolverKind.dns_hostname c) st =
      built-Leaves c (E.build_resolver st.world).0 st (with_world st (E.build_resolver st.world).1)
        (record { sources = refl; trace = refl })
  try_from-Leaves (SolverKind.load_balancer_ingress c) st = Leaves-refl st
  try_from-Leaves (SolverKind.static c) st = Leaves-refl st
  try_from-Leaves (SolverKind.merge c) st = boxed-Leaves _ st

  populate-Leaves : (keys : List Key) (st : State E) → Leaves st (populate E keys st).1
  unfolding populate ◌>>=◌
  populate-Leaves [] st = Leaves-refl st
  populate-Leaves (key ∷ rest) st =
      Leaves-resume (Dispatch.try_from E key.0 st).0 _ st _ (try_from-Leaves key.0 st) λ s.
        Leaves-trans (record { sources = refl; trace = refl })
          (populate-Leaves rest (register E key s (Dispatch.try_from E key.0 st).1).1)

  publish_all-trace :
      (errors : List (IpSourceError × Option String)) (st : State E)
      → (publish_all E errors st).trace ≡ st.trace ++ map (λ e. published (parse_event e)) errors
  unfolding publish_all publish
  publish_all-trace [] st = sym (append-nil st.trace)
  publish_all-trace (e ∷ rest) st =
      publish_all-trace rest (publish E (parse_event e) st)
      ∙ append_assoc st.trace (published (parse_event e) ∷ [])
          (map (λ e. published (parse_event e)) rest)

  refusals :
      (items : List ClusterExternalIpSource)
      → map (λ e. published (parse_event e)) (filter_map rejected items)
        ≡ map refusal (keep refused items)
  unfolding Source.try_from
  refusals [] = refl
  refusals (c ∷ items) = ground (arith, refusals items)

  abbrev made : ClusterExternalIpSource → ExternalIpSource
  made c = record {
    kind = Source.Types.cluster (name_or_default c.name);
    v4 = Source.family c.spec.ipv4;
    v6 = Source.family c.spec.ipv6;
  }

  insert_all-latest :
      (m : Map String ExternalIpSource) (items : List ClusterExternalIpSource) (name : String)
      → Map.get (insert_all m (filter_map converted items)) name
        ≡ or_else (latest name items) (Map.get m name)
  unfolding insert_all Source.try_from
  insert_all-latest m [] name = refl
  insert_all-latest m (c ∷ items) name = ground (
    arith,
    insert_all-latest m items name,
    insert_all-latest (Map.insert m (name_or_default c.name) (made c)) items name,
    Map.get-insert m (name_or_default c.name) (made c) name,
  )

  -- Once the API has listed the sources, and however the refresh then ends: under a name stands
  -- the last source of the list that has the name and at least one block, and nothing stands
  -- under a name that no such source has.
  pub refresh-latest :
      (items : List ClusterExternalIpSource) (st : State E) (w : E.World) (name : String)
      → E.list_sources st.world ≡ (ok items, w)
      → get_cluster E name (refresh E st).1 ≡ latest name items
  unfolding refresh get_cluster ◌>>=◌ collect_sources Map.get
  refresh-latest items st w name e =
      let t = take_sources E items (with_world st w) in
      ap
        (λ (p : Result String (List ClusterExternalIpSource) × E.World).
          Map.get
            (resume (received E p.0 p.1 st).0 (take_in E)
              (received E p.0 p.1 st).1).1.cluster_eip_sources
            name)
        e
      ∙ ap (λ (m : Map String ExternalIpSource). Map.get m name)
          ((populate-Leaves (E.iterate_solvers t.world (flat_map source_keys items)) t).sources
            ∙ take_sources-sources E items (with_world st w))
      ∙ insert_all-latest [] items name
      ∙ or_else-none (latest name items)

  -- Once the API has listed the sources, and however the refresh then ends: it published one
  -- warning for each source without a block, in the order of the list, and had no other effect.
  pub refresh-refusals :
      (items : List ClusterExternalIpSource) (st : State E) (w : E.World)
      → E.list_sources st.world ≡ (ok items, w)
      → (refresh E st).1.trace ≡ st.trace ++ map refusal (keep refused items)
  unfolding refresh ◌>>=◌ take_sources
  refresh-refusals items st w e =
      let t = take_sources E items (with_world st w) in
      ap
        (λ (p : Result String (List ClusterExternalIpSource) × E.World).
          (resume (received E p.0 p.1 st).0 (take_in E) (received E p.0 p.1 st).1).1.trace)
        e
      ∙ (populate-Leaves (E.iterate_solvers t.world (flat_map source_keys items)) t).trace
      ∙ publish_all-trace (filter_map rejected items) _
      ∙ ap (λ x. st.trace ++ x) (refusals items)
