-- ===== src/Registry/Refreshed.antt =====
-- `refresh` as a whole: what it keeps however it ends, and what holds when it succeeds.
use mathlib.Core.Path.{subst}
use externalip_manager.Prelude.{
  ◌≡◌, refl, ◌∙◌, ap, sym, some, List, [], ◌∷◌, true, All, All-of_flat_map, All-of_Has, All-Has,
  flat_map, String,
}
use externalip_manager.Prelude.Eq.{String-eq}
use externalip_manager.Prelude.Map
use externalip_manager.Prelude.Map.{Map}
use externalip_manager.Prelude.Outcome.{done, Result, ok, err, resume, ◌>>=◌}
use externalip_manager.Prelude.Binds.{>>=-done}
use externalip_manager.Crd.{ClusterExternalIpSource}
use externalip_manager.Kube.{Service}
use externalip_manager.Env.{Env}
use externalip_manager.Source
use externalip_manager.Source.{source_name}
use externalip_manager.Source.Types.{ExternalIpSource}
use externalip_manager.State.{State, Key, Key-eq, SolverRegistry, with_world}
use externalip_manager.Registry.{
  refresh, take_in, take_sources, received, list_sources, source_keys, collect_sources, get_cluster,
}
use externalip_manager.Registry.Matches.{snd_of}
use externalip_manager.Registry.Idle.{has}
use externalip_manager.Registry.Queries.{SourceRegistered, query-Ended}
use externalip_manager.Registry.SolverLists.{Ended, IsIdle}
use externalip_manager.Registry.Refresh.{KeepsSlots, populate-Grown, populate-has}
use externalip_manager.Registry.Keys.{
  IsLawful, SaneSource, SaneKey, sources_sane, source_registered,
}
use externalip_manager.Registry.Collected.{
  take_sources-solvers, take_sources-sources, found_of_items, received-done,
}

-- No lock is held, and the solvers that were there are there as they were, caches included.
abbrev pub KeepsIdle : {E : Env} → State E → State E → Type 0
KeepsIdle st t = IsIdle t.solvers × KeepsSlots st.solvers t.solvers

module _ (E : Env) (law : IsLawful E) where
  iterated_sane :
      (w : E.World) (keys : List Key) → All SaneKey keys → All SaneKey (E.iterate_solvers w keys)
  iterated_sane w keys h =
      All-of_Has SaneKey (E.iterate_solvers w keys)
        λ k m. All-Has SaneKey keys k h (law.solvers_sound w keys k m)

  take_in-KeepsIdle :
      (items : List ClusterExternalIpSource) (st : State E)
      → IsIdle st.solvers
      → All SaneSource items
      → KeepsIdle st (take_in E items st).1
  take_in-KeepsIdle items st idle sane =
      let t = take_sources E items st in
      let same = take_sources-solvers E items st in
      let g =
        populate-Grown E (E.iterate_solvers t.world (flat_map source_keys items)) t
          (subst IsIdle (sym same) idle) (iterated_sane t.world _ (sources_sane items sane)) in
      (
        g.idle,
        λ k slot e.
            g.slots k slot (subst (λ (r : SolverRegistry). Map.get r k ≡ some slot) (sym same) e),
      )

  received-KeepsIdle :
      (answer : Result String (List ClusterExternalIpSource)) (w : E.World) (st : State E)
      → IsIdle st.solvers
      → ((items : List ClusterExternalIpSource) → answer ≡ ok items → All SaneSource items)
      → KeepsIdle st (resume (received E answer w st).0 (take_in E) (received E answer w st).1).1
  received-KeepsIdle (ok items) w st idle sane =
      take_in-KeepsIdle items (with_world st w) idle (sane items refl)
  received-KeepsIdle (err e) w st idle sane = (idle, λ k s h. h)

  -- In a lawful environment, however a refresh ends, from a registry with no lock held, it leaves one with no lock held, in
  -- which every solver that was registered still is, with its cache and its backoff untouched.
  pub refresh-KeepsIdle : (st : State E) → IsIdle st.solvers → KeepsIdle st (refresh E st).1
  unfolding refresh ◌>>=◌
  refresh-KeepsIdle st idle =
      received-KeepsIdle (E.list_sources st.world).0 (E.list_sources st.world).1 st idle
        (λ items e. law.sane st.world items e)

  -- The keys of every source are registered once the loop has ended well.
  keys_registered :
      (items : List ClusterExternalIpSource) (st t : State E)
      → IsIdle st.solvers
      → All SaneSource items
      → take_in E items st ≡ (done tt, t)
      → All (λ c. All (λ k. has t.solvers k ≡ true) (source_keys c)) items
        × (t.cluster_eip_sources ≡ collect_sources items)
  keys_registered items st t idle sane h =
      let u = take_sources E items st in
      let keys = flat_map source_keys items in
      let order = E.iterate_solvers u.world keys in
      let same = take_sources-solvers E items st in
      let idle_u = subst IsIdle (sym same) idle in
      let sane_keys = iterated_sane u.world keys (sources_sane items sane) in
      let in_order = populate-has E order u idle_u sane_keys h in
      let g = populate-Grown E order u idle_u sane_keys in
      (
        All-of_flat_map (λ k. has t.solvers k ≡ true) source_keys items
            (All-of_Has _ keys
              λ k m. All-Has _ order k in_order (law.solvers_complete u.world keys k m)),
        ap (λ (x : State E). x.cluster_eip_sources) (sym (ap snd_of h))
            ∙ g.sources
            ∙ take_sources-sources E items st,
      )

  sources_registered :
      (r : SolverRegistry) (items : List ClusterExternalIpSource)
      → All (λ c. All (λ k. has r k ≡ true) (source_keys c)) items
      → All (λ c. (s : ExternalIpSource) → Source.try_from c ≡ ok s → SourceRegistered r s) items
  sources_registered r [] h = tt
  sources_registered r (c ∷ items) h =
      (λ s e. source_registered r c s h.0 e, sources_registered r items h.1)

  -- In a lawful environment, after a refresh that succeeds, from a registry with no lock held, every source that is found
  -- under a name has all the solvers registered that a query of it calls, those of its merges
  -- included.
  pub refresh-SourceRegistered :
      (st t : State E)
      → IsIdle st.solvers
      → refresh E st ≡ (done tt, t)
      → (name : String) (source : ExternalIpSource) → get_cluster E name t ≡ some source
      → SourceRegistered t.solvers source
  unfolding refresh get_cluster
  refresh-SourceRegistered st t idle h name source e =
      let (items, u, got, more) = >>=-done (list_sources E) (take_in E) st h in
      let (answer, at) =
        received-done E (E.list_sources st.world).0 (E.list_sources st.world).1 st got in
      let idle_u = subst (λ (x : State E). IsIdle x.solvers) at idle in
      let (keys, sources) =
        keys_registered items u t idle_u (law.sane st.world items answer) more in
      found_of_items (SourceRegistered t.solvers) items (sources_registered t.solvers items keys)
        name source
        (subst (λ (m : Map String ExternalIpSource). Map.get m name ≡ some source) sources e)

  -- In a lawful environment, after a refresh that succeeds, from a registry with no lock held, the
  -- query of a source that is found under a name ends with addresses or with the error that no
  -- solver gave any.
  pub refresh-query :
      (st t : State E) (svc : Service)
      → IsIdle st.solvers
      → refresh E st ≡ (done tt, t)
      → (name : String) (source : ExternalIpSource) → get_cluster E name t ≡ some source
      → Ended t (Source.query E source svc t)
  refresh-query st t svc idle h name source e =
      query-Ended E svc source t
        (subst (λ (x : State E). IsIdle x.solvers) (ap snd_of h) (refresh-KeepsIdle st idle).0)
        (refresh-SourceRegistered st t idle h name source e)
