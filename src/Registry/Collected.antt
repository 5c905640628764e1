-- ===== src/Registry/Collected.antt =====
-- The sources that `refresh` takes from the API, and the events about the others.
use mathlib.Core.Path.{subst}
use mathlib.Core.Option.{some-injective}
use externalip_manager.Prelude.{
  ◌≡◌, refl, ◌∙◌, ap, sym, Option, none, some, List, [], ◌∷◌, All, All-filter_map, filter_map,
  String,
}
use externalip_manager.Prelude.Eq.{String-eq}
use externalip_manager.Prelude.Map
use externalip_manager.Prelude.Map.{Map}
use externalip_manager.Prelude.Outcome.{Outcome, done, fail, panic, Result, ok, err}
use externalip_manager.Errors.{IpSourceError}
use externalip_manager.Crd.{ClusterExternalIpSource}
use externalip_manager.Env.{Env}
use externalip_manager.Events.{publish}
use externalip_manager.Source
use externalip_manager.Source.{source_name}
use externalip_manager.Source.Types.{ExternalIpSource}
use externalip_manager.State.{State, Key-eq, with_world}
use externalip_manager.Registry.{
  take_sources, received, publish_all, parse_event, converted, rejected, insert_all,
  collect_sources,
}
use externalip_manager.Registry.Matches.{snd_of}

publish_all-solvers :
    (E : Env) (errors : List (IpSourceError × Option String)) (st : State E)
    → (publish_all E errors st).solvers ≡ st.solvers
unfolding publish_all publish
publish_all-solvers E [] st = refl
publish_all-solvers E (e ∷ rest) st = publish_all-solvers E rest (publish E (parse_event e) st)

publish_all-sources :
    (E : Env) (errors : List (IpSourceError × Option String)) (st : State E)
    → (publish_all E errors st).cluster_eip_sources ≡ st.cluster_eip_sources
unfolding publish_all publish
publish_all-sources E [] st = refl
publish_all-sources E (e ∷ rest) st = publish_all-sources E rest (publish E (parse_event e) st)

inserted :
    (P : ExternalIpSource → Type 0) (m : Map String ExternalIpSource) (source : ExternalIpSource)
    → ((name : String) (s : ExternalIpSource) → Map.get m name ≡ some s → P s)
    → P source
    → (name : String) (s : ExternalIpSource)
    → Map.get (Map.insert m (source_name source.kind) source) name ≡ some s
    → P s
inserted P m source h p name s e =
    let key = source_name source.kind in
    elim (String-eq.dec name key) [
      | yes q ↦
          subst P
            (some-injective source s (
              sym (Map.get-insert_self m key source)
              ∙ ap (Map.get (Map.insert m key source)) (sym q)
              ∙ e))
            p
      | no n ↦ h name s (sym (Map.get-insert_ne m key source n) ∙ e)
    ]

pub take_sources-solvers :
    (E : Env) (items : List ClusterExternalIpSource) (st : State E)
    → (take_sources E items st).solvers ≡ st.solvers
unfolding take_sources
take_sources-solvers E items st = publish_all-solvers E (filter_map rejected items) _

pub take_sources-sources :
    (E : Env) (items : List ClusterExternalIpSource) (st : State E)
    → (take_sources E items st).cluster_eip_sources ≡ collect_sources items
unfolding take_sources
take_sources-sources E items st = publish_all-sources E (filter_map rejected items) _

-- What holds of every source that is put in holds of every source that is found.
found_of_insert_all :
    (P : ExternalIpSource → Type 0) (m : Map String ExternalIpSource)
    (sources : List ExternalIpSource)
    → ((name : String) (s : ExternalIpSource) → Map.get m name ≡ some s → P s)
    → All P sources
    → (name : String) (s : ExternalIpSource) → Map.get (insert_all m sources) name ≡ some s
    → P s
unfolding insert_all
found_of_insert_all P m [] h k name s e = h name s e
found_of_insert_all P m (source ∷ rest) h k name s e =
    found_of_insert_all P (Map.insert m (source_name source.kind) source) rest
      (inserted P m source h k.0) k.1 name s e

converted-ok :
    (r : Result IpSourceError ExternalIpSource) (s : ExternalIpSource)
    → elim r [ ok source ↦ some source | err e ↦ none ] ≡ some s
    → r ≡ ok s
converted-ok (ok a) s h = ap ok (some-injective a s h)
converted-ok (err e) s h = cc h

All-converted :
    (P : ExternalIpSource → Type 0) (items : List ClusterExternalIpSource)
    → All (λ c. (s : ExternalIpSource) → Source.try_from c ≡ ok s → P s) items
    → All (λ c. (s : ExternalIpSource) → converted c ≡ some s → P s) items
All-converted P [] h = tt
All-converted P (c ∷ items) h =
    (λ s e. h.0 s (converted-ok (Source.try_from c) s e), All-converted P items h.1)

-- A source that is found was made of one of the API's.
pub found_of_items :
    (P : ExternalIpSource → Type 0) (items : List ClusterExternalIpSource)
    → All (λ c. (s : ExternalIpSource) → Source.try_from c ≡ ok s → P s) items
    → (name : String) (s : ExternalIpSource) → Map.get (collect_sources items) name ≡ some s
    → P s
unfolding collect_sources Map.get
found_of_items P items h name s e =
    found_of_insert_all P [] (filter_map converted items) (λ n a f. cc f)
      (All-filter_map P converted items (All-converted P items h)) name s e

done_of : {A : Type 0} → Outcome IpSourceError A → Option A
done_of (done a) = some a
done_of (fail e) = none
done_of (panic p) = none

pub received-done :
    (E : Env) (answer : Result String (List ClusterExternalIpSource)) (w : E.World) (st : State E)
    {items : List ClusterExternalIpSource} {u : State E}
    → received E answer w st ≡ (done items, u)
    → (answer ≡ ok items) × (with_world st w ≡ u)
unfolding done_of
received-done E (ok xs) w st {items} {u} h = (
  ap ok (
      some-injective xs items (
        ap (λ (p : Outcome IpSourceError (List ClusterExternalIpSource) × State E). done_of p.0)
          h)),
  ap snd_of h,
)
received-done E (err e) w st h =
    cc (ap (λ (p : Outcome IpSourceError (List ClusterExternalIpSource) × State E). p.0) h)
