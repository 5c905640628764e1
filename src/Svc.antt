-- ===== src/Svc.antt =====
-- crates/manager/src/svc/mod.rs
use externalip_manager.Prelude.{String, Option, none, some, List, filter_map}
use externalip_manager.Prelude.Eq.{String-eq}
use externalip_manager.Prelude.Map
use externalip_manager.Prelude.Map.{Map}
use externalip_manager.Prelude.Outcome.{Result, ok, err, done, fail, Exec}
use externalip_manager.Errors.{FinderError}
use externalip_manager.Kube.{Service}
use externalip_manager.Env.{Env}
use externalip_manager.State.{State, with_world}
use externalip_manager.Source.Types.{ExternalIpSourceKind, cluster}

abbrev pub annotation_cluster_external_ip_source : String
annotation_cluster_external_ip_source = "externalip.spacebird.dev/cluster-external-ip-source"

pub record ExternalIpSvc : Type 0 where
  pub svc : Service
  pub source : ExternalIpSourceKind

abbrev pub selected : Service → Option String → Option (Result FinderError ExternalIpSvc)
selected svc none = none
selected svc (some source) = some (ok (record { svc = svc; source = cluster source }))

abbrev pub annotated :
    Service → Option (Map String String) → Option (Result FinderError ExternalIpSvc)
annotated svc none = none
annotated svc (some annotations) =
    selected svc (Map.get annotations annotation_cluster_external_ip_source)

-- The closure of `filter_map`.
unfoldable pub find : Service → Option (Result FinderError ExternalIpSvc)
find svc = annotated svc svc.metadata.annotations

abbrev pub created : (E : Env) → Result String Unit → E.World → Exec (State E) String Unit
created E (ok client) w st = (done tt, with_world st w)
created E (err e) w st = (fail e, with_world st w)

-- `ServiceFinder::new`; its error is that of kube.
unfoldable pub new : (E : Env) → Exec (State E) String Unit
new E st = let (answer, w) = E.try_default st.world in created E answer w st

abbrev pub received :
    (E : Env)
    → Result String (List Service)
    → E.World
    → Exec (State E) String (List (Result FinderError ExternalIpSvc))
received E (ok items) w st = (done (filter_map find items), with_world st w)
received E (err e) w st = (fail e, with_world st w)

-- `find_annotated_svcs`; its error is that of kube.
unfoldable pub find_annotated_svcs :
    (E : Env) → Exec (State E) String (List (Result FinderError ExternalIpSvc))
unfolding find
find_annotated_svcs E st = let (answer, w) = E.list_services st.world in received E answer w st
