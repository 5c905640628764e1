-- ===== src/Events.antt =====
-- crates/manager/src/events.rs: a failure to publish is logged and changes nothing else.
use externalip_manager.Kube.{Event, published}
use externalip_manager.Env.{Env}
use externalip_manager.State.{State, with_world, record_effect}

unfoldable pub publish : (E : Env) → Event → State E → State E
publish E event st =
    let (answer, w) = E.publish event st.world in record_effect (published event) (with_world st w)
