-- ===== src/Kube.antt =====
-- The fields of the Kubernetes objects that the program reads or writes, and the events that it
-- publishes (crates/manager/src/events.rs).
use externalip_manager.Prelude.{String, Option, List}
use externalip_manager.Prelude.Map.{Map}
use externalip_manager.Errors.{IpSourceError}

pub record LoadBalancerIngress : Type 0 where
  pub ip : Option String

pub record LoadBalancerStatus : Type 0 where
  pub ingress : Option (List LoadBalancerIngress)

pub record ServiceStatus : Type 0 where
  pub load_balancer : Option LoadBalancerStatus

pub record ServiceSpec : Type 0 where
  pub external_ips : Option (List String)

pub record ObjectMeta : Type 0 where
  pub name : Option String
  pub namespace : Option String
  pub annotations : Option (Map String String)

pub record Service : Type 0 where
  pub metadata : ObjectMeta
  pub spec : Option ServiceSpec
  pub status : Option ServiceStatus

-- `object_ref(&())`, as far as it tells one object from another.
pub data ObjectReference : Type 0 where
  service_ref : Option String → Option String → ObjectReference
  source_ref : Option String → ObjectReference

pub data EventType : Type 0 where
  normal warning : EventType

-- The texts of `message`, with their arguments.
pub data Note : Type 0 where
  invalid_external_ips : Note
  source_missing : String → Note
  lookup_failed : IpSourceError → Note
  invalid_source : IpSourceError → Note

pub record Event : Type 0 where
  pub type_ : EventType
  pub reason : String
  pub action : String
  pub note : Option Note
  pub object : ObjectReference

-- What the program does to the world, in order: a request to an address provider, an event that
-- it publishes, the patch of a service's external addresses (namespace, name, addresses).
pub data Effect : Type 0 where
  requested : String → Effect
  published : Event → Effect
  patched : String → String → List String → Effect
