-- ===== src/Env.antt =====
-- The code that is not of this repository, as the program calls it: the clock, the texts of
-- addresses and the iteration order of hash sets of the standard library, the resolver of
-- hickory, the interfaces of getifs, the client of reqwest and the API of kube. The answers may
-- depend on a world, which every call may change.
use externalip_manager.Prelude.{ℕ, String, Bool, Option, List}
use externalip_manager.Prelude.Outcome.{Result}
use externalip_manager.Net.{IpAddr, AddressKind}
use externalip_manager.Crd.{SolverKind, ClusterExternalIpSource}
use externalip_manager.Kube.{Service, Event}

-- `reqwest::Error`: whether `is_decode` holds of it, and its text.
pub record ReqwestError : Type 0 where
  pub is_decode : Bool
  pub text : String

pub data MyIpType : Type 0 where
  ipv4 ipv6 : MyIpType

-- `IpifyResponse` of provider_ipify.rs and `MyIpResponse` of provider_myip.rs, which serde reads.
pub record IpifyResponse : Type 0 where
  pub ip : IpAddr

pub record MyIpResponse : Type 0 where
  pub success : Bool
  pub ip : IpAddr
  pub type_ : MyIpType

pub record Env : Type 1 where
  pub World : Type 0
  -- `Instant::now`, in nanoseconds
  pub now : World → ℕ × World
  -- `str::parse` of an address of either family, and of one family
  pub parse_ip : String → Option IpAddr
  pub parse_ipv4 : String → Option ℕ
  pub parse_ipv6 : String → Option ℕ
  -- `IpAddr::to_string`
  pub ip_to_string : IpAddr → String
  -- the order in which a `HashSet` of what was put in gives its elements
  pub iterate_solvers : World → List (SolverKind × AddressKind) → List (SolverKind × AddressKind)
  pub iterate_addresses : World → List IpAddr → List IpAddr
  -- hickory: whether `Resolver::builder_tokio()...build()` succeeds, and `lookup_ip`
  pub build_resolver : World → Bool × World
  pub lookup_ip : String → World → Result String (List IpAddr) × World
  -- getifs
  pub Interface : Type 0
  pub interface_by_name : String → World → Result String (Option Interface) × World
  pub ipv4_addrs_by_filter : Interface → (ℕ → Bool) → World → Result String (List ℕ) × World
  pub ipv6_addrs_by_filter : Interface → (ℕ → Bool) → World → Result String (List ℕ) × World
  pub local_ipv4_addrs_by_filter : (ℕ → Bool) → World → Result String (List ℕ) × World
  pub local_ipv6_addrs_by_filter : (ℕ → Bool) → World → Result String (List ℕ) × World
  -- reqwest: `get(url).timeout(t).send()`, and the methods of the response
  pub Response : Type 0
  pub send : String → ℕ → World → Result ReqwestError Response × World
  pub status : Response → ℕ
  pub error_for_status : Response → Result ReqwestError Response
  pub json_ipify : Response → World → Result ReqwestError IpifyResponse × World
  pub json_my_ip : Response → World → Result ReqwestError MyIpResponse × World
  -- tokio: `sleep`
  pub sleep : ℕ → World → World
  -- kube: `Client::try_default`, the lists over all namespaces, `patch` of a service's external addresses, `publish`
  pub try_default : World → Result String Unit × World
  pub list_services : World → Result String (List Service) × World
  pub list_sources : World → Result String (List ClusterExternalIpSource) × World
  pub patch_service : String → String → List String → World → Result String Unit × World
  pub publish : Event → World → Result String Unit × World
