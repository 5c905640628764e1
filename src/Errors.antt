-- ===== src/Errors.antt =====
-- The error types: `SolverError` of external_ip_source/solvers/mod.rs, `IpProviderError` of
-- solvers/ip_api/mod.rs, `IpSourceError` of external_ip_source/mod.rs, `FinderError` of
-- svc/mod.rs and `Error` of error.rs (paths below crates/manager/src). A message that the source
-- formats is a constructor with the message's arguments; an error of a foreign crate is its text.
use externalip_manager.Prelude.{ℕ, String}
use externalip_manager.Net.{IpAddr, AddressKind}
use externalip_manager.Crd.{SolverKind, PartialSolver}

pub data IpProviderError : Type 0 where
  rate_limited : IpProviderError
  request_failed : String → IpProviderError
  invalid_response : String → IpProviderError

-- The texts that the solvers put into `reason`.
pub data Reason : Type 0 where
  -- "solver {:?} not found", of a solver list and of a merge
  solver_not_found : SolverKind → AddressKind → Reason
  partial_not_found : PartialSolver → Reason
  -- "timed out waiting for solver", "timed out waiting for solver lock"
  solver_timeout solver_lock_timeout : Reason
  -- "no IP addresses were returned by any source"
  no_addresses : Reason
  -- "no status field on service" and so on
  no_status no_load_balancer no_ingress : Reason
  -- the resolver's error
  lookup_failed : String → Reason
  -- "unable to retrieve network interfaces", "interface {} does not exist", "unable to retrieve
  -- addresses"
  interfaces_unavailable : String → Reason
  interface_missing : String → Reason
  addresses_unavailable : String → Reason
  -- the provider's error
  provider_failed : IpProviderError → Reason
  -- "mismatched merge mask IP type"
  mask_mismatch : AddressKind → IpAddr → Reason
  -- "merge partialSolver returned no addresses"
  part_empty : Reason

pub record SolverError : Type 0 where
  pub reason : Reason

-- The texts of `IpSourceError::Malformed`.
pub data Malformation : Type 0 where
  no_source_block sources_empty : Malformation
  mask_sum : ℕ → Malformation

pub data IpSourceError : Type 0 where
  kube : String → IpSourceError
  solver : SolverError → IpSourceError
  malformed : Malformation → IpSourceError

-- `impl From<IpProviderError> for SolverError`
abbrev pub of_provider : IpProviderError → SolverError
of_provider e = record { reason = provider_failed e }

-- "could not find ExternalIPSource {}"
pub record FinderError : Type 0 where
  pub missing_source : String

pub data Error : Type 0 where
  service : FinderError → Error
  invalid_ip_address : String → Error
  kube : String → Error
  ip_source : String → IpSourceError → Error

-- `impl From<&IpProviderError> for SolverError`
abbrev pub of_provider_ref : IpProviderError → SolverError
of_provider_ref e = of_provider e

-- `impl From<kube::Error>` and `impl From<SolverError>` for `IpSourceError`
abbrev pub source_error_of_kube : String → IpSourceError
source_error_of_kube e = IpSourceError.kube e

abbrev pub source_error_of_solver : SolverError → IpSourceError
source_error_of_solver e = IpSourceError.solver e

-- The `impl From` of `Error`.
abbrev pub error_of_kube : String → Error
error_of_kube e = Error.kube e

abbrev pub error_of_parse : String → Error
error_of_parse text = invalid_ip_address text

abbrev pub error_of_finder : FinderError → Error
error_of_finder e = service e
