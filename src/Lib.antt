-- ===== src/Lib.antt =====
-- externalip-manager: a Kubernetes operator that resolves external addresses for annotated
-- services and writes them into the services' externalIPs.
--
-- The program (paths below crates/manager/src) is a manager (lib.rs) that, at a fixed interval
-- (crates/bin/src/main.rs), refreshes a registry of sources and solvers
-- (external_ip_source/registry.rs), finds the annotated services (svc/mod.rs), queries the source
-- of each (external_ip_source/source.rs), and patches the service when the addresses differ. A
-- source names solvers (external_ip_source/solvers/); the registry keeps one solver for each
-- configuration and address family behind a lock, and the merge solver calls other solvers
-- through the same registry.
--
-- Which file models what:
-- - Crd: crd/v1alpha1/mod.rs. Errors: error.rs and the other error types, with a constructor for
--   each formatted message. Net: std::net addresses as their bits, and AddressKind.
-- - Env: the code that is not of the repository (clock, parsing, hash set order, DNS, interfaces,
--   HTTP, the Kubernetes API) as one record of functions over a world, the argument E of all that
--   calls it. Kube: the fields of Kubernetes objects in use, and the effects on the world.
-- - Solver, State, Source.Types: the structs. The state of a call has the world, the trace of the
--   effects so far, the registry of solvers with their locks, and the cluster's sources.
-- - Solvers.Static, Ingress, Dns, Interface, Merge: one module for each solver. Solvers.Caching:
--   the trait IpProvider and the solver ip_api/solver.rs over any provider; Solvers.IpApi: the two
--   providers; Solvers.Mock: the provider of the tests, and the tests. Solvers.Dispatch: the
--   dynamic call and the construction (solvers/mod.rs).
-- - Source: ExternalIpSource::query, SolverList::query and the conversions. Registry: refresh and
--   get_cluster. Svc: find_annotated_svcs. Events: publish. Manager: reconcile_svcs,
--   reconcile_svc, resolve_svc_extipsource_addresses, update_svc_addresses. Main: the arguments
--   and the main loop. Exporter: crates/crd-exporter/src/main.rs, with its own foreign code.
-- - Prelude: lists, maps, outcomes, bits. Tests: a concrete environment and examples.
--
-- Registry.Plain is a description of the query for comparison, and models no code: a query that
-- asks each solver alone, in turn, with no lock, no time-out and no bound on the depth of calls.
--
-- How the code is read: a call that can fail and change the state is a function from a state to
-- an outcome (a value, an error, or a panic of the code) and a state. The program awaits every
-- call before the next, so there is one thread; a lock is a flag, and a call that finds it taken
-- can only time out, since the holder is one of its own callers. Numbers are unbounded, so the
-- overflow of the u128 sums is written out: the release build has overflow-checks, so it panics.
-- Solvers call one another at most two deep (max_depth in Source: a list calls a merge, a merge
-- calls a solver that is no merge); a call that is deeper panics in the model. The main loop has
-- no end, and is observed after a number of turns.
--
-- A lawful environment (IsLawful in Registry.Keys) is one in which a hash set gives the elements
-- that were put in and no other, and the sources that the API gives have masks that are addresses
-- and lists whose length fits a machine word.
--
-- Registry.Declared describes, for comparison too, the addresses that a source has if all its
-- solvers are static ones or take the load balancer's addresses, and Manager.Declared a pass over
-- such sources that knows no registry, no lock and no solver.
--
-- In a lawful environment the API may still give merges that Merge::new refuses. IsBuildable in
-- Registry.Builds asks for more: that the DNS resolver can be built, and that no merge has masks
-- whose sum overflows. ReadsBack in Manager.Settled says that the texts of addresses of 32 or of
-- 128 bits parse back, and IteratesAddresses that a hash set of addresses gives what was put in;
-- IsFiltering in Solvers.Interface.Outside is what getifs does with a filter, and IsMonotone in
-- Solvers.IpApi.Held what Instant promises: the clock does not go back.
--
-- Not modelled: the log, with the reading of the clock that one of its lines makes when a cached
-- answer is used, the custom resource's schema and its validation by the API server, the
-- construction of HTTP clients and of Kubernetes clients beyond its success, the parsing of
-- arguments with its bound on the interval (a u32), and the code behind Env and behind the
-- exporter's Files.
pub mod Prelude
pub mod Net
pub mod Crd
pub mod Errors
pub mod Kube
pub mod Env
pub mod Solver
pub mod State
pub mod Source
pub mod Solvers
pub mod Events
pub mod Registry
pub mod Svc
pub mod Manager
pub mod Tests
pub mod Main
pub mod Exporter
