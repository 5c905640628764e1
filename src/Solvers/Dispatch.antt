-- ===== src/Solvers/Dispatch.antt =====
-- `dyn Solver::get_addresses`, and `TryFrom<SolverKind> for Box<dyn Solver>`
-- (crates/manager/src/external_ip_source/solvers/mod.rs).
use externalip_manager.Prelude.{ℕ, zero, suc, List}
use externalip_manager.Prelude.Outcome.{
  Outcome, Result, ok, err, done, fail, panic, recursion, Exec, ◌>>=◌, pure,
}
use externalip_manager.Net.{IpAddr}
use externalip_manager.Errors.{SolverError, IpSourceError}
use externalip_manager.Crd.{SolverKind}
use externalip_manager.Env.{Env}
use externalip_manager.Solver.{Merge as MergeSolver}
use externalip_manager.Solver.{
  Solver, ip_api, interface, dns_hostname, load_balancer_ingress, static, merge,
}
use externalip_manager.State.{State}
use externalip_manager.Solvers.Merge.{Call}
use externalip_manager.Solvers.Static
use externalip_manager.Solvers.Ingress
use externalip_manager.Solvers.Dns
use externalip_manager.Solvers.Interface
use externalip_manager.Solvers.Caching
use externalip_manager.Solvers.IpApi.{ip_provider}
use externalip_manager.Solvers.IpApi
use externalip_manager.Solvers.Merge

-- A solver that keeps no state of its own.
abbrev pub unchanged :
    {S : Type 0}
    → Solver
    → Outcome SolverError (List IpAddr) × S
    → Outcome SolverError (List IpAddr) × Solver × S
unchanged self (r, st) = (r, self, st)

abbrev pub of_result : {A : Type 0} → Result SolverError A → Outcome SolverError A
of_result (ok a) = done a
of_result (err e) = fail e

module _ (E : Env) where
  -- The number bounds how deep solvers may call one another.
  unfoldable pub get_addresses : ℕ → Call E
  get_addresses zero self kind svc st = (panic recursion, self, st)
  get_addresses (suc depth) (ip_api s) kind svc st =
      let (r, after, st1) = Caching.get_addresses E s kind st in (r, ip_api after, st1)
  get_addresses (suc depth) (interface s) kind svc st =
      unchanged (interface s) (Interface.get_addresses E s kind st)
  get_addresses (suc depth) (dns_hostname s) kind svc st =
      unchanged (dns_hostname s) (Dns.get_addresses E s kind st)
  get_addresses (suc depth) (load_balancer_ingress s) kind svc st =
      unchanged (load_balancer_ingress s) (of_result (Ingress.get_addresses E kind svc), st)
  get_addresses (suc depth) (static s) kind svc st =
      unchanged (static s) (done (Static.get_addresses s kind), st)
  get_addresses (suc depth) (merge s) kind svc st =
      unchanged (merge s) (Merge.get_addresses (get_addresses depth) s kind svc st)

  abbrev pub boxed_merge : Outcome IpSourceError MergeSolver → Exec (State E) IpSourceError Solver
  boxed_merge (done m) st = (done (merge m), st)
  boxed_merge (fail e) st = (fail e, st)
  boxed_merge (panic p) st = (panic p, st)

  -- `try_from`
  unfoldable pub try_from : SolverKind → Exec (State E) IpSourceError Solver
  unfolding ◌>>=◌
  try_from (SolverKind.ip_api c) = pure (ip_api (IpApi.new c.provider))
  try_from (SolverKind.interface c) = pure (interface (Interface.new c.name))
  try_from (SolverKind.dns_hostname c) = Dns.new E c >>= λ d. pure (dns_hostname d)
  try_from (SolverKind.load_balancer_ingress c) = pure (load_balancer_ingress Ingress.new)
  try_from (SolverKind.static c) = pure (static (Static.new c.addresses))
  try_from (SolverKind.merge c) = boxed_merge (Merge.new c.partial_solvers)

  -- `TryFrom<&SolverKind>`
  abbrev pub try_from_ref : SolverKind → Exec (State E) IpSourceError Solver
  try_from_ref value = try_from value
