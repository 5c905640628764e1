-- ===== src/Registry/Leaves.antt =====
-- The solvers that call no other, and the keys that they stand for
-- (crates/manager/src/external_ip_source/solvers/).
use externalip_manager.Prelude.{arith, ◌∙◌, List, ℕ, suc}
use externalip_manager.Prelude.Outcome.{Outcome}
use externalip_manager.Net.{IpAddr, AddressKind}
use externalip_manager.Errors.{SolverError}
use externalip_manager.Crd.{SolverKind}
use externalip_manager.Kube.{Service}
use externalip_manager.Env.{Env}
use externalip_manager.Solver.{Solver}
use externalip_manager.State.{State}
use externalip_manager.Solvers.IpApi.Backoff
use externalip_manager.Solvers.Ingress
use externalip_manager.Solvers.Dispatch
use externalip_manager.Registry.Matches.{Matches, Calm, Frame, Frame-refl}
use externalip_manager.Registry.Quiet.{IsLeaf, dns-IsQuiet, interface-IsQuiet}
use externalip_manager.Registry.QuietApi.{ip_api-IsQuiet}

module _ (E : Env) where
  ingress_quiet :
      (kind : AddressKind) (svc : Service) (st : State E)
      → Calm (Dispatch.of_result (Ingress.get_addresses E kind svc))
  unfolding Ingress.get_addresses
  ingress_quiet kind svc st = ground arith

  -- How a solver that calls no other ends.
  pub record EndsQuietly (k : SolverKind) (st : State E)
      (end : Outcome SolverError (List IpAddr) × Solver × State E) : Type 0 where
    pub calm : Calm end.0
    pub matches : Matches k end.1
    pub frame : Frame st end.2

  pub leaf_lem :
      (depth : ℕ) (k : SolverKind) (s : Solver) (kind : AddressKind) (svc : Service) (st : State E)
      → IsLeaf k
      → Matches k s
      → EndsQuietly k st (Dispatch.get_addresses E (suc depth) s kind svc st)
  unfolding Dispatch.get_addresses
  leaf_lem depth (SolverKind.ip_api c) (Solver.ip_api s) kind svc st l m =
      let q = ip_api-IsQuiet E s kind st in
      record { calm = q.calm; matches = Backoff.inner_lem E s kind st ∙ m; frame = q.frame }
  leaf_lem depth (SolverKind.interface c) (Solver.interface s) kind svc st l m =
      let q = interface-IsQuiet E s kind st in
      record { calm = q.calm; matches = m; frame = q.frame }
  leaf_lem depth (SolverKind.dns_hostname c) (Solver.dns_hostname s) kind svc st l m =
      let q = dns-IsQuiet E s kind st in record { calm = q.calm; matches = m; frame = q.frame }
  leaf_lem depth (SolverKind.load_balancer_ingress c) (Solver.load_balancer_ingress s) kind svc st l
        m =
      record { calm = ingress_quiet kind svc st; matches = m; frame = Frame-refl st }
  leaf_lem depth (SolverKind.static c) (Solver.static s) kind svc st l m = record {
    calm = tt;
    matches = m;
    frame = Frame-refl st;
  }
  leaf_lem depth (SolverKind.merge c) s kind svc st l m = elim l [ ]
  leaf_lem depth _ _ kind svc st l m = elim m [ ]
