-- ===== src/State.antt =====
-- What a call can change: the world, the trace of what was done to it, the solver registry with
-- its locks, and the cluster's sources (`IPSourceRegistry` of external_ip_source/registry.rs).
use externalip_manager.Prelude.{String, Option, Bool, true, false, none, some, List, []}
use externalip_manager.Prelude.{◌∷◌, ◌++◌}
use externalip_manager.Prelude.Eq.{Eq, String-eq}
use externalip_manager.Prelude.Map
use externalip_manager.Prelude.Map.{Map}
use externalip_manager.Prelude.Outcome.{Exec, done, fail}
use externalip_manager.Net.{AddressKind, AddressKind-discrete}
use externalip_manager.Crd.{SolverKind, SolverKind-discrete}
use externalip_manager.Kube.{Effect}
use externalip_manager.Env.{Env}
use externalip_manager.Solver.{Solver}
use externalip_manager.Source.Types.{ExternalIpSource}

-- `(SolverKind, AddressKind)`
abbrev pub Key : Type 0
Key = SolverKind × AddressKind

unfoldable pub Key-discrete : Discrete Key
unfolding SolverKind-discrete AddressKind-discrete
Key-discrete = hlevel (SolverKind-discrete, AddressKind-discrete)

instance unfoldable pub Key-eq : Eq Key
unfolding Key-discrete
Key-eq = record { dec = Key-discrete }

-- `RwLock<Box<dyn Solver>>`: the lock is only ever taken for writing.
pub record Slot : Type 0 where
  pub solver : Solver
  pub locked : Bool

abbrev pub SolverRegistry : Type 0
SolverRegistry = Map Key Slot

pub record State (E : Env) : Type 0 where
  pub world : E.World
  pub trace : List Effect
  pub solvers : SolverRegistry
  pub cluster_eip_sources : Map String ExternalIpSource

module _ {E : Env} where
  abbrev pub with_world : State E → E.World → State E
  with_world st w = record st { world = w }

  abbrev pub record_effect : Effect → State E → State E
  record_effect e st = record st { trace = st.trace ++ e ∷ [] }

  abbrev pub set_slot : Key → Slot → State E → State E
  set_slot key slot st = record st { solvers = Map.insert st.solvers key slot }

  -- `timeout(d, solver.write())` on a slot. Calls are sequential, so whoever holds the lock is a
  -- caller of this call and cannot let go of it: on a lock that is held the timeout strikes.
  abbrev pub lock : {F : Type 0} → F → Key → Solver → Bool → Exec (State E) F Solver
  lock timed_out key s true st = (fail timed_out, st)
  lock timed_out key s false st = (done s, set_slot key (record { solver = s; locked = true }) st)

  abbrev pub lock_slot : {F : Type 0} → F → F → Key → Option Slot → Exec (State E) F Solver
  lock_slot missing timed_out key none st = (fail missing, st)
  lock_slot missing timed_out key (some slot) st = lock timed_out key slot.solver slot.locked st

  -- `solvers.get(key).ok_or(missing)?`, and the lock on what it finds.
  unfoldable pub acquire : {F : Type 0} → F → F → Key → Exec (State E) F Solver
  acquire missing timed_out key st = lock_slot missing timed_out key (Map.get st.solvers key) st

  -- The guard is dropped; what was done through it to the solver stays.
  unfoldable pub release : Key → Solver → State E → State E
  release key s st = set_slot key (record { solver = s; locked = false }) st
