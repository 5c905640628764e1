-- ===== src/Tests/Sandbox.antt =====
-- An environment in memory: one service, one source, a clock that stands still, and address
-- providers that answer every request with a rate limit.
use externalip_manager.Prelude.{ℕ, true, false, none, some, [], ◌∷◌, if◌then◌else◌, keep}
use externalip_manager.Prelude.Eq.{◌=?◌, String-eq}
use externalip_manager.Prelude.Outcome.{ok}
use externalip_manager.Net.{IpAddr, IpAddr-eq, v4, ipv4}
use externalip_manager.Crd.{
  SolverKind, PartialSolverKind, PartialSolver, MergeConfig, ClusterExternalIpSource,
  IpSolversConfig,
}
use externalip_manager.Kube.{Service}
use externalip_manager.Env.{Env}
use externalip_manager.State.{State, Slot}
use externalip_manager.Solver.{Solver}
use externalip_manager.Solvers.Static
use externalip_manager.Svc.{annotation_cluster_external_ip_source}

-- 192.0.2.1 and 198.51.100.7
abbrev pub home : ℕ
home = 3221225985

abbrev pub away : ℕ
away = 3325256711

abbrev pub home_config : SolverKind
home_config = SolverKind.static (record { addresses = v4 home ∷ [] })

-- The first three bytes of one address and the last of the other.
abbrev pub net_part : PartialSolver
net_part = record {
  solver = PartialSolverKind.static (record { addresses = v4 home ∷ [] });
  mask = v4 4294967040;
}

abbrev pub host_part : PartialSolver
host_part = record {
  solver = PartialSolverKind.static (record { addresses = v4 away ∷ [] });
  mask = v4 255;
}

abbrev pub merge_config : MergeConfig
merge_config = record { partial_solvers = net_part ∷ host_part ∷ [] }

abbrev pub two_solvers : IpSolversConfig
two_solvers = record {
  query_mode = none;
  solvers = SolverKind.merge merge_config ∷ home_config ∷ [];
}

abbrev pub dual : ClusterExternalIpSource
dual = record { name = some "dual"; spec = record { ipv4 = some two_solvers; ipv6 = none } }

abbrev pub web : Service
web = record {
  metadata = record {
    name = some "web";
    namespace = some "default";
    annotations = some ((annotation_cluster_external_ip_source, "dual") ∷ []);
  };
  spec = some (record { external_ips = some ("192.0.2.1" ∷ []) });
  status = none;
}

abbrev pub sandbox : Env
sandbox = record {
  World = ℕ;
  now = λ w. (w, w);
  parse_ip = λ text. if text =? "192.0.2.1" then some (v4 home) else none;
  parse_ipv4 = λ text. if text =? "192.0.2.1" then some home else none;
  parse_ipv6 = λ text. none;
  ip_to_string = λ addr. if addr =? v4 home then "192.0.2.1" else "192.0.2.7";
  iterate_solvers = λ w keys. keys;
  iterate_addresses = λ w addrs. addrs;
  build_resolver = λ w. (true, w);
  lookup_ip = λ host w. (ok (v4 home ∷ []), w);
  Interface = Unit;
  interface_by_name = λ name w. (ok (some tt), w);
  ipv4_addrs_by_filter = λ i p w. (ok (keep p (home ∷ [])), w);
  ipv6_addrs_by_filter = λ i p w. (ok [], w);
  local_ipv4_addrs_by_filter = λ p w. (ok (keep p (home ∷ [])), w);
  local_ipv6_addrs_by_filter = λ p w. (ok [], w);
  Response = ℕ;
  send = λ url timeout w. (ok 429, w);
  status = λ r. r;
  error_for_status = λ r. ok r;
  json_ipify = λ r w. (ok (record { ip = v4 home }), w);
  json_my_ip = λ r w. (
    ok (record { success = true; ip = v4 home; type_ = externalip_manager.Env.MyIpType.ipv4 }),
    w,
  );
  sleep = λ n w. w;
  try_default = λ w. (ok tt, w);
  list_services = λ w. (ok (web ∷ []), w);
  list_sources = λ w. (ok (dual ∷ []), w);
  patch_service = λ namespace name ips w. (ok tt, w);
  publish = λ event w. (ok tt, w);
}

abbrev pub free : IpAddr → Slot
free addr = record { solver = Solver.static (Static.new (addr ∷ [])); locked = false }

-- The solvers of the two parts.
abbrev pub parts_registered : State sandbox
parts_registered = record {
  world = 0;
  trace = [];
  solvers =
      ((SolverKind.static (record { addresses = v4 home ∷ [] }), ipv4), free (v4 home))
      ∷ ((SolverKind.static (record { addresses = v4 away ∷ [] }), ipv4), free (v4 away))
      ∷ [];
  cluster_eip_sources = [];
}

-- Nothing is registered yet, at a time in nanoseconds.
abbrev pub fresh_at : ℕ → State sandbox
fresh_at now = record { world = now; trace = []; solvers = []; cluster_eip_sources = [] }
