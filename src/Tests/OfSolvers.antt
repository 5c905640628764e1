-- ===== src/Tests/OfSolvers.antt =====
-- The theorems about the solvers at concrete inputs.
use externalip_manager.Prelude.{◌≡◌, refl, [], ◌∷◌, arith}
use native.Mathlib.Decide.{ℕ_discrete}
use externalip_manager.Prelude.Map
use externalip_manager.Prelude.Eq.{String-discrete}
use externalip_manager.Crd.{SolverKind-discrete}
use externalip_manager.Prelude.Outcome.{done, ◌>>=◌}
use externalip_manager.Net.{IpAddr, IpAddr-discrete, AddressKind-discrete, v4, ipv4}
use externalip_manager.Solver.{Solver, Merge as MergeSolver}
use externalip_manager.State.{Key-eq, Key-discrete, acquire, release}
use externalip_manager.Solvers.Dispatch
use externalip_manager.Solvers.Static
use externalip_manager.Solvers.Merge
use externalip_manager.Solvers.IpApi.{ip_provider}
use externalip_manager.Solvers.Kinds.{Returned, get_addresses-OfKind}
use externalip_manager.Solvers.Merge.Masks.{
  new-eq-by_mask_total, by_mask_total, mask_total, IsSane, PairwiseApart,
}
use externalip_manager.Solvers.Merge.Agreement.{IsMerged, get_addresses-IsMerged}
use externalip_manager.Tests.Sandbox.{
  sandbox, home, web, net_part, host_part, parts_registered, fresh_at,
}

get_addresses-OfKind_example :
    Returned
      (externalip_manager.Net.OfKind ipv4)
      (Dispatch.get_addresses sandbox 1
        (Solver.static (Static.new (v4 home ∷ [])))
        ipv4
        web
        (fresh_at 0)).0
get_addresses-OfKind_example =
    get_addresses-OfKind sandbox 1 (Solver.static (Static.new (v4 home ∷ []))) ipv4 web (fresh_at 0)
      tt

new-eq-by_mask_total_example :
    Merge.new (net_part ∷ host_part ∷ [])
    ≡ by_mask_total (net_part ∷ host_part ∷ []) (mask_total (net_part ∷ host_part ∷ []))
new-eq-by_mask_total_example = new-eq-by_mask_total (net_part ∷ host_part ∷ [])

abbrev merged : MergeSolver
merged = record { partial_solvers = net_part ∷ host_part ∷ [] }

merged-IsSane : IsSane (net_part ∷ host_part ∷ [])
merged-IsSane = record { ranges = (omega arith, (omega arith, tt)); fits = omega arith }

merged-new : Merge.new (net_part ∷ host_part ∷ []) ≡ done merged
unfolding Merge.new
merged-new = refl

merged-PairwiseApart : PairwiseApart (net_part ∷ host_part ∷ [])
merged-PairwiseApart = ((refl, tt), (tt, tt))

merged_run :
    Merge.get_addresses (Dispatch.get_addresses sandbox 1) merged ipv4 web parts_registered
    ≡ (done (v4 3221225991 ∷ []), parts_registered)
unfolding Merge.get_addresses Merge.visit acquire release Dispatch.get_addresses
    Static.get_addresses Map.get Map.insert Key-eq Key-discrete SolverKind-discrete IpAddr-discrete
    String-discrete AddressKind-discrete ◌>>=◌ Merge.collect_parts Merge.find_mismatch
    Merge.assemble Merge.sum_onto ℕ_discrete
merged_run = refl

-- 192.0.2.7
get_addresses-IsMerged_example :
    IsMerged
      (Dispatch.get_addresses sandbox 1)
      ipv4
      web
      merged
      parts_registered
      (v4 3221225991 ∷ [])
      parts_registered
get_addresses-IsMerged_example =
    get_addresses-IsMerged (Dispatch.get_addresses sandbox 1) ipv4 web merged parts_registered
      merged-IsSane merged-new merged-PairwiseApart merged_run
