-- ===== src/Registry/Merges.antt =====
-- A merge asks the solvers of its parts while its own lock is held.
use mathlib.Core.Path.{subst}
use externalip_manager.Prelude.{
  ◌≡◌, refl, ◌∙◌, ap, sym, Option, none, some, List, [], ◌∷◌, ◌++◌, true, ℕ, suc, All, get_last?,
}
use externalip_manager.Prelude.Outcome.{
  Outcome, done, fail, panic, Result, ok, err, Exec, resume, ◌>>=◌, lift,
}
use externalip_manager.Net.{IpAddr, AddressKind}
use externalip_manager.Errors.{SolverError}
use externalip_manager.Crd.{PartialSolver, PartialSolverKind, from_partial}
use externalip_manager.Kube.{Service}
use externalip_manager.Env.{Env}
use externalip_manager.Solver.{Merge}
use externalip_manager.State.{State, Key, SolverRegistry}
use externalip_manager.Solvers.Merge as MergeCode
use externalip_manager.Solvers.Merge.{
  Call, part, collect_parts, assemble, query_parts, proceed, masked, find_mismatch, part_of,
}
use externalip_manager.Solvers.Merge.Masks.{IsSane, assemble_lem, parts_of}
use externalip_manager.Solvers.Merge.Agreement.{ask, collect_parts-Picked, parts-total}
use externalip_manager.Solvers.Dispatch
use externalip_manager.Registry.Matches.{Calm, CalmAnswer}
use externalip_manager.Registry.Leaves.{leaf_lem}
use externalip_manager.Registry.Quiet.{IsLeaf}
use externalip_manager.Registry.Idle.{
  has, IsIdleBut, Also, SameKeys, Kept, IsGoodCall, Answered, visit-Answered,
}

pub partial-IsLeaf : (p : PartialSolverKind) → IsLeaf (from_partial p)
partial-IsLeaf (PartialSolverKind.ip_api c) = tt
partial-IsLeaf (PartialSolverKind.interface c) = tt
partial-IsLeaf (PartialSolverKind.dns_hostname c) = tt
partial-IsLeaf (PartialSolverKind.load_balancer_ingress c) = tt
partial-IsLeaf (PartialSolverKind.static c) = tt

-- The keys of the partial solvers are registered.
abbrev pub AllRegistered : SolverRegistry → AddressKind → List PartialSolver → Type 0
AllRegistered r kind pss =
    All (λ (ps : PartialSolver). has r (from_partial ps.solver, kind) ≡ true) pss

pub AllRegistered-SameKeys :
    (r r' : SolverRegistry) (kind : AddressKind) (pss : List PartialSolver)
    → SameKeys r r'
    → AllRegistered r kind pss
    → AllRegistered r' kind pss
AllRegistered-SameKeys r r' kind [] same h = tt
AllRegistered-SameKeys r r' kind (ps ∷ pss) same h =
    (sym (same _) ∙ h.0, AllRegistered-SameKeys r r' kind pss same h.1)

-- A call, or a part of one, that ended calmly and kept what it must keep.
pub record Went {A : Type 0} {E : Env} (X : Key → Type 0) (st : State E)
    (end : Outcome SolverError A × State E) : Type 0 where
  pub calm : Calm end.0
  pub kept : Kept X st end.1

-- Only calls of merges are under way.
abbrev pub OnlyMerges : (Key → Type 0) → Type 0
OnlyMerges X = (k : Key) → X k → ¬ IsLeaf k.0

module _ {E : Env} (X : Key → Type 0) where
  pub Kept-refl : (st : State E) → IsIdleBut X st.solvers → Kept X st st
  Kept-refl st idle = record { idle = idle; same_keys = λ k. refl; sources = refl }

  pub Kept-trans : {st t u : State E} → Kept X st t → Kept X t u → Kept X st u
  Kept-trans a b = record {
    idle = b.idle;
    same_keys = λ k. a.same_keys k ∙ b.same_keys k;
    sources = b.sources ∙ a.sources;
  }

  -- A call of a solver that calls no other is good under any locks.
  pub leaf-IsGoodCall :
      (depth : ℕ) (key : Key) (svc : Service) (r : SolverRegistry)
      → IsLeaf key.0
      → IsGoodCall X key (Dispatch.get_addresses E (suc depth)) svc r
  leaf-IsGoodCall depth key svc r l s st m idle same =
      let q = leaf_lem E depth key.0 s key.1 svc st l m in
      record {
        calm = q.calm;
        matches = q.matches;
        kept = record {
          idle = subst (IsIdleBut (Also key X)) (sym q.frame.solvers) idle;
          same_keys = λ k. ap (λ r. has r k) (sym q.frame.solvers);
          sources = q.frame.sources;
        };
      }

  Went-resume :
      {A B : Type 0} (r : Outcome SolverError A) (f : A → Exec (State E) SolverError B)
      (st t : State E)
      → Calm r
      → Kept X st t
      → ((a : A) → r ≡ done a → Went X t (f a t))
      → Went X st (resume r f t)
  Went-resume (done a) f st t c k h =
      let w = h a refl in record { calm = w.calm; kept = Kept-trans k w.kept }
  Went-resume (fail e) f st t c k h = record { calm = c; kept = k }
  Went-resume (panic p) f st t c k h = elim c [ ]

  -- After the answer: the part of its last address.
  masked-Went :
      (ps : PartialSolver) (o : Option IpAddr) (st : State E)
      → IsIdleBut X st.solvers
      → Went X st (lift (masked ps o) st)
  masked-Went ps none st idle = record { calm = tt; kept = Kept-refl st idle }
  masked-Went ps (some a) st idle = record { calm = tt; kept = Kept-refl st idle }

  answer-Went :
      (ps : PartialSolver) (answer : Result SolverError (List IpAddr)) (st : State E)
      → CalmAnswer answer
      → IsIdleBut X st.solvers
      → Went X st ((lift answer >>= λ addrs. lift (part_of ps addrs)) st)
  unfolding ◌>>=◌
  answer-Went ps (ok addrs) st c idle = masked-Went ps (get_last? addrs) st idle
  answer-Went ps (err e) st c idle = record { calm = c; kept = Kept-refl st idle }

  module _ (depth : ℕ) (kind : AddressKind) (svc : Service) (only : OnlyMerges X) where
    abbrev call : Call E
    call = Dispatch.get_addresses E (suc depth)

    ask-Answered :
        (ps : PartialSolver) (st : State E)
        → IsIdleBut X st.solvers
        → has st.solvers (from_partial ps.solver, kind) ≡ true
        → Answered X st (ask call kind svc ps st)
    ask-Answered ps st idle h =
        visit-Answered call _ _ svc X (from_partial ps.solver, kind) st
          (λ x. only _ x (partial-IsLeaf ps.solver)) idle h
          (leaf-IsGoodCall depth _ svc st.solvers (partial-IsLeaf ps.solver))

    pub part-Went :
        (ps : PartialSolver) (st : State E)
        → IsIdleBut X st.solvers
        → has st.solvers (from_partial ps.solver, kind) ≡ true
        → Went X st (part call kind svc ps st)
    unfolding ◌>>=◌
    part-Went ps st idle h =
        let a = ask-Answered ps st idle h in
        let t = (ask call kind svc ps st).1 in
        let w = answer-Went ps a.answer t a.calm a.kept.idle in
        subst
          (λ r. Went X st (
            resume r
              (λ (answer : Result SolverError (List IpAddr)).
                lift answer >>= λ addrs. lift (part_of ps addrs))
              t))
          (sym a.came) (record { calm = w.calm; kept = Kept-trans a.kept w.kept })

    collect_parts-Went :
        (pss : List PartialSolver) (parts : List ℕ) (st : State E)
        → IsIdleBut X st.solvers
        → AllRegistered st.solvers kind pss
        → Went X st (collect_parts call kind svc pss parts st)
    unfolding collect_parts
    collect_parts-Went [] parts st idle h = record { calm = tt; kept = Kept-refl st idle }
    collect_parts-Went (ps ∷ pss) parts st idle h =
        let w = part-Went ps st idle h.0 in
        Went-resume (part call kind svc ps st).0 _ st _ w.calm w.kept λ bits e.
          collect_parts-Went pss (parts ++ bits ∷ []) _ w.kept.idle
            (AllRegistered-SameKeys _ _ kind pss w.kept.same_keys h.1)

    assembled-Calm :
        (m : Merge) (st : State E) {parts : List ℕ}
        → IsSane m.partial_solvers
        → MergeCode.new m.partial_solvers ≡ done m
        → find_mismatch kind m.partial_solvers ≡ none
        → collect_parts call kind svc m.partial_solvers [] st
          ≡ (done parts, (collect_parts call kind svc m.partial_solvers [] st).1)
        → Calm (assemble kind parts)
    assembled-Calm m st sane made fit e =
        let (picks, picked, eq) = collect_parts-Picked call kind svc m.partial_solvers [] st e in
        let total_fits = parts-total call kind svc m picks sane made fit in
        subst (λ ps. Calm (assemble kind ps)) (sym eq)
          (subst Calm (sym (assemble_lem kind (parts_of m.partial_solvers picks) total_fits)) tt)

    proceed-Went :
        (m : Merge) (o : Option IpAddr) (st : State E)
        → IsSane m.partial_solvers
        → MergeCode.new m.partial_solvers ≡ done m
        → find_mismatch kind m.partial_solvers ≡ o
        → IsIdleBut X st.solvers
        → AllRegistered st.solvers kind m.partial_solvers
        → Went X st (proceed call m kind svc o st)
    unfolding ◌>>=◌
    proceed-Went m (some mask) st sane made fit idle h = record {
      calm = tt;
      kept = Kept-refl st idle;
    }
    proceed-Went m none st sane made fit idle h =
        let run = collect_parts call kind svc m.partial_solvers [] st in
        let w = collect_parts-Went m.partial_solvers [] st idle h in
        Went-resume run.0 (λ parts t. (assemble kind parts, t)) st run.1 w.calm w.kept
          λ parts e. record {
            calm = assembled-Calm m st sane made fit (λ i. (e i, run.1));
            kept = Kept-refl run.1 w.kept.idle;
          }

    pub merge-Went :
        (m : Merge) (st : State E)
        → IsSane m.partial_solvers
        → MergeCode.new m.partial_solvers ≡ done m
        → IsIdleBut X st.solvers
        → AllRegistered st.solvers kind m.partial_solvers
        → Went X st (MergeCode.get_addresses call m kind svc st)
    unfolding MergeCode.get_addresses
    merge-Went m st sane made idle h = proceed-Went m _ st sane made refl idle h
