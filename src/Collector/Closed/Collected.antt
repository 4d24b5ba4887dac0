-- ===== src/Collector/Closed/Collected.antt =====
-- What `Collector::collect` leaves in the function storage, for an engine that makes its states by
-- the given effects and joins only.
use scrutinizer.Prelude.{
  ℕ, zero, suc, ◌≡◌, refl, sym, ap, ◌∙◌, subst, Bool, List, [], ◌∷◌, Option, none, some, All,
  Outcome, ok, find, ok_injective, >>=-split, All-map,
}
use scrutinizer.Rustc.Mir.{StatementKind, TerminatorKind}
use scrutinizer.Rustc.Queries.{Tcx}
use scrutinizer.Common.Function.{FunctionInfo, info_with_body, info_without_body}
use scrutinizer.Common.Storage.Functions.{get_with_body, has_instance}
use scrutinizer.Common.Storage.Closed.{
  IsClosed, IsCallOf, Resolves, IsClosed-split, Resolves-append, calls_of, find_split, find_of_any,
  insert-Resolves, insert-IsClosed,
}
use scrutinizer.Collector.Domain.{CollectorDomain, join_domain, from_regular_fn_info}
use scrutinizer.Collector.HasTrackedTy.{Itertools}
use scrutinizer.Collector.PartialFunctionInfo.{instance_of}
use scrutinizer.Collector.Collect.{
  Dataflow, Stores, Collector, Run, bottom_value, new, store, info_of,
}
use scrutinizer.Collector.Engine.{
  statement_effect, terminator_effect, join_all, reduce_join, enter, collect, analyse, run_from,
  run,
}
use scrutinizer.BodyCache.{substituted_mir}
use scrutinizer.Collector.VirtualStack
use scrutinizer.Common.Storage.Functions
use scrutinizer.Common.Function.{with_body}
use scrutinizer.Collector.Closed.Steps.{
  Later, Holds, Later-refl, IsCollected, Later-trans, Holds-Later, store-Later, join-Holds,
}
use scrutinizer.Collector.Closed.Effects.{KeepsClosed}
use scrutinizer.Collector.Closed.Runs.{
  terminator_effect-Steps, statement_effect-Steps, bottom_value-Steps,
}

module _ ⦃tcx : Tcx⦄ ⦃itertools : Itertools⦄ where
  open tcx use {Ty, kind}

  module _ ⦃dataflow : Dataflow⦄ where
    -- What the effects keep, with what they share only going on, holds at the end of every block.
    abbrev pub IsSound : Type 1
    IsSound =
        (S D : Type 0) (Good : S → Type 0) (Fits : S → D → Type 0) (Next : S → S → Type 0)
        (bottom : S → Outcome (S × D)) (join : D → D → Outcome (D × Bool))
        (statement : StatementKind tcx.names → S × D → Outcome (S × D))
        (terminator : TerminatorKind tcx.names → S × D → Outcome (S × D)) (body : tcx.Body) (s : S)
        (r : S × List D)
        → ((a : S) → Next a a)
        → ((a b c : S) → Next a b → Next b c → Next a c)
        → ((a b : S) (d : D) → Next a b → Fits a d → Fits b d)
        → ((a : S) (y : S × D) → Good a → bottom a ≡ ok y → (Good y.0 × Fits y.0 y.1) × Next a y.0)
        → ((a : S) (d d' : D) (q : D × Bool) → join d d' ≡ ok q → Fits a d → Fits a d' → Fits a q.0)
        → ((k : StatementKind tcx.names) (x y : S × D)
            → Good x.0 × Fits x.0 x.1
            → statement k x ≡ ok y
            → (Good y.0 × Fits y.0 y.1) × Next x.0 y.0)
        → ((k : TerminatorKind tcx.names) (x y : S × D)
            → Good x.0 × Fits x.0 x.1
            → terminator k x ≡ ok y
            → (Good y.0 × Fits y.0 y.1) × Next x.0 y.0)
        → Good s
        → dataflow.block_ends bottom join statement terminator body s ≡ ok r
        → Good r.0 × Next s r.0 × All (Fits r.0) r.1

    join_all-Holds :
        (s : Stores) (acc d : CollectorDomain) (ends : List CollectorDomain)
        → Holds s acc
        → All (Holds s) ends
        → join_all acc ends ≡ ok d
        → Holds s d
    unfolding join_all
    join_all-Holds s acc d [] h k e = subst (Holds s) (ok_injective e) h
    join_all-Holds s acc d (elt ∷ rest) h (first, k) e =
        let (q, joined, e1) = >>=-split (join_domain acc elt) _ e in
        join_all-Holds s q.0 d rest (join-Holds s acc elt q joined h first) k e1

    reduce_join-Holds :
        (s : Stores) (d : CollectorDomain) (ends : List CollectorDomain)
        → All (Holds s) ends
        → reduce_join ends ≡ ok d
        → Holds s d
    unfolding reduce_join
    reduce_join-Holds s d [] k e = absurd (cc)
    reduce_join-Holds s d (first ∷ rest) (h, k) e = join_all-Holds s first d rest h k e

    module _ (sound : IsSound) where
      analyse-KeepsClosed :
          (run_callee : Run) → KeepsClosed run_callee → KeepsClosed (analyse run_callee)
      unfolding analyse
      analyse-KeepsClosed run_callee closed c s r good e =
          let (ends, ran, e1) =
            >>=-split
              (dataflow.block_ends (bottom_value c) join_domain (statement_effect c)
                (terminator_effect run_callee c) c.substituted_body s)
              _ e in
          let (d, joined, e2) = >>=-split (reduce_join ends.1) _ e1 in
          let (kept, later, holds) =
            sound Stores CollectorDomain (λ a. IsClosed a.functions) Holds Later (bottom_value c)
              join_domain (statement_effect c) (terminator_effect run_callee c) c.substituted_body s
              ends Later-refl Later-trans (λ a b d l. Holds-Later a b l d.calls)
              (bottom_value-Steps run_callee closed c) join-Holds
              (statement_effect-Steps run_callee closed c)
              (terminator_effect-Steps run_callee closed c) good ran in
          subst (λ q. IsClosed q.1.functions × Later s q.1 × Holds q.1 q.0) (ok_injective e2)
            (kept, later, reduce_join-Holds ends.0 d ends.1 holds joined)

      -- The calls of a stored function lead to stored functions.
      stored_calls :
          (s : Stores) (p : FunctionInfo → Bool) (info : FunctionInfo)
          → IsClosed s.functions
          → find p s.functions.fns ≡ some info
          → All (Resolves s.functions.fns) (calls_of info)
      stored_calls s p info good found =
          let (before, after, e) = find_split p s.functions.fns info found in
          subst (λ l. All (Resolves l) (calls_of info)) (sym e)
            (All-map (Resolves-append before (info ∷ after)) (calls_of info)
              (IsClosed-split s.functions before info after good e))

      from_info-Holds :
          (s : Stores) (info : FunctionInfo) (d : CollectorDomain)
          → All (Resolves s.functions.fns) (calls_of info)
          → from_regular_fn_info info ≡ ok d
          → Holds s d
      unfolding from_regular_fn_info
      from_info-Holds s (info_with_body f) d h e = subst (Holds s) (ok_injective e) h
      from_info-Holds s (info_without_body _ _) d h e = absurd (cc)

      run_from-Holds :
          (run_callee : Run)
          → KeepsClosed run_callee
          → (stored : Option FunctionInfo) (c : Collector) (s : Stores)
            (r : CollectorDomain × Stores)
          → get_with_body s.functions (instance_of c.current_function) ≡ stored
          → IsClosed s.functions
          → run_from run_callee stored c s ≡ ok r
          → IsClosed r.1.functions × Later s r.1 × Holds r.1 r.0
      unfolding run_from get_with_body
      run_from-Holds run_callee closed none c s r found good e =
          analyse-KeepsClosed run_callee closed (enter c) s r good e
      run_from-Holds run_callee closed (some info) c s r found good e =
          let (d, from, e1) = >>=-split (from_regular_fn_info info) _ e in
          let calls =
            stored_calls s (has_instance (instance_of c.current_function)) info good found in
          subst (λ q. IsClosed q.1.functions × Later s q.1 × Holds q.1 q.0) (ok_injective e1)
            (good, Later-refl s, from_info-Holds s info d calls from)

      run-KeepsClosed : (fuel : ℕ) → KeepsClosed (run fuel)
      unfolding run
      run-KeepsClosed zero c s r good e = absurd (cc)
      run-KeepsClosed (suc fuel) c s r good e =
          run_from-Holds (run fuel) (run-KeepsClosed fuel)
            (get_with_body s.functions (instance_of c.current_function)) c s r refl good e

      origin_found :
          (s : Stores) (info : FunctionInfo) (instance_ : tcx.Instance)
          → IsCallOf info (with_body instance_ [])
          → (origin : FunctionInfo) × (get_with_body (store info s).functions instance_
              ≡ some origin)
      unfolding store get_with_body
      origin_found s info instance_ h =
          find_of_any (has_instance instance_) _
            (insert-Resolves s.functions info (with_body instance_ []) h)

      store-IsCollected :
          (s : Stores) (info : FunctionInfo) (instance_ : tcx.Instance)
          → IsClosed s.functions
          → All (Resolves s.functions.fns) (calls_of info)
          → s.functions.origin ≡ instance_
          → IsCallOf info (with_body instance_ [])
          → IsCollected instance_ (store info s)
      store-IsCollected s info instance_ kept calls at call =
          let origin = (store-Later s info).0 ∙ at in
          let (f, found) = origin_found s info instance_ call in
          (
            unfold store in insert-IsClosed s.functions info kept calls,
            origin,
            (f, ap (get_with_body (store info s).functions) origin ∙ found),
          )

      -- With a dataflow engine that makes its states only by the given effects and joins: when
      -- `collect` returns, each recorded call leads to a function that was stored before its caller,
      -- the storage's origin is the collected instance, and it is stored with its body.
      pub collect-IsCollected :
          (fuel : ℕ) (instance_ : tcx.Instance) (shallow : Bool) (stores : Stores)
          → collect fuel instance_ shallow ≡ ok stores
          → IsCollected instance_ stores
      unfolding collect Functions.new info_of has_instance
      collect-IsCollected fuel instance_ shallow stores e =
          let (body, _, e1) = >>=-split (substituted_mir instance_) _ e in
          let (c, _, e2) = >>=-split (new _ VirtualStack.new shallow) _ e1 in
          let (q, ran, e3) = >>=-split (run fuel c _) _ e2 in
          let (kept, later, holds) = run-KeepsClosed fuel c _ q tt ran in
          subst (IsCollected instance_) (ok_injective e3) (
            store-IsCollected q.1 (info_of instance_ body q.0) instance_ kept holds later.0
              (tcx.instance_eq.beq_refl instance_))
