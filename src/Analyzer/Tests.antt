-- ===== src/Analyzer/Tests.antt =====
-- The analyzer on two small call graphs: a caller of a harmless function, and a caller of one that
-- borrows through a raw pointer.
use scrutinizer.Prelude.{
  ℕ, Bool, true, false, ◌≡◌, ◌↔◌, refl, [], ◌∷◌, ok, All, arith, is_empty, inl, inr, Bool-cases,
}
use scrutinizer.Prelude.Eq.{nat_eq}
use scrutinizer.Prelude.HashSet.{from_iter, extend, insert, contains}
use scrutinizer.Rustc.Mir.{copy}
use scrutinizer.Sample.{sample, flow}
use scrutinizer.BodyCache.{substituted_mir, load_body_and_facts, is_mir_available}
use scrutinizer.Common.Function.{
  FunctionInfo, info_with_body, with_body, info_instance, info_calls, info_def_id, call_args,
  call_def_id,
}
use scrutinizer.Common.Storage.Functions.{
  FunctionInfoStorage, get_by_call, get_with_body, has_instance,
}
use scrutinizer.Common.Storage.Closed.{IsClosed}
use scrutinizer.Common.Storage.Closures
use scrutinizer.Important.Compute.{ImportantLocals, has_none, from_locals, compute_dependent_locals}
use scrutinizer.Important.Transition.{transition}
use scrutinizer.Analyzer.Heuristics.{has_transmute, has_raw_ptr_deref}
use scrutinizer.Analyzer.Deps.{compute_deps_for_body}
use scrutinizer.Analyzer.Result.{FunctionWithMetadata, PurityAnalysisResult}
use scrutinizer.Analyzer.Analyze.{
  Report, analyze_item, analyze_calls, judge, run, extend_deps, is_trusted, matches_any,
  push_passing, push_failing,
}
use scrutinizer.Analyzer.Spec.{Reaches}
use scrutinizer.Analyzer.Monotone.{analyze_item-monotone}
use scrutinizer.Analyzer.Verdict.{Leaks, analyze_item_verdict}
use scrutinizer.Analyzer.Reports.{Extends, IsClean, analyze_item_report}
use scrutinizer.Analyzer.Total.{IsAvailable, analyze_item_returns, run_returns}
use scrutinizer.Analyzer.Run.{run_report}

abbrev leaf : FunctionInfo
leaf =
    info_with_body
      (record { instance_ = 1; places = []; calls = []; body = 0; span = 0; unhandled = [] })

abbrev raw_leaf : FunctionInfo
raw_leaf =
    info_with_body
      (record { instance_ = 3; places = []; calls = []; body = 3; span = 0; unhandled = [] })

abbrev caller_of : ℕ → FunctionInfo
caller_of callee = info_with_body (record {
  instance_ = 0;
  places = [];
  calls = with_body callee (copy (record { local = 1; projection = [] }) ∷ []) ∷ [];
  body = 0;
  span = 0;
  unhandled = [];
})

abbrev safe_storage : FunctionInfoStorage
safe_storage = record { origin = 0; fns = leaf ∷ caller_of 1 ∷ [] }

abbrev leaky_storage : FunctionInfoStorage
leaky_storage = record { origin = 0; fns = raw_leaf ∷ caller_of 3 ∷ [] }

abbrev first_local : ImportantLocals
first_local = record { locals = 1 ∷ [] }

abbrev start : Report
start = record { passing = []; failing = []; deps = [] }

abbrev entry : FunctionInfo → Bool → FunctionWithMetadata
entry f raw = record {
  function = f;
  important_locals = first_local;
  raw_pointer_deref = raw;
  allowlisted = false;
  has_transmute = false;
}

abbrev safe_report : Report
safe_report = record {
  passing = entry leaf false ∷ entry (caller_of 1) false ∷ [];
  failing = [];
  deps = [];
}

abbrev leaky_report : Report
leaky_report = record {
  passing = [];
  failing = entry raw_leaf true ∷ entry (caller_of 3) false ∷ [];
  deps = [];
}

-- What a run computes through.
running : Unit {0}
unfolding analyze_item analyze_calls judge extend_deps is_trusted info_instance info_calls
    info_def_id substituted_mir load_body_and_facts has_none transition matches_any push_passing
    push_failing call_args call_def_id is_mir_available compute_dependent_locals from_locals
    from_iter extend insert contains get_by_call has_instance compute_deps_for_body
    has_raw_ptr_deref has_transmute
running = tt

safe_run :
    analyze_item safe_storage 0 [] [] 2 (caller_of 1) first_local start ≡ ok (true, safe_report)
unfolding running
safe_run = refl

leaky_run :
    analyze_item leaky_storage 0 [] [] 2 (caller_of 3) first_local start ≡ ok (false, leaky_report)
unfolding running
leaky_run = refl

analyze_item_verdict_example : (false ≡ true) ↔ (
    (g : FunctionInfo) (m : ImportantLocals)
    → Reaches leaky_storage [] [] (caller_of 3) first_local g m
    → ¬ (Leaks leaky_storage 0 [] [] g m))
analyze_item_verdict_example =
    analyze_item_verdict leaky_storage 0 [] [] 2 (caller_of 3) first_local start false leaky_report
      leaky_run

analyze_item_report_example : Extends start false leaky_report
analyze_item_report_example =
    analyze_item_report leaky_storage 0 [] [] 2 (caller_of 3) first_local start false leaky_report
      leaky_run

safe_IsClosed : IsClosed safe_storage
unfolding running
safe_IsClosed = (tt, ((refl, tt), tt))

steps :
    (locals : ImportantLocals)
    → (m : ImportantLocals) × (transition locals
          (copy (record { local = 1; projection = [] }) ∷ [])
          1
        ≡ ok m)
unfolding running
steps locals = elim (Bool-cases (contains locals.locals 1)) [
  | inl e ↦ rw e (from_locals (1 ∷ []), refl)
  | inr e ↦ rw e (from_locals [], refl)
]

safe_IsAvailable : All (IsAvailable safe_storage 0) safe_storage.fns
unfolding running
safe_IsAvailable = (((0, refl), (false, refl), tt), (((0, refl), (false, refl), (steps, tt)), tt))

analyze_item_returns_example :
    (q : Bool × Report) × (analyze_item safe_storage 0 [] [] 2 (caller_of 1) first_local start
      ≡ ok q)
unfolding running
analyze_item_returns_example =
    analyze_item_returns safe_storage 0 [] [] 2 (has_instance 0) (caller_of 1) first_local start
      safe_IsClosed safe_IsAvailable (omega arith) refl

run_returns_example :
    (result : PurityAnalysisResult) × (run safe_storage 0 [] [] Closures.new first_local true
      ≡ ok result)
unfolding running get_with_body
run_returns_example =
    run_returns safe_storage 0 [] [] Closures.new first_local true (caller_of 1) safe_IsClosed
      safe_IsAvailable refl

leaky_result : PurityAnalysisResult
leaky_result = record {
  def_id = 0;
  annotated_pure = true;
  status = false;
  reason = "unable to ascertain purity of inner function call";
  passing = [];
  failing = leaky_report.failing;
  closures = Closures.new;
  deps = [];
}

leaky_result_eq : run leaky_storage 0 [] [] Closures.new first_local true ≡ ok leaky_result
unfolding running run get_with_body leaky_result
leaky_result_eq = refl

run_report_example :
    (leaky_result.status ≡ is_empty leaky_result.failing) × All IsClean leaky_result.passing
run_report_example =
    run_report leaky_storage 0 [] [] Closures.new first_local true leaky_result leaky_result_eq

analyze_item-monotone_example : ¬ (
    analyze_item safe_storage 0 ("f" ∷ []) ("core" ∷ []) 2 (caller_of 1) first_local start
    ≡ ok (false, start))
analyze_item-monotone_example =
    analyze_item-monotone safe_storage [] [] ("f" ∷ []) ("core" ∷ []) 0 2 2 (caller_of 1)
      first_local start safe_report start start safe_run
