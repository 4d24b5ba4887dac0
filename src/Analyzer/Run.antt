-- ===== src/Analyzer/Run.antt =====
-- What the result of `run` says.
use scrutinizer.Prelude.{
  ℕ, suc, Bool, ◌≡◌, sym, ap, subst, ◌∙◌, List, [], some, ok, >>=-split, ok_injective, expect,
  expect-some, is_empty, All, length,
}
use scrutinizer.Rustc.Queries.{Tcx}
use scrutinizer.Flowistry.{Flowistry}
use scrutinizer.Common.Function.{FunctionInfo}
use scrutinizer.Common.Storage.Functions.{FunctionInfoStorage, get_with_body}
use scrutinizer.Common.Storage.Closures.{ClosureInfoStorage}
use scrutinizer.Important.Compute.{ImportantLocals}
use scrutinizer.Analyzer.Result.{PurityAnalysisResult}
use scrutinizer.Analyzer.Analyze.{Report, analyze_item, run}
use scrutinizer.Analyzer.Reports.{IsClean, analyze_item_report}

module _ ⦃tcx : Tcx⦄ ⦃flow : Flowistry⦄ (storage : FunctionInfoStorage) (depth : ℕ)
    (allowlist trusted_stdlib : List tcx.Regex) where
  abbrev pub empty_report : Report
  empty_report = record { passing = []; failing = []; deps = [] }

  -- The parts of a call of `run` that returned.
  pub record RunParts (locals : ImportantLocals) (result : PurityAnalysisResult) : Type 0 where
    pub origin : FunctionInfo
    pub report : Report
    pub origin_eq : get_with_body storage storage.origin ≡ some origin
    pub item_eq :
        analyze_item storage depth allowlist trusted_stdlib
          (suc (length storage.fns))
          origin
          locals
          empty_report
        ≡ ok (result.status, report)
    pub passing_eq : result.passing ≡ report.passing
    pub failing_eq : result.failing ≡ report.failing

  pub run-annotated :
      (closures : ClosureInfoStorage) (locals : ImportantLocals) (annotated_pure : Bool)
      (result : PurityAnalysisResult)
      → run storage depth allowlist trusted_stdlib closures locals annotated_pure ≡ ok result
      → result.annotated_pure ≡ annotated_pure
  unfolding run
  run-annotated closures locals annotated_pure result h =
      let (origin, e1, h1) = >>=-split (expect (get_with_body storage storage.origin)) _ h in
      let (q, e2, h2) =
        >>=-split
          (analyze_item storage depth allowlist trusted_stdlib (suc (length storage.fns)) origin
            locals empty_report)
          _ h1 in
      ap (λ (r : PurityAnalysisResult). r.annotated_pure) (sym (ok_injective h2))

  pub run_parts :
      (closures : ClosureInfoStorage) (locals : ImportantLocals) (annotated_pure : Bool)
      (result : PurityAnalysisResult)
      → run storage depth allowlist trusted_stdlib closures locals annotated_pure ≡ ok result
      → RunParts locals result
  unfolding run
  run_parts closures locals annotated_pure result h =
      let (origin, e1, h1) = >>=-split (expect (get_with_body storage storage.origin)) _ h in
      let (q, e2, h2) =
        >>=-split
          (analyze_item storage depth allowlist trusted_stdlib (suc (length storage.fns)) origin
            locals empty_report)
          _ h1 in
      let e = ok_injective h2 in
      record {
        origin = origin;
        report = q.1;
        origin_eq = expect-some _ _ e1;
        item_eq = e2 ∙ ap (λ (r : PurityAnalysisResult). ok (r.status, q.1)) e;
        passing_eq = sym (ap (λ (r : PurityAnalysisResult). r.passing) e);
        failing_eq = sym (ap (λ (r : PurityAnalysisResult). r.failing) e);
      }

  -- The status of a result is `true` exactly if its list of failing functions is empty, and the
  -- functions it lists as passing report neither a raw pointer nor a transmute.
  pub run_report :
      (closures : ClosureInfoStorage) (locals : ImportantLocals) (annotated_pure : Bool)
      (result : PurityAnalysisResult)
      → run storage depth allowlist trusted_stdlib closures locals annotated_pure ≡ ok result
      → (result.status ≡ is_empty result.failing) × All IsClean result.passing
  run_report closures locals annotated_pure result h =
      let parts = run_parts closures locals annotated_pure result h in
      let x =
        analyze_item_report storage depth allowlist trusted_stdlib (suc (length storage.fns))
          parts.origin locals empty_report result.status parts.report parts.item_eq in
      (
        x.verdict_eq ∙ ap is_empty (sym (parts.failing_eq ∙ x.failing_eq)),
        subst (All IsClean) (sym (parts.passing_eq ∙ x.passing_eq)) x.clean,
      )
