-- ===== src/Analyzer/Inversion.antt =====
-- The parts of a call of `analyze_item` that returned.
use scrutinizer.Prelude.{
  ℕ, suc, Bool, true, false, not, ◌&&◌, ◌||◌, ◌≡◌, inl, inr, refl, List, ◌∷◌, Outcome, ok,
  >>=-split, ok_injective, ap, sym, is_empty, arith, if◌then◌else◌, Bool-cases, String,
}
use scrutinizer.Rustc.Queries.{Tcx}
use scrutinizer.Flowistry.{Flowistry}
use scrutinizer.Common.Function.{
  FunctionInfo, info_with_body, info_without_body, FunctionCall, call_args, call_def_id, Analyzed,
  info_calls,
}
use scrutinizer.Common.Storage.Functions.{FunctionInfoStorage, get_by_call}
use scrutinizer.Important.Compute.{ImportantLocals, has_none}
use scrutinizer.Important.Transition.{transition}
use scrutinizer.Analyzer.Heuristics.{has_raw_ptr_deref, has_transmute}
use scrutinizer.Analyzer.Result.{FunctionWithMetadata}
use scrutinizer.Analyzer.Analyze.{
  Report, extend_deps, is_trusted, matches_any, push_passing, push_failing, analyze_calls, judge,
  analyze_item,
}
use scrutinizer.Analyzer.Spec.{settled}

module _ ⦃tcx : Tcx⦄ ⦃flow : Flowistry⦄ (storage : FunctionInfoStorage) (depth : ℕ) where
  abbrev pub Analyze : Type 0
  Analyze = FunctionInfo → ImportantLocals → Report → Outcome (Bool × Report)

  pub record CallParts (analyze : Analyze) (locals : ImportantLocals) (call : FunctionCall)
      (calls : List FunctionCall) (report : Report) (result : Bool × Report) : Type 0 where
    pub callee_locals : ImportantLocals
    pub callee : FunctionInfo
    pub callee_result : Bool × Report
    pub rest_result : Bool × Report
    pub transition_eq : transition locals (call_args call) (call_def_id call) ≡ ok callee_locals
    pub callee_eq : get_by_call storage call ≡ ok callee
    pub callee_result_eq : analyze callee callee_locals report ≡ ok callee_result
    pub rest_eq : analyze_calls storage depth analyze locals calls callee_result.1 ≡ ok rest_result
    pub result_eq : result ≡ (callee_result.0 && rest_result.0, rest_result.1)

  pub analyze_calls_parts :
      (analyze : Analyze) (locals : ImportantLocals) (call : FunctionCall)
      (calls : List FunctionCall) (report : Report) (result : Bool × Report)
      → analyze_calls storage depth analyze locals (call ∷ calls) report ≡ ok result
      → CallParts analyze locals call calls report result
  unfolding analyze_calls
  analyze_calls_parts analyze locals call calls report result h =
      let (m, e1, h1) = >>=-split (transition locals (call_args call) (call_def_id call)) _ h in
      let (g, e2, h2) = >>=-split (get_by_call storage call) _ h1 in
      let (p, e3, h3) = >>=-split (analyze g m report) _ h2 in
      let (q, e4, h4) = >>=-split (analyze_calls storage depth analyze locals calls p.1) _ h3 in
      record {
        callee_locals = m;
        callee = g;
        callee_result = p;
        rest_result = q;
        transition_eq = e1;
        callee_eq = e2;
        callee_result_eq = e3;
        rest_eq = e4;
        result_eq = ground arith;
      }

  module _ (allowlist trusted_stdlib : List tcx.Regex) where
    -- The entry of the report for a function that is judged, or that is settled.
    abbrev pub metadata : FunctionInfo → ImportantLocals → Bool → Bool → FunctionWithMetadata
    metadata item locals raw transmutes = record {
      function = item;
      important_locals = locals;
      raw_pointer_deref = raw;
      allowlisted = matches_any allowlist item;
      has_transmute = transmutes;
    }

    pub record JudgeParts (analyze : Analyze) (f : Analyzed) (locals : ImportantLocals)
        (report : Report) (result : Bool × Report) : Type 0 where
      pub transmutes : Bool
      pub calls_result : Bool × Report
      pub transmute_eq : has_transmute depth f.body ≡ ok transmutes
      pub calls_eq : analyze_calls storage depth analyze locals f.calls report ≡ ok calls_result
      pub verdict_eq : result.0 ≡ (
          is_empty f.unhandled
          && (not (has_raw_ptr_deref f.body) && (not transmutes && calls_result.0)))
      pub report_eq :
          let info = metadata (info_with_body f) locals (has_raw_ptr_deref f.body) transmutes in
          result.1 ≡ (
            if result.0 then push_passing info calls_result.1 else push_failing info calls_result.1)

    pub judge_parts :
        (analyze : Analyze) (f : Analyzed) (locals : ImportantLocals) (report : Report)
        (result : Bool × Report)
        → judge storage depth allowlist trusted_stdlib analyze (info_with_body f) locals report
          ≡ ok result
        → JudgeParts analyze f locals report result
    unfolding judge info_calls
    judge_parts analyze f locals report result h =
        let (t, e1, h1) = >>=-split (has_transmute depth f.body) _ h in
        let (p, e2, h2) =
          >>=-split (analyze_calls storage depth analyze locals f.calls report) _ h1 in
        record {
          transmutes = t;
          calls_result = p;
          transmute_eq = e1;
          calls_eq = e2;
          verdict_eq = ground arith;
          report_eq = ground arith;
        }

    -- A function without a body fails, and only it is added to the report.
    pub judge_without_body :
        (analyze : Analyze) (d : tcx.DefId) (ts : List _) (locals : ImportantLocals)
        (report : Report)
        → judge storage depth allowlist trusted_stdlib analyze
            (info_without_body d ts)
            locals
            report
          ≡ ok (false, push_failing (metadata (info_without_body d ts) locals false false) report)
    unfolding judge info_calls
    judge_without_body analyze d ts locals report = refl

    -- A call that returned either settled the function or judged it.
    pub data ItemView (fuel : ℕ) (item : FunctionInfo) (locals : ImportantLocals) (report : Report)
        (result : Bool × Report) : Type 0 where
      passes :
          (deps : List String)
          → settled allowlist trusted_stdlib item locals ≡ ok true
          → result ≡ (
            true,
            push_passing (metadata item locals false false) (record report { deps = deps }),
          )
          → ItemView fuel item locals report result
      judged :
          (deps : List String)
          → settled allowlist trusted_stdlib item locals ≡ ok false
          → judge storage depth allowlist trusted_stdlib
              (analyze_item storage depth allowlist trusted_stdlib fuel)
              item
              locals
              (record report { deps = deps })
            ≡ ok result
          → ItemView fuel item locals report result

    pub item_view :
        (fuel : ℕ) (item : FunctionInfo) (locals : ImportantLocals) (report : Report)
        (result : Bool × Report)
        → analyze_item storage depth allowlist trusted_stdlib (suc fuel) item locals report
          ≡ ok result
        → ItemView fuel item locals report result
    unfolding analyze_item
    item_view fuel item locals report result h =
        let (deps, e1, h1) = >>=-split (extend_deps item report.deps) _ h in
        let (t, e2, h2) = >>=-split (is_trusted trusted_stdlib item) _ h1 in
        elim (Bool-cases (has_none locals || (matches_any allowlist item || t))) [
          | inl yes_ ↦ passes deps (rw e2 (ap ok yes_)) (sym (ok_injective (rw yes_ at h2)))
          | inr no_ ↦ judged deps (rw e2 (ap ok no_)) (rw no_ at h2)
        ]
