-- ===== src/Analyzer/Fuel.antt =====
-- scrutils/src/analyzer: more fuel for the depth of types changes nothing of an analysis that ended.
use scrutinizer.Prelude.{
  ℕ, zero, suc, ◌≤◌, refl, arith, Bool, false, ◌||◌, List, [], ◌∷◌, Outcome, expect, inl, inr,
  Bool-cases, Option-cases,
}
use scrutinizer.Prelude.Fuel.{IsBelow, >>=-IsBelow, each-IsBelow}
use scrutinizer.Rustc.Mir
use scrutinizer.Rustc.Mir.{BasicBlock, TerminatorKind}
use scrutinizer.Rustc.Queries.{Tcx}
use scrutinizer.Flowistry.{Flowistry}
use scrutinizer.Common.Function.{
  FunctionInfo, info_with_body, info_without_body, info_calls, FunctionCall, call_args, call_def_id,
}
use scrutinizer.Common.Storage.Functions.{FunctionInfoStorage, get_by_call, get_with_body}
use scrutinizer.Common.Storage.Closures.{ClosureInfoStorage}
use scrutinizer.Important.Compute.{ImportantLocals, has_none}
use scrutinizer.Important.Transition.{transition}
use scrutinizer.Analyzer.Heuristics.{
  visit_ty, contains_mut_ref, terminator_transmutes, has_transmute,
}
use scrutinizer.Analyzer.Analyze.{
  Report, extend_deps, is_trusted, matches_any, analyze_calls, judge, transmute_of, analyze_item,
  run,
}

module _ ⦃tcx : Tcx⦄ where
  open tcx use {Ty, Body, Regex}

  visit_ty-IsBelow :
      (depth deeper : ℕ) (found : Bool) (ty : Ty)
      → depth ≤ deeper
      → IsBelow (visit_ty depth found ty) (visit_ty deeper found ty)
  unfolding visit_ty
  visit_ty-IsBelow zero deeper found ty h = inl refl
  visit_ty-IsBelow (suc depth) zero found ty h = absurd (omega (arith, h))
  visit_ty-IsBelow (suc depth) (suc deeper) found ty h =
      let inside : (b : Bool) (t : Ty) → IsBelow (visit_ty depth b t) (visit_ty deeper b t) =
        λ b t. visit_ty-IsBelow depth deeper b t (omega (arith, h)) in
      >>=-IsBelow _ _ _ _ (each-IsBelow (visit_ty depth) (visit_ty deeper) inside _ found)
        (λ b. each-IsBelow (visit_ty depth) (visit_ty deeper) inside (tcx.components ty) _)

  module _ (depth deeper : ℕ) (at_least : depth ≤ deeper) where
    terminator_transmutes-IsBelow :
        (found : Bool) (t : TerminatorKind tcx.names)
        → IsBelow (terminator_transmutes depth found t) (terminator_transmutes deeper found t)
    unfolding terminator_transmutes contains_mut_ref
    terminator_transmutes-IsBelow found (Mir.call func _ _) =
        elim (Option-cases (tcx.const_fn_def func)) [
          | inl e ↦ rw (e, terminator_transmutes) (inr refl)
          | inr ((def_id, generic_args), e) ↦
              elim (Bool-cases (tcx.is_match tcx.transmute_def_path (tcx.debug_def_id def_id))) [
                | inl m ↦
                    rw (e, m, terminator_transmutes)
                      (>>=-IsBelow (expect (tcx.second_type generic_args)) _ _ _ (inr refl)
                        (λ target.
                          >>=-IsBelow _ _ _ _ (visit_ty-IsBelow depth deeper false target at_least)
                            (λ b. inr refl)))
                | inr m ↦ rw (e, m, terminator_transmutes) (inr refl)
              ]
        ]
    terminator_transmutes-IsBelow found (Mir.drop_ _) = inr refl
    terminator_transmutes-IsBelow found Mir.switch_int = inr refl
    terminator_transmutes-IsBelow found Mir.other_terminator = inr refl

    transmute_of-IsBelow :
        (item : FunctionInfo) → IsBelow (transmute_of depth item) (transmute_of deeper item)
    unfolding has_transmute
    transmute_of-IsBelow (info_with_body f) =
        each-IsBelow _ _ (λ found b. terminator_transmutes-IsBelow found b.terminator)
          (tcx.blocks f.body) false
    transmute_of-IsBelow (info_without_body _ _) = inr refl

    module _ ⦃flow : Flowistry⦄ (storage : FunctionInfoStorage)
        (allowlist trusted_stdlib : List Regex) where
      module _
          (analyze analyze' : FunctionInfo → ImportantLocals → Report → Outcome (Bool × Report))
          (below : (item : FunctionInfo) (locals : ImportantLocals) (report : Report)
            → IsBelow (analyze item locals report) (analyze' item locals report)) where
        analyze_calls-IsBelow :
            (locals : ImportantLocals) (calls : List FunctionCall) (report : Report)
            → IsBelow
                (analyze_calls storage depth analyze locals calls report)
                (analyze_calls storage deeper analyze' locals calls report)
        unfolding analyze_calls
        analyze_calls-IsBelow locals [] report = inr refl
        analyze_calls-IsBelow locals (call ∷ calls) report =
            >>=-IsBelow (transition locals (call_args call) (call_def_id call)) _ _ _ (inr refl)
              (λ next. >>=-IsBelow (get_by_call storage call) _ _ _ (inr refl) (λ callee.
                >>=-IsBelow _ _ _ _ (below callee next report) (λ first.
                  >>=-IsBelow _ _ _ _ (analyze_calls-IsBelow locals calls first.1)
                    (λ rest. inr refl))))

        judge-IsBelow :
            (item : FunctionInfo) (locals : ImportantLocals) (report : Report)
            → IsBelow
                (judge storage depth allowlist trusted_stdlib analyze item locals report)
                (judge storage deeper allowlist trusted_stdlib analyze' item locals report)
        unfolding judge info_calls
        judge-IsBelow (info_with_body f) locals report =
            >>=-IsBelow _ _ _ _ (transmute_of-IsBelow (info_with_body f)) (λ t.
              >>=-IsBelow _ _ _ _ (analyze_calls-IsBelow locals f.calls report) (λ r. inr refl))
        judge-IsBelow (info_without_body _ _) locals report = inr refl

      analyze_item-IsBelow :
          (fuel : ℕ) (item : FunctionInfo) (locals : ImportantLocals) (report : Report)
          → IsBelow
              (analyze_item storage depth allowlist trusted_stdlib fuel item locals report)
              (analyze_item storage deeper allowlist trusted_stdlib fuel item locals report)
      unfolding analyze_item
      analyze_item-IsBelow zero item locals report = inr refl
      analyze_item-IsBelow (suc fuel) item locals report =
          >>=-IsBelow (extend_deps item report.deps) _ _ _ (inr refl) (λ deps.
            >>=-IsBelow (is_trusted trusted_stdlib item) _ _ _ (inr refl) (λ trusted.
              elim (Bool-cases (has_none locals || (matches_any allowlist item || trusted))) [
                | inl e ↦ rw e (inr refl)
                | inr e ↦ rw e (
                    judge-IsBelow (analyze_item storage depth allowlist trusted_stdlib fuel)
                      (analyze_item storage deeper allowlist trusted_stdlib fuel)
                      (analyze_item-IsBelow fuel) item locals (record report { deps = deps }))
              ]))

      pub run-IsBelow :
          (closures : ClosureInfoStorage) (locals : ImportantLocals) (annotated_pure : Bool)
          → IsBelow
              (run storage depth allowlist trusted_stdlib closures locals annotated_pure)
              (run storage deeper allowlist trusted_stdlib closures locals annotated_pure)
      unfolding run
      run-IsBelow closures locals annotated_pure =
          >>=-IsBelow (expect (get_with_body storage storage.origin)) _ _ _ (inr refl)
            (λ origin. >>=-IsBelow _ _ _ _ (analyze_item-IsBelow _ origin locals _) (λ r. inr refl))
