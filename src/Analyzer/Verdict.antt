-- ===== src/Analyzer/Verdict.antt =====
-- The verdict of `analyze_item` is right: it passes exactly what no leak can be reached from.
use scrutinizer.Prelude.{
  ℕ, zero, suc, Bool, true, false, not, ◌&&◌, ◌≡◌, ◌↔◌, ◌⊎◌, inl, inr, refl, sym, ap, List, [], ◌∷◌,
  ok, arith, is_empty, Bool-cases, ◌∙◌,
}
use scrutinizer.Rustc.Queries.{Tcx}
use scrutinizer.Flowistry.{Flowistry}
use scrutinizer.Common.Function.{
  FunctionInfo, info_with_body, info_without_body, FunctionCall, Analyzed,
}
use scrutinizer.Common.Storage.Functions.{FunctionInfoStorage}
use scrutinizer.Important.Compute.{ImportantLocals}
use scrutinizer.Analyzer.Heuristics.{has_raw_ptr_deref, has_transmute}
use scrutinizer.Analyzer.Analyze.{Report, analyze_calls, analyze_item}
use scrutinizer.Analyzer.Spec.{
  settled, IsLeaky, no_body, unresolved, raw_write, transmuted, Leads, first, later, Reaches, here,
  step,
}
use scrutinizer.Analyzer.Inversion.{
  Analyze, analyze_calls_parts, judge_parts, judge_without_body, ItemView, passes, judged,
  item_view,
}

failed_test :
    (a b c d : Bool)
    → (a && (not b && (not c && d))) ≡ false
    → (a ≡ false) ⊎ ((b ≡ true) ⊎ ((c ≡ true) ⊎ (d ≡ false)))
failed_test a b c d h = ground arith

module _ ⦃tcx : Tcx⦄ ⦃flow : Flowistry⦄ (storage : FunctionInfoStorage) (depth : ℕ)
    (allowlist trusted_stdlib : List tcx.Regex) where
  abbrev analyze : ℕ → Analyze storage depth
  analyze = analyze_item storage depth allowlist trusted_stdlib

  abbrev Chain : FunctionInfo → ImportantLocals → FunctionInfo → ImportantLocals → Type 0
  Chain = Reaches storage allowlist trusted_stdlib

  -- The function may leak, and nothing settles it.
  abbrev pub Leaks : FunctionInfo → ImportantLocals → Type 0
  Leaks g m = (settled allowlist trusted_stdlib g m ≡ ok false) × IsLeaky depth g

  -- If every call passed, then the callee that a call leads to passed.
  calls_passed :
      (n : ℕ) (locals : ImportantLocals) (calls : List FunctionCall) (report : Report)
      (result : Bool × Report) {g : FunctionInfo} {m : ImportantLocals}
      → analyze_calls storage depth (analyze n) locals calls report ≡ ok result
      → result.0 ≡ true
      → Leads storage locals calls g m
      → (r : Report) × (r' : Report) × (analyze n g m r ≡ ok (true, r'))
  calls_passed n locals [] report result h p l = elim l [ ]
  calls_passed n locals (call ∷ calls) report result h p (first t e) =
      let parts = analyze_calls_parts storage depth (analyze n) locals call calls report result h in
      (
        report,
        parts.callee_result.1,
        ground
            (arith, parts.transition_eq, parts.callee_eq, parts.callee_result_eq, parts.result_eq),
      )
  calls_passed n locals (call ∷ calls) report result h p (later l) =
      let parts = analyze_calls_parts storage depth (analyze n) locals call calls report result h in
      calls_passed n locals calls parts.callee_result.1 parts.rest_result parts.rest_eq
        (ground (arith, parts.result_eq)) l

  not-IsLeaky :
      (f : Analyzed) (transmutes passed : Bool)
      → has_transmute depth f.body ≡ ok transmutes
      → (is_empty f.unhandled && (not (has_raw_ptr_deref f.body) && (not transmutes && passed)))
        ≡ true
      → ¬ (IsLeaky depth (info_with_body f))
  not-IsLeaky f t c e v (unresolved _ h) = ground arith
  not-IsLeaky f t c e v (raw_write _ h) = ground arith
  not-IsLeaky f t c e v (transmuted _ h) = ground arith

  -- A settled function does not leak, and one that was judged passed only without a leak.
  judged_no_leak :
      (n : ℕ) (item : FunctionInfo) (locals : ImportantLocals) (report : Report)
      (result : Bool × Report)
      → ItemView storage depth allowlist trusted_stdlib n item locals report result
      → result.0 ≡ true
      → ¬ (Leaks item locals)
  judged_no_leak n item locals report result (passes deps s e) p (s', _) = cc
  judged_no_leak n (info_without_body d ts) locals report result (judged deps s e) p leak =
      let w =
        judge_without_body storage depth allowlist trusted_stdlib (analyze n) d ts locals
          (record report { deps = deps }) in
      ground (arith, e, w)
  judged_no_leak n (info_with_body f) locals report result (judged deps s e) p leak =
      let parts =
        judge_parts storage depth allowlist trusted_stdlib (analyze n) f locals
          (record report { deps = deps }) result e in
      not-IsLeaky f parts.transmutes parts.calls_result.0 parts.transmute_eq
        (sym parts.verdict_eq ∙ p) leak.1

  judged_calls_pass :
      (n : ℕ) (f : Analyzed) (locals : ImportantLocals) (report : Report) (result : Bool × Report)
      → ItemView storage depth allowlist trusted_stdlib n (info_with_body f) locals report result
      → settled allowlist trusted_stdlib (info_with_body f) locals ≡ ok false
      → result.0 ≡ true
      → (r : Report) × (q : Bool × Report) × (analyze_calls storage depth
            (analyze n)
            locals
            f.calls
            r
          ≡ ok q)
        × (q.0 ≡ true)
  judged_calls_pass n f locals report result (passes deps s e) s' p = absurd (cc)
  judged_calls_pass n f locals report result (judged deps s e) s' p =
      let parts =
        judge_parts storage depth allowlist trusted_stdlib (analyze n) f locals
          (record report { deps = deps }) result e in
      (_, parts.calls_result, parts.calls_eq, ground (arith, parts.verdict_eq))

  passed_no_leak :
      (n : ℕ) (item : FunctionInfo) (locals : ImportantLocals) (report : Report)
      (result : Bool × Report) {g : FunctionInfo} {m : ImportantLocals}
      → analyze n item locals report ≡ ok result
      → result.0 ≡ true
      → Chain item locals g m
      → ¬ (Leaks g m)
  unfolding analyze_item
  passed_no_leak zero item locals report result h p c leak = cc
  passed_no_leak (suc n) item locals report result h p here leak =
      judged_no_leak n item locals report result
        (item_view storage depth allowlist trusted_stdlib n item locals report result h) p leak
  passed_no_leak (suc n) item locals report result h p (step {f} {h = g'} {k} s l c) leak =
      let v = item_view storage depth allowlist trusted_stdlib n item locals report result h in
      let (r, q, e, c_true) = judged_calls_pass n f locals report result v s p in
      let (r1, r2, e') = calls_passed n locals f.calls r q e c_true l in
      passed_no_leak n g' k r1 (true, r2) e' refl c leak

  -- A call that did not pass: what it leads to did not pass.
  call_failed :
      (n : ℕ) (locals : ImportantLocals) (calls : List FunctionCall) (report : Report)
      (result : Bool × Report)
      → analyze_calls storage depth (analyze n) locals calls report ≡ ok result
      → result.0 ≡ false
      → (g : FunctionInfo) × (m : ImportantLocals) × (r : Report) × (q : Bool × Report) × Leads
          storage locals calls g m
        × (analyze n g m r ≡ ok q)
        × (q.0 ≡ false)
  unfolding analyze_calls
  call_failed n locals [] report result h p = absurd (cc)
  call_failed n locals (call ∷ calls) report result h p =
      let parts = analyze_calls_parts storage depth (analyze n) locals call calls report result h in
      elim (Bool-cases parts.callee_result.0) [
        | inl passed ↦
            let (g, m, r, q, l, e, no_) =
              call_failed n locals calls parts.callee_result.1 parts.rest_result parts.rest_eq
                (ground (arith, parts.result_eq)) in
            (g, m, r, q, later l, e, no_)
        | inr failed ↦ (
          parts.callee,
          parts.callee_locals,
          report,
          parts.callee_result,
          first parts.transition_eq parts.callee_eq,
          parts.callee_result_eq,
          failed,
        )
      ]

  LeakFrom : FunctionInfo → ImportantLocals → Type 0
  LeakFrom item locals =
      (g : FunctionInfo) × (m : ImportantLocals) × Chain item locals g m × Leaks g m

  -- One of the four tests of a judged function failed.
  failed_view :
      (n : ℕ) (item : FunctionInfo) (locals : ImportantLocals) (report : Report)
      (result : Bool × Report)
      → ItemView storage depth allowlist trusted_stdlib n item locals report result
      → result.0 ≡ false
      → ((g : FunctionInfo) (m : ImportantLocals) (r : Report) (q : Bool × Report)
          → analyze n g m r ≡ ok q
          → q.0 ≡ false
          → LeakFrom g m)
      → LeakFrom item locals
  unfolding LeakFrom
  failed_view n item locals report result (passes deps s e) p ih = absurd (cc)
  failed_view n (info_without_body d ts) locals report result (judged deps s e) p ih =
      (info_without_body d ts, locals, here, (s, no_body d ts))
  failed_view n (info_with_body f) locals report result (judged deps s e) p ih =
      let parts =
        judge_parts storage depth allowlist trusted_stdlib (analyze n) f locals
          (record report { deps = deps }) result e in
      elim (failed_test (is_empty f.unhandled) (has_raw_ptr_deref f.body) parts.transmutes
        parts.calls_result.0 (sym parts.verdict_eq ∙ p)) [
          | inl e1 ↦ (info_with_body f, locals, here, (s, unresolved f e1))
          | inr (inl e2) ↦ (info_with_body f, locals, here, (s, raw_write f e2))
          | inr (inr (inl e3)) ↦
              (info_with_body f, locals, here, (s, transmuted f (parts.transmute_eq ∙ ap ok e3)))
          | inr (inr (inr e4)) ↦
              let (g, m, r, q, l, eq_, no_) =
                call_failed n locals f.calls _ parts.calls_result parts.calls_eq e4 in
              let (g', m', c, leak) = ih g m r q eq_ no_ in (g', m', step s l c, leak)
        ]

  failed_leak :
      (n : ℕ) (item : FunctionInfo) (locals : ImportantLocals) (report : Report)
      (result : Bool × Report)
      → analyze n item locals report ≡ ok result
      → result.0 ≡ false
      → LeakFrom item locals
  unfolding analyze_item LeakFrom
  failed_leak zero item locals report result h p = absurd (cc)
  failed_leak (suc n) item locals report result h p =
      failed_view n item locals report result
        (item_view storage depth allowlist trusted_stdlib n item locals report result h) p
        (failed_leak n)

  -- When `analyze_item` returns, its verdict is `true` exactly if no chain of recorded calls, on
  -- which no function before the last is settled, ends in a function that is not settled and is
  -- leaky: without a body, with an unresolved call, with a write through a raw pointer, or with a
  -- transmute to a mutable reference.
  pub analyze_item_verdict :
      (fuel : ℕ) (item : FunctionInfo) (locals : ImportantLocals) (report : Report) (verdict : Bool)
      (report' : Report)
      → analyze_item storage depth allowlist trusted_stdlib fuel item locals report
        ≡ ok (verdict, report')
      → (verdict ≡ true) ↔ (
          (g : FunctionInfo) (m : ImportantLocals)
          → Reaches storage allowlist trusted_stdlib item locals g m
          → ¬ (Leaks g m))
  unfolding LeakFrom
  analyze_item_verdict fuel item locals report true report' h =
      (λ _ g m c. passed_no_leak fuel item locals report (true, report') h refl c, λ _. refl)
  analyze_item_verdict fuel item locals report false report' h = (
    λ e. absurd (cc),
    λ safe.
        let (g, m, c, leak) = failed_leak fuel item locals report (false, report') h refl in
        absurd (safe g m c leak),
  )
