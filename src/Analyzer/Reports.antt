-- ===== src/Analyzer/Reports.antt =====
-- What `analyze_item` writes to the lists of passing and failing functions.
use scrutinizer.Prelude.{
  ℕ, zero, suc, Bool, true, false, ◌&&◌, ◌≡◌, refl, sym, ap, subst, ok_injective, String, List, [],
  ◌∷◌, ◌++◌, ok, arith, is_empty, ◌∙◌, All, All-append, append_assoc, append-nil,
}
use scrutinizer.Rustc.Queries.{Tcx}
use scrutinizer.Flowistry.{Flowistry}
use scrutinizer.Common.Function.{
  FunctionInfo, info_with_body, info_without_body, FunctionCall, Analyzed,
}
use scrutinizer.Common.Storage.Functions.{FunctionInfoStorage}
use scrutinizer.Important.Compute.{ImportantLocals}
use scrutinizer.Analyzer.Result.{FunctionWithMetadata}
use scrutinizer.Analyzer.Analyze.{Report, analyze_calls, analyze_item, push_passing, push_failing}
use scrutinizer.Analyzer.Inversion.{
  Analyze, analyze_calls_parts, JudgeParts, judge_parts, judge_without_body, ItemView, passes,
  judged, item_view,
}

and_false : (a : Bool) → (a && false) ≡ false
and_false a = ground arith

module _ ⦃tcx : Tcx⦄ where
  -- An entry that reports neither a write through a raw pointer nor a transmute.
  abbrev pub IsClean : FunctionWithMetadata → Type 0
  IsClean m = (m.raw_pointer_deref ≡ false) × (m.has_transmute ≡ false)

  -- From `r` to `r'` entries were added at the end of both lists: clean ones to the passing
  -- functions, and some to the failing ones exactly if the verdict is `false`.
  pub record Extends (r : Report) (verdict : Bool) (r' : Report) : Type 0 where
    pub new_passing : List FunctionWithMetadata
    pub new_failing : List FunctionWithMetadata
    pub passing_eq : r'.passing ≡ r.passing ++ new_passing
    pub failing_eq : r'.failing ≡ r.failing ++ new_failing
    pub clean : All IsClean new_passing
    pub verdict_eq : verdict ≡ is_empty new_failing

  is_empty-append :
      (xs ys : List FunctionWithMetadata) → is_empty (xs ++ ys) ≡ (is_empty xs && is_empty ys)
  is_empty-append [] ys = refl
  is_empty-append (x ∷ xs) ys = refl

  Extends-none : (r : Report) → Extends r true r
  Extends-none r = record {
    new_passing = [];
    new_failing = [];
    passing_eq = sym (append-nil _);
    failing_eq = sym (append-nil _);
    clean = tt;
    verdict_eq = refl;
  }

  Extends-both :
      (r r' r'' : Report) (a b : Bool) → Extends r a r' → Extends r' b r'' → Extends r (a && b) r''
  Extends-both r r' r'' a b x y = record {
    new_passing = x.new_passing ++ y.new_passing;
    new_failing = x.new_failing ++ y.new_failing;
    passing_eq =
        y.passing_eq ∙ ap (λ l. l ++ y.new_passing) x.passing_eq ∙ append_assoc r.passing _ _;
    failing_eq =
        y.failing_eq ∙ ap (λ l. l ++ y.new_failing) x.failing_eq ∙ append_assoc r.failing _ _;
    clean = All-append IsClean x.new_passing y.new_passing x.clean y.clean;
    verdict_eq =
        ground (arith, x.verdict_eq, y.verdict_eq, is_empty-append x.new_failing y.new_failing);
  }

  Extends-deps :
      (r r' : Report) (a : Bool) (deps : List String)
      → Extends (record r { deps = deps }) a r'
      → Extends r a r'
  Extends-deps r r' a deps x = record {
    new_passing = x.new_passing;
    new_failing = x.new_failing;
    passing_eq = x.passing_eq;
    failing_eq = x.failing_eq;
    clean = x.clean;
    verdict_eq = x.verdict_eq;
  }

  Extends-passing :
      (r : Report) (m : FunctionWithMetadata) → IsClean m → Extends r true (push_passing m r)
  unfolding push_passing
  Extends-passing r m h = record {
    new_passing = m ∷ [];
    new_failing = [];
    passing_eq = refl;
    failing_eq = sym (append-nil _);
    clean = (h, tt);
    verdict_eq = refl;
  }

  Extends-failing : (r : Report) (m : FunctionWithMetadata) → Extends r false (push_failing m r)
  unfolding push_failing
  Extends-failing r m = record {
    new_passing = [];
    new_failing = m ∷ [];
    passing_eq = sym (append-nil _);
    failing_eq = refl;
    clean = tt;
    verdict_eq = refl;
  }

  -- Entries after `r'` hide what the verdict of `r'` was, if they fail.
  Extends-failed :
      (r r' r'' : Report) (a : Bool) → Extends r a r' → Extends r' false r'' → Extends r false r''
  Extends-failed r r' r'' a x y =
      subst (λ b. Extends r b r'') (and_false a) (Extends-both r r' r'' a false x y)

module _ ⦃tcx : Tcx⦄ ⦃flow : Flowistry⦄ (storage : FunctionInfoStorage) (depth : ℕ)
    (allowlist trusted_stdlib : List tcx.Regex) where
  abbrev analyze : ℕ → Analyze storage depth
  analyze = analyze_item storage depth allowlist trusted_stdlib

  -- What is shown of each call of `analyze_item`.
  abbrev Extending : Analyze storage depth → Type 0
  Extending f =
      (g : FunctionInfo) (m : ImportantLocals) (r : Report) (q : Bool × Report)
      → f g m r ≡ ok q
      → Extends r q.0 q.1

  calls_extend :
      (f : Analyze storage depth) (locals : ImportantLocals) (calls : List FunctionCall)
      (r : Report) (q : Bool × Report)
      → Extending f
      → analyze_calls storage depth f locals calls r ≡ ok q
      → Extends r q.0 q.1
  unfolding analyze_calls
  calls_extend f locals [] r q ih h =
      subst (λ (p : Bool × Report). Extends r p.0 p.1) (ok_injective h) (Extends-none r)
  calls_extend f locals (call ∷ calls) r q ih h =
      let parts = analyze_calls_parts storage depth f locals call calls r q h in
      subst (λ (p : Bool × Report). Extends r p.0 p.1) (sym parts.result_eq)
        (Extends-both r parts.callee_result.1 parts.rest_result.1 _ _
          (ih parts.callee parts.callee_locals r parts.callee_result parts.callee_result_eq)
          (calls_extend f locals calls parts.callee_result.1 parts.rest_result ih parts.rest_eq))

  judge-Extends :
      (f : Analyze storage depth) (item : Analyzed) (locals : ImportantLocals) (r : Report)
      (verdict : Bool) (r' : Report)
      → Extending f
      → JudgeParts storage depth allowlist trusted_stdlib f item locals r (verdict, r')
      → Extends r verdict r'
  judge-Extends f item locals r true r' ih parts =
      let x = calls_extend f locals item.calls r parts.calls_result ih parts.calls_eq in
      let passed : parts.calls_result.0 ≡ true = ground (arith, parts.verdict_eq) in
      subst (Extends r true) (sym parts.report_eq) (
        Extends-both r parts.calls_result.1 _ true true
          (subst (λ b. Extends r b parts.calls_result.1) passed x)
          (Extends-passing _ _
            (ground (arith, parts.verdict_eq), ground (arith, parts.verdict_eq))))
  judge-Extends f item locals r false r' ih parts =
      let x = calls_extend f locals item.calls r parts.calls_result ih parts.calls_eq in
      subst (Extends r false) (sym parts.report_eq)
        (Extends-failed r parts.calls_result.1 _ parts.calls_result.0 x (Extends-failing _ _))

  view-Extends :
      (n : ℕ) (item : FunctionInfo) (locals : ImportantLocals) (r : Report) (verdict : Bool)
      (r' : Report)
      → Extending (analyze n)
      → ItemView storage depth allowlist trusted_stdlib n item locals r (verdict, r')
      → Extends r verdict r'
  view-Extends n item locals r verdict r' ih (passes deps s e) =
      subst (λ (p : Bool × Report). Extends r p.0 p.1) (sym e)
        (Extends-deps r _ true deps (Extends-passing _ _ (refl, refl)))
  view-Extends n (info_with_body f) locals r verdict r' ih (judged deps s e) =
      Extends-deps r r' verdict deps (
        judge-Extends (analyze n) f locals _ verdict r' ih
          (judge_parts storage depth allowlist trusted_stdlib (analyze n) f locals _ _ e))
  view-Extends n (info_without_body d ts) locals r verdict r' ih (judged deps s e) =
      Extends-deps r r' verdict deps (
        subst (λ (p : Bool × Report). Extends (record r { deps = deps }) p.0 p.1)
          (ok_injective (
            sym
              (judge_without_body storage depth allowlist trusted_stdlib (analyze n) d ts locals _)
            ∙ e))
          (Extends-failing _ _))

  extends : (n : ℕ) → Extending (analyze n)
  unfolding analyze_item
  extends zero g m r q h = absurd (cc)
  extends (suc n) g m r (verdict, r') h =
      view-Extends n g m r verdict r' (extends n)
        (item_view storage depth allowlist trusted_stdlib n g m r (verdict, r') h)

  -- `analyze_item` only adds to the lists. The functions it adds to the passing ones report
  -- neither a raw pointer nor a transmute, and the verdict is `true` exactly if it adds no failing
  -- function.
  pub analyze_item_report :
      (fuel : ℕ) (item : FunctionInfo) (locals : ImportantLocals) (report : Report) (verdict : Bool)
      (report' : Report)
      → analyze_item storage depth allowlist trusted_stdlib fuel item locals report
        ≡ ok (verdict, report')
      → Extends report verdict report'
  analyze_item_report fuel item locals report verdict report' h =
      extends fuel item locals report (verdict, report') h
