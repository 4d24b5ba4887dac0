-- ===== src/Analyzer/Monotone.antt =====
-- scrutils/src/analyzer/analyzer.rs: what the patterns of the allowlist and of the trusted library do
-- to a verdict.
use scrutinizer.Prelude.{
  ℕ, true, false, ◌≡◌, refl, ap, ◌∙◌, arith, ◌||◌, List, ◌++◌, any-append, ok, >>=-split,
  ok_injective, Option-cases, inl, inr,
}
use scrutinizer.Rustc.Queries.{Tcx}
use scrutinizer.Flowistry.{Flowistry}
use scrutinizer.BodyCache.{substituted_mir}
use scrutinizer.Common.Function.{FunctionInfo, info_instance}
use scrutinizer.Common.Storage.Functions.{FunctionInfoStorage}
use scrutinizer.Important.Compute.{ImportantLocals}
use scrutinizer.Analyzer.Analyze.{Report, analyze_item, is_trusted, matches_any}
use scrutinizer.Analyzer.Spec.{settled, Reaches, here, step}
use scrutinizer.Analyzer.Verdict.{analyze_item_verdict}

module _ ⦃tcx : Tcx⦄ where
  open tcx use {Regex}

  matches_any-append :
      (patterns more : List Regex) (item : FunctionInfo)
      → matches_any (patterns ++ more) item ≡ (matches_any patterns item || matches_any more item)
  unfolding matches_any
  matches_any-append patterns more item = any-append _ patterns more

  -- What more patterns trust is trusted by fewer, or by the others.
  untrusted :
      (trusted more : List Regex) (item : FunctionInfo)
      → is_trusted (trusted ++ more) item ≡ ok false
      → is_trusted trusted item ≡ ok false
  unfolding is_trusted
  untrusted trusted more item h = elim (Option-cases (info_instance item)) [
    | inl e ↦
        let off = ok_injective (rw (e, is_trusted) at h) in
        rw (e, is_trusted) (ap ok (ground (arith, off, matches_any-append trusted more item)))
    | inr (i, e) ↦
        let (body, found, h1) = >>=-split (substituted_mir i) _ (rw (e, is_trusted) at h) in
        rw (e, is_trusted, found)
          (ap ok (ground (arith, ok_injective h1, matches_any-append trusted more item)))
  ]

  -- What is not settled with more patterns is not settled with fewer.
  unsettled :
      (allowlist trusted more_allowed more_trusted : List Regex) (item : FunctionInfo)
      (locals : ImportantLocals)
      → settled (allowlist ++ more_allowed) (trusted ++ more_trusted) item locals ≡ ok false
      → settled allowlist trusted item locals ≡ ok false
  unsettled allowlist trusted more_allowed more_trusted item locals h =
      let (t, e, h1) = >>=-split (is_trusted (trusted ++ more_trusted) item) _ h in
      let off = ok_injective h1 in
      let appended = matches_any-append allowlist more_allowed item in
      let e' = untrusted trusted more_trusted item (e ∙ ap ok (ground (arith, off))) in
      rw e' (ap ok (ground (arith, off, appended)))

  module _ ⦃flow : Flowistry⦄ (storage : FunctionInfoStorage)
      (allowlist trusted more_allowed more_trusted : List Regex) where
    Reaches-fewer :
        {item g : FunctionInfo} {locals m : ImportantLocals}
        → Reaches storage (allowlist ++ more_allowed) (trusted ++ more_trusted) item locals g m
        → Reaches storage allowlist trusted item locals g m
    Reaches-fewer here = here
    Reaches-fewer (step open_ leads rest) =
        step (unsettled allowlist trusted more_allowed more_trusted _ _ open_) leads
          (Reaches-fewer rest)

    -- A function that passes is never rejected with more patterns on the allowlist and among the
    -- trusted ones.
    pub analyze_item-monotone :
        (depth fuel fuel' : ℕ) (item : FunctionInfo) (locals : ImportantLocals)
        (report after report' after' : Report)
        → analyze_item storage depth allowlist trusted fuel item locals report ≡ ok (true, after)
        → ¬ (
            analyze_item storage depth
              (allowlist ++ more_allowed)
              (trusted ++ more_trusted)
              fuel'
              item
              locals
              report'
            ≡ ok (false, after'))
    analyze_item-monotone depth fuel fuel' item locals report after report' after' h h' =
        let safe =
          (analyze_item_verdict storage depth allowlist trusted fuel item locals report true after
              h).0
            refl in
        let passes =
          (analyze_item_verdict storage depth (allowlist ++ more_allowed) (trusted ++ more_trusted)
              fuel' item locals report' false after' h').1
            (λ g m chain (open_, leaky).
              safe g m (Reaches-fewer chain)
                (unsettled allowlist trusted more_allowed more_trusted g m open_, leaky)) in
        cc passes
