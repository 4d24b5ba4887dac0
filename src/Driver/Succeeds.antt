-- ===== src/Driver/Succeeds.antt =====
-- scrutinizer/src/lib.rs: what it means that a compilation with the analysis does not fail.
use scrutinizer.Prelude.{
  ℕ, Bool, true, false, not, ◌≡◌, refl, sym, ◌∙◌, ap, arith, List, [], ◌∷◌, ◌++◌, map, Outcome, ok,
  err, panic, out_of_fuel, ◌>>=◌, >>=-split, ok_injective, collect, keep, is_empty, All,
  if◌then◌else◌, inl, inr, Bool-cases,
}
use scrutinizer.Rustc.Queries.{Tcx}
use scrutinizer.Flowistry.{Flowistry}
use scrutinizer.Important.Transition.{from_important_args}
use scrutinizer.Precheck.{precheck}
use scrutinizer.Collector.HasTrackedTy.{Itertools}
use scrutinizer.Collector.Collect.{Dataflow}
use scrutinizer.Collector.Engine
use scrutinizer.Analyzer.Result.Serialized.{Debug}
use scrutinizer.Analyzer.Result.{PurityAnalysisResult, error, is_inconsistent}
use scrutinizer.Analyzer.Run.{run-annotated}
use scrutinizer.Driver.{
  Config, RegexCompiler, compile_all, important_args_of, analyze_checked, after_precheck,
  analyze_instance, analyze_all, scrutinize_crate, select, is_target, inconsistent,
  exits_with_failure,
}
use scrutinizer.Driver.Plugin.{
  System, Written, reported, exit_failure, scrutinizer_callbacks, write_output, after_analysis,
}
use scrutinizer.Driver.Sound.{IsVerified, analyze_instance-IsVerified}

module _ {A B : Type 0} where
  -- Of a loop that returned, each element has a result, and what holds of all results holds of it.
  All-collect :
      (f : A → Outcome B) (Q : B → Type 0) (xs : List A) (ys : List B)
      → collect f xs ≡ ok ys
      → All Q ys
      → All (λ x. (y : B) × (f x ≡ ok y) × Q y) xs
  All-collect f Q [] ys h q = tt
  All-collect f Q (x ∷ xs) [] h q =
      let (y, e, h1) = >>=-split (f x) _ h in
      let (zs, _, same) = >>=-split (collect f xs) _ h1 in absurd (cc same)
  All-collect f Q (x ∷ xs) (z ∷ zs) h (q, qs) =
      let (y, e, h1) = >>=-split (f x) _ h in
      let (zs', rest, same) = >>=-split (collect f xs) _ h1 in
      ((z, cc (e, same), q), All-collect f Q xs zs (cc (rest, same)) qs)

All-kept :
    {A : Type 0} (P : A → Type 0) (test : A → Bool) (before after : List A) (x : A)
    → All P (keep test (before ++ x ∷ after))
    → test x ≡ true
    → P x
All-kept P test [] after x h passes = (rw passes at h).0
All-kept P test (y ∷ before) after x h passes = elim (Bool-cases (test y)) [
  | inl e ↦ All-kept P test before after x (rw e at h).1 passes
  | inr e ↦ All-kept P test before after x (rw e at h) passes
]

not-false : (b : Bool) → not b ≡ false → b ≡ true
not-false true h = refl
not-false false h = sym h

module _ ⦃tcx : Tcx⦄ where
  IsConsistent : PurityAnalysisResult → Type 0
  IsConsistent r = is_inconsistent r ≡ false

  -- No inconsistent result among the reported ones, so none at all.
  IsConsistent-none :
      (only : Bool) (full : List PurityAnalysisResult)
      → is_empty (
          map
            (λ (r : PurityAnalysisResult). r.def_id)
            (keep is_inconsistent (if only then keep is_inconsistent full else full)))
        ≡ true
      → All IsConsistent full
  unfolding IsConsistent
  IsConsistent-none only [] h = tt
  IsConsistent-none true (r ∷ full) h = elim (Bool-cases (is_inconsistent r)) [
    | inl e ↦ absurd (cc (rw (e, e) at h))
    | inr e ↦ (e, IsConsistent-none true full (rw e at h))
  ]
  IsConsistent-none false (r ∷ full) h = elim (Bool-cases (is_inconsistent r)) [
    | inl e ↦ absurd (cc (rw e at h))
    | inr e ↦ (e, IsConsistent-none false full (rw e at h))
  ]

module _ ⦃tcx : Tcx⦄ ⦃flow : Flowistry⦄ ⦃itertools : Itertools⦄ ⦃dataflow : Dataflow⦄
    ⦃regex : RegexCompiler⦄ (fuel depth : ℕ) (config : Config) where
  open tcx use {Instance}

  analyze_checked-annotated :
      (instance_ : Instance) (annotated : Bool) (result : PurityAnalysisResult)
      → analyze_checked fuel depth config instance_ annotated ≡ ok result
      → result.annotated_pure ≡ annotated
  unfolding analyze_checked
  analyze_checked-annotated instance_ annotated result h =
      let (stores, e1, h1) = >>=-split (Engine.collect fuel instance_ config.shallow) _ h in
      let (args, e2, h2) = >>=-split (important_args_of config instance_) _ h1 in
      let (locals, e3, h3) =
        >>=-split (from_important_args args (tcx.instance_def_id instance_)) _ h2 in
      let (allowlist, e4, h4) = >>=-split (compile_all config.allowlist) _ h3 in
      let (trusted, e5, h5) = >>=-split (compile_all config.trusted_stdlib) _ h4 in
      run-annotated stores.functions depth allowlist trusted stores.closures locals annotated result
        h5

  after_precheck-annotated :
      (instance_ : Instance) (annotated : Bool) (result : PurityAnalysisResult)
      (checked : Outcome (Unit {0}))
      → after_precheck fuel depth config instance_ annotated checked ≡ ok result
      → result.annotated_pure ≡ annotated
  unfolding after_precheck error
  after_precheck-annotated instance_ annotated result (ok _) h =
      analyze_checked-annotated instance_ annotated result h
  after_precheck-annotated instance_ annotated result (err reason) h =
      ap (λ (r : PurityAnalysisResult). r.annotated_pure) (sym (ok_injective h))
  after_precheck-annotated instance_ annotated result panic h = absurd (cc)
  after_precheck-annotated instance_ annotated result out_of_fuel h = absurd (cc)

  -- A consistent result of an instance that is annotated as pure is a verification.
  consistent-IsVerified :
      (instance_ : Instance) (result : PurityAnalysisResult)
      → analyze_instance fuel depth config (instance_, true) ≡ ok result
      → IsConsistent result
      → IsVerified fuel depth config instance_ × (precheck instance_ ≡ ok tt)
  unfolding analyze_instance IsConsistent is_inconsistent
  consistent-IsVerified instance_ result h consistent =
      let annotated = after_precheck-annotated instance_ true result (precheck instance_) h in
      analyze_instance-IsVerified fuel depth config instance_ true result h
        (ground (arith, annotated, consistent))

  module _ ⦃debug : Debug⦄ (system : System) where
    no_failure :
        (results : List PurityAnalysisResult) (written out : Written)
        → ok (if exits_with_failure results then exit_failure out else reported out)
          ≡ ok (reported written)
        → exits_with_failure results ≡ false
    no_failure results written out h = elim (Bool-cases (exits_with_failure results)) [
      | inl e ↦ absurd (cc (rw e at h))
      | inr e ↦ e
    ]

    All-IsConsistent :
        (results : List PurityAnalysisResult) (instances : List (Instance × Bool))
        → scrutinize_crate fuel depth config ≡ ok results
        → select config ≡ ok instances
        → exits_with_failure results ≡ false
        → All
            (λ x.
              (r : PurityAnalysisResult) × (analyze_instance fuel depth config x ≡ ok r)
              × IsConsistent r)
            (keep (is_target config) instances)
    unfolding scrutinize_crate analyze_all exits_with_failure inconsistent
    All-IsConsistent results instances h selected none =
        let (full, analyzed, same) = >>=-split (analyze_all fuel depth config) _ h in
        All-collect (analyze_instance fuel depth config) IsConsistent _ full
          (ap
              (λ m.
                m >>= λ l. collect (analyze_instance fuel depth config) (keep (is_target config) l))
              (sym selected)
            ∙ analyzed)
          (IsConsistent-none config.only_inconsistent full (
            ap
              (λ l.
                is_empty (map (λ (r : PurityAnalysisResult). r.def_id) (keep is_inconsistent l)))
              (ok_injective same)
            ∙ not-false _ none))

    -- When the analysis of a compilation ends with its report written and without the exit with -1,
    -- each selected instance that the filter keeps and that is annotated as pure is verified: the
    -- precheck accepts it, and no chain of recorded calls from it, with its important locals and on
    -- which no function before the last is settled, ends in a function that is leaky and not settled.
    pub after_analysis-IsVerified :
        (written : Written) (before after : List (Instance × Bool)) (instance_ : Instance)
        → after_analysis system fuel depth (scrutinizer_callbacks config) ≡ ok (reported written)
        → select config ≡ ok (before ++ (instance_, true) ∷ after)
        → is_target config (instance_, true) ≡ true
        → IsVerified fuel depth config instance_ × (precheck instance_ ≡ ok tt)
    unfolding after_analysis
    after_analysis-IsVerified written before after instance_ h selected target =
        let (results, scrutinized, h1) = >>=-split (scrutinize_crate fuel depth config) _ h in
        let (out, _, h2) = >>=-split (write_output system config _) _ h1 in
        let none = no_failure results written out h2 in
        let (r, analyzed, consistent) =
          All-kept _ (is_target config) before after (instance_, true)
            (All-IsConsistent results (before ++ (instance_, true) ∷ after) scrutinized selected
              none)
            target in
        consistent-IsVerified instance_ r analyzed consistent
