-- ===== src/Driver/Laws.antt =====
-- scrutinizer/src/lib.rs: what is analysed, what is reported, and when the analysis returns.
use scrutinizer.Prelude.{
  ℕ, Bool, true, false, not, ◌≡◌, refl, sym, ap, ◌∙◌, map, arith, List, [], ◌∷◌, ok, panic, keep,
  All, is_empty, ok_injective, >>=-split, >>=-returns,
}
use scrutinizer.Prelude.Eq.{string_eq}
use scrutinizer.Rustc.Queries.{Tcx}
use scrutinizer.Flowistry.{Flowistry}
use scrutinizer.Important.Compute.{ImportantLocals}
use scrutinizer.Important.Transition.{from_important_args}
use scrutinizer.Precheck.{precheck}
use scrutinizer.Collector.HasTrackedTy.{Itertools}
use scrutinizer.Collector.Collect.{Dataflow, Stores}
use scrutinizer.Collector.Engine
use scrutinizer.Collector.Closed.Collected.{IsSound, collect-IsCollected}
use scrutinizer.Analyzer.Result.{PurityAnalysisResult, is_inconsistent}
use scrutinizer.Analyzer.Total.{IsAvailable, run_returns}
use scrutinizer.Driver.{
  Config, default_mode, RegexCompiler, compile_all, important_args_of, analyze_checked,
  after_precheck, analyze_instance, is_target, select, scrutinize_crate, inconsistent,
  exits_with_failure, analyze_all,
}

keep-keep {ℓ} : {A : Type ℓ} (p : A → Bool) (xs : List A) → keep p (keep p xs) ≡ keep p xs
keep-keep p [] = refl
keep-keep p (x ∷ xs) = ground (arith, keep-keep p xs)

module _ ⦃tcx : Tcx⦄ ⦃flow : Flowistry⦄ ⦃itertools : Itertools⦄ ⦃dataflow : Dataflow⦄
    ⦃regex : RegexCompiler⦄ where
  open tcx use {Instance, instance_def_id}

  module _ (fuel depth : ℕ) where
    -- With the default mode the analysis panics, whatever the rest of the configuration is.
    pub scrutinize_crate-default_mode :
        (config : Config) → config.mode ≡ default_mode → scrutinize_crate fuel depth config ≡ panic
    unfolding scrutinize_crate analyze_all select default_mode
    scrutinize_crate-default_mode config h = rw h refl

    -- With a dataflow engine that makes its states only by the given effects and joins: if the
    -- precheck accepts the instance, the collector returns with functions that are all
    -- available, the important arguments have dependent locals, and the patterns are valid, then
    -- `analyze_instance` returns a result.
    pub analyze_instance_returns :
        (sound : IsSound) (config : Config) (instance_ : Instance) (annotated_pure : Bool)
        (stores : Stores) (args : List ℕ) (locals : ImportantLocals)
        (allowlist trusted_stdlib : List tcx.Regex)
        → precheck instance_ ≡ ok tt
        → Engine.collect fuel instance_ config.shallow ≡ ok stores
        → important_args_of config instance_ ≡ ok args
        → from_important_args args (instance_def_id instance_) ≡ ok locals
        → compile_all config.allowlist ≡ ok allowlist
        → compile_all config.trusted_stdlib ≡ ok trusted_stdlib
        → All (IsAvailable stores.functions depth) stores.functions.fns
        → (result : PurityAnalysisResult) × (analyze_instance fuel depth config
              (instance_, annotated_pure)
            ≡ ok result)
    unfolding analyze_instance after_precheck analyze_checked
    analyze_instance_returns sound config instance_ annotated_pure stores args locals allowlist
          trusted_stdlib checked collected some_args some_locals a t available =
        let (closed, _, (origin, found)) =
          collect-IsCollected sound fuel instance_ config.shallow stores collected in
        rw checked (
          >>=-returns _ _ stores collected (
            >>=-returns _ _ args some_args (
              >>=-returns _ _ locals some_locals (
                >>=-returns _ _ allowlist a (
                  >>=-returns _ _ trusted_stdlib t (
                    run_returns stores.functions depth allowlist trusted_stdlib stores.closures
                      locals annotated_pure origin closed available found))))))

    -- Reporting inconsistent results only changes neither which of them are reported nor the exit
    -- status.
    pub scrutinize_crate-only_inconsistent :
        (config : Config) (short full : List PurityAnalysisResult)
        → scrutinize_crate fuel depth (record config { only_inconsistent = true }) ≡ ok short
        → scrutinize_crate fuel depth (record config { only_inconsistent = false }) ≡ ok full
        → (short ≡ keep is_inconsistent full) × (exits_with_failure short ≡ exits_with_failure full)
    unfolding scrutinize_crate analyze_all select is_target analyze_instance after_precheck
        analyze_checked important_args_of exits_with_failure inconsistent
    scrutinize_crate-only_inconsistent config short full h k =
        let (results, e, same) = >>=-split (analyze_all fuel depth config) _ h in
        let (results', e', same') = >>=-split (analyze_all fuel depth config) _ k in
        let both : results ≡ results' = ok_injective (sym e ∙ e') in
        let left = ok_injective same in
        let right = ok_injective same' in
        let shorter = sym left ∙ ap (keep is_inconsistent) (both ∙ right) in
        (
          shorter,
          ap (λ l. not (is_empty (map (λ r. r.def_id) l)))
              (ap (keep is_inconsistent) shorter ∙ keep-keep is_inconsistent full),
        )
