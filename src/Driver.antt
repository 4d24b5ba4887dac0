-- ===== src/Driver.antt =====
-- scrutinizer/src/lib.rs: which crates are handled and how, and the entry point of the analysis.
pub mod Fuel
pub mod Handling
pub mod Laws
pub mod Plugin
pub mod Sound
pub mod Succeeds
pub mod Tests
use scrutinizer.Prelude.{
  ℕ, suc, Bool, true, false, not, ◌||◌, ◌&&◌, String, List, [], ◌∷◌, map, Option, none, some,
  Outcome, ok, err, panic, out_of_fuel, ◌>>=◌, expect, collect, keep, is_some, is_empty, find,
  get_elem?, enumerate_from, range_from, and_then, unwrap_or, if◌then◌else◌,
}
use mathlib.Core.Option
use text.Mathlib.Text.{find?}
use scrutinizer.Prelude.Eq.{◌==◌, string_eq}
use scrutinizer.Rustc.Queries.{Tcx}
use scrutinizer.Flowistry.{Flowistry}
use scrutinizer.BodyCache.{substituted_mir}
use scrutinizer.Important.Transition.{from_important_args}
use scrutinizer.Precheck.{precheck}
use scrutinizer.Selector.{select_functions, select_pprs}
use scrutinizer.Collector.HasTrackedTy.{Itertools}
use scrutinizer.Collector.Collect.{Dataflow, Stores}
use scrutinizer.Collector.Engine
use scrutinizer.Analyzer.Result.{PurityAnalysisResult, error, is_inconsistent}
use scrutinizer.Analyzer.Analyze.{run}

pub record Config : Type 0 where
  pub mode : String
  pub only_inconsistent : Bool
  pub output_file : String
  pub shallow : Bool
  pub target_filter : Option String
  pub important_args : Option (List ℕ)
  pub allowlist : Option (List String)
  pub trusted_stdlib : Option (List String)

unfoldable pub default_mode : String
default_mode = "functions"

pub data CrateHandling : Type 0 where
  just_compile compile_and_dump analyze : CrateHandling

-- The argument after the first `--crate-name`.
unfoldable pub crate_name_of : List String → Option String
crate_name_of compiler_args =
    and_then (find (λ p. p.1 == "--crate-name") (enumerate_from 0 compiler_args))
      (λ p. get_elem? compiler_args (suc p.0))

-- The cases of the `match`, in order.
unfoldable pub handling : Bool → Option String → CrateHandling
handling primary none = if primary then analyze else just_compile
handling primary (some krate) =
    if krate == "build_script_build"
    then just_compile
    else if primary
    then analyze
    else compile_and_dump

-- `primary`: the variable `CARGO_PRIMARY_PACKAGE` is set.
unfoldable pub how_to_handle_this_crate : Bool → List String → CrateHandling
how_to_handle_this_crate primary compiler_args = handling primary (crate_name_of compiler_args)

-- The crate `regex`: `Regex::new(re)`, `none` where the pattern is invalid.
pub record RegexCompiler ⦃tcx : Tcx⦄ : Type 0 where
  pub compile : String → Option tcx.Regex

module _ ⦃tcx : Tcx⦄ where
  open tcx use {Instance, instance_def_id}

  unfoldable pub is_target : Config → Instance × Bool → Bool
  is_target config (instance_, _) = elim config.target_filter [
    | none ↦ true
    | some filter ↦ is_some (find? (tcx.def_path_str (instance_def_id instance_)) filter)
  ]

  unfoldable pub select : Config → Outcome (List (Instance × Bool))
  select config =
      if config.mode == "function"
      then ok select_functions
      else if config.mode == "ppr"
      then select_pprs
      else panic

  -- The names that the error message of `after_analysis` lists; the process exits with -1 if there
  -- are any.
  unfoldable pub inconsistent : List PurityAnalysisResult → List tcx.DefId
  inconsistent results = map (λ r. r.def_id) (keep is_inconsistent results)

  unfoldable pub exits_with_failure : List PurityAnalysisResult → Bool
  exits_with_failure results = not (is_empty (inconsistent results))

module _ ⦃tcx : Tcx⦄ ⦃flow : Flowistry⦄ ⦃itertools : Itertools⦄ ⦃dataflow : Dataflow⦄
    ⦃regex : RegexCompiler⦄ where
  open tcx use {Instance, Regex, instance_def_id}

  -- `unwrap` on an invalid pattern.
  unfoldable pub compile_all : Option (List String) → Outcome (List Regex)
  compile_all patterns = collect (λ re. expect (regex.compile re)) (unwrap_or patterns [])

  -- All arguments, if none are given.
  unfoldable pub important_args_of : Config → Instance → Outcome (List ℕ)
  important_args_of config instance_ = elim config.important_args [
    | some args ↦ ok args
    | none ↦ (do body ← substituted_mir instance_; ok (range_from 1 (tcx.arg_count body)))
  ]

  -- `fuel` bounds the depth of the calls that the collector follows, `depth` that of the types.
  module _ (fuel depth : ℕ) where
    unfoldable pub analyze_checked : Config → Instance → Bool → Outcome PurityAnalysisResult
    analyze_checked config instance_ annotated_pure = do
      stores ← Engine.collect fuel instance_ config.shallow
      important_args ← important_args_of config instance_
      important_locals ← from_important_args important_args (instance_def_id instance_)
      allowlist ← compile_all config.allowlist
      trusted_stdlib ← compile_all config.trusted_stdlib
      run stores.functions depth allowlist trusted_stdlib stores.closures important_locals
          annotated_pure

    -- A rejected instance is reported with the reason.
    unfoldable pub after_precheck :
        Config → Instance → Bool → Outcome (Unit {0}) → Outcome PurityAnalysisResult
    after_precheck config instance_ annotated_pure (ok _) =
        analyze_checked config instance_ annotated_pure
    after_precheck config instance_ annotated_pure (err reason) =
        ok (error (instance_def_id instance_) reason annotated_pure)
    after_precheck config instance_ annotated_pure panic = panic
    after_precheck config instance_ annotated_pure out_of_fuel = out_of_fuel

    unfoldable pub analyze_instance : Config → Instance × Bool → Outcome PurityAnalysisResult
    analyze_instance config (instance_, annotated_pure) =
        after_precheck config instance_ annotated_pure (precheck instance_)

    unfoldable pub analyze_all : Config → Outcome (List PurityAnalysisResult)
    analyze_all config = do
      instances ← select config
      collect (analyze_instance config) (keep (is_target config) instances)

    unfoldable pub scrutinize_crate : Config → Outcome (List PurityAnalysisResult)
    scrutinize_crate config = do
      results ← analyze_all config
      ok (if config.only_inconsistent then keep is_inconsistent results else results)
