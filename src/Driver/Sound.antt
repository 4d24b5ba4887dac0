-- ===== src/Driver/Sound.antt =====
-- scrutinizer/src/lib.rs: what a positive result of `analyze_instance` means.
use scrutinizer.Prelude.{
  ℕ, suc, Bool, true, ◌≡◌, refl, List, Outcome, some, ok, err, panic, out_of_fuel, length,
  >>=-split,
}
use scrutinizer.Rustc.Queries.{Tcx}
use scrutinizer.Flowistry.{Flowistry}
use scrutinizer.Common.Function.{FunctionInfo}
use scrutinizer.Common.Storage.Functions.{get_with_body}
use scrutinizer.Important.Compute.{ImportantLocals}
use scrutinizer.Important.Transition.{from_important_args}
use scrutinizer.Precheck.{precheck}
use scrutinizer.Collector.HasTrackedTy.{Itertools}
use scrutinizer.Collector.Collect.{Dataflow, Stores}
use scrutinizer.Collector.Engine
use scrutinizer.Analyzer.Result.{PurityAnalysisResult, error}
use scrutinizer.Analyzer.Spec.{Reaches}
use scrutinizer.Analyzer.Verdict.{Leaks, analyze_item_verdict}
use scrutinizer.Analyzer.Run.{run_parts, empty_report}
use scrutinizer.Driver.{
  Config, RegexCompiler, compile_all, important_args_of, analyze_checked, after_precheck,
  analyze_instance,
}

module _ ⦃tcx : Tcx⦄ ⦃flow : Flowistry⦄ ⦃itertools : Itertools⦄ ⦃dataflow : Dataflow⦄
    ⦃regex : RegexCompiler⦄ (fuel depth : ℕ) (config : Config) (instance_ : tcx.Instance) where
  -- The instance has been collected, and no chain of recorded calls from it, with its important
  -- locals and on which no function before the last is settled, ends in a function that is leaky and
  -- not settled.
  pub record IsVerified : Type 0 where
    pub stores : Stores
    pub args : List ℕ
    pub locals : ImportantLocals
    pub allowlist : List tcx.Regex
    pub trusted_stdlib : List tcx.Regex
    pub origin : FunctionInfo
    pub stores_eq : Engine.collect fuel instance_ config.shallow ≡ ok stores
    pub args_eq : important_args_of config instance_ ≡ ok args
    pub locals_eq : from_important_args args (tcx.instance_def_id instance_) ≡ ok locals
    pub allowlist_eq : compile_all config.allowlist ≡ ok allowlist
    pub trusted_stdlib_eq : compile_all config.trusted_stdlib ≡ ok trusted_stdlib
    pub origin_eq : get_with_body stores.functions stores.functions.origin ≡ some origin
    pub no_leak :
        (g : FunctionInfo) (m : ImportantLocals)
        → Reaches stores.functions allowlist trusted_stdlib origin locals g m
        → ¬ (Leaks stores.functions depth allowlist trusted_stdlib g m)

  checked_sound :
      (annotated_pure : Bool) (result : PurityAnalysisResult)
      → analyze_checked fuel depth config instance_ annotated_pure ≡ ok result
      → result.status ≡ true
      → IsVerified
  unfolding analyze_checked
  checked_sound annotated_pure result h pure =
      let i = tcx.instance_def_id instance_ in
      let (stores, e1, h1) = >>=-split (Engine.collect fuel instance_ config.shallow) _ h in
      let (args, e2, h2) = >>=-split (important_args_of config instance_) _ h1 in
      let (locals, e3, h3) = >>=-split (from_important_args args i) _ h2 in
      let (allowlist, e4, h4) = >>=-split (compile_all config.allowlist) _ h3 in
      let (trusted, e5, h5) = >>=-split (compile_all config.trusted_stdlib) _ h4 in
      let parts =
        run_parts stores.functions depth allowlist trusted stores.closures locals annotated_pure
          result h5 in
      record {
        stores = stores;
        args = args;
        locals = locals;
        allowlist = allowlist;
        trusted_stdlib = trusted;
        origin = parts.origin;
        stores_eq = e1;
        args_eq = e2;
        locals_eq = e3;
        allowlist_eq = e4;
        trusted_stdlib_eq = e5;
        origin_eq = parts.origin_eq;
        no_leak =
            (analyze_item_verdict stores.functions depth allowlist trusted
                (suc (length stores.functions.fns)) parts.origin locals
                (empty_report stores.functions depth allowlist trusted) result.status parts.report
                parts.item_eq).0
              pure;
      }

  precheck_sound :
      (annotated_pure : Bool) (result : PurityAnalysisResult) (checked : Outcome (Unit {0}))
      → after_precheck fuel depth config instance_ annotated_pure checked ≡ ok result
      → result.status ≡ true
      → IsVerified × (checked ≡ ok tt)
  unfolding after_precheck error
  precheck_sound annotated_pure result (ok tt) h pure =
      (checked_sound annotated_pure result h pure, refl)
  precheck_sound annotated_pure result (err reason) h pure = absurd (cc)
  precheck_sound annotated_pure result panic h pure = absurd (cc)
  precheck_sound annotated_pure result out_of_fuel h pure = absurd (cc)

  -- When `analyze_instance` returns a result of status `true`, the precheck has accepted the
  -- instance, the collector has returned, the patterns are valid, and no chain of recorded calls from
  -- the instance, with its important locals and on which no function before the last is settled, ends
  -- in a function that is not settled and is leaky: without a body, with an unresolved call, with a
  -- write through a raw pointer, or with a transmute to a mutable reference.
  pub analyze_instance-IsVerified :
      (annotated_pure : Bool) (result : PurityAnalysisResult)
      → analyze_instance fuel depth config (instance_, annotated_pure) ≡ ok result
      → result.status ≡ true
      → IsVerified × (precheck instance_ ≡ ok tt)
  unfolding analyze_instance
  analyze_instance-IsVerified annotated_pure result h pure =
      precheck_sound annotated_pure result (precheck instance_) h pure
