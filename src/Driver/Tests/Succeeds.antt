-- ===== src/Driver/Tests/Succeeds.antt =====
-- A whole run of the driver on the sample compiler.
use scrutinizer.Prelude.{◌≡◌, refl, true, false, [], ◌∷◌, some, ok}
use scrutinizer.Prelude.Eq.{nat_eq}
use scrutinizer.Sample.{sample, flow}
use scrutinizer.SampleEngine.{engine, products}
use scrutinizer.Precheck.{precheck}
use scrutinizer.Selector.{select_functions, select_item, has_generics, annotated_pure}
use scrutinizer.Analyzer.Deps.Strings.{
  stdout_of, get_direct_deps, dep_strings, compute_dep_strings_for_crates,
}
use scrutinizer.Analyzer.Result.{is_inconsistent}
use scrutinizer.Driver.{
  Config, select, is_target, scrutinize_crate, analyze_all, exits_with_failure, inconsistent,
  analyze_instance, after_precheck, analyze_checked,
}
use scrutinizer.Prelude.Text.{codes, split_lines}
use scrutinizer.Prelude.Json.{number}
use scrutinizer.Analyzer.Result.Serialized.{Debug, serialize_result}
use scrutinizer.Driver.Plugin.{
  System, Written, write_output, serialize_output, reported, scrutinizer_callbacks, after_analysis,
}
use scrutinizer.Driver.Sound.{IsVerified}
use scrutinizer.Driver.Succeeds.{after_analysis-IsVerified}
use scrutinizer.Driver.Tests.{collecting, analysing, regex, config}

abbrev filtered : Config
filtered = record config { target_filter = some "f" }

instance abbrev printed : Debug
printed = record {
  debug_ty = λ t. codes "ty";
  debug_operand = λ o. codes "operand";
  debug_place = λ p. codes "place";
  debug_span = λ s. codes "span";
  debug_closure_info = λ c. codes "closure";
}

abbrev system : System
system = record {
  cargo = record { direct_tree = some (some []); package_tree = λ spec. some (some spec) };
  elapsed = number 2;
  now = codes "noon";
  can_write = λ name. true;
}

reported_eq :
    (written : Written) × (after_analysis system 3 0 (scrutinizer_callbacks filtered)
      ≡ ok (reported written))
unfolding collecting analysing after_analysis scrutinize_crate analyze_all select select_functions
    select_item has_generics annotated_pure is_target analyze_instance after_precheck
    analyze_checked exits_with_failure inconsistent is_inconsistent write_output serialize_output
    serialize_result compute_dep_strings_for_crates get_direct_deps stdout_of split_lines
    dep_strings
reported_eq = (_, refl)

after_analysis-IsVerified_example : IsVerified 3 0 filtered 0 × (precheck 0 ≡ ok tt)
unfolding select select_functions select_item has_generics annotated_pure is_target
after_analysis-IsVerified_example =
    after_analysis-IsVerified 3 0 filtered system reported_eq.0 [] ((1, false) ∷ (10, false) ∷ []) 0
      reported_eq.1 refl refl
