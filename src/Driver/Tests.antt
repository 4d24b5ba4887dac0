-- ===== src/Driver/Tests.antt =====
-- The collector, the selection and the whole analysis on the sample compiler.
mod Succeeds
mod Plugin
mod Resolved
mod Calls
use scrutinizer.Prelude.{
  String, ℕ, Bool, true, false, not, ◌≡◌, ◌↔◌, ◌&&◌, refl, List, [], ◌∷◌, none, some, ok, err,
  panic, All, any, keep, nat_eqb, Bool-cases, inl, inr, if◌then◌else◌,
}
use scrutinizer.Prelude.Eq.{nat_eq}
use scrutinizer.Prelude.HashSet.{from_iter, extend, insert, contains}
use scrutinizer.Prelude.HashMap
use scrutinizer.Rustc.Mir.{copy}
use scrutinizer.Rustc.Queries.{elem_eq, place_eq, operand_eq}
use scrutinizer.Sample.{sample, flow, local_place}
use scrutinizer.SampleEngine.{engine, products, engine_IsSound}
use scrutinizer.BodyCache.{substituted_mir, load_body_and_facts, is_mir_available}
use scrutinizer.Common.TrackedTy.{
  present, from_ty, into_vec, join, try_map, tracked_eq, contains_erased,
}
use scrutinizer.Common.NormalizedPlace.{from_place, same_place, same_elem, eq_normalized_place}
use scrutinizer.Common.ArgTys.{merge, merge_arg}
use scrutinizer.Common.Function.{
  FunctionInfo, info_with_body, with_body, call_eq, info_eq, analyzed_eq, info_instance, info_calls,
  info_def_id, call_args, call_def_id,
}
use scrutinizer.Common.Storage.Functions
use scrutinizer.Common.Storage.Functions.{get_with_body, has_instance}
use scrutinizer.Common.Storage.Closures
use scrutinizer.Collector.Domain
use scrutinizer.Collector.VirtualStack
use scrutinizer.Collector.PartialFunctionInfo.{
  function, resolve, finish, assemble, keep_err, extract_arg_tys, instance_of, tracked_args,
}
use scrutinizer.Collector.Collect.{Stores}
use scrutinizer.Collector.Collect
use scrutinizer.Collector.Engine
use scrutinizer.Important.Compute.{ImportantLocals, has_none, from_locals, compute_dependent_locals}
use scrutinizer.Important.Transition.{transition, from_important_args}
use scrutinizer.Precheck.{
  precheck, check_args, any_mutable, mutable_arg, is_mut_ref, arg_types, precheck_verdict,
}
use scrutinizer.Selector.{
  select_functions, select_pprs, select_item, has_generics, annotated_pure, pprs_of_body,
  collect_pprs, visit_terminator, instance_of_ppr,
}
use scrutinizer.Analyzer.Heuristics.{has_transmute, has_raw_ptr_deref}
use scrutinizer.Analyzer.Deps.{compute_deps_for_body}
use scrutinizer.Analyzer.Result.{FunctionWithMetadata, PurityAnalysisResult, is_inconsistent}
use scrutinizer.Analyzer.Analyze.{
  analyze_item, analyze_calls, judge, run, extend_deps, is_trusted, matches_any, push_passing,
  push_failing,
}
use scrutinizer.Analyzer.Total.{IsAvailable}
use scrutinizer.Prelude.Eq.{◌==◌, string_eq}
use scrutinizer.Driver.{
  Config, default_mode, analyze, compile_and_dump, how_to_handle_this_crate, RegexCompiler,
  compile_all, important_args_of, analyze_checked, after_precheck, analyze_instance, is_target,
  select, analyze_all, scrutinize_crate, exits_with_failure,
}
use scrutinizer.Driver.Sound.{IsVerified, analyze_instance-IsVerified}
use scrutinizer.Driver.Handling.{IsCrateName, how_to_handle_this_crate_lem}
use scrutinizer.Driver.Laws.{
  scrutinize_crate-default_mode, analyze_instance_returns, scrutinize_crate-only_inconsistent,
}
use scrutinizer.Collector.Closed.Steps.{IsCollected}
use scrutinizer.Collector.Closed.Collected.{collect-IsCollected}

-- What a collection computes through.
collecting : Unit {0}
unfolding Engine.collect Engine.run Engine.run_from Engine.analyse Engine.enter Engine.reduce_join
    Engine.join_all Engine.terminator_effect Engine.statement_effect Engine.process_call
    Engine.process_kind Collect.new Collect.store Collect.info_of Collect.collect_closures
    Collect.original_types Collect.augment_with_upvars Collect.bottom_value Collect.call_with_body
    Collect.call_without_body Collect.is_bodiless Collect.analyse_callee Collect.enter_callee
    Collect.assign_return Collect.enter_and_assign Collect.process_callee Collect.process_plausible
    resolve finish assemble keep_err extract_arg_tys instance_of tracked_args Functions.new
    Functions.insert get_with_body has_instance Closures.new Domain.new Domain.update_with
    Domain.join_at Domain.propagate Domain.set_places Domain.reached Domain.project
    Domain.augment_with_args Domain.inject Domain.arg_place Domain.return_type Domain.construct_args
    Domain.add_call Domain.get HashMap.get HashMap.modify HashMap.upsert HashMap.insert_all
    VirtualStack.new VirtualStack.push VirtualStack.contains VirtualStack.item_eq from_place
    same_place same_elem elem_eq place_eq operand_eq into_vec join try_map tracked_eq from_ty
    contains_erased insert contains merge merge_arg call_eq info_eq analyzed_eq substituted_mir
    load_body_and_facts is_mir_available
collecting = tt

abbrev collected_info : ℕ → ℕ → FunctionInfo
collected_info instance_ body = info_with_body (record {
  instance_ = instance_;
  places =
      (record { place = local_place 0 }, present 1)
      ∷ (record { place = local_place 1 }, present 1)
      ∷ [];
  calls = if nat_eqb instance_ 10 then with_body 1 (copy (local_place 1) ∷ []) ∷ [] else [];
  body = body;
  span = 0;
  unhandled = [];
})

abbrev collected : Stores
collected = record {
  functions = record { origin = 10; fns = collected_info 1 0 ∷ collected_info 10 6 ∷ [] };
  closures = record { closures = [] };
}

collected_eq : Engine.collect 3 10 false ≡ ok collected
unfolding collecting
collected_eq = refl

collect-IsCollected_example : IsCollected 10 collected
collect-IsCollected_example = collect-IsCollected engine_IsSound 3 10 false collected collected_eq

-- What the analysis of an instance computes through.
analysing : Unit {0}
unfolding analyze_item analyze_calls judge run extend_deps is_trusted matches_any push_passing
    push_failing info_instance info_calls info_def_id call_args call_def_id has_none from_locals
    from_iter extend compute_dependent_locals transition from_important_args compute_deps_for_body
    has_raw_ptr_deref has_transmute Functions.get_by_call precheck check_args any_mutable
    mutable_arg is_mut_ref important_args_of compile_all substituted_mir load_body_and_facts
    is_mir_available insert contains from_ty contains_erased get_with_body has_instance
analysing = tt

instance abbrev regex : RegexCompiler
regex = record { compile = λ re. some re }

abbrev config : Config
config = record {
  mode = "function";
  only_inconsistent = false;
  output_file = "out.json";
  shallow = false;
  target_filter = none;
  important_args = none;
  allowlist = none;
  trusted_stdlib = some ("core" ∷ []);
}

steps :
    (locals : ImportantLocals)
    → (m : ImportantLocals) × (transition locals (copy (local_place 1) ∷ []) 1 ≡ ok m)
unfolding analysing
steps locals = elim (Bool-cases (contains locals.locals 1)) [
  | inl e ↦ rw e (from_locals (1 ∷ []), refl)
  | inr e ↦ rw e (from_locals [], refl)
]

collected_IsAvailable : All (IsAvailable collected.functions 0) collected.functions.fns
unfolding analysing
collected_IsAvailable =
    (((0, refl), (false, refl), tt), (((6, refl), (false, refl), (steps, tt)), tt))

analyze_instance_returns_example :
    (result : PurityAnalysisResult) × (analyze_instance 3 0 config (10, true) ≡ ok result)
unfolding analysing
analyze_instance_returns_example =
    analyze_instance_returns 3 0 engine_IsSound config 10 true collected (1 ∷ [])
      (record { locals = 1 ∷ [] }) [] ("core" ∷ []) refl collected_eq refl refl refl refl
      collected_IsAvailable

scrutinize_crate-default_mode_example :
    scrutinize_crate 3 0 (record config { mode = "functions" }) ≡ panic
unfolding default_mode
scrutinize_crate-default_mode_example =
    scrutinize_crate-default_mode 3 0 (record config { mode = "functions" }) refl

abbrev judged : ℕ → ℕ → FunctionWithMetadata
judged i body = record {
  function = collected_info i body;
  important_locals = record { locals = 1 ∷ [] };
  raw_pointer_deref = false;
  allowlisted = false;
  has_transmute = false;
}

abbrev result_of : ℕ → Bool → PurityAnalysisResult
result_of i pure = record {
  def_id = i;
  annotated_pure = pure;
  status = true;
  reason = "";
  passing = if nat_eqb i 10 then judged 1 0 ∷ judged 10 6 ∷ [] else judged i 0 ∷ [];
  failing = [];
  closures = record { closures = [] };
  deps = [];
}

full_results :
    scrutinize_crate 3 0 (record config { only_inconsistent = false })
    ≡ ok (result_of 0 true ∷ result_of 1 false ∷ result_of 10 false ∷ [])
unfolding collecting analysing scrutinize_crate analyze_all select select_functions select_item
    has_generics annotated_pure is_target analyze_instance after_precheck analyze_checked
full_results = refl

short_results :
    scrutinize_crate 3 0 (record config { only_inconsistent = true })
    ≡ ok (result_of 1 false ∷ result_of 10 false ∷ [])
unfolding collecting analysing scrutinize_crate analyze_all select select_functions select_item
    has_generics annotated_pure is_target analyze_instance after_precheck analyze_checked
    is_inconsistent
short_results = refl

scrutinize_crate-only_inconsistent_example :
    ((result_of 1 false ∷ result_of 10 false ∷ [])
      ≡ keep is_inconsistent (result_of 0 true ∷ result_of 1 false ∷ result_of 10 false ∷ []))
    × (exits_with_failure (result_of 1 false ∷ result_of 10 false ∷ [])
        ≡ exits_with_failure (result_of 0 true ∷ result_of 1 false ∷ result_of 10 false ∷ []))
scrutinize_crate-only_inconsistent_example =
    scrutinize_crate-only_inconsistent 3 0 config (result_of 1 false ∷ result_of 10 false ∷ [])
      (result_of 0 true ∷ result_of 1 false ∷ result_of 10 false ∷ []) short_results full_results

abbrev command_line : List String
command_line = "rustc" ∷ "--crate-name" ∷ "demo" ∷ "src/lib.rs" ∷ []

how_to_handle_this_crate_lem_example :
    ((how_to_handle_this_crate true command_line ≡ analyze)
      ↔ ((true ≡ true) × ¬ IsCrateName command_line "build_script_build"))
    × ((how_to_handle_this_crate true command_line ≡ compile_and_dump) ↔ (
        (true ≡ false)
        × (name : String) × IsCrateName command_line name
        × ((name == "build_script_build") ≡ false)))
how_to_handle_this_crate_lem_example = how_to_handle_this_crate_lem true command_line

precheck_verdict_example : precheck 4 ≡ (
    if any contains_erased (arg_types 4)
    then err "erased args detected"
    else if any is_mut_ref (arg_types 4)
    then err "mutable arguments detected"
    else ok tt)
unfolding analysing
precheck_verdict_example = precheck_verdict 4 4 refl

abbrev selected_pprs : List (ℕ × Bool)
selected_pprs = (8, true) ∷ []

pprs_selected : select_pprs ≡ ok selected_pprs
unfolding select_pprs pprs_of_body collect_pprs visit_terminator instance_of_ppr
pprs_selected = refl

instance_analysed : analyze_instance 3 0 config (0, true) ≡ ok (result_of 0 true)
unfolding collecting analysing analyze_instance after_precheck analyze_checked
instance_analysed = refl

analyze_instance-IsVerified_example : IsVerified 3 0 config 0 × (precheck 0 ≡ ok tt)
analyze_instance-IsVerified_example =
    analyze_instance-IsVerified 3 0 config 0 true (result_of 0 true) instance_analysed refl
