-- ===== src/Analyzer/Analyze.antt =====
-- scrutils/src/analyzer/analyzer.rs: `analyze_item` and `run`.
use scrutinizer.Prelude.{
  ℕ, zero, suc, String, Bool, true, false, not, ◌&&◌, ◌||◌, List, [], ◌∷◌, ◌++◌, Option, none, some,
  Outcome, ok, out_of_fuel, ◌>>=◌, expect, any, find, and_then, unwrap_or, is_empty, length,
  if◌then◌else◌,
}
use mathlib.Core.Option
use scrutinizer.Prelude.Eq.{◌==◌, string_eq}
use scrutinizer.Prelude.HashSet
use scrutinizer.Rustc.Mir.{Mutability, not_mut, mut_, place, const_info, VarDebugInfo}
use scrutinizer.Rustc.Queries.{Tcx, Place}
use scrutinizer.BodyCache.{substituted_mir}
use scrutinizer.Flowistry.{Flowistry}
use scrutinizer.Common.Function.{
  FunctionInfo, info_with_body, info_without_body, FunctionCall, info_def_id, info_instance,
  info_calls, call_args, call_def_id,
}
use scrutinizer.Common.Storage.Functions.{FunctionInfoStorage, get_by_call, get_with_body}
use scrutinizer.Common.Storage.Closures.{ClosureInfoStorage}
use scrutinizer.Important.Compute.{ImportantLocals, has_none}
use scrutinizer.Important.Transition.{transition}
use scrutinizer.Analyzer.Heuristics.{has_raw_ptr_deref, has_transmute}
use scrutinizer.Analyzer.Deps.{compute_deps_for_body}
use scrutinizer.Analyzer.Result.{FunctionWithMetadata, PurityAnalysisResult}

module _ ⦃tcx : Tcx⦄ where
  open tcx use {Regex, Body, is_match, debug_def_id}

  -- The three collections that `analyze_item` writes to.
  pub record Report : Type 0 where
    pub passing : List FunctionWithMetadata
    pub failing : List FunctionWithMetadata
    pub deps : List String

  unfoldable pub extend_deps : FunctionInfo → List String → Outcome (List String)
  extend_deps item deps = elim (info_instance item) [
    | some instance_ ↦ (do
      body ← substituted_mir instance_
      ok (HashSet.extend deps (compute_deps_for_body body)).0)
    | none ↦ ok deps
  ]

  -- The place that the debug information gives for `self`.
  unfoldable pub self_place : Body → Option Place
  self_place body =
      and_then
        (find (λ (info : VarDebugInfo tcx.names). info.name == "self") (tcx.var_debug_info body))
        (λ info. elim info.value [ place p ↦ some p | const_info ↦ none ])

  abbrev is_not_mut : Mutability → Bool
  is_not_mut not_mut = true
  is_not_mut mut_ = false

  unfoldable pub has_immut_self_ref : Body → Bool
  unfolding self_place
  has_immut_self_ref body =
      let self_ty = Option.map (λ p. (tcx.place_ty p body).ty) (self_place body) in
      unwrap_or
        (Option.map (λ ty. unwrap_or (Option.map is_not_mut (tcx.ref_mutability ty)) false) self_ty)
        false

  unfoldable pub matches_any : List Regex → FunctionInfo → Bool
  matches_any patterns item = any (λ lib. is_match lib (debug_def_id (info_def_id item))) patterns

  unfoldable pub is_trusted : List Regex → FunctionInfo → Outcome Bool
  unfolding has_immut_self_ref
  is_trusted trusted_stdlib item = elim (info_instance item) [
    | none ↦ ok (matches_any trusted_stdlib item)
    | some instance_ ↦ (do
      body ← substituted_mir instance_
      ok (matches_any trusted_stdlib item && not (has_immut_self_ref body)))
  ]

  abbrev pub unhandled_calls : FunctionInfo → Bool
  unhandled_calls (info_with_body f) = not (is_empty f.unhandled)
  unhandled_calls (info_without_body _ _) = false

  abbrev pub raw_pointer_deref_of : FunctionInfo → Bool
  raw_pointer_deref_of (info_with_body f) = has_raw_ptr_deref f.body
  raw_pointer_deref_of (info_without_body _ _) = false

  abbrev pub transmute_of : ℕ → FunctionInfo → Outcome Bool
  transmute_of depth (info_with_body f) = has_transmute depth f.body
  transmute_of depth (info_without_body _ _) = ok false

  unfoldable pub push_passing : FunctionWithMetadata → Report → Report
  push_passing info r = record r { passing = r.passing ++ info ∷ [] }

  unfoldable pub push_failing : FunctionWithMetadata → Report → Report
  push_failing info r = record r { failing = r.failing ++ info ∷ [] }

  module _ ⦃flow : Flowistry⦄ (storage : FunctionInfoStorage) (depth : ℕ) where
    -- The loop over the calls: every call is analyzed, also after one that fails.
    unfoldable pub analyze_calls :
        (FunctionInfo → ImportantLocals → Report → Outcome (Bool × Report))
        → ImportantLocals
        → List FunctionCall
        → Report
        → Outcome (Bool × Report)
    analyze_calls analyze locals [] report = ok (true, report)
    analyze_calls analyze locals (call ∷ calls) report = do
      new_important_locals ← transition locals (call_args call) (call_def_id call)
      call_fn_info ← get_by_call storage call
      (passes, report') ← analyze call_fn_info new_important_locals report
      (all_pass, report'') ← analyze_calls analyze locals calls report'
      ok (passes && all_pass, report'')

    module _ (allowlist trusted_stdlib : List Regex) where
      -- The branch of a function that is judged by its body and its calls.
      unfoldable pub judge :
          (FunctionInfo → ImportantLocals → Report → Outcome (Bool × Report))
          → FunctionInfo
          → ImportantLocals
          → Report
          → Outcome (Bool × Report)
      judge analyze item important_locals report = do
        let has_unhandled_calls = unhandled_calls item
        let has_raw_pointer_deref = raw_pointer_deref_of item
        transmutes ← transmute_of depth item
        (has_no_leaking_calls, report') ← elim (info_calls item) [
          | some calls ↦ analyze_calls analyze important_locals calls report
          | none ↦ ok (false, report)
        ]
        let info_with_metadata : FunctionWithMetadata = record {
          function = item;
          important_locals = important_locals;
          raw_pointer_deref = has_raw_pointer_deref;
          allowlisted = matches_any allowlist item;
          has_transmute = transmutes;
        }
        if not has_unhandled_calls
              && (not has_raw_pointer_deref && (not transmutes && has_no_leaking_calls))
            then ok (true, push_passing info_with_metadata report')
            else ok (false, push_failing info_with_metadata report')

      -- The recursion follows the call graph; `fuel` bounds its depth.
      unfoldable pub analyze_item :
          ℕ → FunctionInfo → ImportantLocals → Report → Outcome (Bool × Report)
      analyze_item zero item important_locals report = out_of_fuel
      analyze_item (suc fuel) item important_locals report = do
        deps ← extend_deps item report.deps
        let report' = record report { deps = deps }
        trusted ← is_trusted trusted_stdlib item
        let is_allowlisted = matches_any allowlist item
        let rest = judge (analyze_item fuel) item important_locals report'
        let info_with_metadata : FunctionWithMetadata = record {
          function = item;
          important_locals = important_locals;
          raw_pointer_deref = false;
          allowlisted = is_allowlisted;
          has_transmute = false;
        }
        if has_none important_locals || (is_allowlisted || trusted)
            then ok (true, push_passing info_with_metadata report')
            else rest

      -- `run`, with the fuel that its storage needs.
      unfoldable pub run :
          ClosureInfoStorage → ImportantLocals → Bool → Outcome PurityAnalysisResult
      run closures important_locals annotated_pure = do
        origin ← expect (get_with_body storage storage.origin)
        (pure, report) ←
            analyze_item (suc (length storage.fns)) origin important_locals
              (record { passing = []; failing = []; deps = [] })
        ok (record {
          def_id = tcx.instance_def_id storage.origin;
          annotated_pure = annotated_pure;
          status = pure;
          reason = if pure then "" else "unable to ascertain purity of inner function call";
          passing = report.passing;
          failing = report.failing;
          closures = closures;
          deps = report.deps;
        })
