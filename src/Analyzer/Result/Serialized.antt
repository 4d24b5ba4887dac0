-- ===== src/Analyzer/Result/Serialized.antt =====
-- The implementations of `Serialize` in scrutils/src: analyzer/result.rs, common/function_info.rs,
-- common/function_call.rs, common/tracked_ty.rs, common/storage/closure.rs and important/important.rs.
-- What `{:?}` prints is a parameter.
use scrutinizer.Prelude.{String, true, false, List, [], ◌∷◌, map, Outcome, ok, ◌>>=◌, if◌then◌else◌}
use scrutinizer.Prelude.Json.{
  Json, string, boolean, number, array, object, Fields, end, field, items,
}
use scrutinizer.Prelude.Text.{Text, codes}
use scrutinizer.Rustc.Queries.{Tcx, Operand, Place}
use scrutinizer.Common.TrackedTy.{TrackedTy, present, erased}
use scrutinizer.Common.NormalizedPlace.{NormalizedPlace}
use scrutinizer.Common.Function.{
  FunctionCall, call_def_id, call_args, FunctionInfo, info_with_body, info_without_body,
  ClosureInfo,
}
use scrutinizer.Common.Storage.Closures.{ClosureInfoStorage}
use scrutinizer.Important.Compute.{ImportantLocals}
use scrutinizer.Analyzer.Deps.Strings.{Cargo, compute_dep_strings_for_crates}
use scrutinizer.Analyzer.Result.{FunctionWithMetadata, PurityAnalysisResult}

-- `Debug` of the values that are printed.
pub record Debug ⦃tcx : Tcx⦄ : Type 0 where
  pub debug_ty : tcx.Ty → Text
  pub debug_operand : Operand → Text
  pub debug_place : Place → Text
  pub debug_span : tcx.Span → Text
  pub debug_closure_info : ClosureInfo → Text

module _ ⦃tcx : Tcx⦄ ⦃debug : Debug⦄ where
  open debug use {debug_ty, debug_operand, debug_place, debug_span, debug_closure_info}

  abbrev named : String → Json → Fields → Fields
  named k v rest = field (codes k) v rest

  -- An enum's variant is an object with one field.
  unfoldable pub serialize_tracked_ty : TrackedTy → Json
  serialize_tracked_ty (present ty) =
      object (named "Present" (object (named "ty" (string (debug_ty ty)) end)) end)
  serialize_tracked_ty (erased deps) = object (
      named "Erased" (object (named "deps" (array (items (λ ty. string (debug_ty ty)) deps)) end))
        end)

  unfoldable pub serialize_normalized_place : NormalizedPlace → Json
  serialize_normalized_place self = string (debug_place self.place)

  unfoldable pub serialize_call : FunctionCall → Json
  serialize_call self = object (
      named "def_id" (string (codes (tcx.debug_def_id (call_def_id self))))
        (named "args" (array (items (λ arg. string (debug_operand arg)) (call_args self))) end))

  unfoldable pub serialize_info : FunctionInfo → Json
  serialize_info (info_with_body f) = object (
      named "def_id" (string (codes (tcx.debug_def_id (tcx.instance_def_id f.instance_)))) (
        named "calls" (array (items serialize_call f.calls)) (
          named "span" (string (debug_span f.span)) (
            named "unhandled" (array (items (λ ty. string (debug_ty ty)) f.unhandled))
              (named "has_body" (boolean true) end)))))
  serialize_info (info_without_body def_id tracked_args) = object (
      named "def_id" (string (codes (tcx.debug_def_id def_id))) (
        named "tracked_args" (array (items serialize_tracked_ty tracked_args))
          (named "has_body" (boolean false) end)))

  unfoldable pub serialize_locals : ImportantLocals → Json
  serialize_locals self = array (items number self.locals)

  -- The derived `Serialize`.
  unfoldable pub serialize_function : FunctionWithMetadata → Json
  serialize_function self = object (
      named "function" (serialize_info self.function) (
        named "important_locals" (serialize_locals self.important_locals) (
          named "raw_pointer_deref" (boolean self.raw_pointer_deref) (
            named "allowlisted" (boolean self.allowlisted)
              (named "has_transmute" (boolean self.has_transmute) end)))))

  closure_fields : List (tcx.DefId × ClosureInfo) → Fields
  closure_fields [] = end
  closure_fields ((k, v) ∷ rest) =
      field (codes (tcx.debug_def_id k)) (string (debug_closure_info v)) (closure_fields rest)

  unfoldable pub serialize_closures : ClosureInfoStorage → Json
  unfolding closure_fields
  serialize_closures self = object (closure_fields self.closures)

  dep_fields : List (Text × Text) → Fields
  dep_fields [] = end
  dep_fields ((k, v) ∷ rest) = field k (string v) (dep_fields rest)

  -- The reason is left out of a positive result.
  unfoldable pub result_fields : List (Text × Text) → PurityAnalysisResult → Json
  unfolding dep_fields
  result_fields deps self =
      let tail = named "passing" (array (items serialize_function self.passing)) (
        named "failing" (array (items serialize_function self.failing)) (
          named "closures" (serialize_closures self.closures)
            (named "deps" (object (dep_fields deps)) end))) in
      object (
        named "def_id" (string (codes (tcx.debug_def_id self.def_id))) (
          named "annotated_pure" (boolean self.annotated_pure) (
            named "status" (boolean self.status)
              (if self.status then tail else named "reason" (string (codes self.reason)) tail))))

  unfoldable pub serialize_result : Cargo → PurityAnalysisResult → Outcome Json
  serialize_result cargo self = do
    deps ← compute_dep_strings_for_crates cargo (map codes self.deps)
    ok (result_fields deps self)
