-- ===== src/Common/Storage/Functions.antt =====
-- scrutils/src/common/storage/function.rs: the functions seen, in the order of insertion.
use scrutinizer.Prelude.{
  Bool, false, List, [], ◌∷◌, ◌++◌, Option, Outcome, any, find, expect, if◌then◌else◌,
}
use scrutinizer.Rustc.Queries.{Tcx}
use scrutinizer.Common.Function.{
  FunctionInfo, info_with_body, info_without_body, FunctionCall, with_body, without_body, info_eq,
}

module _ ⦃tcx : Tcx⦄ where
  open tcx use {DefId, Instance}

  pub record FunctionInfoStorage : Type 0 where
    pub origin : Instance
    pub fns : List FunctionInfo

  unfoldable pub new : Instance → FunctionInfoStorage
  new origin = record { origin = origin; fns = [] }

  unfoldable pub insert : FunctionInfoStorage → FunctionInfo → FunctionInfoStorage
  insert self function_info =
      if any (λ f. info_eq f function_info) self.fns
      then self
      else record self { fns = self.fns ++ function_info ∷ [] }

  unfoldable pub has_instance : Instance → FunctionInfo → Bool
  has_instance instance_ (info_with_body f) = tcx.instance_eq.beq instance_ f.instance_
  has_instance instance_ (info_without_body _ _) = false

  unfoldable pub has_def_id : DefId → FunctionInfo → Bool
  has_def_id def_id (info_without_body d _) = tcx.def_id_eq.beq d def_id
  has_def_id def_id (info_with_body _) = false

  unfoldable pub get_with_body : FunctionInfoStorage → Instance → Option FunctionInfo
  get_with_body self instance_ = find (has_instance instance_) self.fns

  unfoldable pub get_without_body : FunctionInfoStorage → DefId → Option FunctionInfo
  get_without_body self def_id = find (has_def_id def_id) self.fns

  -- Panics on a call whose callee is not stored.
  unfoldable pub get_by_call : FunctionInfoStorage → FunctionCall → Outcome FunctionInfo
  unfolding get_with_body get_without_body
  get_by_call self (with_body instance_ _) = expect (get_with_body self instance_)
  get_by_call self (without_body def_id _) = expect (get_without_body self def_id)
