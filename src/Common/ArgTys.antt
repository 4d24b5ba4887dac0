-- ===== src/Common/ArgTys.antt =====
-- scrutils/src/common/arg_tys.rs: the tracked types of a call's arguments.
pub mod Merged
use scrutinizer.Prelude.{
  ℕ, Bool, false, List, ◌∷◌, map, Option, Outcome, ok, ◌>>=◌, expect, get_elem?, find, filter_map,
  flat_map, zip, length, nat_eqb, if◌then◌else◌,
}
use mathlib.Core.Option
use scrutinizer.Rustc.Mir.{type_arg}
use scrutinizer.Rustc.Queries.{Tcx}
use scrutinizer.Common.TrackedTy.{TrackedTy, present, erased, spread_tuple, into_vec}

module _ ⦃tcx : Tcx⦄ where
  open tcx use {Ty, GenericArg, walk, unpack, is_param}

  pub record ArgTys : Type 0 where
    pub arg_tys : List TrackedTy

  -- Indexing panics where the closure has fewer than two arguments.
  unfoldable pub as_closure : ArgTys → Outcome ArgTys
  as_closure self = do
    first ← expect (get_elem? self.arg_tys 0)
    second ← expect (get_elem? self.arg_tys 1)
    spread ← spread_tuple second
    ok (record { arg_tys = first ∷ spread })

  unfoldable pub merge_arg : TrackedTy → TrackedTy → TrackedTy
  merge_arg inferred (present ty) = present ty
  merge_arg inferred (erased _) = inferred

  unfoldable pub merge : ArgTys → ArgTys → ArgTys
  merge inferred provided =
      if nat_eqb (length inferred.arg_tys) (length provided.arg_tys)
      then record { arg_tys = map (λ p. merge_arg p.0 p.1) (zip inferred.arg_tys provided.arg_tys) }
      else inferred

  -- The test of `find`: the generic side is the parameter of that index.
  unfoldable pub is_subst_param : ℕ → GenericArg → Bool
  is_subst_param index a = elim (unpack a) [ type_arg ty ↦ is_param ty index | _ ↦ false ]

  -- Peels both types at once until the parameter appears, and takes what stands across from it.
  unfoldable pub peel : ℕ → Ty → Ty → Option GenericArg
  unfolding is_subst_param
  peel index generic_ty subst_ty =
      Option.map (λ p. p.1)
        (find (λ p. is_subst_param index p.0) (zip (walk generic_ty) (walk subst_ty)))

  unfoldable pub extract_substs : ArgTys → List Ty → ℕ → List GenericArg
  unfolding peel
  extract_substs self generic_tys index =
      flat_map (λ p. filter_map (peel index p.0) (into_vec p.1)) (zip generic_tys self.arg_tys)
