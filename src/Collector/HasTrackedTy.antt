-- ===== src/Collector/HasTrackedTy.antt =====
-- scrutils/src/collector/has_tracked_ty.rs: the tracked type of what an assignment stores.
pub mod Recorded
use scrutinizer.Prelude.{
  List, [], ◌∷◌, map, Outcome, ok, panic, ◌>>=◌, collect, all, not, length, flat_map, unwrap_or,
  if◌then◌else◌,
}
use scrutinizer.Prelude.HashSet.{from_iter}
use scrutinizer.Rustc.Mir
use scrutinizer.Rustc.Mir.{BinOp, CastKind, AggregateKind, Rvalue}
use scrutinizer.Rustc.Queries.{Tcx, Place, Operand, eq_ty}
use scrutinizer.BodyCache.{substituted_mir}
use scrutinizer.Common.TrackedTy.{TrackedTy, present, erased, tracked_eq, from_ty, into_vec, map_ty}
use scrutinizer.Common.TrackedTy.Join.{is_erased}
use scrutinizer.Common.NormalizedPlace.{from_place}
use scrutinizer.Common.Storage.Closures.{ClosureInfoStorage, update_with}
use scrutinizer.Collector.Domain
use scrutinizer.Collector.Domain.{CollectorDomain}

-- `itertools`, which is no part of the repository.
pub record Itertools : Type 1 where
  pub multi_cartesian_product : {A : Type 0} → List (List A) → List (List A)

module _ ⦃tcx : Tcx⦄ where
  open tcx use {Ty, Instance}

  unfoldable pub place_tracked_ty : CollectorDomain → Instance → Place → Outcome TrackedTy
  place_tracked_ty type_tracker instance_ place = do
    body ← substituted_mir instance_
    ok (
        unwrap_or (Domain.get type_tracker (from_place place (tcx.instance_def_id instance_)))
          (from_ty (tcx.place_ty place body).ty))

  unfoldable pub operand_tracked_ty : CollectorDomain → Instance → Operand → Outcome TrackedTy
  operand_tracked_ty type_tracker instance_ (Mir.copy l) = place_tracked_ty type_tracker instance_ l
  operand_tracked_ty type_tracker instance_ (Mir.move l) = place_tracked_ty type_tracker instance_ l
  operand_tracked_ty type_tracker instance_ (Mir.constant c) = ok (from_ty (tcx.const_ty c))

  -- `assert_eq!` on the two sides of an arithmetic operation.
  unfoldable pub bin_op_tracked_ty : BinOp → TrackedTy → TrackedTy → Outcome TrackedTy
  bin_op_tracked_ty Mir.shl lhs_ty rhs_ty = ok lhs_ty
  bin_op_tracked_ty Mir.shr lhs_ty rhs_ty = ok lhs_ty
  bin_op_tracked_ty Mir.offset lhs_ty rhs_ty = ok lhs_ty
  bin_op_tracked_ty Mir.eq_op lhs_ty rhs_ty = ok (present tcx.bool_ty)
  bin_op_tracked_ty Mir.lt_op lhs_ty rhs_ty = ok (present tcx.bool_ty)
  bin_op_tracked_ty Mir.le_op lhs_ty rhs_ty = ok (present tcx.bool_ty)
  bin_op_tracked_ty Mir.ne_op lhs_ty rhs_ty = ok (present tcx.bool_ty)
  bin_op_tracked_ty Mir.ge_op lhs_ty rhs_ty = ok (present tcx.bool_ty)
  bin_op_tracked_ty Mir.gt_op lhs_ty rhs_ty = ok (present tcx.bool_ty)
  bin_op_tracked_ty _ lhs_ty rhs_ty = if tracked_eq lhs_ty rhs_ty then ok lhs_ty else panic

  unfoldable pub cast_tracked_ty : CastKind → Ty → TrackedTy → TrackedTy
  cast_tracked_ty Mir.pointer_from_exposed_address ty tracked_ty = from_ty ty
  cast_tracked_ty Mir.pointer_expose_address ty tracked_ty = from_ty ty
  cast_tracked_ty Mir.transmute ty tracked_ty = if tcx.is_fn_ptr ty then tracked_ty else from_ty ty
  cast_tracked_ty Mir.other_cast ty tracked_ty = tracked_ty

  module _ ⦃itertools : Itertools⦄ where
    -- All present: the tuple of them. Else every combination of the plausible types.
    unfoldable pub tuple_tracked_ty : List TrackedTy → TrackedTy
    tuple_tracked_ty op_tys =
        if all (λ t. not (is_erased t)) op_tys
        then from_ty (tcx.new_tup (flat_map into_vec op_tys))
        else erased
            (from_iter (map tcx.new_tup (itertools.multi_cartesian_product (map into_vec op_tys))))

    -- A closure's captured types are recorded; generators are not supported.
    unfoldable pub aggregate_tracked_ty :
        CollectorDomain
        → Instance
        → ClosureInfoStorage
        → AggregateKind tcx.names
        → List Operand
        → Outcome (TrackedTy × ClosureInfoStorage)
    aggregate_tracked_ty type_tracker instance_ closures (Mir.array ty) ops =
        ok (from_ty (tcx.new_array ty (length ops)), closures)
    aggregate_tracked_ty type_tracker instance_ closures Mir.tuple_aggregate ops = do
      op_tys ← collect (operand_tracked_ty type_tracker instance_) ops
      ok (tuple_tracked_ty op_tys, closures)
    aggregate_tracked_ty type_tracker instance_ closures (Mir.adt_aggregate did args) ops =
        ok (from_ty (tcx.subst_mir instance_ (tcx.type_of did args)), closures)
    aggregate_tracked_ty type_tracker instance_ closures (Mir.closure_aggregate did substs) ops = do
      upvar_tys ← collect (operand_tracked_ty type_tracker instance_) ops
      closures' ← update_with closures (tcx.new_closure did substs) instance_ upvar_tys
      ok (from_ty (tcx.new_closure did substs), closures')
    aggregate_tracked_ty type_tracker instance_ closures Mir.generator ops = panic

    -- What all rvalues but aggregates have for a type.
    unfoldable pub simple_tracked_ty :
        CollectorDomain → Instance → Rvalue tcx.names → Outcome TrackedTy
    simple_tracked_ty tracker instance_ (Mir.use_ operand) =
        operand_tracked_ty tracker instance_ operand
    simple_tracked_ty tracker instance_ (Mir.repeat_ operand count) = do
      t ← operand_tracked_ty tracker instance_ operand
      ok (map_ty (λ ty. tcx.new_array_with_const_len ty count) t)
    simple_tracked_ty tracker instance_ (Mir.thread_local_ref did) =
        ok (from_ty (tcx.thread_local_ptr_ty did))
    simple_tracked_ty tracker instance_ (Mir.ref_of reg mutbl place) = do
      t ← place_tracked_ty tracker instance_ place
      ok (map_ty (λ ty. tcx.new_ref reg ty mutbl) t)
    simple_tracked_ty tracker instance_ (Mir.address_of mutability place) = do
      t ← place_tracked_ty tracker instance_ place
      ok (map_ty (λ ty. tcx.new_ptr ty mutability) t)
    simple_tracked_ty tracker instance_ (Mir.len _) = ok (from_ty tcx.usize_ty)
    simple_tracked_ty tracker instance_ (Mir.cast cast_kind operand ty) = do
      t ← operand_tracked_ty tracker instance_ operand
      ok (cast_tracked_ty cast_kind ty t)
    simple_tracked_ty tracker instance_ (Mir.binary_op op lhs rhs) = do
      lhs_ty ← operand_tracked_ty tracker instance_ lhs
      rhs_ty ← operand_tracked_ty tracker instance_ rhs
      bin_op_tracked_ty op lhs_ty rhs_ty
    simple_tracked_ty tracker instance_ (Mir.checked_binary_op op lhs rhs) = do
      lhs_ty ← operand_tracked_ty tracker instance_ lhs
      rhs_ty ← operand_tracked_ty tracker instance_ rhs
      t ← bin_op_tracked_ty op lhs_ty rhs_ty
      ok (map_ty (λ ty. tcx.new_tup (ty ∷ tcx.bool_ty ∷ [])) t)
    simple_tracked_ty tracker instance_ (Mir.unary_op _ operand) =
        operand_tracked_ty tracker instance_ operand
    simple_tracked_ty tracker instance_ (Mir.discriminant place) = do
      t ← place_tracked_ty tracker instance_ place
      ok (map_ty tcx.discriminant_ty t)
    simple_tracked_ty tracker instance_ (Mir.nullary_op _ _) = ok (from_ty tcx.usize_ty)
    simple_tracked_ty tracker instance_ (Mir.shallow_init_box _ ty) = ok (from_ty (tcx.new_box ty))
    simple_tracked_ty tracker instance_ (Mir.copy_for_deref place) =
        place_tracked_ty tracker instance_ place
    -- handled by `rvalue_tracked_ty`
    simple_tracked_ty tracker instance_ (Mir.aggregate _ _) = panic

    unfoldable pub rvalue_tracked_ty :
        CollectorDomain
        → Instance
        → ClosureInfoStorage
        → Rvalue tcx.names
        → Outcome (TrackedTy × ClosureInfoStorage)
    rvalue_tracked_ty tracker instance_ closures (Mir.aggregate kind_ ops) =
        aggregate_tracked_ty tracker instance_ closures kind_ ops
    rvalue_tracked_ty tracker instance_ closures rvalue = do
      t ← simple_tracked_ty tracker instance_ rvalue
      ok (t, closures)
