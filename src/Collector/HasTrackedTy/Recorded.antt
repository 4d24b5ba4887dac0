-- ===== src/Collector/HasTrackedTy/Recorded.antt =====
-- scrutils/src/collector/has_tracked_ty.rs: the closures that an assignment records.
use scrutinizer.Prelude.{◌≡◌, subst, ok, collect, List, ok_injective, >>=-split}
use scrutinizer.Rustc.Mir
use scrutinizer.Rustc.Mir.{AggregateKind, Rvalue}
use scrutinizer.Rustc.Queries.{Tcx, Operand}
use scrutinizer.Common.TrackedTy.{TrackedTy}
use scrutinizer.Common.Storage.Closures.{ClosureInfoStorage, update_with}
use scrutinizer.Common.Storage.Captured.{KeepsAll, KeepsAll-refl, update_with-KeepsAll}
use scrutinizer.Collector.Domain.{CollectorDomain}
use scrutinizer.Collector.HasTrackedTy.{
  Itertools, operand_tracked_ty, aggregate_tracked_ty, simple_tracked_ty, rvalue_tracked_ty,
}

module _ ⦃tcx : Tcx⦄ ⦃itertools : Itertools⦄ (tracker : CollectorDomain) (i : tcx.Instance)
    (closures : ClosureInfoStorage) where
  abbrev Kept : TrackedTy × ClosureInfoStorage → Type 0
  Kept r = KeepsAll closures r.1

  unchanged :
      (t : TrackedTy) (r : TrackedTy × ClosureInfoStorage) → ok (t, closures) ≡ ok r → Kept r
  unchanged t r e = subst Kept (ok_injective e) (KeepsAll-refl closures)

  aggregate_tracked_ty-KeepsAll :
      (kind : AggregateKind tcx.names) (ops : List Operand) (r : TrackedTy × ClosureInfoStorage)
      → aggregate_tracked_ty tracker i closures kind ops ≡ ok r
      → Kept r
  unfolding aggregate_tracked_ty
  aggregate_tracked_ty-KeepsAll (Mir.array ty) ops r e = unchanged _ r e
  aggregate_tracked_ty-KeepsAll Mir.tuple_aggregate ops r e =
      let (tys, _, e1) = >>=-split (collect (operand_tracked_ty tracker i) ops) _ e in
      unchanged _ r e1
  aggregate_tracked_ty-KeepsAll (Mir.adt_aggregate did args) ops r e = unchanged _ r e
  aggregate_tracked_ty-KeepsAll (Mir.closure_aggregate did substs) ops r e =
      let (tys, _, e1) = >>=-split (collect (operand_tracked_ty tracker i) ops) _ e in
      let (c, updated, e2) =
        >>=-split (update_with closures (tcx.new_closure did substs) i tys) _ e1 in
      subst Kept (ok_injective e2)
        (update_with-KeepsAll closures c (tcx.new_closure did substs) i tys updated)
  aggregate_tracked_ty-KeepsAll Mir.generator ops r e = absurd (cc)

  -- When `tracked_ty` of an rvalue returns, each closure that was known is known still, with the
  -- instantiation that it had, and each of its captured types is erased as before and loses no
  -- plausible type.
  pub rvalue_tracked_ty-KeepsAll :
      (rvalue : Rvalue tcx.names) (r : TrackedTy × ClosureInfoStorage)
      → rvalue_tracked_ty tracker i closures rvalue ≡ ok r
      → KeepsAll closures r.1
  unfolding rvalue_tracked_ty
  rvalue_tracked_ty-KeepsAll (Mir.aggregate kind ops) r e =
      aggregate_tracked_ty-KeepsAll kind ops r e
  rvalue_tracked_ty-KeepsAll rvalue r e =
      let (t, _, e1) = >>=-split (simple_tracked_ty tracker i rvalue) _ e in unchanged t r e1
