-- ===== src/Common/TrackedTy/Join.antt =====
-- What `TrackedTy::join` does to the set of plausible types.
use scrutinizer.Prelude.{
  Bool, true, false, ◌&&◌, ◌||◌, ◌≡◌, ◌+◌, ◌≤◌, if◌then◌else◌, ◌↔◌, refl, ap, List, [], arith,
  length,
}
use scrutinizer.Prelude.HashSet.{
  contains, contains-cons, contains-nil, contains-insert, contains-extend, length-extend,
  extend_unchanged, insert_unchanged, length-insert,
}
use scrutinizer.Rustc.Queries.{Tcx, eq_ty}
use scrutinizer.Common.TrackedTy.{TrackedTy, present, erased, join, into_vec}

module _ ⦃tcx : Tcx⦄ where
  open tcx use {Ty}

  -- The type is one of the plausible ones.
  abbrev pub may_be : TrackedTy → Ty → Bool
  may_be t ty = contains (into_vec t) ty

  abbrev pub is_erased : TrackedTy → Bool
  is_erased (present _) = false
  is_erased (erased _) = true

  -- After `join` the plausible types of an erased value are its own and the other's, and those of
  -- a present value are unchanged.
  pub may_be-join :
      (t u : TrackedTy) (ty : Ty)
      → may_be (join t u).0 ty ≡ (may_be t ty || (is_erased t && may_be u ty))
  unfolding join into_vec
  may_be-join (present a) u ty = ground arith
  may_be-join (erased xs) (present b) ty =
      ground (arith, contains-insert xs b ty, contains-cons b [] ty, contains-nil ty)
  may_be-join (erased xs) (erased ys) ty = ground (arith, contains-extend xs ys ty)

  pub is_erased-join : (t u : TrackedTy) → is_erased (join t u).0 ≡ is_erased t
  unfolding join
  is_erased-join (present a) u = refl
  is_erased-join (erased xs) (present b) = refl
  is_erased-join (erased xs) (erased ys) = refl

  abbrev pub deps_of : TrackedTy → List Ty
  deps_of (present ty) = []
  deps_of (erased deps) = deps

  -- The flag of `join` is `false` exactly when the value is the same as before.
  pub join_flag : (t u : TrackedTy) → ((join t u).1 ≡ false) ↔ ((join t u).0 ≡ t)
  unfolding join
  join_flag (present a) u = (λ _. refl, λ _. refl)
  join_flag (erased xs) (present b) = (
    λ h. ap erased (insert_unchanged xs b h),
    λ h. ground (arith, ap (λ t. length (deps_of t)) h, length-insert xs b),
  )
  join_flag (erased xs) (erased ys) = (
    λ h. ap erased (extend_unchanged xs ys h),
    λ h. ground (arith, ap (λ t. length (deps_of t)) h, length-extend xs ys),
  )

  -- An update adds a plausible type.
  pub length-join :
      (t u : TrackedTy)
      → length (deps_of t) + (if (join t u).1 then 1 else 0) ≤ length (deps_of (join t u).0)
  unfolding join
  length-join (present a) u = omega arith
  length-join (erased xs) (present b) = ground (arith, length-insert xs b)
  length-join (erased xs) (erased ys) = length-extend xs ys
