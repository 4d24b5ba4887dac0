-- ===== src/Common/TrackedTy.antt =====
-- scrutils/src/common/tracked_ty.rs: what is known of the type of a place.
pub mod Join
pub mod Transpose
use scrutinizer.Prelude.{
  ℕ, zero, suc, Bool, true, false, not, ◌&&◌, ◌||◌, List, [], ◌∷◌, map, Option, none, some, Outcome,
  ok, panic, ◌>>=◌, expect, collect, any, length, is_empty, if◌then◌else◌,
}
use scrutinizer.Prelude.Eq.{Eq, ◌==◌}
use scrutinizer.Prelude.HashSet.{insert, extend, from_iter, set_eq}
use scrutinizer.Rustc.Mir.{param, fn_ptr, dynamic, foreign, raw_ptr, type_arg, TyKind}
use scrutinizer.Rustc.Queries.{Tcx, eq_ty}

-- `next().unwrap()` on each iterator; it panics on a row that is used up.
next_all {ℓ} : {T : Type ℓ} → List (List T) → Outcome (List T × List (List T))
next_all [] = ok ([], [])
next_all ([] ∷ rows) = panic
next_all ((x ∷ xs) ∷ rows) = do (hs, ts) ← next_all rows; ok (x ∷ hs, xs ∷ ts)

-- The rounds `(0..len)` of `transpose`.
columns_of {ℓ} : {T : Type ℓ} → ℕ → List (List T) → Outcome (List (List T))
columns_of zero rows = ok []
columns_of (suc n) rows = do (hs, ts) ← next_all rows; rest ← columns_of n ts; ok (hs ∷ rest)

-- `v[0]` panics on no rows.
unfoldable pub transpose {ℓ} : {T : Type ℓ} → List (List T) → Outcome (List (List T))
unfolding columns_of next_all
transpose [] = panic
transpose (v ∷ rows) = columns_of (length v) (v ∷ rows)

module _ ⦃tcx : Tcx⦄ where
  open tcx use {Ty, GenericArg, kind, walk, unpack, contains_closure, tuple_fields}

  erased_kind : TyKind tcx.names → Bool
  erased_kind param = true
  erased_kind fn_ptr = true
  erased_kind dynamic = true
  erased_kind foreign = true
  erased_kind (raw_ptr _ _) = true
  erased_kind _ = false

  erased_arg : GenericArg → Bool
  unfolding erased_kind
  erased_arg a = elim (unpack a) [ type_arg ty ↦ erased_kind (kind ty) | _ ↦ false ]

  unfoldable pub contains_erased : Ty → Bool
  unfolding erased_arg
  contains_erased ty = not (contains_closure ty) && any erased_arg (walk ty)

  pub data TrackedTy : Type 0 where
    present : Ty → TrackedTy
    erased : List Ty → TrackedTy

  -- `#[derive(PartialEq)]`
  unfoldable pub tracked_eq : TrackedTy → TrackedTy → Bool
  tracked_eq (present a) (present b) = a == b
  tracked_eq (erased xs) (erased ys) = set_eq xs ys
  tracked_eq (present _) (erased _) = false
  tracked_eq (erased _) (present _) = false

  unfoldable pub from_ty : Ty → TrackedTy
  from_ty ty = if contains_erased ty then erased [] else present ty

  unfoldable pub into_vec : TrackedTy → List Ty
  into_vec (present ty) = ty ∷ []
  into_vec (erased deps) = deps

  -- The new value, and whether it has changed.
  unfoldable pub join : TrackedTy → TrackedTy → TrackedTy × Bool
  join (present ty) other = (present ty, false)
  join (erased deps_self) (present ty_other) =
      let (deps, updated) = insert deps_self ty_other in (erased deps, updated)
  join (erased deps_self) (erased deps_other) =
      let (deps, updated) = extend deps_self deps_other in (erased deps, updated)

  unfoldable pub map_ty : (Ty → Ty) → TrackedTy → TrackedTy
  map_ty lambda (present ty) = from_ty (lambda ty)
  map_ty lambda (erased deps) = erased (from_iter (map lambda deps))

  unfoldable pub try_map : (Ty → Outcome Ty) → TrackedTy → Outcome TrackedTy
  try_map lambda (present ty) = do t ← lambda ty; ok (from_ty t)
  try_map lambda (erased deps) = do ts ← collect lambda deps; ok (erased (from_iter ts))

  unfoldable pub spread_tuple : TrackedTy → Outcome (List TrackedTy)
  spread_tuple (present ty) = do fields ← tuple_fields ty; ok (map from_ty fields)
  spread_tuple (erased deps) =
      let spread_all : Outcome (List TrackedTy) = (do
        spread ← collect tuple_fields deps
        columns ← transpose spread
        ok (map (λ v. erased (from_iter v)) columns)) in
      if is_empty deps then ok (erased [] ∷ []) else spread_all
