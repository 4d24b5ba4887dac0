-- ===== src/Precheck.antt =====
-- scrutils/src/precheck/mod.rs: which functions are analysed at all.
use scrutinizer.Prelude.{
  Bool, true, false, ◌≡◌, refl, arith, List, [], ◌∷◌, map, Outcome, ok, err, panic, ◌>>=◌, any,
  range_from, if◌then◌else◌,
}
use scrutinizer.Rustc.Mir.{mut_, ref, TyKind}
use scrutinizer.Rustc.Queries.{Tcx}
use scrutinizer.BodyCache.{substituted_mir}
use scrutinizer.Common.TrackedTy.{TrackedTy, present, erased, from_ty, contains_erased}
use scrutinizer.Common.TrackedTy.Join.{is_erased}

module _ ⦃tcx : Tcx⦄ where
  open tcx use {Ty, Instance, Body, kind}

  mut_ref_kind : TyKind tcx.names → Bool
  mut_ref_kind (ref _ mut_) = true
  mut_ref_kind _ = false

  unfoldable pub is_mut_ref : Ty → Bool
  unfolding mut_ref_kind
  is_mut_ref ty = mut_ref_kind (kind ty)

  -- `unreachable!` on an erased argument.
  unfoldable pub mutable_arg : TrackedTy → Outcome Bool
  mutable_arg (present ty) = ok (is_mut_ref ty)
  mutable_arg (erased _) = panic

  unfoldable pub any_mutable : List TrackedTy → Outcome Bool
  any_mutable [] = ok false
  any_mutable (a ∷ rest) =
      let others = any_mutable rest in
      (do mutable ← mutable_arg a; if mutable then ok true else others)

  abbrev pub arg_types : Body → List Ty
  arg_types body = map (tcx.local_ty body) (range_from 1 (tcx.arg_count body))

  unfoldable pub check_args : List TrackedTy → Outcome (Unit {0})
  check_args arg_tys =
      let mutable_args : Outcome (Unit {0}) = (do
        contains_mutable_args ← any_mutable arg_tys
        if contains_mutable_args then err "mutable arguments detected" else ok tt) in
      if any is_erased arg_tys then err "erased args detected" else mutable_args

  unfoldable pub precheck : Instance → Outcome (Unit {0})
  precheck instance_ = do
    body ← substituted_mir instance_
    check_args (map from_ty (arg_types body))

  is_erased-from_ty : (ty : Ty) → is_erased (from_ty ty) ≡ contains_erased ty
  unfolding from_ty
  is_erased-from_ty ty = ground arith

  any-is_erased : (tys : List Ty) → any is_erased (map from_ty tys) ≡ any contains_erased tys
  any-is_erased [] = refl
  any-is_erased (ty ∷ tys) = ground (arith, is_erased-from_ty ty, any-is_erased tys)

  any_mutable_lem :
      (tys : List Ty)
      → any contains_erased tys ≡ false
      → any_mutable (map from_ty tys) ≡ ok (any is_mut_ref tys)
  unfolding any_mutable mutable_arg from_ty
  any_mutable_lem [] h = refl
  any_mutable_lem (ty ∷ tys) h = ground (arith, any_mutable_lem tys)

  -- On an instance whose body is found, `precheck` rejects it for erased arguments if the type of an
  -- argument contains an erased type, else for mutable ones if the type of an argument is a mutable
  -- reference, and else accepts it: the `unreachable!` is not reached.
  pub precheck_verdict :
      (instance_ : Instance) (body : Body)
      → substituted_mir instance_ ≡ ok body
      → precheck instance_ ≡ (
          if any contains_erased (arg_types body)
          then err "erased args detected"
          else if any is_mut_ref (arg_types body)
          then err "mutable arguments detected"
          else ok tt)
  unfolding precheck check_args
  precheck_verdict instance_ body h =
      rw h (ground (arith, any-is_erased (arg_types body), any_mutable_lem (arg_types body)))
