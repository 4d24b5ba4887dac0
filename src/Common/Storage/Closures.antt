-- ===== src/Common/Storage/Closures.antt =====
-- scrutils/src/common/storage/closure.rs: the closures seen, with their captured types.
use scrutinizer.Prelude.{
  not, List, [], ◌∷◌, ◌++◌, map, Option, none, some, Outcome, ok, panic, ◌>>=◌, zip, length,
  nat_eqb, is_empty, if◌then◌else◌,
}
use scrutinizer.Prelude.HashMap
use scrutinizer.Prelude.HashMap.{HashMap}
use scrutinizer.Rustc.Mir.{closure, TyKind}
use scrutinizer.Rustc.Queries.{Tcx}
use scrutinizer.Common.TrackedTy.{TrackedTy, join}
use scrutinizer.Common.Function.{ClosureInfo}

module _ ⦃tcx : Tcx⦄ where
  open tcx use {Ty, DefId, Instance}

  pub record ClosureInfoStorage : Type 0 where
    pub closures : HashMap DefId ClosureInfo

  unfoldable pub new : ClosureInfoStorage
  new = record { closures = [] }

  unfoldable pub get : ClosureInfoStorage → DefId → Option ClosureInfo
  get self def_id = HashMap.get ⦃e = tcx.def_id_eq⦄ self.closures def_id

  -- The closure of `and_modify`: the captured types of a closure that is known already.
  unfoldable pub merge_upvars : List TrackedTy → List TrackedTy → Outcome (List TrackedTy)
  merge_upvars old new_upvars =
      if is_empty old
      then ok (old ++ new_upvars)
      else if not (is_empty new_upvars)
      then if nat_eqb (length new_upvars) (length old)
        then ok (map (λ p. (join p.1 p.0).0) (zip new_upvars old))
        else panic
      else ok old

  -- A closure that is new, and one that is known.
  unfoldable pub update_entry :
      ClosureInfoStorage
      → DefId
      → Ty
      → List TrackedTy
      → Option ClosureInfo
      → Outcome ClosureInfoStorage
  update_entry self closure_def_id resolved_closure_ty upvars none = ok (record {
    closures =
        (closure_def_id, record { with_substs = resolved_closure_ty; upvars = upvars })
        ∷ self.closures;
  })
  update_entry self closure_def_id resolved_closure_ty upvars (some closure_ref) = do
    merged ← merge_upvars closure_ref.upvars upvars
    ok (record {
      closures =
          HashMap.modify ⦃e = tcx.def_id_eq⦄ self.closures closure_def_id
            (λ c. record c { upvars = merged });
    })

  -- Other types are not closures.
  unfoldable pub update_kind :
      ClosureInfoStorage → TyKind tcx.names → Ty → List TrackedTy → Outcome ClosureInfoStorage
  update_kind self (closure closure_def_id _) resolved_closure_ty upvars =
      update_entry self closure_def_id resolved_closure_ty upvars (get self closure_def_id)
  update_kind self _ resolved_closure_ty upvars = ok self

  unfoldable pub update_with :
      ClosureInfoStorage → Ty → Instance → List TrackedTy → Outcome ClosureInfoStorage
  update_with self closure_ty outer_instance upvars =
      update_kind self (tcx.kind closure_ty) (tcx.subst_mir outer_instance closure_ty) upvars
