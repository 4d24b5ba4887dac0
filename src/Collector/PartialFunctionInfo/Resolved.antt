-- ===== src/Collector/PartialFunctionInfo/Resolved.antt =====
-- scrutils/src/collector/structs/partial_function_info.rs: which functions a call is resolved to.
use scrutinizer.Prelude.{
  ◌≡◌, refl, sym, ap, ◌∙◌, subst, Bool, true, false, ◌⊎◌, inl, inr, List, [], ◌∷◌, Option, none,
  some, Outcome, ok, err, panic, out_of_fuel, ◌>>=◌, >>=-split, ok_injective, some_injective,
  collect, expect, expect-some, unwrap, Bool-cases, if◌then◌else◌,
}
use scrutinizer.Prelude.Pairwise.{Pairwise, collected-Pairwise}
use scrutinizer.Rustc.Queries.{Tcx}
use scrutinizer.BodyCache.{is_mir_available}
use scrutinizer.Common.TrackedTy.{TrackedTy}
use scrutinizer.Common.ArgTys.{ArgTys, as_closure, merge}
use scrutinizer.Common.ArgTys.Merged.{IsMerged, IsSpread, merge-IsMerged, as_closure-IsSpread}
use scrutinizer.Common.Function.{ClosureInfo, extract_instance}
use scrutinizer.Common.Storage.Closures
use scrutinizer.Common.Storage.Closures.{ClosureInfoStorage}
use scrutinizer.Collector.HasTrackedTy.{Itertools}
use scrutinizer.Collector.PartialFunctionInfo.{
  PartialFunctionInfo, function, closure_function, instance_of, tracked_args, extract_arg_tys,
  with_closure_info, assemble, keep_err, stored, resolved_def_id, find_plausible_instances, finish,
  resolve, expect_closure,
}

module _ ⦃tcx : Tcx⦄ ⦃itertools : Itertools⦄ where
  open tcx use {Instance, DefId, GenericArgs, instance_def_id, is_closure}

  keep_err_lem : {A : Type 0} (m o : Outcome A) → keep_err m ≡ ok o → m ≡ o
  unfolding keep_err
  keep_err_lem (ok x) o h = ok_injective h
  keep_err_lem (err m) o h = ok_injective h
  keep_err_lem panic o h = absurd (cc)
  keep_err_lem out_of_fuel o h = absurd (cc)

  finish_ok :
      (self : PartialFunctionInfo) (closures : ClosureInfoStorage) (m : Outcome PartialFunctionInfo)
      (f : PartialFunctionInfo)
      → finish self closures m ≡ ok f
      → (g : PartialFunctionInfo) × (m ≡ ok g) × (finish self closures (ok g) ≡ ok f)
  unfolding finish
  finish_ok self closures (ok g) f h = (g, refl, h)
  finish_ok self closures (err _) f h = absurd (cc)
  finish_ok self closures panic f h = absurd (cc)
  finish_ok self closures out_of_fuel f h = absurd (cc)

  module _ (self : PartialFunctionInfo) (closures : ClosureInfoStorage) (arg_tys : ArgTys) where
    -- The function of an instance that is no closure's: its generics are those of the current function,
    -- and its arguments are merged from the call's and the declared ones.
    abbrev pub IsSubstituted : Instance → PartialFunctionInfo → Type 0
    IsSubstituted instance_ f =
        (provided : ArgTys) × (args : ArgTys) × (extract_arg_tys instance_ ≡ ok provided)
        × IsMerged arg_tys.arg_tys provided.arg_tys args.arg_tys
        × (f ≡ function (tcx.subst_mir_instance (instance_of self) instance_) args)

    -- That of a closure: what the storage has of it, with the arguments spread and merged.
    abbrev pub IsStoredClosure : Instance → PartialFunctionInfo → Type 0
    IsStoredClosure instance_ f =
        (info : ClosureInfo) × (resolved : Instance) × (inferred : List TrackedTy)
        × (provided : ArgTys) × (args : ArgTys) × (Closures.get closures (instance_def_id instance_)
            ≡ some info)
        × (extract_instance info ≡ ok resolved)
        × IsSpread arg_tys.arg_tys inferred
        × (extract_arg_tys instance_ ≡ ok provided)
        × IsMerged inferred provided.arg_tys args.arg_tys
        × (f ≡ closure_function resolved args info)

    abbrev pub IsResolved : Instance → PartialFunctionInfo → Type 0
    IsResolved instance_ f =
        ((is_closure (instance_def_id instance_) ≡ true) × IsStoredClosure instance_ f)
        ⊎ ((is_closure (instance_def_id instance_) ≡ false) × IsSubstituted instance_ f)

    closure_info_found :
        (instance_ : Instance) (args : ArgTys) (found : Option ClosureInfo)
        (g : PartialFunctionInfo)
        → with_closure_info instance_ args found ≡ ok g
        → (info : ClosureInfo) × (found ≡ some info) × (g ≡ closure_function instance_ args info)
    unfolding with_closure_info
    closure_info_found instance_ args (some info) g h = (info, refl, sym (ok_injective h))
    closure_info_found instance_ args none g h = absurd (cc)

    stored_found :
        (found : Option ClosureInfo) (info : ClosureInfo)
        → stored found ≡ ok info
        → found ≡ some info
    unfolding stored
    stored_found (some info) other h = ap some (ok_injective h)
    stored_found none other h = absurd (cc)

    resolved-IsStoredClosure :
        (instance_ : Instance) (g f : PartialFunctionInfo)
        → is_closure (instance_def_id instance_) ≡ true
        → assemble closures arg_tys instance_ ≡ ok g
        → finish self closures (ok g) ≡ ok f
        → IsStoredClosure instance_ f
    unfolding assemble finish instance_of tracked_args expect_closure
    resolved-IsStoredClosure instance_ g f e h k =
        let (inferred, e1, h1) = >>=-split (as_closure arg_tys) _ (rw (e, assemble) at h) in
        let (provided, e2, h2) = >>=-split (extract_arg_tys instance_) _ h1 in
        let (info, e3, same) =
          closure_info_found instance_ (merge inferred provided)
            (Closures.get closures (instance_def_id instance_)) g h2 in
        let k' = subst (λ x. finish self closures (ok x) ≡ ok f) same k in
        let (upvars, e4, k1) =
          >>=-split (stored (Closures.get closures (instance_def_id instance_))) _
            (rw (e, finish) at k') in
        let (resolved, e5, k2) = >>=-split (extract_instance upvars) _ k1 in
        let known = some_injective (sym e3 ∙ stored_found _ upvars e4) in
        (
          info,
          resolved,
          inferred.arg_tys,
          provided,
          merge inferred provided,
          e3,
          ap extract_instance known ∙ e5,
          as_closure-IsSpread arg_tys inferred e1,
          e2,
          merge-IsMerged inferred provided,
          sym (ok_injective k2),
        )

    resolved-IsSubstituted :
        (instance_ : Instance) (g f : PartialFunctionInfo)
        → is_closure (instance_def_id instance_) ≡ false
        → assemble closures arg_tys instance_ ≡ ok g
        → finish self closures (ok g) ≡ ok f
        → IsSubstituted instance_ f
    unfolding assemble finish instance_of tracked_args
    resolved-IsSubstituted instance_ g f e h k =
        let (provided, e2, h2) = >>=-split (extract_arg_tys instance_) _ (rw (e, assemble) at h) in
        let k' = subst (λ x. finish self closures (ok x) ≡ ok f) (sym (ok_injective h2)) k in
        (
          provided,
          merge arg_tys provided,
          e2,
          merge-IsMerged arg_tys provided,
          sym (ok_injective (rw (e, finish) at k')),
        )

    IsResolved-each :
        (instance_ : Instance) (o : Outcome PartialFunctionInfo) (f : PartialFunctionInfo)
        → keep_err (assemble closures arg_tys instance_) ≡ ok o
        → finish self closures o ≡ ok f
        → IsResolved instance_ f
    IsResolved-each instance_ o f kept h =
        let same = keep_err_lem (assemble closures arg_tys instance_) o kept in
        let h' = subst (λ m. finish self closures m ≡ ok f) (sym same) h in
        let (g, assembled, h1) =
          finish_ok self closures (assemble closures arg_tys instance_) f h' in
        elim (Bool-cases (is_closure (instance_def_id instance_))) [
          | inl e ↦ inl (e, resolved-IsStoredClosure instance_ g f e assembled h1)
          | inr e ↦ inr (e, resolved-IsSubstituted instance_ g f e assembled h1)
        ]

    -- The instances that a call may lead to: the one that its generic arguments resolve to, if its
    -- body is available, or else what the plausible types of the arguments give.
    abbrev pub IsPlausible : DefId → GenericArgs → List Instance → Type 0
    IsPlausible def_id substs instances =
        (maybe_instance : Option Instance) × (unwrap (tcx.resolve_instance def_id substs)
          ≡ ok maybe_instance)
        × (((is_mir_available (resolved_def_id def_id maybe_instance) ≡ ok true)
              × ((i : Instance) × (maybe_instance ≡ some i) × (instances ≡ i ∷ [])))
            ⊎ ((is_mir_available (resolved_def_id def_id maybe_instance) ≡ ok false)
                × (find_plausible_instances (resolved_def_id def_id maybe_instance) arg_tys substs
                    ≡ ok instances)))

    plausible_of :
        (def_id : DefId) (substs : GenericArgs) (instances : List Instance)
        (maybe_instance : Option Instance) (available : Bool)
        → is_mir_available (resolved_def_id def_id maybe_instance) ≡ ok available
        → (if available
            then (do instance_ ← expect maybe_instance; ok (instance_ ∷ []))
            else find_plausible_instances (resolved_def_id def_id maybe_instance) arg_tys substs)
          ≡ ok instances
        → ((is_mir_available (resolved_def_id def_id maybe_instance) ≡ ok true)
            × ((i : Instance) × (maybe_instance ≡ some i) × (instances ≡ i ∷ [])))
          ⊎ ((is_mir_available (resolved_def_id def_id maybe_instance) ≡ ok false)
              × (find_plausible_instances (resolved_def_id def_id maybe_instance) arg_tys substs
                  ≡ ok instances))
    plausible_of def_id substs instances maybe_instance true e h =
        let (i, found, same) = >>=-split (expect maybe_instance) _ h in
        inl (e, (i, expect-some maybe_instance i found, sym (ok_injective same)))
    plausible_of def_id substs instances maybe_instance false e h = inr (e, h)

    -- When `resolve` returns, it returns one function for each instance that the call may lead to, in
    -- order: for a closure what the closure storage has of it, with the arguments in the tuple of the
    -- call spread, and for another function the instance with the generics of the current function put
    -- in. Where the call has as many arguments as the instance declares, each is tracked by its declared
    -- type, or by the call's if that is erased; where it has not, all are tracked as in the call.
    pub resolve-IsResolved :
        (def_id : DefId) (substs : GenericArgs) (fns : List PartialFunctionInfo)
        → resolve self def_id substs arg_tys closures ≡ ok fns
        → (instances : List Instance) × IsPlausible def_id substs instances
          × Pairwise IsResolved instances fns
    unfolding resolve
    resolve-IsResolved def_id substs fns h =
        let (maybe_instance, e1, h1) =
          >>=-split (unwrap (tcx.resolve_instance def_id substs)) _ h in
        let (available, e2, h2) =
          >>=-split (is_mir_available (resolved_def_id def_id maybe_instance)) _ h1 in
        let (instances, e3, h3) =
          >>=-split
            (if available
              then (do instance_ ← expect maybe_instance; ok (instance_ ∷ []))
              else find_plausible_instances (resolved_def_id def_id maybe_instance) arg_tys substs)
            _ h2 in
        let (results, e4, h4) =
          >>=-split (collect (λ i. keep_err (assemble closures arg_tys i)) instances) _ h3 in
        (
          instances,
          (maybe_instance, e1, plausible_of def_id substs instances maybe_instance available e2 e3),
          collected-Pairwise _ _ IsResolved IsResolved-each instances results fns e4 h4,
        )
