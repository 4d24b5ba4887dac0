-- ===== src/Collector/PartialFunctionInfo.antt =====
-- scrutils/src/collector/structs/partial_function_info.rs: an instance with what is known of its
-- arguments, and the instances that a call may lead to.
pub mod Resolved
use scrutinizer.Prelude.{
  List, [], ◌∷◌, map, Option, none, some, Outcome, ok, err, panic, out_of_fuel, ◌>>=◌, unwrap,
  expect, collect, concat, filter_map, length, range_from, nat_eqb, if◌then◌else◌,
}
use scrutinizer.Rustc.Mir.{TyKind, closure, fn_def, not_mut}
use scrutinizer.Rustc.Queries.{Tcx}
use scrutinizer.BodyCache.{is_mir_available}
use scrutinizer.Common.TrackedTy.{from_ty, spread_tuple}
use scrutinizer.Common.ArgTys.{ArgTys, as_closure, merge, extract_substs}
use scrutinizer.Common.Function.{ClosureInfo, extract_instance}
use scrutinizer.Common.Storage.Closures
use scrutinizer.Common.Storage.Closures.{ClosureInfoStorage}
use scrutinizer.Collector.HasTrackedTy.{Itertools}

module _ ⦃tcx : Tcx⦄ where
  open tcx use {Ty, DefId, Instance, GenericArgs, GenericArg, instance_def_id}

  pub data PartialFunctionInfo : Type 0 where
    function : Instance → ArgTys → PartialFunctionInfo
    closure_function : Instance → ArgTys → ClosureInfo → PartialFunctionInfo

  unfoldable pub instance_of : PartialFunctionInfo → Instance
  instance_of (function i _) = i
  instance_of (closure_function i _ _) = i

  unfoldable pub tracked_args : PartialFunctionInfo → ArgTys
  tracked_args (function _ args) = args
  tracked_args (closure_function _ args _) = args

  unfoldable pub expect_closure : PartialFunctionInfo → Outcome ClosureInfo
  expect_closure (closure_function _ _ closure_info) = ok closure_info
  expect_closure (function _ _) = panic

  -- `assert!` on the one input of a closure, and `panic!` on other types.
  arg_tys_of_kind : Instance → Ty → TyKind tcx.names → Outcome ArgTys
  arg_tys_of_kind instance_ ty (fn_def _ _) =
      ok (record { arg_tys = map from_ty (tcx.sig_inputs instance_) })
  arg_tys_of_kind instance_ ty (closure _ substs) =
      let inputs = tcx.closure_sig_inputs substs in
      let spread : Outcome ArgTys = (do
        sig_tys ← collect (λ t. spread_tuple (from_ty t)) inputs
        ok (record {
          arg_tys = from_ty (tcx.new_ref tcx.re_erased ty not_mut) ∷ concat sig_tys;
        })) in
      if nat_eqb (length inputs) 1 then spread else panic
  arg_tys_of_kind instance_ ty _ = panic

  unfoldable pub extract_arg_tys : Instance → Outcome ArgTys
  unfolding arg_tys_of_kind
  extract_arg_tys instance_ =
      let ty = tcx.instance_ty instance_ in arg_tys_of_kind instance_ ty (tcx.kind ty)

  -- What the closure storage answers for the instance of a closure.
  with_closure_info : Instance → ArgTys → Option ClosureInfo → Outcome PartialFunctionInfo
  with_closure_info instance_ args (some closure_info) =
      ok (closure_function instance_ args closure_info)
  with_closure_info instance_ args none = err "did not find a closure inside closure storage"

  unfoldable pub assemble : ClosureInfoStorage → ArgTys → Instance → Outcome PartialFunctionInfo
  unfolding with_closure_info
  assemble closures arg_tys instance_ =
      let def_id = instance_def_id instance_ in
      (do
        inferred_args ← if tcx.is_closure def_id then as_closure arg_tys else ok arg_tys
        provided_args ← extract_arg_tys instance_
        if tcx.is_closure def_id
            then with_closure_info instance_ (merge inferred_args provided_args)
                (Closures.get closures def_id)
            else ok (function instance_ (merge inferred_args provided_args)))

  unfoldable pub try_substitute_generics : DefId → List GenericArg → Outcome (Option Instance)
  try_substitute_generics def_id substs = unwrap (tcx.resolve_instance def_id (tcx.mk_args substs))

  -- The first failure of a list of results is kept for later; a panic is not.
  unfoldable pub keep_err {ℓ} : {A : Type ℓ} → Outcome A → Outcome (Outcome A)
  keep_err (ok x) = ok (ok x)
  keep_err (err message) = ok (err message)
  keep_err panic = panic
  keep_err out_of_fuel = out_of_fuel

  stored : Option ClosureInfo → Outcome ClosureInfo
  stored (some closure_info) = ok closure_info
  stored none = err "closure not inside the storage"

  pub resolved_def_id : DefId → Option Instance → DefId
  resolved_def_id def_id (some instance_) = instance_def_id instance_
  resolved_def_id def_id none = def_id

  module _ ⦃itertools : Itertools⦄ where
    unfoldable pub find_plausible_instances : DefId → ArgTys → GenericArgs → Outcome (List Instance)
    find_plausible_instances def_id arg_tys substs =
        let generic_tys = tcx.identity_inputs def_id in
        let plausible_substs =
          map (extract_substs arg_tys generic_tys) (range_from 0 (tcx.args_len substs)) in
        (do
          instances ←
              collect (try_substitute_generics def_id)
                (itertools.multi_cartesian_product plausible_substs)
          ok (filter_map (λ i. i) instances))

    -- A closure's instance is taken from the closure storage, another's is substituted.
    unfoldable pub finish :
        PartialFunctionInfo
        → ClosureInfoStorage
        → Outcome PartialFunctionInfo
        → Outcome PartialFunctionInfo
    unfolding stored
    finish self closures fn_result = do
      fn_data ← fn_result
      if tcx.is_closure (instance_def_id (instance_of fn_data))
          then (do
            upvars ← stored (Closures.get closures (instance_def_id (instance_of fn_data)))
            resolved_instance ← extract_instance upvars
            closure_info ← expect_closure fn_data
            ok (closure_function resolved_instance (tracked_args fn_data) closure_info))
          else ok (
              function (tcx.subst_mir_instance (instance_of self) (instance_of fn_data))
                (tracked_args fn_data))

    unfoldable pub resolve :
        PartialFunctionInfo
        → DefId
        → GenericArgs
        → ArgTys
        → ClosureInfoStorage
        → Outcome (List PartialFunctionInfo)
    unfolding resolved_def_id
    resolve self def_id substs arg_tys closures = do
      maybe_instance ← unwrap (tcx.resolve_instance def_id substs)
      available ← is_mir_available (resolved_def_id def_id maybe_instance)
      instances ←
          if available
          then (do instance_ ← expect maybe_instance; ok (instance_ ∷ []))
          else find_plausible_instances (resolved_def_id def_id maybe_instance) arg_tys substs
      fns ← collect (λ i. keep_err (assemble closures arg_tys i)) instances
      collect (finish self closures) fns
