-- ===== src/Collector/Collect.antt =====
-- scrutils/src/collector/collector.rs: the analysis of a function, which analyses its callees as it
-- meets their calls. The function storage and the closure storage are shared by all of them.
use scrutinizer.Prelude.{
  Bool, true, false, List, [], ◌∷◌, map, Option, none, some, Outcome, ok, err, panic, out_of_fuel,
  ◌>>=◌, each, if◌then◌else◌,
}
use scrutinizer.Prelude.HashMap.{HashMap}
use scrutinizer.Prelude.HashMap
use scrutinizer.Rustc.Mir
use scrutinizer.Rustc.Mir.{StatementKind, TerminatorKind, TyKind, fn_def, InstanceDef, mut_}
use scrutinizer.Rustc.Queries.{Tcx, Place, Operand}
use scrutinizer.BodyCache.{substituted_mir}
use scrutinizer.Common.TrackedTy.{TrackedTy, from_ty}
use scrutinizer.Common.NormalizedPlace.{NormalizedPlace, from_place, eq_normalized_place}
use scrutinizer.Common.ArgTys.{ArgTys}
use scrutinizer.Common.Function.{
  with_body, without_body, FunctionInfo, info_with_body, info_without_body,
}
use scrutinizer.Common.Storage.Functions.{FunctionInfoStorage, insert}
use scrutinizer.Common.Storage.Closures.{ClosureInfoStorage, update_with}
use scrutinizer.Collector.Domain
use scrutinizer.Collector.Domain.{
  CollectorDomain, from_regular_fn_info, augment_closure_with_upvars, augment_with_args, add_call,
  add_unhandled, return_type, construct_args, join_domain,
}
use scrutinizer.Collector.VirtualStack.{VirtualStack, VirtualStackItem, contains}
use scrutinizer.Collector.PartialFunctionInfo.{
  PartialFunctionInfo, function, closure_function, instance_of, tracked_args,
}

-- `rustc_mir_dataflow`: iterates the effects over a body until nothing changes, and gives the state
-- at the end of each block. `S` is what the effects share.
pub record Dataflow ⦃tcx : Tcx⦄ : Type 1 where
  pub block_ends :
      {S D : Type 0}
      → (bottom_value : S → Outcome (S × D)) → (join : D → D → Outcome (D × Bool))
      → (statement_effect : StatementKind tcx.names → S × D → Outcome (S × D))
      → (terminator_effect : TerminatorKind tcx.names → S × D → Outcome (S × D)) → tcx.Body
      → S
      → Outcome (S × List D)

module _ ⦃tcx : Tcx⦄ where
  open tcx use {Ty, DefId, Instance, Body, GenericArgs, instance_def_id}

  pub record Stores : Type 0 where
    pub functions : FunctionInfoStorage
    pub closures : ClosureInfoStorage

  pub record Collector : Type 0 where
    pub virtual_stack : VirtualStack
    pub current_function : PartialFunctionInfo
    pub substituted_body : Body
    pub shallow : Bool

  unfoldable pub new : PartialFunctionInfo → VirtualStack → Bool → Outcome Collector
  new current_function virtual_stack shallow = do
    body ← substituted_mir (instance_of current_function)
    ok (record {
      virtual_stack = virtual_stack;
      current_function = current_function;
      substituted_body = body;
      shallow = shallow;
    })

  abbrev pub current_def_id : Collector → DefId
  current_def_id self = instance_def_id (instance_of self.current_function)

  unfoldable pub store : FunctionInfo → Stores → Stores
  store info stores = record stores { functions = insert stores.functions info }

  -- `FunctionInfo::new_with_body` of what a run gave.
  unfoldable pub info_of : Instance → Body → CollectorDomain → FunctionInfo
  info_of instance_ body results = info_with_body (record {
    instance_ = instance_;
    places = results.places;
    calls = results.calls;
    body = body;
    span = tcx.body_span body;
    unhandled = results.unhandled;
  })

  -- What the bodies of callees are analysed by: `Collector::run` of a collector on them.
  abbrev pub Run : Type 0
  Run = Collector → Stores → Outcome (CollectorDomain × Stores)

  -- The visitor of `collect_closures`: each type in the body is offered to the storage.
  unfoldable pub collect_closures :
      Instance → Body → ClosureInfoStorage → Outcome ClosureInfoStorage
  collect_closures instance_ body closures =
      each (λ s ty. update_with s ty instance_ []) closures (tcx.types_in body)

  unfoldable pub original_types : DefId → Body → HashMap NormalizedPlace TrackedTy
  original_types def_id body = HashMap.insert_all [] (
      map
        (λ p.
          (let place = from_place p def_id in (place, from_ty (tcx.place_ty place.place body).ty)))
        (tcx.all_places body def_id))

  -- A closure's state starts with its captured variables.
  unfoldable pub augment_with_upvars :
      PartialFunctionInfo → CollectorDomain → Body → DefId → Outcome CollectorDomain
  augment_with_upvars (closure_function _ _ upvars) tracker body def_id =
      augment_closure_with_upvars tracker upvars body def_id
  augment_with_upvars (function _ _) tracker body def_id = ok tracker

  unfoldable pub bottom_value : Collector → Stores → Outcome (Stores × CollectorDomain)
  bottom_value self stores =
      let def_id = current_def_id self in
      let body = self.substituted_body in
      (do
        closures ← collect_closures (instance_of self.current_function) body stores.closures
        with_upvars ←
            augment_with_upvars self.current_function (Domain.new (original_types def_id body)) body
              def_id
        tracker ← augment_with_args with_upvars (tracked_args self.current_function) body def_id
        ok (record stores { closures = closures }, tracker))

  -- The call of a function whose body is not analysed.
  unfoldable pub call_without_body :
      DefId → List Operand → ArgTys → Stores × CollectorDomain → Stores × CollectorDomain
  call_without_body def_id args arg_tys (stores, state) = (
    store (info_without_body def_id arg_tys.arg_tys) stores,
    add_call state (without_body def_id args),
  )

  -- An analysed callee: its function is stored, and then its call is added.
  unfoldable pub call_with_body :
      Instance
      → Body
      → CollectorDomain
      → List Operand
      → Stores × CollectorDomain
      → Stores × CollectorDomain
  call_with_body instance_ body results args (stores, state) =
      (store (info_of instance_ body results) stores, add_call state (with_body instance_ args))

  unfoldable pub is_bodiless : InstanceDef tcx.names → Bool
  is_bodiless (Mir.intrinsic _) = true
  is_bodiless (Mir.virtual _) = true
  is_bodiless _ = false

  -- A callee with a body is analysed by a collector of its own.
  unfoldable pub analyse_callee :
      Run
      → Collector
      → List Operand
      → PartialFunctionInfo
      → Stores × CollectorDomain
      → Outcome ((Stores × CollectorDomain) × TrackedTy)
  analyse_callee run_callee self args function_data (stores, state) =
      let instance_ = instance_of function_data in
      (do
        body ← substituted_mir instance_
        collector ← new function_data self.virtual_stack self.shallow
        (results, stores') ← run_callee collector stores
        return_ty ← return_type results (instance_def_id instance_) body
        ok (call_with_body instance_ body results args (stores', state), return_ty))

  -- The state after the callee, and the type that it returns.
  unfoldable pub enter_callee :
      Run
      → Collector
      → List Operand
      → ArgTys
      → PartialFunctionInfo
      → Stores × CollectorDomain
      → Outcome ((Stores × CollectorDomain) × TrackedTy)
  enter_callee run_callee self args arg_tys function_data current =
      let instance_ = instance_of function_data in
      if is_bodiless (tcx.instance_def instance_)
      then ok (
        call_without_body (instance_def_id instance_) args arg_tys current,
        from_ty (tcx.sig_output instance_),
      )
      else analyse_callee run_callee self args function_data current

  -- The place that the call assigns, if it assigns one.
  unfoldable pub assign_return :
      Collector → Option Place → TrackedTy → CollectorDomain → Outcome CollectorDomain
  assign_return self none return_ty state = ok state
  assign_return self (some destination) return_ty state =
      Domain.update_with state (from_place destination (current_def_id self)) return_ty
        self.substituted_body (current_def_id self)

  unfoldable pub enter_and_assign :
      Run
      → Collector
      → List Operand
      → ArgTys
      → Option Place
      → Stores × CollectorDomain
      → PartialFunctionInfo
      → Outcome (Stores × CollectorDomain)
  enter_and_assign run_callee self args arg_tys destination current function_data = do
    ((stores, state), return_ty) ← enter_callee run_callee self args arg_tys function_data current
    state' ← assign_return self destination return_ty state
    ok (stores, state')

  abbrev pub seen_item : PartialFunctionInfo → VirtualStackItem
  seen_item function_data = record {
    def_id = instance_def_id (instance_of function_data);
    tracked_args = tracked_args function_data;
  }

  -- One round of the loop over the plausible functions; a call under way is skipped.
  unfoldable pub process_callee :
      Run
      → Collector
      → List Operand
      → ArgTys
      → Option Place
      → Stores × CollectorDomain
      → PartialFunctionInfo
      → Outcome (Stores × CollectorDomain)
  process_callee run_callee self args arg_tys destination current function_data =
      if contains self.virtual_stack (seen_item function_data)
      then ok current
      else enter_and_assign run_callee self args arg_tys destination current function_data

  -- No plausible function, or an error in finding them, is a call without body.
  unfoldable pub process_plausible :
      Run
      → Collector
      → DefId
      → List Operand
      → ArgTys
      → Option Place
      → Stores × CollectorDomain
      → Outcome (List PartialFunctionInfo)
      → Outcome (Stores × CollectorDomain)
  process_plausible run_callee self def_id args arg_tys destination current panic = panic
  process_plausible run_callee self def_id args arg_tys destination current out_of_fuel =
      out_of_fuel
  process_plausible run_callee self def_id args arg_tys destination current (err _) =
      ok (call_without_body def_id args arg_tys current)
  process_plausible run_callee self def_id args arg_tys destination current (ok []) =
      ok (call_without_body def_id args arg_tys current)
  process_plausible run_callee self def_id args arg_tys destination current (ok (f ∷ fns)) =
      each (process_callee run_callee self args arg_tys destination) current (f ∷ fns)
