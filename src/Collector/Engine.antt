-- ===== src/Collector/Engine.antt =====
-- scrutils/src/collector/collector.rs: the effects of statements and terminators, and the runs of
-- the dataflow engine. The recursion follows calls; `fuel` bounds its depth.
use scrutinizer.Prelude.{
  ℕ, zero, suc, Bool, not, ◌&&◌, List, [], ◌∷◌, map, Option, none, some, Outcome, ok, panic,
  out_of_fuel, ◌>>=◌, range_from, if◌then◌else◌,
}
use scrutinizer.Rustc.Mir
use scrutinizer.Rustc.Mir.{StatementKind, TerminatorKind, TyKind, fn_def, mut_}
use scrutinizer.Rustc.Queries.{Tcx, Place, Operand}
use scrutinizer.BodyCache.{substituted_mir}
use scrutinizer.Common.TrackedTy.{from_ty}
use scrutinizer.Common.NormalizedPlace.{from_place}
use scrutinizer.Common.ArgTys.{ArgTys}
use scrutinizer.Common.Function.{FunctionInfo}
use scrutinizer.Common.Storage.Functions
use scrutinizer.Common.Storage.Functions.{FunctionInfoStorage, get_with_body}
use scrutinizer.Common.Storage.Closures
use scrutinizer.Collector.Domain
use scrutinizer.Collector.Domain.{
  CollectorDomain, from_regular_fn_info, add_unhandled, construct_args, join_domain,
}
use scrutinizer.Collector.VirtualStack
use scrutinizer.Collector.VirtualStack.{push}
use scrutinizer.Collector.HasTrackedTy.{Itertools, rvalue_tracked_ty}
use scrutinizer.Collector.PartialFunctionInfo.{function, instance_of, tracked_args, resolve}
use scrutinizer.Collector.Collect.{
  Dataflow, Stores, Collector, Run, new, current_def_id, store, info_of, bottom_value,
  process_plausible,
}

module _ ⦃tcx : Tcx⦄ ⦃itertools : Itertools⦄ where
  open tcx use {Ty, DefId, Instance, Body, GenericArgs, instance_def_id, kind}

  -- Any type but a function's is recorded as unhandled.
  unfoldable pub process_kind :
      Run
      → Collector
      → Ty
      → TyKind tcx.names
      → List Operand
      → ArgTys
      → Option Place
      → Stores × CollectorDomain
      → Outcome (Stores × CollectorDomain)
  process_kind run_callee self function_ty (fn_def def_id substs) args arg_tys destination current =
      if not (tcx.is_local def_id) && self.shallow
      then ok current
      else process_plausible run_callee self def_id args arg_tys destination current
          (resolve self.current_function def_id substs arg_tys (Stores.closures current.0))
  process_kind run_callee self function_ty _ args arg_tys destination (stores, state) =
      ok (stores, add_unhandled state function_ty)

  unfoldable pub process_call :
      Run
      → Collector
      → Ty
      → List Operand
      → ArgTys
      → Option Place
      → Stores × CollectorDomain
      → Outcome (Stores × CollectorDomain)
  process_call run_callee self function_ty args arg_tys destination current =
      let function_ty' = tcx.subst_mir (instance_of self.current_function) function_ty in
      process_kind run_callee self function_ty' (kind function_ty') args arg_tys destination current

  unfoldable pub statement_effect :
      Collector
      → StatementKind tcx.names
      → Stores × CollectorDomain
      → Outcome (Stores × CollectorDomain)
  statement_effect self (Mir.assign place rvalue) (stores, state) = do
    (ty, closures) ←
        rvalue_tracked_ty state (instance_of self.current_function) stores.closures rvalue
    state' ←
        Domain.update_with state (from_place place (current_def_id self)) ty self.substituted_body
          (current_def_id self)
    ok (record stores { closures = closures }, state')
  statement_effect self _ current = ok current

  -- The call of the destructor, if there is one.
  unfoldable pub destructor_effect :
      Run
      → Collector
      → Place
      → GenericArgs
      → Option DefId
      → Stores × CollectorDomain
      → Outcome (Stores × CollectorDomain)
  destructor_effect run_callee self place substs none current = ok current
  destructor_effect run_callee self place substs (some destructor) current =
      process_call run_callee self (tcx.type_of destructor substs) (Mir.copy place ∷ [])
        (record {
          arg_tys =
              from_ty (tcx.new_ref tcx.re_erased (tcx.place_ty place self.substituted_body).ty mut_)
              ∷ [];
        })
        none current

  -- Only a struct, an enum or a union is dropped by a destructor of its own.
  unfoldable pub drop_effect :
      Run
      → Collector
      → Place
      → TyKind tcx.names
      → Stores × CollectorDomain
      → Outcome (Stores × CollectorDomain)
  drop_effect run_callee self place (Mir.adt adt_def substs) current =
      destructor_effect run_callee self place substs (tcx.adt_destructor adt_def) current
  drop_effect run_callee self place _ current = ok current

  unfoldable pub terminator_effect :
      Run
      → Collector
      → TerminatorKind tcx.names
      → Stores × CollectorDomain
      → Outcome (Stores × CollectorDomain)
  terminator_effect run_callee self (Mir.call func args destination) current =
      process_call run_callee self (tcx.operand_ty func self.substituted_body) args
        (construct_args current.1 args (current_def_id self) self.substituted_body)
        (some destination) current
  terminator_effect run_callee self (Mir.drop_ place) current =
      drop_effect run_callee self place (kind (tcx.place_ty place self.substituted_body).ty) current
  terminator_effect run_callee self _ current = ok current

  -- `reduce` with the join, and `unwrap`: it panics on a body without blocks.
  unfoldable pub join_all : CollectorDomain → List CollectorDomain → Outcome CollectorDomain
  join_all acc [] = ok acc
  join_all acc (elt ∷ rest) = do (joined, _) ← join_domain acc elt; join_all joined rest

  unfoldable pub reduce_join : List CollectorDomain → Outcome CollectorDomain
  unfolding join_all
  reduce_join [] = panic
  reduce_join (first ∷ rest) = join_all first rest

  -- The collector of a run: its own call is under way.
  unfoldable pub enter : Collector → Collector
  enter self = record self {
    virtual_stack = push self.virtual_stack (record {
      def_id = current_def_id self;
      tracked_args = tracked_args self.current_function;
    });
  }

  module _ ⦃dataflow : Dataflow⦄ where
    -- A fixpoint of the effects from the given collector, joined over all blocks.
    unfoldable pub analyse : Run → Run
    analyse run_callee self stores = do
      (stores', block_ends) ←
          dataflow.block_ends (bottom_value self) join_domain (statement_effect self)
            (terminator_effect run_callee self) self.substituted_body stores
      joined ← reduce_join block_ends
      ok (joined, stores')

    -- What is stored of the instance already is taken from the storage.
    unfoldable pub run_from : Run → Option FunctionInfo → Run
    run_from run_callee (some function_info) self stores = do
      state ← from_regular_fn_info function_info
      ok (state, stores)
    run_from run_callee none self stores = analyse run_callee (enter self) stores

    unfoldable pub run : ℕ → Run
    run zero self stores = out_of_fuel
    run (suc fuel) self stores =
        run_from (run fuel) (get_with_body stores.functions (instance_of self.current_function))
          self stores

    -- `Collector::collect`, with the given runs.
    unfoldable pub collect_by : Run → Instance → Bool → Outcome Stores
    collect_by run_it instance_ shallow = do
      body ← substituted_mir instance_
      collector ←
          new
            (function instance_ (record {
              arg_tys =
                  map (λ l. from_ty (tcx.local_ty body l)) (range_from 1 (tcx.arg_count body));
            }))
            VirtualStack.new shallow
      (results, stores) ←
          run_it collector (record { functions = Functions.new instance_; closures = Closures.new })
      ok (store (info_of instance_ body results) stores)

    unfoldable pub collect : ℕ → Instance → Bool → Outcome Stores
    unfolding collect_by
    collect fuel instance_ shallow = collect_by (run fuel) instance_ shallow
