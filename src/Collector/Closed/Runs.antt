-- ===== src/Collector/Closed/Runs.antt =====
-- The runs of the collector keep its invariant.
use scrutinizer.Prelude.{
  ◌≡◌, refl, sym, ◌∙◌, subst, not, ◌&&◌, List, Option, none, some, All, ok, ok_injective, >>=-split,
  if_split,
}
use scrutinizer.Rustc.Mir
use scrutinizer.Rustc.Mir.{TyKind, StatementKind, TerminatorKind}
use scrutinizer.Rustc.Queries.{Tcx, Place, Operand}
use scrutinizer.Common.NormalizedPlace.{from_place}
use scrutinizer.Common.ArgTys.{ArgTys}
use scrutinizer.Common.Storage.Closed.{IsClosed, Resolves}
use scrutinizer.Collector.Domain
use scrutinizer.Collector.Domain.{
  CollectorDomain, add_unhandled, construct_args, augment_with_args, augment_closure_with_upvars,
  join_domain, from_regular_fn_info,
}
use scrutinizer.Collector.Domain.Updates.{update_with-Grows}
use scrutinizer.Collector.Domain.Injections.{
  augment_with_args-Grows, augment_closure_with_upvars-Grows,
}
use scrutinizer.Collector.HasTrackedTy.{Itertools, rvalue_tracked_ty}
use scrutinizer.Collector.PartialFunctionInfo.{
  PartialFunctionInfo, function, closure_function, instance_of, tracked_args, resolve,
}
use scrutinizer.Collector.Collect.{
  Stores, Collector, Run, current_def_id, process_plausible, bottom_value, augment_with_upvars,
  collect_closures, original_types,
}
use scrutinizer.Collector.Engine.{
  process_kind, process_call, statement_effect, terminator_effect, drop_effect, destructor_effect,
}
use scrutinizer.Collector.Closed.Steps.{Valid, Steps, Later, Later-refl}
use scrutinizer.Collector.Closed.Effects.{KeepsClosed, same_calls, process_plausible-Steps}

module _ ⦃tcx : Tcx⦄ ⦃itertools : Itertools⦄ where
  open tcx use {Ty, kind}

  stays : (x y : Stores × CollectorDomain) → Valid x → ok x ≡ ok y → Steps x y
  stays x y v e = subst (Steps x) (ok_injective e) (v, Later-refl x.0)

  module _ (run_callee : Run) (closed : KeepsClosed run_callee) (self : Collector) where
    process_kind-Steps :
        (ty : Ty) (k : TyKind tcx.names) (args : List Operand) (arg_tys : ArgTys)
        (destination : Option Place) (x y : Stores × CollectorDomain)
        → Valid x
        → process_kind run_callee self ty k args arg_tys destination x ≡ ok y
        → Steps x y
    unfolding process_kind add_unhandled
    process_kind-Steps ty (Mir.fn_def def_id substs) args arg_tys destination x y v e =
        let fns = resolve self.current_function def_id substs arg_tys (Stores.closures x.0) in
        if_split (not (tcx.is_local def_id) && self.shallow) (ok x)
          (process_plausible run_callee self def_id args arg_tys destination x fns) (stays x y v)
          (process_plausible-Steps run_callee closed self def_id args arg_tys destination x fns y v)
          e
    process_kind-Steps ty k args arg_tys destination (s, d) y v e =
        subst (Steps (s, d)) (ok_injective e) (same_calls s d (add_unhandled d ty) v refl)

    process_call-Steps :
        (ty : Ty) (args : List Operand) (arg_tys : ArgTys) (destination : Option Place)
        (x y : Stores × CollectorDomain)
        → Valid x
        → process_call run_callee self ty args arg_tys destination x ≡ ok y
        → Steps x y
    unfolding process_call
    process_call-Steps ty args arg_tys destination x y v e =
        process_kind-Steps _ _ args arg_tys destination x y v e

    destructor_effect-Steps :
        (place : Place) (substs : tcx.GenericArgs) (destructor : Option tcx.DefId)
        (x y : Stores × CollectorDomain)
        → Valid x
        → destructor_effect run_callee self place substs destructor x ≡ ok y
        → Steps x y
    unfolding destructor_effect
    destructor_effect-Steps place substs none x y v e = stays x y v e
    destructor_effect-Steps place substs (some d) x y v e = process_call-Steps _ _ _ none x y v e

    drop_effect-Steps :
        (place : Place) (k : TyKind tcx.names) (x y : Stores × CollectorDomain)
        → Valid x
        → drop_effect run_callee self place k x ≡ ok y
        → Steps x y
    unfolding drop_effect
    drop_effect-Steps place (Mir.adt adt_def substs) x y v e =
        destructor_effect-Steps place substs (tcx.adt_destructor adt_def) x y v e
    drop_effect-Steps place k x y v e = stays x y v e

    pub terminator_effect-Steps :
        (t : TerminatorKind tcx.names) (x y : Stores × CollectorDomain)
        → Valid x
        → terminator_effect run_callee self t x ≡ ok y
        → Steps x y
    unfolding terminator_effect
    terminator_effect-Steps (Mir.call func args destination) x y v e =
        process_call-Steps _ args _ (some destination) x y v e
    terminator_effect-Steps (Mir.drop_ place) x y v e = drop_effect-Steps place _ x y v e
    terminator_effect-Steps Mir.switch_int x y v e = stays x y v e
    terminator_effect-Steps Mir.other_terminator x y v e = stays x y v e

    pub statement_effect-Steps :
        (st : StatementKind tcx.names) (x y : Stores × CollectorDomain)
        → Valid x
        → statement_effect self st x ≡ ok y
        → Steps x y
    unfolding statement_effect
    statement_effect-Steps (Mir.assign place rvalue) (s, d) y v e =
        let i = instance_of self.current_function in
        let p = from_place place (current_def_id self) in
        let (q, _, e1) = >>=-split (rvalue_tracked_ty d i s.closures rvalue) _ e in
        let (d', updated, e2) =
          >>=-split (Domain.update_with d p q.0 self.substituted_body (current_def_id self)) _ e1 in
        let same =
          (update_with-Grows d d' p q.0 self.substituted_body (current_def_id self) updated).0.1 in
        subst (Steps (s, d)) (ok_injective e2) (same_calls s d d' v same)
    statement_effect-Steps Mir.fake_read x y v e = stays x y v e
    statement_effect-Steps Mir.nop x y v e = stays x y v e
    statement_effect-Steps Mir.other_statement x y v e = stays x y v e

    upvars_calls :
        (f : PartialFunctionInfo) (d d' : CollectorDomain) (body : tcx.Body) (def_id : tcx.DefId)
        → augment_with_upvars f d body def_id ≡ ok d'
        → d'.calls ≡ d.calls
    unfolding augment_with_upvars
    upvars_calls (function _ _) d d' body def_id e =
        subst (λ x. x.calls ≡ d.calls) (ok_injective e) refl
    upvars_calls (closure_function _ _ upvars) d d' body def_id e =
        (augment_closure_with_upvars-Grows d d' upvars body def_id e).0.1

    pub bottom_value-Steps :
        (s : Stores) (y : Stores × CollectorDomain)
        → IsClosed s.functions
        → bottom_value self s ≡ ok y
        → Valid y × Later s y.0
    unfolding bottom_value Domain.new
    bottom_value-Steps s y v e =
        let i = current_def_id self in
        let body = self.substituted_body in
        let f = self.current_function in
        let (c, _, e1) = >>=-split (collect_closures (instance_of f) body s.closures) _ e in
        let (d, with_upvars, e2) =
          >>=-split (augment_with_upvars f (Domain.new (original_types i body)) body i) _ e1 in
        let (d', with_args, e3) = >>=-split (augment_with_args d (tracked_args f) body i) _ e2 in
        let none_yet =
          (augment_with_args-Grows d d' (tracked_args f) body i with_args).0.1
          ∙ upvars_calls f (Domain.new (original_types i body)) d body i with_upvars in
        subst (λ q. Valid q × Later s q.0) (ok_injective e3)
          ((v, subst (All (Resolves s.functions.fns)) (sym none_yet) tt), Later-refl s)
