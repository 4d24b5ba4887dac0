-- ===== src/Collector/Fuel.antt =====
-- scrutils/src/collector/collector.rs: more fuel changes nothing of a collection that ended.
use scrutinizer.Prelude.{
  ℕ, zero, suc, ◌≤◌, refl, arith, Bool, inl, inr, List, [], ◌∷◌, Option, none, some, Outcome, ok,
  err, panic, out_of_fuel, not, ◌&&◌, Bool-cases,
}
use scrutinizer.Prelude.Fuel.{IsBelow, >>=-IsBelow, each-IsBelow}
use scrutinizer.Rustc.Mir
use scrutinizer.Rustc.Mir.{StatementKind, TerminatorKind, TyKind}
use scrutinizer.Rustc.Queries.{Tcx, Place, Operand}
use scrutinizer.BodyCache.{substituted_mir}
use scrutinizer.Common.ArgTys.{ArgTys}
use scrutinizer.Common.Function.{FunctionInfo}
use scrutinizer.Collector.Domain.{CollectorDomain}
use scrutinizer.Collector.VirtualStack.{contains}
use scrutinizer.Collector.HasTrackedTy.{Itertools}
use scrutinizer.Collector.PartialFunctionInfo.{PartialFunctionInfo, instance_of}
use scrutinizer.Collector.Collect.{
  Dataflow, Stores, Collector, Run, new, seen_item, is_bodiless, analyse_callee, enter_callee,
  enter_and_assign, process_callee, process_plausible,
}
use scrutinizer.Collector.Engine
use scrutinizer.Collector.Engine.{
  process_kind, process_call, destructor_effect, drop_effect, terminator_effect, enter, analyse,
  run_from, run, collect_by,
}

module _ ⦃tcx : Tcx⦄ ⦃itertools : Itertools⦄ where
  open tcx use {Ty, DefId, Instance, Body, GenericArgs, instance_def_id, kind}

  module _ (r r' : Run) (below : (c : Collector) (s : Stores) → IsBelow (r c s) (r' c s))
      (self : Collector) where
    analyse_callee-IsBelow :
        (args : List Operand) (g : PartialFunctionInfo) (x : Stores × CollectorDomain)
        → IsBelow (analyse_callee r self args g x) (analyse_callee r' self args g x)
    unfolding analyse_callee
    analyse_callee-IsBelow args g (stores, state) =
        >>=-IsBelow (substituted_mir (instance_of g)) (substituted_mir (instance_of g)) _ _
          (inr refl)
          (λ body.
            >>=-IsBelow (new g self.virtual_stack self.shallow)
              (new g self.virtual_stack self.shallow) _ _ (inr refl)
              (λ c. >>=-IsBelow (r c stores) (r' c stores) _ _ (below c stores) (λ y. inr refl)))

    enter_callee-IsBelow :
        (args : List Operand) (arg_tys : ArgTys) (g : PartialFunctionInfo)
        (x : Stores × CollectorDomain)
        → IsBelow (enter_callee r self args arg_tys g x) (enter_callee r' self args arg_tys g x)
    unfolding enter_callee
    enter_callee-IsBelow args arg_tys g x =
        elim (Bool-cases (is_bodiless (tcx.instance_def (instance_of g)))) [
          | inl e ↦ rw e (inr refl)
          | inr e ↦ rw e (analyse_callee-IsBelow args g x)
        ]

    process_callee-IsBelow :
        (args : List Operand) (arg_tys : ArgTys) (destination : Option Place)
        (x : Stores × CollectorDomain) (g : PartialFunctionInfo)
        → IsBelow
            (process_callee r self args arg_tys destination x g)
            (process_callee r' self args arg_tys destination x g)
    unfolding process_callee enter_and_assign
    process_callee-IsBelow args arg_tys destination x g =
        elim (Bool-cases (contains self.virtual_stack (seen_item g))) [
          | inl e ↦ rw e (inr refl)
          | inr e ↦ rw e (
              >>=-IsBelow (enter_callee r self args arg_tys g x)
                (enter_callee r' self args arg_tys g x) _ _ (enter_callee-IsBelow args arg_tys g x)
                (λ y. inr refl))
        ]

    process_plausible-IsBelow :
        (def_id : DefId) (args : List Operand) (arg_tys : ArgTys) (destination : Option Place)
        (x : Stores × CollectorDomain) (plausible : Outcome (List PartialFunctionInfo))
        → IsBelow
            (process_plausible r self def_id args arg_tys destination x plausible)
            (process_plausible r' self def_id args arg_tys destination x plausible)
    unfolding process_plausible
    process_plausible-IsBelow def_id args arg_tys destination x panic = inr refl
    process_plausible-IsBelow def_id args arg_tys destination x out_of_fuel = inr refl
    process_plausible-IsBelow def_id args arg_tys destination x (err _) = inr refl
    process_plausible-IsBelow def_id args arg_tys destination x (ok []) = inr refl
    process_plausible-IsBelow def_id args arg_tys destination x (ok (f ∷ fns)) =
        each-IsBelow _ _ (process_callee-IsBelow args arg_tys destination) (f ∷ fns) x

    process_kind-IsBelow :
        (ty : Ty) (k : TyKind tcx.names) (args : List Operand) (arg_tys : ArgTys)
        (destination : Option Place) (x : Stores × CollectorDomain)
        → IsBelow
            (process_kind r self ty k args arg_tys destination x)
            (process_kind r' self ty k args arg_tys destination x)
    unfolding process_kind
    process_kind-IsBelow ty (Mir.fn_def def_id substs) args arg_tys destination x =
        elim (Bool-cases (not (tcx.is_local def_id) && self.shallow)) [
          | inl e ↦ rw e (inr refl)
          | inr e ↦ rw e (process_plausible-IsBelow def_id args arg_tys destination x _)
        ]
    process_kind-IsBelow ty _ args arg_tys destination x = inr refl

    process_call-IsBelow :
        (ty : Ty) (args : List Operand) (arg_tys : ArgTys) (destination : Option Place)
        (x : Stores × CollectorDomain)
        → IsBelow
            (process_call r self ty args arg_tys destination x)
            (process_call r' self ty args arg_tys destination x)
    unfolding process_call
    process_call-IsBelow ty args arg_tys destination x =
        process_kind-IsBelow _ _ args arg_tys destination x

    destructor_effect-IsBelow :
        (place : Place) (substs : GenericArgs) (destructor : Option DefId)
        (x : Stores × CollectorDomain)
        → IsBelow
            (destructor_effect r self place substs destructor x)
            (destructor_effect r' self place substs destructor x)
    unfolding destructor_effect
    destructor_effect-IsBelow place substs none x = inr refl
    destructor_effect-IsBelow place substs (some d) x = process_call-IsBelow _ _ _ none x

    drop_effect-IsBelow :
        (place : Place) (k : TyKind tcx.names) (x : Stores × CollectorDomain)
        → IsBelow (drop_effect r self place k x) (drop_effect r' self place k x)
    unfolding drop_effect
    drop_effect-IsBelow place (Mir.adt adt_def substs) x =
        destructor_effect-IsBelow place substs (tcx.adt_destructor adt_def) x
    drop_effect-IsBelow place _ x = inr refl

    terminator_effect-IsBelow :
        (t : TerminatorKind tcx.names) (x : Stores × CollectorDomain)
        → IsBelow (terminator_effect r self t x) (terminator_effect r' self t x)
    unfolding terminator_effect
    terminator_effect-IsBelow (Mir.call func args destination) x =
        process_call-IsBelow _ args _ (some destination) x
    terminator_effect-IsBelow (Mir.drop_ place) x = drop_effect-IsBelow place _ x
    terminator_effect-IsBelow Mir.switch_int x = inr refl
    terminator_effect-IsBelow Mir.other_terminator x = inr refl

  module _ ⦃dataflow : Dataflow⦄ where
    -- The engine ends as soon as an effect of a terminator runs out of fuel, and so ends in the same
    -- way with effects that go on where these have run out.
    abbrev pub IsSequential : Type 1
    IsSequential =
        (S D : Type 0) (bottom : S → Outcome (S × D)) (join : D → D → Outcome (D × Bool))
        (statement : StatementKind tcx.names → S × D → Outcome (S × D))
        (terminator terminator' : TerminatorKind tcx.names → S × D → Outcome (S × D)) (body : Body)
        (s : S)
        → ((t : TerminatorKind tcx.names) (x : S × D) → IsBelow (terminator t x) (terminator' t x))
        → IsBelow (dataflow.block_ends bottom join statement terminator body s)
            (dataflow.block_ends bottom join statement terminator' body s)

    module _ (sequential : IsSequential) where
      run_from-IsBelow :
          (r r' : Run) (found : Option FunctionInfo) (c : Collector) (s : Stores)
          → ((d : Collector) (t : Stores) → IsBelow (r d t) (r' d t))
          → IsBelow (run_from r found c s) (run_from r' found c s)
      unfolding run_from analyse
      run_from-IsBelow r r' (some info) c s below = inr refl
      run_from-IsBelow r r' none c s below =
          >>=-IsBelow _ _ _ _
            (sequential Stores CollectorDomain _ _ _ (terminator_effect r (enter c))
              (terminator_effect r' (enter c)) _ s (terminator_effect-IsBelow r r' below (enter c)))
            (λ y. inr refl)

      run-IsBelow :
          (fuel more : ℕ) (c : Collector) (s : Stores)
          → fuel ≤ more
          → IsBelow (run fuel c s) (run more c s)
      unfolding run
      run-IsBelow zero more c s h = inl refl
      run-IsBelow (suc fuel) zero c s h = absurd (omega (arith, h))
      run-IsBelow (suc fuel) (suc more) c s h =
          run_from-IsBelow (run fuel) (run more) _ c s
            (λ d t. run-IsBelow fuel more d t (omega (arith, h)))

      pub collect_run-IsBelow :
          (fuel more : ℕ) (instance_ : Instance) (shallow : Bool)
          → fuel ≤ more
          → IsBelow (Engine.collect fuel instance_ shallow) (Engine.collect more instance_ shallow)
      unfolding Engine.collect collect_by
      collect_run-IsBelow fuel more instance_ shallow h =
          >>=-IsBelow (substituted_mir instance_) (substituted_mir instance_) _ _ (inr refl)
            (λ body.
              >>=-IsBelow _ _ _ _ (inr refl)
                (λ c. >>=-IsBelow _ _ _ _ (run-IsBelow fuel more c _ h) (λ y. inr refl)))
