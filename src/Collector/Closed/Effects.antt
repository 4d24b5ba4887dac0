-- ===== src/Collector/Closed/Effects.antt =====
-- The effects of statements and terminators keep the invariant of the collector, if the runs on
-- callees do.
use scrutinizer.Prelude.{
  ◌≡◌, refl, sym, subst, List, [], ◌∷◌, Option, none, some, All, Outcome, ok, err, panic,
  out_of_fuel, each, ok_injective, >>=-split, if_split,
}
use scrutinizer.BodyCache.{substituted_mir}
use scrutinizer.Rustc.Queries.{Tcx, Place, Operand}
use scrutinizer.Common.TrackedTy.{TrackedTy, from_ty}
use scrutinizer.Common.ArgTys.{ArgTys}
use scrutinizer.Common.Storage.Closed.{IsClosed, Resolves}
use scrutinizer.Collector.Domain.{CollectorDomain, return_type}
use scrutinizer.Collector.Domain.Updates.{update_with-Grows}
use scrutinizer.Collector.VirtualStack.{contains}
use scrutinizer.Collector.PartialFunctionInfo.{PartialFunctionInfo, instance_of}
use scrutinizer.Collector.Collect.{
  Stores, Collector, Run, new, enter_callee, assign_return, process_callee, analyse_callee,
  enter_and_assign, is_bodiless, seen_item, process_plausible, call_with_body, call_without_body,
}
use scrutinizer.Collector.Closed.Steps.{
  Valid, Steps, Later, Holds, Later-refl, Steps-trans, Holds-Later, call_with_body-Steps,
  call_without_body-Steps,
}

module _ ⦃tcx : Tcx⦄ where
  open tcx use {Ty, DefId}

  -- A run that returns keeps the storage closed and only adds to it, and the calls of its state lead
  -- to stored functions.
  abbrev pub KeepsClosed : Run → Type 0
  KeepsClosed run_callee =
      (c : Collector) (s : Stores) (r : CollectorDomain × Stores)
      → IsClosed s.functions
      → run_callee c s ≡ ok r
      → IsClosed r.1.functions × Later s r.1 × Holds r.1 r.0

  -- The same calls in the same storage.
  pub same_calls :
      (s : Stores) (d d' : CollectorDomain)
      → Valid (s, d)
      → d'.calls ≡ d.calls
      → Steps (s, d) (s, d')
  same_calls s d d' v e = ((v.0, subst (All (Resolves s.functions.fns)) (sym e) v.1), Later-refl s)

  each-Steps :
      {A : Type 0} (f : Stores × CollectorDomain → A → Outcome (Stores × CollectorDomain))
      → ((x : Stores × CollectorDomain) (a : A) (y : Stores × CollectorDomain)
          → Valid x
          → f x a ≡ ok y
          → Steps x y)
      → (x : Stores × CollectorDomain) (xs : List A) (y : Stores × CollectorDomain) → Valid x
      → each f x xs ≡ ok y
      → Steps x y
  each-Steps f step x [] y v e = subst (Steps x) (ok_injective e) (v, Later-refl x.0)
  each-Steps f step x (a ∷ xs) y v e =
      let (z, here, rest) = >>=-split (f x a) _ e in
      let first = step x a z v here in
      Steps-trans x z y first (each-Steps f step z xs y first.0 rest)

  pub assign_return_calls :
      (self : Collector) (destination : Option Place) (ty : TrackedTy) (d d' : CollectorDomain)
      → assign_return self destination ty d ≡ ok d'
      → d'.calls ≡ d.calls
  unfolding assign_return
  assign_return_calls self none ty d d' e = subst (λ x. x.calls ≡ d.calls) (ok_injective e) refl
  assign_return_calls self (some p) ty d d' e = (update_with-Grows d d' _ ty _ _ e).0.1

  module _ (run_callee : Run) (closed : KeepsClosed run_callee) (self : Collector) where
    analyse_callee-Steps :
        (args : List Operand) (f : PartialFunctionInfo) (x : Stores × CollectorDomain)
        (r : (Stores × CollectorDomain) × TrackedTy)
        → Valid x
        → analyse_callee run_callee self args f x ≡ ok r
        → Steps x r.0
    unfolding analyse_callee
    analyse_callee-Steps args f (s, d) r v h =
        let i = instance_of f in
        let (body, _, e1) = >>=-split (substituted_mir i) _ h in
        let (c, _, e2) = >>=-split (new f self.virtual_stack self.shallow) _ e1 in
        let (q, ran, e3) = >>=-split (run_callee c s) _ e2 in
        let (ty, _, e4) = >>=-split (return_type q.0 (tcx.instance_def_id i) body) _ e3 in
        let (kept, later, holds) = closed c s q v.0 ran in
        let valid : Valid (q.1, d) = (kept, Holds-Later s q.1 later d.calls v.1) in
        subst (λ p. Steps (s, d) p.0) (ok_injective e4)
          (Steps-trans (s, d) (q.1, d) (call_with_body i body q.0 args (q.1, d)) (valid, later)
            (call_with_body-Steps i body q.0 args (q.1, d) valid holds))

    enter_callee-Steps :
        (args : List Operand) (arg_tys : ArgTys) (f : PartialFunctionInfo)
        (x : Stores × CollectorDomain) (r : (Stores × CollectorDomain) × TrackedTy)
        → Valid x
        → enter_callee run_callee self args arg_tys f x ≡ ok r
        → Steps x r.0
    unfolding enter_callee
    enter_callee-Steps args arg_tys f x r v h =
        let def_id = tcx.instance_def_id (instance_of f) in
        if_split (is_bodiless (tcx.instance_def (instance_of f)))
          (ok (call_without_body def_id args arg_tys x, from_ty (tcx.sig_output (instance_of f))))
          (analyse_callee run_callee self args f x)
          (λ e.
            subst (λ q. Steps x q.0) (ok_injective e)
              (call_without_body-Steps def_id args arg_tys x v))
          (analyse_callee-Steps args f x r v) h

    enter_and_assign-Steps :
        (args : List Operand) (arg_tys : ArgTys) (destination : Option Place)
        (x : Stores × CollectorDomain) (f : PartialFunctionInfo) (y : Stores × CollectorDomain)
        → Valid x
        → enter_and_assign run_callee self args arg_tys destination x f ≡ ok y
        → Steps x y
    unfolding enter_and_assign
    enter_and_assign-Steps args arg_tys destination x f y v e =
        let (q, entered, e1) = >>=-split (enter_callee run_callee self args arg_tys f x) _ e in
        let (d', assigned, e2) = >>=-split (assign_return self destination q.1 q.0.1) _ e1 in
        let first = enter_callee-Steps args arg_tys f x q v entered in
        subst (Steps x) (ok_injective e2) (
          Steps-trans x q.0 (q.0.0, d') first
            (same_calls q.0.0 q.0.1 d' first.0
              (assign_return_calls self destination q.1 q.0.1 d' assigned)))

    process_callee-Steps :
        (args : List Operand) (arg_tys : ArgTys) (destination : Option Place)
        (x : Stores × CollectorDomain) (f : PartialFunctionInfo) (y : Stores × CollectorDomain)
        → Valid x
        → process_callee run_callee self args arg_tys destination x f ≡ ok y
        → Steps x y
    unfolding process_callee
    process_callee-Steps args arg_tys destination x f y v h =
        if_split (contains self.virtual_stack (seen_item f)) (ok x)
          (enter_and_assign run_callee self args arg_tys destination x f)
          (λ e. subst (Steps x) (ok_injective e) (v, Later-refl x.0))
          (enter_and_assign-Steps args arg_tys destination x f y v) h

    pub process_plausible-Steps :
        (def_id : DefId) (args : List Operand) (arg_tys : ArgTys) (destination : Option Place)
        (x : Stores × CollectorDomain) (fns : Outcome (List PartialFunctionInfo))
        (y : Stores × CollectorDomain)
        → Valid x
        → process_plausible run_callee self def_id args arg_tys destination x fns ≡ ok y
        → Steps x y
    unfolding process_plausible
    process_plausible-Steps def_id args arg_tys destination x panic y v e = absurd (cc)
    process_plausible-Steps def_id args arg_tys destination x out_of_fuel y v e = absurd (cc)
    process_plausible-Steps def_id args arg_tys destination x (err _) y v e =
        subst (Steps x) (ok_injective e) (call_without_body-Steps def_id args arg_tys x v)
    process_plausible-Steps def_id args arg_tys destination x (ok []) y v e =
        subst (Steps x) (ok_injective e) (call_without_body-Steps def_id args arg_tys x v)
    process_plausible-Steps def_id args arg_tys destination x (ok (f ∷ fns)) y v e =
        each-Steps (process_callee run_callee self args arg_tys destination)
          (process_callee-Steps args arg_tys destination) x (f ∷ fns) y v e
