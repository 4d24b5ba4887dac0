-- ===== src/Collector/Calls.antt =====
-- scrutils/src/collector/collector.rs: what the state records of a call.
use scrutinizer.Prelude.{
  ℕ, zero, suc, ◌≡◌, ◌⊎◌, inl, inr, sym, ap, subst, arith, true, not, ◌&&◌, List, [], ◌∷◌, Option,
  some, some_injective, Outcome, ok, err, panic, out_of_fuel, each, get_elem?, if◌then◌else◌,
  ok_injective, >>=-split, Bool-cases,
}
use scrutinizer.Prelude.HashSet
use scrutinizer.Prelude.HashSet.{contains-insert}
use scrutinizer.BodyCache.{substituted_mir}
use scrutinizer.Rustc.Mir
use scrutinizer.Rustc.Mir.{TyKind}
use scrutinizer.Rustc.Queries.{Tcx, Place, Operand}
use scrutinizer.Common.TrackedTy.{TrackedTy}
use scrutinizer.Common.ArgTys.{ArgTys}
use scrutinizer.Common.Function.{
  FunctionCall, with_body, without_body, call_eq_refl, eq_function_call,
}
use scrutinizer.Collector.Domain.{CollectorDomain, add_call, add_unhandled, return_type}
use scrutinizer.Collector.VirtualStack.{contains}
use scrutinizer.Collector.HasTrackedTy.{Itertools}
use scrutinizer.Collector.PartialFunctionInfo.{PartialFunctionInfo, instance_of, resolve}
use scrutinizer.Collector.Collect.{
  Stores, Collector, Run, new, is_bodiless, analyse_callee, enter_callee, assign_return,
  enter_and_assign, process_callee, process_plausible, seen_item, call_with_body, call_without_body,
}
use scrutinizer.Collector.Engine.{process_kind, process_call}
use scrutinizer.Collector.Closed.Effects.{assign_return_calls}

module _ ⦃tcx : Tcx⦄ where
  open tcx use {Ty, DefId, kind}

  -- The call is among those of the state.
  abbrev pub Records : CollectorDomain → FunctionCall → Type 0
  Records d c = HashSet.contains ⦃e = eq_function_call⦄ d.calls c ≡ true

  -- No call is forgotten.
  abbrev pub Remembers : CollectorDomain → CollectorDomain → Type 0
  Remembers d d' = (c : FunctionCall) → Records d c → Records d' c

  -- The call of a plausible callee: with its instance, if it has a body.
  abbrev pub call_of : PartialFunctionInfo → List Operand → FunctionCall
  call_of f args =
      if is_bodiless (tcx.instance_def (instance_of f))
      then without_body (tcx.instance_def_id (instance_of f)) args
      else with_body (instance_of f) args

  add_call-Records :
      (d : CollectorDomain) (c : FunctionCall)
      → Records (add_call d c) c × Remembers d (add_call d c)
  unfolding add_call
  add_call-Records d c = (
    ground (arith, contains-insert ⦃e = eq_function_call⦄ d.calls c c, call_eq_refl c),
    λ b h. ground (arith, contains-insert ⦃e = eq_function_call⦄ d.calls c b),
  )

  module _ (run_callee : Run) (self : Collector) (args : List Operand) (arg_tys : ArgTys)
      (destination : Option Place) where
    analyse_callee_state :
        (f : PartialFunctionInfo) (x : Stores × CollectorDomain)
        (r : (Stores × CollectorDomain) × TrackedTy)
        → analyse_callee run_callee self args f x ≡ ok r
        → add_call x.1 (with_body (instance_of f) args) ≡ r.0.1
    unfolding analyse_callee call_with_body
    analyse_callee_state f x r h =
        let i = instance_of f in
        let (body, _, e1) = >>=-split (substituted_mir i) _ h in
        let (c, _, e2) = >>=-split (new f self.virtual_stack self.shallow) _ e1 in
        let (q, _, e3) = >>=-split (run_callee c x.0) _ e2 in
        let (ty, _, e4) = >>=-split (return_type q.0 (tcx.instance_def_id i) body) _ e3 in
        ap (λ p. p.0.1) (ok_injective e4)

    enter_callee_state :
        (f : PartialFunctionInfo) (x : Stores × CollectorDomain)
        (r : (Stores × CollectorDomain) × TrackedTy)
        → enter_callee run_callee self args arg_tys f x ≡ ok r
        → add_call x.1 (call_of f args) ≡ r.0.1
    unfolding enter_callee call_without_body
    enter_callee_state f x r h =
        elim (Bool-cases (is_bodiless (tcx.instance_def (instance_of f)))) [
          | inl e ↦ rw e (ap (λ p. p.0.1) (ok_injective (rw e at h)))
          | inr e ↦ rw e (analyse_callee_state f x r (rw e at h))
        ]

    -- The callee's call is under way, or it is recorded.
    abbrev pub Handled : CollectorDomain → PartialFunctionInfo → Type 0
    Handled d f = (contains self.virtual_stack (seen_item f) ≡ true) ⊎ Records d (call_of f args)

    process_callee-Handled :
        (x : Stores × CollectorDomain) (f : PartialFunctionInfo) (y : Stores × CollectorDomain)
        → process_callee run_callee self args arg_tys destination x f ≡ ok y
        → Handled y.1 f × Remembers x.1 y.1
    unfolding process_callee enter_and_assign
    process_callee-Handled x f y h = elim (Bool-cases (contains self.virtual_stack (seen_item f))) [
      | inl e ↦ (inl e, subst (λ q. Remembers x.1 q.1) (ok_injective (rw e at h)) (λ c r. r))
      | inr e ↦
          let (q, entered, e1) =
            >>=-split (enter_callee run_callee self args arg_tys f x) _ (rw e at h) in
          let (d', assigned, e2) = >>=-split (assign_return self destination q.1 q.0.1) _ e1 in
          let added = enter_callee_state f x q entered in
          let same = ap (λ p. p.1) (ok_injective e2) in
          let calls = assign_return_calls self destination q.1 q.0.1 d' assigned in
          let (recorded, remembered) =
            subst (λ d. Records d (call_of f args) × Remembers x.1 d) added
              (add_call-Records x.1 (call_of f args)) in
          let carry : Remembers q.0.1 y.1 = λ c r.
            subst (λ d. Records d c) same
              (subst (λ l. HashSet.contains ⦃e = eq_function_call⦄ l c ≡ true) (sym calls) r) in
          (inr (carry (call_of f args) recorded), λ c r. carry c (remembered c r))
    ]

    Handled-all :
        (f : PartialFunctionInfo) (fns : List PartialFunctionInfo) (z y : Stores × CollectorDomain)
        → Handled z.1 f
        → Remembers z.1 y.1
        → ((i : ℕ) (g : PartialFunctionInfo) → get_elem? fns i ≡ some g → Handled y.1 g)
        → (i : ℕ) (g : PartialFunctionInfo) → get_elem? (f ∷ fns) i ≡ some g
        → Handled y.1 g
    Handled-all f fns z y (inl e) later others zero g at =
        subst (Handled y.1) (some_injective at) (inl e)
    Handled-all f fns z y (inr r) later others zero g at =
        subst (Handled y.1) (some_injective at) (inr (later (call_of f args) r))
    Handled-all f fns z y handled later others (suc i) g at = others i g at

    each-Handled :
        (x : Stores × CollectorDomain) (fns : List PartialFunctionInfo)
        (y : Stores × CollectorDomain)
        → each (process_callee run_callee self args arg_tys destination) x fns ≡ ok y
        → ((i : ℕ) (f : PartialFunctionInfo) → get_elem? fns i ≡ some f → Handled y.1 f)
          × Remembers x.1 y.1
    each-Handled x [] y h =
        (λ i f at. absurd (cc), subst (λ q. Remembers x.1 q.1) (ok_injective h) (λ c r. r))
    each-Handled x (f ∷ fns) y h =
        let (z, here, rest) =
          >>=-split (process_callee run_callee self args arg_tys destination x f) _ h in
        let (handled, first) = process_callee-Handled x f z here in
        let (others, later) = each-Handled z fns y rest in
        (Handled-all f fns z y handled later others, λ c r. later c (first c r))

    -- What is recorded of a call for the plausible callees that were found.
    abbrev pub Accounts : DefId → CollectorDomain → Outcome (List PartialFunctionInfo) → Type 0
    Accounts def_id d (ok (f ∷ fns)) =
        (i : ℕ) (g : PartialFunctionInfo) → get_elem? (f ∷ fns) i ≡ some g → Handled d g
    Accounts def_id d (ok []) = Records d (without_body def_id args)
    Accounts def_id d (err _) = Records d (without_body def_id args)
    Accounts def_id d panic = ⊥
    Accounts def_id d out_of_fuel = ⊥

    process_plausible-Accounts :
        (def_id : DefId) (x : Stores × CollectorDomain) (fns : Outcome (List PartialFunctionInfo))
        (y : Stores × CollectorDomain)
        → process_plausible run_callee self def_id args arg_tys destination x fns ≡ ok y
        → Accounts def_id y.1 fns
    unfolding process_plausible call_without_body
    process_plausible-Accounts def_id x panic y h = absurd (cc)
    process_plausible-Accounts def_id x out_of_fuel y h = absurd (cc)
    process_plausible-Accounts def_id x (err _) y h =
        subst (λ q. Records q.1 (without_body def_id args)) (ok_injective h)
          (add_call-Records x.1 (without_body def_id args)).0
    process_plausible-Accounts def_id x (ok []) y h =
        subst (λ q. Records q.1 (without_body def_id args)) (ok_injective h)
          (add_call-Records x.1 (without_body def_id args)).0
    process_plausible-Accounts def_id x (ok (f ∷ fns)) y h = (each-Handled x (f ∷ fns) y h).0

    module _ ⦃itertools : Itertools⦄ where
      -- What is recorded of a call of a value of a type of this kind.
      abbrev pub AccountsFor : Stores → Ty → CollectorDomain → TyKind tcx.names → Type 0
      AccountsFor s ty d (Mir.fn_def def_id substs) =
          ((not (tcx.is_local def_id) && self.shallow) ≡ true)
          ⊎ Accounts def_id d (resolve self.current_function def_id substs arg_tys s.closures)
      AccountsFor s ty d k = HashSet.contains ⦃e = tcx.ty_eq⦄ d.unhandled ty ≡ true

      process_kind-AccountsFor :
          (ty : Ty) (k : TyKind tcx.names) (x y : Stores × CollectorDomain)
          → process_kind run_callee self ty k args arg_tys destination x ≡ ok y
          → AccountsFor x.0 ty y.1 k
      unfolding process_kind add_unhandled
      process_kind-AccountsFor ty (Mir.fn_def def_id substs) x y h =
          elim (Bool-cases (not (tcx.is_local def_id) && self.shallow)) [
            | inl e ↦ inl e
            | inr e ↦ inr (process_plausible-Accounts def_id x _ y (rw e at h))
          ]
      process_kind-AccountsFor ty k x y h =
          subst (λ q. HashSet.contains ⦃e = tcx.ty_eq⦄ q.1.unhandled ty ≡ true) (ok_injective h)
            (ground
              (arith, contains-insert ⦃e = tcx.ty_eq⦄ x.1.unhandled ty ty, tcx.ty_eq.beq_refl ty))

      -- When `process_call` returns, the call is accounted for. If the called type, with the
      -- substitutions of the current function, is not a function's, it is among the unhandled
      -- types. Else the callee is skipped as not local in a shallow run, or each plausible callee is
      -- under way or its call is recorded, or, if none is found, the call is recorded as one without
      -- body.
      pub process_call-AccountsFor :
          (function_ty : Ty) (x y : Stores × CollectorDomain)
          → process_call run_callee self function_ty args arg_tys destination x ≡ ok y
          → AccountsFor x.0
              (tcx.subst_mir (instance_of self.current_function) function_ty)
              y.1
              (kind (tcx.subst_mir (instance_of self.current_function) function_ty))
      unfolding process_call
      process_call-AccountsFor function_ty x y h = process_kind-AccountsFor _ _ x y h
