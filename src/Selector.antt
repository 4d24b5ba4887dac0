-- ===== src/Selector.antt =====
-- scrutils/src/selector: function.rs and ppr.rs, the functions that are analysed.
use scrutinizer.Prelude.{
  Bool, true, false, not, ◌&&◌, ◌≡◌, refl, sym, ap, arith, List, [], ◌∷◌, map, Option, none, some,
  All, concat, All-concat, subst, ok_injective, >>=-split, if_split, Outcome, ok, panic, ◌>>=◌,
  expect, collect, any, keep, filter_map, get_elem?, unwrap_or, if◌then◌else◌,
}
use mathlib.Core.Option
use scrutinizer.Prelude.Eq.{◌==◌, string_eq}
use scrutinizer.Rustc.Mir.{
  lifetime, GenericArgKind, TyKind, fn_def, closure, call, TerminatorKind, BasicBlock,
}
use scrutinizer.Rustc.Queries.{Tcx}

module _ ⦃tcx : Tcx⦄ where
  open tcx use {Ty, DefId, Instance, Body, kind}

  unfoldable pub annotated_pure : DefId → Bool
  annotated_pure def_id =
      unwrap_or (Option.map (λ symbol. symbol == "pure") (tcx.doc_str def_id)) false

  not_lifetime : GenericArgKind tcx.names → Bool
  not_lifetime lifetime = false
  not_lifetime _ = true

  unfoldable pub has_generics : DefId → Bool
  unfolding not_lifetime
  has_generics def_id = any (λ p. not_lifetime (tcx.unpack p)) (tcx.identity_args def_id)

  unfoldable pub select_item : DefId → Option (Instance × Bool)
  select_item def_id =
      if tcx.is_fn_item def_id
      then (if has_generics def_id then none else some (tcx.mono def_id, annotated_pure def_id))
      else none

  unfoldable pub select_functions : List (Instance × Bool)
  select_functions = filter_map select_item tcx.items

  -- The functions without type and const parameters, in the order of the items.
  abbrev pub is_selected : DefId → Bool
  is_selected d = tcx.is_fn_item d && not (has_generics d)

  selected :
      (items : List DefId)
      → filter_map select_item items
        ≡ map (λ d. (tcx.mono d, annotated_pure d)) (keep is_selected items)
  unfolding select_item
  selected [] = refl
  selected (d ∷ items) = ground (arith, selected items)

  -- `select_functions` selects exactly the function items that have no type and no const
  -- parameter, in their order, each with whether its `doc` attribute reads `pure`.
  pub select_functions_lem :
      select_functions ≡ map (λ d. (tcx.mono d, annotated_pure d)) (keep is_selected tcx.items)
  unfolding select_functions
  select_functions_lem = selected tcx.items

  -- The path of `PrivacyPureRegion::new`.
  is_ppr_new : TyKind tcx.names → Bool
  is_ppr_new (fn_def def_id _) =
      tcx.def_path_str def_id == "alohomora::pure::PrivacyPureRegion::<F>::new"
  is_ppr_new _ = false

  -- `args[0]` panics on a call without arguments.
  unfoldable pub visit_terminator : Body → TerminatorKind tcx.names → Outcome (List Ty)
  unfolding is_ppr_new
  visit_terminator body (call func args _) =
      let pushed : Outcome (List Ty) = (do
        ppr ← expect (get_elem? args 0)
        ok (tcx.operand_ty ppr body ∷ [])) in
      if is_ppr_new (kind (tcx.operand_ty func body)) then pushed else ok []
  visit_terminator body _ = ok []

  unfoldable pub collect_pprs : Body → Outcome (List Ty)
  collect_pprs body = do
    pushed ← collect (λ b. visit_terminator body (BasicBlock.terminator b)) (tcx.blocks body)
    ok (concat pushed)

  -- Panics on a region that is not given as a closure.
  instance_of_kind : TyKind tcx.names → Outcome (Instance × Bool)
  instance_of_kind (closure def_id substs) = do
    instance_ ← tcx.expect_resolve def_id substs
    ok (instance_, true)
  instance_of_kind _ = panic

  unfoldable pub instance_of_ppr : Ty → Outcome (Instance × Bool)
  unfolding instance_of_kind
  instance_of_ppr ppr = instance_of_kind (kind ppr)

  unfoldable pub pprs_of_body : DefId → Outcome (List (Instance × Bool))
  pprs_of_body def_id =
      let found : Outcome (List (Instance × Bool)) = (do
        pprs ← collect_pprs (tcx.optimized_mir def_id)
        collect instance_of_ppr pprs) in
      if tcx.is_const_context def_id then ok [] else found

  unfoldable pub select_pprs : Outcome (List (Instance × Bool))
  select_pprs = do selected_pprs ← collect pprs_of_body tcx.mir_keys; ok (concat selected_pprs)

  kind_annotated :
      (k : TyKind tcx.names) (p : Instance × Bool) → instance_of_kind k ≡ ok p → p.1 ≡ true
  unfolding instance_of_kind
  kind_annotated (closure def_id substs) p h =
      let (i, _, same) = >>=-split (tcx.expect_resolve def_id substs) _ h in
      sym (ap (λ q. q.1) (ok_injective same))
  kind_annotated k p h = absurd (cc)

  instances_annotated :
      (pprs : List Ty) (out : List (Instance × Bool))
      → collect instance_of_ppr pprs ≡ ok out
      → All (λ p. p.1 ≡ true) out
  instances_annotated [] out h = subst (All (λ p. p.1 ≡ true)) (ok_injective h) tt
  instances_annotated (ppr ∷ pprs) out h =
      let (p, e, h1) = >>=-split (instance_of_ppr ppr) _ h in
      let (ps, e1, h2) = >>=-split (collect instance_of_ppr pprs) _ h1 in
      subst (All (λ q. q.1 ≡ true)) (ok_injective h2)
        (kind_annotated (kind ppr) p (unfold instance_of_ppr in e), instances_annotated pprs ps e1)

  body_annotated :
      (def_id : DefId) (out : List (Instance × Bool))
      → pprs_of_body def_id ≡ ok out
      → All (λ p. p.1 ≡ true) out
  unfolding pprs_of_body
  body_annotated def_id out h =
      if_split (tcx.is_const_context def_id) (ok []) _
        (λ e. subst (All (λ p. p.1 ≡ true)) (ok_injective e) tt)
        (λ e.
          (let (pprs, _, rest) = >>=-split (collect_pprs (tcx.optimized_mir def_id)) _ e in
            instances_annotated pprs out rest))
        h

  bodies_annotated :
      (keys : List DefId) (out : List (List (Instance × Bool)))
      → collect pprs_of_body keys ≡ ok out
      → All (All (λ p. p.1 ≡ true)) out
  bodies_annotated [] out h = subst (All (All (λ p. p.1 ≡ true))) (ok_injective h) tt
  bodies_annotated (key ∷ keys) out h =
      let (p, e, h1) = >>=-split (pprs_of_body key) _ h in
      let (ps, e1, h2) = >>=-split (collect pprs_of_body keys) _ h1 in
      subst (All (All (λ q. q.1 ≡ true))) (ok_injective h2)
        (body_annotated key p e, bodies_annotated keys ps e1)

  -- When `select_pprs` returns, every selected instance is annotated as pure.
  select_pprs_annotated :
      (out : List (Instance × Bool)) → select_pprs ≡ ok out → All (λ p. p.1 ≡ true) out
  unfolding select_pprs
  select_pprs_annotated out h =
      let (found, e, h1) = >>=-split (collect pprs_of_body tcx.mir_keys) _ h in
      subst (All (λ p. p.1 ≡ true)) (ok_injective h1)
        (All-concat (λ p. p.1 ≡ true) found (bodies_annotated tcx.mir_keys found e))
