-- ===== src/Analyzer/Heuristics.antt =====
-- scrutils/src/analyzer/heuristics: raw pointers written through, and transmutes to `&mut`.
pub mod Cleaned
pub mod RawPtr
pub mod Transmutes
pub mod MutRef
use scrutinizer.Prelude.{
  ℕ, zero, suc, Bool, true, false, ◌&&◌, List, [], ◌∷◌, ◌++◌, Option, none, some, Outcome, ok,
  out_of_fuel, ◌>>=◌, expect, each, any, if◌then◌else◌,
}
use scrutinizer.Rustc.Mir.{
  Mutability, mut_, deref, assign, ref_of, call, adt, StatementKind, TerminatorKind, BasicBlock,
}
use scrutinizer.Rustc.Queries.{Tcx, Place, PlaceElem}

abbrev pub is_mut : Option Mutability → Bool
is_mut (some mut_) = true
is_mut _ = false

module _ ⦃tcx : Tcx⦄ where
  open tcx use {Ty, Body}

  -- `iter_projections`: each projection with the place that it is applied to.
  iter_from : ℕ → List PlaceElem → List PlaceElem → List (Place × PlaceElem)
  iter_from local before [] = []
  iter_from local before (e ∷ es) =
      (record { local = local; projection = before }, e) ∷ iter_from local (before ++ e ∷ []) es

  -- A dereference of a raw pointer that can be written through.
  derefs_raw : Body → Place × PlaceElem → Bool
  derefs_raw body (base, deref) =
      let ty = (tcx.place_ty base body).ty in tcx.is_unsafe_ptr ty && tcx.is_mutable_ptr ty
  derefs_raw body (base, _) = false

  unfoldable pub place_derefs_raw : Body → Place → Bool
  unfolding iter_from derefs_raw
  place_derefs_raw body p = any (derefs_raw body) (iter_from p.local [] p.projection)

  unfoldable pub statement_derefs_raw : Body → StatementKind tcx.names → Bool
  unfolding place_derefs_raw
  statement_derefs_raw body (assign p (ref_of _ mut_ borrowed)) =
      if place_derefs_raw body p then true else place_derefs_raw body borrowed
  statement_derefs_raw body (assign p _) = place_derefs_raw body p
  statement_derefs_raw body _ = false

  unfoldable pub has_raw_ptr_deref : Body → Bool
  unfolding statement_derefs_raw
  has_raw_ptr_deref body =
      any (λ (b : BasicBlock tcx.names). any (statement_derefs_raw body) b.statements)
        (tcx.blocks body)

  -- The types that `visit_ty` goes into before it looks at the type itself.
  unfoldable pub adt_fields : Ty → List Ty
  adt_fields ty = elim (tcx.kind ty) [ adt def substs ↦ tcx.all_fields def substs | _ ↦ [] ]

  -- `ContainsMutRefVisitor::visit_ty`, which threads the flag; the source has no bound on the depth.
  unfoldable pub visit_ty : ℕ → Bool → Ty → Outcome Bool
  unfolding adt_fields
  visit_ty zero has_mut_ref ty = out_of_fuel
  visit_ty (suc n) has_mut_ref ty = do
    in_fields ← each (visit_ty n) has_mut_ref (adt_fields ty)
    each (visit_ty n) (if is_mut (tcx.ref_mutability ty) then true else in_fields)
        (tcx.components ty)

  unfoldable pub contains_mut_ref : ℕ → Ty → Outcome Bool
  unfolding visit_ty
  contains_mut_ref depth ty = visit_ty depth false ty

  -- `visit_terminator`; the second generic argument of a transmute is a type, else it panics.
  unfoldable pub terminator_transmutes : ℕ → Bool → TerminatorKind tcx.names → Outcome Bool
  unfolding contains_mut_ref
  terminator_transmutes depth found (call func _ _) = elim (tcx.const_fn_def func) [
    | some (def_id, generic_args) ↦
        if tcx.is_match tcx.transmute_def_path (tcx.debug_def_id def_id)
        then (do
          target ← expect (tcx.second_type generic_args)
          has_mut_ref ← contains_mut_ref depth target
          ok (if has_mut_ref then true else found))
        else ok found
    | none ↦ ok found
  ]
  terminator_transmutes depth found _ = ok found

  unfoldable pub has_transmute : ℕ → Body → Outcome Bool
  unfolding terminator_transmutes
  has_transmute depth body =
      each (λ found (b : BasicBlock tcx.names). terminator_transmutes depth found b.terminator)
        false (tcx.blocks body)
