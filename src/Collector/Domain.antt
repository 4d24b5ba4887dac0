-- ===== src/Collector/Domain.antt =====
-- scrutils/src/collector/collector_domain.rs: the state of the dataflow analysis.
pub mod Join
pub mod Grows
pub mod Updates
pub mod Injections
use scrutinizer.Prelude.{
  ℕ, suc, Bool, true, false, ◌||◌, List, [], ◌∷◌, ◌++◌, map, Option, none, some, Outcome, ok, err,
  panic, ◌>>=◌, unwrap, expect, collect, each, any, length, drop, get_elem?, and_then, unwrap_or,
  enumerate_from, if◌then◌else◌,
}
use mathlib.Core.Option
use scrutinizer.Prelude.HashSet.{insert, extend}
use scrutinizer.Prelude.HashMap
use scrutinizer.Prelude.HashMap.{HashMap}
use scrutinizer.Rustc.Mir
use scrutinizer.Rustc.Mir.{deref, field, index, adt, closure, tuple, alias}
use scrutinizer.Rustc.Queries.{Tcx, Place, PlaceElem, PlaceTy, Operand, operand_place}
use scrutinizer.Common.TrackedTy.{TrackedTy, present, erased, from_ty, into_vec, try_map, join}
use scrutinizer.Common.NormalizedPlace.{NormalizedPlace, from_place, eq_normalized_place}
use scrutinizer.Common.ArgTys.{ArgTys}
use scrutinizer.Common.Function.{
  FunctionCall, FunctionInfo, info_with_body, info_without_body, ClosureInfo, eq_function_call,
}

module _ ⦃tcx : Tcx⦄ where
  open tcx use {Ty, DefId, Body, kind}

  -- `unwrap` on a field that is not there panics.
  unfoldable pub index_ty_field : PlaceTy → ℕ → Outcome PlaceElem
  index_ty_field place_ty field_idx = elim (kind place_ty.ty) [
    | adt adt_def adt_substs ↦ (do
      fixed_ty ←
          expect
            (tcx.variant_field adt_def adt_substs (unwrap_or place_ty.variant_index 0) field_idx)
      ok (field field_idx fixed_ty))
    | closure _ closure_substs ↦ (do
      fixed_ty ← expect (get_elem? (tcx.upvar_tys closure_substs) field_idx)
      ok (field field_idx fixed_ty))
    | tuple inner_tys ↦ (do
      fixed_ty ← expect (get_elem? inner_tys field_idx)
      ok (field field_idx fixed_ty))
    | _ ↦ err "field projection is not supported"
  ]

  -- The type whose field is taken: an alias stands for its self type.
  through_alias : PlaceTy → PlaceTy
  through_alias place_ty = elim (kind place_ty.ty) [
    | alias self_ty ↦ record { ty = self_ty; variant_index = place_ty.variant_index }
    | _ ↦ place_ty
  ]

  unfoldable pub refresh_and_project : PlaceTy → PlaceElem → Outcome PlaceTy
  unfolding through_alias
  refresh_and_project place_ty (field field_idx _) = do
    fixed_projection ← index_ty_field (through_alias place_ty) field_idx
    ok (tcx.projection_ty place_ty fixed_projection)
  refresh_and_project place_ty deref =
      if tcx.has_builtin_deref place_ty.ty
      then ok (tcx.projection_ty place_ty deref)
      else err "projecting is invalid"
  refresh_and_project place_ty (index i) =
      if tcx.has_builtin_index place_ty.ty
      then ok (tcx.projection_ty place_ty (index i))
      else err "projecting is invalid"
  refresh_and_project place_ty elem = ok (tcx.projection_ty place_ty elem)

  pub record CollectorDomain : Type 0 where
    pub places : HashMap NormalizedPlace TrackedTy
    pub calls : List FunctionCall
    pub unhandled : List Ty

  unfoldable pub new : HashMap NormalizedPlace TrackedTy → CollectorDomain
  new places = record { places = places; calls = []; unhandled = [] }

  unfoldable pub from_regular_fn_info : FunctionInfo → Outcome CollectorDomain
  from_regular_fn_info (info_with_body f) =
      ok (record { places = f.places; calls = f.calls; unhandled = f.unhandled })
  from_regular_fn_info (info_without_body _ _) = panic

  unfoldable pub get : CollectorDomain → NormalizedPlace → Option TrackedTy
  get self place = HashMap.get self.places place

  unfoldable pub set_places : CollectorDomain → HashMap NormalizedPlace TrackedTy → CollectorDomain
  set_places self places = record {
    places = places;
    calls = self.calls;
    unhandled = self.unhandled;
  }

  -- The projections that propagation reaches: those inside the place, and its dereference.
  unfoldable pub reached : NormalizedPlace → TrackedTy → Body → DefId → List Place
  reached place ty body def_id =
      tcx.interior_paths place.place body def_id
      ++ (if any tcx.is_ref (into_vec ty) then tcx.mk_place_elem place.place deref ∷ [] else [])

  -- The type that a projection of the place has when the place has the type.
  unfoldable pub project :
      NormalizedPlace → TrackedTy → Body → DefId → Place → Outcome (NormalizedPlace × TrackedTy)
  project place ty body def_id path =
      let interior_path = from_place path def_id in
      let projection_tail = drop (length place.place.projection) interior_path.place.projection in
      let variant_index = (tcx.place_ty place.place body).variant_index in
      (do
        transformed_ty ←
            try_map
              (λ t. (do
                place_ty ←
                    each refresh_and_project (record { ty = t; variant_index = variant_index })
                      projection_tail
                ok place_ty.ty))
              ty
        ok (interior_path, transformed_ty))

  -- `get_mut(&path).unwrap()`, joined with the type.
  unfoldable pub join_at : CollectorDomain → NormalizedPlace × TrackedTy → Outcome CollectorDomain
  join_at self (path, ty) = do
    old ← expect (HashMap.get self.places path)
    ok (set_places self (HashMap.modify self.places path (λ v. (join v ty).0)))

  unfoldable pub propagate :
      CollectorDomain → NormalizedPlace → TrackedTy → Body → DefId → Outcome CollectorDomain
  propagate self place ty body def_id = do
    paths ← collect (project place ty body def_id) (reached place ty body def_id)
    each join_at self paths

  unfoldable pub update_with :
      CollectorDomain → NormalizedPlace → TrackedTy → Body → DefId → Outcome CollectorDomain
  update_with self place tracked_ty body def_id = do
    written ← join_at self (place, tracked_ty)
    place_ty ← expect (HashMap.get written.places place)
    unwrap (propagate written place place_ty body def_id)

  -- `entry(place).and_modify(|place| place.join(ty)).or_insert(ty)`, then `propagate`.
  unfoldable pub inject :
      Body → DefId → CollectorDomain → NormalizedPlace × TrackedTy → Outcome CollectorDomain
  inject body def_id self (place, ty) = unwrap (
      propagate (set_places self (HashMap.upsert self.places place (λ v. (join v ty).0) ty)) place
        ty body def_id)

  -- The place of the captured variable `i` in the closure's body.
  unfoldable pub upvar_place : Body → DefId → ℕ → NormalizedPlace
  upvar_place body def_id i =
      let captured = field i tcx.unit_ty in
      let projection =
        if tcx.is_ref (tcx.local_ty body 1) then deref ∷ captured ∷ [] else captured ∷ [] in
      from_place (record { local = 1; projection = projection }) def_id

  unfoldable pub augment_closure_with_upvars :
      CollectorDomain → ClosureInfo → Body → DefId → Outcome CollectorDomain
  augment_closure_with_upvars self closure_info body def_id =
      each (inject body def_id) self
        (map (λ p. (upvar_place body def_id p.0, p.1)) (enumerate_from 0 closure_info.upvars))

  unfoldable pub arg_place : DefId → ℕ → NormalizedPlace
  arg_place def_id i = from_place (record { local = suc i; projection = [] }) def_id

  unfoldable pub augment_with_args :
      CollectorDomain → ArgTys → Body → DefId → Outcome CollectorDomain
  augment_with_args self arg_tys body def_id = each (inject body def_id) self (
      map (λ p. (arg_place def_id p.0, p.1))
        (drop (if tcx.is_closure def_id then 1 else 0) (enumerate_from 0 arg_tys.arg_tys)))

  unfoldable pub return_type : CollectorDomain → DefId → Body → Outcome TrackedTy
  return_type self def_id body =
      let return_place = from_place (record { local = 0; projection = [] }) def_id in
      let provided = from_ty ((tcx.place_ty return_place.place body).ty) in
      (do
        inferred ← expect (HashMap.get self.places return_place)
        ok (elim provided [ present ty ↦ present ty | erased _ ↦ inferred ]))

  unfoldable pub construct_args : CollectorDomain → List Operand → DefId → Body → ArgTys
  construct_args self args def_id body = record {
    arg_tys =
        map
          (λ a.
            unwrap_or (and_then (operand_place a) (λ p. get self (from_place p def_id)))
              (from_ty (tcx.operand_ty a body)))
          args;
  }

  unfoldable pub add_call : CollectorDomain → FunctionCall → CollectorDomain
  add_call self c = record {
    places = self.places;
    calls = (insert ⦃e = eq_function_call⦄ self.calls c).0;
    unhandled = self.unhandled;
  }

  unfoldable pub add_unhandled : CollectorDomain → Ty → CollectorDomain
  add_unhandled self ty = record {
    places = self.places;
    calls = self.calls;
    unhandled = (insert ⦃e = tcx.ty_eq⦄ self.unhandled ty).0;
  }

  -- The loop over the other state's places; `unwrap` on a place that this state lacks.
  unfoldable pub join_places :
      HashMap NormalizedPlace TrackedTy
      → HashMap NormalizedPlace TrackedTy
      → Outcome (HashMap NormalizedPlace TrackedTy × Bool)
  join_places self [] = ok (self, false)
  join_places self ((key, other_value) ∷ others) = do
    self_value ← expect (HashMap.get self key)
    (joined, updated) ←
        join_places (HashMap.modify self key (λ _. (join self_value other_value).0)) others
    ok (joined, (join self_value other_value).1 || updated)

  unfoldable pub join_domain : CollectorDomain → CollectorDomain → Outcome (CollectorDomain × Bool)
  join_domain self other =
      let (calls, updated_calls) = extend ⦃e = eq_function_call⦄ self.calls other.calls in
      let (unhandled, updated_unhandled) = extend ⦃e = tcx.ty_eq⦄ self.unhandled other.unhandled in
      (do
        (places, updated_places) ← join_places self.places other.places
        ok (
          record { places = places; calls = calls; unhandled = unhandled },
          updated_places || (updated_calls || updated_unhandled),
        ))
