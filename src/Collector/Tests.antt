-- ===== src/Collector/Tests.antt =====
-- The collector on the sample bodies, and the state of the analysis on small maps.
use scrutinizer.Prelude.{
  List, ℕ, Bool, true, false, ◌≡◌, ◌↔◌, ◌||◌, ◌<◌, ◌≤◌, refl, [], ◌∷◌, some, ok, panic, get_elem?,
  if◌then◌else◌,
}
use scrutinizer.Prelude.HashSet.{from_iter, extend, insert, contains}
use scrutinizer.Prelude.HashMap
use scrutinizer.Rustc.Mir.{copy, field}
use scrutinizer.Rustc.Queries.{elem_eq, place_eq, operand_eq}
use scrutinizer.Sample.{sample, flow, local_place}
use scrutinizer.SampleEngine.{engine, products}
use scrutinizer.Common.TrackedTy.{
  TrackedTy, present, erased, from_ty, into_vec, join, try_map, contains_erased,
}
use scrutinizer.Common.NormalizedPlace.{
  NormalizedPlace, from_place, same_place, same_elem, eq_normalized_place,
}
use scrutinizer.Common.Function.{FunctionCall, with_body, call_eq, eq_function_call, ClosureInfo}
use scrutinizer.Common.ArgTys.{ArgTys}
use scrutinizer.Rustc.Mir
use scrutinizer.BodyCache.{substituted_mir, load_body_and_facts}
use scrutinizer.Common.Storage.Closures
use scrutinizer.Common.Storage.Closures.{ClosureInfoStorage}
use scrutinizer.Common.Storage.Captured.{KeepsAll, update_with-KeepsAll}
use scrutinizer.Collector.HasTrackedTy.{
  rvalue_tracked_ty, aggregate_tracked_ty, operand_tracked_ty, place_tracked_ty,
}
use scrutinizer.Collector.HasTrackedTy.Recorded.{rvalue_tracked_ty-KeepsAll}
use scrutinizer.Collector.Domain
use scrutinizer.Collector.Domain.{
  CollectorDomain, join_domain, join_places, update_with, join_at, propagate, set_places, reached,
  project, augment_with_args, augment_closure_with_upvars, inject, arg_place, upvar_place,
  refresh_and_project,
}
use scrutinizer.Collector.Domain.Join.{Joined, join_domain_exact, join_domain_returns, tracks}
use scrutinizer.Collector.Domain.Grows.{size_of, join_domain_flag}
use scrutinizer.Collector.Domain.Updates.{Grows, Takes, update_with-Grows}
use scrutinizer.Collector.Domain.Injections.{
  augment_with_args-Grows, augment_closure_with_upvars-Grows,
}

-- What the state computes through.
tracking : Unit {0}
unfolding join_domain join_places HashMap.get HashMap.modify HashMap.upsert join insert extend
    contains from_iter update_with join_at propagate set_places reached project from_place
    same_place same_elem into_vec try_map from_ty contains_erased augment_with_args inject arg_place
    upvar_place augment_closure_with_upvars refresh_and_project elem_eq place_eq operand_eq call_eq
    Domain.get
tracking = tt

abbrev at : ℕ → NormalizedPlace
at i = record { place = local_place i }

abbrev one_call : FunctionCall
one_call = with_body 1 (copy (local_place 1) ∷ [])

abbrev first_state : CollectorDomain
first_state = record {
  places = (at 1, erased (7 ∷ [])) ∷ (at 2, present 1) ∷ [];
  calls = [];
  unhandled = 9 ∷ [];
}

abbrev other_state : CollectorDomain
other_state = record {
  places = (at 2, present 11) ∷ (at 1, present 1) ∷ [];
  calls = one_call ∷ [];
  unhandled = 9 ∷ [];
}

abbrev joined_state : CollectorDomain
joined_state = record {
  places = (at 1, erased (7 ∷ 1 ∷ [])) ∷ (at 2, present 1) ∷ [];
  calls = one_call ∷ [];
  unhandled = 9 ∷ [];
}

states_joined : join_domain first_state other_state ≡ ok (joined_state, true)
unfolding tracking
states_joined = refl

join_domain_exact_example :
    ((p : NormalizedPlace) (t : TrackedTy)
      → HashMap.get first_state.places p ≡ some t
      → Joined other_state.places t joined_state.places p)
    × ((c : FunctionCall)
        → contains ⦃e = eq_function_call⦄ joined_state.calls c ≡ (
            contains ⦃e = eq_function_call⦄ first_state.calls c
            || contains ⦃e = eq_function_call⦄ other_state.calls c))
    × ((ty : ℕ)
        → contains ⦃e = sample.ty_eq⦄ joined_state.unhandled ty ≡ (
            contains ⦃e = sample.ty_eq⦄ first_state.unhandled ty
            || contains ⦃e = sample.ty_eq⦄ other_state.unhandled ty))
join_domain_exact_example =
    join_domain_exact first_state other_state (joined_state, true) states_joined

join_domain_flag_example :
    ((true ≡ false) ↔ (joined_state ≡ first_state))
    × (true ≡ true → size_of first_state < size_of joined_state)
join_domain_flag_example =
    join_domain_flag first_state other_state (joined_state, true) states_joined

join_domain_returns_example :
    (tracks first_state.places other_state.places ≡ true
      → (r : CollectorDomain × Bool) × (join_domain first_state other_state ≡ ok r))
    × (tracks first_state.places other_state.places ≡ false
        → join_domain first_state other_state ≡ panic)
join_domain_returns_example = join_domain_returns first_state other_state

abbrev written_state : CollectorDomain
written_state = record {
  places = (at 1, erased (7 ∷ 1 ∷ [])) ∷ (at 2, present 1) ∷ [];
  calls = [];
  unhandled = 9 ∷ [];
}

place_written : update_with first_state (at 1) (present 1) 0 0 ≡ ok written_state
unfolding tracking
place_written = refl

update_with-Grows_example :
    Grows first_state written_state × Takes first_state written_state (at 1) (present 1)
update_with-Grows_example =
    update_with-Grows first_state written_state (at 1) (present 1) 0 0 place_written

-- The arguments of the closure 8: itself, and a `bool`.
abbrev closure_args : ArgTys
closure_args = record { arg_tys = present 8 ∷ present 1 ∷ [] }

abbrev entry_state : CollectorDomain
entry_state = record {
  places = (at 1, erased (7 ∷ [])) ∷ (at 2, erased (7 ∷ [])) ∷ [];
  calls = [];
  unhandled = [];
}

abbrev entered_state : CollectorDomain
entered_state = record {
  places = (at 1, erased (7 ∷ [])) ∷ (at 2, erased (7 ∷ 1 ∷ [])) ∷ [];
  calls = [];
  unhandled = [];
}

args_injected : augment_with_args entry_state closure_args 0 8 ≡ ok entered_state
unfolding tracking
args_injected = refl

augment_with_args-Grows_example :
    Grows entry_state entered_state
    × ((i : ℕ) (ty : TrackedTy)
        → get_elem? closure_args.arg_tys i ≡ some ty
        → (if sample.is_closure 8 then 1 else 0) ≤ i
        → Takes entry_state entered_state (arg_place 8 i) ty)
    × ((first other : TrackedTy) (rest : List TrackedTy)
        → closure_args.arg_tys ≡ first ∷ rest
        → sample.is_closure 8 ≡ true
        → augment_with_args entry_state (record { arg_tys = other ∷ rest }) 0 8 ≡ ok entered_state)
    × ((first : TrackedTy)
        → closure_args.arg_tys ≡ first ∷ []
        → sample.is_closure 8 ≡ true
        → entered_state ≡ entry_state)
augment_with_args-Grows_example =
    augment_with_args-Grows entry_state entered_state closure_args 0 8 args_injected

abbrev captures : ClosureInfo
captures = record { with_substs = 8; upvars = present 1 ∷ [] }

abbrev captured_state : CollectorDomain
captured_state = record {
  places =
      (at 1, erased (7 ∷ []))
      ∷ (at 2, present 1)
      ∷ (record { place = record { local = 1; projection = field 0 0 ∷ [] } }, present 1)
      ∷ [];
  calls = [];
  unhandled = 9 ∷ [];
}

upvars_injected : augment_closure_with_upvars first_state captures 0 8 ≡ ok captured_state
unfolding tracking
upvars_injected = refl

augment_closure_with_upvars-Grows_example :
    Grows first_state captured_state
    × ((i : ℕ) (ty : TrackedTy)
        → get_elem? captures.upvars i ≡ some ty
        → Takes first_state captured_state (upvar_place 0 8 i) ty)
augment_closure_with_upvars-Grows_example =
    augment_closure_with_upvars-Grows first_state captured_state captures 0 8 upvars_injected

abbrev closures_with : TrackedTy → ClosureInfoStorage
closures_with t = record { closures = (8, record { with_substs = 8; upvars = t ∷ [] }) ∷ [] }

closure_updated :
    Closures.update_with (closures_with (erased (1 ∷ []))) 8 0 (present 3 ∷ [])
    ≡ ok (closures_with (erased (1 ∷ 3 ∷ [])))
unfolding tracking Closures.update_with Closures.update_kind Closures.update_entry Closures.get
    Closures.merge_upvars
closure_updated = refl

update_with-KeepsAll_example :
    KeepsAll (closures_with (erased (1 ∷ []))) (closures_with (erased (1 ∷ 3 ∷ [])))
update_with-KeepsAll_example =
    update_with-KeepsAll (closures_with (erased (1 ∷ []))) (closures_with (erased (1 ∷ 3 ∷ []))) 8 0
      (present 3 ∷ []) closure_updated

abbrev makes_closure : Mir.Rvalue sample.names
makes_closure = Mir.aggregate (Mir.closure_aggregate 8 0) (copy (local_place 1) ∷ [])

closure_made :
    rvalue_tracked_ty first_state 0 (closures_with (erased (1 ∷ []))) makes_closure
    ≡ ok (present 8, closures_with (erased (1 ∷ 7 ∷ [])))
unfolding tracking rvalue_tracked_ty aggregate_tracked_ty operand_tracked_ty place_tracked_ty
    substituted_mir load_body_and_facts Closures.update_with Closures.update_kind
    Closures.update_entry Closures.get Closures.merge_upvars
closure_made = refl

rvalue_tracked_ty-KeepsAll_example :
    KeepsAll (closures_with (erased (1 ∷ []))) (closures_with (erased (1 ∷ 7 ∷ [])))
rvalue_tracked_ty-KeepsAll_example =
    rvalue_tracked_ty-KeepsAll first_state 0 (closures_with (erased (1 ∷ []))) makes_closure
      (present 8, closures_with (erased (1 ∷ 7 ∷ []))) closure_made
