-- ===== src/Tests.antt =====
-- The shared data, the important locals, the artifacts and the heuristics on small inputs.
use scrutinizer.Prelude.{
  ℕ, true, false, ◌≡◌, ◌↔◌, ◌+◌, ◌<◌, refl, List, [], ◌∷◌, ok, length, get_elem?, arith,
}
use scrutinizer.Prelude.Eq.{nat_eq}
use scrutinizer.Prelude.HashSet.{contains}
use scrutinizer.Rustc.Mir.{copy, field}
use scrutinizer.Rustc.Queries.{Operand}
use scrutinizer.Sample.{sample, flow, local_place}
use scrutinizer.Common.TrackedTy.{present, erased, join, transpose}
use scrutinizer.Common.TrackedTy.Transpose.{column, transpose_returns}
use scrutinizer.Common.NormalizedPlace.{
  NormalizedPlace, same_place, same_elem, hash, inputs_eq, hash-same_place,
}
use scrutinizer.Common.Function.{FunctionInfo, info_without_body}
use scrutinizer.Important.Compute.{ImportantLocals}
use scrutinizer.Important.Transition.{important_args_to_callee}
use scrutinizer.Important.Passed.{passes, important_args_to_callee_lem}
use scrutinizer.Analyzer.Heuristics.RawPtr.{HasRawPtrDeref, has_raw_ptr_deref_exact}
use scrutinizer.Analyzer.Heuristics.Transmutes.{HasTransmute, has_transmute_exact}
use scrutinizer.Analyzer.Heuristics.{
  has_transmute, has_raw_ptr_deref, contains_mut_ref, visit_ty, adt_fields,
}
use scrutinizer.Analyzer.Heuristics.MutRef.{
  self, HasMutRef, contains_mut_ref_lem, contains_mut_ref-recursive,
}
use scrutinizer.Collector.VirtualStack.{
  VirtualStack, VirtualStackItem, push, item_eq, contains as is_on,
}

abbrev table : List (List ℕ)
table = (3 ∷ 4 ∷ 5 ∷ []) ∷ []

abbrev columns : List (List ℕ)
columns = (1 ∷ 3 ∷ []) ∷ (2 ∷ 4 ∷ []) ∷ []

transposed : transpose ((1 ∷ 2 ∷ []) ∷ table) ≡ ok columns
unfolding transpose
transposed = refl

transpose_returns_example :
    (cols : List (List ℕ)) × (transpose ((1 ∷ 2 ∷ []) ∷ table) ≡ ok cols)
    × (length cols ≡ 2)
    × ((j : ℕ) → j < 2 → get_elem? cols j ≡ column j ((1 ∷ 2 ∷ []) ∷ table))
transpose_returns_example = transpose_returns (1 ∷ 2 ∷ []) table (omega arith, tt)

-- Field 0 of local 1, at two types.
abbrev field_at : ℕ → NormalizedPlace
field_at ty = record { place = record { local = 1; projection = field 0 ty ∷ [] } }

hash-same_place_example : inputs_eq (hash (field_at 1)) (hash (field_at 2)) ≡ true
unfolding same_place same_elem
hash-same_place_example = hash-same_place (field_at 1) (field_at 2) refl

abbrev leaf : FunctionInfo
leaf = info_without_body 1 []

abbrev item : ℕ → VirtualStackItem
item d = record { def_id = d; tracked_args = record { arg_tys = present 1 ∷ [] } }

abbrev stack : VirtualStack
stack = record { stack = item 1 ∷ [] }

pushed_is_on : is_on (push stack (item 2)) (item 2) ≡ true
unfolding is_on push item_eq scrutinizer.Common.TrackedTy.tracked_eq
pushed_is_on = refl

abbrev args : List Operand
args = copy (local_place 2) ∷ copy (local_place 1) ∷ []

abbrev important : ImportantLocals
important = record { locals = 1 ∷ [] }

important_args_to_callee_lem_example :
    (out : List ℕ) × (important_args_to_callee important args 1 ≡ ok out)
    × ((j : ℕ) → contains out (j + 1) ≡ passes important args j)
    × (contains out 0 ≡ false)
important_args_to_callee_lem_example = important_args_to_callee_lem important args 1 refl

contains_mut_ref_lem_example : (true ≡ true) ↔ HasMutRef 10
unfolding contains_mut_ref visit_ty adt_fields
contains_mut_ref_lem_example = contains_mut_ref_lem 3 10 true refl

contains_mut_ref-recursive_example : ¬ (contains_mut_ref 5 7 ≡ ok false)
unfolding adt_fields
contains_mut_ref-recursive_example = contains_mut_ref-recursive 5 7 7 0 false refl (self 7)

has_raw_ptr_deref_exact_example : (has_raw_ptr_deref 3 ≡ true) ↔ HasRawPtrDeref 3
has_raw_ptr_deref_exact_example = has_raw_ptr_deref_exact 3

transmute_found : has_transmute 3 12 ≡ ok true
unfolding has_transmute contains_mut_ref visit_ty adt_fields
transmute_found = refl

has_transmute_exact_example : (true ≡ true) ↔ HasTransmute (sample.blocks 12)
has_transmute_exact_example = has_transmute_exact 3 12 true transmute_found
