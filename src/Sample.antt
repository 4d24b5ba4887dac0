-- ===== src/Sample.antt =====
-- A small compiler for the tests: types, definitions, instances and bodies are numbers.
use scrutinizer.Prelude.{
  ℕ, String, true, false, List, [], ◌∷◌, ◌++◌, map, none, some, Outcome, ok, err, panic, inl,
  nat_eqb, if◌then◌else◌,
}
use scrutinizer.Prelude.Eq.{nat_eq, ◌==◌, string_eq}
use scrutinizer.Rustc.Names.{Names}
use scrutinizer.Rustc.Mir.{
  mut_, not_mut, other_def_kind, TyKind, dynamic, other_ty, raw_ptr, ref, adt, closure, fn_def,
  tuple, type_arg, item, StatementKind, TerminatorKind, Place, Operand, constant, copy, call,
  BasicBlock, assign, ref_of, deref, other_terminator, nop, fake_read,
}
use scrutinizer.Rustc.Queries.{Tcx}
use scrutinizer.Flowistry.{Flowistry}

abbrev pub names : Names
names = record {
  Ty = ℕ;
  DefId = ℕ;
  CrateNum = ℕ;
  Instance = ℕ;
  GenericArgs = ℕ;
  GenericArg = ℕ;
  AdtDef = ℕ;
  Region = ℕ;
  Const = ℕ;
  Body = ℕ;
  Span = ℕ;
  OtherElem = ℕ;
  FilePath = String;
  Facts = ℕ;
  Regex = String;
}

-- 1: `bool`, 2: `&mut bool`, 3: `&bool`, 4: `*mut bool`, 5: `dyn Trait`, 6: `(bool, &mut bool)`,
-- 7: a struct that holds itself, 8: a closure, 9: a function, 10: a struct with a `&mut bool`,
-- 11: `(bool, bool, bool)`, 13: the function that makes a privacy region.
abbrev pub kind_of : ℕ → TyKind names
kind_of t =
    if nat_eqb t 2
    then ref 1 mut_
    else if nat_eqb t 3
    then ref 1 not_mut
    else if nat_eqb t 4
    then raw_ptr 1 mut_
    else if nat_eqb t 5
    then dynamic
    else if nat_eqb t 6
    then tuple (1 ∷ 2 ∷ [])
    else if nat_eqb t 7
    then adt 7 0
    else if nat_eqb t 8
    then closure 8 0
    else if nat_eqb t 9
    then fn_def 1 0
    else if nat_eqb t 10
    then adt 10 0
    else if nat_eqb t 11
    then tuple (1 ∷ 1 ∷ 1 ∷ [])
    else if nat_eqb t 13
    then fn_def 6 0
    else other_ty

abbrev pub fields_of : ℕ → Outcome (List ℕ)
fields_of t =
    if nat_eqb t 6 then ok (1 ∷ 2 ∷ []) else if nat_eqb t 11 then ok (1 ∷ 1 ∷ 1 ∷ []) else panic

abbrev pub components_of : ℕ → List ℕ
components_of t =
    if nat_eqb t 2
    then 1 ∷ []
    else if nat_eqb t 3
    then 1 ∷ []
    else if nat_eqb t 6
    then 1 ∷ 2 ∷ []
    else if nat_eqb t 11
    then 1 ∷ 1 ∷ 1 ∷ []
    else []

abbrev pub one_block : List (StatementKind names) → TerminatorKind names → List (BasicBlock names)
one_block statements terminator = record { statements = statements; terminator = terminator } ∷ []

abbrev pub local_place : ℕ → Place names
local_place i = record { local = i; projection = [] }

-- A mutable borrow of what the raw pointer in local 2 points to.
abbrev pub raw_write : StatementKind names
raw_write = assign (local_place 1) (ref_of 0 mut_ (record { local = 2; projection = deref ∷ [] }))

-- Body 3 borrows what a raw pointer (local 2) points to as mutable; bodies 4 and 6 call the function 1, and
-- body 5 makes a privacy region of the closure 8. Body 8 is body 7 without its fake read, and body 12
-- calls the function 14, which transmutes to `&mut bool`.
abbrev pub blocks_of : ℕ → List (BasicBlock names)
blocks_of b =
    if nat_eqb b 3
    then one_block (raw_write ∷ []) other_terminator
    else if nat_eqb b 4
    then one_block [] (call (constant 9) (copy (local_place 1) ∷ []) (local_place 0))
    else if nat_eqb b 6
    then one_block [] (call (constant 9) (copy (local_place 1) ∷ []) (local_place 0))
    else if nat_eqb b 5
    then one_block [] (call (constant 13) (constant 8 ∷ []) (local_place 0))
    else if nat_eqb b 7
    then one_block (fake_read ∷ raw_write ∷ []) other_terminator
    else if nat_eqb b 8
    then one_block (nop ∷ raw_write ∷ []) other_terminator
    else if nat_eqb b 12
    then one_block [] (call (constant 14) [] (local_place 0))
    else one_block (nop ∷ []) other_terminator

abbrev pub operand_type : Operand names → ℕ
operand_type (constant c) = c
operand_type _ = 1

instance abbrev pub sample : Tcx
sample = record {
  names = names;
  ty_eq = nat_eq;
  def_id_eq = nat_eq;
  crate_num_eq = nat_eq;
  instance_eq = nat_eq;
  const_eq = nat_eq;
  span_eq = nat_eq;
  other_elem_eq = nat_eq;
  kind = kind_of;
  walk = λ t. t ∷ [];
  unpack = λ a. type_arg a;
  is_param = λ t i. false;
  contains_closure = λ t. nat_eqb t 8;
  tuple_fields = fields_of;
  is_ref = λ t. if nat_eqb t 2 then true else nat_eqb t 3;
  is_fn_ptr = λ t. false;
  ref_mutability =
      λ t. if nat_eqb t 2 then some mut_ else if nat_eqb t 3 then some not_mut else none;
  is_unsafe_ptr = λ t. nat_eqb t 4;
  is_mutable_ptr = λ t. if nat_eqb t 4 then true else nat_eqb t 2;
  all_fields = λ d a. if nat_eqb d 7 then 7 ∷ [] else if nat_eqb d 10 then 2 ∷ [] else [];
  components = components_of;
  second_type = λ a. some a;
  projection_ty = λ t e. t;
  has_builtin_deref = λ t. nat_eqb t 2;
  has_builtin_index = λ t. false;
  variant_field = λ d a v i. none;
  upvar_tys = λ a. [];
  const_ty = λ c. c;
  unit_ty = 0;
  bool_ty = 1;
  usize_ty = 12;
  new_array_with_const_len = λ t c. t;
  new_array = λ t n. t;
  new_ref = λ r t m. 2;
  re_erased = 0;
  new_ptr = λ t m. 4;
  new_tup = λ ts. 6;
  new_closure = λ d a. 8;
  new_box = λ t. t;
  discriminant_ty = λ t. 12;
  thread_local_ptr_ty = λ d. 4;
  type_of = λ d a. 1;
  instance_def_id = λ i. i;
  instance_def = λ i. item i;
  resolve_instance = λ d a. ok (some d);
  subst_mir = λ i t. t;
  subst_mir_instance = λ i j. j;
  mono = λ d. d;
  instance_ty = λ i. 9;
  sig_inputs = λ i. 1 ∷ [];
  sig_output = λ i. 1;
  closure_sig_inputs = λ a. 6 ∷ [];
  identity_inputs = λ d. 1 ∷ [];
  args_len = λ a. 0;
  mk_args = λ a. 0;
  expect_resolve = λ d a. ok d;
  adt_destructor = λ d. none;
  is_local = λ d. true;
  debug_def_id =
      λ d. if nat_eqb d 5 then "core::fmt" else if nat_eqb d 14 then "transmute" else "f";
  def_path_str = λ d.
      if nat_eqb d 6
      then "alohomora::pure::PrivacyPureRegion::<F>::new"
      else if nat_eqb d 1
      then "other"
      else if nat_eqb d 10
      then "other"
      else "f";
  krate = λ d. 0;
  local_crate = 0;
  crate_name = λ c. "sample";
  def_kind = λ d. other_def_kind;
  is_closure = λ d. nat_eqb d 8;
  is_constructor = λ d. nat_eqb d 9;
  arg_count = λ b. if nat_eqb b 4 then 2 else 1;
  local_ty = λ b l. if nat_eqb b 4 then (if nat_eqb l 2 then 2 else 1) else 1;
  var_debug_info = λ b. [];
  blocks = blocks_of;
  body_span = λ b. 0;
  place_ty = λ p b. record { ty = if nat_eqb p.local 2 then 4 else 1; variant_index = none };
  operand_ty = λ o b. operand_type o;
  const_fn_def = λ o. if nat_eqb (operand_type o) 14 then some (14, 2) else none;
  stmt_at = λ b i j. inl nop;
  mir_for_ctfe = λ d. d;
  mir_shims = λ d. 0;
  erase_regions = λ b. b;
  subst_and_normalize = λ i b. b;
  types_in = λ b. [];
  all_places = λ b d. local_place 0 ∷ [];
  items = 0 ∷ 1 ∷ 10 ∷ [];
  is_fn_item = λ d. true;
  doc_str = λ d. if nat_eqb d 0 then some "pure" else none;
  identity_args = λ d. [];
  mir_keys = 5 ∷ [];
  is_const_context = λ d. false;
  optimized_mir = λ d. d;
  mk_place_elem = λ p e. record p { projection = p.projection ++ e ∷ [] };
  normalize = λ p d. p;
  interior_paths = λ p b d. p ∷ [];
  with_extension = λ p e. p;
  parent = λ p. some p;
  file_name = λ p. some p;
  join_path = λ p q. q;
  starts_with_lib = λ f. true;
  prefix_lib = λ f. f;
  output_file = λ e. "out";
  crate_extern_paths = λ c. [];
  friendly_file_name = λ d.
      if nat_eqb d 2
      then "missing"
      else if nat_eqb d 4
      then "g"
      else if nat_eqb d 10
      then "h"
      else "f";
  decode_from_file = λ p.
      if p == "missing"
      then err "file not found"
      else ok
          (record { body = if p == "g" then 4 else if p == "h" then 6 else 0; subset_base = 0 });
  is_match = λ pattern text. pattern == text;
  transmute_def_path = "transmute";
}

-- Each target depends on itself alone.
instance abbrev pub flow : Flowistry
flow = record {
  compute_dependencies = λ d a targets. map (map (λ t. t.1)) targets;
  union = λ a b. a ++ b;
}
