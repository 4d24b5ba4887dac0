-- ===== src/Rustc/Queries.antt =====
-- `TyCtxt` and the methods of the compiler's values: what the program asks the compiler, and the
-- file system's answers that reach it through the compiler.
use scrutinizer.Prelude.{
  ◌≡◌, refl, arith, ◌⊎◌, ℕ, String, Bool, true, false, ◌&&◌, Option, none, some, List, Outcome,
  nat_eqb, is_empty, if◌then◌else◌,
}
use scrutinizer.Prelude.Eq.{Eq, lists_eq, lists_eq_refl, lists_eq_congr}
use scrutinizer.Rustc.Names.{Names}
use scrutinizer.Rustc.Mir
use scrutinizer.Rustc.Mir.{Mutability, DefKind}

-- What an artifact on disk holds, as `BodyCache` declares it: a body and the facts for flowistry.
pub record Artifact (n : Names) : Type 0 where
  pub body : n.Body
  pub subset_base : n.Facts

pub record Tcx : Type 1 where
  pub names : Names
  pub open names use *
  -- `==` of the compiler's values
  pub ty_eq : Eq Ty
  pub def_id_eq : Eq DefId
  pub crate_num_eq : Eq CrateNum
  pub instance_eq : Eq Instance
  pub const_eq : Eq Const
  pub span_eq : Eq Span
  pub other_elem_eq : Eq OtherElem
  -- types
  pub kind : Ty → Mir.TyKind names
  pub walk : Ty → List GenericArg
  pub unpack : GenericArg → Mir.GenericArgKind names
  pub is_param : Ty → ℕ → Bool
  pub contains_closure : Ty → Bool
  -- a compiler bug, that is a panic, on a type that is no tuple
  pub tuple_fields : Ty → Outcome (List Ty)
  pub is_ref : Ty → Bool
  pub is_fn_ptr : Ty → Bool
  pub ref_mutability : Ty → Option Mutability
  pub is_unsafe_ptr : Ty → Bool
  pub is_mutable_ptr : Ty → Bool
  -- the types of the fields of all variants, with the arguments put in
  pub all_fields : AdtDef → GenericArgs → List Ty
  -- the types that a type is made of, which `super_visit_with` visits
  pub components : Ty → List Ty
  -- the second generic argument of a call, as a type
  pub second_type : GenericArgs → Option Ty
  -- projections of types
  pub projection_ty : Mir.PlaceTy names → Mir.PlaceElem names → Mir.PlaceTy names
  pub has_builtin_deref : Ty → Bool
  pub has_builtin_index : Ty → Bool
  -- the field of a variant (`none` where there is none), and a closure's captured types
  pub variant_field : AdtDef → GenericArgs → ℕ → ℕ → Option Ty
  pub upvar_tys : GenericArgs → List Ty
  -- types that the program builds
  pub const_ty : Const → Ty
  pub unit_ty : Ty
  pub bool_ty : Ty
  pub usize_ty : Ty
  pub new_array_with_const_len : Ty → Const → Ty
  pub new_array : Ty → ℕ → Ty
  pub new_ref : Region → Ty → Mutability → Ty
  pub re_erased : Region
  pub new_ptr : Ty → Mutability → Ty
  pub new_tup : List Ty → Ty
  pub new_closure : DefId → GenericArgs → Ty
  pub new_box : Ty → Ty
  pub discriminant_ty : Ty → Ty
  pub thread_local_ptr_ty : DefId → Ty
  -- `type_of(did).instantiate(args)`
  pub type_of : DefId → GenericArgs → Ty
  -- instances
  pub instance_def_id : Instance → DefId
  pub instance_def : Instance → Mir.InstanceDef names
  pub resolve_instance : DefId → GenericArgs → Outcome (Option Instance)
  pub subst_mir : Instance → Ty → Ty
  pub subst_mir_instance : Instance → Instance → Instance
  pub mono : DefId → Instance
  -- `instance.ty`, and the types of its signature
  pub instance_ty : Instance → Ty
  pub sig_inputs : Instance → List Ty
  pub sig_output : Instance → Ty
  pub closure_sig_inputs : GenericArgs → List Ty
  -- the inputs of a definition's signature over its own parameters
  pub identity_inputs : DefId → List Ty
  pub args_len : GenericArgs → ℕ
  pub mk_args : List GenericArg → GenericArgs
  pub expect_resolve : DefId → GenericArgs → Outcome Instance
  pub adt_destructor : AdtDef → Option DefId
  -- definitions
  pub is_local : DefId → Bool
  pub debug_def_id : DefId → String
  pub def_path_str : DefId → String
  pub krate : DefId → CrateNum
  pub local_crate : CrateNum
  pub crate_name : CrateNum → String
  pub def_kind : DefId → DefKind
  pub is_closure : DefId → Bool
  pub is_constructor : DefId → Bool
  -- bodies
  pub arg_count : Body → ℕ
  pub local_ty : Body → ℕ → Ty
  pub var_debug_info : Body → List (Mir.VarDebugInfo names)
  pub blocks : Body → List (Mir.BasicBlock names)
  pub body_span : Body → Span
  pub place_ty : Mir.Place names → Body → Mir.PlaceTy names
  pub operand_ty : Mir.Operand names → Body → Ty
  -- the function that an operand names, where it is a constant of such a type
  pub const_fn_def : Mir.Operand names → Option (DefId × GenericArgs)
  -- a statement of the body, or its block's terminator
  pub stmt_at : Body → ℕ → ℕ → Mir.StatementKind names ⊎ Mir.TerminatorKind names
  pub mir_for_ctfe : DefId → Body
  pub mir_shims : Mir.InstanceDef names → Body
  pub erase_regions : Body → Body
  pub subst_and_normalize : Instance → Body → Body
  -- the types that a visitor meets in a body
  pub types_in : Body → List Ty
  pub all_places : Body → DefId → List (Mir.Place names)
  -- the crate's items and bodies
  pub items : List DefId
  pub is_fn_item : DefId → Bool
  -- the text of the attribute `doc`
  pub doc_str : DefId → Option String
  pub identity_args : DefId → List GenericArg
  pub mir_keys : List DefId
  -- whether a body is evaluated at compile time only: `Some` but not `Some(ConstFn)`
  pub is_const_context : DefId → Bool
  pub optimized_mir : DefId → Body
  -- places
  pub mk_place_elem : Mir.Place names → Mir.PlaceElem names → Mir.Place names
  pub normalize : Mir.Place names → DefId → Mir.Place names
  pub interior_paths : Mir.Place names → Body → DefId → List (Mir.Place names)
  -- files: the paths of a build, and what can be decoded from a path
  pub with_extension : FilePath → String → FilePath
  pub parent : FilePath → Option FilePath
  pub file_name : FilePath → Option String
  pub join_path : FilePath → String → FilePath
  pub starts_with_lib : String → Bool
  pub prefix_lib : String → String
  -- `output_filenames(()).with_extension(ext)`
  pub output_file : String → FilePath
  pub crate_extern_paths : CrateNum → List FilePath
  pub friendly_file_name : DefId → String
  -- What `decode_from_file` gives for a path, with the files as the compilation finds them.
  pub decode_from_file : FilePath → Outcome (Artifact names)
  -- regular expressions
  pub is_match : Regex → String → Bool
  -- `core\[\w*\]::intrinsics::\{extern#0\}::transmute`
  pub transmute_def_path : Regex

abbrev pub Place : ⦃tcx : Tcx⦄ → Type 0
Place ⦃tcx⦄ = Mir.Place tcx.names

abbrev pub Operand : ⦃tcx : Tcx⦄ → Type 0
Operand ⦃tcx⦄ = Mir.Operand tcx.names

abbrev pub PlaceElem : ⦃tcx : Tcx⦄ → Type 0
PlaceElem ⦃tcx⦄ = Mir.PlaceElem tcx.names

abbrev pub PlaceTy : ⦃tcx : Tcx⦄ → Type 0
PlaceTy ⦃tcx⦄ = Mir.PlaceTy tcx.names

-- The instance for sets of types; the other tests are called by their fields.
instance abbrev pub eq_ty : ⦃tcx : Tcx⦄ → Eq tcx.Ty
eq_ty ⦃tcx⦄ = tcx.ty_eq

-- `#[derive(PartialEq)]` of the compiler's projections, places and operands.
module _ ⦃tcx : Tcx⦄ where
  unfoldable pub elem_eq : PlaceElem → PlaceElem → Bool
  elem_eq Mir.deref Mir.deref = true
  elem_eq (Mir.field i a) (Mir.field j b) = nat_eqb i j && tcx.ty_eq.beq a b
  elem_eq (Mir.index i) (Mir.index j) = nat_eqb i j
  elem_eq (Mir.other_elem a) (Mir.other_elem b) = tcx.other_elem_eq.beq a b
  elem_eq _ _ = false

  unfoldable pub place_eq : Place → Place → Bool
  unfolding elem_eq
  place_eq p q = nat_eqb p.local q.local && lists_eq elem_eq p.projection q.projection

  unfoldable pub operand_eq : Operand → Operand → Bool
  operand_eq (Mir.copy p) (Mir.copy q) = place_eq p q
  operand_eq (Mir.move p) (Mir.move q) = place_eq p q
  operand_eq (Mir.constant c) (Mir.constant d) = tcx.const_eq.beq c d
  operand_eq _ _ = false

  pub elem_eq_refl : (p : PlaceElem) → elem_eq p p ≡ true
  unfolding elem_eq
  elem_eq_refl Mir.deref = refl
  elem_eq_refl (Mir.field i a) = ground (arith, tcx.ty_eq.beq_refl a)
  elem_eq_refl (Mir.index i) = ground arith
  elem_eq_refl (Mir.other_elem a) = tcx.other_elem_eq.beq_refl a

  pub elem_eq_congr : (p q r : PlaceElem) → elem_eq p q ≡ true → elem_eq p r ≡ elem_eq q r
  unfolding elem_eq
  elem_eq_congr Mir.deref Mir.deref r h = refl
  elem_eq_congr (Mir.field i a) (Mir.field j b) (Mir.field k c) h =
      ground (arith, tcx.ty_eq.beq_congr a b c)
  elem_eq_congr (Mir.field i a) (Mir.field j b) r h = refl
  elem_eq_congr (Mir.index i) (Mir.index j) (Mir.index k) h = ground arith
  elem_eq_congr (Mir.index i) (Mir.index j) r h = refl
  elem_eq_congr (Mir.other_elem a) (Mir.other_elem b) (Mir.other_elem c) h =
      tcx.other_elem_eq.beq_congr a b c h
  elem_eq_congr (Mir.other_elem a) (Mir.other_elem b) r h = refl
  elem_eq_congr p q r h = cc

  place_eq_refl : (p : Place) → place_eq p p ≡ true
  unfolding place_eq
  place_eq_refl p = ground (arith, lists_eq_refl elem_eq elem_eq_refl p.projection)

  place_eq_congr : (p q r : Place) → place_eq p q ≡ true → place_eq p r ≡ place_eq q r
  unfolding place_eq
  place_eq_congr p q r h =
      ground (arith, lists_eq_congr elem_eq elem_eq_congr p.projection q.projection r.projection)

  pub operand_eq_refl : (o : Operand) → operand_eq o o ≡ true
  unfolding operand_eq
  operand_eq_refl (Mir.copy p) = place_eq_refl p
  operand_eq_refl (Mir.move p) = place_eq_refl p
  operand_eq_refl (Mir.constant c) = tcx.const_eq.beq_refl c

  pub operand_eq_congr : (o p q : Operand) → operand_eq o p ≡ true → operand_eq o q ≡ operand_eq p q
  unfolding operand_eq
  operand_eq_congr (Mir.copy a) (Mir.copy b) (Mir.copy c) h = place_eq_congr a b c h
  operand_eq_congr (Mir.copy a) (Mir.copy b) q h = refl
  operand_eq_congr (Mir.move a) (Mir.move b) (Mir.move c) h = place_eq_congr a b c h
  operand_eq_congr (Mir.move a) (Mir.move b) q h = refl
  operand_eq_congr (Mir.constant a) (Mir.constant b) (Mir.constant c) h =
      tcx.const_eq.beq_congr a b c h
  operand_eq_congr (Mir.constant a) (Mir.constant b) q h = refl
  operand_eq_congr o p q h = cc

  -- `Operand::place`
  abbrev pub operand_place : Operand → Option Place
  operand_place (Mir.copy p) = some p
  operand_place (Mir.move p) = some p
  operand_place (Mir.constant _) = none

  -- `Place::as_local`: the local, if nothing is projected from it.
  abbrev pub as_local : Place → Option ℕ
  as_local p = if is_empty p.projection then some p.local else none
