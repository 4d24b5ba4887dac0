-- ===== src/Rustc/Mir.antt =====
-- The compiler's syntax of types and of MIR, with the constructors that the program matches on;
-- `other…` stands for the rest.
use scrutinizer.Prelude.{ℕ, String, Option, List}
use scrutinizer.Rustc.Names.{Names}

pub data Mutability : Type 0 where
  not_mut mut_ : Mutability

pub data DefKind : Type 0 where
  const_kind static_kind assoc_const ctor anon_const inline_const other_def_kind : DefKind

pub data BinOp : Type 0 where
  add sub mul div rem bit_xor bit_and bit_or : BinOp
  add_unchecked sub_unchecked mul_unchecked shl_unchecked shr_unchecked : BinOp
  shl shr offset eq_op lt_op le_op ne_op ge_op gt_op : BinOp

pub data UnOp : Type 0 where
  not_op neg_op : UnOp

pub data NullOp : Type 0 where
  size_of align_of offset_of : NullOp

pub data CastKind : Type 0 where
  pointer_from_exposed_address pointer_expose_address transmute other_cast : CastKind

module _ (n : Names) where
  open n use {Ty, DefId, Instance, GenericArgs, AdtDef, Region, Const, OtherElem}

  pub data TyKind : Type 0 where
    param fn_ptr dynamic foreign other_ty : TyKind
    raw_ptr : Ty → Mutability → TyKind
    ref : Ty → Mutability → TyKind
    adt : AdtDef → GenericArgs → TyKind
    closure : DefId → GenericArgs → TyKind
    fn_def : DefId → GenericArgs → TyKind
    tuple : List Ty → TyKind
    -- with the type that `self_ty` gives
    alias : Ty → TyKind

  pub data GenericArgKind : Type 0 where
    type_arg : Ty → GenericArgKind
    lifetime const_arg : GenericArgKind

  pub data InstanceDef : Type 0 where
    item intrinsic virtual : DefId → InstanceDef
    shim : InstanceDef

  pub data PlaceElem : Type 0 where
    deref : PlaceElem
    field : ℕ → Ty → PlaceElem
    index : ℕ → PlaceElem
    other_elem : OtherElem → PlaceElem

  pub record Place : Type 0 where
    pub local : ℕ
    pub projection : List PlaceElem

  pub record PlaceTy : Type 0 where
    pub ty : Ty
    pub variant_index : Option ℕ

  pub data Operand : Type 0 where
    copy move : Place → Operand
    constant : Const → Operand

  pub data AggregateKind : Type 0 where
    array : Ty → AggregateKind
    tuple_aggregate : AggregateKind
    adt_aggregate : DefId → GenericArgs → AggregateKind
    closure_aggregate : DefId → GenericArgs → AggregateKind
    generator : AggregateKind

  pub data Rvalue : Type 0 where
    use_ : Operand → Rvalue
    repeat_ : Operand → Const → Rvalue
    thread_local_ref : DefId → Rvalue
    -- with the mutability of the borrow, `bk.to_mutbl_lossy()`
    ref_of : Region → Mutability → Place → Rvalue
    address_of : Mutability → Place → Rvalue
    len : Place → Rvalue
    cast : CastKind → Operand → Ty → Rvalue
    binary_op : BinOp → Operand → Operand → Rvalue
    checked_binary_op : BinOp → Operand → Operand → Rvalue
    unary_op : UnOp → Operand → Rvalue
    discriminant : Place → Rvalue
    nullary_op : NullOp → Ty → Rvalue
    aggregate : AggregateKind → List Operand → Rvalue
    shallow_init_box : Operand → Ty → Rvalue
    copy_for_deref : Place → Rvalue

  pub data StatementKind : Type 0 where
    assign : Place → Rvalue → StatementKind
    fake_read nop other_statement : StatementKind

  pub data TerminatorKind : Type 0 where
    call : Operand → List Operand → Place → TerminatorKind
    drop_ : Place → TerminatorKind
    switch_int other_terminator : TerminatorKind

  pub record BasicBlock : Type 0 where
    pub statements : List StatementKind
    pub terminator : TerminatorKind

  pub data VarDebugInfoContents : Type 0 where
    place : Place → VarDebugInfoContents
    const_info : VarDebugInfoContents

  pub record VarDebugInfo : Type 0 where
    pub name : String
    pub value : VarDebugInfoContents

  -- A place in a body, or an argument, as the information flow analysis names its targets.
  pub data LocationOrArg : Type 0 where
    location : ℕ → ℕ → LocationOrArg
    arg : ℕ → LocationOrArg
