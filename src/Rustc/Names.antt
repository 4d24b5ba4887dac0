-- ===== src/Rustc/Names.antt =====
-- The compiler's types that the program only passes on, compares or prints.
pub record Names : Type 1 where
  pub Ty : Type 0
  pub DefId : Type 0
  pub CrateNum : Type 0
  pub Instance : Type 0
  pub GenericArgs : Type 0
  pub GenericArg : Type 0
  pub AdtDef : Type 0
  pub Region : Type 0
  pub Const : Type 0
  pub Body : Type 0
  pub Span : Type 0
  -- a projection other than a dereference, a field and an index
  pub OtherElem : Type 0
  pub FilePath : Type 0
  pub Facts : Type 0
  pub Regex : Type 0
