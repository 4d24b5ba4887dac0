-- ===== src/Analyzer/Deps.antt =====
-- scrutils/src/analyzer/deps.rs: the crates whose functions a body calls.
pub mod Strings
use scrutinizer.Prelude.{String, List, [], ◌∷◌, none, some}
use scrutinizer.Prelude.Eq.{string_eq}
use scrutinizer.Prelude.HashSet.{insert}
use scrutinizer.Rustc.Mir.{call, TerminatorKind, BasicBlock}
use scrutinizer.Rustc.Queries.{Tcx}

module _ ⦃tcx : Tcx⦄ where
  visit_terminator : List String → TerminatorKind tcx.names → List String
  visit_terminator crates (call func _ _) = elim (tcx.const_fn_def func) [
    | some (callee_def_id, _) ↦ (insert crates (tcx.crate_name (tcx.krate callee_def_id))).0
    | none ↦ crates
  ]
  visit_terminator crates _ = crates

  visit_blocks : List String → List (BasicBlock tcx.names) → List String
  unfolding visit_terminator
  visit_blocks crates [] = crates
  visit_blocks crates (b ∷ bs) = visit_blocks (visit_terminator crates b.terminator) bs

  unfoldable pub compute_deps_for_body : tcx.Body → List String
  unfolding visit_blocks
  compute_deps_for_body body = visit_blocks [] (tcx.blocks body)
