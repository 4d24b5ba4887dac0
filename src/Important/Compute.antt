-- ===== src/Important/Compute.antt =====
-- scrutils/src/important/compute.rs, and the set `ImportantLocals` of important.rs.
use scrutinizer.Prelude.{
  ℕ, Bool, List, [], ◌∷◌, flat_map, Outcome, ok, panic, ◌>>=◌, unwrap, collect, is_empty, inl, inr,
  ◌⊎◌,
}
use scrutinizer.Prelude.Eq.{nat_eq}
use scrutinizer.Prelude.HashSet.{from_iter}
use scrutinizer.Rustc.Mir.{assign, call, switch_int, location, arg, StatementKind, TerminatorKind}
use scrutinizer.Rustc.Queries.{Tcx, Place}
use scrutinizer.BodyCache.{load_body_and_facts}
use scrutinizer.Flowistry.{Flowistry, LocationOrArg}

pub record ImportantLocals : Type 0 where
  pub locals : List ℕ

unfoldable pub from_locals : List ℕ → ImportantLocals
from_locals locals = record { locals = from_iter locals }

unfoldable pub has_none : ImportantLocals → Bool
has_none self = is_empty self.locals

module _ ⦃tcx : Tcx⦄ where
  -- `reduce` with the union, and `unwrap`: it panics on no sets at all.
  unfoldable pub reduce_union :
      (List LocationOrArg → List LocationOrArg → List LocationOrArg)
      → List (List LocationOrArg)
      → Outcome (List LocationOrArg)
  reduce_union union [] = panic
  reduce_union union (deps ∷ []) = ok deps
  reduce_union union (deps ∷ other ∷ rest) = reduce_union union (union deps other ∷ rest)

  -- `unimplemented!` on statements and terminators other than these.
  unfoldable pub locals_of_step :
      StatementKind tcx.names ⊎ TerminatorKind tcx.names → Outcome (List ℕ)
  locals_of_step (inl (assign place _)) = ok (place.local ∷ [])
  locals_of_step (inl _) = panic
  locals_of_step (inr (call _ _ destination)) = ok (destination.local ∷ [])
  locals_of_step (inr switch_int) = ok []
  locals_of_step (inr _) = panic

  unfoldable pub locals_of_dep : tcx.Body → LocationOrArg → Outcome (List ℕ)
  unfolding locals_of_step
  locals_of_dep body (location block index) = locals_of_step (tcx.stmt_at body block index)
  locals_of_dep body (arg local) = ok (local ∷ [])

  module _ ⦃flow : Flowistry⦄ where
    unfoldable pub compute_dependent_locals :
        tcx.DefId → List (List (Place × LocationOrArg)) → Outcome (List ℕ)
    unfolding locals_of_dep reduce_union
    compute_dependent_locals def_id targets = do
      body_with_facts ← unwrap (load_body_and_facts def_id)
      location_deps ←
          reduce_union flow.union (flow.compute_dependencies def_id body_with_facts targets)
      locals ← collect (locals_of_dep body_with_facts.body) location_deps
      ok (flat_map (λ l. l) locals)
