-- ===== src/Flowistry.antt =====
-- The information flow analysis `flowistry`, which is no part of the repository: for each list of
-- targets in a body, the locations and arguments that depend on them (`Direction::Forward`).
use scrutinizer.Prelude.{List}
use scrutinizer.Rustc.Mir
use scrutinizer.Rustc.Queries.{Tcx, Artifact, Place}

abbrev pub LocationOrArg : ⦃tcx : Tcx⦄ → Type 0
LocationOrArg ⦃tcx⦄ = Mir.LocationOrArg tcx.names

pub record Flowistry ⦃tcx : Tcx⦄ : Type 0 where
  pub compute_dependencies :
      tcx.DefId
      → Artifact tcx.names
      → List (List (Place × LocationOrArg))
      → List (List LocationOrArg)
  -- `IndexSet::union`
  pub union : List LocationOrArg → List LocationOrArg → List LocationOrArg
