-- ===== src/BodyCache.antt =====
-- scrutils/src/body_cache/mod.rs and body_cache.rs: bodies, from the compiler or from the artifacts
-- that earlier compilations left on disk.
pub mod Encoder
pub mod Dump
pub mod Cache
pub mod Tests
use scrutinizer.Prelude.{
  ℕ, String, Bool, true, false, List, [], ◌∷◌, map, none, some, Outcome, ok, err, panic,
  out_of_fuel, ◌>>=◌, unwrap, expect, if◌then◌else◌,
}
use scrutinizer.Rustc.Mir.{
  DefKind, const_kind, static_kind, assoc_const, ctor, anon_const, inline_const, item,
}
use scrutinizer.Rustc.Queries.{Tcx, Artifact}

module _ ⦃tcx : Tcx⦄ where
  open tcx use {DefId, CrateNum, Instance, Body, FilePath, crate_num_eq}

  abbrev pub intermediate_artifact_ext : String
  intermediate_artifact_ext = "bwbf"

  -- Panics where the path has no parent or no file name.
  unfoldable pub intermediate_out_dir : String → Outcome FilePath
  intermediate_out_dir ext = do
    let rustc_out_file = tcx.output_file ext
    dir ← expect (tcx.parent rustc_out_file)
    file ← expect (tcx.file_name rustc_out_file)
    ok (tcx.join_path dir (if tcx.starts_with_lib file then file else tcx.prefix_lib file))

  unfoldable pub local_or_remote_paths : CrateNum → String → Outcome (List FilePath)
  local_or_remote_paths krate ext =
      if crate_num_eq.beq krate tcx.local_crate
      then (do dir ← intermediate_out_dir ext; ok (dir ∷ []))
      else ok (map (λ p. tcx.with_extension p ext) (tcx.crate_extern_paths krate))

  -- The loop over the paths: the first that can be read. A panic of the decoding is not caught.
  unfoldable pub first_decodable : String → List FilePath → Outcome (Artifact tcx.names)
  first_decodable name [] = err "No facts for {def_id:?} found at any path tried: {paths:?}"
  first_decodable name (path ∷ paths) = elim (tcx.decode_from_file (tcx.join_path path name)) [
    | ok artifact ↦ ok artifact
    | err _ ↦ first_decodable name paths
    | panic ↦ panic
    | out_of_fuel ↦ out_of_fuel
  ]

  unfoldable pub load_body_and_facts : DefId → Outcome (Artifact tcx.names)
  unfolding local_or_remote_paths first_decodable intermediate_out_dir
  load_body_and_facts def_id = do
    paths ← local_or_remote_paths (tcx.krate def_id) intermediate_artifact_ext
    first_decodable (tcx.friendly_file_name def_id) paths

  unfoldable pub is_mir_available : DefId → Outcome Bool
  is_mir_available def_id = elim (load_body_and_facts def_id) [
    | ok _ ↦ ok true
    | err _ ↦ ok false
    | panic ↦ panic
    | out_of_fuel ↦ out_of_fuel
  ]

  unfoldable pub num_args_in_body : DefId → Outcome ℕ
  num_args_in_body def_id = do
    artifact ← unwrap (load_body_and_facts def_id)
    ok (tcx.arg_count artifact.body)

  is_const_like : DefKind → Bool
  is_const_like const_kind = true
  is_const_like static_kind = true
  is_const_like assoc_const = true
  is_const_like ctor = true
  is_const_like anon_const = true
  is_const_like inline_const = true
  is_const_like _ = false

  unfoldable pub instance_body : Instance → Outcome Body
  unfolding is_const_like
  instance_body instance_ = elim (tcx.instance_def instance_) [
    | item def ↦ if is_const_like (tcx.def_kind def) then ok (tcx.mir_for_ctfe def) else (do
      cached_body ← unwrap (load_body_and_facts (tcx.instance_def_id instance_))
      ok (tcx.erase_regions cached_body.body))
    | other ↦ ok (tcx.mir_shims other)
  ]

  unfoldable pub substituted_mir : Instance → Outcome Body
  unfolding instance_body
  substituted_mir instance_ = do
    body ← instance_body instance_
    ok (tcx.subst_and_normalize instance_ body)
