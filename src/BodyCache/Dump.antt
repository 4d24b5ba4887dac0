-- ===== src/BodyCache/Dump.antt =====
-- scrutils/src/body_cache/body_cache.rs: the writing of the artifacts, and the cache of what is
-- read back; encode_to_file and decode_from_file of scrutils/src/body_cache/encoder.rs.

pub mod Loaded
pub mod Returns
use scrutinizer.Prelude.{
  ℕ, Bool, List, ◌∷◌, map, Option, none, some, Outcome, ok, err, ◌>>=◌, unwrap, expect, each,
  if◌then◌else◌,
}
use scrutinizer.Prelude.HashMap
use scrutinizer.Prelude.HashMap.{HashMap}
use scrutinizer.Prelude.HashSet
use scrutinizer.Rustc.Names.{Names}
use scrutinizer.Rustc.Mir.{BasicBlock, StatementKind, fake_read, nop}
use scrutinizer.Rustc.Queries.{Tcx, Artifact}
use scrutinizer.Rustc.Serialize.{Serialization, Session}
use scrutinizer.BodyCache.{intermediate_out_dir, intermediate_artifact_ext}
use scrutinizer.BodyCache.Encoder.{
  ParalegalEncoder, ParalegalDecoder, new_encoder, finish, new_decoder,
}

-- The directories and the files on disk.
pub record Files (n : Names) : Type 0 where
  pub dirs : List n.FilePath
  pub contents : HashMap n.FilePath (List ℕ)

-- What the dump asks of the compiler: the functions in the order in which the visitor meets them,
-- their bodies with facts, the parts of a body, and the derived encoding of its fields.
pub record Dumping ⦃tcx : Tcx⦄ (ser : Serialization tcx.names) : Type 1 where
  pub session : Session ser
  pub source_files : List ser.SourceFile
  pub visited_fns : List tcx.DefId
  pub body_with_facts : tcx.DefId → tcx.Body × Option tcx.Facts
  pub Scope : Type 0
  pub source_scopes : tcx.Body → List Scope
  -- `scope.local_data = ClearCrossCrate::Clear`
  pub clear_local_data : Scope → Scope
  pub with_parts : tcx.Body → List Scope → List (BasicBlock tcx.names) → tcx.Body
  pub encode_body : tcx.Body → ParalegalEncoder ser → Outcome (ParalegalEncoder ser)
  pub encode_facts : tcx.Facts → ParalegalEncoder ser → Outcome (ParalegalEncoder ser)
  pub decode_body : ParalegalDecoder ser → Outcome (tcx.Body × ParalegalDecoder ser)
  pub decode_facts : ParalegalDecoder ser → Outcome (tcx.Facts × ParalegalDecoder ser)
  -- whether the directory can be created where it does not exist
  pub can_create_dir : tcx.FilePath → Bool

-- `statement.make_nop()` on a fake read.
unfoldable pub clean_statement : {n : Names} → StatementKind n → StatementKind n
clean_statement fake_read = nop
clean_statement s = s

unfoldable pub clean_block : {n : Names} → BasicBlock n → BasicBlock n
unfolding clean_statement
clean_block bb = record bb { statements = map clean_statement bb.statements }

module _ ⦃tcx : Tcx⦄ {ser : Serialization tcx.names} (dumping : Dumping ser) where
  open tcx use {DefId, Body, Facts, FilePath}

  unfoldable pub clean_undecodable_data_from_body : Body → Body
  unfolding clean_block
  clean_undecodable_data_from_body body =
      dumping.with_parts body (map dumping.clear_local_data (dumping.source_scopes body))
        (map clean_block (tcx.blocks body))

  -- `input_facts.clone().unwrap()`
  unfoldable pub retrieve : DefId → Outcome (Artifact tcx.names)
  retrieve local_def_id = do
    let (body, input_facts) = dumping.body_with_facts local_def_id
    subset_base ← expect input_facts
    ok (record { body = clean_undecodable_data_from_body body; subset_base = subset_base })

  -- The derived encoding of `CachedBody`, and decoding.
  unfoldable pub encode_cached_body :
      Artifact tcx.names → ParalegalEncoder ser → Outcome (ParalegalEncoder ser)
  encode_cached_body v s = do
    s' ← dumping.encode_body v.body s
    dumping.encode_facts v.subset_base s'

  unfoldable pub decode_cached_body :
      ParalegalDecoder ser → Outcome (Artifact tcx.names × ParalegalDecoder ser)
  decode_cached_body d = do
    (body, d') ← dumping.decode_body d
    (subset_base, d'') ← dumping.decode_facts d'
    ok (record { body = body; subset_base = subset_base }, d'')

  -- The bytes that `encode_to_file` leaves at the path.
  unfoldable pub encoded : FilePath → Artifact tcx.names → Outcome (List ℕ)
  encoded path v = do
    encoder ← new_encoder ser path
    encoder' ← encode_cached_body v encoder
    finish ser encoder'

  unfoldable pub encode_to_file :
      FilePath → Artifact tcx.names → Files tcx.names → Outcome (Files tcx.names)
  encode_to_file path v files = do
    buf ← encoded path v
    let contents = HashMap.upsert ⦃e = ser.path_eq⦄ files.contents path (λ _. buf) buf
    ok (record files { contents = contents })

  -- An `Err` where there is no such file.
  unfoldable pub decode_from_file : Files tcx.names → FilePath → Outcome (Artifact tcx.names)
  decode_from_file files path = elim (HashMap.get ⦃e = ser.path_eq⦄ files.contents path) [
    | none ↦ err "file not found"
    | some buf ↦ (do (v, _) ← decode_cached_body (new_decoder ser dumping.source_files buf); ok v)
  ]

  -- `std::fs::create_dir`: an `Err` where the directory is there, or cannot be created.
  unfoldable pub create_dir : FilePath → Files tcx.names → Outcome (Files tcx.names)
  create_dir dir files =
      if HashSet.contains ⦃e = ser.path_eq⦄ files.dirs dir
      then err "file exists"
      else if dumping.can_create_dir dir
      then ok (record files { dirs = dir ∷ files.dirs })
      else err "cannot create the directory"

  -- `if !dir.exists() { create_dir(dir).unwrap() }`
  unfoldable pub make_dir : FilePath → Files tcx.names → Outcome (Files tcx.names)
  make_dir dir files =
      if HashSet.contains ⦃e = ser.path_eq⦄ files.dirs dir
      then ok files
      else unwrap (create_dir dir files)

  -- The visitor at one function; the functions inside follow in the list of the visited.
  unfoldable pub visit_fn : FilePath → Files tcx.names → DefId → Outcome (Files tcx.names)
  visit_fn dir files local_def_id = do
    to_write ← retrieve local_def_id
    let path = tcx.join_path dir (tcx.friendly_file_name local_def_id)
    files' ← make_dir dir files
    encode_to_file path to_write files'

  unfoldable pub dump_mir_and_borrowck_facts : Files tcx.names → Outcome (Files tcx.names)
  dump_mir_and_borrowck_facts files = do
    target_dir ← intermediate_out_dir intermediate_artifact_ext
    each (visit_fn target_dir) files dumping.visited_fns
