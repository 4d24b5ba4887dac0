-- ===== src/BodyCache/Dump/Returns.antt =====
-- scrutils/src/body_cache/body_cache.rs: what is on disk after the dump of a crate.
use scrutinizer.Prelude.{
  ◌≡◌, refl, sym, ap, ◌∙◌, arith, ℕ, Bool, true, false, ◌||◌, ◌⊎◌, is_empty, List, [], ◌∷◌, ◌++◌,
  some, ok, ok_injective, >>=-split, each, All, inl, inr, Bool-cases, if◌then◌else◌,
}
use scrutinizer.Prelude.HashMap
use scrutinizer.Prelude.HashSet
use scrutinizer.Rustc.Queries.{Tcx, Artifact}
use scrutinizer.Rustc.Serialize.{Serialization}
use scrutinizer.BodyCache.{intermediate_out_dir, intermediate_artifact_ext}
use scrutinizer.BodyCache.Dump.{
  Dumping, Files, retrieve, encoded, encode_to_file, create_dir, make_dir, visit_fn,
  dump_mir_and_borrowck_facts,
}
use scrutinizer.BodyCache.Dump.Loaded.{path_of, at, visit_fn-writes}

module _ ⦃tcx : Tcx⦄ {ser : Serialization tcx.names} (dumping : Dumping ser) where
  open tcx use {DefId, FilePath}

  -- The function has facts, and its artifact can be encoded into its file.
  abbrev pub IsWritable : FilePath → DefId → Type 0
  IsWritable dir def_id =
      (v : Artifact tcx.names) × (buf : List ℕ) × (retrieve dumping def_id ≡ ok v)
      × (encoded dumping (path_of dumping dir def_id) v ≡ ok buf)

  -- The directory is there, or it can be created.
  abbrev pub is_usable : FilePath → Files tcx.names → Bool
  is_usable dir files =
      HashSet.contains ⦃e = ser.path_eq⦄ files.dirs dir || dumping.can_create_dir dir

  -- The directories once the given one exists.
  abbrev pub dirs_with : FilePath → List FilePath → List FilePath
  dirs_with dir dirs = if HashSet.contains ⦃e = ser.path_eq⦄ dirs dir then dirs else dir ∷ dirs

  -- What a path holds after the functions are visited: the artifact of the last function whose file it
  -- is, or what it held before if it is no function's.
  abbrev pub IsWritten :
      FilePath → List DefId → Files tcx.names → Files tcx.names → FilePath → Type 0
  IsWritten dir fns files files' path =
      (All (λ d. ser.path_eq.beq (path_of dumping dir d) path ≡ false) fns
        × (at dumping files' path ≡ at dumping files path))
      ⊎ ((before : List DefId) × (def_id : DefId) × (after : List DefId) × (v : Artifact tcx.names)
          × (buf : List ℕ) × (fns ≡ before ++ def_id ∷ after)
          × (ser.path_eq.beq (path_of dumping dir def_id) path ≡ true)
          × All (λ d. ser.path_eq.beq (path_of dumping dir d) path ≡ false) after
          × (retrieve dumping def_id ≡ ok v)
          × (encoded dumping (path_of dumping dir def_id) v ≡ ok buf)
          × (at dumping files' path ≡ some buf))

  contains-dirs_with :
      (dir : FilePath) (dirs : List FilePath)
      → HashSet.contains ⦃e = ser.path_eq⦄ (dirs_with dir dirs) dir ≡ true
  unfolding HashSet.contains
  contains-dirs_with dir dirs = elim (Bool-cases (HashSet.contains ⦃e = ser.path_eq⦄ dirs dir)) [
    | inl e ↦ ground (arith, e)
    | inr e ↦ ground (arith, e, ser.path_eq.beq_refl dir)
  ]

  make_dir-returns :
      (dir : FilePath) (files : Files tcx.names)
      → is_usable dir files ≡ true
      → make_dir dumping dir files ≡ ok (record files { dirs = dirs_with dir files.dirs })
  unfolding make_dir create_dir
  make_dir-returns dir files can =
      elim (Bool-cases (HashSet.contains ⦃e = ser.path_eq⦄ files.dirs dir)) [
        | inl e ↦ rw e refl
        | inr e ↦ rw (e, rw e at can) refl
      ]

  visit_fn-returns :
      (dir : FilePath) (files : Files tcx.names) (def_id : DefId)
      → is_usable dir files ≡ true
      → IsWritable dir def_id
      → (files' : Files tcx.names) × (visit_fn dumping dir files def_id ≡ ok files')
        × (files'.dirs ≡ dirs_with dir files.dirs)
  unfolding visit_fn encode_to_file
  visit_fn-returns dir files def_id can (v, buf, retrieved, bytes) =
      let path = path_of dumping dir def_id in
      (
        record {
          dirs = dirs_with dir files.dirs;
          contents = HashMap.upsert ⦃e = ser.path_eq⦄ files.contents path (λ _. buf) buf;
        },
        rw (retrieved, make_dir-returns dir files can, bytes) refl,
        refl,
      )

  visits-return :
      (dir : FilePath) (fns : List DefId) (files : Files tcx.names)
      → HashSet.contains ⦃e = ser.path_eq⦄ files.dirs dir ≡ true
      → All (IsWritable dir) fns
      → (files' : Files tcx.names) × (each (visit_fn dumping dir) files fns ≡ ok files')
        × (files'.dirs ≡ files.dirs)
  visits-return dir [] files there h = (files, refl, refl)
  visits-return dir (d ∷ fns) files there (h, hs) =
      let (files1, e, dirs) = visit_fn-returns dir files d (rw there refl) h in
      let kept = rw there at dirs in
      let (files', e', dirs') =
        visits-return dir fns files1
          (ap (λ l. HashSet.contains ⦃e = ser.path_eq⦄ l dir) kept ∙ there) hs in
      (files', rw e e', dirs' ∙ kept)

  visits-write :
      (dir : FilePath) (fns : List DefId) (files : Files tcx.names) {files' : Files tcx.names}
      → each (visit_fn dumping dir) files fns ≡ ok files'
      → (path : FilePath) → IsWritten dir fns files files' path
  visits-write dir [] files h path =
      inl (tt, ap (λ (f : Files tcx.names). at dumping f path) (sym (ok_injective h)))
  visits-write dir (d ∷ fns) files {files'} h path =
      let (files1, visited, rest) = >>=-split (visit_fn dumping dir files d) _ h in
      let (v, buf, retrieved, bytes, now) = visit_fn-writes dumping dir files d visited in
      elim (visits-write dir fns files1 rest path) [
        | inr (before, l, after, v', buf', split, same, last, retrieved', bytes', held) ↦ inr (
          d ∷ before,
          l,
          after,
          v',
          buf',
          ap (λ k. d ∷ k) split,
          same,
          last,
          retrieved',
          bytes',
          held,
        )
        | inl (others, same) ↦ elim (Bool-cases (ser.path_eq.beq (path_of dumping dir d) path)) [
          | inl e ↦
              inr
                ([], d, fns, v, buf, refl, e, others, retrieved, bytes, same ∙ now path ∙ rw e refl)
          | inr e ↦ inl ((e, others), same ∙ now path ∙ rw e refl)
        ]
      ]

  -- Where the target directory is known, is there or can be created, and each visited function has
  -- facts and can be encoded into its file, the dump returns. Then the directory is there if a function
  -- was visited, and no other is added; and each path holds the artifact of the last visited function
  -- whose file it is, or is as before if it is no visited function's.
  pub dump_mir_and_borrowck_facts_returns :
      (dir : FilePath) (files : Files tcx.names)
      → intermediate_out_dir intermediate_artifact_ext ≡ ok dir
      → is_usable dir files ≡ true
      → All (IsWritable dir) dumping.visited_fns
      → (files' : Files tcx.names) × (dump_mir_and_borrowck_facts dumping files ≡ ok files')
        × (files'.dirs
            ≡ (if is_empty dumping.visited_fns then files.dirs else dirs_with dir files.dirs))
        × ((path : FilePath) → IsWritten dir dumping.visited_fns files files' path)
  unfolding dump_mir_and_borrowck_facts
  dump_mir_and_borrowck_facts_returns dir files target usable writable =
      let (files', e, dirs) = all_visited dumping.visited_fns writable in
      (files', rw target e, dirs, visits-write dir dumping.visited_fns files e)
    where
      all_visited :
          (fns : List DefId)
          → All (IsWritable dir) fns
          → (files' : Files tcx.names) × (each (visit_fn dumping dir) files fns ≡ ok files')
            × (files'.dirs ≡ (if is_empty fns then files.dirs else dirs_with dir files.dirs))
      all_visited [] h = (files, refl, refl)
      all_visited (d ∷ fns) (h, hs) =
          let (files1, e, made) = visit_fn-returns dir files d usable h in
          let (files', e', kept) =
            visits-return dir fns files1
              (ap (λ l. HashSet.contains ⦃e = ser.path_eq⦄ l dir) made
                ∙ contains-dirs_with dir files.dirs)
              hs in
          (files', rw e e', kept ∙ made)
