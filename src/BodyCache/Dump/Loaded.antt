-- ===== src/BodyCache/Dump/Loaded.antt =====
-- scrutils/src/body_cache: the artifact of a function, from the dump to the load.
use scrutinizer.Prelude.{
  ◌≡◌, sym, ◌∙◌, ap, subst, arith, ℕ, false, List, [], ◌∷◌, ◌++◌, Option, some, ok, ◌>>=◌,
  >>=-split, each, each-split, All, if◌then◌else◌, ok_injective,
}
use scrutinizer.Prelude.HashMap
use scrutinizer.Rustc.Queries.{Tcx, Artifact}
use scrutinizer.Rustc.Serialize.{Serialization}
use scrutinizer.BodyCache.{
  intermediate_out_dir, intermediate_artifact_ext, local_or_remote_paths, load_body_and_facts,
  first_decodable,
}
use scrutinizer.BodyCache.Encoder.{ParalegalDecoder, new_decoder}
use scrutinizer.BodyCache.Dump.{
  Dumping, Files, retrieve, encoded, encode_to_file, decode_from_file, decode_cached_body, make_dir,
  create_dir, visit_fn, dump_mir_and_borrowck_facts,
}

module _ ⦃tcx : Tcx⦄ {ser : Serialization tcx.names} (dumping : Dumping ser) where
  open tcx use {DefId, FilePath}

  abbrev pub path_of : FilePath → DefId → FilePath
  path_of dir def_id = tcx.join_path dir (tcx.friendly_file_name def_id)

  abbrev pub at : Files tcx.names → FilePath → Option (List ℕ)
  at files path = HashMap.get ⦃e = ser.path_eq⦄ files.contents path

  make_dir-contents :
      (dir : FilePath) (files : Files tcx.names) {files' : Files tcx.names}
      → make_dir dumping dir files ≡ ok files'
      → files'.contents ≡ files.contents
  unfolding make_dir create_dir
  make_dir-contents dir files {files'} h = ground (arith, h)

  -- A visit writes the file of the function, and no other.
  pub visit_fn-writes :
      (dir : FilePath) (files : Files tcx.names) (def_id : DefId) {files' : Files tcx.names}
      → visit_fn dumping dir files def_id ≡ ok files'
      → (v : Artifact tcx.names) × (buf : List ℕ) × (retrieve dumping def_id ≡ ok v)
        × (encoded dumping (path_of dir def_id) v ≡ ok buf)
        × ((path : FilePath)
            → at files' path
              ≡ (if ser.path_eq.beq (path_of dir def_id) path then some buf else at files path))
  unfolding visit_fn encode_to_file
  visit_fn-writes dir files def_id {files'} h =
      let (v, retrieved, h1) = >>=-split (retrieve dumping def_id) _ h in
      let (files1, made, h2) = >>=-split (make_dir dumping dir files) _ h1 in
      let (buf, bytes, h3) = >>=-split (encoded dumping (path_of dir def_id) v) _ h2 in
      (
        v,
        buf,
        retrieved,
        bytes,
        λ path.
            ap (λ (fs : Files tcx.names). at fs path) (sym (ok_injective h3))
            ∙ HashMap.get-insert ⦃e = ser.path_eq⦄ files1.contents (path_of dir def_id) path buf
            ∙ ap
                (λ m.
                  if ser.path_eq.beq (path_of dir def_id) path
                  then some buf
                  else HashMap.get ⦃e = ser.path_eq⦄ m path)
                (make_dir-contents dir files made),
      )

  visits-keep :
      (dir path : FilePath) (fns : List DefId) (files : Files tcx.names) {files' : Files tcx.names}
      → each (visit_fn dumping dir) files fns ≡ ok files'
      → All (λ other. ser.path_eq.beq (path_of dir other) path ≡ false) fns
      → at files' path ≡ at files path
  visits-keep dir path [] files h others =
      ap (λ (fs : Files tcx.names). at fs path) (sym (ok_injective h))
  visits-keep dir path (def_id ∷ fns) files h (other, others) =
      let (files1, visited, rest) = >>=-split (visit_fn dumping dir files def_id) _ h in
      let (v, buf, _, _, now) = visit_fn-writes dir files def_id visited in
      visits-keep dir path fns files1 rest others ∙ now path ∙ rw other

  -- What a file holds that was encoded is read back as `carried` says: the derived encodings of the
  -- compiler keep all but what cannot survive the crossing.
  pub record IsDerived (carried : Artifact tcx.names → Artifact tcx.names) : Type 0 where
    pub whole_file :
        (path : FilePath) (v : Artifact tcx.names) (buf : List ℕ)
        → encoded dumping path v ≡ ok buf
        → (d : ParalegalDecoder ser) × (decode_cached_body dumping
              (new_decoder ser dumping.source_files buf)
            ≡ ok (carried v, d))

  -- The compilation that loads reads these files.
  pub record IsDisk (files : Files tcx.names) : Type 0 where
    pub reads :
        (path : FilePath) (v : Artifact tcx.names)
        → decode_from_file dumping files path ≡ ok v
        → tcx.decode_from_file path ≡ ok v

  decode-at :
      (files : Files tcx.names) (path : FilePath) (buf : List ℕ) {v : Artifact tcx.names}
      {d : ParalegalDecoder ser}
      → at files path ≡ some buf
      → decode_cached_body dumping (new_decoder ser dumping.source_files buf) ≡ ok (v, d)
      → decode_from_file dumping files path ≡ ok v
  unfolding decode_from_file
  decode-at files path buf e decoded = rw (e, decode_from_file, decoded)

  -- After a dump, the file of each function that no later one overwrites is decoded.
  dumped-decodes :
      (carried : Artifact tcx.names → Artifact tcx.names) (derived : IsDerived carried)
      (dir : FilePath) (files : Files tcx.names) {files' : Files tcx.names}
      (before after : List DefId) (def_id : DefId)
      → each (visit_fn dumping dir) files (before ++ def_id ∷ after) ≡ ok files'
      → All (λ other. ser.path_eq.beq (path_of dir other) (path_of dir def_id) ≡ false) after
      → (v : Artifact tcx.names) × (retrieve dumping def_id ≡ ok v)
        × (decode_from_file dumping files' (path_of dir def_id) ≡ ok (carried v))
  dumped-decodes carried derived dir files {files'} before after def_id h others =
      let (files1, files2, _, visited, rest) =
        each-split (visit_fn dumping dir) before after def_id files h in
      let (v, buf, retrieved, bytes, now) = visit_fn-writes dir files1 def_id visited in
      let (d, decoded) = derived.whole_file (path_of dir def_id) v buf bytes in
      let kept : at files' (path_of dir def_id) ≡ some buf =
        visits-keep dir (path_of dir def_id) after files2 rest others
        ∙ now (path_of dir def_id)
        ∙ ap (λ b. if b then some buf else at files1 (path_of dir def_id))
            (ser.path_eq.beq_refl (path_of dir def_id)) in
      (v, retrieved, decode-at files' (path_of dir def_id) buf kept decoded)

  loaded-first :
      (dir : FilePath) (others : List FilePath) (def_id : DefId) {v : Artifact tcx.names}
      → local_or_remote_paths (tcx.krate def_id) intermediate_artifact_ext ≡ ok (dir ∷ others)
      → tcx.decode_from_file (path_of dir def_id) ≡ ok v
      → load_body_and_facts def_id ≡ ok v
  unfolding load_body_and_facts first_decodable
  loaded-first dir others def_id paths found =
      ap (λ m. m >>= first_decodable (tcx.friendly_file_name def_id)) paths
      ∙ rw (found, first_decodable)

  -- A function whose file no later one overwrites is loaded after the dump as it was retrieved, up to
  -- what the derived encodings do not carry over: where these keep the rest, the loading compilation
  -- reads the files of the dump, and it looks in the target directory first.
  pub load_body_and_facts-dump :
      (carried : Artifact tcx.names → Artifact tcx.names) (derived : IsDerived carried)
      (dir : FilePath) (others : List FilePath) (files files' : Files tcx.names)
      (before after : List DefId) (def_id : DefId)
      → intermediate_out_dir intermediate_artifact_ext ≡ ok dir
      → dumping.visited_fns ≡ before ++ def_id ∷ after
      → All (λ other. ser.path_eq.beq (path_of dir other) (path_of dir def_id) ≡ false) after
      → dump_mir_and_borrowck_facts dumping files ≡ ok files'
      → IsDisk files'
      → local_or_remote_paths (tcx.krate def_id) intermediate_artifact_ext ≡ ok (dir ∷ others)
      → (v : Artifact tcx.names) × (retrieve dumping def_id ≡ ok v)
        × (load_body_and_facts def_id ≡ ok (carried v))
  unfolding dump_mir_and_borrowck_facts
  load_body_and_facts-dump carried derived dir others files files' before after def_id target
        visited distinct dumped disk paths =
      let (v, retrieved, decoded) =
        dumped-decodes carried derived dir files before after def_id
          (subst (λ fns. each (visit_fn dumping dir) files fns ≡ ok files') visited
            (rw target at dumped))
          distinct in
      (v, retrieved, loaded-first dir others def_id paths (disk.reads _ _ decoded))
