-- ===== src/BodyCache/Encoder/Spans.antt =====
-- scrutils/src/body_cache/encoder.rs: spans, which are written with the name of their file and read
-- back by a search of the loaded files.
use scrutinizer.Prelude.{
  ℕ, ◌+◌, ◌-◌, Bool, false, not, ◌&&◌, ◌||◌, List, [], ◌∷◌, Option, none, some, Outcome, ok, panic,
  ◌>>=◌, nat_eqb, keep, if◌then◌else◌,
}
use Prim.Native.Nat.{◌%◌, ◌^◌}
use scrutinizer.Rustc.Names.{Names}
use scrutinizer.Rustc.Serialize.{
  Serialization, Session, SpanData, FileName, local_path, remapped, other_name, u8, u32,
}
use scrutinizer.BodyCache.Encoder.{
  ParalegalEncoder, ParalegalDecoder, emit, read, resume, encode_crate_num, decode_crate_num,
}

abbrev pub tag_partial_span : ℕ
tag_partial_span = 0

abbrev pub tag_valid_span_full : ℕ
tag_valid_span_full = 1

-- `BytePos` is a `u32`.
unfoldable pub add_pos : ℕ → ℕ → ℕ
add_pos a b = (a + b) % 2 ^ 32

unfoldable pub sub_pos : ℕ → ℕ → ℕ
sub_pos a b = (a + 2 ^ 32 - b) % 2 ^ 32

-- The name without the local path of a remapped one.
unfoldable pub take_local_path :
    {FilePath OtherName : Type 0} → FileName FilePath OtherName → FileName FilePath OtherName
take_local_path (remapped _ virtual_name) = remapped none virtual_name
take_local_path name = name

-- The path of a real file's name.
unfoldable pub path_in_real_path :
    {FilePath OtherName : Type 0} → FileName FilePath OtherName → Option FilePath
path_in_real_path (local_path p) = some p
path_in_real_path (remapped _ virtual_name) = some virtual_name
path_in_real_path (other_name _) = none

module _ {n : Names} (ser : Serialization n) (session : Session ser) where
  -- The fields behind the tag of a span within one file.
  unfoldable pub encode_within :
      ser.SourceFile → SpanData ser → ParalegalEncoder ser → ParalegalEncoder ser
  encode_within source_file self s =
      let s1 = encode_crate_num ser session (ser.crate_num_of source_file) s in
      let name = take_local_path (ser.name_of source_file) in
      let s2 : ParalegalEncoder ser = record s1 {
        file_encoder = ser.file_name_codec.encode name s1.file_encoder;
      } in
      let s3 = emit ser u32 (sub_pos self.lo (ser.start_pos source_file)) s2 in
      emit ser u32 (sub_pos self.hi self.lo) s3

  unfoldable pub encode_span_data :
      SpanData ser → ParalegalEncoder ser → Outcome (ParalegalEncoder ser)
  encode_span_data self s =
      if session.is_dummy self then ok (emit ser u8 tag_partial_span s) else (do
        source_file ← session.lookup_source_file self.lo
        if not (ser.contains source_file self.hi)
            then ok (emit ser u8 tag_partial_span s)
            else ok (encode_within source_file self (emit ser u8 tag_valid_span_full s)))

  unfoldable pub encode_span : ser.Span → ParalegalEncoder ser → Outcome (ParalegalEncoder ser)
  encode_span self s = encode_span_data (session.data_of_span self) s

  unfoldable pub encode_syntax_context :
      ser.SyntaxContext → ParalegalEncoder ser → ParalegalEncoder ser
  encode_syntax_context _ s = s

  unfoldable pub decode_syntax_context :
      ParalegalDecoder ser → Outcome (ser.SyntaxContext × ParalegalDecoder ser)
  decode_syntax_context d = ok (ser.root_context, d)

  -- The second alternative of the filter: the path of the loaded file ends with the one that was read.
  unfoldable pub ends_alike : Option n.FilePath → Option n.FilePath → Bool
  ends_alike (some before) (some after) = ser.ends_with after before
  ends_alike _ _ = false

  -- The filter on the loaded files.
  unfoldable pub is_matching_file :
      n.CrateNum → FileName n.FilePath ser.OtherName → ser.SourceFile → Bool
  is_matching_file crate_num file_name f =
      ser.crate_num_eq.beq (ser.crate_num_of f) crate_num
      && (ser.file_name_eq.beq file_name (ser.name_of f)
          || ends_alike (path_in_real_path file_name) (path_in_real_path (ser.name_of f)))

  -- The case of no match: only the file of a local path is loaded.
  unfoldable pub load_unmatched :
      FileName n.FilePath ser.OtherName
      → List ser.SourceFile
      → Outcome (ser.SourceFile × List ser.SourceFile)
  load_unmatched (local_path local) files =
      if session.file_exists local then session.load_file files local else panic
  load_unmatched _ files = panic

  -- The match on the files that the filter found.
  unfoldable pub choose_source_file :
      FileName n.FilePath ser.OtherName
      → List ser.SourceFile
      → List ser.SourceFile
      → Outcome (ser.SourceFile × List ser.SourceFile)
  choose_source_file file_name files (sf ∷ []) = ok (sf, files)
  choose_source_file file_name files [] = load_unmatched file_name files
  choose_source_file file_name files (_ ∷ _ ∷ _) = panic

  unfoldable pub find_source_file :
      n.CrateNum
      → FileName n.FilePath ser.OtherName
      → List ser.SourceFile
      → Outcome (ser.SourceFile × List ser.SourceFile)
  find_source_file crate_num file_name files =
      choose_source_file file_name files (keep (is_matching_file crate_num file_name) files)

  -- The fields behind the tag of a valid span. The assertions are that the file holds both ends.
  unfoldable pub decode_within :
      ser.SyntaxContext → ParalegalDecoder ser → Outcome (SpanData ser × ParalegalDecoder ser)
  decode_within ctxt d = do
    (crate_num, d1) ← decode_crate_num ser session d
    (file_name, d2) ← resume ser d1 (ser.file_name_codec.decode d1.mem_decoder)
    (source_file, files) ← find_source_file crate_num file_name d2.files
    (offset, d3) ← read ser u32 (record d2 { files = files })
    (len, d4) ← read ser u32 d3
    let lo = add_pos (ser.start_pos source_file) offset
    let hi = add_pos (ser.start_pos source_file) (add_pos offset len)
    if ser.contains source_file lo && ser.contains source_file hi
        then ok (record { lo = lo; hi = hi; ctxt = ctxt; parent = none }, d4)
        else panic

  -- `debug` tells whether `debug_assert_eq!` is compiled in.
  unfoldable pub decode_span_data :
      Bool → ParalegalDecoder ser → Outcome (SpanData ser × ParalegalDecoder ser)
  decode_span_data debug d = do
    (ctxt, d0) ← decode_syntax_context d
    (tag, d1) ← read ser u8 d0
    if nat_eqb tag tag_partial_span
        then ok (session.data_of_span (session.dummy_span ctxt), d1)
        else if debug && not (nat_eqb tag tag_valid_span_full)
        then panic
        else decode_within ctxt d1

  unfoldable pub decode_span :
      Bool → ParalegalDecoder ser → Outcome (ser.Span × ParalegalDecoder ser)
  decode_span debug d = do
    (data_, d') ← decode_span_data debug d
    ok (session.span_of_data data_, d')
