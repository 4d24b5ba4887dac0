-- ===== src/BodyCache/Encoder/SpanRoundTrip.antt =====
-- scrutils/src/body_cache/encoder.rs: what becomes of a span that one compilation writes and
-- another reads.
use scrutinizer.Prelude.{
  ◌≡◌, refl, ap, ◌∙◌, arith, ℕ, ◌+◌, ◌-◌, ◌<◌, Bool, true, false, ◌&&◌, panic, List, [], ◌∷◌, ◌++◌,
  append_assoc, Outcome, ok, keep, if◌then◌else◌, inl, inr, Bool-cases,
}
use Prim.Native.Nat.{◌^◌}
use scrutinizer.Rustc.Names.{Names}
use scrutinizer.Rustc.Serialize.{
  Serialization, Session, SpanData, FileName, Width, bits, u8, u32, IsSerializer, remaining,
}
use scrutinizer.BodyCache.Encoder.{
  ParalegalEncoder, ParalegalDecoder, read, resume, decode_crate_num,
}
use scrutinizer.BodyCache.Encoder.Spans.{
  add_pos, take_local_path, is_matching_file, find_source_file, choose_source_file,
  encode_span_data, decode_within, decode_span_data, decode_syntax_context,
}
use scrutinizer.BodyCache.Encoder.SpanBytes.{
  add_pos_small, within_bytes, span_bytes, shifted, moved, LiesIn, IsSameFile, encode_bytes,
}

-- The assertion on the tag holds for the tag that is written.
debug_passes {ℓ} :
    {A : Type ℓ} (debug : Bool) (rest : Outcome A) → (if debug && false then panic else rest) ≡ rest
debug_passes true rest = refl
debug_passes false rest = refl

module _ {n : Names} {ser : Serialization n} (promise : IsSerializer ser) where
  open promise use {
    written, word, emit_word, read_word, stable_crate_id_faithful, file_name_faithful,
  }

  -- The step takes the value `a` from what is left to read, and leaves `rest`.
  abbrev pub Takes :
      {A : Type 0} → Outcome (A × ParalegalDecoder ser) → ParalegalDecoder ser → A → List ℕ → Type 0
  Takes step d a rest =
      (mem : ser.MemDecoder) × (step ≡ ok (a, record d { mem_decoder = mem }))
      × (remaining ser mem ≡ rest)

  read-Takes :
      (w : Width) (v : ℕ) (d : ParalegalDecoder ser) (rest : List ℕ)
      → v < 2 ^ bits w
      → remaining ser d.mem_decoder ≡ word w v ++ rest
      → Takes (read ser w d) d v rest
  unfolding read
  read-Takes w v d rest small h =
      let (mem, e, left) = read_word w v d.mem_decoder rest small h in (mem, rw e, left)

  file_name-Takes :
      (name : FileName n.FilePath ser.OtherName) (d : ParalegalDecoder ser) (rest : List ℕ)
      → remaining ser d.mem_decoder ≡ file_name_faithful.bytes name ++ rest
      → Takes (resume ser d (ser.file_name_codec.decode d.mem_decoder)) d name rest
  file_name-Takes name d rest h =
      let (mem, e, left) = file_name_faithful.decode_bytes name d.mem_decoder rest h in
      (mem, rw e, left)

  crate_num-Takes :
      (sender receiver : Session ser) (here there : n.CrateNum) (d : ParalegalDecoder ser)
      (rest : List ℕ)
      → receiver.stable_crate_id_to_crate_num (sender.stable_crate_id here) ≡ ok there
      → remaining ser d.mem_decoder
        ≡ stable_crate_id_faithful.bytes (sender.stable_crate_id here) ++ rest
      → Takes (decode_crate_num ser receiver d) d there rest
  unfolding decode_crate_num
  crate_num-Takes sender receiver here there d rest same h =
      let (mem, e, left) =
        stable_crate_id_faithful.decode_bytes (sender.stable_crate_id here) d.mem_decoder rest h in
      (mem, rw (e, same), left)

  dummy-Takes :
      (receiver : Session ser) (debug : Bool) (d : ParalegalDecoder ser) (rest : List ℕ)
      → remaining ser d.mem_decoder ≡ word u8 0 ++ rest
      → Takes
          (decode_span_data ser receiver debug d)
          d
          (receiver.data_of_span (receiver.dummy_span ser.root_context))
          rest
  unfolding decode_span_data decode_syntax_context
  dummy-Takes receiver debug d rest h =
      let (mem, e, left) = read-Takes u8 0 d rest (omega arith) h in (mem, rw e, left)

  module _ (sender receiver : Session ser) (f g : ser.SourceFile) (span : SpanData ser)
      (lies : LiesIn promise f g span) where
    -- The ends of the span, in the file `g`.
    start_there :
        add_pos (ser.start_pos g) (span.lo - ser.start_pos f)
        ≡ ser.start_pos g + (span.lo - ser.start_pos f)
    start_there = add_pos_small _ _ (omega (arith, lies.small_there, lies.ordered))

    end_there :
        add_pos (ser.start_pos g) (add_pos (span.lo - ser.start_pos f) (span.hi - span.lo))
        ≡ ser.start_pos g + (span.hi - ser.start_pos f)
    end_there =
        ap (add_pos (ser.start_pos g)) (
          add_pos_small _ _ (omega (arith, lies.small, lies.ordered, lies.after_start))
          ∙ omega (arith, lies.ordered, lies.after_start))
        ∙ add_pos_small _ _ lies.small_there

    module _ (same : IsSameFile promise sender receiver f g) where
      holds_start :
          ser.contains g (ser.start_pos g + (span.lo - ser.start_pos f)) ≡ ser.contains f span.lo
      holds_start =
          same.same_extent (span.lo - ser.start_pos f)
          ∙ ap (ser.contains f) (omega (arith, lies.after_start))

      holds_end :
          ser.contains g (ser.start_pos g + (span.hi - ser.start_pos f)) ≡ ser.contains f span.hi
      holds_end =
          same.same_extent (span.hi - ser.start_pos f)
          ∙ ap (ser.contains f) (omega (arith, lies.after_start, lies.ordered))

      decode_within-Takes :
          (d : ParalegalDecoder ser) (rest : List ℕ)
          → ser.contains f span.hi ≡ true
          → keep
              (is_matching_file ser receiver same.crate_there (take_local_path (ser.name_of f)))
              d.files
            ≡ g ∷ []
          → remaining ser d.mem_decoder ≡ within_bytes promise sender f span ++ rest
          → Takes (decode_within ser receiver ser.root_context d) d (shifted promise f g span) rest
      unfolding decode_within find_source_file choose_source_file
      decode_within-Takes d rest within only h =
          let (m1, e1, l1) =
            crate_num-Takes sender receiver (ser.crate_num_of f) same.crate_there d _
              same.same_crate (simp append_assoc at h) in
          let (m2, e2, l2) =
            file_name-Takes (take_local_path (ser.name_of f)) (record d { mem_decoder = m1 }) _
              l1 in
          let (m3, e3, l3) =
            read-Takes u32 (span.lo - ser.start_pos f) (record d { mem_decoder = m2 }) _
              (omega (arith, lies.small)) l2 in
          let (m4, e4, l4) =
            read-Takes u32 (span.hi - span.lo) (record d { mem_decoder = m3 }) _
              (omega (arith, lies.small)) l3 in
          (
            m4,
            rw (
              e1, e2, only, e3, e4, start_there, end_there, holds_start, lies.holds_lo, holds_end,
              within,
            ),
            l4,
          )

      decode_valid-Takes :
          (debug : Bool) (d : ParalegalDecoder ser) (rest : List ℕ)
          → ser.contains f span.hi ≡ true
          → keep
              (is_matching_file ser receiver same.crate_there (take_local_path (ser.name_of f)))
              d.files
            ≡ g ∷ []
          → remaining ser d.mem_decoder ≡ (word u8 1 ++ within_bytes promise sender f span) ++ rest
          → Takes (decode_span_data ser receiver debug d) d (shifted promise f g span) rest
      unfolding decode_span_data decode_syntax_context
      decode_valid-Takes debug d rest within only h =
          let (m1, e1, l1) = read-Takes u8 1 d _ (omega arith) (simp append_assoc at h) in
          let (m2, e2, l2) =
            decode_within-Takes (record d { mem_decoder = m1 }) rest within only
              (simp append_assoc l1) in
          (m2, rw e1 (debug_passes debug _ ∙ e2), l2)

      -- A compilation reads a span back as it was written by another, moved to the place of the file
      -- there and without its context; a dummy span, and one that ends outside of its file, is read
      -- as a dummy. The conditions: the span's file is found, holds its start, and has the same extent
      -- and crate in both; one loaded file there matches its name; and positions are 32 bit numbers.
      pub decode_span_data-encode_span_data :
          (debug : Bool) (s : ParalegalEncoder ser) (d : ParalegalDecoder ser) (rest : List ℕ)
          → sender.lookup_source_file span.lo ≡ ok f
          → keep
              (is_matching_file ser receiver same.crate_there (take_local_path (ser.name_of f)))
              d.files
            ≡ g ∷ []
          → remaining ser d.mem_decoder ≡ span_bytes promise sender f span ++ rest
          → ((s' : ParalegalEncoder ser) × (encode_span_data ser sender span s ≡ ok s')
              × (written s'.file_encoder
                  ≡ written s.file_encoder ++ span_bytes promise sender f span))
            × Takes
                (decode_span_data ser receiver debug d)
                d
                (moved promise sender receiver f g span)
                rest
      decode_span_data-encode_span_data debug s d rest found only h = (
        encode_bytes promise sender receiver f g span lies s found,
        elim (Bool-cases (sender.is_dummy span)) [
          | inl dummy ↦ rw dummy (dummy-Takes receiver debug d rest (rw dummy at h))
          | inr real ↦ elim (Bool-cases (ser.contains f span.hi)) [
            | inl within ↦
                rw (real, within)
                  (decode_valid-Takes debug d rest within only (rw (real, within) at h))
            | inr out ↦ rw (real, out) (dummy-Takes receiver debug d rest (rw (real, out) at h))
          ]
        ],
      )
