-- ===== src/BodyCache/Encoder/SpanBytes.antt =====
-- scrutils/src/body_cache/encoder.rs: the bytes that are written of a span, and what a span is in
-- another compilation.
use scrutinizer.Prelude.{
  ◌≡◌, arith, ℕ, ◌+◌, ◌-◌, ◌≤◌, ◌<◌, true, List, ◌++◌, append_assoc, none, ok, if◌then◌else◌, inl,
  inr, Bool-cases,
}
use Prim.Native.Nat.{◌^◌}
use scrutinizer.Rustc.Names.{Names}
use scrutinizer.Rustc.Serialize.{Serialization, Session, SpanData, u8, u32, IsSerializer}
use scrutinizer.BodyCache.Encoder.{ParalegalEncoder, emit, encode_crate_num}
use scrutinizer.BodyCache.Encoder.Spans.{
  add_pos, sub_pos, take_local_path, encode_within, encode_span_data,
}

pub add_pos_small : (a b : ℕ) → a + b < 2 ^ 32 → add_pos a b ≡ a + b
unfolding add_pos
add_pos_small a b h = omega arith

sub_pos_small : (a b : ℕ) → b ≤ a → a < 2 ^ 32 → sub_pos a b ≡ a - b
unfolding sub_pos
sub_pos_small a b h k = omega arith

module _ {n : Names} {ser : Serialization n} (promise : IsSerializer ser) where
  open promise use {
    written, word, emit_word, read_word, stable_crate_id_faithful, file_name_faithful,
  }

  -- What is written of a span in the file `f`, and what is written of the others.
  abbrev pub within_bytes : Session ser → ser.SourceFile → SpanData ser → List ℕ
  within_bytes sender f span =
      stable_crate_id_faithful.bytes (sender.stable_crate_id (ser.crate_num_of f))
      ++ (file_name_faithful.bytes (take_local_path (ser.name_of f))
          ++ (word u32 (span.lo - ser.start_pos f) ++ word u32 (span.hi - span.lo)))

  abbrev pub span_bytes : Session ser → ser.SourceFile → SpanData ser → List ℕ
  span_bytes sender f span =
      if sender.is_dummy span
      then word u8 0
      else if ser.contains f span.hi
      then word u8 1 ++ within_bytes sender f span
      else word u8 0

  -- The span at the same place of the file `g`, without its context.
  abbrev pub shifted : ser.SourceFile → ser.SourceFile → SpanData ser → SpanData ser
  shifted f g span = record {
    lo = ser.start_pos g + (span.lo - ser.start_pos f);
    hi = ser.start_pos g + (span.hi - ser.start_pos f);
    ctxt = ser.root_context;
    parent = none;
  }

  -- That, or a dummy one for a dummy span and for one that does not lie in its file.
  abbrev pub moved :
      Session ser → Session ser → ser.SourceFile → ser.SourceFile → SpanData ser → SpanData ser
  moved sender receiver f g span =
      let dummy = receiver.data_of_span (receiver.dummy_span ser.root_context) in
      if sender.is_dummy span
      then dummy
      else if ser.contains f span.hi
      then shifted f g span
      else dummy

  -- The span lies in `f`, and all positions are `u32`s.
  pub record LiesIn (f g : ser.SourceFile) (span : SpanData ser) : Type 0 where
    pub after_start : ser.start_pos f ≤ span.lo
    pub ordered : span.lo ≤ span.hi
    pub small : span.hi < 2 ^ 32
    pub small_there : ser.start_pos g + (span.hi - ser.start_pos f) < 2 ^ 32
    pub holds_lo : ser.contains f span.lo ≡ true

  -- `g` is the file `f` of `sender`, as `receiver` has it: of the same crate, and of the same extent.
  pub record IsSameFile (sender receiver : Session ser) (f g : ser.SourceFile) : Type 0 where
    pub crate_there : n.CrateNum
    pub same_crate :
        receiver.stable_crate_id_to_crate_num (sender.stable_crate_id (ser.crate_num_of f))
        ≡ ok crate_there
    pub same_extent :
        (offset : ℕ)
        → ser.contains g (ser.start_pos g + offset) ≡ ser.contains f (ser.start_pos f + offset)

  module _ (sender receiver : Session ser) (f g : ser.SourceFile) (span : SpanData ser)
      (lies : LiesIn f g span) where
    encode_within_bytes :
        (s : ParalegalEncoder ser)
        → written (encode_within ser sender f span s).file_encoder
          ≡ written s.file_encoder ++ within_bytes sender f span
    unfolding encode_within encode_crate_num emit
    encode_within_bytes s = simp (
      emit_word,
      stable_crate_id_faithful.encode_bytes,
      file_name_faithful.encode_bytes,
      sub_pos_small span.lo (ser.start_pos f) lies.after_start (omega arith),
      sub_pos_small span.hi span.lo lies.ordered lies.small,
      append_assoc,
    )

    tagged :
        (s : ParalegalEncoder ser)
        → written (emit ser u8 1 s).file_encoder ++ within_bytes sender f span
          ≡ written s.file_encoder ++ (word u8 1 ++ within_bytes sender f span)
    unfolding emit
    tagged s = rw (emit_word, append_assoc)

    pub encode_bytes :
        (s : ParalegalEncoder ser)
        → sender.lookup_source_file span.lo ≡ ok f
        → (s' : ParalegalEncoder ser) × (encode_span_data ser sender span s ≡ ok s')
          × (written s'.file_encoder ≡ written s.file_encoder ++ span_bytes sender f span)
    unfolding encode_span_data
    encode_bytes s found = elim (Bool-cases (sender.is_dummy span)) [
      | inl dummy ↦
          (emit ser u8 0 s, rw dummy, rw dummy (unfold emit in emit_word u8 0 s.file_encoder))
      | inr real ↦ elim (Bool-cases (ser.contains f span.hi)) [
        | inl within ↦ (
          encode_within ser sender f span (emit ser u8 1 s),
          rw (real, found, within),
          rw (real, within, encode_within_bytes) (tagged s),
        )
        | inr out ↦ (
          emit ser u8 0 s,
          rw (real, found, out),
          rw (real, out) (unfold emit in emit_word u8 0 s.file_encoder),
        )
      ]
    ]
