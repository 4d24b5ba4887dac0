-- ===== src/BodyCache/Encoder.antt =====
-- scrutils/src/body_cache/encoder.rs: the encoder and the decoder of the artifacts. `tcx` is the
-- argument `session`; the files of its source map, which `load_file` extends, are a field of the
-- decoder.
pub mod Spans
pub mod SpanBytes
pub mod SpanRoundTrip
pub mod Shorthands
use scrutinizer.Prelude.{
  ℕ, List, [], none, some, Outcome, ok, panic, ◌>>=◌, expect, nat_eqb, if◌then◌else◌,
}
use scrutinizer.Prelude.Eq.{nat_eq}
use scrutinizer.Prelude.HashMap
use scrutinizer.Prelude.HashMap.{HashMap}
use scrutinizer.Rustc.Names.{Names}
use scrutinizer.Rustc.Serialize.{Serialization, Session, Width, u64, u32}

module _ {n : Names} (ser : Serialization n) where
  pub record ParalegalEncoder : Type 0 where
    pub file_encoder : ser.FileEncoder
    pub type_shorthands : HashMap n.Ty ℕ
    pub predicate_shorthands : HashMap ser.PredicateKind ℕ

  -- `none` stands for a file that cannot be written: `unwrap` panics.
  unfoldable pub new_encoder : n.FilePath → Outcome ParalegalEncoder
  new_encoder path = do
    file_encoder ← expect (ser.create path)
    ok (record { file_encoder = file_encoder; type_shorthands = []; predicate_shorthands = [] })

  -- The bytes of the file that it leaves.
  unfoldable pub finish : ParalegalEncoder → Outcome (List ℕ)
  finish self = expect (ser.finish self.file_encoder)

  -- The methods that `encoder_methods!` declares, one for each width.
  unfoldable pub emit : Width → ℕ → ParalegalEncoder → ParalegalEncoder
  emit width value self = record self { file_encoder = ser.emit width value self.file_encoder }

  unfoldable pub emit_raw_bytes : List ℕ → ParalegalEncoder → ParalegalEncoder
  emit_raw_bytes value self = record self {
    file_encoder = ser.emit_raw_bytes value self.file_encoder;
  }

  unfoldable pub encoder_position : ParalegalEncoder → ℕ
  encoder_position self = ser.encoder_position self.file_encoder

  unfoldable pub encode_alloc_id : ℕ → ParalegalEncoder → ParalegalEncoder
  unfolding emit
  encode_alloc_id alloc_id self = emit u64 alloc_id self

  unfoldable pub encode_crate_num : Session ser → n.CrateNum → ParalegalEncoder → ParalegalEncoder
  encode_crate_num session self s = record s {
    file_encoder = ser.stable_crate_id_codec.encode (session.stable_crate_id self) s.file_encoder;
  }

  unfoldable pub encode_def_index : ℕ → ParalegalEncoder → ParalegalEncoder
  unfolding emit
  encode_def_index self s = emit u32 self s

  pub record ParalegalDecoder : Type 0 where
    pub mem_decoder : ser.MemDecoder
    pub shorthand_map : HashMap ℕ n.Ty
    pub files : List ser.SourceFile

  unfoldable pub new_decoder : List ser.SourceFile → List ℕ → ParalegalDecoder
  new_decoder files buf = record {
    mem_decoder = ser.mem_decoder buf 0;
    shorthand_map = [];
    files = files;
  }

  -- What a read of the decoder below leaves of this one.
  abbrev pub resume :
      {A : Type 0}
      → ParalegalDecoder
      → Outcome (A × ser.MemDecoder)
      → Outcome (A × ParalegalDecoder)
  resume self read = read >>= λ (value, rest). ok (value, record self { mem_decoder = rest })

  -- The methods that `decoder_methods!` declares, and the three that follow them.
  unfoldable pub read : Width → ParalegalDecoder → Outcome (ℕ × ParalegalDecoder)
  read width self = resume self (ser.read width self.mem_decoder)

  unfoldable pub decoder_position : ParalegalDecoder → ℕ
  decoder_position self = ser.position self.mem_decoder

  unfoldable pub peek_byte : ParalegalDecoder → Outcome ℕ
  peek_byte self = ser.peek_byte self.mem_decoder

  unfoldable pub read_raw_bytes : ℕ → ParalegalDecoder → Outcome (List ℕ × ParalegalDecoder)
  read_raw_bytes len self = resume self (ser.read_raw_bytes len self.mem_decoder)

  unfoldable pub cached_ty_for_shorthand :
      ℕ
      → (ParalegalDecoder → Outcome (n.Ty × ParalegalDecoder))
      → ParalegalDecoder
      → Outcome (n.Ty × ParalegalDecoder)
  cached_ty_for_shorthand shorthand or_insert_with self =
      elim (HashMap.get ⦃e = nat_eq⦄ self.shorthand_map shorthand) [
        | some ty ↦ ok (ty, self)
        | none ↦ (do
          (ty, self') ← or_insert_with self
          let map = HashMap.upsert ⦃e = nat_eq⦄ self'.shorthand_map shorthand (λ _. ty) ty
          ok (ty, record self' { shorthand_map = map }))
      ]

  -- `NonZeroU64::new(..).unwrap()`
  unfoldable pub decode_alloc_id : ParalegalDecoder → Outcome (ℕ × ParalegalDecoder)
  decode_alloc_id self = do
    (id, self') ← read u64 self
    if nat_eqb id 0 then panic else ok (id, self')

  unfoldable pub with_position :
      {A : Type 0}
      → ℕ
      → (ParalegalDecoder → Outcome (A × ParalegalDecoder))
      → ParalegalDecoder
      → Outcome (A × ParalegalDecoder)
  with_position pos f self = do
    let old_opaque = self.mem_decoder
    (r, self') ← f (record self { mem_decoder = ser.mem_decoder (ser.data_of old_opaque) pos })
    ok (r, record self' { mem_decoder = old_opaque })

  unfoldable pub decode_crate_num :
      Session ser → ParalegalDecoder → Outcome (n.CrateNum × ParalegalDecoder)
  decode_crate_num session d = do
    (id, d') ← resume d (ser.stable_crate_id_codec.decode d.mem_decoder)
    crate_num ← session.stable_crate_id_to_crate_num id
    ok (crate_num, d')

  unfoldable pub decode_def_index : ParalegalDecoder → Outcome (ℕ × ParalegalDecoder)
  decode_def_index d = do
    (value, d') ← read u32 d
    index ← ser.def_index_from_u32 value
    ok (index, d')
