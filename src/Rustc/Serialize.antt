-- ===== src/Rustc/Serialize.antt =====
-- `rustc_serialize`, the source map and the crate numbers of a compilation: what the encoder of the
-- artifacts asks of them. The bytes of a value of the compiler's own types are not in the
-- repository; `IsFaithful` states what is documented of them.
use scrutinizer.Prelude.{◌≡◌, ℕ, ◌<◌, Bool, List, ◌++◌, Option, Outcome, ok, drop}
use Prim.Native.Nat.{◌^◌}
use scrutinizer.Prelude.Eq.{Eq}
use scrutinizer.Rustc.Names.{Names}

-- The integers that an encoder emits. A signed one is given by its bit pattern.
pub data Width : Type 0 where
  usize u128 u64 u32 u16 u8 isize i128 i64 i32 i16 : Width

abbrev pub bits : Width → ℕ
bits usize = 64
bits u128 = 128
bits u64 = 64
bits u32 = 32
bits u16 = 16
bits u8 = 8
bits isize = 64
bits i128 = 128
bits i64 = 64
bits i32 = 32
bits i16 = 16

-- `rustc_span::FileName`, with the paths of `FileName::Real`.
pub data FileName (FilePath OtherName : Type 0) : Type 0 where
  local_path : FilePath → FileName FilePath OtherName
  remapped : Option FilePath → FilePath → FileName FilePath OtherName
  other_name : OtherName → FileName FilePath OtherName

-- `Encodable` and `Decodable` of a type of the compiler.
pub record Codec (Encoder Decoder A : Type 0) : Type 0 where
  pub encode : A → Encoder → Encoder
  pub decode : Decoder → Outcome (A × Decoder)

pub record Serialization (n : Names) : Type 1 where
  pub StableCrateId : Type 0
  pub SourceFile : Type 0
  pub OtherName : Type 0
  pub SyntaxContext : Type 0
  pub Span : Type 0
  pub PredicateKind : Type 0
  pub FileEncoder : Type 0
  pub MemDecoder : Type 0
  -- `FileEncoder`: `new` and `finish` fail where the file cannot be written; `finish` leaves a file
  -- of these bytes
  pub create : n.FilePath → Option FileEncoder
  pub emit : Width → ℕ → FileEncoder → FileEncoder
  pub emit_raw_bytes : List ℕ → FileEncoder → FileEncoder
  pub encoder_position : FileEncoder → ℕ
  pub finish : FileEncoder → Option (List ℕ)
  -- `MemDecoder`: reading past the end is a panic
  pub mem_decoder : List ℕ → ℕ → MemDecoder
  pub data_of : MemDecoder → List ℕ
  pub position : MemDecoder → ℕ
  pub read : Width → MemDecoder → Outcome (ℕ × MemDecoder)
  pub peek_byte : MemDecoder → Outcome ℕ
  pub read_raw_bytes : ℕ → MemDecoder → Outcome (List ℕ × MemDecoder)
  -- the compiler's own encodings
  pub stable_crate_id_codec : Codec FileEncoder MemDecoder StableCrateId
  pub file_name_codec : Codec FileEncoder MemDecoder (FileName n.FilePath OtherName)
  -- `DefIndex::from_u32`, which asserts a bound
  pub def_index_from_u32 : ℕ → Outcome ℕ
  -- source files and spans
  pub crate_num_of : SourceFile → n.CrateNum
  pub name_of : SourceFile → FileName n.FilePath OtherName
  pub start_pos : SourceFile → ℕ
  pub contains : SourceFile → ℕ → Bool
  pub root_context : SyntaxContext
  -- comparisons: of file names, of crate numbers, of paths, and whether a path ends with another
  pub file_name_eq : Eq (FileName n.FilePath OtherName)
  pub crate_num_eq : Eq n.CrateNum
  pub path_eq : Eq n.FilePath
  pub ends_with : n.FilePath → n.FilePath → Bool

-- `rustc_span::SpanData`
pub record SpanData {n : Names} (ser : Serialization n) : Type 0 where
  pub lo : ℕ
  pub hi : ℕ
  pub ctxt : ser.SyntaxContext
  pub parent : Option n.DefId

-- One compilation: `TyCtxt` as far as the encoder uses it.
pub record Session {n : Names} (ser : Serialization n) : Type 0 where
  pub stable_crate_id : n.CrateNum → ser.StableCrateId
  -- a panic where the crate is not loaded
  pub stable_crate_id_to_crate_num : ser.StableCrateId → Outcome n.CrateNum
  pub lookup_source_file : ℕ → Outcome ser.SourceFile
  pub file_exists : n.FilePath → Bool
  -- `load_file`: the file, and the files of the source map from then on
  pub load_file : List ser.SourceFile → n.FilePath → Outcome (ser.SourceFile × List ser.SourceFile)
  -- `span.data()`, `data.span()`, `DUMMY_SP.with_ctxt(ctxt)` and `data.is_dummy()`
  pub data_of_span : ser.Span → SpanData ser
  pub span_of_data : SpanData ser → ser.Span
  pub dummy_span : ser.SyntaxContext → ser.Span
  pub is_dummy : SpanData ser → Bool

module _ {n : Names} (ser : Serialization n) where
  -- What is left to read.
  abbrev pub remaining : ser.MemDecoder → List ℕ
  remaining d = drop (ser.position d) (ser.data_of d)

  -- A value reads back as it was written, and what follows it is left to read.
  pub record IsFaithful (written : ser.FileEncoder → List ℕ) {A : Type 0}
      (codec : Codec ser.FileEncoder ser.MemDecoder A) : Type 0 where
    pub bytes : A → List ℕ
    pub encode_bytes :
        (a : A) (e : ser.FileEncoder) → written (codec.encode a e) ≡ written e ++ bytes a
    pub decode_bytes :
        (a : A) (d : ser.MemDecoder) (rest : List ℕ)
        → remaining d ≡ bytes a ++ rest
        → (d' : ser.MemDecoder) × (codec.decode d ≡ ok (a, d')) × (remaining d' ≡ rest)

  -- What `rustc_serialize` and the compiler's encodings promise. `written` is what an encoder has
  -- been given so far.
  pub record IsSerializer : Type 0 where
    pub written : ser.FileEncoder → List ℕ
    pub word : Width → ℕ → List ℕ
    pub emit_word :
        (w : Width) (v : ℕ) (e : ser.FileEncoder) → written (ser.emit w v e) ≡ written e ++ word w v
    pub read_word :
        (w : Width) (v : ℕ) (d : ser.MemDecoder) (rest : List ℕ)
        → v < 2 ^ bits w
        → remaining d ≡ word w v ++ rest
        → (d' : ser.MemDecoder) × (ser.read w d ≡ ok (v, d')) × (remaining d' ≡ rest)
    pub stable_crate_id_faithful : IsFaithful written ser.stable_crate_id_codec
    pub file_name_faithful : IsFaithful written ser.file_name_codec
