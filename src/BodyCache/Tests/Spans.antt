-- ===== src/BodyCache/Tests/Spans.antt =====
-- The encoder of spans and types on a small file of numbers.
use scrutinizer.Prelude.{
  ◌≡◌, refl, arith, ℕ, ◌+◌, ◌-◌, true, false, ◌&&◌, List, [], ◌∷◌, ◌++◌, none, some, Outcome, ok,
  panic, nat_eqb,
}
use Prim.Native.Nat.{◌%◌, ◌/◌}
use scrutinizer.Prelude.Eq.{Eq, nat_eq, string_eq, lists_eq, lists_eq_refl, lists_eq_congr}
use scrutinizer.Prelude.HashMap
use scrutinizer.Rustc.Names.{Names}
use scrutinizer.Rustc.Serialize.{
  Serialization, Session, SpanData, FileName, local_path, remapped, other_name, IsSerializer,
  IsFaithful,
}
use scrutinizer.Sample.{sample, names}
use scrutinizer.SampleFiles.{
  numbers, number_codec, name_codec, name_words, name_of_tag, next_lem, Reader, rest_of,
}
use scrutinizer.BodyCache.Encoder.{
  ParalegalEncoder, ParalegalDecoder, cached_ty_for_shorthand, with_position,
}
use scrutinizer.BodyCache.Encoder.Spans.{
  encode_span_data, decode_span_data, is_matching_file, take_local_path, ends_alike,
  path_in_real_path,
}
use scrutinizer.BodyCache.Encoder.SpanBytes.{LiesIn, IsSameFile}
use scrutinizer.BodyCache.Encoder.SpanRoundTrip.{Takes, decode_span_data-encode_span_data}
use scrutinizer.BodyCache.Encoder.Shorthands.{cached_ty_for_shorthand-with_position}

abbrev name_eq : Eq (FileName ℕ ℕ)
name_eq = record {
  beq = λ a b. lists_eq nat_eqb (name_words a) (name_words b);
  beq_refl = λ a. lists_eq_refl nat_eqb nat_eq.beq_refl (name_words a);
  beq_congr =
      λ a b c. lists_eq_congr nat_eqb nat_eq.beq_congr (name_words a) (name_words b) (name_words c);
}

abbrev numbered : Names
numbered = record names { FilePath = ℕ }

-- The files 1 and 11 have the same name; a file begins at a hundred times its number.
abbrev ser : Serialization numbered
ser = numbers numbered name_codec (λ f. 0) (λ f. local_path (f % 10)) nat_eq nat_eq name_eq

abbrev session : ℕ → Session ser
session key = record {
  stable_crate_id = λ c. c + 7;
  stable_crate_id_to_crate_num = λ id. ok (id - 7);
  lookup_source_file = λ p. ok (p / 100);
  file_exists = λ p. false;
  load_file = λ files p. panic;
  data_of_span = λ s. record { lo = 0; hi = 0; ctxt = 0; parent = none };
  span_of_data = λ d. d.lo;
  dummy_span = λ c. 0;
  is_dummy = λ d. nat_eqb d.lo 0 && nat_eqb d.hi 0;
}

number_faithful : IsFaithful ser (λ e. e) number_codec
number_faithful = record {
  bytes = λ a. a ∷ [];
  encode_bytes = λ a e. refl;
  decode_bytes = next_lem;
}

-- The tag of a name and the word behind it.
tagged :
    (tag v : ℕ) (d : Reader) (rest : List ℕ)
    → rest_of d ≡ tag ∷ v ∷ rest
    → (d' : Reader) × (name_codec.decode d ≡ name_of_tag tag v d') × (rest_of d' ≡ rest)
tagged tag v d rest h =
    let (d1, e1, l1) = next_lem tag d (v ∷ rest) h in
    let (d2, e2, l2) = next_lem v d1 rest l1 in (d2, rw (e1, e2), l2)

decode_name :
    (a : FileName ℕ ℕ) (d : Reader) (rest : List ℕ)
    → rest_of d ≡ name_words a ++ rest
    → (d' : Reader) × (name_codec.decode d ≡ ok (a, d')) × (rest_of d' ≡ rest)
decode_name (local_path p) d rest h = tagged 0 p d rest h
decode_name (remapped none v) d rest h = tagged 1 v d rest h
decode_name (remapped (some p) v) d rest h =
    let (d1, e1, l1) = tagged 2 v d (p ∷ rest) h in
    let (d2, e2, l2) = next_lem p d1 rest l1 in (d2, rw e1 (rw e2), l2)
decode_name (other_name o) d rest h = tagged 3 o d rest h

name_faithful : IsFaithful ser (λ e. e) name_codec
name_faithful = record {
  bytes = name_words;
  encode_bytes = λ a e. refl;
  decode_bytes = decode_name;
}

promise : IsSerializer ser
promise = record {
  written = λ e. e;
  word = λ w v. v ∷ [];
  emit_word = λ w v e. refl;
  read_word = λ w v d rest small h. next_lem v d rest h;
  stable_crate_id_faithful = number_faithful;
  file_name_faithful = name_faithful;
}

abbrev span_at : ℕ → ℕ → SpanData ser
span_at lo hi = record { lo = lo; hi = hi; ctxt = 5; parent = none }

abbrev blank_encoder : ParalegalEncoder ser
blank_encoder = record { file_encoder = []; type_shorthands = []; predicate_shorthands = [] }

abbrev reader_of : List ℕ → ParalegalDecoder ser
reader_of buf = record {
  mem_decoder = record { buf = buf; at = 0 };
  shorthand_map = [];
  files = 11 ∷ 2 ∷ [];
}

span_lies : LiesIn promise 1 11 (span_at 110 120)
span_lies = record {
  after_start = omega arith;
  ordered = omega arith;
  small = omega arith;
  small_there = omega arith;
  holds_lo = refl;
}

same_file : IsSameFile promise (session 7) (session 7) 1 11
same_file = record { crate_there = 0; same_crate = refl; same_extent = λ offset. ground arith }

decode_span_data-encode_span_data_example :
    ((s' : ParalegalEncoder ser) × (encode_span_data ser (session 7) (span_at 110 120) blank_encoder
        ≡ ok s')
      × (s'.file_encoder ≡ 1 ∷ 7 ∷ 0 ∷ 1 ∷ 10 ∷ 10 ∷ []))
    × Takes promise
        (decode_span_data ser (session 7) true (reader_of (1 ∷ 7 ∷ 0 ∷ 1 ∷ 10 ∷ 10 ∷ [])))
        (reader_of (1 ∷ 7 ∷ 0 ∷ 1 ∷ 10 ∷ 10 ∷ []))
        (record { lo = 1110; hi = 1120; ctxt = 0; parent = none })
        []
unfolding is_matching_file take_local_path ends_alike path_in_real_path promise number_faithful
    name_faithful same_file
decode_span_data-encode_span_data_example =
    decode_span_data-encode_span_data promise (session 7) (session 7) 1 11 (span_at 110 120)
      span_lies same_file true blank_encoder (reader_of (1 ∷ 7 ∷ 0 ∷ 1 ∷ 10 ∷ 10 ∷ [])) [] refl refl
      refl

-- At position 3 of the file stands a type, which the next reader would decode otherwise.
abbrev read_type : ParalegalDecoder ser → Outcome (ℕ × ParalegalDecoder ser)
read_type d = ok (d.mem_decoder.at, d)

abbrev resolved : ParalegalDecoder ser
resolved = record (reader_of (1 ∷ 2 ∷ 3 ∷ 4 ∷ [])) { shorthand_map = (3, 3) ∷ [] }

cached_ty_for_shorthand-with_position_example :
    (resolved.mem_decoder ≡ (reader_of (1 ∷ 2 ∷ 3 ∷ 4 ∷ [])).mem_decoder)
    × (cached_ty_for_shorthand ser 3 (λ d. panic) resolved ≡ ok (3, resolved))
unfolding cached_ty_for_shorthand with_position HashMap.get HashMap.upsert
cached_ty_for_shorthand-with_position_example =
    cached_ty_for_shorthand-with_position 3 read_type (λ d. panic) (reader_of (1 ∷ 2 ∷ 3 ∷ 4 ∷ []))
      resolved 3 refl
