-- ===== src/SampleFiles.antt =====
-- A small serializer for the tests: each value is one number in the file.
use scrutinizer.Prelude.{
  ◌≡◌, ap, ℕ, zero, suc, false, List, [], ◌∷◌, ◌++◌, none, some, Outcome, ok, panic, ◌>>=◌, drop,
  nat_eqb,
}
use Prim.Native.Nat.{◌*◌, ◌/◌}
use scrutinizer.Prelude.Eq.{Eq}
use scrutinizer.Rustc.Names.{Names}
use scrutinizer.Rustc.Serialize.{Codec, Serialization, FileName, local_path, remapped, other_name}

pub record Reader : Type 0 where
  pub buf : List ℕ
  pub at : ℕ

abbrev pub rest_of : Reader → List ℕ
rest_of d = drop d.at d.buf

-- The next number, and the position behind it.
abbrev pub next_of : List ℕ → Reader → Outcome (ℕ × Reader)
next_of [] d = panic
next_of (v ∷ _) d = ok (v, record d { at = suc d.at })

abbrev pub next : Reader → Outcome (ℕ × Reader)
next d = next_of (rest_of d) d

drop-suc :
    (p : ℕ) (xs : List ℕ) (v : ℕ) (rest : List ℕ) → drop p xs ≡ v ∷ rest → drop (suc p) xs ≡ rest
drop-suc zero (x ∷ xs) v rest h = cc
drop-suc zero [] v rest h = absurd (cc)
drop-suc (suc p) (x ∷ xs) v rest h = drop-suc p xs v rest h
drop-suc (suc p) [] v rest h = absurd (cc)

pub next_lem :
    (v : ℕ) (d : Reader) (rest : List ℕ)
    → rest_of d ≡ v ∷ rest
    → (d' : Reader) × (next d ≡ ok (v, d')) × (rest_of d' ≡ rest)
next_lem v d rest h =
    (record d { at = suc d.at }, ap (λ l. next_of l d) h, drop-suc d.at d.buf v rest h)

abbrev pub number_codec : Codec (List ℕ) Reader ℕ
number_codec = record { encode = λ a e. e ++ a ∷ []; decode = next }

-- File names whose paths are numbers.
abbrev pub name_words : FileName ℕ ℕ → List ℕ
name_words (local_path p) = 0 ∷ p ∷ []
name_words (remapped none v) = 1 ∷ v ∷ []
name_words (remapped (some p) v) = 2 ∷ v ∷ p ∷ []
name_words (other_name o) = 3 ∷ o ∷ []

abbrev pub name_of_tag : ℕ → ℕ → Reader → Outcome (FileName ℕ ℕ × Reader)
name_of_tag zero p d = ok (local_path p, d)
name_of_tag (suc zero) p d = ok (remapped none p, d)
name_of_tag (suc (suc zero)) v d = do (p, d') ← next d; ok (remapped (some p) v, d')
name_of_tag (suc (suc (suc _))) o d = ok (other_name o, d)

abbrev pub name_codec : Codec (List ℕ) Reader (FileName ℕ ℕ)
name_codec = record {
  encode = λ a e. e ++ name_words a;
  decode = λ d. (do (tag, d') ← next d; (v, d'') ← next d'; name_of_tag tag v d'');
}

-- The parts that the tests do not look at are chosen as simple as can be.
abbrev pub numbers :
    (n : Names)
    → Codec (List ℕ) Reader (FileName n.FilePath ℕ)
    → (ℕ → n.CrateNum)
    → (ℕ → FileName n.FilePath ℕ)
    → Eq n.CrateNum
    → Eq n.FilePath
    → Eq (FileName n.FilePath ℕ)
    → Serialization n
numbers n names crate_of name_of crate_eq path_eq name_eq = record {
  StableCrateId = ℕ;
  SourceFile = ℕ;
  OtherName = ℕ;
  SyntaxContext = ℕ;
  Span = ℕ;
  PredicateKind = ℕ;
  FileEncoder = List ℕ;
  MemDecoder = Reader;
  create = λ p. some [];
  emit = λ w v e. e ++ v ∷ [];
  emit_raw_bytes = λ bs e. e ++ bs;
  encoder_position = λ e. 0;
  finish = λ e. some e;
  mem_decoder = λ buf pos. record { buf = buf; at = pos };
  data_of = λ d. d.buf;
  position = λ d. d.at;
  read = λ w d. next d;
  peek_byte = λ d. ok 0;
  read_raw_bytes = λ n d. ok ([], d);
  stable_crate_id_codec = number_codec;
  file_name_codec = names;
  def_index_from_u32 = λ v. ok v;
  crate_num_of = crate_of;
  name_of = name_of;
  start_pos = λ f. 100 * f;
  contains = λ f p. nat_eqb (p / 100) f;
  root_context = 0;
  file_name_eq = name_eq;
  crate_num_eq = crate_eq;
  path_eq = path_eq;
  ends_with = λ p q. false;
}
