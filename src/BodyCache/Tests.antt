-- ===== src/BodyCache/Tests.antt =====
-- The dump of bodies on small inputs: the sample compiler writes two of its functions.
use scrutinizer.Prelude.{
  ◌≡◌, refl, ap, subst, arith, ℕ, ◌-◌, true, false, [], ◌∷◌, none, some, ok, panic, ◌>>=◌, nat_eqb,
  ok_injective, inl, inr, Bool-cases, if◌then◌else◌, is_empty, String,
}
use text.Mathlib.TextEquality.{eq_iff}
use scrutinizer.Prelude.Eq.{Eq, nat_eq, string_eq}
use scrutinizer.Prelude.HashMap
use scrutinizer.Rustc.Queries.{Artifact}
use scrutinizer.Rustc.Serialize.{Serialization, Session, FileName, other_name, u64}
use scrutinizer.Sample.{sample, names}
use scrutinizer.SampleFiles.{numbers}
use scrutinizer.Prelude.HashSet
use scrutinizer.BodyCache.{intermediate_out_dir, local_or_remote_paths, load_body_and_facts}
use scrutinizer.BodyCache.Dump.{
  Dumping, Files, retrieve, encoded, encode_to_file, encode_cached_body, decode_from_file,
  decode_cached_body, make_dir, create_dir, visit_fn, dump_mir_and_borrowck_facts,
  clean_undecodable_data_from_body,
}
use scrutinizer.BodyCache.Dump.Returns.{dirs_with, IsWritten, dump_mir_and_borrowck_facts_returns}
use scrutinizer.BodyCache.Dump.Loaded.{IsDerived, load_body_and_facts-dump}
use scrutinizer.BodyCache.Dump.{clean_block, clean_statement}
use scrutinizer.BodyCache.Cache.{get}
use scrutinizer.Analyzer.Heuristics.{has_raw_ptr_deref, has_transmute}
use scrutinizer.Analyzer.Heuristics.Cleaned.{
  IsCleaned, has_fake_read, clean_undecodable_data_from_body-heuristics,
}
use scrutinizer.BodyCache.Encoder.{emit, read, new_encoder, finish, new_decoder}
use scrutinizer.BodyCache.Encoder.{ParalegalDecoder}
mod Spans
mod Table

-- The sample compiler dumps the functions 1 and 4 into the files f and g.
abbrev pub path_name_eq : Eq (FileName String ℕ)
path_name_eq = record { beq = λ a b. true; beq_refl = λ a. refl; beq_congr = λ a b c h. refl }

abbrev pub disk_ser : Serialization names
disk_ser =
    numbers names (record { encode = λ a e. e; decode = λ d. panic }) (λ f. 0) (λ f. other_name f)
      nat_eq string_eq path_name_eq

abbrev pub disk_session : Session disk_ser
disk_session = record {
  stable_crate_id = λ c. c;
  stable_crate_id_to_crate_num = λ id. ok id;
  lookup_source_file = λ p. ok 0;
  file_exists = λ p. false;
  load_file = λ files p. panic;
  data_of_span = λ s. record { lo = 0; hi = 0; ctxt = 0; parent = none };
  span_of_data = λ d. d.lo;
  dummy_span = λ c. 0;
  is_dummy = λ d. true;
}

abbrev pub dumping : Dumping disk_ser
dumping = record {
  session = disk_session;
  source_files = [];
  visited_fns = 1 ∷ 4 ∷ [];
  body_with_facts = λ d. (if nat_eqb d 4 then 4 else 0, some 0);
  Scope = ℕ;
  source_scopes = λ b. [];
  clear_local_data = λ s. s;
  with_parts = λ b scopes blocks. if nat_eqb b 7 then 8 else b;
  encode_body = λ b s. ok (emit disk_ser u64 b s);
  encode_facts = λ f s. ok (emit disk_ser u64 f s);
  decode_body = λ d. read disk_ser u64 d;
  decode_facts = λ d. read disk_ser u64 d;
  can_create_dir = λ p. true;
}

derived : IsDerived dumping (λ v. v)
unfolding encoded decode_cached_body encode_cached_body new_encoder finish emit read new_decoder
derived = record {
  whole_file = λ path v buf h.
      subst
        (λ b.
          (x : ParalegalDecoder disk_ser) × (decode_cached_body dumping (new_decoder disk_ser [] b)
            ≡ ok (v, x)))
        (ok_injective h)
        (
          record {
            mem_decoder = record { buf = v.body ∷ v.subset_base ∷ []; at = 2 };
            shorthand_map = [];
            files = [];
          },
          refl,
        );
}

abbrev no_files : Files names
no_files = record { dirs = []; contents = [] }

abbrev on_disk : Files names
on_disk = record { dirs = "out" ∷ []; contents = ("f", 0 ∷ 0 ∷ []) ∷ ("g", 4 ∷ 0 ∷ []) ∷ [] }

not_held :
    (path : String)
    → string_eq.beq "f" path ≡ false
    → string_eq.beq "g" path ≡ false
    → HashMap.get ⦃e = string_eq⦄ on_disk.contents path ≡ none
unfolding HashMap.get
not_held path e e' = rw (e, e')

disk_decodes :
    (path : String) (v : Artifact names)
    → decode_from_file dumping on_disk path ≡ ok v
    → sample.decode_from_file path ≡ ok v
unfolding decode_from_file decode_cached_body new_decoder read HashMap.get
disk_decodes path v h = elim (Bool-cases (string_eq.beq "f" path)) [
  | inl e ↦ at_path "f" (λ k. ap ok (ok_injective k)) (str_iff "f" path e)
  | inr e ↦ elim (Bool-cases (string_eq.beq "g" path)) [
    | inl e' ↦ at_path "g" (λ k. ap ok (ok_injective k)) (str_iff "g" path e')
    | inr e' ↦ absurd (not_found (not_held path e e'))
  ]
]
  where
    not_found : HashMap.get ⦃e = string_eq⦄ on_disk.contents path ≡ none → ⊥
    not_found missing = cc (rw (missing, decode_from_file) at h)

    at_path :
        (p : String)
        → (decode_from_file dumping on_disk p ≡ ok v → sample.decode_from_file p ≡ ok v)
        → p ≡ path
        → sample.decode_from_file path ≡ ok v
    at_path p k same =
        subst (λ q. decode_from_file dumping on_disk q ≡ ok v → sample.decode_from_file q ≡ ok v)
          same k h

    str_iff : (a b : String) → string_eq.beq a b ≡ true → a ≡ b
    str_iff a b e = (eq_iff a b).0 e

load_body_and_facts-dump_example :
    (v : Artifact names) × (retrieve dumping 1 ≡ ok v) × (load_body_and_facts 1 ≡ ok v)
unfolding dump_mir_and_borrowck_facts visit_fn retrieve encode_to_file encoded encode_cached_body
    make_dir create_dir new_encoder finish emit intermediate_out_dir local_or_remote_paths
    HashMap.upsert HashSet.contains clean_undecodable_data_from_body
load_body_and_facts-dump_example =
    load_body_and_facts-dump dumping (λ v. v) derived "out" [] no_files on_disk [] (4 ∷ []) 1 refl
      refl (refl, tt) refl (record { reads = disk_decodes }) refl

body-IsCleaned : IsCleaned dumping 7
unfolding clean_undecodable_data_from_body clean_block clean_statement
body-IsCleaned = record { blocks_set = refl; types_kept = λ p. refl }

clean_undecodable_data_from_body-heuristics_example :
    (has_fake_read (sample.blocks (clean_undecodable_data_from_body dumping 7)) ≡ false)
    × (has_raw_ptr_deref (clean_undecodable_data_from_body dumping 7) ≡ has_raw_ptr_deref 7)
    × (has_transmute 0 (clean_undecodable_data_from_body dumping 7) ≡ has_transmute 0 7)
clean_undecodable_data_from_body-heuristics_example =
    clean_undecodable_data_from_body-heuristics dumping 0 7 body-IsCleaned

raw_write_found : has_raw_ptr_deref 7 ≡ true
unfolding has_raw_ptr_deref
raw_write_found = refl

dump_mir_and_borrowck_facts_returns_example :
    (files : Files names) × (dump_mir_and_borrowck_facts dumping no_files ≡ ok files)
    × (files.dirs
        ≡ (if is_empty dumping.visited_fns then [] else dirs_with dumping "out" no_files.dirs))
    × ((path : String) → IsWritten dumping "out" dumping.visited_fns no_files files path)
unfolding retrieve encoded encode_cached_body new_encoder finish emit intermediate_out_dir
    clean_undecodable_data_from_body HashSet.contains
dump_mir_and_borrowck_facts_returns_example =
    dump_mir_and_borrowck_facts_returns dumping "out" no_files refl refl
      ((_, _, refl, refl), ((_, _, refl, refl), tt))
