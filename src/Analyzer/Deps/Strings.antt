-- ===== src/Analyzer/Deps/Strings.antt =====
-- scrutils/src/analyzer/deps.rs: the dependency trees that are reported for the called crates. What
-- cargo prints is a parameter.
use scrutinizer.Prelude.{
  ◌≡◌, refl, ap, ◌∙◌, sym, arith, Bool, true, false, not, List, [], ◌∷◌, ◌++◌, map, Option, none,
  some, Outcome, ok, panic, ◌>>=◌, >>=-split, expect, collect, keep, any, find, nat_eqb,
  if◌then◌else◌, cons_some, ok_injective, inl, inr, Option-cases, is_some,
}
use scrutinizer.Prelude.Text.{Text, codes, split_lines, split_whitespace, contains_text, is_blank}

-- What `cargo tree` prints: for the package itself to depth 1, and for a package. `none` outside
-- where it does not run, inside where the output is not UTF-8.
pub record Cargo : Type 0 where
  pub direct_tree : Option (Option Text)
  pub package_tree : Text → Option (Option Text)

-- `output().unwrap()` and `String::from_utf8(..).unwrap()`
unfoldable pub stdout_of : Option (Option Text) → Outcome Text
stdout_of output = do printed ← expect output; expect printed

-- A line of the tree: the name and the version, without every `v` in it. It panics on one word.
unfoldable pub dep_spec : List Text → Outcome Text
dep_spec (dep ∷ ver ∷ _) = ok (dep ++ codes "@" ++ keep (λ c. not (nat_eqb c b'v')) ver)
dep_spec _ = panic

unfoldable pub get_direct_deps : Cargo → Outcome (List Text)
get_direct_deps cargo = do
  stdout ← stdout_of cargo.direct_tree
  collect (λ line. dep_spec (split_whitespace line))
      (keep (λ line. not (is_blank line)) (split_lines stdout))

-- The entry of a crate: the tree of the first direct dependency whose text contains its name.
unfoldable pub dep_string : Cargo → List Text → Text → Outcome (Option (Text × Text))
dep_string cargo direct_deps crate_name =
    elim (find (λ spec. contains_text spec crate_name) direct_deps) [
      | none ↦ ok none
      | some spec ↦ (do tree ← stdout_of (cargo.package_tree spec); ok (some (crate_name, tree)))
    ]

unfoldable pub dep_strings : Cargo → List Text → List Text → Outcome (List (Text × Text))
dep_strings cargo direct_deps [] = ok []
dep_strings cargo direct_deps (crate_name ∷ rest) = do
  entry ← dep_string cargo direct_deps crate_name
  entries ← dep_strings cargo direct_deps rest
  ok (cons_some entry entries)

unfoldable pub compute_dep_strings_for_crates : Cargo → List Text → Outcome (List (Text × Text))
compute_dep_strings_for_crates cargo crate_names = do
  direct_deps ← get_direct_deps cargo
  dep_strings cargo direct_deps crate_names

-- Whether a crate is named in one of the direct dependencies.
abbrev pub is_named : List Text → Text → Bool
is_named direct_deps crate_name = any (λ spec. contains_text spec crate_name) direct_deps

is_some-find {ℓ} : {A : Type ℓ} (p : A → Bool) (xs : List A) → is_some (find p xs) ≡ any p xs
is_some-find p [] = refl
is_some-find p (x ∷ xs) = ground (arith, is_some-find p xs)

abbrev keys : List (Text × Text) → List Text
keys = map (λ e. e.0)

dep_string-key :
    (cargo : Cargo) (direct_deps : List Text) (crate_name : Text) {entry : Option (Text × Text)}
    (entries : List (Text × Text))
    → dep_string cargo direct_deps crate_name ≡ ok entry
    → keys (cons_some entry entries)
      ≡ (if is_named direct_deps crate_name then crate_name ∷ keys entries else keys entries)
unfolding dep_string
dep_string-key cargo direct_deps crate_name {entry} entries h =
    elim (Option-cases (find (λ spec. contains_text spec crate_name) direct_deps)) [
      | inl e ↦
          let unnamed : is_named direct_deps crate_name ≡ false =
            sym (is_some-find _ direct_deps) ∙ ap is_some e in
          rw unnamed
            (ap (λ o. keys (cons_some o entries)) (sym (ok_injective (rw (e, dep_string) at h))))
      | inr (spec, e) ↦
          let named : is_named direct_deps crate_name ≡ true =
            sym (is_some-find _ direct_deps) ∙ ap is_some e in
          let (tree, _, same) =
            >>=-split (stdout_of (cargo.package_tree spec)) _ (rw (e, dep_string) at h) in
          rw named (ap (λ o. keys (cons_some o entries)) (sym (ok_injective same)))
    ]

dep_strings-keys :
    (cargo : Cargo) (direct_deps crate_names : List Text) (entries : List (Text × Text))
    → dep_strings cargo direct_deps crate_names ≡ ok entries
    → keys entries ≡ keep (is_named direct_deps) crate_names
unfolding dep_strings
dep_strings-keys cargo direct_deps [] entries h = ap keys (sym (ok_injective h))
dep_strings-keys cargo direct_deps (crate_name ∷ rest) entries h =
    let (entry, e1, h1) = >>=-split (dep_string cargo direct_deps crate_name) _ h in
    let (others, e2, h2) = >>=-split (dep_strings cargo direct_deps rest) _ h1 in
    ap keys (sym (ok_injective h2))
    ∙ dep_string-key cargo direct_deps crate_name others e1
    ∙ ap (λ l. if is_named direct_deps crate_name then crate_name ∷ l else l)
        (dep_strings-keys cargo direct_deps rest others e2)

-- When the trees are computed, those crates have one, in their order, whose name is contained in the
-- text of a direct dependency, and no others.
pub compute_dep_strings_for_crates-keys :
    (cargo : Cargo) (crate_names : List Text) (entries : List (Text × Text))
    → compute_dep_strings_for_crates cargo crate_names ≡ ok entries
    → (direct_deps : List Text) × (get_direct_deps cargo ≡ ok direct_deps)
      × (map (λ e. e.0) entries ≡ keep (is_named direct_deps) crate_names)
unfolding compute_dep_strings_for_crates
compute_dep_strings_for_crates-keys cargo crate_names entries h =
    let (direct_deps, e, h1) = >>=-split (get_direct_deps cargo) _ h in
    (direct_deps, e, dep_strings-keys cargo direct_deps crate_names entries h1)
