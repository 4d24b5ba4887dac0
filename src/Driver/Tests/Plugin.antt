-- ===== src/Driver/Tests/Plugin.antt =====
-- The plugin's part in a build on small inputs.
use scrutinizer.Prelude.{
  ◌≡◌, refl, true, List, [], ◌∷◌, some, ok, keep, All, all, not, nat_eqb, String, arith,
}
use scrutinizer.Prelude.Text.{
  Text, codes, newline, IsLine, starts_with, split_lines, split_whitespace, contains_text,
}
use scrutinizer.Driver.Plugin.{Command, modify_cargo, set_env, old_rustflags_in}
use scrutinizer.Driver.Plugin.Modified.{modify_cargo-host}
use scrutinizer.Analyzer.Deps.Strings.{
  Cargo, stdout_of, dep_spec, get_direct_deps, dep_string, dep_strings,
  compute_dep_strings_for_crates, is_named, compute_dep_strings_for_crates-keys,
}

abbrev cargo_call : Command
cargo_call = record {
  envs = (codes "RUSTFLAGS", some (some (codes "-g"))) ∷ [];
  args = codes "check" ∷ [];
}

IsLine-codes : (line : Text) → all (λ c. not (nat_eqb c newline)) line ≡ true → IsLine line
IsLine-codes [] h = tt
IsLine-codes (c ∷ cs) h = (ground arith, IsLine-codes cs (ground arith))

IsLine-of : (s : String) → all (λ c. not (nat_eqb c newline)) (codes s) ≡ true → IsLine (codes s)
IsLine-of s h = IsLine-codes (codes s) h

abbrev rustc_lines : List Text
rustc_lines = codes "rustc 1.74" ∷ codes "host: x86" ∷ codes "release: 1" ∷ []

named_lines : All IsLine rustc_lines
named_lines =
    (IsLine-of "rustc 1.74" refl, (IsLine-of "host: x86" refl, (IsLine-of "release: 1" refl, tt)))

modify_cargo-host_example :
    modify_cargo (some (some (codes "rustc 1.74\nhost: x86\nrelease: 1\n"))) cargo_call
    ≡ ok (record {
      envs = (codes "RUSTFLAGS", some (some (codes "-Zalways-encode-mir -g"))) ∷ [];
      args =
          codes "check" ∷ codes "-Zbuild-std=std,core,alloc,proc_macro" ∷ codes "--target=x86" ∷ [];
    })
unfolding set_env old_rustflags_in starts_with
modify_cargo-host_example =
    modify_cargo-host (codes "rustc 1.74" ∷ []) (codes "release: 1" ∷ []) b'x' (codes "86")
      (codes "-g") cargo_call named_lines (refl, tt) refl

-- A crate of the package `rustc-utils` is called `rustc_utils`, and is not found.
abbrev tree : Cargo
tree = record {
  direct_tree = some (some (codes "log v0.4\nrustc-utils v0.7 (/src)\n"));
  package_tree = λ spec. some (some spec);
}

abbrev crates : List Text
crates = codes "log" ∷ codes "rustc_utils" ∷ []

trees_computed :
    compute_dep_strings_for_crates tree crates ≡ ok ((codes "log", codes "log@0.4") ∷ [])
unfolding compute_dep_strings_for_crates dep_strings dep_string get_direct_deps dep_spec stdout_of
    split_lines split_whitespace contains_text
trees_computed = refl

compute_dep_strings_for_crates-keys_example :
    (direct_deps : List Text) × (get_direct_deps tree ≡ ok direct_deps)
    × ((codes "log" ∷ []) ≡ keep (is_named direct_deps) crates)
compute_dep_strings_for_crates-keys_example =
    compute_dep_strings_for_crates-keys tree crates ((codes "log", codes "log@0.4") ∷ [])
      trees_computed
