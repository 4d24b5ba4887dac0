-- ===== src/Driver/Plugin/Modified.antt =====
-- scrutinizer/src/lib.rs: what `modify_cargo` makes of the output of rustc.
use scrutinizer.Prelude.{
  ◌≡◌, refl, ap, ◌∙◌, ℕ, false, List, [], ◌∷◌, ◌++◌, some, ok, All, All-append, drop, if◌then◌else◌,
  append_assoc,
}
use scrutinizer.Prelude.Text.{
  Text, codes, IsLine, terminated, split_lines, split_lines-terminated, starts_with,
}
use scrutinizer.Driver.Plugin.{Command, modify_cargo, target_in, set_env, old_rustflags_in}

abbrev pub host_line : Text → Text
host_line target = codes "host: " ++ target

abbrev pub IsOther : Text → Type 0
IsOther line = starts_with line (codes "host: ") ≡ false

target_in-others :
    (target : Text) (lines : List Text) → All IsOther lines → target_in target lines ≡ target
unfolding target_in
target_in-others target [] h = refl
target_in-others target (line ∷ lines) (other, h) = rw other (target_in-others target lines h)

target_in-host :
    (old target : Text) (before after : List Text)
    → All IsOther after
    → target_in old (before ++ host_line target ∷ after) ≡ target
unfolding target_in starts_with
target_in-host old target [] after h = target_in-others target after h
target_in-host old target (line ∷ before) after h =
    target_in-host (if starts_with line (codes "host: ") then drop 6 line else old) target before
      after h

-- Where the lines that rustc prints hold one that names a host, and none after it begins so, cargo is
-- called for that target, builds the standard library, and encodes all MIR beside the flags that were
-- set before.
pub modify_cargo-host :
    (before after : List Text) (c : ℕ) (cs old : Text) (cargo : Command)
    → All IsLine (before ++ host_line (c ∷ cs) ∷ after)
    → All IsOther after
    → old_rustflags_in [] cargo.envs ≡ ok old
    → modify_cargo (some (some (terminated (before ++ host_line (c ∷ cs) ∷ after)))) cargo
      ≡ ok (record {
        envs = set_env (codes "RUSTFLAGS") (codes "-Zalways-encode-mir " ++ old) cargo.envs;
        args =
            cargo.args
            ++ codes "-Zbuild-std=std,core,alloc,proc_macro" ∷ (codes "--target=" ++ c ∷ cs) ∷ [];
      })
unfolding modify_cargo
modify_cargo-host before after c cs old cargo lines others flags = rw (found, flags)
  where
    found : target_in [] (split_lines (terminated (before ++ host_line (c ∷ cs) ∷ after))) ≡ c ∷ cs
    found =
        ap (target_in []) (split_lines-terminated _ lines)
        ∙ ap (target_in []) (append_assoc before (host_line (c ∷ cs) ∷ after) ([] ∷ []))
        ∙ target_in-host [] (c ∷ cs) before (after ++ [] ∷ [])
            (All-append IsOther after _ others (unfold starts_with in (refl, tt)))
