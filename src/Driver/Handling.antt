-- ===== src/Driver/Handling.antt =====
-- scrutinizer/src/lib.rs: how a crate is handled, after its name on the command line.
use text.Mathlib.TextEquality.{eq_iff}
use mathlib.Core.Option
use scrutinizer.Prelude.{
  ℕ, suc, ◌++◌, find, get_elem?, enumerate_from, Bool-cases, Option-cases, inl, inr, some_injective,
  subst, Bool, true, false, ◌≡◌, ◌↔◌, refl, sym, ap, ◌∙◌, String, List, [], ◌∷◌, Option, none, some,
  All,
}
use scrutinizer.Prelude.Eq.{◌==◌, string_eq}
use scrutinizer.Driver.{
  analyze, compile_and_dump, handling, crate_name_of, how_to_handle_this_crate,
}

-- The argument after the first `--crate-name`.
abbrev pub IsCrateName : List String → String → Type 0
IsCrateName args name =
    (before : List String) × (after : List String) × (args
      ≡ before ++ "--crate-name" ∷ name ∷ after)
    × All (λ arg. (arg == "--crate-name") ≡ false) before

find-enumerate :
    (k : ℕ) (args : List String)
    → find (λ p. p.1 == "--crate-name") (enumerate_from (suc k) args)
      ≡ Option.map (λ p. (suc p.0, p.1)) (find (λ p. p.1 == "--crate-name") (enumerate_from k args))
find-enumerate k [] = refl
find-enumerate k (arg ∷ args) = elim (Bool-cases (arg == "--crate-name")) [
  | inl e ↦ rw e refl
  | inr e ↦ rw (e, find-enumerate (suc k) args) refl
]

-- An argument that is not `--crate-name` does not count.
crate_name_of-skip :
    (arg : String) (args : List String)
    → (arg == "--crate-name") ≡ false
    → crate_name_of (arg ∷ args) ≡ crate_name_of args
unfolding crate_name_of
crate_name_of-skip arg args e =
    rw (e, find-enumerate 0 args)
      (elim (Option-cases (find (λ p. p.1 == "--crate-name") (enumerate_from 0 args))) [
        | inl n ↦ rw n refl
        | inr (p, f) ↦ rw f refl
      ])

crate_name_of-here :
    (arg : String) (args : List String)
    → (arg == "--crate-name") ≡ true
    → crate_name_of (arg ∷ args) ≡ get_elem? args 0
unfolding crate_name_of
crate_name_of-here arg args e = rw e refl

crate_name_of-found :
    (args : List String) (name : String) → IsCrateName args name → crate_name_of args ≡ some name
crate_name_of-found args name ([], after, e, others) =
    ap crate_name_of e ∙ crate_name_of-here "--crate-name" (name ∷ after) refl
crate_name_of-found args name (arg ∷ before, after, e, (other, others)) =
    ap crate_name_of e
    ∙ crate_name_of-skip arg (before ++ "--crate-name" ∷ name ∷ after) other
    ∙ crate_name_of-found _ name (before, after, refl, others)

-- The name that `crate_name_of` gives is the crate's, and where it gives none there is none.
crate_name_of-IsCrateName :
    (args : List String) (name : String) → crate_name_of args ≡ some name → IsCrateName args name
unfolding crate_name_of
crate_name_of-IsCrateName [] name h = absurd (cc)
crate_name_of-IsCrateName (arg ∷ args) name h = elim (Bool-cases (arg == "--crate-name")) [
  | inl e ↦ at_flag arg args name e (sym (crate_name_of-here arg args e) ∙ h)
  | inr e ↦
      let (before, after, split, others) =
        crate_name_of-IsCrateName args name (sym (crate_name_of-skip arg args e) ∙ h) in
      (arg ∷ before, after, ap (λ l. arg ∷ l) split, (e, others))
]
  where
    at_flag :
        (arg : String) (args : List String) (name : String)
        → (arg == "--crate-name") ≡ true
        → get_elem? args 0 ≡ some name
        → IsCrateName (arg ∷ args) name
    at_flag arg (next ∷ args) name e h = (
      [],
      args,
      ap (λ l. l ∷ next ∷ args) ((eq_iff arg "--crate-name").0 e)
          ∙ ap (λ l. "--crate-name" ∷ l ∷ args) (some_injective h),
      tt,
    )
    at_flag arg [] name e h = absurd (cc)

no_name :
    (args : List String) (name : String) → crate_name_of args ≡ none → IsCrateName args name → ⊥
no_name args name e n = let found = crate_name_of-found args name n in cc

only_name :
    (args : List String) (krate : String)
    → crate_name_of args ≡ some krate
    → (name : String) → IsCrateName args name
    → krate ≡ name
only_name args krate e name n = some_injective (sym e ∙ crate_name_of-found args name n)

named_lem :
    (primary : Bool) (args : List String) (krate : String) (is_script : Bool)
    → (krate == "build_script_build") ≡ is_script
    → IsCrateName args krate
    → ((name : String) → IsCrateName args name → krate ≡ name)
    → ((handling primary (some krate) ≡ analyze)
        ↔ ((primary ≡ true) × ¬ IsCrateName args "build_script_build"))
      × ((handling primary (some krate) ≡ compile_and_dump) ↔ (
          (primary ≡ false)
          × (name : String) × IsCrateName args name
          × ((name == "build_script_build") ≡ false)))
unfolding handling
named_lem primary args krate true e known only =
    let same = (eq_iff krate "build_script_build").0 e in
    rw e (
      (λ h. absurd (cc), λ (p, other). absurd (other (subst (IsCrateName args) same known))),
      (λ h. absurd (cc), λ (p, name, n, ne). absurd (let found = only name n in cc)),
    )
named_lem true args krate false e known only = rw e (
  (
    λ h. (
      refl,
      λ n. absurd (
          let found = only "build_script_build" n in
          let flag = (eq_iff krate "build_script_build").1 found in cc),
    ),
    λ h. refl,
  ),
  (λ h. absurd (cc), λ p. absurd (cc)),
)
named_lem false args krate false e known only =
    rw e ((λ h. absurd (cc), λ p. absurd (cc)), (λ h. (refl, krate, known, e), λ h. refl))

-- What the handling is if the name is the given one, or none.
handling_lem :
    (primary : Bool) (args : List String) (found : Option String)
    → crate_name_of args ≡ found
    → ((handling primary found ≡ analyze)
        ↔ ((primary ≡ true) × ¬ IsCrateName args "build_script_build"))
      × ((handling primary found ≡ compile_and_dump) ↔ (
          (primary ≡ false)
          × (name : String) × IsCrateName args name
          × ((name == "build_script_build") ≡ false)))
unfolding handling
handling_lem true args none e = (
  (λ h. (refl, λ n. absurd (no_name args _ e n)), λ h. refl),
  (λ h. absurd (cc), λ h. absurd (cc)),
)
handling_lem false args none e = (
  (λ h. absurd (cc), λ h. absurd (cc)),
  (λ h. absurd (cc), λ (p, name, n, _). absurd (no_name args name e n)),
)
handling_lem primary args (some krate) e =
    named_lem primary args krate (krate == "build_script_build") refl
      (crate_name_of-IsCrateName args krate e) (only_name args krate e)

-- A crate is analysed exactly if it is a primary package and the argument after the first
-- `--crate-name` is not `build_script_build`; it is compiled and dumped exactly if it is no primary
-- package, has a name after the first `--crate-name`, and that is not `build_script_build`.
pub how_to_handle_this_crate_lem :
    (primary : Bool) (args : List String)
    → ((how_to_handle_this_crate primary args ≡ analyze)
        ↔ ((primary ≡ true) × ¬ IsCrateName args "build_script_build"))
      × ((how_to_handle_this_crate primary args ≡ compile_and_dump) ↔ (
          (primary ≡ false)
          × (name : String) × IsCrateName args name
          × ((name == "build_script_build") ≡ false)))
unfolding how_to_handle_this_crate
how_to_handle_this_crate_lem primary args = handling_lem primary args (crate_name_of args) refl
