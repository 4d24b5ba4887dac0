-- ===== src/Prelude/Text.antt =====
-- `str` as the list of its characters, with the methods of `std` that the source uses.
use Prim.Native.Nat.{ℕ}
use Prim.Native.Char.{code}
use Prim.Native.String.{String}
use mathlib.Core.Path.{◌≡◌, refl, ap, ◌∙◌}
use mathlib.Core.Bool.{Bool, true, false, not, ◌&&◌, ◌||◌}
use mathlib.Core.List.{List, [], ◌∷◌, ◌++◌}
use scrutinizer.Prelude.Tests.{if◌then◌else◌, nat_eqb}
use scrutinizer.Prelude.Lists.{All, any, keep}

abbrev pub Text : Type 0
Text = List ℕ

abbrev pub codes : String → Text
codes String.[] = []
codes (String.◌∷◌ c s) = code c ∷ codes s

abbrev pub newline : ℕ
newline = 10

-- A character in front of the first piece.
abbrev pub push_char : ℕ → List Text → List Text
push_char c [] = (c ∷ []) ∷ []
push_char c (piece ∷ pieces) = (c ∷ piece) ∷ pieces

-- `split("\n")`
unfoldable pub split_lines : Text → List Text
split_lines [] = [] ∷ []
split_lines (c ∷ cs) =
    let rest = split_lines cs in if nat_eqb c newline then [] ∷ rest else push_char c rest

unfoldable pub starts_with : Text → Text → Bool
starts_with s [] = true
starts_with [] (p ∷ ps) = false
starts_with (c ∷ cs) (p ∷ ps) = nat_eqb c p && starts_with cs ps

-- `contains` with a text.
unfoldable pub contains_text : Text → Text → Bool
unfolding starts_with
contains_text [] p = starts_with [] p
contains_text (c ∷ cs) p = starts_with (c ∷ cs) p || contains_text cs p

-- `char::is_whitespace`
unfoldable pub is_whitespace : ℕ → Bool
is_whitespace c = any (nat_eqb c) (
    9 ∷ 10 ∷ 11 ∷ 12 ∷ 13 ∷ 32 ∷ 0x85 ∷ 0xa0 ∷ 0x1680 ∷ 0x2000 ∷ 0x2001 ∷ 0x2002 ∷ 0x2003 ∷ 0x2004
    ∷ 0x2005 ∷ 0x2006 ∷ 0x2007 ∷ 0x2008 ∷ 0x2009 ∷ 0x200a ∷ 0x2028 ∷ 0x2029 ∷ 0x202f ∷ 0x205f
    ∷ 0x3000 ∷ [])

abbrev pub is_blank : Text → Bool
is_blank [] = true
is_blank (_ ∷ _) = false

-- The pieces between white space, the empty ones left out by `split_whitespace`.
unfoldable pub pieces : Text → List Text
unfolding is_whitespace
pieces [] = [] ∷ []
pieces (c ∷ cs) = let rest = pieces cs in if is_whitespace c then [] ∷ rest else push_char c rest

unfoldable pub split_whitespace : Text → List Text
unfolding pieces
split_whitespace s = keep (λ p. not (is_blank p)) (pieces s)

abbrev pub IsLine : Text → Type 0
IsLine = All (λ c. nat_eqb c newline ≡ false)

split_lines-line :
    (line rest : Text)
    → IsLine line
    → split_lines (line ++ newline ∷ rest) ≡ line ∷ split_lines rest
unfolding split_lines
split_lines-line [] rest h = refl
split_lines-line (c ∷ line) rest (hc, h) = rw hc (rw (split_lines-line line rest h))

-- Lines, each with its end.
abbrev pub terminated : List Text → Text
terminated [] = []
terminated (line ∷ lines) = line ++ newline ∷ terminated lines

pub split_lines-terminated :
    (lines : List Text) → All IsLine lines → split_lines (terminated lines) ≡ lines ++ [] ∷ []
unfolding split_lines
split_lines-terminated [] h = refl
split_lines-terminated (line ∷ lines) (here, h) =
    split_lines-line line (terminated lines) here
    ∙ ap (λ rest. line ∷ rest) (split_lines-terminated lines h)
