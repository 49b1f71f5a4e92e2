-- ===== src/Prelude/Texts.antt =====
-- The methods of Python's `str` that the program calls, over lists of code points.
pub mod Words
use Prim.Native.Nat.{ℕ}
use mathlib.Core.Bool.{Bool, true, false, ◌&&◌, ◌||◌}
use mathlib.Core.Option.{Option, none, some}
use mathlib.Core.List.{List, [], ◌∷◌, ◌++◌, reverse}
use athena_ai.Prelude.Tests.{Text, leb, ◌==◌, nat_eq}

abbrev is_within : ℕ → ℕ → ℕ → Bool
is_within lo hi c = leb lo c && leb c hi

-- `c.isspace()`
unfoldable pub is_space : ℕ → Bool
is_space c =
    is_within 9 13 c
    || is_within 28 32 c
    || c == 0x85
    || c == 0xa0
    || c == 0x1680
    || is_within 0x2000 0x200a c
    || is_within 0x2028 0x2029 c
    || c == 0x202f
    || c == 0x205f
    || c == 0x3000

-- where `splitlines` breaks
unfoldable pub is_line_break : ℕ → Bool
is_line_break c =
    is_within 10 13 c || is_within 0x1c 0x1e c || c == 0x85 || is_within 0x2028 0x2029 c

unfoldable pub lstrip : Text → Text
lstrip [] = []
lstrip (c ∷ cs) = elim (is_space c) [ true ↦ lstrip cs | false ↦ c ∷ cs ]

-- `s.strip()`
unfoldable pub strip : Text → Text
unfolding lstrip is_space
strip s = reverse (lstrip (reverse (lstrip s)))

-- the line read so far, newest character first, and whether the last character was a "\r"
lines_from : Bool → Text → Text → List Text
lines_from after_cr [] [] = []
lines_from after_cr (d ∷ line) [] = reverse (d ∷ line) ∷ []
lines_from after_cr line (c ∷ cs) = elim (after_cr && c == 10) [
  | true ↦ lines_from false line cs
  | false ↦ elim (is_line_break c) [
    | true ↦ reverse line ∷ lines_from (c == 13) [] cs
    | false ↦ lines_from false (c ∷ line) cs
  ]
]

-- `s.splitlines()`
unfoldable pub splitlines : Text → List Text
unfolding lines_from is_line_break
splitlines s = lines_from false [] s

-- `s[len(p):]` if `s.startswith(p)`
unfoldable pub after_prefix : Text → Text → Option Text
after_prefix [] s = some s
after_prefix (p ∷ ps) [] = none
after_prefix (p ∷ ps) (c ∷ cs) = elim (p == c) [ true ↦ after_prefix ps cs | false ↦ none ]

-- the word read so far, newest character first
words_from : Text → Text → List Text
words_from [] [] = []
words_from (d ∷ word) [] = reverse (d ∷ word) ∷ []
words_from [] (c ∷ cs) = elim (is_space c) [
  | true ↦ words_from [] cs
  | false ↦ words_from (c ∷ []) cs
]
words_from (d ∷ word) (c ∷ cs) = elim (is_space c) [
  | true ↦ reverse (d ∷ word) ∷ words_from [] cs
  | false ↦ words_from (c ∷ d ∷ word) cs
]

-- `s.split()`
unfoldable pub split : Text → List Text
unfolding words_from is_space
split s = words_from [] s

-- `" ".join(words)`
unfoldable pub join_words : List Text → Text
join_words [] = []
join_words (w ∷ []) = w
join_words (w ∷ v ∷ ws) = w ++ 32 ∷ join_words (v ∷ ws)

abbrev pub text_eq : Text → Text → Bool
text_eq [] [] = true
text_eq (a ∷ s) (b ∷ t) = a == b && text_eq s t
text_eq _ _ = false
