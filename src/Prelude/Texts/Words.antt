-- ===== src/Prelude/Texts/Words.antt =====
-- What `strip` takes away, and what the first word of a text is.
use mathlib.Core.List.{
  reverse, reverse-cons, reverse-append, reverse-reverse, append_assoc, append-nil,
}
use athena_ai.Prelude.{
  ℕ, ◌≡◌, refl, sym, ap, ◌∙◌, inl, inr, true, false, List, [], ◌∷◌, ◌++◌, Text, All, All-append,
  Bool-cases, arith,
}
use athena_ai.Prelude.Texts.{text_eq, is_space, lstrip, strip, words_from, split}

abbrev pub AreSpaces : Text → Type 0
AreSpaces = All (λ c. is_space c ≡ true)

abbrev pub HasNoSpace : Text → Type 0
HasNoSpace = All (λ c. is_space c ≡ false)

-- nothing, or a space first
abbrev pub IsBreak : Text → Type 0
IsBreak [] = Unit
IsBreak (c ∷ cs) = is_space c ≡ true

lstrip-lem : (s : Text) → (pre : Text) × (s ≡ pre ++ lstrip s) × AreSpaces pre
unfolding lstrip
lstrip-lem [] = ([], refl, tt)
lstrip-lem (c ∷ cs) = elim (Bool-cases (is_space c)) [
  | inl e ↦
      let (pre, split_at, spaces) = lstrip-lem cs in
      rw (e, lstrip) (c ∷ pre, ap (λ l. c ∷ l) split_at, (e, spaces))
  | inr e ↦ rw (e, lstrip) ([], refl, tt)
]

reverse-AreSpaces : (s : Text) → AreSpaces s → AreSpaces (reverse s)
reverse-AreSpaces [] h = tt
reverse-AreSpaces (c ∷ cs) h =
    rw (reverse-cons c cs) (All-append _ (reverse cs) (c ∷ []) (reverse-AreSpaces cs h.1) (h.0, tt))

-- a text is what strip leaves, between spaces
pub strip-lem :
    (s : Text)
    → (pre : Text) × (post : Text) × (s ≡ pre ++ (strip s ++ post)) × AreSpaces pre × AreSpaces post
unfolding strip
strip-lem s =
    let (pre, front, spaces) = lstrip-lem s in
    let (post, back, spaces') = lstrip-lem (reverse (lstrip s)) in
    let middle : lstrip s ≡ reverse (lstrip (reverse (lstrip s))) ++ reverse post =
      sym (reverse-reverse (lstrip s)) ∙ ap reverse back ∙ reverse-append post _ in
    (pre, reverse post, front ∙ ap (λ l. pre ++ l) middle, spaces, reverse-AreSpaces post spaces')

-- the first word, of the text as `split` cuts it
abbrev pub first_of : List Text → Text
first_of [] = []
first_of (w ∷ ws) = w

-- the text goes on with `word` up to its end or a space
IsNext : Text → Text → Type 0
IsNext word s = (rest : Text) × (s ≡ word ++ rest) × HasNoSpace word × IsBreak rest

words_from-lem :
    (d : ℕ) (word s : Text)
    → (u : Text) × (first_of (words_from (d ∷ word) s) ≡ reverse (d ∷ word) ++ u) × IsNext u s
unfolding words_from IsNext
words_from-lem d word [] = ([], sym (append-nil (reverse (d ∷ word))), ([], refl, tt, tt))
words_from-lem d word (c ∷ cs) = elim (Bool-cases (is_space c)) [
  | inl e ↦ rw (e, words_from) ([], sym (append-nil (reverse (d ∷ word))), (c ∷ cs, refl, tt, e))
  | inr e ↦
      let (u, first, (rest, whole, clear, broken)) = words_from-lem c (d ∷ word) cs in
      let moved : first_of (words_from (c ∷ d ∷ word) cs) ≡ reverse (d ∷ word) ++ c ∷ u =
        first
        ∙ ap (λ l. l ++ u) (reverse-cons c (d ∷ word))
        ∙ append_assoc (reverse (d ∷ word)) (c ∷ []) u in
      rw (e, words_from) (c ∷ u, moved, (rest, ap (λ l. c ∷ l) whole, (e, clear), broken))
]

-- a text is spaces, its first word, and the rest
pub split-lem :
    (s : Text)
    → (pre : Text) × (word : Text) × (rest : Text) × (s ≡ pre ++ (word ++ rest))
      × AreSpaces pre
      × HasNoSpace word
      × IsBreak rest
      × (first_of (split s) ≡ word)
unfolding split words_from IsNext
split-lem [] = ([], [], [], refl, tt, tt, tt, refl)
split-lem (c ∷ cs) = elim (Bool-cases (is_space c)) [
  | inl e ↦
      let (pre, word, rest, whole, spaces, clear, broken, first) = split-lem cs in
      rw (e, words_from)
        (c ∷ pre, word, rest, ap (λ l. c ∷ l) whole, (e, spaces), clear, broken, first)
  | inr e ↦
      let (u, first, (rest, whole, clear, broken)) = words_from-lem c [] cs in
      rw (e, words_from) ([], c ∷ u, rest, ap (λ l. c ∷ l) whole, tt, (e, clear), broken, first)
]

pub text_eq→ : (s t : Text) → text_eq s t ≡ true → s ≡ t
text_eq→ [] [] h = refl
text_eq→ [] (b ∷ t) h = cc
text_eq→ (a ∷ s) [] h = cc
text_eq→ (a ∷ s) (b ∷ t) h = elim (Bool-cases (text_eq s t)) [
  | inl e ↦ let same : a ≡ b = ground (arith, h, e) in rw same (ap (λ l. b ∷ l) (text_eq→ s t e))
  | inr e ↦ absurd (ground (arith, h, e))
]

-- the first word of a text, which is empty where the text is blank
pub record FirstWord (s word : Text) : Type 0 where
  pub before : Text
  pub after : Text
  pub whole : s ≡ before ++ (word ++ after)
  pub spaces : AreSpaces before
  pub clear : HasNoSpace word
  pub broken : IsBreak after

IsBreak-append : (s t : Text) → IsBreak s → AreSpaces t → IsBreak (s ++ t)
IsBreak-append [] [] h k = tt
IsBreak-append [] (c ∷ cs) h k = k.0
IsBreak-append (c ∷ cs) t h k = h

-- the first word of what strip leaves is the first word of the text
pub strip-FirstWord : (s word : Text) → FirstWord (strip s) word → FirstWord s word
strip-FirstWord s word f =
    let (pre, post, whole, spaces, spaces') = strip-lem s in
    record {
      before = pre ++ f.before;
      after = f.after ++ post;
      whole =
          whole
          ∙ ap (λ l. pre ++ (l ++ post)) f.whole
          ∙ ap (λ l. pre ++ l)
              (append_assoc f.before (word ++ f.after) post
                ∙ ap (λ l. f.before ++ l) (append_assoc word f.after post))
          ∙ sym (append_assoc pre f.before (word ++ (f.after ++ post)));
      spaces = All-append _ pre f.before spaces f.spaces;
      clear = f.clear;
      broken = IsBreak-append f.after post f.broken spaces';
    }
