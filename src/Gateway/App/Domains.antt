-- ===== src/Gateway/App/Domains.antt =====
-- The domains that src/athenai/gateway/app.py reads from ATHENA_ALLOWED_DOMAINS.
use mathlib.Core.List.{reverse, reverse-cons, append-nil, append_assoc}
use athena_ai.Prelude.{
  ◌≡◌, ◌≢◌, refl, sym, ap, ◌∙◌, ◌⊎◌, inl, inr, true, false, List, [], ◌∷◌, ◌++◌, ◌==◌, nat_eq, Text,
  All, All-append, Bool-cases, arith,
}
use athena_ai.Prelude.Texts.{strip}
use athena_ai.Gateway.App.{is_blank, split_from, keep_domains, allowed_domains}

-- the parts with a comma between each and the next
abbrev pub by_commas : List Text → Text
by_commas [] = []
by_commas (p ∷ []) = p
by_commas (p ∷ q ∷ ps) = p ++ 44 ∷ by_commas (q ∷ ps)

abbrev pub HasNoComma : Text → Type 0
HasNoComma = All (λ c. (c == 44) ≡ false)

-- the parts that are not blank, stripped
pub data AreStripped : List Text → List Text → Type 0 where
  no_part : AreStripped [] []
  blank :
      (p : Text) (ps ds : List Text) → strip p ≡ [] → AreStripped ps ds → AreStripped (p ∷ ps) ds
  listed :
      (p : Text) (ps : List Text) (d : Text) (ds : List Text)
      → d ≡ strip p
      → d ≢ []
      → AreStripped ps ds
      → AreStripped (p ∷ ps) (d ∷ ds)

-- the domains of a setting: its parts between commas
pub record AreDomains (raw : Text) (domains : List Text) : Type 0 where
  pub parts : List Text
  pub whole : raw ≡ by_commas parts
  pub cut : All HasNoComma parts
  pub stripped : AreStripped parts domains

reverse-HasNoComma : (s : Text) → HasNoComma s → HasNoComma (reverse s)
reverse-HasNoComma [] h = tt
reverse-HasNoComma (c ∷ cs) h =
    rw (reverse-cons c cs)
      (All-append _ (reverse cs) (c ∷ []) (reverse-HasNoComma cs h.1) (h.0, tt))

split_from-cons : (part s : Text) → (q : Text) × (ps : List Text) × (split_from part s ≡ q ∷ ps)
unfolding split_from
split_from-cons part [] = (reverse part, [], refl)
split_from-cons part (c ∷ cs) = elim (Bool-cases (c == 44)) [
  | inl e ↦ (reverse part, split_from [] cs, rw e refl)
  | inr e ↦ let (q, ps, same) = split_from-cons (c ∷ part) cs in (q, ps, rw e same)
]

by_commas-split_from : (part s : Text) → by_commas (split_from part s) ≡ reverse part ++ s
unfolding split_from
by_commas-split_from part [] = sym (append-nil (reverse part))
by_commas-split_from part (c ∷ cs) = elim (Bool-cases (c == 44)) [
  | inl e ↦
      let (q, ps, same) = split_from-cons [] cs in
      let comma : c ≡ 44 = ground (arith, e) in
      let rest : by_commas (q ∷ ps) ≡ cs = ap by_commas (sym same) ∙ by_commas-split_from [] cs in
      rw (e, same, rest, comma) refl
  | inr e ↦ rw e (
      by_commas-split_from (c ∷ part) cs
      ∙ ap (λ l. l ++ cs) (reverse-cons c part)
      ∙ append_assoc (reverse part) (c ∷ []) cs)
]

split_from-HasNoComma : (part s : Text) → HasNoComma part → All HasNoComma (split_from part s)
unfolding split_from
split_from-HasNoComma part [] h = (reverse-HasNoComma part h, tt)
split_from-HasNoComma part (c ∷ cs) h = elim (Bool-cases (c == 44)) [
  | inl e ↦ rw e (reverse-HasNoComma part h, split_from-HasNoComma [] cs tt)
  | inr e ↦ rw e (split_from-HasNoComma (c ∷ part) cs (e, h))
]

-- a text is blank if it is empty
pub is_blank_cases :
    (t : Text) → ((is_blank t ≡ true) × (t ≡ [])) ⊎ ((is_blank t ≡ false) × (t ≢ []))
is_blank_cases [] = inl (refl, refl)
is_blank_cases (c ∷ cs) = inr (refl, λ e. cc)

keep_domains-AreStripped : (ps : List Text) → AreStripped ps (keep_domains ps)
unfolding keep_domains
keep_domains-AreStripped [] = no_part
keep_domains-AreStripped (p ∷ ps) = elim (is_blank_cases (strip p)) [
  | inl (e, empty) ↦ rw e (blank p ps (keep_domains ps) empty (keep_domains-AreStripped ps))
  | inr (e, full) ↦
      rw e (listed p ps (strip p) (keep_domains ps) refl full (keep_domains-AreStripped ps))
]

-- the code reads the domains of the setting
pub allowed_domains-AreDomains : (raw : Text) → AreDomains raw (allowed_domains raw)
unfolding allowed_domains
allowed_domains-AreDomains raw = record {
  parts = split_from [] raw;
  whole = sym (by_commas-split_from [] raw);
  cut = split_from-HasNoComma [] raw tt;
  stripped = keep_domains-AreStripped (split_from [] raw);
}
