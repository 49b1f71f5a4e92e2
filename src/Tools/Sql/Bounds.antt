-- ===== src/Tools/Sql/Bounds.antt =====
-- What reaches the database.
use athena_ai.Prelude.{
  ℕ, ◌≡◌, ◌≢◌, refl, sym, ap, ◌∙◌, ◌⊎◌, inl, inr, Text, codes, true, Option, none, some, List, [],
  ◌∷◌, ◌++◌, arith, Bool-cases,
}
use mathlib.Core.Bool.{false≢true}
use athena_ai.Prelude.Texts.{strip, split, text_eq}
use athena_ai.Prelude.Texts.Words.{FirstWord, strip-FirstWord, split-lem, first_of, text_eq→}
use athena_ai.Core.Errors.{Error, ok, err, athena, tool_denied, Result-cases}
use athena_ai.Core.Json.{Json, ℤ, pos}
use athena_ai.Tools.Sql.{
  le_ℤ, min_ℤ, first_word, first_token, reject_writes, bounded_query, Database, requested, prepare,
  execute,
}

first_word-first_of : (ws : List Text) → first_word ws ≡ first_of ws
unfolding first_word
first_word-first_of [] = refl
first_word-first_of (w ∷ ws) = refl

split-FirstWord : (s : Text) → (word : Text) × FirstWord s word × (first_word (split s) ≡ word)
split-FirstWord s =
    let (pre, word, rest, whole, spaces, clear, broken, first) = split-lem s in
    (
      word,
      record {
        before = pre;
        after = rest;
        whole = whole;
        spaces = spaces;
        clear = clear;
        broken = broken;
      },
      first_word-first_of (split s) ∙ first,
    )

-- the word that is tested
IsTested : (Text → Text) → Text → Text → Type 0
IsTested upper word token = (token ≡ upper word) ⊎ ((token ≡ []) × (word ≡ []))

first_token-lem :
    (upper : Text → Text) (s : Text)
    → (word : Text) × FirstWord s word × IsTested upper word (first_token upper s)
unfolding first_token IsTested
first_token-lem upper s = of_strip (strip s) refl
  where
    of_strip :
        (t : Text)
        → strip s ≡ t
        → (word : Text) × FirstWord s word × IsTested upper word (first_token upper s)
    of_strip [] e =
        let blank : FirstWord (strip s) [] = record {
          before = [];
          after = [];
          whole = e;
          spaces = tt;
          clear = tt;
          broken = tt;
        } in
        ([], strip-FirstWord s [] blank, rw (e, first_token) (inr (refl, refl)))
    of_strip (c ∷ cs) e =
        let (word, f, first) = split-FirstWord (c ∷ cs) in
        let f' : FirstWord (strip s) word = rw e f in
        (word, strip-FirstWord s word f', rw (e, first_token) (inl (ap upper first)))

-- the smaller of two ints
abbrev pub IsLeast : ℤ → ℤ → ℤ → Type 0
IsLeast n a b = (le_ℤ n a ≡ true) × (le_ℤ n b ≡ true) × ((n ≡ a) ⊎ (n ≡ b))

le_ℤ-refl : (a : ℤ) → le_ℤ a a ≡ true
le_ℤ-refl a = ground (arith)

min_ℤ-IsLeast : (a b : ℤ) → IsLeast (min_ℤ a b) a b
min_ℤ-IsLeast a b = elim (Bool-cases (le_ℤ a b)) [
  | inl e ↦ rw e (le_ℤ-refl a, e, inl refl)
  | inr e ↦ rw e (ground (arith, e), le_ℤ-refl b, inr refl)
]

module _ {Row W : Type 0} (db : Database Row W) (max_rows : ℕ) (raw_query : Text)
    (limit : Option Json) (w : W) where
  -- the limit that the call asks for
  pub record IsAsked (asked : ℤ) : Type 0 where
    pub by_default : limit ≡ none → asked ≡ pos max_rows
    pub as_given : (j : Json) → limit ≡ some j → db.to_int j ≡ ok asked

  -- what becomes of a query whose first word is `word`
  pub data Executed (word : Text) : Type 0 where
    denied :
        (word ≡ []) ⊎ (db.upper word ≢ codes "SELECT")
        → execute db max_rows raw_query limit w ≡ (err (athena tool_denied), w)
        → Executed word
    no_limit :
        (j : Json) (e : Error)
        → db.upper word ≡ codes "SELECT"
        → limit ≡ some j
        → db.to_int j ≡ err e
        → execute db max_rows raw_query limit w ≡ (err e, w)
        → Executed word
    ran :
        (asked n : ℤ)
        → db.upper word ≡ codes "SELECT"
        → IsAsked asked
        → IsLeast n asked (pos max_rows)
        → execute db max_rows raw_query limit w
          ≡ db.fetch
              (codes "SELECT * FROM (" ++ strip raw_query ++ codes ") _q LIMIT " ++ db.show n)
              w
        → Executed word

  requested_cases :
      (o : Option Json)
      → limit ≡ o
      → ((asked : ℤ) × (requested db max_rows limit ≡ ok asked) × IsAsked asked)
        ⊎ ((j : Json) × (e : Error) × (requested db max_rows limit ≡ err e)
            × (limit ≡ some j)
            × (db.to_int j ≡ err e))
  unfolding requested
  requested_cases none e = inl (
    pos max_rows,
    rw (e, requested) refl,
    record { by_default = λ _. refl; as_given = λ j given. cc },
  )
  requested_cases (some j) e = elim (Result-cases (db.to_int j)) [
    | inl (n, read) ↦ inl (
      n,
      rw (e, requested) read,
      record {
        by_default = λ missing. cc;
        as_given = λ k given. let same : j ≡ k = cc in rw (← same) read;
      },
    )
    | inr (x, read) ↦ inr (j, x, rw (e, requested) read, e, read)
  ]

  refused :
      reject_writes db.upper (strip raw_query) ≡ err (athena tool_denied)
      → execute db max_rows raw_query limit w ≡ (err (athena tool_denied), w)
  unfolding execute prepare
  refused e = rw (e, execute, prepare) refl

  selected :
      (word : Text)
      → reject_writes db.upper (strip raw_query) ≡ ok tt
      → db.upper word ≡ codes "SELECT"
      → Executed word
  unfolding execute prepare bounded_query
  selected word e reads = elim (requested_cases limit refl) [
    | inl (asked, read, is_asked) ↦
        ran asked (min_ℤ asked (pos max_rows)) reads is_asked (min_ℤ-IsLeast asked (pos max_rows))
          (rw (e, read, execute, prepare) refl)
    | inr (j, x, read, given, fails) ↦
        no_limit j x reads given fails (rw (e, read, execute, prepare) refl)
  ]

  -- By the first word of the query: where it is empty or is not SELECT in upper case,
  -- ToolDeniedError is raised; where it is, and int() raises for the limit that was given, so does
  -- the tool; in both cases the database is not reached. Otherwise the tool runs the one text
  -- "SELECT * FROM (", the stripped query, ") _q LIMIT " and the smaller of max_rows and the limit,
  -- which is max_rows if none was given.
  pub execute-bounds : (word : Text) × FirstWord (strip raw_query) word × Executed word
  unfolding IsTested reject_writes
  execute-bounds =
      let (word, first, tested) = first_token-lem db.upper (strip raw_query) in
      let token = first_token db.upper (strip raw_query) in
      (
        word,
        first,
        elim (Bool-cases (text_eq token (codes "SELECT"))) [
          | inl e ↦
              let same : token ≡ codes "SELECT" = text_eq→ token (codes "SELECT") e in
              elim tested [
                | inl t ↦ selected word (rw e refl) (sym t ∙ same)
                | inr (t, _) ↦ let odd : [] ≡ codes "SELECT" = sym t ∙ same in cc
              ]
          | inr e ↦
              denied
                (elim tested [
                  | inl t ↦ inr (λ s.
                      absurd (false≢true (sym e ∙ (ap (λ x. text_eq x (codes "SELECT")) (t ∙ s)))))
                  | inr (_, t) ↦ inl t
                ])
                (refused (rw e refl))
        ],
      )
