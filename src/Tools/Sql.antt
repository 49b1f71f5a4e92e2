-- ===== src/Tools/Sql.antt =====
-- src/athenai/tools/sql.py. The database, `str.upper`, `int()` of an argument and the decimal form
-- of an int are parameters.
pub mod Bounds
use athena_ai.Prelude.{
  ℕ, Text, codes, Bool, true, false, not, Option, none, some, List, [], ◌∷◌, ◌++◌, leb,
  if◌then◌else◌,
}
use athena_ai.Prelude.Texts.{strip, split, text_eq}
use athena_ai.Core.Errors.{Result, ok, err, ◌>>=◌, athena, tool_denied}
use athena_ai.Core.Json.{Json, ℤ, pos, negsuc}

-- `a <= b` on ints
abbrev pub le_ℤ : ℤ → ℤ → Bool
le_ℤ (pos a) (pos b) = leb a b
le_ℤ (pos a) (negsuc b) = false
le_ℤ (negsuc a) (pos b) = true
le_ℤ (negsuc a) (negsuc b) = leb b a

-- `min(a, b)`
abbrev pub min_ℤ : ℤ → ℤ → ℤ
min_ℤ a b = if le_ℤ a b then a else b

-- `query.strip().split()[0].upper() if query.strip() else ""`, before the `upper`
first_word : List Text → Text
first_word [] = []
first_word (w ∷ ws) = w

unfoldable pub first_token : (Text → Text) → Text → Text
unfolding first_word strip split
first_token upper query = elim (strip query) [
  | [] ↦ []
  | c ∷ cs ↦ upper (first_word (split (c ∷ cs)))
]

unfoldable pub reject_writes : (Text → Text) → Text → Result (Unit {0})
unfolding first_token
reject_writes upper query =
    if text_eq (first_token upper query) (codes "SELECT") then ok tt else err (athena tool_denied)

-- f"SELECT * FROM ({query}) _q LIMIT {limit}"
unfoldable pub bounded_query : (ℤ → Text) → Text → ℤ → Text
bounded_query show query limit =
    codes "SELECT * FROM (" ++ query ++ codes ") _q LIMIT " ++ show limit

-- what the tool calls
pub record Database (Row W : Type 0) : Type 0 where
  pub upper : Text → Text
  pub to_int : Json → Result ℤ
  pub show : ℤ → Text
  -- `conn.fetch` inside a read-only transaction
  pub fetch : Text → W → Result (List Row) × W

module _ {Row W : Type 0} (db : Database Row W) (max_rows : ℕ) where
  -- `int(arguments.get("limit", self._max_rows))`
  requested : Option Json → Result ℤ
  requested none = ok (pos max_rows)
  requested (some j) = db.to_int j

  -- the checks and the text of the query, before the database is reached
  unfoldable pub prepare : Text → Option Json → Result Text
  unfolding requested bounded_query
  prepare raw_query limit = do
    let query = strip raw_query
    _ ← reject_writes db.upper query
    n ← requested limit
    ok (bounded_query db.show query (min_ℤ n (pos max_rows)))

  unfoldable pub execute : Text → Option Json → W → Result (List Row) × W
  unfolding prepare
  execute raw_query limit w = elim (prepare raw_query limit) [
    | ok q ↦ db.fetch q w
    | err e ↦ (err e, w)
  ]
