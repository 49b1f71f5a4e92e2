-- ===== src/Memory/Semantic.antt =====
-- src/athenai/memory/semantic.py. The table `semantic_memories` is the list of its rows in the order of
-- insertion; pgvector's distance and the rows that its scan comes to are parameters. `created_at` and a generated id are arguments.
use text.Mathlib.TextEquality.{eq_iff}
use athena_ai.Prelude.{
  ℕ, ◌≡◌, refl, ◌∙◌, String, Text, not, Option, none, some, List, [], ◌∷◌, map, ◌==◌, string_eq,
  if◌then◌else◌, take, select, arith,
}
use athena_ai.Prelude.Dict.{Dict}
use athena_ai.Prelude.Floats.{Floats}
use athena_ai.Prelude.Sorting.{sorted_desc}
use athena_ai.Core.Json.{Json}
use athena_ai.Memory.Conversation.{MemoryType, semantic}

-- a row of the table
pub record Fact (Float : Type 0) : Type 0 where
  pub id : String
  pub session_id : String
  pub content : Text
  pub embedding : List Float
  pub created_at : Float
  pub metadata : Dict Json

-- a `MemoryEntry` of this layer
pub record Entry (Float : Type 0) : Type 0 where
  pub id : String
  pub session_id : String
  pub memory_type : MemoryType
  pub content : Text
  pub metadata : Dict Json
  pub embedding : Option (List Float)
  pub created_at : Float

module _ {Float : Type 0} where
  -- the entry for a row: only `store` gives it the embedding
  abbrev pub entry_of : Option (List Float) → Fact Float → Entry Float
  entry_of embedding fact = record {
    id = fact.id;
    session_id = fact.session_id;
    memory_type = semantic;
    content = fact.content;
    metadata = fact.metadata;
    embedding = embedding;
    created_at = fact.created_at;
  }

  -- INSERT ... ON CONFLICT (id) DO UPDATE SET content = EXCLUDED.content, embedding = EXCLUDED.embedding
  unfoldable pub upsert : Fact Float → List (Fact Float) → List (Fact Float)
  upsert fact [] = fact ∷ []
  upsert fact (row ∷ rows) =
      let rest = upsert fact rows in
      if row.id == fact.id
      then record row { content = fact.content; embedding = fact.embedding } ∷ rows
      else row ∷ rest

  -- `SemanticMemory.store`: the entry that is returned, and the table
  unfoldable pub store : Fact Float → List (Fact Float) → Entry Float × List (Fact Float)
  unfolding upsert
  store fact rows = (entry_of (some fact.embedding) fact, upsert fact rows)

  -- `SemanticMemory.delete`
  unfoldable pub delete : String → List (Fact Float) → List (Fact Float)
  delete id rows = select (λ row. not (row.id == id)) rows

  -- the row under an id, which the primary key makes the only one
  unfoldable pub row_with : String → List (Fact Float) → Option (Fact Float)
  row_with id [] = none
  row_with id (row ∷ rows) = if row.id == id then some row else row_with id rows

  -- what a fact leaves of the row that is there
  abbrev pub corrected : Fact Float → Option (Fact Float) → Fact Float
  corrected fact none = fact
  corrected fact (some row) = record row { content = fact.content; embedding = fact.embedding }

  row_with-upsert :
      (fact : Fact Float) (other : String) (rows : List (Fact Float))
      → row_with other (upsert fact rows) ≡ (
          if fact.id == other
          then some (corrected fact (row_with fact.id rows))
          else row_with other rows)
  unfolding row_with upsert
  row_with-upsert fact other [] = ground arith
  row_with-upsert fact other (row ∷ rows) = ground (
    arith,
    row_with-upsert fact other rows,
    eq_iff row.id fact.id,
    eq_iff row.id other,
    eq_iff fact.id other,
  )

  row_with-delete :
      (id other : String) (rows : List (Fact Float))
      → row_with other (delete id rows) ≡ (if id == other then none else row_with other rows)
  unfolding row_with delete
  row_with-delete id other [] = ground arith
  row_with-delete id other (row ∷ rows) =
      ground (
        arith,
        row_with-delete id other rows,
        eq_iff row.id id,
        eq_iff row.id other,
        eq_iff id other,
      )

  -- After a store, the row under the id has the new content and embedding, but the session, the
  -- metadata and the time of the row that was there before, if there was one; the entry that is
  -- returned has all of the new ones. Every other row is as before, and a delete of the id removes
  -- the fact and no other.
  pub store_lem :
      (fact : Fact Float) (other : String) (rows : List (Fact Float))
      → ((store fact rows).0 ≡ entry_of (some fact.embedding) fact)
        × (row_with other (store fact rows).1 ≡ (
            if fact.id == other
            then some (corrected fact (row_with fact.id rows))
            else row_with other rows))
        × (row_with other (delete fact.id (store fact rows).1)
            ≡ (if fact.id == other then none else row_with other rows))
  unfolding store row_with delete
  store_lem fact other rows = (
    refl,
    row_with-upsert fact other rows,
    row_with-delete fact.id other (upsert fact rows) ∙ others,
  )
    where
      others :
          (if fact.id == other then none else row_with other (upsert fact rows))
          ≡ (if fact.id == other then none else row_with other rows)
      others = ground (arith, row_with-upsert fact other rows)

module _ (R : Floats) (distance : List R.Float → List R.Float → R.Float)
    (visited : List R.Float → List (Fact R.Float) → List (Fact R.Float)) where
  open R use {Float}

  -- WHERE session_id = $2, if there is one
  of_session : Option String → List (Fact Float) → List (Fact Float)
  of_session none rows = rows
  of_session (some session_id) rows =
      if session_id == "" then rows else select (λ row. row.session_id == session_id) rows

  -- `SemanticMemory.search`: the entries with their scores
  unfoldable pub search :
      List Float → ℕ → Option String → List (Fact Float) → List (Entry Float × Float)
  unfolding of_session
  search query k session_id rows =
      map (λ row. (entry_of none row, R.sub (R.of_ℕ 1) (distance row.embedding query)))
        (take k (
          sorted_desc (λ a b. R.le b a) (λ row. distance row.embedding query)
            (of_session session_id (visited query rows))))
