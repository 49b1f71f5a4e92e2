-- ===== src/Rag/Retriever.antt =====
-- src/athenai/rag/retriever.py. The table `chunks` is the list of its rows in the order of insertion.
-- The statements are written out on it; pgvector's distance, the rows that its scan comes to and what the database
-- refuses are parameters. Each INSERT is a transaction of its own; the other statements are taken to succeed.
pub mod Storing
pub mod Appending
pub mod Searching
use athena_ai.Prelude.{
  ℕ, String, Text, Bool, true, false, not, Option, none, some, List, [], ◌∷◌, ◌++◌, map, ◌==◌,
  string_eq, nat_eq, ◌&&◌, if◌then◌else◌, length, take, select,
}
use athena_ai.Prelude.Dict.{Dict, get_or}
use athena_ai.Prelude.Floats.{Floats}
use athena_ai.Prelude.Sorting.{sorted_desc}
use athena_ai.Core.Errors.{Result, ok, err, value_error, database_error}
use athena_ai.Core.Json.{Json, null}
use athena_ai.Rag.Chunker.{Chunk}
use athena_ai.Rag.Reranker.{RetrievedChunk}

-- a row of `chunks`
pub record Row (Float : Type 0) : Type 0 where
  pub id : String
  pub document_id : String
  pub content : Text
  pub chunk_index : ℕ
  pub embedding : List Float
  pub metadata : Dict Json
  pub created_at : Float

module _ {Float : Type 0} where
  abbrev pub row_of : Float → Chunk → List Float → Row Float
  row_of now chunk embedding = record {
    id = chunk.chunk_id;
    document_id = chunk.document_id;
    content = chunk.content;
    chunk_index = chunk.chunk_index;
    embedding = embedding;
    metadata = chunk.metadata;
    created_at = now;
  }

  abbrev pub has_id : String → List (Row Float) → Bool
  has_id id [] = false
  has_id id (row ∷ rows) = if row.id == id then true else has_id id rows

  -- INSERT ... ON CONFLICT (id) DO NOTHING
  unfoldable pub insert : Row Float → List (Row Float) → List (Row Float)
  insert row rows = if has_id row.id rows then rows else rows ++ row ∷ []

  -- WHERE document_id = $1
  unfoldable pub of_document : String → List (Row Float) → List (Row Float)
  of_document document_id rows = select (λ row. row.document_id == document_id) rows

  -- `PgVectorRetriever.count_by_document`
  unfoldable pub count_by_document : String → List (Row Float) → ℕ
  unfolding of_document
  count_by_document document_id rows = length (of_document document_id rows)

  -- `PgVectorRetriever.delete_document`
  unfoldable pub delete_document : String → List (Row Float) → List (Row Float)
  delete_document document_id rows = select (λ row. not (row.document_id == document_id)) rows

  -- the loop of `store_chunks`, where the database raises on the rows that it refuses
  unfoldable pub store_all :
      (Row Float → Bool)
      → Float
      → List Chunk
      → List (List Float)
      → List (Row Float)
      → Result (Unit {0}) × List (Row Float)
  unfolding insert
  store_all refuses now (c ∷ cs) (e ∷ es) rows = elim (refuses (row_of now c e)) [
    | true ↦ (err database_error, rows)
    | false ↦ store_all refuses now cs es (insert (row_of now c e) rows)
  ]
  store_all refuses now _ _ rows = (ok tt, rows)

  -- `PgVectorRetriever.store_chunks`
  unfoldable pub store_chunks :
      (Row Float → Bool)
      → Float
      → List Chunk
      → List (List Float)
      → List (Row Float)
      → Result (Unit {0}) × List (Row Float)
  unfolding store_all
  store_chunks refuses now chunks embeddings rows =
      if length chunks == length embeddings
      then store_all refuses now chunks embeddings rows
      else (err value_error, rows)

-- `all(meta.get(k) == v for k, v in metadata_filter.items())`, with Python's `==`
abbrev pub all_match : (Json → Json → Bool) → Dict Json → Dict Json → Bool
all_match same meta [] = true
all_match same meta ((k, v) ∷ rest) = same (get_or k null meta) v && all_match same meta rest

-- an empty filter is none
abbrev pub is_wanted : (Json → Json → Bool) → Option (Dict Json) → Dict Json → Bool
is_wanted same none meta = true
is_wanted same (some wanted) meta = all_match same meta wanted

-- `distance` is pgvector's `<=>`, and `visited` gives the rows that the scan comes to: all of them
-- without an index on the embeddings, and those of the lists probed with the ivfflat index of
-- migrations/init.sql
module _ (R : Floats) (distance : List R.Float → List R.Float → R.Float)
    (visited : List R.Float → List (Row R.Float) → List (Row R.Float)) where
  abbrev pub retrieved : List R.Float → Row R.Float → RetrievedChunk R.Float
  retrieved query row = record {
    chunk_id = row.id;
    document_id = row.document_id;
    content = row.content;
    chunk_index = row.chunk_index;
    score = R.sub (R.of_ℕ 1) (distance row.embedding query);
    metadata = row.metadata;
  }

  -- ORDER BY embedding <=> $1 LIMIT $2
  unfoldable pub nearest : List R.Float → ℕ → List (Row R.Float) → List (Row R.Float)
  nearest query k rows =
      take k
        (sorted_desc (λ a b. R.le b a) (λ row. distance row.embedding query) (visited query rows))

  -- `PgVectorRetriever.search`
  unfoldable pub search :
      (Json → Json → Bool)
      → List R.Float
      → ℕ
      → Option (Dict Json)
      → List (Row R.Float)
      → List (RetrievedChunk R.Float)
  unfolding nearest
  search same query k metadata_filter rows =
      map (retrieved query)
        (select (λ row. is_wanted same metadata_filter row.metadata) (nearest query k rows))
