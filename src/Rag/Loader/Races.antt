-- ===== src/Rag/Loader/Races.antt =====
-- Two calls of src/athenai/rag/loader.py's `ingest` at once.
use athena_ai.Prelude.{
  ℕ, ◌+◌, ◌<◌, ◌≡◌, sym, ap, ◌∙◌, String, Text, List, [], ◌∷◌, ◌++◌, string_eq, length, arith,
}
use athena_ai.Prelude.Dict.{Dict}
use athena_ai.Prelude.Tasks.{Task, returns, Runs, stop, next, here, there}
use athena_ai.Core.Errors.{Result, ok}
use athena_ai.Core.Json.{Json}
use athena_ai.Rag.Loader.Repeats.{ingest-stored}
use mathlib.Core.Path.{subst}
use athena_ai.Rag.Retriever.{Row, count_by_document}
use athena_ai.Rag.Loader.{Call, DocumentLoader, Store, stored_count, ingest}
use athena_ai.Rag.Loader.Coroutine.{storing, ingest_task}
use athena_ai.Rag.Loader.Storable.{
  IsStorable, chunks, new_rows, store-eq, begun, ingest-alone, count-new_rows, embedding_step,
}

module _ {Float W : Type 0} (loader : DocumentLoader Float W) (a b : Call Float)
    {content content' : Text} {document_id source source' : String} {metadata metadata' : Dict Json}
    {rows : List (Row Float)} {w v u : W}
    (first : IsStorable loader a content document_id source metadata rows w v)
    (second : IsStorable loader b content' document_id source' metadata'
      (rows ++ new_rows loader a first)
      v
      u) where
  abbrev pub both_done : List (Task (Store Float W) (Result ℕ))
  both_done =
      returns (ok (length (chunks loader a first)))
      ∷ returns (ok (length (chunks loader b second)))
      ∷ []

  abbrev pub both_rows : List (Row Float)
  both_rows = (rows ++ new_rows loader a first) ++ new_rows loader b second

  both_store :
      Runs
        (storing loader a (chunks loader a first) (ok first.embeddings)
          ∷ storing loader b (chunks loader b second) (ok second.embeddings)
          ∷ [])
        (rows, u)
        both_done
        (both_rows, u)
  unfolding storing
  both_store = next here (
      subst
        (λ (p : Result (Unit {0}) × List (Row Float)).
          Runs
            (returns (stored_count (length (chunks loader a first)) p.0)
              ∷ storing loader b (chunks loader b second) (ok second.embeddings)
              ∷ [])
            (p.1, u) both_done (both_rows, u))
        (sym (store-eq loader a first))
        (next (there here) (
          subst
            (λ (p : Result (Unit {0}) × List (Row Float)).
              Runs
                (returns (ok (length (chunks loader a first)))
                  ∷ returns (stored_count (length (chunks loader b second)) p.0)
                  ∷ [])
                (p.1, u) both_done (both_rows, u))
            (sym (store-eq loader b second)) stop)))

  both_embed :
      Runs
        (embedding_step loader a (chunks loader a first)
          ∷ embedding_step loader b (chunks loader b second)
          ∷ [])
        (rows, w)
        both_done
        (both_rows, u)
  both_embed = next here (rw first.embedded (next (there here) (rw second.embedded both_store)))

  both_begin :
      count_by_document document_id rows ≡ 0
      → Runs
          (ingest_task loader a content document_id source metadata
            ∷ ingest_task loader b content' document_id source' metadata'
            ∷ [])
          (rows, w)
          both_done
          (both_rows, u)
  unfolding ingest_task
  both_begin unknown = next here (
      subst
        (λ t.
          Runs (t ∷ ingest_task loader b content' document_id source' metadata' ∷ []) (rows, w)
            both_done (both_rows, u))
        (sym (begun loader a first rows unknown))
        (next (there here) (
          subst
            (λ t.
              Runs (embedding_step loader a (chunks loader a first) ∷ t ∷ []) (rows, w) both_done
                (both_rows, u))
            (sym (begun loader b second rows unknown)) both_embed)))

  first_stored :
      count_by_document document_id rows ≡ 0
      → 0 < count_by_document document_id (rows ++ new_rows loader a first)
  first_stored unknown = omega (arith, unknown, count-new_rows loader a first rows, first.present)

  -- Two calls of ingest at once, for one document that has no rows yet, where each has at least one
  -- chunk, its ids are new and distinct, the embedder answers with one vector for each chunk and
  -- the database takes every row: in some order of the steps both return the number of their
  -- chunks, and the document then has the rows of both; one call after the other leaves the rows of
  -- the first alone.
  pub ingest-race :
      count_by_document document_id rows ≡ 0
      → Runs
          (ingest_task loader a content document_id source metadata
            ∷ ingest_task loader b content' document_id source' metadata'
            ∷ [])
          (rows, w)
          both_done
          (both_rows, u)
        × (count_by_document document_id both_rows
            ≡ length (chunks loader a first) + length (chunks loader b second))
        × ((ingest loader b content' document_id source' metadata'
              (ingest loader a content document_id source metadata (rows, w)).1).1.0
            ≡ rows ++ new_rows loader a first)
  ingest-race unknown = (
    both_begin unknown,
    omega (
      arith,
      unknown,
      count-new_rows loader a first rows,
      count-new_rows loader b second (rows ++ new_rows loader a first),
    ),
    ap (λ o. (ingest loader b content' document_id source' metadata' o.1).1.0)
          (ingest-alone loader a first unknown)
        ∙ ap (λ o. o.1.0)
            (ingest-stored loader b content' document_id source' metadata'
              (rows ++ new_rows loader a first, v) (first_stored unknown)),
  )
