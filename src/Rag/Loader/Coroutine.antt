-- ===== src/Rag/Loader/Coroutine.antt =====
-- src/athenai/rag/loader.py's `ingest` as a coroutine: the event loop may go on with other work at each
-- await, after the count, after the embedding and after the rows are stored.
use athena_ai.Prelude.{
  ℕ, ◌≡◌, refl, String, Text, List, [], ◌∷◌, string_eq, map, if◌then◌else◌, length, ltb, Bool-cases,
  inl, inr,
}
use athena_ai.Prelude.Dict.{Dict}
use athena_ai.Prelude.Tasks.{Task, returns, step, finish}
use athena_ai.Core.Errors.{Result, ok, err}
use athena_ai.Core.Json.{Json}
use athena_ai.Rag.Parser.{ParsedDocument, parse}
use athena_ai.Rag.Chunker.{Chunk, chunk}
use athena_ai.Rag.Retriever.{count_by_document, store_chunks}
use athena_ai.Rag.Loader.{
  Call, DocumentLoader, Store, stored_count, store_embedded, embed_and_store, ingest_parsed, ingest,
}

module _ {Float W : Type 0} (loader : DocumentLoader Float W) (call : Call Float) where
  -- the rest of `ingest` after the embedding
  unfoldable pub storing : List Chunk → Result (List (List Float)) → Task (Store Float W) (Result ℕ)
  storing chunks (err e) = returns (err e)
  storing chunks (ok es) =
      step (λ s. ((store_chunks loader.refuses call.now chunks es s.0).1, s.1))
        (λ s.
          returns
            (stored_count (length chunks) (store_chunks loader.refuses call.now chunks es s.0).0))

  unfoldable pub embedding : List Chunk → Task (Store Float W) (Result ℕ)
  unfolding storing
  embedding [] = returns (ok 0)
  embedding (c ∷ cs) =
      let texts = map (λ (k : Chunk). k.content) (c ∷ cs) in
      step (λ s. (s.0, (loader.embed texts s.1).1))
        (λ s. storing (c ∷ cs) (loader.embed texts s.1).0)

  unfoldable pub parsing : Result ParsedDocument → Task (Store Float W) (Result ℕ)
  unfolding embedding
  parsing (err e) = returns (err e)
  parsing (ok document) = embedding (chunk call.new_id loader.chunker document)

  -- the coroutine `ingest(...)`
  unfoldable pub ingest_task : Text → String → String → Dict Json → Task (Store Float W) (Result ℕ)
  unfolding parsing
  ingest_task content document_id source metadata =
      step (λ s. s)
        (λ s.
          let existing = count_by_document document_id s.0 in
          if ltb 0 existing
          then returns (ok existing)
          else parsing (parse content document_id source metadata))

  finish-storing :
      (chunks : List Chunk) (r : Result (List (List Float))) (s : Store Float W)
      → finish (storing chunks r) s ≡ store_embedded loader.refuses call.now chunks r s
  unfolding finish storing store_embedded
  finish-storing chunks (err e) s = refl
  finish-storing chunks (ok es) s = refl

  finish-embedding :
      (chunks : List Chunk) (s : Store Float W)
      → finish (embedding chunks) s ≡ embed_and_store loader call chunks s
  unfolding finish embedding embed_and_store
  finish-embedding [] s = refl
  finish-embedding (c ∷ cs) s = finish-storing (c ∷ cs) _ _

  finish-parsing :
      (r : Result ParsedDocument) (s : Store Float W)
      → finish (parsing r) s ≡ ingest_parsed loader call r s
  unfolding finish parsing ingest_parsed
  finish-parsing (err e) s = refl
  finish-parsing (ok document) s = finish-embedding (chunk call.new_id loader.chunker document) s

  -- alone, the coroutine does what `ingest` does
  finish-ingest_task :
      (content : Text) (document_id source : String) (metadata : Dict Json) (s : Store Float W)
      → finish (ingest_task content document_id source metadata) s
        ≡ ingest loader call content document_id source metadata s
  unfolding finish ingest_task ingest
  finish-ingest_task content document_id source metadata s =
      elim (Bool-cases (ltb 0 (count_by_document document_id s.0))) [
        | inl known ↦ rw (known, finish) refl
        | inr new ↦ rw (new, finish) (finish-parsing (parse content document_id source metadata) s)
      ]
