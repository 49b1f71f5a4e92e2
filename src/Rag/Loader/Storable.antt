-- ===== src/Rag/Loader/Storable.antt =====
-- A call of src/athenai/rag/loader.py's `ingest` of which neither the embedder nor the database refuses
-- a chunk.
use text.Mathlib.TextEquality.{eq_iff}
use athena_ai.Prelude.{
  ℕ, ◌+◌, ◌<◌, ◌≡◌, refl, ap, ◌∙◌, String, Text, true, List, [], ◌∷◌, ◌++◌, ◌==◌, string_eq, map,
  if◌then◌else◌, length, length-append, ltb, arith,
}
use athena_ai.Prelude.Dict.{Dict}
use athena_ai.Prelude.Tasks.{Task, returns, step}
use athena_ai.Core.Errors.{Result, ok}
use athena_ai.Core.Json.{Json}
use athena_ai.Rag.Parser.{ParsedDocument, parse}
use athena_ai.Rag.Chunker.{Chunk, chunk}
use athena_ai.Rag.Retriever.Storing.{AreFresh, AreAccepted, AreNumbered}
use athena_ai.Rag.Retriever.Appending.{
  rows_of, store_all-rows, of_document-rows_of, of_document-append,
}
use athena_ai.Rag.Loader.Ids.{chunk-AreNumbered}
use athena_ai.Rag.Loader.Repeats.{store_chunks-eq, document_id-parse, ingest-eq}
use mathlib.Core.Path.{subst}
use athena_ai.Rag.Retriever.{Row, of_document, count_by_document, store_chunks}
use athena_ai.Rag.Loader.{Call, DocumentLoader, Store, stored_count, ingest}
use athena_ai.Rag.Loader.Coroutine.{storing, embedding, parsing}

length-rows_of :
    {Float : Type 0} (now : Float) (chunks : List Chunk) (es : List (List Float))
    → length chunks ≡ length es
    → length (rows_of now chunks es) ≡ length chunks
length-rows_of now [] es same = refl
length-rows_of now (c ∷ cs) [] same = absurd (omega (arith, same))
length-rows_of now (c ∷ cs) (e ∷ es) same =
    omega (arith, length-rows_of now cs es (omega (arith, same)))

module _ {Float W : Type 0} (loader : DocumentLoader Float W) (call : Call Float) where
  -- the coroutine from the embedding on
  abbrev pub embedding_step : List Chunk → Task (Store Float W) (Result ℕ)
  embedding_step chunks =
      let texts = map (λ (k : Chunk). k.content) chunks in
      step (λ s. (s.0, (loader.embed texts s.1).1))
        (λ s. storing loader call chunks (loader.embed texts s.1).0)

  embedding-eq :
      (chunks : List Chunk)
      → 0 < length chunks
      → embedding loader call chunks ≡ embedding_step chunks
  unfolding embedding
  embedding-eq [] present = absurd (omega (arith, present))
  embedding-eq (c ∷ cs) present = refl

  -- a call whose text gives chunks with new ids, of which the embedder and the database refuse none
  pub record IsStorable (content : Text) (document_id source : String) (metadata : Dict Json)
      (rows : List (Row Float)) (w w' : W) : Type 0 where
    pub document : ParsedDocument
    pub embeddings : List (List Float)
    pub parsed : parse content document_id source metadata ≡ ok document
    pub embedded :
        loader.embed (map (λ (k : Chunk). k.content) (chunk call.new_id loader.chunker document)) w
        ≡ (ok embeddings, w')
    pub present : 0 < length (chunk call.new_id loader.chunker document)
    pub same_length : length (chunk call.new_id loader.chunker document) ≡ length embeddings
    pub accepted :
        AreAccepted loader.refuses call.now (chunk call.new_id loader.chunker document) embeddings
    pub fresh : AreFresh call.new_id 0 rows

  module _ {content : Text} {document_id source : String} {metadata : Dict Json}
      {rows : List (Row Float)} {w w' : W}
      (c : IsStorable content document_id source metadata rows w w') where
    abbrev pub chunks : List Chunk
    chunks = chunk call.new_id loader.chunker c.document

    abbrev pub new_rows : List (Row Float)
    new_rows = rows_of call.now chunks c.embeddings

    ids : AreNumbered call.new_id document_id 0 chunks
    ids =
        subst (λ d. AreNumbered call.new_id d 0 chunks)
          (document_id-parse content document_id source metadata c.parsed)
          (chunk-AreNumbered call.new_id loader.chunker c.document)

    pub store-eq :
        store_chunks loader.refuses call.now chunks c.embeddings rows ≡ (ok tt, rows ++ new_rows)
    store-eq =
        store_chunks-eq loader.refuses call.now chunks c.embeddings rows c.same_length
        ∙ store_all-rows loader.refuses call.now call.new_id document_id 0 chunks c.embeddings rows
            ids c.fresh c.accepted c.same_length

    -- what goes on after a count that found no row
    pub begun :
        (before : List (Row Float))
        → count_by_document document_id before ≡ 0
        → (if ltb 0 (count_by_document document_id before)
            then returns (ok (count_by_document document_id before))
            else parsing loader call (parse content document_id source metadata))
          ≡ embedding_step chunks
    unfolding parsing
    begun before unknown = rw (unknown, c.parsed) (embedding-eq chunks c.present)

    pub ingest-alone :
        count_by_document document_id rows ≡ 0
        → ingest loader call content document_id source metadata (rows, w)
          ≡ (ok (length chunks), (rows ++ new_rows, w'))
    ingest-alone unknown =
        ingest-eq loader call content document_id source metadata rows w w' unknown c.parsed
          c.embedded c.present c.fresh c.same_length
        ∙ ap (λ r. (stored_count (length chunks) r.0, (r.1, w')))
            (store_all-rows loader.refuses call.now call.new_id document_id 0 chunks c.embeddings
              rows ids c.fresh c.accepted c.same_length)

    pub count-new_rows :
        (before : List (Row Float))
        → count_by_document document_id (before ++ new_rows)
          ≡ count_by_document document_id before + length chunks
    unfolding count_by_document
    count-new_rows before =
        let self : (document_id == document_id) ≡ true = (eq_iff document_id document_id).1 refl in
        let added : of_document document_id new_rows ≡ new_rows =
          of_document-rows_of call.now call.new_id document_id document_id 0 chunks c.embeddings ids
          ∙ rw self refl in
        omega (
          arith,
          ap length (of_document-append document_id before new_rows),
          length-append (of_document document_id before) (of_document document_id new_rows),
          ap length added,
          length-rows_of call.now chunks c.embeddings c.same_length,
        )
