-- ===== src/Rag/Loader/Replacement.antt =====
-- What src/athenai/rag/loader.py's `reingest` puts in the place of a document.
use text.Mathlib.TextEquality.{eq_iff}
use athena_ai.Prelude.{
  ◌<◌, ◌≡◌, refl, ap, ◌∙◌, String, Text, true, List, [], ◌++◌, ◌==◌, string_eq, map, if◌then◌else◌,
  length, Bool-cases, inl, inr,
}
use mathlib.Core.List.{append-nil}
use athena_ai.Prelude.Dict.{Dict}
use athena_ai.Core.Errors.{ok, err, value_error}
use athena_ai.Core.Json.{Json}
use athena_ai.Rag.Parser.{ParsedDocument, parse}
use athena_ai.Rag.Chunker.{Chunk, chunk}
use athena_ai.Rag.Retriever.{Row, of_document, count_by_document, delete_document}
use athena_ai.Rag.Retriever.Storing.{
  AreFresh, AreAccepted, delete_document_lem, count-delete_document,
}
use athena_ai.Rag.Retriever.Appending.{
  rows_of, store_all-rows, of_document-rows_of, of_document-append, AreFresh-delete_document,
}
use athena_ai.Rag.Loader.{Call, DocumentLoader, ingest_parsed, ingest, reingest, stored_count}
use athena_ai.Rag.Loader.Repeats.{ingest-eq, numbered}

module _ {Float W : Type 0} (loader : DocumentLoader Float W) (call : Call Float) (content : Text)
    (document_id source : String) (metadata : Dict Json) (rows : List (Row Float)) (w w' : W)
    {document : ParsedDocument} {embeddings : List (List Float)}
    (parsed : parse content document_id source metadata ≡ ok document)
    (embedded : loader.embed
        (map (λ (k : Chunk). k.content) (chunk call.new_id loader.chunker document))
        w
      ≡ (ok embeddings, w'))
    (present : 0 < length (chunk call.new_id loader.chunker document))
    (fresh : AreFresh call.new_id 0 rows) where
  abbrev chunks : List Chunk
  chunks = chunk call.new_id loader.chunker document

  abbrev kept : List (Row Float)
  kept = delete_document document_id rows

  -- the table is what the deletion leaves, and the new rows
  reingest-eq :
      length chunks ≡ length embeddings
      → AreAccepted loader.refuses call.now chunks embeddings
      → reingest loader call content document_id source metadata (rows, w)
        ≡ (ok (length chunks), (kept ++ rows_of call.now chunks embeddings, w'))
  unfolding reingest
  reingest-eq same fine =
      let none_left = count-delete_document document_id rows in
      let fresh' = AreFresh-delete_document call.new_id 0 document_id rows fresh in
      let ids =
        numbered loader call content document_id source metadata kept w w' none_left parsed embedded
          present fresh' in
      ingest-eq loader call content document_id source metadata kept w w' none_left parsed embedded
        present fresh' same
      ∙ ap (λ r. (stored_count (length chunks) r.0, (r.1, w')))
          (store_all-rows loader.refuses call.now call.new_id document_id 0 chunks embeddings kept
            ids fresh' fine same)

  -- For a content with at least one chunk, whose ids are new and distinct, where the embedder answers
  -- with one vector for each chunk and the database takes every row: reingest returns the number of
  -- the chunks; the rows of the document are then exactly those of the new chunks, in their order,
  -- whatever rows it had; and every other document has the rows that it had.
  pub reingest-replaces :
      (other : String)
      → length chunks ≡ length embeddings
      → AreAccepted loader.refuses call.now chunks embeddings
      → let (r, s) = reingest loader call content document_id source metadata (rows, w) in
        (r ≡ ok (length chunks))
        × (of_document other s.0 ≡ (
            if document_id == other
            then rows_of call.now chunks embeddings
            else of_document other rows))
  reingest-replaces other same fine =
      let none_left = count-delete_document document_id rows in
      let ids =
        numbered loader call content document_id source metadata kept w w' none_left parsed embedded
          present (AreFresh-delete_document call.new_id 0 document_id rows fresh) in
      let added =
        of_document-rows_of call.now call.new_id document_id other 0 chunks embeddings ids in
      let whole = reingest-eq same fine in
      (
        ap (λ o. o.0) whole,
        ap (λ o. of_document other o.1.0) whole
            ∙ of_document-append other kept (rows_of call.now chunks embeddings)
            ∙ rw (delete_document_lem document_id other rows, added)
                (elim (Bool-cases (document_id == other)) [
                  | inl hit ↦ rw hit refl
                  | inr miss ↦ rw miss (append-nil (of_document other rows))
                ]),
      )

-- With a content that is blank, `reingest` raises ValueError after the rows of the document are gone;
-- the rows of every other document are kept.
reingest-blank :
    {Float W : Type 0} (loader : DocumentLoader Float W) (call : Call Float) (content : Text)
    (document_id other source : String) (metadata : Dict Json) (rows : List (Row Float)) (w : W)
    → parse content document_id source metadata ≡ err value_error
    → ((reingest loader call content document_id source metadata (rows, w)).0 ≡ err value_error)
      × (of_document other (reingest loader call content document_id source metadata (rows, w)).1.0
          ≡ (if document_id == other then [] else of_document other rows))
unfolding reingest ingest ingest_parsed
reingest-blank loader call content document_id other source metadata rows w blank =
    let self : (document_id == document_id) ≡ true = (eq_iff document_id document_id).1 refl in
    let gone : count_by_document document_id (delete_document document_id rows) ≡ 0 =
      count-delete_document document_id rows in
    rw (gone, blank) (refl, delete_document_lem document_id other rows)
