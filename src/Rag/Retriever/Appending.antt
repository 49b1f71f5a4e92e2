-- ===== src/Rag/Retriever/Appending.antt =====
-- The rows that src/athenai/rag/retriever.py's `store_chunks` adds.
use athena_ai.Prelude.{
  ℕ, ◌+◌, ◌≡◌, refl, sym, ap, ◌∙◌, String, Bool, false, List, [], ◌∷◌, ◌++◌, ◌==◌, string_eq,
  if◌then◌else◌, length, arith, select, select-append,
}
use mathlib.Core.List.{append-nil, append_assoc}
use athena_ai.Core.Errors.{ok}
use athena_ai.Rag.Chunker.{Chunk}
use athena_ai.Rag.Retriever.{Row, row_of, has_id, insert, of_document, delete_document, store_all}
use athena_ai.Rag.Retriever.Storing.{
  AreFresh, AreNumbered, AreAccepted, AreFresh-insert, store_all-accepted,
}

module _ {Float : Type 0} where
  -- a row for each chunk with its embedding
  abbrev pub rows_of : Float → List Chunk → List (List Float) → List (Row Float)
  rows_of now (c ∷ cs) (e ∷ es) = row_of now c e ∷ rows_of now cs es
  rows_of now _ _ = []

  insert-new :
      (row : Row Float) (rows : List (Row Float))
      → has_id row.id rows ≡ false
      → insert row rows ≡ rows ++ row ∷ []
  unfolding insert
  insert-new row rows h = rw h refl

  -- chunks of new ids that the database takes are added at the end
  pub store_all-rows :
      (refuses : Row Float → Bool) (now : Float) (new_id : ℕ → String) (document_id : String)
      (index : ℕ) (chunks : List Chunk) (embeddings : List (List Float)) (rows : List (Row Float))
      → AreNumbered new_id document_id index chunks
      → AreFresh new_id index rows
      → AreAccepted refuses now chunks embeddings
      → length chunks ≡ length embeddings
      → store_all refuses now chunks embeddings rows
        ≡ (ok tt, rows ++ rows_of now chunks embeddings)
  unfolding store_all
  store_all-rows refuses now new_id d index [] [] rows ids fresh fine same =
      ap (λ r. (ok tt, r)) (sym (append-nil rows))
  store_all-rows refuses now new_id d index [] (e ∷ es) rows ids fresh fine same =
      absurd (omega (arith, same))
  store_all-rows refuses now new_id d index (c ∷ cs) [] rows ids fresh fine same =
      absurd (omega (arith, same))
  store_all-rows refuses now new_id d index (c ∷ cs) (e ∷ es) rows ids fresh fine same =
      let row = row_of now c e in
      let new : has_id c.chunk_id rows ≡ false = rw (ids.0) (fresh.absent index (omega arith)) in
      store_all-accepted refuses now c cs e es rows fine.0
      ∙ store_all-rows refuses now new_id d (index + 1) cs es (insert row rows) ids.2
          (AreFresh-insert new_id index row rows ids.0 fresh) fine.1 (omega (arith, same))
      ∙ ap (λ r. (ok tt, r ++ rows_of now cs es)) (insert-new row rows new)
      ∙ ap (λ r. (ok tt, r)) (append_assoc rows (row ∷ []) (rows_of now cs es))

  pub of_document-rows_of :
      (now : Float) (new_id : ℕ → String) (document_id other : String) (index : ℕ)
      (chunks : List Chunk) (embeddings : List (List Float))
      → AreNumbered new_id document_id index chunks
      → of_document other (rows_of now chunks embeddings)
        ≡ (if document_id == other then rows_of now chunks embeddings else [])
  unfolding of_document
  of_document-rows_of now new_id d other index [] es ids = ground arith
  of_document-rows_of now new_id d other index (c ∷ cs) [] ids = ground arith
  of_document-rows_of now new_id d other index (c ∷ cs) (e ∷ es) ids =
      let mine : (c.document_id == other) ≡ (d == other) = rw (ids.1) refl in
      ground (arith, mine, of_document-rows_of now new_id d other (index + 1) cs es ids.2)

  pub of_document-append :
      (other : String) (rows added : List (Row Float))
      → of_document other (rows ++ added) ≡ of_document other rows ++ of_document other added
  unfolding of_document
  of_document-append other rows added = select-append _ rows added

  has_id-select :
      (keep : Row Float → Bool) (id : String) (rows : List (Row Float))
      → has_id id rows ≡ false
      → has_id id (select keep rows) ≡ false
  has_id-select keep id [] h = refl
  has_id-select keep id (row ∷ rows) h = ground (arith, has_id-select keep id rows)

  -- ids that are new to a table are new to what a deletion leaves of it
  pub AreFresh-delete_document :
      (new_id : ℕ → String) (index : ℕ) (document_id : String) (rows : List (Row Float))
      → AreFresh new_id index rows
      → AreFresh new_id index (delete_document document_id rows)
  unfolding delete_document
  AreFresh-delete_document new_id index d rows fresh = record {
    distinct = fresh.distinct;
    absent = λ i h. has_id-select _ (new_id i) rows (fresh.absent i h);
  }
