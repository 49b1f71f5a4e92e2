-- ===== src/Rag/Loader/Repeats.antt =====
-- What src/athenai/rag/loader.py leaves behind, and what a second call makes of it.
use text.Mathlib.TextEquality.{eq_iff}
use mathlib.Core.Path.{subst}
use athena_ai.Prelude.{
  ℕ, ◌+◌, ◌<◌, ◌≡◌, refl, ap, ◌∙◌, String, Text, Bool, true, List, [], ◌∷◌, ◌++◌, ◌==◌, string_eq,
  nat_eq, map, if◌then◌else◌, length, length-append, arith,
}
use athena_ai.Prelude.Dict.{Dict}
use athena_ai.Core.Errors.{ok, err, database_error}
use athena_ai.Core.Json.{Json}
use athena_ai.Rag.Parser.{ParsedDocument, parse}
use athena_ai.Rag.Chunker.{Chunk, chunk}
use athena_ai.Rag.Retriever.{Row, row_of, count_by_document, store_all, store_chunks}
use athena_ai.Rag.Retriever.Storing.{
  AreFresh, AreAccepted, AreNumbered, store_all-count, store_all-refused,
}
use athena_ai.Rag.Loader.{
  Call, DocumentLoader, Store, stored_count, store_embedded, embed_and_store, ingest_parsed, ingest,
}
use athena_ai.Rag.Loader.Ids.{chunk-AreNumbered}

pub store_chunks-eq :
    {Float : Type 0} (refuses : Row Float → Bool) (now : Float) (chunks : List Chunk)
    (es : List (List Float)) (rows : List (Row Float))
    → length chunks ≡ length es
    → store_chunks refuses now chunks es rows ≡ store_all refuses now chunks es rows
unfolding store_chunks
store_chunks-eq refuses now chunks es rows e = ground arith

AreNumbered-prefix :
    (new_id : ℕ → String) (document_id : String) (index : ℕ) (before after : List Chunk)
    → AreNumbered new_id document_id index (before ++ after)
    → AreNumbered new_id document_id index before
AreNumbered-prefix new_id d index [] after h = tt
AreNumbered-prefix new_id d index (c ∷ before) after h =
    (h.0, h.1, AreNumbered-prefix new_id d (index + 1) before after h.2)

pub document_id-parse :
    (content : Text) (document_id source : String) (metadata : Dict Json)
    {document : ParsedDocument}
    → parse content document_id source metadata ≡ ok document
    → document.document_id ≡ document_id
unfolding parse
document_id-parse content document_id source metadata e = ground arith

module _ {Float W : Type 0} where
  -- a document that has rows is left as it is
  pub ingest-stored :
      (loader : DocumentLoader Float W) (call : Call Float) (content : Text)
      (document_id source : String) (metadata : Dict Json) (s : Store Float W)
      → 0 < count_by_document document_id s.0
      → ingest loader call content document_id source metadata s
        ≡ (ok (count_by_document document_id s.0), s)
  unfolding ingest
  ingest-stored loader call content document_id source metadata s h = ground arith

  embed_and_store-eq :
      (loader : DocumentLoader Float W) (call : Call Float) (chunks : List Chunk)
      (rows : List (Row Float)) (w w' : W) {es : List (List Float)}
      → 0 < length chunks
      → loader.embed (map (λ (k : Chunk). k.content) chunks) w ≡ (ok es, w')
      → embed_and_store loader call chunks (rows, w) ≡ (
        stored_count (length chunks) (store_chunks loader.refuses call.now chunks es rows).0,
        ((store_chunks loader.refuses call.now chunks es rows).1, w'),
      )
  unfolding embed_and_store store_embedded
  embed_and_store-eq loader call [] rows w w' present e = absurd (omega (arith, present))
  embed_and_store-eq loader call (c ∷ cs) rows w w' present e = rw e refl

-- a call for a document that the table does not have yet, and that has text
module _ {Float W : Type 0} (loader : DocumentLoader Float W) (call : Call Float) (content : Text)
    (document_id source : String) (metadata : Dict Json) (rows : List (Row Float)) (w w' : W)
    {document : ParsedDocument} {embeddings : List (List Float)}
    (unknown : count_by_document document_id rows ≡ 0)
    (parsed : parse content document_id source metadata ≡ ok document)
    (embedded : loader.embed
        (map (λ (k : Chunk). k.content) (chunk call.new_id loader.chunker document))
        w
      ≡ (ok embeddings, w'))
    (present : 0 < length (chunk call.new_id loader.chunker document))
    (fresh : AreFresh call.new_id 0 rows) where
  abbrev pub chunks : List Chunk
  chunks = chunk call.new_id loader.chunker document

  pub ingest-eq :
      length chunks ≡ length embeddings
      → ingest loader call content document_id source metadata (rows, w) ≡ (
        stored_count (length chunks) (store_all loader.refuses call.now chunks embeddings rows).0,
        ((store_all loader.refuses call.now chunks embeddings rows).1, w'),
      )
  unfolding ingest ingest_parsed
  ingest-eq same =
      let stored = embed_and_store-eq loader call chunks rows w w' present embedded in
      let plain = store_chunks-eq loader.refuses call.now chunks embeddings rows same in
      rw (unknown, parsed) (stored ∙ rw plain refl)

  pub numbered : AreNumbered call.new_id document_id 0 chunks
  numbered =
      subst (λ d. AreNumbered call.new_id d 0 chunks)
        (document_id-parse content document_id source metadata parsed)
        (chunk-AreNumbered call.new_id loader.chunker document)

  -- The document's chunks are stored, and other documents are left alone.
  ingest-count :
      (other : String)
      → length chunks ≡ length embeddings
      → AreAccepted loader.refuses call.now chunks embeddings
      → ((ingest loader call content document_id source metadata (rows, w)).0 ≡ ok (length chunks))
        × (count_by_document other
              (ingest loader call content document_id source metadata (rows, w)).1.0
            ≡ count_by_document other rows + (if document_id == other then length chunks else 0))
  ingest-count other same fine =
      let (done, counted) =
        store_all-count loader.refuses call.now call.new_id document_id other 0 chunks embeddings
          rows numbered fresh fine same in
      rw (ingest-eq same) (ap (stored_count (length chunks)) done, counted)

  -- For a document that has no rows yet, that has at least one chunk, whose ids are new and
  -- distinct, where the embedder answers with one vector for each chunk and the database takes
  -- every row: ingest returns the number of the chunks, and so does every later ingest under the
  -- same id, whatever its content and by whatever loader, without a change to table or world.
  pub ingest-again :
      (later : DocumentLoader Float W) (second : Call Float) (content' : Text) (source' : String)
      (metadata' : Dict Json)
      → length chunks ≡ length embeddings
      → AreAccepted loader.refuses call.now chunks embeddings
      → let s = (ingest loader call content document_id source metadata (rows, w)).1 in
        ((ingest loader call content document_id source metadata (rows, w)).0 ≡ ok (length chunks))
        × (ingest later second content' document_id source' metadata' s ≡ (ok (length chunks), s))
  ingest-again later second content' source' metadata' same fine =
      let (done, counted) = ingest-count document_id same fine in
      let self : (document_id == document_id) ≡ true = (eq_iff document_id document_id).1 refl in
      let all : count_by_document document_id
            (ingest loader call content document_id source metadata (rows, w)).1.0
          ≡ length chunks =
        counted ∙ rw (unknown, self) (omega arith) in
      (
        done,
        ingest-stored later second content' document_id source' metadata' _ (rw all present)
            ∙ ap (λ n. (ok n, (ingest loader call content document_id source metadata (rows, w)).1))
                all,
      )

  -- For such a document, where the embedder answers with one vector for each chunk but the database
  -- refuses a row after it took at least one: ingest raises, the rows before it stay, and every
  -- later ingest under the same id returns their number as a success, without a change.
  pub ingest-after_refusal :
      (before : List Chunk) (c : Chunk) (after : List Chunk) (es : List (List Float))
      (e : List Float) (es' : List (List Float)) (later : DocumentLoader Float W)
      (second : Call Float) (content' : Text) (source' : String) (metadata' : Dict Json)
      → chunks ≡ before ++ c ∷ after
      → embeddings ≡ es ++ e ∷ es'
      → length before ≡ length es
      → length after ≡ length es'
      → 0 < length before
      → AreAccepted loader.refuses call.now before es
      → loader.refuses (row_of call.now c e) ≡ true
      → let s = (ingest loader call content document_id source metadata (rows, w)).1 in
        ((ingest loader call content document_id source metadata (rows, w)).0 ≡ err database_error)
        × (ingest later second content' document_id source' metadata' s ≡ (ok (length before), s))
  ingest-after_refusal before c after es e es' later second content' source' metadata' cut cut'
        first rest positive fine refused =
      let refuses = loader.refuses in
      let same : length chunks ≡ length embeddings = omega (
        arith,
        ap length cut,
        ap length cut',
        first,
        rest,
        length-append before (c ∷ after),
        length-append es (e ∷ es'),
      ) in
      let whole : store_all refuses call.now chunks embeddings rows
          ≡ (err database_error, (store_all refuses call.now before es rows).1) =
        rw (cut, cut')
          (store_all-refused refuses call.now before c after es e es' rows fine first refused) in
      let result : ingest loader call content document_id source metadata (rows, w)
          ≡ (err database_error, ((store_all refuses call.now before es rows).1, w')) =
        ingest-eq same ∙ rw whole refl in
      let ids : AreNumbered call.new_id document_id 0 before =
        AreNumbered-prefix call.new_id document_id 0 before (c ∷ after)
          (subst (AreNumbered call.new_id document_id 0) cut numbered) in
      let counted =
        (store_all-count refuses call.now call.new_id document_id document_id 0 before es rows ids
          fresh fine first).1 in
      let self : (document_id == document_id) ≡ true = (eq_iff document_id document_id).1 refl in
      let all : count_by_document document_id
            (ingest loader call content document_id source metadata (rows, w)).1.0
          ≡ length before =
        ap (λ r. count_by_document document_id r.1.0) result
        ∙ counted
        ∙ rw (unknown, self) (omega arith) in
      (
        ap (λ r. r.0) result,
        ingest-stored later second content' document_id source' metadata' _ (rw all positive)
            ∙ ap (λ n. (ok n, (ingest loader call content document_id source metadata (rows, w)).1))
                all,
      )
