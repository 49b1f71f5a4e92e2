-- ===== src/Rag/Retriever/Storing.antt =====
-- What src/athenai/rag/retriever.py's `store_chunks` leaves in the table.
use text.Mathlib.TextEquality.{eq_iff}
use athena_ai.Prelude.{
  ℕ, suc, ◌+◌, ◌≤◌, ◌≡◌, refl, sym, ap, ◌∙◌, String, Bool, true, false, List, [], ◌∷◌, ◌++◌, ◌==◌,
  string_eq, nat_eq, if◌then◌else◌, length, length-append, arith, select, select-append, Bool-cases,
  inl, inr,
}
use athena_ai.Core.Errors.{ok, err, database_error}
use athena_ai.Rag.Chunker.{Chunk}
use athena_ai.Rag.Retriever.{
  Row, row_of, has_id, insert, of_document, count_by_document, delete_document, store_all,
}

-- ids that are numbered, as `uuid4` would choose them: none is chosen twice, and from a number on
-- none stands in the table
pub record AreFresh {Float : Type 0} (new_id : ℕ → String) (index : ℕ) (rows : List (Row Float))
    : Type 0 where
  pub distinct : (i j : ℕ) → new_id i ≡ new_id j → i ≡ j
  pub absent : (i : ℕ) → index ≤ i → has_id (new_id i) rows ≡ false

-- chunks of one document whose ids are chosen in order
abbrev pub AreNumbered : (ℕ → String) → String → ℕ → List Chunk → Type 0
AreNumbered new_id document_id index [] = Unit
AreNumbered new_id document_id index (c ∷ cs) =
    (c.chunk_id ≡ new_id index)
    × (c.document_id ≡ document_id)
    × AreNumbered new_id document_id (index + 1) cs

-- what the database does not refuse
abbrev pub AreAccepted :
    {Float : Type 0} → (Row Float → Bool) → Float → List Chunk → List (List Float) → Type 0
AreAccepted refuses now (c ∷ cs) (e ∷ es) =
    (refuses (row_of now c e) ≡ false) × AreAccepted refuses now cs es
AreAccepted refuses now _ _ = Unit

length-select_one :
    {A : Type 0} (keep : A → Bool) (x : A)
    → length (select keep (x ∷ [])) ≡ (if keep x then 1 else 0)
length-select_one keep x = ground (arith)

module _ {Float : Type 0} where
  has_id-append :
      (id : String) (rows : List (Row Float)) (row : Row Float)
      → has_id id (rows ++ row ∷ []) ≡ (if has_id id rows then true else row.id == id)
  has_id-append id [] row = ground (arith)
  has_id-append id (r ∷ rows) row = ground (arith, has_id-append id rows row)

  count-insert :
      (other : String) (row : Row Float) (rows : List (Row Float))
      → has_id row.id rows ≡ false
      → count_by_document other (insert row rows)
        ≡ count_by_document other rows + (if row.document_id == other then 1 else 0)
  unfolding count_by_document insert of_document
  count-insert other row rows new =
      let keep = λ (r : Row Float). r.document_id == other in
      let kept = select-append keep rows (row ∷ []) in
      let both = length-append (select keep rows) (select keep (row ∷ [])) in
      let one = length-select_one keep row in rw new (omega (arith, ap length kept, both, one))

  pub AreFresh-insert :
      (new_id : ℕ → String) (index : ℕ) (row : Row Float) (rows : List (Row Float))
      → row.id ≡ new_id index
      → AreFresh new_id index rows
      → AreFresh new_id (index + 1) (insert row rows)
  unfolding insert
  AreFresh-insert new_id index row rows e fresh = record {
    distinct = fresh.distinct;
    absent = λ i h.
        let other : (row.id == new_id i) ≡ false = elim (Bool-cases (row.id == new_id i)) [
          | inl same ↦
              let clash : index ≡ i =
                fresh.distinct index i (sym e ∙ (eq_iff row.id (new_id i)).0 same) in
              absurd (omega (arith, clash))
          | inr differ ↦ differ
        ] in
        let known : has_id row.id rows ≡ false = rw e (fresh.absent index (omega arith)) in
        rw known (has_id-append (new_id i) rows row ∙ rw (fresh.absent i (omega arith)) other);
  }

  pub store_all-accepted :
      (refuses : Row Float → Bool) (now : Float) (c : Chunk) (cs : List Chunk) (e : List Float)
      (es : List (List Float)) (rows : List (Row Float))
      → refuses (row_of now c e) ≡ false
      → store_all refuses now (c ∷ cs) (e ∷ es) rows
        ≡ store_all refuses now cs es (insert (row_of now c e) rows)
  unfolding store_all
  store_all-accepted refuses now c cs e es rows fine = rw (fine, store_all) refl

  -- the chunks of a document of which the database refuses none are stored
  pub store_all-count :
      (refuses : Row Float → Bool) (now : Float) (new_id : ℕ → String) (document_id other : String)
      (index : ℕ) (chunks : List Chunk) (embeddings : List (List Float)) (rows : List (Row Float))
      → AreNumbered new_id document_id index chunks
      → AreFresh new_id index rows
      → AreAccepted refuses now chunks embeddings
      → length chunks ≡ length embeddings
      → ((store_all refuses now chunks embeddings rows).0 ≡ ok tt)
        × (count_by_document other (store_all refuses now chunks embeddings rows).1
            ≡ count_by_document other rows + (if document_id == other then length chunks else 0))
  unfolding store_all
  store_all-count refuses now new_id document_id other index [] es rows ids fresh fine same =
      (refl, ground arith)
  store_all-count refuses now new_id document_id other index (c ∷ cs) [] rows ids fresh fine same =
      absurd (omega (arith, same))
  store_all-count refuses now new_id document_id other index (c ∷ cs) (e ∷ es) rows ids fresh fine
        same =
      let row = row_of now c e in
      let new : has_id c.chunk_id rows ≡ false = rw (ids.0) (fresh.absent index (omega arith)) in
      let (done, counted) =
        store_all-count refuses now new_id document_id other (index + 1) cs es (insert row rows)
          ids.2 (AreFresh-insert new_id index row rows ids.0 fresh) fine.1 (omega (arith, same)) in
      let mine : (c.document_id == other) ≡ (document_id == other) = rw (ids.1) refl in
      let added = count-insert other row rows new in
      let total : count_by_document other (insert row rows)
            + (if document_id == other then length cs else 0)
          ≡ count_by_document other rows + (if document_id == other then suc (length cs) else 0) =
        ground (arith, added, mine) in
      let step = store_all-accepted refuses now c cs e es rows fine.0 in
      (ap (λ r. r.0) step ∙ done, ap (λ r. count_by_document other r.1) step ∙ counted ∙ total)

  -- where the database refuses a row, the rows before it stay
  pub store_all-refused :
      (refuses : Row Float → Bool) (now : Float) (before : List Chunk) (c : Chunk)
      (after : List Chunk) (es : List (List Float)) (e : List Float) (es' : List (List Float))
      (rows : List (Row Float))
      → AreAccepted refuses now before es
      → length before ≡ length es
      → refuses (row_of now c e) ≡ true
      → store_all refuses now (before ++ c ∷ after) (es ++ e ∷ es') rows
        ≡ (err database_error, (store_all refuses now before es rows).1)
  unfolding store_all
  store_all-refused refuses now [] c after [] e es' rows fine same refused = rw refused refl
  store_all-refused refuses now [] c after (x ∷ es) e es' rows fine same refused =
      absurd (omega (arith, same))
  store_all-refused refuses now (b ∷ bs) c after [] e es' rows fine same refused =
      absurd (omega (arith, same))
  store_all-refused refuses now (b ∷ bs) c after (x ∷ es) e es' rows fine same refused =
      let later =
        store_all-refused refuses now bs c after es e es' (insert (row_of now b x) rows) fine.1
          (omega (arith, same)) refused in
      store_all-accepted refuses now b (bs ++ c ∷ after) x (es ++ e ∷ es') rows fine.0
      ∙ later
      ∙ ap (λ r. (err database_error, r.1))
          (sym (store_all-accepted refuses now b bs x es rows fine.0))

  -- a document that is deleted has no rows, and the rows of another stay
  pub delete_document_lem :
      (document_id other : String) (rows : List (Row Float))
      → of_document other (delete_document document_id rows)
        ≡ (if document_id == other then [] else of_document other rows)
  unfolding of_document delete_document
  delete_document_lem document_id other [] = ground arith
  delete_document_lem document_id other (row ∷ rows) = ground (
    arith,
    delete_document_lem document_id other rows,
    eq_iff row.document_id document_id,
    eq_iff row.document_id other,
    eq_iff document_id other,
  )

  pub count-delete_document :
      (document_id : String) (rows : List (Row Float))
      → count_by_document document_id (delete_document document_id rows) ≡ 0
  unfolding count_by_document
  count-delete_document document_id rows =
      ap length (delete_document_lem document_id document_id rows)
      ∙ rw ((eq_iff document_id document_id).1 refl) refl
