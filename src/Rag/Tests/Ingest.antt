-- ===== src/Rag/Tests/Ingest.antt =====
-- Runs of the document loader.
use athena_ai.Rag.Retriever.{Row, of_document, has_id}
use athena_ai.Prelude.{
  ◌≢◌, if◌then◌else◌, ◌==◌, string_eq, ap, false, zero, suc, List, ◌<◌, ℕ, String, codes, ◌≡◌, refl,
  [], ◌∷◌, length, arith,
}
use athena_ai.Rag.Retriever.Storing.{AreFresh}
use athena_ai.Rag.Loader.{ingest, reingest}
use athena_ai.Rag.Loader.Replacement.{reingest-replaces}
use athena_ai.Rag.Retriever.Appending.{rows_of}
use athena_ai.Rag.Loader.Repeats.{ingest-again, ingest-after_refusal}
use athena_ai.Core.Errors.{ok, err, database_error}
use athena_ai.Rag.Chunker.{chunk}
use athena_ai.Rag.Tests.{
  id_of-injective, differs, first_code, short, small, id_of, fresh_ids, loader, failing, first_call,
  second_call, parsed, piece, cut, vectors, embedded, present, same_length, accepted, unknown,
}

abbrev after_first : List (Row ℕ) × ℕ
after_first = (ingest loader first_call (codes "one two three") "d1" "notes" [] ([], 0)).1

ingest-again_example :
    ((ingest loader first_call (codes "one two three") "d1" "notes" [] ([], 0)).0
      ≡ ok (length (chunk id_of small short)))
    × (ingest loader second_call (codes "four") "d1" "mail" [] after_first
        ≡ (ok (length (chunk id_of small short)), after_first))
ingest-again_example =
    ingest-again loader first_call (codes "one two three") "d1" "notes" [] [] 0 1 unknown parsed
      embedded present fresh_ids loader second_call (codes "four") "mail" [] same_length accepted

abbrev after_failure : List (Row ℕ) × ℕ
after_failure = (ingest failing first_call (codes "one two three") "d1" "notes" [] ([], 0)).1

ingest-after_refusal_example :
    ((ingest failing first_call (codes "one two three") "d1" "notes" [] ([], 0)).0
      ≡ err database_error)
    × (ingest loader second_call (codes "one two three") "d1" "notes" [] after_failure
        ≡ (ok 1, after_failure))
ingest-after_refusal_example =
    ingest-after_refusal failing first_call (codes "one two three") "d1" "notes" [] [] 0 1 unknown
      parsed embedded present fresh_ids (piece 0 0 7 (codes "one two") ∷ [])
      (piece 1 4 7 (codes "two")) (piece 2 8 13 (codes "three") ∷ []) ((7 ∷ []) ∷ []) (3 ∷ [])
      ((5 ∷ []) ∷ []) loader second_call (codes "one two three") "notes" [] cut refl refl refl
      (omega arith) (refl, tt) refl

-- a table that has the document under other ids, and another document
abbrev old_rows : List (Row ℕ)
old_rows =
    record {
      id = "b1";
      document_id = "d1";
      content = codes "old";
      chunk_index = 0;
      embedding = 3 ∷ [];
      metadata = [];
      created_at = 1;
    }
    ∷ record {
      id = "b2";
      document_id = "d2";
      content = codes "other";
      chunk_index = 0;
      embedding = 5 ∷ [];
      metadata = [];
      created_at = 2;
    }
    ∷ []

not_old : (old : String) (i : ℕ) → 97 < first_code old → old ≢ id_of i
not_old old zero h e = omega (arith, ap first_code e)
not_old old (suc i) h e = omega (arith, ap first_code e)

old_id_absent : (i : ℕ) → has_id (id_of i) old_rows ≡ false
old_id_absent i =
    rw
      (
        differs "b1" (id_of i) (not_old "b1" i (omega arith)),
        differs "b2" (id_of i) (not_old "b2" i (omega arith)),
      )
      refl

abbrev other : String
other = "d2"

old_ids : AreFresh id_of 0 old_rows
old_ids = record { distinct = id_of-injective; absent = λ i h. old_id_absent i }

reingest-replaces_example :
    let (r, s) = reingest loader first_call (codes "one two three") "d1" "notes" [] (old_rows, 0) in
    (r ≡ ok (length (chunk id_of small short)))
    × (of_document other s.0 ≡ (
        if "d1" == other
        then rows_of 5 (chunk id_of small short) vectors
        else of_document other old_rows))
reingest-replaces_example =
    reingest-replaces loader first_call (codes "one two three") "d1" "notes" [] old_rows 0 1 parsed
      embedded present old_ids other same_length accepted
