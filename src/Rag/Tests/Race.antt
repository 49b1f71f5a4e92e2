-- ===== src/Rag/Tests/Race.antt =====
-- Two calls of the document loader at once.
use Prim.Native.Char.{char}
use athena_ai.Prelude.Texts.{strip}
use athena_ai.Rag.Retriever.{count_by_document}
use athena_ai.Prelude.{
  ◌≢◌, string_eq, ap, zero, suc, ◌+◌, List, ℕ, String, codes, ◌≡◌, refl, [], ◌∷◌, length, arith,
  ◌++◌,
}
use athena_ai.Rag.Retriever.Storing.{AreFresh}
use athena_ai.Rag.Loader.{Call, ingest}
use athena_ai.Rag.Chunker.{Chunk, chunk}
use athena_ai.Rag.Tests.{
  id_of-injective, differs, first_code, short, small, id_of, fresh_ids, loader, first_call, parsed,
  piece, cut, vectors, embedded, present, same_length, accepted, unknown,
}
use athena_ai.Rag.Loader.Coroutine.{ingest_task}
use athena_ai.Rag.Loader.Storable.{IsStorable, chunks, new_rows}
use athena_ai.Rag.Loader.Races.{both_done, both_rows, ingest-race}
use athena_ai.Prelude.Tasks.{Runs}

-- ids that differ from those of the first call
abbrev second_id : ℕ → String
second_id i = String.◌∷◌ (char 98 tt) (id_of i)

second_id-injective : (i j : ℕ) → second_id i ≡ second_id j → i ≡ j
second_id-injective i j e = id_of-injective i j cc

abbrev racing_call : Call ℕ
racing_call = record { new_id = second_id; now = 6 }

abbrev first_storable : IsStorable loader first_call (codes "one two three") "d1" "notes" [] [] 0 1
first_storable = record {
  document = short;
  embeddings = vectors;
  parsed = parsed;
  embedded = embedded;
  present = present;
  same_length = same_length;
  accepted = accepted;
  fresh = fresh_ids;
}

abbrev renamed : List Chunk
renamed =
    record (piece 0 0 7 (codes "one two")) { chunk_id = second_id 0 }
    ∷ record (piece 1 4 7 (codes "two")) { chunk_id = second_id 1 }
    ∷ record (piece 2 8 13 (codes "three")) { chunk_id = second_id 2 }
    ∷ []

cut_again : chunk second_id small short ≡ renamed
unfolding chunk strip
cut_again = refl

apart_ids : (j i : ℕ) → id_of j ≢ second_id i
apart_ids zero i e = omega (arith, ap first_code e)
apart_ids (suc j) i e = omega (arith, ap first_code e)

later_ids : AreFresh second_id 0 ([] ++ new_rows loader first_call first_storable)
later_ids = record {
  distinct = second_id-injective;
  absent = λ i h.
      rw
        (
          cut,
          differs (id_of 0) (second_id i) (apart_ids 0 i),
          differs (id_of 1) (second_id i) (apart_ids 1 i),
          differs (id_of 2) (second_id i) (apart_ids 2 i),
        )
        refl;
}

abbrev later_storable :
    IsStorable loader racing_call
      (codes "one two three")
      "d1"
      "notes"
      []
      ([] ++ new_rows loader first_call first_storable)
      1
      2
later_storable = record {
  document = short;
  embeddings = vectors;
  parsed = parsed;
  embedded = rw cut_again refl;
  present = rw cut_again (omega arith);
  same_length = rw cut_again refl;
  accepted = rw cut_again (refl, (refl, (refl, tt)));
  fresh = later_ids;
}

ingest-race_example :
    Runs
      (ingest_task loader first_call (codes "one two three") "d1" "notes" []
        ∷ ingest_task loader racing_call (codes "one two three") "d1" "notes" []
        ∷ [])
      ([], 0)
      (both_done loader first_call racing_call first_storable later_storable)
      (both_rows loader first_call racing_call first_storable later_storable, 2)
    × (count_by_document "d1"
          (both_rows loader first_call racing_call first_storable later_storable)
        ≡ length (chunks loader first_call first_storable)
          + length (chunks loader racing_call later_storable))
    × ((ingest loader racing_call
          (codes "one two three")
          "d1"
          "notes"
          []
          (ingest loader first_call (codes "one two three") "d1" "notes" [] ([], 0)).1).1.0
        ≡ [] ++ new_rows loader first_call first_storable)
ingest-race_example =
    ingest-race loader first_call racing_call first_storable later_storable unknown
