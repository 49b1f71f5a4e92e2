-- ===== src/Rag/Tests.antt =====
-- Runs of the chunker and the embedder, and the document that the other tests are about.
mod Ingest
mod Table
mod Race
use Prim.Native.Char.{char, code}
use text.Mathlib.TextEquality.{eq_iff}
use athena_ai.Prelude.{
  ◌==◌, ◌≢◌, string_eq, ap, ◌≤◌, min, false, none, select, zero, suc, ◌+◌, Text, List, map, ltb,
  ◌<◌, ℕ, ◌*◌, ◌-◌, String, codes, ◌≡◌, refl, some, [], ◌∷◌, length, arith,
}
use athena_ai.Prelude.Texts.{strip, split, join_words, is_space}
use athena_ai.Rag.Parser.{parse, ParsedDocument}
use athena_ai.Rag.Retriever.{
  Row, row_of, count_by_document, of_document, insert, delete_document, search, retrieved,
  is_wanted,
}
use mathlib.Core.Quot
use athena_ai.Rag.Retriever.Storing.{AreFresh, AreAccepted}
use athena_ai.Rag.Loader.{Call, DocumentLoader, ingest}
use athena_ai.Rag.Loader.Repeats.{ingest-again, ingest-after_refusal}
use mathlib.Core.List.{reverse}
use mathlib.Core.List.Permᴰ
use athena_ai.Rag.Embedder.{CloudEmbedder, Item, Post, embed}
use athena_ai.Rag.Embedder.Order.{numbered, embed-order}
use athena_ai.Prelude.Floats.{fixed, fixed_laws}
use athena_ai.Prelude.Sorting.{IsBestOf}
use athena_ai.Core.Errors.{Result, ok, err, database_error}
use athena_ai.Rag.Chunker
use athena_ai.Rag.Chunker.{Chunk, SlidingWindowChunker, chunks_from, chunk}
use athena_ai.Rag.Chunker.Windows.{AreChunks, chunk-AreChunks}

abbrev document : ParsedDocument
document = record {
  document_id = "d1";
  content = codes "one two three four five six";
  source = "notes";
  metadata = [];
}

abbrev short : ParsedDocument
short = record {
  document_id = "d1";
  content = codes "one two three";
  source = "notes";
  metadata = [];
}

abbrev same_id : ℕ → String
same_id index = "id"

-- two tokens a chunk, one of them shared
abbrev small : SlidingWindowChunker
small = record { chunk_size = 2; overlap = 1 }

accepted_small : Chunker.new 2 1 ≡ ok small
unfolding Chunker.new
accepted_small = refl

chunk-AreChunks_example :
    AreChunks (2 * 4) (2 * 4 - 1 * 4) document.content 0 0 (chunk same_id small document)
chunk-AreChunks_example = chunk-AreChunks same_id 2 1 document accepted_small

abbrev id_of : ℕ → String
id_of zero = String.[]
id_of (suc i) = String.◌∷◌ (char 97 tt) (id_of i)

id_of-injective : (i j : ℕ) → id_of i ≡ id_of j → i ≡ j
id_of-injective zero zero e = refl
id_of-injective zero (suc j) e = cc
id_of-injective (suc i) zero e = cc
id_of-injective (suc i) (suc j) e = ap suc (id_of-injective i j cc)

differs : (x y : String) → x ≢ y → (x == y) ≡ false
differs x y h = ground (arith, eq_iff x y)

abbrev first_code : String → ℕ
first_code String.[] = 0
first_code (String.◌∷◌ c s) = code c

fresh_ids : AreFresh {Float = ℕ} id_of 0 []
fresh_ids = record { distinct = id_of-injective; absent = λ i h. refl }

-- every chunk gets the vector of its length
abbrev embed_lengths : List Text → ℕ → Result (List (List ℕ)) × ℕ
embed_lengths texts w = (ok (map (λ t. length t ∷ []) texts), w + 1)

abbrev loader : DocumentLoader ℕ ℕ
loader = record { chunker = small; embed = embed_lengths; refuses = λ row. false }

-- a database that takes only the first chunk of a document
abbrev failing : DocumentLoader ℕ ℕ
failing = record loader { refuses = λ row. ltb 0 row.chunk_index }

abbrev first_call : Call ℕ
first_call = record { new_id = id_of; now = 5 }

abbrev second_call : Call ℕ
second_call = record { new_id = same_id; now = 9 }

parsed : parse (codes "one two three") "d1" "notes" [] ≡ ok short
unfolding parse strip split join_words is_space
parsed = refl

abbrev piece : ℕ → ℕ → ℕ → Text → Chunk
piece index start end content = record {
  chunk_id = id_of index;
  document_id = "d1";
  content = content;
  chunk_index = index;
  start_char = start;
  end_char = end;
  metadata = [];
}

abbrev pieces : List Chunk
pieces =
    piece 0 0 7 (codes "one two") ∷ piece 1 4 7 (codes "two") ∷ piece 2 8 13 (codes "three") ∷ []

cut : chunk id_of small short ≡ pieces
unfolding chunk strip
cut = refl

abbrev vectors : List (List ℕ)
vectors = (7 ∷ []) ∷ (3 ∷ []) ∷ (5 ∷ []) ∷ []

embedded :
    embed_lengths (map (λ (k : Chunk). k.content) (chunk id_of small short)) 0 ≡ (ok vectors, 1)
embedded = rw cut refl

present : 0 < length (chunk id_of small short)
present = rw cut (omega arith)

same_length : length (chunk id_of small short) ≡ length vectors
same_length = rw cut refl

accepted : AreAccepted loader.refuses 5 (chunk id_of small short) vectors
accepted = rw cut (refl, (refl, (refl, tt)))

unknown : count_by_document {Float = ℕ} "d1" [] ≡ 0
unfolding count_by_document of_document
unknown = refl

-- an API that answers in the reverse order
abbrev answered : List Text → List (Item (List ℕ))
answered texts = reverse (numbered 0 (map (λ t. length t ∷ []) texts))

abbrev post : Post (List ℕ) ℕ
post url m texts w = (ok (record { status_code = 200; json = ok (answered texts) }), w + 1)

abbrev embedder : CloudEmbedder
embedder = record {
  api_key = codes "k";
  model = codes "m";
  base_url = codes "http://e";
  batch_size = 2;
}

embed-order_example :
    (embed post embedder (codes "one" ∷ codes "three" ∷ codes "at" ∷ []) 0).0
    ≡ ok ((3 ∷ []) ∷ (5 ∷ []) ∷ (2 ∷ []) ∷ [])
embed-order_example =
    embed-order post embedder (λ t. length t ∷ [])
      (λ url texts w. (
        record { status_code = 200; json = ok (answered texts) },
        answered texts,
        refl,
        refl,
        refl,
        Permᴰ.reverse (numbered 0 (map (λ t. length t ∷ []) texts)),
      ))
      (codes "one" ∷ codes "three" ∷ codes "at" ∷ []) 0 (omega arith)
