-- ===== src/Rag/Chunker.antt =====
-- src/athenai/rag/chunker.py. The `while` is a recursion on fuel, the length of the text; Windows
-- shows that more fuel changes nothing.
pub mod Windows
use athena_ai.Prelude.{
  ℕ, zero, suc, ◌+◌, ◌-◌, ◌*◌, min, String, Text, Option, none, some, List, [], ◌∷◌, ◌++◌, leb, ltb,
  ◌==◌, nat_eq, if◌then◌else◌, length, take, drop,
}
use athena_ai.Prelude.Dict.{Dict}
use athena_ai.Prelude.Texts.{strip}
use athena_ai.Core.Errors.{Result, ok, err, value_error}
use athena_ai.Core.Json.{Json}
use athena_ai.Rag.Parser.{ParsedDocument}

pub record Chunk : Type 0 where
  pub chunk_id : String
  pub document_id : String
  pub content : Text
  pub chunk_index : ℕ
  pub start_char : ℕ
  pub end_char : ℕ
  pub metadata : Dict Json

pub record SlidingWindowChunker : Type 0 where
  pub chunk_size : ℕ
  pub overlap : ℕ

-- `SlidingWindowChunker.__init__`
unfoldable pub new : ℕ → ℕ → Result SlidingWindowChunker
new chunk_size overlap =
    if leb chunk_size overlap
    then err value_error
    else ok (record { chunk_size = chunk_size; overlap = overlap })

abbrev pub chars_per_token : ℕ
chars_per_token = 4

-- `text[start:end]`
abbrev pub slice : Text → ℕ → ℕ → Text
slice text start end = take (end - start) (drop start text)

-- the place of the last space
unfoldable pub last_space : Text → Option ℕ
last_space [] = none
last_space (c ∷ cs) = elim (last_space cs) [
  | some i ↦ some (suc i)
  | none ↦ if c == 32 then some 0 else none
]

-- where a window that starts at `start` ends: `text.rfind(" ", start, end)` is sought in the slice
unfoldable pub window_end : ℕ → Text → ℕ → ℕ
unfolding last_space
window_end chunk_chars text start =
    let end = min (start + chunk_chars) (length text) in
    if ltb end (length text)
    then elim (last_space (slice text start end)) [
      | none ↦ end
      | some i ↦ if ltb 0 i then start + i else end
    ]
    else end

-- `str(uuid.uuid4())` for the chunk with a given index is `new_id` of it
module _ (new_id : ℕ → String) (document : ParsedDocument) (chunk_chars step : ℕ) where
  abbrev pub chunk_of : ℕ → ℕ → ℕ → Text → Chunk
  chunk_of index start end content = record {
    chunk_id = new_id index;
    document_id = document.document_id;
    content = content;
    chunk_index = index;
    start_char = start;
    end_char = end;
    metadata = document.metadata;
  }

  -- one round of the loop, on the stripped text of the window: the rest of the loop is given by the
  -- next index
  unfoldable pub emit : ℕ → ℕ → ℕ → Text → (ℕ → List Chunk) → List Chunk
  emit index start end [] rest = rest index
  emit index start end (c ∷ cs) rest = chunk_of index start end (c ∷ cs) ∷ rest (index + 1)

  unfoldable pub chunks_from : ℕ → ℕ → ℕ → List Chunk
  unfolding emit window_end
  chunks_from zero start index = []
  chunks_from (suc fuel) start index =
      let end = window_end chunk_chars document.content start in
      let rest = λ (i : ℕ). chunks_from fuel (start + step) i in
      if leb (length document.content) start
      then []
      else emit index start end (strip (slice document.content start end))
          (λ i. if leb (length document.content) end then [] else rest i)

-- `SlidingWindowChunker.chunk`
unfoldable pub chunk : (ℕ → String) → SlidingWindowChunker → ParsedDocument → List Chunk
unfolding chunks_from
chunk new_id c document =
    let chunk_chars = c.chunk_size * chars_per_token in
    let overlap_chars = c.overlap * chars_per_token in
    chunks_from new_id document chunk_chars (chunk_chars - overlap_chars) (length document.content)
      0 0
