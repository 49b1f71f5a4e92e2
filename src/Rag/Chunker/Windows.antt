-- ===== src/Rag/Chunker/Windows.antt =====
-- Where the chunks of a text lie.
use athena_ai.Prelude.{
  ℕ, zero, suc, ◌+◌, ◌-◌, ◌*◌, min, ◌≤◌, ◌<◌, ◌≡◌, ap, inl, inr, refl, String, Text, Bool, true,
  false, some, List, [], ◌∷◌, leb, nat_eq, if◌then◌else◌, length, drop, length-take, arith,
  Bool-cases, Option-cases,
}
use athena_ai.Prelude.Texts.{strip}
use athena_ai.Core.Errors.{ok}
use athena_ai.Rag.Parser.{ParsedDocument}
use athena_ai.Rag.Chunker.{
  Chunk, SlidingWindowChunker, new, slice, last_space, window_end, emit, chunks_from, chunk,
}

last_space-lt : (t : Text) {i : ℕ} → last_space t ≡ some i → i < length t
unfolding last_space
last_space-lt [] h = cc
last_space-lt (c ∷ cs) {i} h = elim (Option-cases (last_space cs)) [
  | inl e ↦ ground (arith)
  | inr (j, e) ↦ ground (arith, last_space-lt cs e)
]

length-slice : (t : Text) (a b : ℕ) → length (slice t a b) ≤ b - a
length-slice t a b = omega (arith, length-take (b - a) (drop a t))

-- the end of a window lies in the text and after its start, at most `chunk_chars` away
record IsEnd (chunk_chars : ℕ) (text : Text) (start end : ℕ) : Type 0 where
  after : start < end
  inside : end ≤ length text
  near : end ≤ start + chunk_chars

window_end-IsEnd :
    (chunk_chars : ℕ) (text : Text) (start : ℕ)
    → start < length text
    → 0 < chunk_chars
    → IsEnd chunk_chars text start (window_end chunk_chars text start)
unfolding window_end
window_end-IsEnd chunk_chars text start inside p =
    let end = min (start + chunk_chars) (length text) in
    elim (Option-cases (last_space (slice text start end))) [
      | inl e ↦ rw e (ground (arith))
      | inr (i, e) ↦
          let lower = last_space-lt (slice text start end) e in
          let upper = length-slice text start end in rw e (ground (arith, lower, upper))
    ]

-- a chunk is a stretch of the text, stripped, that is not blank and not longer than asked
pub record IsChunk (chunk_chars : ℕ) (text : Text) (c : Chunk) : Type 0 where
  pub proper : c.start_char < c.end_char
  pub inside : c.end_char ≤ length text
  pub near : c.end_char ≤ c.start_char + chunk_chars
  pub cut : c.content ≡ strip (slice text c.start_char c.end_char)
  pub filled : 0 < length c.content

-- the chunks are numbered from `index`, and each starts at least `step` after the one before
abbrev pub AreChunks : ℕ → ℕ → Text → ℕ → ℕ → List Chunk → Type 0
AreChunks chunk_chars step text start index [] = Unit
AreChunks chunk_chars step text start index (c ∷ cs) =
    IsChunk chunk_chars text c
    × (c.chunk_index ≡ index)
    × (start ≤ c.start_char)
    × AreChunks chunk_chars step text (c.start_char + step) (index + 1) cs

module _ (new_id : ℕ → String) (document : ParsedDocument) (chunk_chars step : ℕ) where
  abbrev text : Text
  text = document.content

  AreChunks-later :
      (a b index : ℕ) (cs : List Chunk)
      → a ≤ b
      → AreChunks chunk_chars step text b index cs
      → AreChunks chunk_chars step text a index cs
  AreChunks-later a b index [] h v = tt
  AreChunks-later a b index (c ∷ cs) h v = (v.0, v.1, omega (arith, v.2), v.3)

  emit-AreChunks :
      (index start end : ℕ) (content : Text) (rest : ℕ → List Chunk)
      → IsEnd chunk_chars text start end
      → content ≡ strip (slice text start end)
      → ((i : ℕ) → AreChunks chunk_chars step text (start + step) i (rest i))
      → AreChunks chunk_chars step text start index
          (emit new_id document chunk_chars step index start end content rest)
  unfolding emit
  emit-AreChunks index start end [] rest e cut later =
      AreChunks-later start (start + step) index (rest index) (omega arith) (later index)
  emit-AreChunks index start end (c ∷ cs) rest e cut later = (
    record { proper = e.after; inside = e.inside; near = e.near; cut = cut; filled = omega arith },
    refl,
    omega arith,
    later (index + 1),
  )

  cut_off-AreChunks :
      (stop : Bool) (start index : ℕ) (cs : List Chunk)
      → AreChunks chunk_chars step text start index cs
      → AreChunks chunk_chars step text start index (if stop then [] else cs)
  cut_off-AreChunks true start index cs v = tt
  cut_off-AreChunks false start index cs v = v

  chunks_from-AreChunks :
      (fuel start index : ℕ)
      → 0 < chunk_chars
      → AreChunks chunk_chars step text start index
          (chunks_from new_id document chunk_chars step fuel start index)
  unfolding chunks_from
  chunks_from-AreChunks zero start index p = tt
  chunks_from-AreChunks (suc fuel) start index p =
      let end = window_end chunk_chars text start in
      elim (Bool-cases (leb (length text) start)) [
        | inl e ↦ rw e tt
        | inr e ↦ rw e (
            emit-AreChunks index start end _ _
              (window_end-IsEnd chunk_chars text start (ground (arith)) p) refl
              (λ i.
                cut_off-AreChunks (leb (length text) end) (start + step) i _
                  (chunks_from-AreChunks fuel (start + step) i p)))
      ]

  emit-ap :
      (index start end : ℕ) (content : Text) (r r' : ℕ → List Chunk)
      → ((i : ℕ) → r i ≡ r' i)
      → emit new_id document chunk_chars step index start end content r
        ≡ emit new_id document chunk_chars step index start end content r'
  unfolding emit
  emit-ap index start end [] r r' h = h index
  emit-ap index start end (c ∷ cs) r r' h = rw (h (index + 1))

  -- For a positive step and with fuel for every character that is left, the loop ends by its own
  -- tests: any more fuel gives the same chunks.
  chunks_from-enough :
      (f g start index : ℕ)
      → 0 < step
      → length document.content ≤ start + f
      → length document.content ≤ start + g
      → chunks_from new_id document chunk_chars step f start index
        ≡ chunks_from new_id document chunk_chars step g start index
  unfolding chunks_from
  chunks_from-enough zero zero start index p h h' = refl
  chunks_from-enough zero (suc g) start index p h h' = ground (arith)
  chunks_from-enough (suc f) zero start index p h h' = ground (arith)
  chunks_from-enough (suc f) (suc g) start index p h h' =
      let end = window_end chunk_chars text start in
      elim (Bool-cases (leb (length text) start)) [
        | inl e ↦ rw e refl
        | inr e ↦ rw e (
            emit-ap index start end _ _ _ (λ i.
              ap (λ cs. if leb (length text) end then [] else cs)
                (chunks_from-enough f g (start + step) i p (omega arith) (omega arith))))
      ]

new-ok :
    (chunk_size overlap : ℕ) {c : SlidingWindowChunker}
    → new chunk_size overlap ≡ ok c
    → (overlap < chunk_size) × (c ≡ record { chunk_size = chunk_size; overlap = overlap })
unfolding new
new-ok chunk_size overlap e = ground (arith)

-- The chunks of a document, for a chunker that the constructor accepts: each is a stretch of the
-- content, stripped, not blank, inside the content and at most four times chunk_size long; they are
-- numbered from 0, and each starts at least the step after the one before.
pub chunk-AreChunks :
    (new_id : ℕ → String) (chunk_size overlap : ℕ) (document : ParsedDocument)
    {c : SlidingWindowChunker}
    → new chunk_size overlap ≡ ok c
    → AreChunks
        (chunk_size * 4)
        (chunk_size * 4 - overlap * 4)
        document.content
        0
        0
        (chunk new_id c document)
unfolding chunk
chunk-AreChunks new_id chunk_size overlap document {c} e =
    let (less, made) = new-ok chunk_size overlap e in
    rw made (
      chunks_from-AreChunks new_id document (chunk_size * 4) (chunk_size * 4 - overlap * 4)
        (length document.content) 0 0 (omega arith))
