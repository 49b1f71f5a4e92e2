-- ===== src/Memory/Summary.antt =====
-- src/athenai/memory/summary.py over the message log. The model acts on a world `W`.
pub mod Window
use athena_ai.Prelude.{
  ℕ, ◌+◌, ◌-◌, ◌≤◌, ◌≡◌, refl, sym, String, Text, codes, Option, none, some, List, [], ◌∷◌, ◌++◌,
  map, ◌==◌, nat_eq, string_eq, ltb, if◌then◌else◌, Bool-cases, inl, inr, length, length-append,
  take, arith,
}
use athena_ai.Prelude.Dict.{Dict, lookup, insert}
use athena_ai.Prelude.Floats.{Floats, zero_float}
use athena_ai.Core.Errors.{Result, ok, err}
use athena_ai.Memory.Conversation.{MemoryEntry, summary, Row, get_recent, count, length-get_recent}

-- `SummaryMemory.__init__`, with the log and the summaries so far
pub record SummaryMemory (Float : Type 0) : Type 0 where
  pub log : List (Row Float)
  pub max_raw_messages : ℕ
  pub keep_recent : ℕ
  pub summaries : Dict Text

-- `xs[:-k]`, which is empty where k is 0
abbrev pub without_last : {A : Type 0} → ℕ → List A → List A
without_last k xs = if k == 0 then [] else take (length xs - k) xs

-- `"\n".join(...)`
unfoldable pub join_lines : List Text → Text
join_lines [] = []
join_lines (t ∷ []) = t
join_lines (t ∷ u ∷ ts) = t ++ 10 ∷ join_lines (u ∷ ts)

-- `_SUMMARY_PROMPT.format(messages=...)`
unfoldable pub summary_prompt : Text → Text
summary_prompt messages =
    codes "You are a conversation summariser. Given the following messages, "
    ++ codes "produce a concise summary (3-5 sentences) capturing the key decisions, "
    ++ codes "facts established, and current goal. Be specific, not generic.\n\n"
    ++ codes "Messages:\n"
    ++ messages
    ++ codes "\n\nSummary:"

module _ (R : Floats) {W : Type 0} (generate : Text → W → Result Text × W) where
  open R use {Float}

  stored : String → SummaryMemory Float → Result Text → Result (SummaryMemory Float)
  stored session_id m (ok text) = ok (record m { summaries = insert session_id text m.summaries })
  stored session_id m (err e) = err e

  -- `_compress`
  unfoldable pub compress : String → SummaryMemory Float → W → Result (SummaryMemory Float) × W
  unfolding stored join_lines summary_prompt
  compress session_id m w =
      let all_messages = get_recent R session_id m.max_raw_messages m.log in
      elim (without_last m.keep_recent all_messages) [
        | [] ↦ (ok m, w)
        | e ∷ es ↦
            let (r, w') =
              generate (summary_prompt (join_lines (map (λ x. x.content) (e ∷ es)))) w in
            (stored session_id m r, w')
      ]

  summary_entry : String → Text → MemoryEntry Float
  summary_entry session_id text = record {
    id = codes "summary-" ++ codes session_id;
    session_id = session_id;
    memory_type = summary;
    content = codes "[Summary] " ++ text;
    role = none;
    created_at = zero_float R;
  }

  -- `if summary_text:`
  pub summaries_shown : String → Option Text → List (MemoryEntry Float)
  unfolding summary_entry
  summaries_shown session_id none = []
  summaries_shown session_id (some []) = []
  summaries_shown session_id (some (c ∷ cs)) = summary_entry session_id (c ∷ cs) ∷ []

  unfoldable pub shown : String → SummaryMemory Float → List (MemoryEntry Float)
  unfolding summaries_shown
  shown session_id m =
      summaries_shown session_id (lookup session_id m.summaries)
      ++ get_recent R session_id m.keep_recent m.log

  after_compress :
      String
      → Result (SummaryMemory Float) × W
      → Result (List (MemoryEntry Float) × SummaryMemory Float) × W
  unfolding shown
  after_compress session_id (ok m, w) = (ok (shown session_id m, m), w)
  after_compress session_id (err e, w) = (err e, w)

  -- `SummaryMemory.get_recent`, with the memory that it leaves
  unfoldable pub get_recent_summarised :
      String → SummaryMemory Float → W → Result (List (MemoryEntry Float) × SummaryMemory Float) × W
  unfolding compress after_compress
  get_recent_summarised session_id m w = after_compress session_id (
      if ltb m.max_raw_messages (count R session_id m.log)
      then compress session_id m w
      else (ok m, w))

  summaries_shown-le :
      (session_id : String) (o : Option Text) → length (summaries_shown session_id o) ≤ 1
  unfolding summaries_shown
  summaries_shown-le session_id none = omega arith
  summaries_shown-le session_id (some []) = omega arith
  summaries_shown-le session_id (some (c ∷ cs)) = omega arith

  shown-le :
      (session_id : String) (m : SummaryMemory Float)
      → length (shown session_id m) ≤ m.keep_recent + 1
  unfolding shown
  shown-le session_id m =
      let summaries = summaries_shown session_id (lookup session_id m.summaries) in
      let recent = get_recent R session_id m.keep_recent m.log in
      omega (
        arith,
        length-append summaries recent,
        summaries_shown-le session_id (lookup session_id m.summaries),
        length-get_recent R session_id m.keep_recent m.log,
      )

  -- the log and the number of messages to show stay as they are
  Keeps : SummaryMemory Float → Result (SummaryMemory Float) → Type 0
  Keeps m (ok m') = (m'.log ≡ m.log) × (m'.keep_recent ≡ m.keep_recent)
  Keeps m (err e) = Unit

  stored-Keeps :
      (session_id : String) (m : SummaryMemory Float) (r : Result Text)
      → Keeps m (stored session_id m r)
  unfolding stored Keeps
  stored-Keeps session_id m (ok t) = (refl, refl)
  stored-Keeps session_id m (err e) = tt

  compress-Keeps :
      (session_id : String) (m : SummaryMemory Float) (w : W) → Keeps m (compress session_id m w).0
  unfolding compress Keeps
  compress-Keeps session_id m w =
      elim (without_last m.keep_recent (get_recent R session_id m.max_raw_messages m.log))
        as (λ l.
          Keeps m
            ((elim l as (λ _. Result (SummaryMemory Float) × W) [
              | [] ↦ (ok m, w)
              | e ∷ es ↦
                  let (r, w') =
                    generate (summary_prompt (join_lines (map (λ x. x.content) (e ∷ es)))) w in
                  (stored session_id m r, w')
            ])).0) [
              | [] ↦ (refl, refl)
              | e ∷ es ↦
                  stored-Keeps session_id m
                    (generate (summary_prompt (join_lines (map (λ x. x.content) (e ∷ es)))) w).0
            ]

  after_compress-le :
      (session_id : String) (m : SummaryMemory Float) (c : Result (SummaryMemory Float) × W)
      {got : List (MemoryEntry Float) × SummaryMemory Float}
      → Keeps m c.0
      → (after_compress session_id c).0 ≡ ok got
      → (length got.0 ≤ m.keep_recent + 1) × (got.1.log ≡ m.log)
  unfolding after_compress Keeps
  after_compress-le session_id m (ok m', w) {got = got} k h =
      let same : (shown session_id m', m') ≡ got = cc in
      rw (sym same) (omega (arith, shown-le session_id m', k.1), k.0)
  after_compress-le session_id m (err e, w) k h = cc

  -- However long the history of a session is, what is returned of it has at most one summary and
  -- keep_recent messages, and the message log is left as it was.
  get_recent_summarised-le :
      (session_id : String) (m : SummaryMemory Float) (w : W)
      {got : List (MemoryEntry Float) × SummaryMemory Float}
      → (get_recent_summarised session_id m w).0 ≡ ok got
      → (length got.0 ≤ m.keep_recent + 1) × (got.1.log ≡ m.log)
  unfolding get_recent_summarised Keeps
  get_recent_summarised-le session_id m w h =
      elim (Bool-cases (ltb m.max_raw_messages (count R session_id m.log))) [
        | inl e ↦
            after_compress-le session_id m (compress session_id m w) (compress-Keeps session_id m w)
              (rw e at h)
        | inr e ↦ after_compress-le session_id m (ok m, w) (refl, refl) (rw e at h)
      ]
