-- ===== src/Memory/Summary/Window.antt =====
-- Which messages src/athenai/memory/summary.py summarises and shows.
use text.Mathlib.TextEquality.{eq_iff}
use athena_ai.Prelude.{
  ℕ, zero, suc, ◌-◌, ◌<◌, ◌≡◌, refl, ap, ◌∙◌, String, Text, some, List, [], ◌∷◌, ◌++◌, map, ◌==◌,
  nat_eq, string_eq, ltb, true, false, length, take, length-take, arith,
}
use athena_ai.Prelude.Dict.{lookup, insert, lookup-insert}
use athena_ai.Prelude.Floats.{Floats, FloatLaws}
use athena_ai.Prelude.Last.{last, length-last, take-last}
use athena_ai.Core.Errors.{Result, ok, err}
use athena_ai.Memory.Conversation.{MemoryEntry, Row, entry_of, get_recent, count}
use athena_ai.Memory.Conversation.Log.{
  Event, conversation, log_of, AreTimed, AreDistinct, log_of-conversation,
}
use athena_ai.Memory.Summary.{
  SummaryMemory, without_last, join_lines, summary_prompt, summaries_shown, shown, stored, compress,
  after_compress, get_recent_summarised,
}

take-map : {A B : Type 0} (f : A → B) (n : ℕ) (xs : List A) → take n (map f xs) ≡ map f (take n xs)
take-map f zero xs = refl
take-map f (suc n) [] = refl
take-map f (suc n) (x ∷ xs) = ap (λ l. f x ∷ l) (take-map f n xs)

length-map_entry : {A B : Type 0} (f : A → B) (xs : List A) → length (map f xs) ≡ length xs
length-map_entry f [] = refl
length-map_entry f (x ∷ xs) = ap suc (length-map_entry f xs)

module _ (R : Floats) where
  open R use {Float}

  -- the messages before the last `keep_recent` of the last `max_raw_messages`
  abbrev pub older : SummaryMemory Float → List (Row Float) → List (Row Float)
  older m said = take (m.max_raw_messages - m.keep_recent) (last m.max_raw_messages said)

  abbrev pub prompt_of : List (Row Float) → Text
  prompt_of said = summary_prompt (join_lines (map (λ e. e.content) (map (entry_of R) said)))

  without_last-older :
      (m : SummaryMemory Float) (said : List (Row Float))
      → 0 < m.keep_recent
      → m.max_raw_messages < length said
      → without_last m.keep_recent (map (entry_of R) (last m.max_raw_messages said))
        ≡ map (entry_of R) (older m said)
  without_last-older m said some_kept long =
      let all = map (entry_of R) (last m.max_raw_messages said) in
      let sized : length all ≡ m.max_raw_messages =
        length-map_entry (entry_of R) (last m.max_raw_messages said)
        ∙ length-last m.max_raw_messages said (omega (arith, long)) in
      let positive : (m.keep_recent == 0) ≡ false = ground (arith, some_kept) in
      rw (positive, sized)
        (take-map (entry_of R) (m.max_raw_messages - m.keep_recent) (last m.max_raw_messages said))

module _ (R : Floats) {W : Type 0} (generate : Text → W → Result Text × W) where
  open R use {Float}

  -- what is returned after the answer of the model, and the memory that is left
  abbrev pub answered :
      String
      → SummaryMemory Float
      → List (Row Float)
      → Result Text × W
      → Result (List (MemoryEntry Float) × SummaryMemory Float) × W
  answered session_id m said (ok text, w) = (
    ok (
      summaries_shown R generate session_id (some text)
          ++ map (entry_of R) (last m.keep_recent said),
      record m { summaries = insert session_id text m.summaries },
    ),
    w,
  )
  answered session_id m said (err e, w) = (err e, w)

  compress-older :
      (session_id : String) (m : SummaryMemory Float) (w : W) (old : List (MemoryEntry Float))
      → without_last m.keep_recent (get_recent R session_id m.max_raw_messages m.log) ≡ old
      → 0 < length old
      → compress R generate session_id m w ≡ (
          let (r, w') = generate (summary_prompt (join_lines (map (λ e. e.content) old))) w in
          (stored R generate session_id m r, w'))
  unfolding compress
  compress-older session_id m w [] e h = absurd (omega (arith, h))
  compress-older session_id m w (x ∷ xs) e h = rw (e, compress) refl

  after-stored :
      (session_id : String) (m : SummaryMemory Float) (said : List (Row Float))
      (c : Result Text × W)
      → get_recent R session_id m.keep_recent m.log ≡ map (entry_of R) (last m.keep_recent said)
      → after_compress R generate session_id (stored R generate session_id m c.0, c.1)
        ≡ answered session_id m said c
  unfolding after_compress stored shown
  after-stored session_id m said (ok text, w) e =
      let known : lookup session_id (insert session_id text m.summaries) ≡ some text =
        lookup-insert session_id session_id text m.summaries
        ∙ ground (arith, eq_iff session_id session_id) in
      rw (known, e) refl
  after-stored session_id m said (err x, w) e = refl

  module _ (laws : FloatLaws R) where
    -- For any calls of add_message and clear, whose ids are distinct and whose times increase, that
    -- leave a session more than max_raw_messages messages, where 0 < keep_recent < max_raw_messages:
    -- get_recent asks the model for one summary, of the messages that stand before the last
    -- keep_recent among the last max_raw_messages, in order. If the model answers, that summary
    -- replaces the one of the session, and it is returned, unless it is empty, before the last
    -- keep_recent messages; if the model raises, so does get_recent. So the messages in the prompt
    -- and the messages returned are together the last max_raw_messages, and no older one is in either.
    pub get_recent_summarised-window :
        (now : Float) (es : List (Event Float)) (session_id : String) (m : SummaryMemory Float)
        (w : W)
        → m.log ≡ log_of R es []
        → AreTimed R now es
        → AreDistinct es
        → 0 < m.keep_recent
        → m.keep_recent < m.max_raw_messages
        → m.max_raw_messages < length (conversation session_id es [])
        → let said = conversation session_id es [] in
          (get_recent_summarised R generate session_id m w
            ≡ answered session_id m said (generate (prompt_of R (older R m said)) w))
          × (older R m said ++ last m.keep_recent said ≡ last m.max_raw_messages said)
    unfolding get_recent_summarised
    get_recent_summarised-window now es session_id m w logged timed distinct some_kept some_old
          long =
        let said = conversation session_id es [] in
        let recent = λ (n : ℕ). log_of-conversation R laws now es session_id n timed distinct in
        let shows = λ (n : ℕ). ap (get_recent R session_id n) logged ∙ (recent n).0 in
        let counted : count R session_id m.log ≡ length said =
          ap (count R session_id) logged ∙ (recent 0).1 in
        let over : ltb m.max_raw_messages (count R session_id m.log) ≡ true =
          ground (arith, counted, long) in
        let old = map (entry_of R) (older R m said) in
        let window : without_last m.keep_recent (get_recent R session_id m.max_raw_messages m.log)
            ≡ old =
          ap (without_last m.keep_recent) (shows m.max_raw_messages)
          ∙ without_last-older R m said some_kept long in
        let sized : length old ≡ m.max_raw_messages - m.keep_recent =
          length-map_entry (entry_of R) (older R m said)
          ∙ omega (
            arith,
            length-take (m.max_raw_messages - m.keep_recent) (last m.max_raw_messages said),
            length-last m.max_raw_messages said (omega (arith, long)),
          ) in
        (
          rw over (
              ap (after_compress R generate session_id)
                (compress-older session_id m w old window (omega (arith, sized, some_old)))
              ∙ after-stored session_id m said (generate (prompt_of R (older R m said)) w)
                  (shows m.keep_recent)),
          take-last m.keep_recent m.max_raw_messages said (omega (arith, some_old))
              (omega (arith, long)),
        )
