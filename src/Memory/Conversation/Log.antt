-- ===== src/Memory/Conversation/Log.antt =====
-- What the message log of src/athenai/memory/conversation.py returns, against the conversation itself.
use mathlib.Core.Bool.{false≢true}
use mathlib.Core.List.{reverse}
use athena_ai.Prelude.{
  ℕ, ◌≡◌, refl, sym, ap, ◌∙◌, String, true, false, not, List, [], ◌∷◌, ◌++◌, map, ◌==◌, string_eq,
  if◌then◌else◌, length, take, All, All-mp, All-kept, Bool-cases, inl, inr,
}
use athena_ai.Prelude.Floats.{Floats, FloatLaws}
use athena_ai.Prelude.Last.{last, take-reverse, length-reverse, reverse-snoc}
use athena_ai.Prelude.Sorting.{
  sorted_desc-id, select-IsDescending, sorted_desc, IsTop, IsDescending,
}
use athena_ai.Memory.Conversation.{
  Row, entry_of, has_id, add_message, of_session, get_recent, clear, clear_lem, count,
}

pub data Event (Float : Type 0) : Type 0 where
  said : Row Float → Event Float
  -- a call whose metadata are no JSON
  refused : Row Float → Event Float
  cleared : String → Event Float

-- the messages of a session since it was last cleared, after those of `before`
abbrev pub conversation :
    {Float : Type 0} → String → List (Event Float) → List (Row Float) → List (Row Float)
conversation session_id [] before = before
conversation session_id (said row ∷ es) before =
    conversation session_id es (if row.session_id == session_id then before ++ row ∷ [] else before)
conversation session_id (refused row ∷ es) before = conversation session_id es before
conversation session_id (cleared other ∷ es) before =
    conversation session_id es (if other == session_id then [] else before)

-- no message of the events has the id
abbrev Lacks : {Float : Type 0} → String → List (Event Float) → Type 0
Lacks id [] = Unit
Lacks id (said row ∷ es) = ((id == row.id) ≡ false) × Lacks id es
Lacks id (refused row ∷ es) = Lacks id es
Lacks id (cleared other ∷ es) = Lacks id es

-- the ids of the messages are distinct
abbrev pub AreDistinct : {Float : Type 0} → List (Event Float) → Type 0
AreDistinct [] = Unit
AreDistinct (said row ∷ es) = Lacks row.id es × AreDistinct es
AreDistinct (refused row ∷ es) = AreDistinct es
AreDistinct (cleared other ∷ es) = AreDistinct es

module _ (R : Floats) where
  open R use {Float, le}

  abbrev time : Row Float → Float
  time row = row.created_at

  -- each message is later than the one before it
  abbrev pub AreTimed : Float → List (Event Float) → Type 0
  AreTimed now [] = Unit
  AreTimed now (said row ∷ es) = (le row.created_at now ≡ false) × AreTimed row.created_at es
  AreTimed now (refused row ∷ es) = AreTimed now es
  AreTimed now (cleared other ∷ es) = AreTimed now es

  -- the calls of add_message and clear, one after the other
  unfoldable pub log_of : List (Event Float) → List (Row Float) → List (Row Float)
  log_of [] rows = rows
  log_of (said row ∷ es) rows = log_of es (add_message R true row rows).1
  log_of (refused row ∷ es) rows = log_of es (add_message R false row rows).1
  log_of (cleared other ∷ es) rows = log_of es (clear R other rows)

  -- what a log holds before the events that follow
  pub record IsLog (now : Float) (es : List (Event Float)) (session_id : String)
      (before rows : List (Row Float)) : Type 0 where
    newest_first : of_session R session_id rows ≡ reverse before
    descending : IsDescending le time rows
    past : All (λ row. le (time row) now ≡ true) rows
    new : All (λ row. Lacks row.id es) rows

  has_id-new :
      (row : Row Float) (es : List (Event Float)) (rows : List (Row Float))
      → All (λ r. Lacks r.id (said row ∷ es)) rows
      → has_id R row.id rows ≡ false
  unfolding has_id
  has_id-new row es [] h = refl
  has_id-new row es (r ∷ rows) h = rw (h.0.0) (has_id-new row es rows h.1)

  refused-IsLog :
      {now : Float} {es : List (Event Float)} {session_id : String} {before rows : List (Row Float)}
      (row : Row Float)
      → IsLog now (refused row ∷ es) session_id before rows
      → IsLog now es session_id before rows
  refused-IsLog row log = record {
    newest_first = log.newest_first;
    descending = log.descending;
    past = log.past;
    new = log.new;
  }

  cleared-IsLog :
      {now : Float} {es : List (Event Float)} {session_id : String} {before rows : List (Row Float)}
      (other : String)
      → IsLog now (cleared other ∷ es) session_id before rows
      → IsLog now es session_id (if other == session_id then [] else before) (clear R other rows)
  unfolding clear
  cleared-IsLog {now} {es} {session_id} {before} {rows} other log =
      let keep = λ (row : Row Float). not (row.session_id == other) in
      record {
        newest_first =
            (clear_lem R other session_id rows).1 ∙ (elim (Bool-cases (other == session_id)) [
              | inl e ↦ rw e refl
              | inr e ↦ rw e log.newest_first
            ]);
        descending = select-IsDescending le time keep rows log.descending;
        past = All-kept _ keep rows log.past;
        new = All-kept _ keep rows log.new;
      }

  module _ (laws : FloatLaws R) where
    past-IsTop :
        (now : Float) (row : Row Float) (rows : List (Row Float))
        → le row.created_at now ≡ false
        → All (λ r. le (time r) now ≡ true) rows
        → IsTop le time row rows
    past-IsTop now row rows later h =
        let up : le now row.created_at ≡ true = elim (laws.le_total now row.created_at) [
          | inl e ↦ e
          | inr e ↦ absurd (false≢true (sym later ∙ e))
        ] in
        All-mp rows (λ r p. laws.le_trans (time r) now row.created_at p up) h

    said-IsLog :
        {now : Float} {es : List (Event Float)} {session_id : String}
        {before rows : List (Row Float)} (row : Row Float)
        → IsLog now (said row ∷ es) session_id before rows
        → AreTimed now (said row ∷ es)
        → AreDistinct (said row ∷ es)
        → IsLog row.created_at es session_id
            (if row.session_id == session_id then before ++ row ∷ [] else before)
            (add_message R true row rows).1
    unfolding add_message of_session
    said-IsLog {now} {es} {session_id} {before} {rows} row log timed distinct =
        let top = past-IsTop now row rows timed.0 log.past in
        rw (has_id-new row es rows log.new) record {
          newest_first = elim (Bool-cases (row.session_id == session_id)) [
            | inl e ↦ rw e (ap (λ l. row ∷ l) log.newest_first ∙ sym (reverse-snoc before row))
            | inr e ↦ rw e log.newest_first
          ];
          descending = (top, log.descending);
          past = (elim (laws.le_total (time row) (time row)) [ inl e ↦ e | inr e ↦ e ], top);
          new = (distinct.0, All-mp rows (λ r h. h.1) log.new);
        }

    log_of-IsLog :
        (now : Float) (es : List (Event Float)) (session_id : String)
        (before rows : List (Row Float))
        → IsLog now es session_id before rows
        → AreTimed now es
        → AreDistinct es
        → (end : Float) × IsLog end [] session_id
            (conversation session_id es before)
            (log_of es rows)
    unfolding log_of add_message
    log_of-IsLog now [] session_id before rows log timed distinct = (now, log)
    log_of-IsLog now (said row ∷ es) session_id before rows log timed distinct =
        log_of-IsLog row.created_at es session_id _ (add_message R true row rows).1
          (said-IsLog row log timed distinct) timed.1 distinct.1
    log_of-IsLog now (refused row ∷ es) session_id before rows log timed distinct =
        log_of-IsLog now es session_id before rows (refused-IsLog row log) timed distinct
    log_of-IsLog now (cleared other ∷ es) session_id before rows log timed distinct =
        log_of-IsLog now es session_id _ (clear R other rows) (cleared-IsLog other log) timed
          distinct

    -- After any calls of add_message and clear, where the ids of the messages are distinct and
    -- their times increase, and where a call whose metadata are no JSON raises and stores nothing:
    -- the last n messages that get_recent returns are the last n of the session since it was last
    -- cleared, in the order in which they were added, or all where they are fewer; and count is the
    -- number of the messages since then. What other sessions added or cleared does not show.
    pub log_of-conversation :
        (now : Float) (es : List (Event Float)) (session_id : String) (n : ℕ)
        → AreTimed now es
        → AreDistinct es
        → (get_recent R session_id n (log_of es [])
            ≡ map (entry_of R) (last n (conversation session_id es [])))
          × (count R session_id (log_of es []) ≡ length (conversation session_id es []))
    unfolding get_recent count of_session
    log_of-conversation now es session_id n timed distinct =
        let empty : IsLog now es session_id [] [] = record {
          newest_first = refl;
          descending = tt;
          past = tt;
          new = tt;
        } in
        let (end, log) = log_of-IsLog now es session_id [] [] empty timed distinct in
        let said_by = conversation session_id es [] in
        let ours = of_session R session_id (log_of es []) in
        let sorted : sorted_desc le time ours ≡ reverse said_by =
          sorted_desc-id le time ours (select-IsDescending le time _ (log_of es []) log.descending)
          ∙ log.newest_first in
        (
          ap (λ l. map (entry_of R) (reverse (take n l))) sorted
              ∙ ap (map (entry_of R)) (take-reverse n said_by),
          ap length log.newest_first ∙ length-reverse said_by,
        )
