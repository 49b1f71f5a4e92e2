-- ===== src/Memory/Conversation.antt =====
-- src/athenai/memory/conversation.py, with the entry type of base.py. The table of the SQL statements
-- is a list of rows in the order of insertion; rows with the same time are returned in the reverse of
-- that order, where the statement leaves it open.
pub mod Log
use mathlib.Core.List.{reverse, reverse_aux}
use text.Mathlib.TextEquality.{eq_iff}
use athena_ai.Prelude.{
  ℕ, ◌+◌, ◌≡◌, refl, String, Text, codes, Bool, true, false, not, Option, some, List, [], ◌∷◌, ◌++◌,
  map, ◌==◌, string_eq, if◌then◌else◌, length, length-map, length-take, ◌≤◌, take, select, arith,
  Bool-cases, inl, inr,
}
use athena_ai.Core.Errors.{Result, ok, err, database_error}
use athena_ai.Prelude.Floats.{Floats}
use athena_ai.Prelude.Sorting.{sorted_desc}

pub data MemoryType : Type 0 where
  working conversation summary semantic : MemoryType

-- the metadata is the role, where there is one
pub record MemoryEntry (Float : Type 0) : Type 0 where
  pub id : Text
  pub session_id : String
  pub memory_type : MemoryType
  pub content : Text
  pub role : Option String
  pub created_at : Float

-- a row of `conversation_messages`, less its metadata, which no query reads back
pub record Row (Float : Type 0) : Type 0 where
  pub id : String
  pub session_id : String
  pub role : String
  pub content : Text
  pub created_at : Float

length-reverse_aux :
    {A : Type 0} (xs ys : List A) → length (reverse_aux xs ys) ≡ length xs + length ys
length-reverse_aux [] ys = omega arith
length-reverse_aux (x ∷ xs) ys = omega (arith, length-reverse_aux xs (x ∷ ys))

module _ (R : Floats) where
  open R use {Float, le}

  -- f"{role}: {content}"
  abbrev pub entry_of : Row Float → MemoryEntry Float
  entry_of row = record {
    id = codes row.id;
    session_id = row.session_id;
    memory_type = conversation;
    content = codes row.role ++ codes ": " ++ row.content;
    role = some row.role;
    created_at = row.created_at;
  }

  unfoldable pub has_id : String → List (Row Float) → Bool
  has_id id [] = false
  has_id id (row ∷ rows) = if row.id == id then true else has_id id rows

  -- `ConversationMemory.add_message`, whose id and time are chosen: ON CONFLICT (id) DO NOTHING. The
  -- first argument tells whether `str(meta).replace("'", '"')` is JSON, which the cast to jsonb wants.
  unfoldable pub add_message :
      Bool → Row Float → List (Row Float) → Result (MemoryEntry Float) × List (Row Float)
  unfolding has_id
  add_message false row rows = (err database_error, rows)
  add_message true row rows = (ok (entry_of row), (if has_id row.id rows then rows else row ∷ rows))

  -- WHERE session_id = $1
  unfoldable pub of_session : String → List (Row Float) → List (Row Float)
  of_session session_id rows = select (λ row. row.session_id == session_id) rows

  -- `ConversationMemory.get_recent`
  unfoldable pub get_recent : String → ℕ → List (Row Float) → List (MemoryEntry Float)
  unfolding of_session
  get_recent session_id n rows =
      map entry_of
        (reverse (take n (sorted_desc le (λ row. row.created_at) (of_session session_id rows))))

  -- `ConversationMemory.clear`
  unfoldable pub clear : String → List (Row Float) → List (Row Float)
  clear session_id rows = select (λ row. not (row.session_id == session_id)) rows

  -- `ConversationMemory.count`
  unfoldable pub count : String → List (Row Float) → ℕ
  unfolding of_session
  count session_id rows = length (of_session session_id rows)

  has_id-add :
      (row : Row Float) (rows : List (Row Float))
      → has_id row.id (add_message true row rows).1 ≡ true
  unfolding add_message has_id
  has_id-add row rows = elim (Bool-cases (has_id row.id rows)) [
    | inl e ↦ rw (e, e) refl
    | inr e ↦ rw e (ground (arith, eq_iff row.id row.id))
  ]

  -- A message that is sent again under the id of one sent before is not stored, whatever it says.
  add_message-again :
      (row again : Row Float) (rows : List (Row Float))
      → again.id ≡ row.id
      → (add_message true again (add_message true row rows).1).1 ≡ (add_message true row rows).1
  unfolding add_message
  add_message-again row again rows e =
      let known : has_id again.id (add_message true row rows).1 ≡ true =
        rw e (has_id-add row rows) in
      rw known refl

  -- Clearing a session leaves it no message, and every other session the messages that it had.
  pub clear_lem :
      (session_id other : String) (rows : List (Row Float))
      → (count session_id (clear session_id rows) ≡ 0)
        × (of_session other (clear session_id rows)
            ≡ (if session_id == other then [] else of_session other rows))
  unfolding count clear of_session
  clear_lem session_id other [] = ground (arith)
  clear_lem session_id other (row ∷ rows) = ground (
    arith,
    clear_lem session_id other rows,
    eq_iff row.session_id session_id,
    eq_iff row.session_id other,
    eq_iff session_id other,
  )

  pub length-get_recent :
      (session_id : String) (n : ℕ) (rows : List (Row Float))
      → length (get_recent session_id n rows) ≤ n
  unfolding get_recent
  length-get_recent session_id n rows =
      let newest =
        sorted_desc le (λ (row : Row Float). row.created_at) (of_session session_id rows) in
      omega (
        arith,
        length-map (reverse (take n newest)) entry_of,
        length-reverse_aux (take n newest) [],
        length-take n newest,
      )
