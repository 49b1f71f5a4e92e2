-- ===== src/Core/Json.antt =====
-- The values that `json.loads` returns and that tool arguments hold. A float is kept as the text
-- of its literal: no modelled code computes with it.
use athena_ai.Prelude.{
  ℕ, String, Bool, true, false, Option, none, some, ◌==◌, string_eq, if◌then◌else◌,
}

-- `negsuc n` is -(n + 1).
pub data ℤ : Type 0 where
  pos : ℕ → ℤ
  negsuc : ℕ → ℤ

mutual
  pub data Json : Type 0 where
    null : Json
    boolean : Bool → Json
    integer : ℤ → Json
    float : String → Json
    string : String → Json
    array : Items → Json
    object : Fields → Json

  pub data Items : Type 0 where
    end : Items
    item : Json → Items → Items

  -- a dict in insertion order
  pub data Fields : Type 0 where
    close : Fields
    field : String → Json → Fields → Fields

-- `d.get(k)`
abbrev pub find : String → Fields → Option Json
find k close = none
find k (field j v fs) = if j == k then some v else find k fs

-- `k in d`
abbrev pub has : String → Fields → Bool
has k fs = elim (find k fs) [ none ↦ false | some _ ↦ true ]
