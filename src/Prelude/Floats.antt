-- ===== src/Prelude/Floats.antt =====
-- Python's `float`, as far as the program computes with it: a carrier with the operations that the
-- code applies, and beside it the laws that hold of finite doubles (no NaN, no overflow). Rounding
-- is monotone, so the sign and order laws below survive it; the exact laws of a ring do not and are
-- not listed. `fixed` is an instance on whole millionths.
use Prim.Native.Nat.{ℕ, ◌+◌, ◌-◌, ◌*◌, ◌/◌, ◌^◌, ◌≤◌}
use mathlib.Core.Path.{◌≡◌}
use mathlib.Core.Logic.{◌⊎◌}
use mathlib.Core.Bool.{Bool, true, not, ◌&&◌}
use native.Mathlib.Omega.{arith}
use athena_ai.Prelude.Tests.{leb, if◌then◌else◌}

pub record Floats : Type 1 where
  pub Float : Type 0
  -- the literal `n / 10 ** k`: `decimal 4 1` is 0.4
  pub decimal : ℕ → ℕ → Float
  -- `float(n)`
  pub of_ℕ : ℕ → Float
  pub neg : Float → Float
  pub add : Float → Float → Float
  pub sub : Float → Float → Float
  pub mul : Float → Float → Float
  pub div : Float → Float → Float
  -- `a <= b`
  pub le : Float → Float → Bool

module _ (R : Floats) where
  open R use {Float, of_ℕ, le}

  abbrev pub zero_float : Float
  zero_float = of_ℕ 0

  -- `a < b`
  abbrev pub lt : Float → Float → Bool
  lt a b = not (le b a)

  -- `min(a, b)` and `max(a, b)` keep the first of two equal arguments
  abbrev pub min_float : Float → Float → Float
  min_float a b = if le a b then a else b

  abbrev pub max_float : Float → Float → Float
  max_float a b = if le b a then a else b

  -- `a == 0`
  abbrev pub is_zero : Float → Bool
  is_zero a = le a zero_float && le zero_float a

module _ (R : Floats) where
  open R use {Float, of_ℕ, add, sub, mul, le}

  -- What the proofs use of finite doubles.
  pub record FloatLaws : Type 0 where
    pub le_total : (a b : Float) → (le a b ≡ true) ⊎ (le b a ≡ true)
    pub le_trans : (a b c : Float) → le a b ≡ true → le b c ≡ true → le a c ≡ true
    pub of_ℕ_nonneg : (n : ℕ) → le (of_ℕ 0) (of_ℕ n) ≡ true
    pub of_ℕ_mono : (m n : ℕ) → m ≤ n → le (of_ℕ m) (of_ℕ n) ≡ true
    -- the difference of ordered numbers is not negative, and does not exceed the first
    pub sub_nonneg : (a b : Float) → le b a ≡ true → le (of_ℕ 0) (sub a b) ≡ true
    pub sub_le : (a b : Float) → le (of_ℕ 0) b ≡ true → le (sub a b) a ≡ true
    pub add_nonneg :
        (a b : Float) → le (of_ℕ 0) a ≡ true → le (of_ℕ 0) b ≡ true → le (of_ℕ 0) (add a b) ≡ true
    pub mul_nonneg :
        (a b : Float) → le (of_ℕ 0) a ≡ true → le (of_ℕ 0) b ≡ true → le (of_ℕ 0) (mul a b) ≡ true

-- Millionths, for runs: `neg` is 0, as there is nothing below it.
abbrev pub fixed : Floats
fixed = record {
  Float = ℕ;
  decimal = λ n k. n * 1000000 / 10 ^ k;
  of_ℕ = λ n. n * 1000000;
  neg = λ a. 0;
  add = λ a b. a + b;
  sub = λ a b. a - b;
  mul = λ a b. a * b / 1000000;
  div = λ a b. a * 1000000 / b;
  le = leb;
}

fixed_total : (a b : ℕ) → (leb a b ≡ true) ⊎ (leb b a ≡ true)
fixed_total a b = ground arith

fixed_trans : (a b c : ℕ) → leb a b ≡ true → leb b c ≡ true → leb a c ≡ true
fixed_trans a b c p q = ground arith

fixed_of_ℕ_mono : (m n : ℕ) → m ≤ n → leb (m * 1000000) (n * 1000000) ≡ true
fixed_of_ℕ_mono m n h = ground arith

fixed_nonneg : (a : ℕ) → leb 0 a ≡ true
fixed_nonneg a = ground arith

fixed_sub_le : (a b : ℕ) → leb (a - b) a ≡ true
fixed_sub_le a b = ground arith

pub fixed_laws : FloatLaws fixed
fixed_laws = record {
  le_total = fixed_total;
  le_trans = fixed_trans;
  of_ℕ_nonneg = λ n. fixed_nonneg (n * 1000000);
  of_ℕ_mono = fixed_of_ℕ_mono;
  sub_nonneg = λ a b h. fixed_nonneg (a - b);
  sub_le = λ a b h. fixed_sub_le a b;
  add_nonneg = λ a b p q. fixed_nonneg (a + b);
  mul_nonneg = λ a b p q. fixed_nonneg (a * b / 1000000);
}

-- Whole numbers, on which the arithmetic is exact.
abbrev pub whole : Floats
whole = record {
  Float = ℕ;
  decimal = λ n k. n / 10 ^ k;
  of_ℕ = λ n. n;
  neg = λ a. 0;
  add = λ a b. a + b;
  sub = λ a b. a - b;
  mul = λ a b. a * b;
  div = λ a b. a / b;
  le = leb;
}
