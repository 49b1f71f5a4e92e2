-- ===== src/Tools/Tests/Kinds.antt =====
-- The sort of (6 / 3) ** 2, over a small stand-in for Python's numbers.
use athena_ai.Prelude.{
  ℕ, ◌+◌, ◌-◌, ◌*◌, ◌/◌, ◌%◌, ◌^◌, ◌≡◌, ◌≢◌, refl, Bool, false, some, ◌==◌, nat_eq,
}
use athena_ai.Core.Errors.{Result, ok}
use athena_ai.Tools.Calculator.{Arithmetic, Expr, number, bin_op, div, pow, eval_node}
use athena_ai.Tools.Calculator.Kinds.{
  Kind, integral, floating, complex, whole, real, HasSort, Keeps, IsKinded, sort_of,
  eval_node-HasSort,
}

data Value : Type 0 where
  int float : ℕ → Value
  imaginary : Value

abbrev kind_of : Value → Kind
kind_of (int n) = integral
kind_of (float n) = floating
kind_of imaginary = complex

abbrev on_both : (ℕ → ℕ → ℕ) → Value → Value → Result Value
on_both f (int m) (int n) = ok (int (f m n))
on_both f (int m) (float n) = ok (float (f m n))
on_both f (float m) (int n) = ok (float (f m n))
on_both f (float m) (float n) = ok (float (f m n))
on_both f imaginary b = ok imaginary
on_both f (int m) imaginary = ok imaginary
on_both f (float m) imaginary = ok imaginary

abbrev to_float : Value → Value
to_float (int n) = float n
to_float v = v

abbrev quotient_of : Value → Value → Result Value
quotient_of a b = on_both ◌/◌ (to_float a) (to_float b)

-- a power that is not whole may be of a negative number
abbrev power_of : Value → Value → Result Value
power_of (int m) (int n) = ok (int (m ^ n))
power_of (float m) (int n) = ok (float (m ^ n))
power_of a b = ok imaginary

abbrev is_zero : Value → Bool
is_zero (int n) = n == 0
is_zero (float n) = n == 0
is_zero imaginary = false

abbrev values : Arithmetic Value
values = record {
  plus = on_both ◌+◌;
  minus = on_both ◌-◌;
  times = on_both ◌*◌;
  over = quotient_of;
  power = power_of;
  whole_over = on_both ◌/◌;
  remainder = on_both ◌%◌;
  opposite = λ a. ok a;
  is_zero = is_zero;
}

on_both-Keeps : (f : ℕ → ℕ → ℕ) → Keeps kind_of (on_both f)
on_both-Keeps f whole (int m) (int n) c e p q = let same : int (f m n) ≡ c = cc in rw (← same) refl
on_both-Keeps f whole (int m) (float n) c e p q = cc
on_both-Keeps f whole (int m) imaginary c e p q = cc
on_both-Keeps f whole (float m) b c e p q = cc
on_both-Keeps f whole imaginary b c e p q = cc
on_both-Keeps f real a b (int k) e p q = λ z. cc
on_both-Keeps f real a b (float k) e p q = λ z. cc
on_both-Keeps f real (int m) (int n) imaginary e p q = cc
on_both-Keeps f real (int m) (float n) imaginary e p q = cc
on_both-Keeps f real (float m) (int n) imaginary e p q = cc
on_both-Keeps f real (float m) (float n) imaginary e p q = cc
on_both-Keeps f real imaginary b imaginary e p q = absurd (p refl)
on_both-Keeps f real (int m) imaginary imaginary e p q = absurd (q refl)
on_both-Keeps f real (float m) imaginary imaginary e p q = absurd (q refl)

to_float-real : (a : Value) → kind_of a ≢ complex → kind_of (to_float a) ≢ complex
to_float-real (int n) p = λ e. cc
to_float-real (float n) p = p
to_float-real imaginary p = p

power_of-real :
    (a b c : Value)
    → power_of a b ≡ ok c
    → kind_of a ≢ complex
    → kind_of b ≡ integral
    → kind_of c ≢ complex
power_of-real a b (int k) e p q = λ z. cc
power_of-real a b (float k) e p q = λ z. cc
power_of-real (int m) (int n) imaginary e p q = cc
power_of-real (float m) (int n) imaginary e p q = cc
power_of-real imaginary b imaginary e p q = absurd (p refl)
power_of-real a (float n) imaginary e p q = cc
power_of-real a imaginary imaginary e p q = cc

opposite-kind : {a c : Value} → ok a ≡ ok c → kind_of c ≡ kind_of a
opposite-kind {a} {c} e = let same : c ≡ a = cc in rw same refl

values-IsKinded : IsKinded values kind_of
values-IsKinded = record {
  sums = on_both-Keeps ◌+◌;
  differences = on_both-Keeps ◌-◌;
  products = on_both-Keeps ◌*◌;
  whole_quotients = on_both-Keeps ◌/◌;
  remainders = on_both-Keeps ◌%◌;
  quotients = λ {a} {b} {c} e p q.
      on_both-Keeps ◌/◌ real (to_float a) (to_float b) c e (to_float-real a p) (to_float-real b q);
  powers = λ {a} {b} {c} e p q. power_of-real a b c e p q;
  opposites = opposite-kind;
}

abbrev squared : Expr Value
squared = bin_op pow (bin_op div (number (int 6)) (number (int 3))) (number (int 2))

evaluated : eval_node values squared ≡ ok (float 4)
unfolding eval_node
evaluated = refl

typed : sort_of kind_of squared ≡ some real
unfolding sort_of
typed = refl

eval_node-HasSort_example : HasSort real floating
eval_node-HasSort_example =
    eval_node-HasSort values kind_of values-IsKinded squared real (float 4) typed evaluated
