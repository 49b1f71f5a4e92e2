-- ===== src/Tools/Calculator/Kinds.antt =====
-- What kind of number the calculator returns.
use athena_ai.Prelude.{◌≡◌, ◌≢◌, refl, Option, none, some}
use athena_ai.Core.Errors.{Result, ok}
use athena_ai.Tools.Calculator.{
  Operator, add, sub, mult, div, pow, floor_div, modulo, negative, positive, other_unary, Expr,
  number, bin_op, unary_op, other_node, Arithmetic, eval_node,
}
use athena_ai.Tools.Calculator.Meaning.{
  Yields, sum, difference, product, exponential, quotient, whole_quotient, rest, Evaluates, literal,
  binary, minus_of, plus_of, eval_node-iff_Evaluates,
}

-- Python's numbers
pub data Kind : Type 0 where
  integral floating complex : Kind

-- what is known of an expression before it is evaluated: its value is an int; or an int or a float
pub data Sort : Type 0 where
  whole real : Sort

abbrev pub HasSort : Sort → Kind → Type 0
HasSort whole k = k ≡ integral
HasSort real k = k ≢ complex

abbrev sort_of_kind : Kind → Option Sort
sort_of_kind integral = some whole
sort_of_kind floating = some real
sort_of_kind complex = none

-- of an operation that yields an int on ints
abbrev join : Option Sort → Option Sort → Option Sort
join none t = none
join (some s) none = none
join (some whole) (some t) = some t
join (some real) (some t) = some real

abbrev binary_sort : Operator → Option Sort → Option Sort → Option Sort
binary_sort add s t = join s t
binary_sort sub s t = join s t
binary_sort mult s t = join s t
binary_sort floor_div s t = join s t
binary_sort modulo s t = join s t
binary_sort div (some s) (some t) = some real
-- a whole exponent keeps off the complex numbers
binary_sort pow (some s) (some whole) = some real
binary_sort _ _ _ = none

abbrev pub Keeps : {V : Type 0} → (V → Kind) → (V → V → Result V) → Type 0
Keeps {V} kind_of op =
    (s : Sort) (a b c : V)
    → op a b ≡ ok c
    → HasSort s (kind_of a)
    → HasSort s (kind_of b)
    → HasSort s (kind_of c)

-- Python's rules for int, float and complex
pub record IsKinded {V : Type 0} (N : Arithmetic V) (kind_of : V → Kind) : Type 0 where
  pub sums : Keeps kind_of N.plus
  pub differences : Keeps kind_of N.minus
  pub products : Keeps kind_of N.times
  pub whole_quotients : Keeps kind_of N.whole_over
  pub remainders : Keeps kind_of N.remainder
  pub quotients :
      {a b c : V}
      → N.over a b ≡ ok c
      → kind_of a ≢ complex
      → kind_of b ≢ complex
      → kind_of c ≢ complex
  pub powers :
      {a b c : V}
      → N.power a b ≡ ok c
      → kind_of a ≢ complex
      → kind_of b ≡ integral
      → kind_of c ≢ complex
  pub opposites : {a c : V} → N.opposite a ≡ ok c → kind_of c ≡ kind_of a

abbrev to_real : (s : Sort) {k : Kind} → HasSort s k → HasSort real k
to_real whole h = λ e. cc
to_real real h = h

-- what a sort promises of a number's kind
abbrev Promises : Option Sort → Kind → Type 0
Promises none k = Unit
Promises (some s) k = HasSort s k

sort_of_kind-Promises : (k : Kind) → Promises (sort_of_kind k) k
sort_of_kind-Promises integral = refl
sort_of_kind-Promises floating = λ e. cc
sort_of_kind-Promises complex = tt

module _ {V : Type 0} (kind_of : V → Kind) where
  -- the sort of an expression, by the kinds of its constants
  unfoldable pub sort_of : Expr V → Option Sort
  sort_of (number v) = sort_of_kind (kind_of v)
  sort_of (bin_op op l r) = binary_sort op (sort_of l) (sort_of r)
  sort_of (unary_op negative e) = sort_of e
  sort_of (unary_op positive e) = sort_of e
  sort_of (unary_op other_unary e) = none
  sort_of other_node = none

module _ {V : Type 0} (N : Arithmetic V) (kind_of : V → Kind) (rules : IsKinded N kind_of) where
  Keeps-join :
      (op : V → V → Result V) (s t : Option Sort) {a b c : V}
      → Keeps kind_of op
      → op a b ≡ ok c
      → Promises s (kind_of a)
      → Promises t (kind_of b)
      → Promises (join s t) (kind_of c)
  Keeps-join op none t k e p q = tt
  Keeps-join op (some s) none k e p q = tt
  Keeps-join op (some whole) (some whole) k e p q = k whole _ _ _ e p q
  Keeps-join op (some whole) (some real) k e p q = k real _ _ _ e (to_real whole p) q
  Keeps-join op (some real) (some t) k e p q = k real _ _ _ e p (to_real t q)

  Yields-Promises :
      (s t : Option Sort) {op : Operator} {a b c : V}
      → Yields N op a b c
      → Promises s (kind_of a)
      → Promises t (kind_of b)
      → Promises (binary_sort op s t) (kind_of c)
  Yields-Promises s t (sum e) p q = Keeps-join N.plus s t rules.sums e p q
  Yields-Promises s t (difference e) p q = Keeps-join N.minus s t rules.differences e p q
  Yields-Promises s t (product e) p q = Keeps-join N.times s t rules.products e p q
  Yields-Promises s t (whole_quotient z e) p q =
      Keeps-join N.whole_over s t rules.whole_quotients e p q
  Yields-Promises s t (rest z e) p q = Keeps-join N.remainder s t rules.remainders e p q
  Yields-Promises none t (quotient z e) p q = tt
  Yields-Promises (some s) none (quotient z e) p q = tt
  Yields-Promises (some s) (some t) (quotient z e) p q =
      rules.quotients e (to_real s p) (to_real t q)
  Yields-Promises none t (exponential e) p q = tt
  Yields-Promises (some s) none (exponential e) p q = tt
  Yields-Promises (some s) (some whole) (exponential e) p q = rules.powers e (to_real s p) q
  Yields-Promises (some s) (some real) (exponential e) p q = tt

  Evaluates-Promises :
      {e : Expr V} {v : V} → Evaluates N e v → Promises (sort_of kind_of e) (kind_of v)
  unfolding sort_of
  Evaluates-Promises (literal {v}) = sort_of_kind-Promises (kind_of v)
  Evaluates-Promises (binary {l = l} {r = r} x y z) =
      Yields-Promises (sort_of kind_of l) (sort_of kind_of r) z (Evaluates-Promises x)
        (Evaluates-Promises y)
  Evaluates-Promises (minus_of x h) = rw (rules.opposites h) (Evaluates-Promises x)
  Evaluates-Promises (plus_of x) = Evaluates-Promises x

  -- Under Python's rules for the kinds of numbers: an expression of ints under + - * // % and the
  -- signs has an int for its value, if it has one; and one of ints and floats, also with / and with
  -- ** to an exponent of the first sort, has an int or a float, never a complex number.
  pub eval_node-HasSort :
      (e : Expr V) (s : Sort) (v : V)
      → sort_of kind_of e ≡ some s
      → eval_node N e ≡ ok v
      → HasSort s (kind_of v)
  eval_node-HasSort e s v typed h =
      let known = Evaluates-Promises ((eval_node-iff_Evaluates N e v).0 h) in rw typed at known
