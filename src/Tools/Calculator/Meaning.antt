-- ===== src/Tools/Calculator/Meaning.antt =====
-- The value of an expression, by a relation, and the evaluator that computes it.
use athena_ai.Prelude.{◌≡◌, ◌↔◌, refl, sym, ap, ◌∙◌, false, arith, Bool-cases, inl, inr}
use athena_ai.Core.Errors.{ok, ◌>>=◌, >>=-eq-ok}
use athena_ai.Tools.Calculator.{
  Operator, add, sub, mult, div, pow, floor_div, modulo, other_operator, negative, positive,
  other_unary, Expr, number, bin_op, unary_op, other_node, Arithmetic, apply, eval_node,
}

module _ {V : Type 0} (N : Arithmetic V) where
  -- what a binary operator yields; the last three have no value at zero
  pub data Yields : Operator → V → V → V → Type 0 where
    sum : {a b c : V} → N.plus a b ≡ ok c → Yields add a b c
    difference : {a b c : V} → N.minus a b ≡ ok c → Yields sub a b c
    product : {a b c : V} → N.times a b ≡ ok c → Yields mult a b c
    exponential : {a b c : V} → N.power a b ≡ ok c → Yields pow a b c
    quotient : {a b c : V} → N.is_zero b ≡ false → N.over a b ≡ ok c → Yields div a b c
    whole_quotient :
        {a b c : V} → N.is_zero b ≡ false → N.whole_over a b ≡ ok c → Yields floor_div a b c
    rest : {a b c : V} → N.is_zero b ≡ false → N.remainder a b ≡ ok c → Yields modulo a b c

  -- the value of an expression
  pub data Evaluates : Expr V → V → Type 0 where
    literal : {v : V} → Evaluates (number v) v
    binary :
        {op : Operator} {l r : Expr V} {a b c : V}
        → Evaluates l a
        → Evaluates r b
        → Yields op a b c
        → Evaluates (bin_op op l r) c
    minus_of :
        {e : Expr V} {a b : V}
        → Evaluates e a
        → N.opposite a ≡ ok b
        → Evaluates (unary_op negative e) b
    plus_of : {e : Expr V} {a : V} → Evaluates e a → Evaluates (unary_op positive e) a

  apply-Yields : (op : Operator) (a b : V) {c : V} → apply N op a b ≡ ok c → Yields op a b c
  unfolding apply
  apply-Yields add a b h = sum h
  apply-Yields sub a b h = difference h
  apply-Yields mult a b h = product h
  apply-Yields pow a b h = exponential h
  apply-Yields div a b h = elim (Bool-cases (N.is_zero b)) [
    | inl z ↦ absurd (ground (arith))
    | inr z ↦ quotient z (rw z at h)
  ]
  apply-Yields floor_div a b h = elim (Bool-cases (N.is_zero b)) [
    | inl z ↦ absurd (ground (arith))
    | inr z ↦ whole_quotient z (rw z at h)
  ]
  apply-Yields modulo a b h = elim (Bool-cases (N.is_zero b)) [
    | inl z ↦ absurd (ground (arith))
    | inr z ↦ rest z (rw z at h)
  ]
  apply-Yields other_operator a b h = cc

  Yields-apply : {op : Operator} {a b c : V} → Yields op a b c → apply N op a b ≡ ok c
  unfolding apply
  Yields-apply y = elim y as (λ op a b c _. apply N op a b ≡ ok c) [
    | sum h ↦ h
    | difference h ↦ h
    | product h ↦ h
    | exponential h ↦ h
    | quotient z h ↦ rw z h
    | whole_quotient z h ↦ rw z h
    | rest z h ↦ rw z h
  ]

  binary_node :
      (op : Operator) (l r : Expr V) (v : V)
      → ((a : V) → eval_node N l ≡ ok a → Evaluates l a)
      → ((b : V) → eval_node N r ≡ ok b → Evaluates r b)
      → (eval_node N l >>= λ lv. eval_node N r >>= λ rv. apply N op lv rv) ≡ ok v
      → Evaluates (bin_op op l r) v
  binary_node op l r v left right h =
      let (a, e, h') = >>=-eq-ok (eval_node N l) _ h in
      let (b, e', h'') = >>=-eq-ok (eval_node N r) _ h' in
      binary (left a e) (right b e') (apply-Yields op a b h'')

  eval-Evaluates : (t : Expr V) (v : V) → eval_node N t ≡ ok v → Evaluates t v
  unfolding eval_node
  eval-Evaluates (number w) v h = let same : w ≡ v = cc in rw (sym same) literal
  eval-Evaluates (bin_op add l r) v h =
      binary_node add l r v (eval-Evaluates l) (eval-Evaluates r) h
  eval-Evaluates (bin_op sub l r) v h =
      binary_node sub l r v (eval-Evaluates l) (eval-Evaluates r) h
  eval-Evaluates (bin_op mult l r) v h =
      binary_node mult l r v (eval-Evaluates l) (eval-Evaluates r) h
  eval-Evaluates (bin_op div l r) v h =
      binary_node div l r v (eval-Evaluates l) (eval-Evaluates r) h
  eval-Evaluates (bin_op pow l r) v h =
      binary_node pow l r v (eval-Evaluates l) (eval-Evaluates r) h
  eval-Evaluates (bin_op floor_div l r) v h =
      binary_node floor_div l r v (eval-Evaluates l) (eval-Evaluates r) h
  eval-Evaluates (bin_op modulo l r) v h =
      binary_node modulo l r v (eval-Evaluates l) (eval-Evaluates r) h
  eval-Evaluates (bin_op other_operator l r) v h = cc
  eval-Evaluates (unary_op negative e) v h =
      let (a, q, h') = >>=-eq-ok (eval_node N e) _ h in minus_of (eval-Evaluates e a q) h'
  eval-Evaluates (unary_op positive e) v h =
      let (a, q, h') = >>=-eq-ok (eval_node N e) _ h in
      let same : a ≡ v = cc in plus_of (eval-Evaluates e v (q ∙ ap ok same))
  eval-Evaluates (unary_op other_unary e) v h = cc
  eval-Evaluates other_node v h = cc

  evaluated :
      {op : Operator} {a b c : V} (l r : Expr V)
      → eval_node N l ≡ ok a
      → eval_node N r ≡ ok b
      → Yields op a b c
      → eval_node N (bin_op op l r) ≡ ok c
  unfolding eval_node
  evaluated l r e e' y =
      elim y
          as (λ op a b c _.
            eval_node N l ≡ ok a → eval_node N r ≡ ok b → eval_node N (bin_op op l r) ≡ ok c) [
              | sum h ↦ λ e e'. rw (e, e') h
              | difference h ↦ λ e e'. rw (e, e') h
              | product h ↦ λ e e'. rw (e, e') h
              | exponential h ↦ λ e e'. rw (e, e') h
              | quotient z h ↦ λ e e'. rw (e, e', z) h
              | whole_quotient z h ↦ λ e e'. rw (e, e', z) h
              | rest z h ↦ λ e e'. rw (e, e', z) h
            ]
        e e'

  Evaluates-eval : {t : Expr V} {v : V} → Evaluates t v → eval_node N t ≡ ok v
  unfolding eval_node
  Evaluates-eval literal = refl
  Evaluates-eval (binary {l = l} {r = r} x y z) =
      evaluated l r (Evaluates-eval x) (Evaluates-eval y) z
  Evaluates-eval (minus_of x h) = rw (Evaluates-eval x) h
  Evaluates-eval (plus_of x) = rw (Evaluates-eval x) refl

  -- The evaluator returns exactly the values that the relation Evaluates gives an expression:
  -- numbers under the seven binary operators and the two signs, no divisor being zero; the plus
  -- sign is among them, which the docstring does not list. Every other expression makes it raise.
  pub eval_node-iff_Evaluates : (t : Expr V) (v : V) → (eval_node N t ≡ ok v) ↔ Evaluates t v
  eval_node-iff_Evaluates t v = (eval-Evaluates t v, Evaluates-eval)
