-- ===== src/Tools/Calculator.antt =====
-- src/athenai/tools/calculator.py. `ast.parse` and the arithmetic of Python's int and float are
-- parameters.
pub mod Meaning
pub mod Kinds
use athena_ai.Prelude.{Text, Option, none, some, Bool, true, false, if◌then◌else◌}
use athena_ai.Prelude.Texts.{strip}
use athena_ai.Core.Errors.{Result, ok, err, ◌>>=◌, athena, tool_denied}

-- the classes of `ast.operator`; the code names seven of them
pub data Operator : Type 0 where
  add sub mult div pow floor_div modulo : Operator
  other_operator : Operator

pub data UnaryOperator : Type 0 where
  negative positive : UnaryOperator
  other_unary : UnaryOperator

-- the nodes of `ast.expr` that the code tells apart
pub data Expr (V : Type 0) : Type 0 where
  -- a constant that is an int or a float, bool included
  number : V → Expr V
  bin_op : Operator → Expr V → Expr V → Expr V
  unary_op : UnaryOperator → Expr V → Expr V
  other_node : Expr V

-- an operator may raise, on a huge result say
pub record Arithmetic (V : Type 0) : Type 0 where
  pub plus : V → V → Result V
  pub minus : V → V → Result V
  pub times : V → V → Result V
  pub over : V → V → Result V
  pub power : V → V → Result V
  pub whole_over : V → V → Result V
  pub remainder : V → V → Result V
  pub opposite : V → Result V
  pub is_zero : V → Bool

module _ {V : Type 0} (N : Arithmetic V) where
  denied : Result V
  denied = err (athena tool_denied)

  -- the inner `match op`
  unfoldable pub apply : Operator → V → V → Result V
  unfolding denied
  apply add a b = N.plus a b
  apply sub a b = N.minus a b
  apply mult a b = N.times a b
  apply div a b = if N.is_zero b then denied else N.over a b
  apply pow a b = N.power a b
  apply floor_div a b = if N.is_zero b then denied else N.whole_over a b
  apply modulo a b = if N.is_zero b then denied else N.remainder a b
  apply other_operator a b = denied

  apply_unary : UnaryOperator → V → Result V
  unfolding denied
  apply_unary negative a = N.opposite a
  apply_unary positive a = ok a
  apply_unary other_unary a = denied

  -- `_eval_node`: an operator that is not allowed is refused before its operands are evaluated
  unfoldable pub eval_node : Expr V → Result V
  unfolding apply apply_unary denied
  eval_node (number v) = ok v
  eval_node (bin_op other_operator l r) = denied
  eval_node (bin_op op l r) = eval_node l >>= λ lv. eval_node r >>= λ rv. apply op lv rv
  eval_node (unary_op other_unary e) = denied
  eval_node (unary_op op e) = eval_node e >>= apply_unary op
  eval_node other_node = denied

  -- `CalculatorTool.execute`, where `parse` gives `none` for SyntaxError and may raise another exception
  unfoldable pub execute : (Text → Result (Option (Expr V))) → Text → Result V
  unfolding eval_node strip denied
  execute parse expression = elim (parse (strip expression)) [
    | ok (some t) ↦ eval_node t
    | ok none ↦ denied
    | err e ↦ err e
  ]
