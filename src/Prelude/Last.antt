-- ===== src/Prelude/Last.antt =====
-- The last elements of a list, which a query for the newest ones returns in reverse.
use mathlib.Core.Path.{◌≡◌, refl, sym, ap, ◌∙◌}
use mathlib.Core.Logic.{inl, inr}
use mathlib.Core.List.{List, [], ◌∷◌, ◌++◌, reverse, reverse-cons, reverse-append, reverse-reverse}
use Prim.Native.Nat.{ℕ, zero, suc, ◌+◌, ◌-◌, ◌≤◌}
use native.Mathlib.Omega.{arith}
use athena_ai.Prelude.Tests.{leb, Bool-cases}
use athena_ai.Prelude.Lists.{length, length-append, length-drop, take, drop, take-append-drop}

-- the last `n` elements
abbrev pub last : {A : Type 0} → ℕ → List A → List A
last n xs = drop (length xs - n) xs

take-left : {A : Type 0} (n : ℕ) (xs ys : List A) → length xs ≡ n → take n (xs ++ ys) ≡ xs
take-left zero [] ys e = refl
take-left (suc n) [] ys e = absurd (omega (arith, e))
take-left zero (x ∷ xs) ys e = absurd (omega (arith, e))
take-left (suc n) (x ∷ xs) ys e = ap (λ l. x ∷ l) (take-left n xs ys (omega (arith, e)))

take-all : {A : Type 0} (n : ℕ) (xs : List A) → length xs ≤ n → take n xs ≡ xs
take-all zero [] h = refl
take-all zero (x ∷ xs) h = absurd (omega (arith, h))
take-all (suc n) [] h = refl
take-all (suc n) (x ∷ xs) h = ap (λ l. x ∷ l) (take-all n xs (omega (arith, h)))

pub length-reverse : {A : Type 0} (xs : List A) → length (reverse xs) ≡ length xs
length-reverse [] = refl
length-reverse (x ∷ xs) =
    ap length (reverse-cons x xs)
    ∙ length-append (reverse xs) (x ∷ [])
    ∙ omega (arith, length-reverse xs)

-- the newest of a list that stands newest first, put in order again
pub take-reverse : {A : Type 0} (n : ℕ) (xs : List A) → reverse (take n (reverse xs)) ≡ last n xs
take-reverse n xs =
    let k = length xs - n in
    let old = take k xs in
    let new = drop k xs in
    let cut : reverse xs ≡ reverse new ++ reverse old =
      ap reverse (sym (take-append-drop k xs)) ∙ reverse-append old new in
    let sized = length-reverse new ∙ length-drop k xs in
    let newest : take n (reverse xs) ≡ reverse new = elim (Bool-cases (leb n (length xs))) [
      | inl enough ↦ rw cut (take-left n (reverse new) (reverse old) (ground (arith, sized)))
      | inr few ↦
          let short : length xs ≤ n = ground arith in
          let none_old : k ≡ 0 = omega (arith, short) in
          take-all n (reverse xs) (omega (arith, length-reverse xs, short))
          ∙ ap reverse (ap (λ j. drop j xs) (sym none_old))
    ] in
    ap reverse newest ∙ reverse-reverse new

pub reverse-snoc : {A : Type 0} (xs : List A) (x : A) → reverse (xs ++ x ∷ []) ≡ x ∷ reverse xs
reverse-snoc xs x = reverse-append xs (x ∷ [])

pub length-last : {A : Type 0} (n : ℕ) (xs : List A) → n ≤ length xs → length (last n xs) ≡ n
length-last n xs h = omega (arith, length-drop (length xs - n) xs)

drop-nil : {A : Type 0} (n : ℕ) → drop {A = A} n [] ≡ []
drop-nil zero = refl
drop-nil (suc n) = refl

drop-drop : {A : Type 0} (m n k : ℕ) (xs : List A) → k ≡ n + m → drop m (drop n xs) ≡ drop k xs
drop-drop m zero k xs e = ap (λ j. drop j xs) (omega (arith, e))
drop-drop m (suc n) k [] e = drop-nil m ∙ sym (drop-nil k)
drop-drop m (suc n) zero (x ∷ xs) e = absurd (omega (arith, e))
drop-drop m (suc n) (suc k) (x ∷ xs) e = drop-drop m n k xs (omega (arith, e))

-- the last `n` elements are the first of them, and then the last `k`
pub take-last :
    {A : Type 0} (k n : ℕ) (xs : List A)
    → k ≤ n
    → n ≤ length xs
    → take (n - k) (last n xs) ++ last k xs ≡ last n xs
take-last k n xs shorter enough =
    let rest : drop (n - k) (last n xs) ≡ last k xs =
      drop-drop (n - k) (length xs - n) (length xs - k) xs (omega (arith, shorter, enough)) in
    ap (λ l. take (n - k) (last n xs) ++ l) (sym rest) ∙ take-append-drop (n - k) (last n xs)
