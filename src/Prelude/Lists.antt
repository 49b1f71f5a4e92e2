-- ===== src/Prelude/Lists.antt =====
-- Lists measured by native numbers, under the library's names, and predicates on their elements.
use Prim.Native.Nat.{ℕ, zero, suc, ◌+◌, ◌-◌, min}
use mathlib.Core.Path.{◌≡◌, refl, sym, ap, ◌∙◌}
use mathlib.Core.Logic.{inl, inr}
use mathlib.Core.Bool.{Bool, true, false, false≢true}
use mathlib.Core.List.{List, [], ◌∷◌, ◌++◌, map, Memᴰ}
use native.Mathlib.Omega.{arith}
use athena_ai.Prelude.Tests.{if◌then◌else◌, Bool-cases}

module _ {ℓ} {A : Type ℓ} where
  abbrev pub length : List A → ℕ
  length [] = 0
  length (x ∷ xs) = suc (length xs)

  abbrev pub take : ℕ → List A → List A
  take zero xs = []
  take (suc n) [] = []
  take (suc n) (x ∷ xs) = x ∷ take n xs

  abbrev pub drop : ℕ → List A → List A
  drop zero xs = xs
  drop (suc n) [] = []
  drop (suc n) (x ∷ xs) = drop n xs

  abbrev pub replicate : ℕ → A → List A
  replicate zero a = []
  replicate (suc n) a = a ∷ replicate n a

  pub length-append : (xs ys : List A) → length (xs ++ ys) ≡ length xs + length ys
  length-append [] ys = omega arith
  length-append (x ∷ xs) ys = omega (arith, length-append xs ys)

  pub take-append-drop : (n : ℕ) (xs : List A) → take n xs ++ drop n xs ≡ xs
  take-append-drop zero xs = refl
  take-append-drop (suc n) [] = refl
  take-append-drop (suc n) (x ∷ xs) = rw (take-append-drop n xs)

  pub length-take : (n : ℕ) (xs : List A) → length (take n xs) ≡ min n (length xs)
  length-take zero xs = omega arith
  length-take (suc n) [] = omega arith
  length-take (suc n) (x ∷ xs) = omega (arith, length-take n xs)

  pub length-drop : (n : ℕ) (xs : List A) → length (drop n xs) ≡ length xs - n
  length-drop zero xs = omega arith
  length-drop (suc n) [] = omega arith
  length-drop (suc n) (x ∷ xs) = omega (arith, length-drop n xs)

  -- `[x for x in xs if keep(x)]`
  abbrev pub select : (A → Bool) → List A → List A
  select keep [] = []
  select keep (x ∷ xs) = if keep x then x ∷ select keep xs else select keep xs

  pub select-append :
      (keep : A → Bool) (xs ys : List A) → select keep (xs ++ ys) ≡ select keep xs ++ select keep ys
  select-append keep [] ys = refl
  select-append keep (x ∷ xs) ys = ground (arith, select-append keep xs ys)

  -- every element satisfies `P`
  abbrev pub All {κ} : (A → Type κ) → List A → Type κ
  All P [] = Unit
  All P (x ∷ xs) = P x × All P xs

  pub All-append {κ} : (Q : A → Type κ) (us vs : List A) → All Q us → All Q vs → All Q (us ++ vs)
  All-append Q [] vs first second = second
  All-append Q (u ∷ us) vs first second = (first.0, All-append Q us vs first.1 second)

  pub All-mp {κ μ} :
      {P : A → Type κ} {Q : A → Type μ} (xs : List A) → ((x : A) → P x → Q x) → All P xs → All Q xs
  All-mp [] f h = tt
  All-mp (x ∷ xs) f h = (f x h.0, All-mp xs f h.1)

  pub All-mem : (xs : List A) → All (λ x. Memᴰ x xs) xs
  All-mem [] = tt
  All-mem (x ∷ xs) = (Memᴰ.head refl, All-mp xs (λ y m. Memᴰ.tail m) (All-mem xs))

  pub mem_append_left : {a : A} {xs : List A} (ys : List A) → Memᴰ a xs → Memᴰ a (xs ++ ys)
  mem_append_left ys (Memᴰ.head e) = Memᴰ.head e
  mem_append_left ys (Memᴰ.tail m) = Memᴰ.tail (mem_append_left ys m)

  pub mem_append_right : {a : A} {ys : List A} (xs : List A) → Memᴰ a ys → Memᴰ a (xs ++ ys)
  mem_append_right [] m = m
  mem_append_right (x ∷ xs) m = Memᴰ.tail (mem_append_right xs m)

  pub All-select {κ} :
      (P : A → Type κ) (keep : A → Bool) (xs : List A)
      → All P xs
      → All (λ x. P x × (keep x ≡ true)) (select keep xs)
  All-select P keep [] h = tt
  All-select P keep (x ∷ xs) h = elim (Bool-cases (keep x)) [
    | inl e ↦ rw e ((h.0, e), All-select P keep xs h.1)
    | inr e ↦ rw e (All-select P keep xs h.1)
  ]

  -- what holds of every element holds of those that are kept
  pub All-kept {κ} :
      (P : A → Type κ) (keep : A → Bool) (xs : List A) → All P xs → All P (select keep xs)
  All-kept P keep xs h = All-mp (select keep xs) (λ x k. k.0) (All-select P keep xs h)

  pub All-of_select {κ} :
      (P : A → Type κ) (keep : A → Bool) (xs : List A)
      → All P (select keep xs)
      → All (λ x. keep x ≡ true → P x) xs
  All-of_select P keep [] h = tt
  All-of_select P keep (x ∷ xs) h = elim (Bool-cases (keep x)) [
    | inl e ↦
        let h' : P x × All P (select keep xs) = rw e at h in
        (λ k. h'.0, All-of_select P keep xs h'.1)
    | inr e ↦
        let h' : All P (select keep xs) = rw e at h in
        (λ k. absurd (false≢true (sym e ∙ k)), All-of_select P keep xs h')
  ]

  pub select_all :
      (keep : A → Bool) (xs : List A) → All (λ x. keep x ≡ true) xs → select keep xs ≡ xs
  select_all keep [] h = refl
  select_all keep (x ∷ xs) h = rw (h.0, select_all keep xs h.1)

  pub select_none :
      (keep : A → Bool) (xs : List A) → select keep xs ≡ [] → All (λ x. keep x ≡ false) xs
  select_none keep [] h = tt
  select_none keep (x ∷ xs) h = elim (Bool-cases (keep x)) [
    | inl e ↦ cc
    | inr e ↦ (e, select_none keep xs (rw e at h))
  ]

pub length-map {ℓ κ} :
    {A : Type ℓ} {B : Type κ} (xs : List A) (f : A → B) → length (map f xs) ≡ length xs
length-map [] f = refl
length-map (x ∷ xs) f = ap suc (length-map xs f)
