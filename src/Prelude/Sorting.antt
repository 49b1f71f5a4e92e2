-- ===== src/Prelude/Sorting.antt =====
-- Python's `sorted(xs, key=k, reverse=True)`: a stable sort by descending key, where `le` is the
-- order of the keys.
use mathlib.Core.Path.{◌≡◌, refl, ap, ◌∙◌}
use mathlib.Core.Logic.{◌⊎◌, inl, inr}
use mathlib.Core.Bool.{Bool, true, false}
use mathlib.Core.List.{List, [], ◌∷◌, ◌++◌, Perm}
use mathlib.Core.List.Perm
use Prim.Native.Nat.{ℕ, suc, min}
use native.Mathlib.Omega.{arith}
use athena_ai.Prelude.Tests.{if◌then◌else◌, Bool-cases}
use athena_ai.Prelude.Lists.{
  All, All-kept, select, length, take, drop, take-append-drop, length-take,
}

module _ {ℓ κ} {A : Type ℓ} {K : Type κ} (le : K → K → Bool) (key : A → K) where
  -- before the first element whose key is not greater
  unfoldable pub insert_desc : A → List A → List A
  insert_desc x [] = x ∷ []
  insert_desc x (y ∷ ys) = if le (key y) (key x) then x ∷ y ∷ ys else y ∷ insert_desc x ys

  unfoldable pub sorted_desc : List A → List A
  unfolding insert_desc
  sorted_desc [] = []
  sorted_desc (x ∷ xs) = insert_desc x (sorted_desc xs)

  -- `x` has a key that none of the others exceeds
  abbrev pub IsTop : A → List A → Type 0
  IsTop x = All (λ y. le (key y) (key x) ≡ true)

  -- no key is below a later one
  abbrev pub IsDescending : List A → Type 0
  IsDescending [] = Unit
  IsDescending (x ∷ xs) = IsTop x xs × IsDescending xs

  insert_desc-top : (x : A) (xs : List A) → IsTop x xs → insert_desc x xs ≡ x ∷ xs
  unfolding insert_desc
  insert_desc-top x [] h = refl
  insert_desc-top x (y ∷ ys) h = rw (h.0) refl

  -- sorting leaves a list that is in order
  pub sorted_desc-id : (xs : List A) → IsDescending xs → sorted_desc xs ≡ xs
  unfolding sorted_desc
  sorted_desc-id [] h = refl
  sorted_desc-id (x ∷ xs) h = ap (insert_desc x) (sorted_desc-id xs h.1) ∙ insert_desc-top x xs h.0

  -- so is what is kept of it
  pub select-IsDescending :
      (keep : A → Bool) (xs : List A) → IsDescending xs → IsDescending (select keep xs)
  select-IsDescending keep [] h = tt
  select-IsDescending keep (x ∷ xs) h = elim (Bool-cases (keep x)) [
    | inl e ↦ rw e (All-kept _ keep xs h.0, select-IsDescending keep xs h.1)
    | inr e ↦ rw e (select-IsDescending keep xs h.1)
  ]

  insert_desc-perm : (x : A) (xs : List A) → Perm (insert_desc x xs) (x ∷ xs)
  unfolding insert_desc
  insert_desc-perm x [] = Perm.refl (x ∷ [])
  insert_desc-perm x (y ∷ ys) = elim (Bool-cases (le (key y) (key x))) [
    | inl e ↦ rw e (Perm.refl (x ∷ y ∷ ys))
    | inr e ↦ rw e (Perm.trans (Perm.cons y (insert_desc-perm x ys)) (Perm.swap x y ys))
  ]

  -- sorting only reorders
  pub sorted_desc-perm : (xs : List A) → Perm (sorted_desc xs) xs
  unfolding sorted_desc
  sorted_desc-perm [] = Perm.refl []
  sorted_desc-perm (x ∷ xs) =
      Perm.trans (insert_desc-perm x (sorted_desc xs)) (Perm.cons x (sorted_desc-perm xs))

  pub All-insert_desc {μ} :
      (P : A → Type μ) (x : A) (xs : List A) → P x → All P xs → All P (insert_desc x xs)
  unfolding insert_desc
  All-insert_desc P x [] p h = (p, tt)
  All-insert_desc P x (y ∷ ys) p h = elim (Bool-cases (le (key y) (key x))) [
    | inl e ↦ rw e (p, h)
    | inr e ↦ rw e (h.0, All-insert_desc P x ys p h.1)
  ]

  -- what holds of every element still does
  pub All-sorted_desc {μ} : (P : A → Type μ) (xs : List A) → All P xs → All P (sorted_desc xs)
  unfolding sorted_desc
  All-sorted_desc P [] h = tt
  All-sorted_desc P (x ∷ xs) h = All-insert_desc P x (sorted_desc xs) h.0 (All-sorted_desc P xs h.1)

  All-of_insert_desc {μ} :
      (P : A → Type μ) (x : A) (xs : List A) → All P (insert_desc x xs) → P x × All P xs
  unfolding insert_desc
  All-of_insert_desc P x [] h = h
  All-of_insert_desc P x (y ∷ ys) h = elim (Bool-cases (le (key y) (key x))) [
    | inl e ↦ rw e at h
    | inr e ↦
        let h' : P y × All P (insert_desc x ys) = rw e at h in
        let (p, q) = All-of_insert_desc P x ys h'.1 in (p, (h'.0, q))
  ]

  -- what holds of every element of the result holds of every element of the input
  pub All-of_sorted_desc {μ} : (P : A → Type μ) (xs : List A) → All P (sorted_desc xs) → All P xs
  unfolding sorted_desc
  All-of_sorted_desc P [] h = tt
  All-of_sorted_desc P (x ∷ xs) h =
      let (p, q) = All-of_insert_desc P x (sorted_desc xs) h in (p, All-of_sorted_desc P xs q)

  insert_desc-cons : (x : A) (xs : List A) → (y : A) × (ys : List A) × (insert_desc x xs ≡ y ∷ ys)
  unfolding insert_desc
  insert_desc-cons x [] = (x, [], refl)
  insert_desc-cons x (y ∷ ys) = elim (Bool-cases (le (key y) (key x))) [
    | inl e ↦ (x, y ∷ ys, rw e)
    | inr e ↦ (y, insert_desc x ys, rw e)
  ]

  -- a list that is not empty has a first element when sorted
  pub sorted_desc-cons :
      (x : A) (xs : List A) → (y : A) × (ys : List A) × (sorted_desc (x ∷ xs) ≡ y ∷ ys)
  unfolding sorted_desc
  sorted_desc-cons x xs = insert_desc-cons x (sorted_desc xs)

  module _ (le_total : (a b : K) → (le a b ≡ true) ⊎ (le b a ≡ true))
      (le_trans : (a b c : K) → le a b ≡ true → le b c ≡ true → le a c ≡ true) where
    IsTop-trans : (x y : A) (xs : List A) → le (key y) (key x) ≡ true → IsTop y xs → IsTop x xs
    IsTop-trans x y [] e h = tt
    IsTop-trans x y (z ∷ zs) e h = (le_trans _ _ _ h.0 e, IsTop-trans x y zs e h.1)

    above : (x y : A) → le (key y) (key x) ≡ false → le (key x) (key y) ≡ true
    above x y e = elim (le_total (key x) (key y)) [ inl p ↦ p | inr p ↦ cc ]

    insert_desc-IsDescending :
        (x : A) (xs : List A) → IsDescending xs → IsDescending (insert_desc x xs)
    unfolding insert_desc
    insert_desc-IsDescending x [] h = (tt, tt)
    insert_desc-IsDescending x (y ∷ ys) h = elim (Bool-cases (le (key y) (key x))) [
      | inl e ↦ rw e ((e, IsTop-trans x y ys e h.0), h)
      | inr e ↦ rw e (All-insert_desc _ x ys (above x y e) h.0, insert_desc-IsDescending x ys h.1)
    ]

    -- the result is in descending order
    pub sorted_desc-IsDescending : (xs : List A) → IsDescending (sorted_desc xs)
    unfolding sorted_desc
    sorted_desc-IsDescending [] = tt
    sorted_desc-IsDescending (x ∷ xs) =
        insert_desc-IsDescending x (sorted_desc xs) (sorted_desc-IsDescending xs)

    -- `result` is a best part of `xs`: with the rest it is a reordering of `xs` in descending
    -- order, and it is as long as `k` allows.
    pub record IsBestOf (k : ℕ) (xs result : List A) : Type ℓ where
      pub rest : List A
      pub reordered : Perm (result ++ rest) xs
      pub descending : IsDescending (result ++ rest)
      pub sized : length result ≡ min k (length xs)

    length-insert_desc : (x : A) (xs : List A) → length (insert_desc x xs) ≡ suc (length xs)
    unfolding insert_desc
    length-insert_desc x [] = refl
    length-insert_desc x (y ∷ ys) = ground (arith, length-insert_desc x ys)

    pub length-sorted_desc : (xs : List A) → length (sorted_desc xs) ≡ length xs
    unfolding sorted_desc
    length-sorted_desc [] = refl
    length-sorted_desc (x ∷ xs) =
        length-insert_desc x (sorted_desc xs) ∙ ap suc (length-sorted_desc xs)

    -- `sorted(xs, ...)[:k]`
    pub take-IsBestOf : (k : ℕ) (xs : List A) → IsBestOf k xs (take k (sorted_desc xs))
    take-IsBestOf k xs = record {
      rest = drop k (sorted_desc xs);
      reordered = rw (take-append-drop k (sorted_desc xs)) (sorted_desc-perm xs);
      descending = rw (take-append-drop k (sorted_desc xs)) (sorted_desc-IsDescending xs);
      sized = length-take k (sorted_desc xs) ∙ ap (min k) (length-sorted_desc xs);
    }
