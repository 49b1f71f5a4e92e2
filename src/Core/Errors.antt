-- ===== src/Core/Errors.antt =====
-- src/athenai/core/exceptions.py, with the built-in exceptions that the modelled code raises. The
-- message of an exception is text for a log and is left out.
use athena_ai.Prelude.{◌≡◌, refl, ◌⊎◌, inl, inr, Bool, true, false}

-- one constructor for each subclass of `AthenaError`
pub data AthenaError : Type 0 where
  context_overflow model_unavailable tool_denied tool_timeout : AthenaError
  policy_violation embedding_error circuit_open rate_limit : AthenaError

pub data Error : Type 0 where
  athena : AthenaError → Error
  value_error key_error type_error runtime_error : Error
  index_error zero_division timeout attribute_error : Error
  -- of asyncpg and httpx
  database_error transport_error : Error

-- What a call returns, or the exception that it raises.
pub data Result {ℓ} (A : Type ℓ) : Type ℓ where
  ok : A → Result A
  err : Error → Result A

infixl 5 ◌>>=◌ ◌>>◌
abbrev pub ◌>>=◌ {ℓ κ} : {A : Type ℓ} {B : Type κ} → Result A → (A → Result B) → Result B
ok a >>= f = f a
err e >>= f = err e

abbrev pub ◌>>◌ {ℓ κ} : {A : Type ℓ} {B : Type κ} → Result A → Result B → Result B
m >> k = m >>= λ _. k

-- `if c: raise e`
abbrev pub raise_if : Bool → Error → Result (Unit {0})
raise_if true e = err e
raise_if false e = ok tt

pub Result-cases {ℓ} :
    {A : Type ℓ} (m : Result A) → ((a : A) × (m ≡ ok a)) ⊎ ((e : Error) × (m ≡ err e))
Result-cases (ok a) = inl (a, refl)
Result-cases (err e) = inr (e, refl)

-- inversion of a successful bind
pub >>=-eq-ok {ℓ κ} :
    {S : Type ℓ} {T : Type κ} (r : Result S) (next : S → Result T) {t : T}
    → (r >>= next) ≡ ok t
    → (s : S) × (r ≡ ok s) × (next s ≡ ok t)
>>=-eq-ok (ok s) next e = (s, refl, e)
>>=-eq-ok (err x) next e = cc

abbrev pub is_ok {ℓ} : {A : Type ℓ} → Result A → Bool
is_ok (ok a) = true
is_ok (err e) = false
