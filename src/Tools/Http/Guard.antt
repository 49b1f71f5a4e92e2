-- ===== src/Tools/Http/Guard.antt =====
-- Which requests leave the process, and how much of an answer comes back.
use mathlib.Core.Bool.{false≢true}
use mathlib.Core.List.{Memᴰ}
use athena_ai.Prelude.{
  ◌≡◌, refl, sym, ap, ◌∙◌, ◌⊎◌, inl, inr, Text, Bool, true, false, ◌||◌, Option, List, [], ◌∷◌,
  ◌++◌, arith, nat_eq, if◌then◌else◌, Bool-cases, All,
}
use athena_ai.Prelude.Dict.{Dict}
use athena_ai.Prelude.Texts.{text_eq}
use athena_ai.Core.Errors.{Result, ok, err, ◌>>=◌, athena, tool_denied}
use athena_ai.Tools.Http.{
  Response, Fetched, ends_with, is_host_of, is_host_allowed, host_or_empty, answered, check_domain,
  execute,
}

text_eq→eq : (s t : Text) → text_eq s t ≡ true → s ≡ t
text_eq→eq [] [] h = refl
text_eq→eq [] (b ∷ t) h = cc
text_eq→eq (a ∷ s) [] h = cc
text_eq→eq (a ∷ s) (b ∷ t) h = ground (arith, text_eq→eq s t)

text_eq_refl : (s : Text) → text_eq s s ≡ true
text_eq_refl [] = refl
text_eq_refl (a ∷ s) = ground (arith, text_eq_refl s)

ends_with→split :
    (s suffix : Text) → ends_with s suffix ≡ true → (front : Text) × (s ≡ front ++ suffix)
unfolding ends_with
ends_with→split [] suffix h = ([], text_eq→eq [] suffix h)
ends_with→split (c ∷ cs) suffix h = elim (Bool-cases (text_eq (c ∷ cs) suffix)) [
  | inl e ↦ ([], text_eq→eq (c ∷ cs) suffix e)
  | inr e ↦ let (front, q) = ends_with→split cs suffix (rw e at h) in (c ∷ front, ap (λ t. c ∷ t) q)
]

ends_with-append : (front suffix : Text) → ends_with (front ++ suffix) suffix ≡ true
unfolding ends_with
ends_with-append [] [] = refl
ends_with-append [] (b ∷ t) = rw text_eq_refl refl
ends_with-append (c ∷ cs) suffix = ground (arith, ends_with-append cs suffix)

-- the host is the domain, or ends in a dot and the domain
abbrev pub IsUnder : Text → Text → Type 0
IsUnder d host = (host ≡ d) ⊎ ((front : Text) × (host ≡ front ++ b'.' ∷ d))

is_host_of→IsUnder : (host d : Text) → is_host_of host d ≡ true → IsUnder d host
unfolding is_host_of
is_host_of→IsUnder host d h = elim (Bool-cases (text_eq host d)) [
  | inl e ↦ inl (text_eq→eq host d e)
  | inr e ↦ inr (ends_with→split host (b'.' ∷ d) (rw e at h))
]

or_true : (b : Bool) → (b || true) ≡ true
or_true true = refl
or_true false = refl

IsUnder→is_host_of : (host d : Text) → IsUnder d host → is_host_of host d ≡ true
unfolding is_host_of
IsUnder→is_host_of host d (inl e) = rw (e, text_eq_refl) refl
IsUnder→is_host_of host d (inr (front, e)) = rw (e, ends_with-append front (b'.' ∷ d)) (or_true _)

is_host_allowed-cases :
    (host : Text) (ds : List Text)
    → ((is_host_allowed host ds ≡ true) × ((d : Text) × Memᴰ d ds × IsUnder d host))
      ⊎ ((is_host_allowed host ds ≡ false) × All (λ d. ¬ IsUnder d host) ds)
unfolding is_host_allowed
is_host_allowed-cases host [] = inr (refl, tt)
is_host_allowed-cases host (d ∷ ds) = elim (Bool-cases (is_host_of host d)) [
  | inl e ↦ rw e (inl (refl, (d, Memᴰ.head refl, is_host_of→IsUnder host d e)))
  | inr e ↦ rw e (elim (is_host_allowed-cases host ds) [
    | inl (o, (x, m, u)) ↦ inl (o, (x, Memᴰ.tail m, u))
    | inr (o, h) ↦ inr (o, (λ u. absurd (false≢true (sym e ∙ IsUnder→is_host_of host d u)), h))
  ])
]

module _ {W : Type 0} (hostname : Text → Result (Option Text))
    (client_get : Text → Dict Text → W → Result Response × W) (allowed : List Text) (url : Text)
    (headers : Dict Text) (w : W) where
  abbrev the_call : Result Fetched × W
  the_call = execute hostname client_get allowed url headers w

  check_domain_lem :
      {parsed : Option Text}
      → hostname url ≡ ok parsed
      → check_domain hostname client_get allowed url ≡ (
          if is_host_allowed (host_or_empty parsed) allowed
          then ok tt
          else err (athena tool_denied))
  unfolding check_domain
  check_domain_lem e = rw (e, ◌>>=◌)

  -- For a URL that parses, the request is made exactly if its host is a listed domain or a name
  -- under one; otherwise ToolDeniedError is raised and nothing is sent.
  pub execute-guards :
      {parsed : Option Text}
      → hostname url ≡ ok parsed
      → let host = host_or_empty parsed in
        (((d : Text) × Memᴰ d allowed × IsUnder d host)
          × (the_call ≡ answered (client_get url headers w)))
        ⊎ (All (λ d. ¬ IsUnder d host) allowed × (the_call ≡ (err (athena tool_denied), w)))
  unfolding execute
  execute-guards {parsed} e = elim (is_host_allowed-cases (host_or_empty parsed) allowed) [
    | inl (o, u) ↦ inl (u, rw (check_domain_lem e, execute, o))
    | inr (o, h) ↦ inr (h, rw (check_domain_lem e, execute, o))
  ]
