-- ===== src/Tools/Http.antt =====
-- src/athenai/tools/http.py. `urlparse` and the httpx client are parameters.
pub mod Guard
use athena_ai.Prelude.{
  ℕ, ◌≤◌, ◌≡◌, refl, ◌⊎◌, inl, inr, String, Text, codes, Bool, true, false, ◌&&◌, ◌||◌, Option,
  none, some, List, [], ◌∷◌, ◌++◌, take, length, length-take, arith, ltb, ◌==◌, nat_eq,
  if◌then◌else◌, min, Bool-cases,
}
use athena_ai.Prelude.Dict.{Dict}
use athena_ai.Prelude.Texts.{text_eq}
use athena_ai.Core.Errors.{Result, ok, err, ◌>>=◌, athena, tool_denied}

-- what the tool reads of an httpx response
pub record Response : Type 0 where
  pub status_code : ℕ
  pub url : Text
  pub text : Text
  pub headers : Dict Text

-- the dict that `execute` returns
pub record Fetched : Type 0 where
  pub status : ℕ
  pub url : Text
  pub body : Text
  pub headers : Dict Text

abbrev pub max_body_chars : ℕ
max_body_chars = 8192

-- `host.endswith(suffix)`
unfoldable pub ends_with : Text → Text → Bool
ends_with [] suffix = text_eq [] suffix
ends_with (c ∷ cs) suffix = text_eq (c ∷ cs) suffix || ends_with cs suffix

-- `host == d or host.endswith("." + d)`
unfoldable pub is_host_of : Text → Text → Bool
unfolding ends_with
is_host_of host d = text_eq host d || ends_with host (b'.' ∷ d)

unfoldable pub is_host_allowed : Text → List Text → Bool
unfolding is_host_of
is_host_allowed host [] = false
is_host_allowed host (d ∷ ds) = is_host_of host d || is_host_allowed host ds

-- `parsed.hostname or ""`
pub host_or_empty : Option Text → Text
host_or_empty none = []
host_or_empty (some h) = h

fetched : Response → Fetched
fetched r = record {
  status = r.status_code;
  url = r.url;
  body = take max_body_chars r.text;
  headers = r.headers;
}

unfoldable pub answered : {W : Type 0} → Result Response × W → Result Fetched × W
unfolding fetched
answered (ok r, w) = (ok (fetched r), w)
answered (err e, w) = (err e, w)

module _ {W : Type 0} (hostname : Text → Result (Option Text))
    (client_get : Text → Dict Text → W → Result Response × W) where
  unfoldable pub check_domain : List Text → Text → Result (Unit {0})
  unfolding host_or_empty
  check_domain allowed url = do
    parsed ← hostname url
    if is_host_allowed (host_or_empty parsed) allowed then ok tt else err (athena tool_denied)

  unfoldable pub execute : List Text → Text → Dict Text → W → Result Fetched × W
  unfolding check_domain answered
  execute allowed url headers w = elim (check_domain allowed url) [
    | ok _ ↦ answered (client_get url headers w)
    | err e ↦ (err e, w)
  ]
