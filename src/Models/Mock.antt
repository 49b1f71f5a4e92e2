-- ===== src/Models/Mock.antt =====
-- src/athenai/models/mock.py. A message always has a role and a content here.
use mathlib.Core.List.{reverse, reverse_aux, reverse_aux-eq}
use athena_ai.Prelude.{
  ℕ, ◌+◌, ◌/◌, ◌≡◌, ◌∙◌, ap, max, Text, codes, Bool, true, false, List, [], ◌∷◌, ◌++◌, map, ◌==◌,
  string_eq, length, if◌then◌else◌, All,
}
use athena_ai.Core.Errors.{ok}
use athena_ai.Models.Base.{ChatMessage, ModelRequest, ModelResponse, Model}

pub record MockModel : Type 0 where
  pub name : Text
  pub healthy : Bool

-- the content of the first user message of a list
first_user : List ChatMessage → Text
first_user [] = []
first_user (m ∷ ms) = if m.role == "user" then m.content else first_user ms

-- `sum(len(m.get("content", "")) // 4 for m in request.messages)`
abbrev pub estimated_tokens : List ChatMessage → ℕ
estimated_tokens [] = 0
estimated_tokens (m ∷ ms) = length m.content / 4 + estimated_tokens ms

-- f"[{self.name}] Echo: {last_user_msg}"
abbrev pub echo : Text → Text → Text
echo name text = codes "[" ++ name ++ codes "] Echo: " ++ text

echo_response : Text → Text → ℕ → ModelResponse
echo_response name content input_tokens = record {
  content = content;
  model_name = name;
  input_tokens = max 1 input_tokens;
  output_tokens = max 1 (length content / 4);
  finish_reason = codes "stop";
  structured_calls = [];
}

-- `MockModel.generate`
unfoldable pub generate : MockModel → ModelRequest → ModelResponse
unfolding first_user echo_response
generate m request =
    echo_response m.name (echo m.name (first_user (reverse request.messages)))
      (estimated_tokens request.messages)

-- `MockModel.stream`, less the sleeps: the characters one by one
unfoldable pub stream : MockModel → ModelRequest → List Text
stream m request = map (λ c. c ∷ []) (generate m request).content

-- `MockModel.set_healthy`
pub set_healthy : Bool → MockModel → MockModel
set_healthy healthy m = record m { healthy = healthy }

-- the adapter as a backend
abbrev pub as_model : {W : Type 0} → MockModel → Model W
as_model m = record {
  generate = λ request w. (ok (generate m request), w);
  health_check = λ w. (m.healthy, w);
}

first_user-append :
    (after : List ChatMessage) (m : ChatMessage) (before : List ChatMessage)
    → All (λ x. (x.role == "user") ≡ false) after
    → (m.role == "user") ≡ true
    → first_user (after ++ m ∷ before) ≡ m.content
unfolding first_user
first_user-append [] m before none_after user = rw user
first_user-append (x ∷ after) m before none_after user =
    rw (none_after.0) (first_user-append after m before none_after.1 user)

All-reverse_aux :
    {A : Type 0} (Q : A → Type 0) (xs ys : List A) → All Q xs → All Q ys → All Q (reverse_aux xs ys)
All-reverse_aux Q [] ys first second = second
All-reverse_aux Q (x ∷ xs) ys first second = All-reverse_aux Q xs (x ∷ ys) first.1 (first.0, second)

reverse_aux-middle :
    (before : List ChatMessage) (m : ChatMessage) (after acc : List ChatMessage)
    → reverse_aux (before ++ m ∷ after) acc ≡ reverse after ++ m ∷ reverse_aux before acc
reverse_aux-middle [] m after acc = reverse_aux-eq after (m ∷ acc)
reverse_aux-middle (x ∷ before) m after acc = reverse_aux-middle before m after (x ∷ acc)

-- The content of the answer is the name of the model and the last message of the user, whatever
-- stands before that message and whatever other roles said after it.
pub generate-eq-echo :
    (model : MockModel) (request : ModelRequest) (before : List ChatMessage) (m : ChatMessage)
    (after : List ChatMessage)
    → request.messages ≡ before ++ m ∷ after
    → (m.role == "user") ≡ true
    → All (λ x. (x.role == "user") ≡ false) after
    → (generate model request).content ≡ echo model.name m.content
unfolding generate
generate-eq-echo model request before m after e user others =
    let backwards : reverse request.messages ≡ reverse after ++ m ∷ reverse before =
      rw e (reverse_aux-middle before m after []) in
    ap (echo model.name) (
      ap first_user backwards
      ∙ first_user-append (reverse after) m (reverse before)
          (All-reverse_aux (λ x. (x.role == "user") ≡ false) after [] others tt) user)
