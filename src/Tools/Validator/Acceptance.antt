-- ===== src/Tools/Validator/Acceptance.antt =====
-- What the validator lets through.
use mathlib.Core.Path.{subst}
use mathlib.Core.Bool.{false≢true}
use mathlib.Core.List.{Memᴰ}
use text.Mathlib.TextEquality.{eq_iff}
use athena_ai.Prelude.{
  String, Bool, false, not, ◌||◌, none, some, ◌≡◌, refl, sym, ◌∙◌, ◌⊎◌, inl, inr, true, List, [],
  ◌∷◌, ◌==◌, string_eq, arith, Bool-cases, Option-cases, All,
}
use athena_ai.Prelude.Dict.{Dict, lookup}
use athena_ai.Core.Errors.{Result, ok, err, athena, tool_denied}
use athena_ai.Core.Json.{
  Json, null, boolean, integer, float, string, array, object, Fields, close, field, has,
}
use athena_ai.Tools.Registry.{Property, Tool}
use athena_ai.Tools.Validator.{
  type_map, is_instance, check_required, is_acceptable, check_types, validate_schema, is_allowed,
  validate_permission, validate,
}

-- the names of JSON Schema's types
abbrev pub known_types : List String
known_types = "string" ∷ "number" ∷ "integer" ∷ "boolean" ∷ "array" ∷ "object" ∷ []

-- the types that a value has: in Python a bool is an int
abbrev pub types_of : Json → List String
types_of null = []
types_of (boolean b) = "boolean" ∷ "integer" ∷ "number" ∷ []
types_of (integer n) = "integer" ∷ "number" ∷ []
types_of (float f) = "number" ∷ []
types_of (string s) = "string" ∷ []
types_of (array xs) = "array" ∷ []
types_of (object fs) = "object" ∷ []

abbrev pub is_among : String → List String → Bool
is_among name [] = false
is_among name (n ∷ ns) = n == name || is_among name ns

-- where the schema gives a known type for the argument, the value has that type
abbrev pub IsTyped : Dict Property → String → Json → Type 0
IsTyped props key value =
    (p : Property) (type_name : String)
    → lookup key props ≡ some p
    → p.type_name ≡ some type_name
    → is_among type_name known_types ≡ true
    → is_among type_name (types_of value) ≡ true

abbrev pub AllTyped : Dict Property → Fields → Type 0
AllTyped props close = Unit
AllTyped props (field k v rest) = IsTyped props k v × AllTyped props rest

-- the test of one value against a type name
is_typed : String → Json → Bool
is_typed type_name value = elim (lookup type_name type_map) [
  | none ↦ true
  | some expected ↦ is_instance expected value
]

-- a type name is one of the known ones, or none of them
by_name :
    (P : String → Type 0) (t : String)
    → P "string"
    → P "number"
    → P "integer"
    → P "boolean"
    → P "array"
    → P "object"
    → (is_among t known_types ≡ false → lookup t type_map ≡ none → P t)
    → P t
unfolding type_map
by_name P t p0 p1 p2 p3 p4 p5 u = elim (Bool-cases ("string" == t)) [
  | inl e ↦ subst P ((eq_iff "string" t).0 e) p0
  | inr q0 ↦ elim (Bool-cases ("number" == t)) [
    | inl e ↦ subst P ((eq_iff "number" t).0 e) p1
    | inr q1 ↦ elim (Bool-cases ("integer" == t)) [
      | inl e ↦ subst P ((eq_iff "integer" t).0 e) p2
      | inr q2 ↦ elim (Bool-cases ("boolean" == t)) [
        | inl e ↦ subst P ((eq_iff "boolean" t).0 e) p3
        | inr q3 ↦ elim (Bool-cases ("array" == t)) [
          | inl e ↦ subst P ((eq_iff "array" t).0 e) p4
          | inr q4 ↦ elim (Bool-cases ("object" == t)) [
            | inl e ↦ subst P ((eq_iff "object" t).0 e) p5
            | inr q5 ↦ u (rw (q0, q1, q2, q3, q4, q5) refl) (rw (q0, q1, q2, q3, q4, q5) refl)
          ]
        ]
      ]
    ]
  ]
]

Agrees : Json → String → Type 0
Agrees v t = is_typed t v ≡ (not (is_among t known_types) || is_among t (types_of v))

Agrees-string : (v : Json) → Agrees v "string"
unfolding Agrees is_typed type_map is_instance
Agrees-string null = refl
Agrees-string (boolean b) = refl
Agrees-string (integer n) = refl
Agrees-string (float f) = refl
Agrees-string (string s) = refl
Agrees-string (array xs) = refl
Agrees-string (object fs) = refl

Agrees-number : (v : Json) → Agrees v "number"
unfolding Agrees is_typed type_map is_instance
Agrees-number null = refl
Agrees-number (boolean b) = refl
Agrees-number (integer n) = refl
Agrees-number (float f) = refl
Agrees-number (string s) = refl
Agrees-number (array xs) = refl
Agrees-number (object fs) = refl

Agrees-integer : (v : Json) → Agrees v "integer"
unfolding Agrees is_typed type_map is_instance
Agrees-integer null = refl
Agrees-integer (boolean b) = refl
Agrees-integer (integer n) = refl
Agrees-integer (float f) = refl
Agrees-integer (string s) = refl
Agrees-integer (array xs) = refl
Agrees-integer (object fs) = refl

Agrees-boolean : (v : Json) → Agrees v "boolean"
unfolding Agrees is_typed type_map is_instance
Agrees-boolean null = refl
Agrees-boolean (boolean b) = refl
Agrees-boolean (integer n) = refl
Agrees-boolean (float f) = refl
Agrees-boolean (string s) = refl
Agrees-boolean (array xs) = refl
Agrees-boolean (object fs) = refl

Agrees-array : (v : Json) → Agrees v "array"
unfolding Agrees is_typed type_map is_instance
Agrees-array null = refl
Agrees-array (boolean b) = refl
Agrees-array (integer n) = refl
Agrees-array (float f) = refl
Agrees-array (string s) = refl
Agrees-array (array xs) = refl
Agrees-array (object fs) = refl

Agrees-object : (v : Json) → Agrees v "object"
unfolding Agrees is_typed type_map is_instance
Agrees-object null = refl
Agrees-object (boolean b) = refl
Agrees-object (integer n) = refl
Agrees-object (float f) = refl
Agrees-object (string s) = refl
Agrees-object (array xs) = refl
Agrees-object (object fs) = refl

is_typed-Agrees : (v : Json) (t : String) → Agrees v t
unfolding Agrees is_typed
is_typed-Agrees v t =
    by_name (Agrees v) t (Agrees-string v) (Agrees-number v) (Agrees-integer v) (Agrees-boolean v)
      (Agrees-array v) (Agrees-object v) (λ e e'. rw (e, e', is_typed) refl)

is_typed_iff :
    (v : Json) (t : String)
    → (is_typed t v ≡ true → is_among t known_types ≡ true → is_among t (types_of v) ≡ true)
      × ((is_among t known_types ≡ true → is_among t (types_of v) ≡ true) → is_typed t v ≡ true)
unfolding Agrees
is_typed_iff v t =
    of_tests (is_typed t v) (is_among t known_types) (is_among t (types_of v)) (is_typed-Agrees v t)
  where
    of_tests :
        (a b c : Bool)
        → a ≡ (not b || c)
        → (a ≡ true → b ≡ true → c ≡ true) × ((b ≡ true → c ≡ true) → a ≡ true)
    of_tests a true c e = (λ p q. sym e ∙ p, λ h. e ∙ h refl)
    of_tests a false c e = (λ p q. absurd (false≢true q), λ h. e)

is_acceptable-IsTyped :
    (props : Dict Property) (k : String) (v : Json)
    → (is_acceptable props k v ≡ true → IsTyped props k v)
      × (IsTyped props k v → is_acceptable props k v ≡ true)
unfolding is_acceptable is_typed
is_acceptable-IsTyped props k v = elim (Option-cases (lookup k props)) [
  | inl e ↦ (λ a p t found typed known. cc, λ h. rw (e, is_acceptable) refl)
  | inr (p, e) ↦ elim (Option-cases p.type_name) [
    | inl e' ↦ (
      λ a q t found typed known.
          let same : p ≡ q = cc in let typed' : p.type_name ≡ some t = rw same typed in cc,
      λ h. rw (e, is_acceptable, e') refl,
    )
    | inr (t, e') ↦ (
      λ a q u found typed known.
          let same : p ≡ q = cc in
          let typed' : p.type_name ≡ some u = rw same typed in
          let named : t ≡ u = cc in
          let a' : is_typed t v ≡ true = rw (e, is_acceptable, e') at a in
          (is_typed_iff v u).0 (subst (λ n. is_typed n v ≡ true) named a') known,
      λ h. rw (e, is_acceptable, e') ((is_typed_iff v t).1 (λ known. h p t e e' known)),
    )
  ]
]

-- a check passes with `P`, or is refused with ToolDeniedError without it
abbrev Decides : Type 0 → Result (Unit {0}) → Type 0
Decides P r = ((r ≡ ok tt) × P) ⊎ ((r ≡ err (athena tool_denied)) × ¬ P)

check_required-Decides :
    (names : List String) (arguments : Fields)
    → Decides (All (λ n. has n arguments ≡ true) names) (check_required names arguments)
unfolding check_required
check_required-Decides [] arguments = inl (refl, tt)
check_required-Decides (n ∷ ns) arguments = elim (Bool-cases (has n arguments)) [
  | inl e ↦ rw e (elim (check_required-Decides ns arguments) [
    | inl (o, h) ↦ inl (o, (refl, h))
    | inr (o, h) ↦ inr (o, λ p. h p.1)
  ])
  | inr e ↦ rw e (inr (refl, λ p. cc p.0))
]

check_types-Decides :
    (props : Dict Property) (arguments : Fields)
    → Decides (AllTyped props arguments) (check_types props arguments)
unfolding check_types
check_types-Decides props close = inl (refl, tt)
check_types-Decides props (field k v rest) = elim (Bool-cases (is_acceptable props k v)) [
  | inl e ↦ rw e (elim (check_types-Decides props rest) [
    | inl (o, h) ↦ inl (o, ((is_acceptable-IsTyped props k v).0 e, h))
    | inr (o, h) ↦ inr (o, λ p. h p.1)
  ])
  | inr e ↦
      rw e (inr (refl, λ p. absurd (false≢true (sym e ∙ (is_acceptable-IsTyped props k v).1 p.0))))
]

is_allowed→mem : (name : String) (ns : List String) → is_allowed name ns ≡ true → Memᴰ name ns
unfolding is_allowed
is_allowed→mem name [] h = cc
is_allowed→mem name (n ∷ ns) h = elim (Bool-cases (n == name)) [
  | inl e ↦ Memᴰ.head (sym ((eq_iff n name).0 e))
  | inr e ↦ Memᴰ.tail (is_allowed→mem name ns (rw e at h))
]

mem→is_allowed : {name : String} {ns : List String} → Memᴰ name ns → is_allowed name ns ≡ true
unfolding is_allowed
mem→is_allowed {name} (Memᴰ.head {x = x} e) = ground (arith, eq_iff x name)
mem→is_allowed {name} (Memᴰ.tail {x = x} m) = ground (arith, mem→is_allowed m)

module _ {V W : Type 0} (tool : Tool V W) (arguments : Fields) (allowed : List String) where
  validate_permission-Decides : Decides (Memᴰ tool.name allowed) (validate_permission tool allowed)
  unfolding validate_permission
  validate_permission-Decides = elim (Bool-cases (is_allowed tool.name allowed)) [
    | inl e ↦ rw e (inl (refl, is_allowed→mem tool.name allowed e))
    | inr e ↦ rw e (inr (refl, λ m. absurd (false≢true (sym e ∙ mem→is_allowed m))))
  ]

  -- The call is well formed: every required argument is there, every argument that the schema
  -- describes has an allowed type, and the user may use the tool.
  abbrev pub IsValidCall : Type 0
  IsValidCall =
      All (λ n. has n arguments ≡ true) tool.input_schema.required
      × AllTyped tool.input_schema.properties arguments
      × Memᴰ tool.name allowed

  -- validate passes exactly the calls that have every required argument, in which each argument
  -- that the schema gives one of the six JSON types has that type, where Python lets a boolean pass
  -- for an integer or a number, and whose tool is among the user's; any other call is refused with
  -- ToolDeniedError.
  pub validate-Decides :
      ((validate tool arguments allowed ≡ ok tt) × IsValidCall)
      ⊎ ((validate tool arguments allowed ≡ err (athena tool_denied)) × ¬ IsValidCall)
  unfolding validate validate_schema
  validate-Decides = elim (check_required-Decides tool.input_schema.required arguments) [
    | inr (o, h) ↦ rw o (inr (refl, λ p. h p.0))
    | inl (o, h) ↦ rw o (elim (check_types-Decides tool.input_schema.properties arguments) [
      | inr (o', h') ↦ rw o' (inr (refl, λ p. h' p.1))
      | inl (o', h') ↦ rw o' (elim validate_permission-Decides [
        | inr (o'', h'') ↦ inr (o'', λ p. h'' p.2)
        | inl (o'', h'') ↦ inl (o'', (h, h', h''))
      ])
    ])
  ]
