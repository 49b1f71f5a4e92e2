-- ===== src/Core/Lifecycle.antt =====
-- src/athenai/core/lifecycle.py. A component is known by its `close` and its `aclose`, if it has them,
-- as actions on a world; logging is left out.
use mathlib.Core.List.{reverse, reverse-cons, append-nil, append_assoc}
use athena_ai.Prelude.{ℕ, Option, none, some, List, [], ◌∷◌, ◌++◌, ◌≡◌, refl, sym, ap, ◌∙◌}
use athena_ai.Prelude.Dict.{Dict, insert, values}
use athena_ai.Core.Errors.{Result}

abbrev pub Action : Type 0 → Type 0
Action W = W → Result (Unit {0}) × W

pub record Component (W : Type 0) : Type 0 where
  pub close : Option (Action W)
  pub aclose : Option (Action W)

module _ {W : Type 0} where
  -- `getattr(component, "close", None) or getattr(component, "aclose", None)`
  abbrev pub closer : Component W → Option (Action W)
  closer component = elim component.close [ some c ↦ some c | none ↦ component.aclose ]

  -- one round of the loop: an exception is logged
  unfoldable pub close_one : Component W → W → W
  close_one component w = elim (closer component) [ none ↦ w | some c ↦ (c w).1 ]

  unfoldable pub close_each : List (Component W) → W → W
  unfolding close_one
  close_each [] w = w
  close_each (c ∷ cs) w = close_each cs (close_one c w)

  -- the `finally` of `lifespan`
  unfoldable pub shutdown : Dict (Component W) → W → W
  unfolding close_each
  shutdown registry w = close_each (reverse (values registry)) w

module _ {A W : Type 0} where
  -- `lifespan(config)` round a body, which may register components and may raise
  unfoldable pub lifespan :
      Component W → (Dict (Component W) → W → Result A × Dict (Component W) × W) → W → Result A × W
  unfolding shutdown
  lifespan config body w =
      let (r, registry, w') = body (insert "config" config []) w in (r, shutdown registry w')

-- an AthenaConfig has neither `close` nor `aclose`
abbrev pub settings : {W : Type 0} → Component W
settings = record { close = none; aclose = none }

-- which of the two methods a component has
pub data Methods : Type 0 where
  neither only_close only_aclose both : Methods

-- a call of a method of the component with the name
pub data Called : Type 0 where
  by_close by_aclose : ℕ → Called

-- a component whose methods write that they are called, and then return or raise
pub record Recorded : Type 0 where
  pub name : ℕ
  pub methods : Methods
  pub close_outcome : Result (Unit {0})
  pub aclose_outcome : Result (Unit {0})

abbrev written : Recorded → (ℕ → Called) → Result (Unit {0}) → Option (Action (List Called))
written r by outcome = some (λ log. (outcome, log ++ by r.name ∷ []))

abbrev pub component_of : Recorded → Component (List Called)
component_of r = elim r.methods [
  | neither ↦ record { close = none; aclose = none }
  | only_close ↦ record { close = written r by_close r.close_outcome; aclose = none }
  | only_aclose ↦ record { close = none; aclose = written r by_aclose r.aclose_outcome }
  | both ↦ record {
    close = written r by_close r.close_outcome;
    aclose = written r by_aclose r.aclose_outcome;
  }
]

abbrev pub registered : Dict Recorded → Dict (Component (List Called))
registered [] = []
registered ((k, r) ∷ d) = (k, component_of r) ∷ registered d

-- the calls that are wanted for one component
abbrev pub closing : Methods → ℕ → List Called
closing neither name = []
closing only_close name = by_close name ∷ []
closing only_aclose name = by_aclose name ∷ []
closing both name = by_close name ∷ []

-- the calls for the components, the last one first
abbrev pub closings : Dict Recorded → List Called
closings [] = []
closings ((k, r) ∷ d) = closings d ++ closing r.methods r.name

close_each-append :
    {W : Type 0} (cs ds : List (Component W)) (w : W)
    → close_each (cs ++ ds) w ≡ close_each ds (close_each cs w)
unfolding close_each
close_each-append [] ds w = refl
close_each-append (c ∷ cs) ds w = close_each-append cs ds (close_one c w)

close_one-component_of :
    (m : Methods) (r : Recorded) (log : List Called)
    → r.methods ≡ m
    → close_one (component_of r) log ≡ log ++ closing r.methods r.name
unfolding close_one
close_one-component_of neither r log e = rw e (sym (append-nil log))
close_one-component_of only_close r log e = rw e refl
close_one-component_of only_aclose r log e = rw e refl
close_one-component_of both r log e = rw e refl

shutdown-reverse :
    (registry : Dict Recorded) (log : List Called)
    → shutdown (registered registry) log ≡ log ++ closings registry
unfolding shutdown close_each
shutdown-reverse [] log = sym (append-nil log)
shutdown-reverse ((k, r) ∷ rest) log =
    let cs = values (registered rest) in
    ap (λ l. close_each l log) (reverse-cons (component_of r) cs)
    ∙ close_each-append (reverse cs) (component_of r ∷ []) log
    ∙ close_one-component_of r.methods r (close_each (reverse cs) log) refl
    ∙ ap (λ l. l ++ closing r.methods r.name) (shutdown-reverse rest log)
    ∙ append_assoc log (closings rest) (closing r.methods r.name)

shutdown-settings :
    (registry : Dict Recorded) (log : List Called)
    → shutdown (("config", settings) ∷ registered registry) log ≡ log ++ closings registry
unfolding shutdown close_each close_one
shutdown-settings registry log =
    let cs = values (registered registry) in
    ap (λ l. close_each l log) (reverse-cons settings cs)
    ∙ close_each-append (reverse cs) (settings ∷ []) log
    ∙ shutdown-reverse registry log

-- Whatever the body of "async with lifespan(config)" does and returns, or raises: afterwards, in
-- the reverse of the order of registration and whichever calls raise, each component that it
-- registered has had exactly one call: of close if it has that method, of aclose if it has only
-- that one, and none if it has neither; and what the body returned or raised is passed on.
pub lifespan-closes :
    {A : Type 0}
    (body : Dict (Component (List Called))
      → List Called
      → Result A × Dict (Component (List Called)) × List Called)
    (registry : Dict Recorded) (log log' : List Called) (result : Result A)
    → body (("config", settings) ∷ []) log
      ≡ (result, ("config", settings) ∷ registered registry, log')
    → lifespan settings body log ≡ (result, log' ++ closings registry)
unfolding lifespan shutdown
lifespan-closes body registry log log' result e =
    ap (λ o. (o.0, shutdown o.1 o.2)) e ∙ ap (λ l. (result, l)) (shutdown-settings registry log')
