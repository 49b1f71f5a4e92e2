-- ===== src/Prelude/Tasks.antt =====
-- Coroutines under asyncio: between two awaits a coroutine is atomic, and at each await the event loop
-- may go on with any other.
use mathlib.Core.Path.{◌≡◌}
use mathlib.Core.List.{List, [], ◌∷◌}
use athena_ai.Prelude.Lists.{All}

-- what is left of a coroutine that acts on a world `W` and returns an `R`
pub data Task (W R : Type 0) : Type 0 where
  returns : R → Task W R
  -- up to the next await: what it does to the world, and the rest by the world that it found
  step : (W → W) → (W → Task W R) → Task W R

module _ {W R : Type 0} where
  -- `await` of the coroutine alone
  unfoldable pub finish : Task W R → W → R × W
  finish (returns r) w = (r, w)
  finish (step f k) w = finish (k w) (f w)

  -- one after the other
  unfoldable pub finish_all : List (Task W R) → W → List R × W
  unfolding finish
  finish_all [] w = ([], w)
  finish_all (t ∷ ts) w =
      let (r, w') = finish t w in let (rs, w'') = finish_all ts w' in (r ∷ rs, w'')

  -- a task that may go on: what it does to the world, and the tasks then
  pub data Pick : List (Task W R) → (W → W) → (W → List (Task W R)) → Type 0 where
    here :
        {f : W → W} {k : W → Task W R} {ts : List (Task W R)}
        → Pick (step f k ∷ ts) f (λ w. k w ∷ ts)
    there :
        {t : Task W R} {ts : List (Task W R)} {f : W → W} {g : W → List (Task W R)}
        → Pick ts f g
        → Pick (t ∷ ts) f (λ w. t ∷ g w)

  -- the event loop's choices, in any order
  pub data Runs : List (Task W R) → W → List (Task W R) → W → Type 0 where
    stop : {ts : List (Task W R)} {w : W} → Runs ts w ts w
    next :
        {ts us : List (Task W R)} {f : W → W} {g : W → List (Task W R)} {w v : W}
        → Pick ts f g
        → Runs (g w) (f w) us v
        → Runs ts w us v

  -- every step of the task satisfies `P`
  abbrev pub Acts : ((W → W) → Type 0) → Task W R → Type 0
  Acts P (returns r) = Unit
  Acts P (step f k) = P f × ((w : W) → Acts P (k w))

  -- no step of the task depends on whether `h` was done before it
  abbrev pub Ignores : Task W R → (W → W) → Type 0
  Ignores (returns r) h = Unit
  Ignores (step f k) h =
      ((w : W) → f (h w) ≡ h (f w)) × ((w : W) → k (h w) ≡ k w) × ((w : W) → Ignores (k w) h)

  -- neither task depends on a step of the other
  abbrev pub AreIndependent : Task W R → Task W R → Type 0
  AreIndependent t u = Acts (Ignores u) t × Acts (Ignores t) u

  abbrev pub AreApart : List (Task W R) → Type 0
  AreApart [] = Unit
  AreApart (t ∷ ts) = All (AreIndependent t) ts × AreApart ts
