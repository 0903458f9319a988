-- ===== src/Base/Actions.antt =====
-- Actions that can fail and change a state: an error ends the chain and leaves the state of that
-- moment. Their operators are those of results, so a file takes the one or the other.
use mathlib.Core.Path.{◌≡◌, refl}
use meshelf.Base.Errors.{Result, ok, err}

abbrev pub Action : Type 0 → Type 0 → Type 0 → Type 0
Action S E A = S → Result E A × S

module _ {S E : Type 0} where
  abbrev pub bind_outcome : {A B : Type 0} → Result E A × S → (A → Action S E B) → Result E B × S
  bind_outcome (ok value, after) next = next value after
  bind_outcome (err error, after) next = (err error, after)

  infixl 5 ◌>>=◌ ◌>>◌
  abbrev pub ◌>>=◌ : {A B : Type 0} → Action S E A → (A → Action S E B) → Action S E B
  (first >>= next) state = bind_outcome (first state) next

  abbrev pub ◌>>◌ : {B : Type 0} → Action S E (Unit {0}) → Action S E B → Action S E B
  first >> next = first >>= (λ _. next)

  -- a result that changes nothing
  abbrev pub lift : {A : Type 0} → Result E A → Action S E A
  lift result state = (result, state)

  abbrev pub pure : {A : Type 0} → A → Action S E A
  pure value state = (ok value, state)

  -- A chain that succeeds has a first step that does, and a rest that does from where it ended.
  pub bind_outcome-eq-ok :
      {A B : Type 0} {last : B} {end : S} (first : Result E A × S) (next : A → Action S E B)
      → bind_outcome first next ≡ (ok last, end)
      → (value : A) × (first.0 ≡ ok value) × (next value first.1 ≡ (ok last, end))
  bind_outcome-eq-ok (ok value, after) next same = (value, refl, same)
  bind_outcome-eq-ok (err error, after) next same = cc

-- How an action ends: the state keeps an invariant, and a result has a property.
module _ {S E : Type 0} (Keeps : S → Type 0) where
  abbrev pub Ends : {A : Type 0} → (A → Type 0) → Result E A × S → Type 0
  Ends P (ok value, after) = Keeps after × P value
  Ends P (err error, after) = Keeps after

  pub Ends-bind :
      {A B : Type 0} (P : A → Type 0) (Q : B → Type 0) (outcome : Result E A × S)
      (next : A → Action S E B)
      → Ends P outcome
      → ((value : A) (state : S) → Keeps state → P value → Ends Q (next value state))
      → Ends Q (bind_outcome outcome next)
  Ends-bind P Q (ok value, after) next h rest = rest value after h.0 h.1
  Ends-bind P Q (err error, after) next h rest = h

  pub Ends-state :
      {A : Type 0} (P : A → Type 0) (outcome : Result E A × S) → Ends P outcome → Keeps outcome.1
  Ends-state P (ok value, after) h = h.0
  Ends-state P (err error, after) h = h
