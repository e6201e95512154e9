-- ===== src/Base/Fallible.antt =====
-- Code that changes a state and returns a value or an error: an error keeps the changes made so far.
use mathlib.Core.Option.{Option, none, some}
use mathlib.Core.Bool.{Bool, true, false}

abbrev pub M : Type 0 → Type 0 → Type 0
M S A = S → Option A × S

module _ {S : Type 0} where
  abbrev pub pure : {A : Type 0} → A → M S A
  pure a s = (some a, s)

  abbrev pub fail : {A : Type 0} → M S A
  fail s = (none, s)

  abbrev pub and_then : {A B : Type 0} → Option A × S → (A → M S B) → Option B × S
  and_then (none, s) k = (none, s)
  and_then (some a, s) k = k a s

  infixl 5 ◌>>=◌ ◌>>◌
  abbrev pub ◌>>=◌ : {A B : Type 0} → M S A → (A → M S B) → M S B
  m >>= k = λ s. and_then (m s) k

  abbrev pub ◌>>◌ : {A B : Type 0} → M S A → M S B → M S B
  m >> k = m >>= λ x. k

  -- An early return of an error.
  abbrev pub guard : Bool → M S (Unit {0})
  guard true = pure tt
  guard false = fail

  -- The state, and a change of it.
  abbrev pub modify : (S → S) → M S (Unit {0})
  modify f s = (some tt, f s)

  abbrev pub gets : {A : Type 0} → (S → A) → M S A
  gets f s = (some (f s), s)

  -- A computation and what is done when it fails.
  abbrev pub or_else : {A : Type 0} → Option A × S → A → Option A × S
  or_else (none, s) a = (some a, s)
  or_else (some b, s) a = (some b, s)

  abbrev pub catch : {A : Type 0} → M S A → A → M S A
  catch m a s = or_else (m s) a
