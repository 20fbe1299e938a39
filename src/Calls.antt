-- ===== src/Calls.antt =====
-- Code that calls the outside (database, queue, provider, clock) and may fail.
--
-- A run reads and extends the history of the calls made so far, the latest first. What a call
-- answers is asked of an environment, a function of that history, so a statement for every
-- environment covers failures, other processes that write between two calls, and time that passes.
use spur_messaging.Prelude.{Bool, true, false, List, ◌∷◌, ◌≡◌, refl}
use spur_messaging.Domain.Errors.{GoError}

-- Go's pair of a value and an `error`.
pub data Result (A : Type 0) : Type 0 where
  ok : A → Result A
  err : GoError → Result A

abbrev pub Op : Type 0 → Type 0 → Type 0
Op C A = List C → Result A × List C

module _ {C : Type 0} where
  abbrev pub pure : {A : Type 0} → A → Op C A
  pure a h = (ok a, h)

  abbrev pub fail : {A : Type 0} → GoError → Op C A
  fail e h = (err e, h)

  -- `if err != nil { return nil, err }` after every step.
  infixl 5 ◌>>=◌ ◌>>◌
  abbrev pub ◌>>=◌ : {A B : Type 0} → Op C A → (A → Op C B) → Op C B
  ◌>>=◌ m f h = let (r, h') = m h in elim r [ ok a ↦ f a h' | err e ↦ (err e, h') ]

  abbrev pub ◌>>◌ : {B : Type 0} → Op C (Unit {0}) → Op C B → Op C B
  m >> k = m >>= λ _. k

  -- One call: the environment answers from the history, and the call and its answer are noted.
  abbrev pub call : {A : Type 0} → (List C → Result A) → (Result A → C) → Op C A
  call ask note h = let r = ask h in (r, note r ∷ h)

  -- A call that cannot fail, such as `uuid.New` or `time.Now`.
  abbrev pub draw : {A : Type 0} → (List C → A) → (A → C) → Op C A
  draw ask note h = let a = ask h in (ok a, note a ∷ h)

  -- The error as a value, where the code looks at it or drops it.
  abbrev pub attempt : {A : Type 0} → Op C A → Op C (Result A)
  attempt m h = let (r, h') = m h in (ok r, h')

  abbrev pub guard : Bool → GoError → Op C (Unit {0})
  guard true e h = (ok tt, h)
  guard false e h = (err e, h)

module _ {C A B : Type 0} (m : Op C A) (f : A → Op C B) where
  -- A step and its continuation: the error goes straight to the end.
  pub bind_cases {ℓ} :
      (h : List C) (Goal : Result B × List C → Type ℓ)
      → ((e : GoError) → (m h).0 ≡ err e → Goal (err e, (m h).1))
      → ((a : A) → (m h).0 ≡ ok a → Goal (f a (m h).1))
      → Goal ((m >>= f) h)
  bind_cases h Goal on_err on_ok = go (m h).0 refl
    where
      go :
          (r : Result A)
          → (m h).0 ≡ r
          → Goal (elim r [ ok a ↦ f a (m h).1 | err e ↦ (err e, (m h).1) ])
      go (ok a) e = on_ok a e
      go (err x) e = on_err x e
