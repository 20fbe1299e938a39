-- ===== src/Http/Steps/Returns.antt =====
-- adapters/http: how a handler ends, and the early returns on the way.
use spur_messaging.Prelude.{String, Bool, true, false, Option, none, some, ◌∷◌}
use spur_messaging.Domain.Errors.{GoError, sentinel, invalid_input}
use spur_messaging.Calls.{Result, ok, err}
use spur_messaging.Http.Env.{HttpCall, HttpHistory}

-- How a handler ends: with a value, by `RespondError`, by `RespondValidationError`, or by a panic.
pub data Outcome (A : Type 0) : Type 0 where
  done : A → Outcome A
  refused : GoError → Outcome A
  invalid : (field message : String) → Outcome A
  crashed : String → Outcome A

abbrev pub Handling : Type 0 → Type 0
Handling A = HttpHistory → Outcome A × HttpHistory

abbrev pub pure : {A : Type 0} → A → Handling A
pure a h = (done a, h)

-- Every refusal returns at once.
infixl 5 ◌>>=◌ ◌>>◌
abbrev pub ◌>>=◌ : {A B : Type 0} → Handling A → (A → Handling B) → Handling B
◌>>=◌ m f h =
    let (r, h') = m h in
    elim r [
      | done a ↦ f a h'
      | refused e ↦ (refused e, h')
      | invalid field message ↦ (invalid field message, h')
      | crashed message ↦ (crashed message, h')
    ]

abbrev pub ◌>>◌ : {B : Type 0} → Handling (Unit {0}) → Handling B → Handling B
m >> k = m >>= λ _. k

abbrev pub outcome_of : {A : Type 0} → Result A → Outcome A
outcome_of (ok a) = done a
outcome_of (err e) = refused e

-- `if err != nil { RespondError(w, err); return }`.
abbrev pub lift : {A : Type 0} → Result A → Handling A
lift r h = (outcome_of r, h)

abbrev pub settled : {A : Type 0} → Outcome A → Handling A
settled r h = (r, h)

abbrev pub call : {A : Type 0} → (HttpHistory → Result A) → (Result A → HttpCall) → Handling A
call ask note h = let r = ask h in (outcome_of r, note r ∷ h)

abbrev pub require : Bool → (field message : String) → Handling (Unit {0})
require true field message h = (done tt, h)
require false field message h = (invalid field message, h)

abbrev pub check : Bool → GoError → Handling (Unit {0})
check true e h = (done tt, h)
check false e h = (refused e, h)

abbrev pub need : {A : Type 0} → Option A → (field message : String) → Handling A
need none field message h = (invalid field message, h)
need (some a) field message h = (done a, h)

-- `json.NewDecoder(r.Body).Decode`, given what it makes of the body.
abbrev pub decode : {A : Type 0} → Option A → Handling A
decode none h = (refused (sentinel invalid_input), h)
decode (some a) h = (done a, h)
