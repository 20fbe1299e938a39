-- ===== src/Api/Validate/Text.antt =====
-- adapters/http/validation.go: the patterns that texts are matched with.
use Prim.Native.Char.{code}
use spur_messaging.Prelude.{ℕ, String, Bool, true, false, ◌&&◌, ◌||◌, ◌==◌, length, leb, characters}
use spur_messaging.Domain.Errors.{validation_error}
use spur_messaging.Calls.{Result, ok, err}
use spur_messaging.Message.Email.{bytes}

-- `len(s)`.
unfoldable pub len : String → ℕ
unfolding bytes
len s = length (bytes s)

abbrev pub is_digit : ℕ → Bool
is_digit c = leb 48 c && leb c 57

abbrev pub is_lower : ℕ → Bool
is_lower c = leb 97 c && leb c 122

abbrev pub is_upper : ℕ → Bool
is_upper c = leb 65 c && leb c 90

abbrev pub is_letter : ℕ → Bool
is_letter c = is_lower c || is_upper c

-- Every character passes.
unfoldable pub all_chars : (ℕ → Bool) → String → Bool
all_chars p String.[] = true
all_chars p (String.◌∷◌ c s) = p (code c) && all_chars p s

-- `[a-zA-Z0-9._%+-]`.
abbrev pub is_local : ℕ → Bool
is_local c =
    is_letter c || is_digit c || (c == 46) || (c == 95) || (c == 37) || (c == 43) || (c == 45)

-- `[a-zA-Z0-9.-]`.
abbrev pub is_domain : ℕ → Bool
is_domain c = is_letter c || is_digit c || (c == 46) || (c == 45)

-- `[a-zA-Z]{2,}$`.
unfoldable pub matches_end : String → Bool
unfolding all_chars characters
matches_end s = all_chars is_letter s && leb 2 (characters s)

-- `[a-zA-Z0-9.-]+\.[a-zA-Z]{2,}$`, where the flag says that the first part has a character.
unfoldable pub matches_domain : Bool → String → Bool
unfolding matches_end
matches_domain begun String.[] = false
matches_domain begun (String.◌∷◌ c s) =
    let longer = matches_domain true s in
    (begun && (code c == 46) && matches_end s) || (is_domain (code c) && longer)

-- `^[a-zA-Z0-9._%+-]+@` and what follows.
unfoldable pub matches_email : Bool → String → Bool
unfolding matches_domain
matches_email begun String.[] = false
matches_email begun (String.◌∷◌ c s) =
    let longer = matches_email true s in
    (begun && (code c == 64) && matches_domain false s) || (is_local (code c) && longer)

abbrev pub fits : Bool → String → String → Result (Unit {0})
fits true field message = ok tt
fits false field message = err (validation_error field message)

abbrev pub returns : {A : Type 0} → A → Result (Unit {0}) → Result A
returns a (ok u) = ok a
returns a (err e) = err e

abbrev pub and_then : Result (Unit {0}) → Result (Unit {0}) → Result (Unit {0})
and_then (ok u) r = r
and_then (err e) r = err e
