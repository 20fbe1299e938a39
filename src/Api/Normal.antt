-- ===== src/Api/Normal.antt =====
-- adapters/http/validation.go: what the checks let through.
use mathlib.Core.Path.{subst}
use spur_messaging.Prelude.{
  ℕ, ◌<◌, String, true, ◌≡◌, refl, arith, ◌≤◌, lacks, replace_all_lem, inl, inr, ◌⊎◌,
}
use spur_messaging.Prelude.Int.{ℤ, pos, negsuc}
use spur_messaging.Calls.{ok}
use spur_messaging.Contacts.Records.{is_e164, all_digits}
use spur_messaging.Api.Validate.{validate_phone, strip_phone, validate_pagination}

all_digits-lacks : (n : ℕ) (s : String) → n < 48 → all_digits s ≡ true → lacks n s ≡ true
unfolding all_digits lacks
all_digits-lacks n String.[] low e = refl
all_digits-lacks n (String.◌∷◌ c s) low e = ground (arith, all_digits-lacks n s low)

-- A number in E.164 form has none of the characters that are taken out.
is_e164-lacks :
    (n : ℕ) (s : String) → n < 43 ⊎ ((43 < n) × (n < 48)) → is_e164 s ≡ true → lacks n s ≡ true
unfolding is_e164 lacks
is_e164-lacks n String.[] low e = refl
is_e164-lacks n (String.◌∷◌ c String.[]) low e = ground arith
is_e164-lacks n (String.◌∷◌ c (String.◌∷◌ d s)) low e =
    ground (arith, all_digits-lacks n s (ground arith))

strip_phone_lem : (s : String) → is_e164 s ≡ true → strip_phone s ≡ s
unfolding strip_phone
strip_phone_lem s e =
    let blank = replace_all_lem " " "" s (is_e164-lacks 32 s (inl (omega arith)) e) in
    let hyphen = replace_all_lem "-" "" s (is_e164-lacks 45 s (inr (omega arith, omega arith)) e) in
    let left = replace_all_lem "(" "" s (is_e164-lacks 40 s (inl (omega arith)) e) in
    let right = replace_all_lem ")" "" s (is_e164-lacks 41 s (inl (omega arith)) e) in
    rw (blank, hyphen, left, right) refl

-- A phone number that is accepted is answered in E.164 form, and that form is accepted as it is.
pub validate_phone_lem :
    (s : String) {p : String}
    → validate_phone s ≡ ok p
    → (is_e164 p ≡ true) × (validate_phone p ≡ ok p)
unfolding validate_phone
validate_phone_lem s {p} e =
    let fine : (is_e164 (strip_phone s) ≡ true) × (strip_phone s ≡ p) = ground arith in
    let good = subst (λ x. is_e164 x ≡ true) fine.1 fine.0 in
    (good, rw (strip_phone_lem p good, good) refl)

-- A page that is accepted is the one asked for; it is at least 1 and has between 1 and 100 entries.
pub validate_pagination_bounds :
    (page per_page : ℤ) {p n : ℤ}
    → validate_pagination page per_page ≡ ok (p, n)
    → (p ≡ page)
      × (n ≡ per_page)
      × ((k : ℕ) × (m : ℕ) × (p ≡ pos k) × (n ≡ pos m) × (1 ≤ k) × (1 ≤ m) × (m ≤ 100))
unfolding validate_pagination
validate_pagination_bounds (pos a) (pos b) e = (
  ground arith,
  ground arith,
  (a, b, ground arith, ground arith, ground arith, ground arith, ground arith),
)
validate_pagination_bounds (negsuc a) b e = ground arith
validate_pagination_bounds (pos a) (negsuc b) e = ground arith
