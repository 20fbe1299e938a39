-- ===== src/Prelude/Text.antt =====
-- Go's strings: `strings.TrimSpace`, `len`, and `map[string]string` as an association list.
use Prim.Native.Nat.{ℕ, zero, suc, ◌-◌}
use Prim.Native.Char.{Char, code}
use Prim.Native.String.{String}
use text.Mathlib.Text.{◌==◌}
use text.Mathlib.TextEquality.{eq_iff}
use mathlib.Core.Path.{◌≡◌, refl}
use mathlib.Core.Bool.{Bool, true, false, not, ◌&&◌, ◌||◌}
use mathlib.Core.Option.{Option, none, some}
use mathlib.Core.List.{List, [], ◌∷◌}
use native.Mathlib.Omega.{arith}
use spur_messaging.Prelude.Tests.{leb, ◌==◌ as nat_eq, if◌then◌else◌}

abbrev pub str_eq : String → String → Bool
str_eq s t = s == t

pub str_eq_iff : (s t : String) → (str_eq s t ≡ true → s ≡ t) × (s ≡ t → str_eq s t ≡ true)
str_eq_iff s t = ((eq_iff s t).0, (eq_iff s t).1)

abbrev pub is_empty : String → Bool
is_empty String.[] = true
is_empty (String.◌∷◌ c s) = false

-- `unicode.IsSpace`: the Latin-1 white space, and the Unicode property White_Space above it.
pub is_space : ℕ → Bool
is_space c =
    (leb 9 c && leb c 13)
    || nat_eq c 0x20
    || nat_eq c 0x85
    || nat_eq c 0xa0
    || nat_eq c 0x1680
    || (leb 0x2000 c && leb c 0x200a)
    || nat_eq c 0x2028
    || nat_eq c 0x2029
    || nat_eq c 0x202f
    || nat_eq c 0x205f
    || nat_eq c 0x3000

pub trim_left : String → String
trim_left String.[] = String.[]
trim_left (String.◌∷◌ c s) =
    let rest = trim_left s in if is_space (code c) then rest else String.◌∷◌ c s

pub trim_right : String → String
trim_right String.[] = String.[]
trim_right (String.◌∷◌ c s) =
    let rest = trim_right s in
    if is_empty rest && is_space (code c) then String.[] else String.◌∷◌ c rest

-- `strings.TrimSpace`.
unfoldable pub trim_space : String → String
unfolding trim_left trim_right is_space
trim_space s = trim_right (trim_left s)

-- `map[string]string`.
abbrev pub Metadata : Type 0
Metadata = List (String × String)

-- `m[k]`, which is the empty string where the key is missing.
unfoldable pub get_key : String → Metadata → String
get_key k [] = ""
get_key k ((j, v) ∷ m) = if str_eq j k then v else get_key k m

-- `m[k] = v`.
unfoldable pub set_key : String → String → Metadata → Metadata
set_key k v [] = (k, v) ∷ []
set_key k v ((j, w) ∷ m) = if str_eq j k then (k, v) ∷ m else (j, w) ∷ set_key k v m

pub get_key-set_key :
    (k j v : String) (m : Metadata)
    → get_key j (set_key k v m) ≡ (if str_eq k j then v else get_key j m)
unfolding get_key set_key
get_key-set_key k j v [] = refl
get_key-set_key k j v ((i, w) ∷ m) =
    ground (arith, str_eq_iff k j, str_eq_iff i k, str_eq_iff i j, get_key-set_key k j v m)

pub trim_right-trim_right : (s : String) → trim_right (trim_right s) ≡ trim_right s
unfolding trim_right
trim_right-trim_right String.[] = refl
trim_right-trim_right (String.◌∷◌ c s) = ground (arith, trim_right-trim_right s)

-- Go's `+` on strings.
unfoldable pub append : String → String → String
append String.[] t = t
append (String.◌∷◌ c s) t = String.◌∷◌ c (append s t)

unfoldable pub concat : List String → String
unfolding append
concat [] = ""
concat (s ∷ ss) = append s (concat ss)

split_from : ℕ → String → String × List String
split_from sep String.[] = ("", [])
split_from sep (String.◌∷◌ c s) =
    let (part, parts) = split_from sep s in
    if nat_eq (code c) sep then ("", part ∷ parts) else (String.◌∷◌ c part, parts)

-- `strings.Split` at a separator of one character.
unfoldable pub split_on : ℕ → String → List String
unfolding split_from
split_on sep s = let (part, parts) = split_from sep s in part ∷ parts

-- `strings.CutPrefix`: what follows the prefix, where the text begins with it.
unfoldable pub cut_prefix : String → String → Option String
cut_prefix String.[] s = some s
cut_prefix (String.◌∷◌ p ps) String.[] = none
cut_prefix (String.◌∷◌ p ps) (String.◌∷◌ c s) =
    let rest = cut_prefix ps s in if nat_eq (code p) (code c) then rest else none

unfoldable pub has_prefix : String → String → Bool
unfolding cut_prefix
has_prefix p s = elim (cut_prefix p s) [ some rest ↦ true | none ↦ false ]

-- `strings.Contains(s, sub)`.
unfoldable pub contains : String → String → Bool
unfolding has_prefix
contains String.[] sub = is_empty sub
contains (String.◌∷◌ c s) sub = has_prefix sub (String.◌∷◌ c s) || contains s sub

-- `strings.Replace(s, old, new, 1)`.
unfoldable pub replace_first : String → String → String → String
unfolding cut_prefix append
replace_first String.[] old new = if is_empty old then new else String.[]
replace_first (String.◌∷◌ c s) old new =
    let later = String.◌∷◌ c (replace_first s old new) in
    elim (cut_prefix old (String.◌∷◌ c s)) [ some rest ↦ append new rest | none ↦ later ]

unfoldable pub characters : String → ℕ
characters String.[] = 0
characters (String.◌∷◌ c s) = suc (characters s)

-- `strings.ReplaceAll(s, old, new)` for an `old` that is not empty: from left to right, where the
-- number counts the characters of a match that are still to be passed over.
replace_from : String → String → ℕ → String → String
replace_from old new skip String.[] = String.[]
replace_from old new (suc skip) (String.◌∷◌ c s) = replace_from old new skip s
replace_from old new zero (String.◌∷◌ c s) = elim (has_prefix old (String.◌∷◌ c s)) [
  | true ↦ append new (replace_from old new (characters old - 1) s)
  | false ↦ String.◌∷◌ c (replace_from old new 0 s)
]

unfoldable pub replace_all : String → String → String → String
unfolding replace_from has_prefix append characters
replace_all s old new = replace_from old new 0 s

-- `strings.Join(parts, sep)`.
unfoldable pub join : String → List String → String
unfolding append
join sep [] = ""
join sep (s ∷ []) = s
join sep (s ∷ t ∷ ts) = append s (append sep (join sep (t ∷ ts)))

-- A pointer to text, read as its text, with the empty text for `nil`.
abbrev pub deref : Option String → String
deref none = ""
deref (some s) = s

-- No character has the code.
unfoldable pub lacks : ℕ → String → Bool
lacks n String.[] = true
lacks n (String.◌∷◌ c s) = not (nat_eq n (code c)) && lacks n s

-- Replacing a character that does not occur changes nothing.
pub replace_all_lem :
    (d : Char) (new s : String)
    → lacks (code d) s ≡ true
    → replace_all s (String.◌∷◌ d String.[]) new ≡ s
unfolding replace_all replace_from has_prefix cut_prefix lacks
replace_all_lem d new String.[] e = refl
replace_all_lem d new (String.◌∷◌ c s) e = ground (arith, replace_all_lem d new s)
