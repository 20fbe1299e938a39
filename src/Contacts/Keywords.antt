-- ===== src/Contacts/Keywords.antt =====
-- core/domain/consent_keywords.go (the Arabic words by code point): the replies by which a contact gives or withdraws consent.
use Prim.Native.Char.{code}
use spur_messaging.Prelude.{
  ℕ, String, Bool, true, false, ◌&&◌, List, [], ◌∷◌, is_empty, str_eq, if◌then◌else◌, trim_space,
  join,
}

pub data ConsentKeywordAction : Type 0 where
  unknown_keyword opt_in_keyword opt_out_keyword : ConsentKeywordAction

-- Go's Unicode tables: `strings.ToLower`, and `IsPunct`, `IsSymbol` or `IsSpace` of a character.
pub record UnicodeTables : Type 0 where
  pub to_lower : String → String
  pub is_mark : ℕ → Bool
  pub is_white : ℕ → Bool

abbrev pub is_one_of : String → List String → Bool
is_one_of s [] = false
is_one_of s (k ∷ ks) = if str_eq s k then true else is_one_of s ks

abbrev pub opt_out_keywords : List String
opt_out_keywords =
    "stop" ∷ "unsubscribe" ∷ "cancel" ∷ "end" ∷ "quit" ∷ "opt out" ∷ "opt-out" ∷ "no" ∷ "बंद"
    ∷ "रोक" ∷ "रोकें" ∷ "बंद करो" ∷ "सदस्यता रद्द" ∷ "\u{62a}\u{648}\u{642}\u{641}"
    ∷ "\u{627}\u{644}\u{63a}\u{627}\u{621}" ∷ "\u{625}\u{644}\u{63a}\u{627}\u{621}"
    ∷ "\u{625}\u{644}\u{63a}\u{627}\u{621} \u{627}\u{644}\u{627}\u{634}\u{62a}\u{631}\u{627}\u{643}"
    ∷ "\u{627}\u{644}\u{63a}\u{627}\u{621} \u{627}\u{644}\u{627}\u{634}\u{62a}\u{631}\u{627}\u{643}"
    ∷ "\u{644}\u{627}" ∷ []

abbrev pub opt_in_keywords : List String
opt_in_keywords =
    "start" ∷ "subscribe" ∷ "yes" ∷ "y" ∷ "opt in" ∷ "opt-in" ∷ "हाँ" ∷ "हा" ∷ "शुरू"
    ∷ "\u{646}\u{639}\u{645}" ∷ "\u{627}\u{634}\u{62a}\u{631}\u{643}"
    ∷ "\u{627}\u{628}\u{62f}\u{623}" ∷ []

trim_left_by : (ℕ → Bool) → String → String
trim_left_by p String.[] = String.[]
trim_left_by p (String.◌∷◌ c s) =
    let rest = trim_left_by p s in if p (code c) then rest else String.◌∷◌ c s

trim_right_by : (ℕ → Bool) → String → String
trim_right_by p String.[] = String.[]
trim_right_by p (String.◌∷◌ c s) =
    let rest = trim_right_by p s in
    if is_empty rest && p (code c) then String.[] else String.◌∷◌ c rest

-- The word at the front of the text, and the words behind it.
split_words : (ℕ → Bool) → String → String × List String
split_words p String.[] = ("", [])
split_words p (String.◌∷◌ c s) =
    let (word, later) = split_words p s in
    if p (code c)
    then ("", if is_empty word then later else word ∷ later)
    else (String.◌∷◌ c word, later)

-- `strings.Fields`.
abbrev fields : (ℕ → Bool) → String → List String
fields p s = let (word, later) = split_words p s in if is_empty word then later else word ∷ later

module _ (tables : UnicodeTables) where
  -- `normalizeConsentKeyword`.
  unfoldable pub normalize_consent_keyword : String → String
  unfolding trim_left_by trim_right_by split_words
  normalize_consent_keyword text =
      let lowered = trim_space (tables.to_lower text) in
      let trimmed = trim_right_by tables.is_mark (trim_left_by tables.is_mark lowered) in
      join " " (fields tables.is_white trimmed)

  -- `DetectConsentKeyword`.
  unfoldable pub detect_consent_keyword : String → ConsentKeywordAction
  unfolding normalize_consent_keyword
  detect_consent_keyword text =
      let normalized = normalize_consent_keyword text in
      if is_empty normalized
      then unknown_keyword
      else if is_one_of normalized opt_out_keywords
      then opt_out_keyword
      else if is_one_of normalized opt_in_keywords
      then opt_in_keyword
      else unknown_keyword
