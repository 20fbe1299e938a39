-- ===== src/Api/Validate.antt =====
-- adapters/http/validation.go: the checks of what a request holds.
pub mod Text
unfoldable pub use spur_messaging.Api.Validate.Text.{len}
pub use spur_messaging.Api.Validate.Text.{
  is_digit, is_lower, is_upper, is_letter, all_chars, is_local, is_domain, matches_end,
  matches_domain, matches_email, fits, returns, and_then,
}
use Prim.Native.Char.{code}
use spur_messaging.Prelude.{
  ℕ, ◌+◌, String, Bool, true, false, not, ◌&&◌, ◌||◌, ◌==◌, Option, none, some, List, [], ◌∷◌,
  Metadata, length, is_empty, str_eq, leb, ltb, if◌then◌else◌, characters, replace_all,
}
use spur_messaging.Prelude.Int.{ℤ, pos, ltb_ℤ}
use spur_messaging.Domain.Errors.{validation_error}
use spur_messaging.Domain.Message.{Time, Channel, other_channel, seconds}
use spur_messaging.Calls.{Result, ok, err}
use spur_messaging.Message.Email.{bytes}
use spur_messaging.Contacts.Records.{is_e164}

-- The phone number without blanks, hyphens and parentheses.
unfoldable pub strip_phone : String → String
unfolding replace_all
strip_phone s = replace_all (replace_all (replace_all (replace_all s " " "") "-" "") "(" "") ")" ""

-- `validatePhone`.
unfoldable pub validate_phone : String → Result String
unfolding strip_phone is_e164
validate_phone phone =
    returns (strip_phone phone)
      (fits (is_e164 (strip_phone phone)) "phone" "phone must be E.164 format (e.g. +919810914244)")

module _ (to_lower : String → String) where
  -- `validateEmail`, given `strings.ToLower`.
  unfoldable pub validate_email : String → Result String
  unfolding len matches_email
  validate_email address = returns (to_lower address) (
      and_then (fits (leb (len address) 254) "email" "invalid email address")
        (fits (matches_email false address) "email" "invalid email address"))

unfoldable pub check_tags : List String → Result (Unit {0})
unfolding len
check_tags [] = ok tt
check_tags (t ∷ ts) =
    and_then (fits (leb (len t) 50) "tags" "max 10 tags allowed, each max 50 chars") (check_tags ts)

-- `validateTags`.
unfoldable pub validate_tags : List String → Result (Unit {0})
unfolding check_tags
validate_tags tags =
    and_then (fits (leb (length tags) 10) "tags" "max 10 tags allowed, each max 50 chars")
      (check_tags tags)

unfoldable pub check_metadata : Metadata → Result (Unit {0})
unfolding len
check_metadata [] = ok tt
check_metadata ((k, v) ∷ m) =
    and_then
      (fits (leb (len k) 50 && leb (len v) 500) "metadata"
        "metadata: max 20 keys, key max 50, value max 500 chars")
      (check_metadata m)

-- `validateMetadata`; whichever key the loop comes to first, the error is the same.
unfoldable pub validate_metadata : Metadata → Result (Unit {0})
unfolding check_metadata
validate_metadata metadata =
    and_then
      (fits (leb (length metadata) 20) "metadata"
        "metadata: max 20 keys, key max 50, value max 500 chars")
      (check_metadata metadata)

-- `validateChannel`.
unfoldable pub validate_channel : Channel → Result (Unit {0})
validate_channel (other_channel s) =
    err (validation_error "channel" "channel must be whatsapp, sms, or email")
validate_channel c = ok tt

-- `[A-Za-z0-9._:-]`.
abbrev pub is_key_char : ℕ → Bool
is_key_char c = is_letter c || is_digit c || (c == 46) || (c == 95) || (c == 58) || (c == 45)

-- `validateIdempotencyKey`.
unfoldable pub validate_idempotency_key : String → Result (Unit {0})
unfolding len all_chars
validate_idempotency_key key =
    if is_empty key
    then ok tt
    else and_then
        (fits (leb 8 (len key) && leb (len key) 128) "idempotency_key"
          "idempotency key must be between 8 and 128 characters")
        (fits (all_chars is_key_char key) "idempotency_key"
          "idempotency key may contain letters, numbers, dots, underscores, colons, and hyphens")

abbrev pub is_name_char : ℕ → Bool
is_name_char c = is_lower c || is_digit c || (c == 95)

-- `validateTemplateName`.
unfoldable pub validate_template_name : String → Result (Unit {0})
unfolding len all_chars
validate_template_name name =
    and_then
      (fits (leb 1 (len name) && leb (len name) 512) "name"
        "template name must be lowercase alphanumeric with underscores")
      (fits (all_chars is_name_char name) "name"
        "template name must be lowercase alphanumeric with underscores")

-- `validateTemplateCategory`.
unfoldable pub validate_template_category : String → Result (Unit {0})
validate_template_category cat =
    fits (str_eq cat "marketing" || str_eq cat "utility" || str_eq cat "authentication") "category"
      "category must be marketing, utility, or authentication"

-- `validateCampaignName`.
unfoldable pub validate_campaign_name : String → Result (Unit {0})
unfolding len
validate_campaign_name name =
    fits (leb 1 (len name) && leb (len name) 255) "name" "campaign name is required (max 255 chars)"

-- `validateScheduledAt` at a time.
unfoldable pub validate_scheduled_at : Time → Option Time → Result (Unit {0})
validate_scheduled_at now none = ok tt
validate_scheduled_at now (some t) =
    fits (not (ltb t (now + seconds 300))) "scheduled_at"
      "scheduled_at must be at least 5 minutes in the future"

-- `validatePagination`.
unfoldable pub validate_pagination : ℤ → ℤ → Result (ℤ × ℤ)
validate_pagination page per_page =
    returns (page, per_page)
      (and_then (fits (not (ltb_ℤ page (pos 1))) "page" "page must be >= 1") (
        fits (not (ltb_ℤ per_page (pos 1) || ltb_ℤ (pos 100) per_page)) "per_page"
          "per_page must be between 1 and 100"))

-- `validateEmailTemplate`.
unfoldable pub validate_email_template : (name subject html_body : String) → Result (Unit {0})
unfolding len
validate_email_template name subject html_body =
    and_then (fits (not (is_empty name)) "name" "template name is required") (
      and_then
        (fits (leb 1 (len subject) && leb (len subject) 998) "subject"
          "subject is required (max 998 chars)")
        (and_then (fits (leb 1 (len html_body)) "html_body" "html_body is required (max 5MB)")
          (fits (leb (len html_body) 5_242_880) "html_body" "html_body is required (max 5MB)")))

pub record EmailAttachment : Type 0 where
  pub filename : String
  pub content_type : String
  pub content : String
  pub content_id : String

unfoldable pub check_attachments : List EmailAttachment → Result (Unit {0})
unfolding len
check_attachments [] = ok tt
check_attachments (a ∷ later) =
    and_then (fits (leb (len a.content) 13_981_013) "attachment" "attachment exceeds 10MB limit") (
      and_then
        (fits (not (is_empty a.content_type)) "content_type"
          "content_type must be a valid MIME type")
        (check_attachments later))

-- `validateAttachments`; the limit is the constant 10*1024*1024*4/3.
unfoldable pub validate_attachments : List EmailAttachment → Result (Unit {0})
unfolding check_attachments
validate_attachments attachments =
    and_then (fits (leb (length attachments) 10) "attachments" "max 10 attachments allowed")
      (check_attachments attachments)

pub record SegmentRule : Type 0 where
  pub field : String
  pub operator : String
  pub value : String

abbrev pub is_valid_op : String → Bool
is_valid_op op =
    str_eq op "eq"
    || str_eq op "neq"
    || str_eq op "contains"
    || str_eq op "gt"
    || str_eq op "lt"
    || str_eq op "in"

unfoldable pub check_operators : List SegmentRule → Result (Unit {0})
check_operators [] = ok tt
check_operators (r ∷ rules) =
    and_then
      (fits (is_valid_op r.operator) "operator" "operator must be: eq, neq, contains, gt, lt, in")
      (check_operators rules)

-- `validateSegmentRules`.
unfoldable pub validate_segment_rules : List SegmentRule → Result (Unit {0})
unfolding check_operators
validate_segment_rules rules =
    and_then (fits (leb (length rules) 10) "rules" "max 10 rules per segment")
      (check_operators rules)
