-- ===== src/Api/Refusals.antt =====
-- adapters/http/validation.go and response.go: what a request that a check refuses is answered.
use mathlib.Core.Path.{subst, sym}
use spur_messaging.Prelude.{
  not, ltb, ◌+◌, none, some, String, false, true, Bool, ◌≡◌, refl, Option, List, [], ◌∷◌, Metadata,
  is_empty, arith,
}
use spur_messaging.Prelude.Int.{ℤ}
use spur_messaging.Domain.Errors.{
  sentinel, wrapped, other, panicked, GoError, domain_error, invalid_input,
}
use spur_messaging.Domain.Message.{Time, seconds, Channel}
use spur_messaging.Calls.{Result, ok, err}
use spur_messaging.Api.Respond.{Entry, ErrorResponse, respond_error, as_domain_error}
use spur_messaging.Api.Order.{IsOrder, respond_error_lem, respond_directly, root, entry_of}
use spur_messaging.Api.Validate.{
  EmailAttachment, SegmentRule, validate_phone, validate_email, validate_tags, check_tags,
  validate_metadata, check_metadata, validate_channel, validate_idempotency_key,
  validate_template_name, validate_template_category, validate_campaign_name, validate_scheduled_at,
  validate_pagination, validate_email_template, validate_attachments, check_attachments,
  validate_segment_rules, check_operators, fits,
}

-- A check of the file and what it looks at.
pub data Check : Type 0 where
  phone_check email_check key_check name_check category_check campaign_check : String → Check
  tags_check : List String → Check
  metadata_check : Metadata → Check
  channel_check : Channel → Check
  schedule_check : Time → Option Time → Check
  page_check : ℤ → ℤ → Check
  template_check : (name subject html_body : String) → Check
  attachments_check : List EmailAttachment → Check
  rules_check : List SegmentRule → Check

abbrev forget : {A : Type 0} → Result A → Result (Unit {0})
forget (ok a) = ok tt
forget (err e) = err e

-- The check, whatever else it answers.
unfoldable pub perform : (String → String) → Check → Result (Unit {0})
perform lower (phone_check s) = forget (validate_phone s)
perform lower (email_check s) = forget (validate_email lower s)
perform lower (key_check s) = validate_idempotency_key s
perform lower (name_check s) = validate_template_name s
perform lower (category_check s) = validate_template_category s
perform lower (campaign_check s) = validate_campaign_name s
perform lower (tags_check ts) = validate_tags ts
perform lower (metadata_check m) = validate_metadata m
perform lower (channel_check c) = validate_channel c
perform lower (schedule_check now t) = validate_scheduled_at now t
perform lower (page_check p n) = forget (validate_pagination p n)
perform lower (template_check n s b) = validate_email_template n s b
perform lower (attachments_check xs) = validate_attachments xs
perform lower (rules_check rs) = validate_segment_rules rs

-- Fine, or refused with a field's name.
abbrev pub NamesField : Result (Unit {0}) → Type 0
NamesField (ok u) = Unit
NamesField (err (domain_error invalid_input message field)) = is_empty field ≡ false
NamesField (err e) = ⊥

fits_names :
    (b : Bool) (field message : String) → is_empty field ≡ false → NamesField (fits b field message)
fits_names true field message e = tt
fits_names false field message e = e

check_tags_names : (ts : List String) → NamesField (check_tags ts)
unfolding check_tags
check_tags_names [] = tt
check_tags_names (t ∷ ts) = let later = check_tags_names ts in ground arith

check_metadata_names : (m : Metadata) → NamesField (check_metadata m)
unfolding check_metadata
check_metadata_names [] = tt
check_metadata_names ((k, v) ∷ m) = let later = check_metadata_names m in ground arith

check_attachments_names : (xs : List EmailAttachment) → NamesField (check_attachments xs)
unfolding check_attachments
check_attachments_names [] = tt
check_attachments_names (x ∷ xs) = let later = check_attachments_names xs in ground arith

check_operators_names : (rs : List SegmentRule) → NamesField (check_operators rs)
unfolding check_operators
check_operators_names [] = tt
check_operators_names (r ∷ rs) = let later = check_operators_names rs in ground arith

perform_names : (lower : String → String) (c : Check) → NamesField (perform lower c)
unfolding perform validate_phone validate_email validate_idempotency_key validate_template_name
    validate_template_category validate_campaign_name validate_tags validate_metadata
    validate_channel validate_scheduled_at validate_pagination validate_email_template
    validate_attachments validate_segment_rules
perform_names lower (phone_check s) = ground arith
perform_names lower (email_check s) = ground arith
perform_names lower (key_check s) = ground arith
perform_names lower (name_check s) = ground arith
perform_names lower (category_check s) = ground arith
perform_names lower (campaign_check s) = ground arith
perform_names lower (tags_check ts) = let later = check_tags_names ts in ground arith
perform_names lower (metadata_check m) = let later = check_metadata_names m in ground arith
perform_names lower (channel_check c) = ground arith
perform_names lower (schedule_check now none) = tt
perform_names lower (schedule_check now (some t)) =
    fits_names (not (ltb t (now + seconds 300))) "scheduled_at" _ refl
perform_names lower (page_check p n) = ground arith
perform_names lower (template_check n s b) = ground arith
perform_names lower (attachments_check xs) = let later = check_attachments_names xs in ground arith
perform_names lower (rules_check rs) = let later = check_operators_names rs in ground arith

-- An INVALID_INPUT with 400 that names a field.
abbrev pub IsBadRequest : ErrorResponse → Type 0
IsBadRequest r = (r.status ≡ 400) × (r.code ≡ "INVALID_INPUT") × (is_empty r.field ≡ false)

names_lem : (e : GoError) → NamesField (err e) → IsBadRequest (respond_directly e)
unfolding as_domain_error root entry_of
names_lem (domain_error s message field) n = ground arith
names_lem (sentinel s) n = absurd n
names_lem (wrapped m e) n = absurd n
names_lem (other m) n = absurd n
names_lem (panicked m) n = absurd n

-- Whatever a check of a request refuses is answered with 400, the code INVALID_INPUT and the name of
-- a field, in whatever order the loop of `RespondError` comes to the entries of its map.
pub perform-IsBadRequest :
    (lower : String → String) (order : List Entry) (c : Check) {e : GoError}
    → IsOrder order
    → perform lower c ≡ err e
    → IsBadRequest (respond_error order e)
perform-IsBadRequest lower order c {e} o p =
    subst IsBadRequest (sym (respond_error_lem order e o))
      (names_lem e (subst NamesField p (perform_names lower c)))
