-- ===== src/Http/Contacts.antt =====
-- adapters/http/contact_handler.go.
use spur_messaging.Prelude.{
  String, Bool, false, ◌||◌, Option, none, some, is_empty, trim_space, if◌then◌else◌, length, leb,
}
use spur_messaging.Domain.Errors.{validation_error}
use spur_messaging.Domain.Message.{Uuid, Time, Channel}
use spur_messaging.Calls.{Result, ok, err}
use spur_messaging.Http.Steps.{
  Handling, Success, ◌>>=◌, ◌>>◌, lift, check, decode, ask, permitted, by_id, by_page, path_id,
  page_of, service_value, status_word, respond_ok, respond_created, query_filter,
}
use Prim.Native.Char.{code}
use spur_messaging.Prelude.{◌==◌}
use spur_messaging.Contacts.Env.{ConsentEvidence}
use spur_messaging.Identity.Permissions.{
  contacts_read, contacts_write, contacts_import, contacts_manage_consent,
}
use spur_messaging.Api.Validate.{validate_email, validate_phone, validate_tags, validate_metadata}
use spur_messaging.Http.Env.{
  Request, ConsentBody, Operation, HttpEnv, create_contact, list_contacts, update_contact,
  get_contact, delete_contact, import_contacts, opt_in_contact, confirm_contact, opt_out_contact,
  list_consents,
}

-- A field that is validated only where it is there and not empty.
unfoldable pub validate_some : (String → Result String) → Option String → Result (Option String)
validate_some validate none = ok none
validate_some validate (some s) =
    if is_empty s then ok (some s) else elim (validate s) [ ok new ↦ ok (some new) | err e ↦ err e ]

unfoldable pub validate_given :
    {A : Type 0} → (A → Result (Unit {0})) → Option A → Result (Unit {0})
validate_given validate none = ok tt
validate_given validate (some a) = validate a

abbrev pub first_text : String → String → String
first_text a b = if is_empty a then b else a

abbrev pub first_time : Option Time → Option Time → Option Time
first_time (some t) u = some t
first_time none u = u

-- The part before the first comma.
unfoldable pub before_comma : String → String
before_comma String.[] = ""
before_comma (String.◌∷◌ c s) =
    let rest = before_comma s in if code c == 44 then "" else String.◌∷◌ c rest

module _ (env : HttpEnv) (req : Request) where
  -- `CreateContact`.
  unfoldable pub handle_create_contact : Handling Success
  handle_create_contact = permitted req contacts_write (λ t. do
    body ← decode (env.decode_contact req.body)
    phone ← lift (validate_some validate_phone body.phone)
    address ← lift (validate_some (validate_email env.to_lower) body.email_address)
    lift (validate_tags body.tags)
    lift (validate_metadata body.attributes)
    answer ← ask env t (create_contact (record body { phone = phone; email_address = address }))
    respond_created (service_value answer))

  -- `ListContacts`.
  unfoldable pub handle_list_contacts : Handling Success
  unfolding page_of
  handle_list_contacts = by_page env req contacts_read (λ page per_page. list_contacts (record {
    phone = query_filter (req.query "phone");
    email_address = query_filter (req.query "email");
    tag = query_filter (req.query "tag");
    page = page;
    per_page = per_page;
  }))

  -- `GetContact`.
  unfoldable pub handle_get_contact : Handling Success
  handle_get_contact = by_id env req contacts_read get_contact service_value

  -- `UpdateContact`.
  unfoldable pub handle_update_contact : Handling Success
  handle_update_contact = permitted req contacts_write (λ t. do
    id ← path_id env req "id" "id"
    body ← decode (env.decode_contact_update req.body)
    phone ← lift (validate_some validate_phone body.phone)
    address ← lift (validate_some (validate_email env.to_lower) body.email_address)
    lift (validate_given validate_tags body.tags)
    lift (validate_given validate_metadata body.attributes)
    answer ← ask env t (update_contact id (record body { phone = phone; email_address = address }))
    respond_ok (service_value answer))

  -- `DeleteContact`.
  unfoldable pub handle_delete_contact : Handling Success
  handle_delete_contact = by_id env req contacts_write delete_contact (λ a. status_word "deleted")

  -- `BulkImport`.
  unfoldable pub handle_import_contacts : Handling Success
  handle_import_contacts = permitted req contacts_import (λ t. do
    contacts ← decode (env.decode_contacts req.body)
    check (leb (length contacts) 10_000)
        (validation_error "contacts" "bulk import limited to 10,000 contacts per request")
    answer ← ask env t (import_contacts contacts)
    respond_ok (service_value answer))

  -- `normalizeConsentEvidence`, given `clientIP(r)`.
  unfoldable pub normalize_consent_evidence :
      ConsentBody → Option Time → Bool → (client_ip : String) → ConsentEvidence
  normalize_consent_evidence body expires_at double client_ip = record body.consent {
    source = first_text body.consent.source body.source;
    purpose = first_text body.consent.purpose body.purpose;
    proof = first_text body.consent.proof body.proof;
    brand = first_text body.consent.brand body.brand;
    keyword = first_text body.consent.keyword body.keyword;
    locale = first_text body.consent.locale body.locale;
    expires_at = first_time body.consent.expires_at expires_at;
    double_opt_in_required = body.consent.double_opt_in_required || double;
    ip_address = first_text body.consent.ip_address client_ip;
    user_agent = first_text body.consent.user_agent req.user_agent;
  }

  -- What `clientIP` makes of a forwarding header that is there.
  abbrev forwarded : String → String
  forwarded value = elim (env.split_host_port value) [
    | some host ↦ host
    | none ↦ trim_space (before_comma value)
  ]

  abbrev remote_host : String
  remote_host = elim (env.split_host_port req.remote_addr) [
    | some host ↦ host
    | none ↦ req.remote_addr
  ]

  -- `clientIP`.
  unfoldable pub client_ip : String
  client_ip =
      if is_empty (req.header "X-Forwarded-For")
      then if is_empty (req.header "X-Real-IP")
        then remote_host
        else forwarded (req.header "X-Real-IP")
      else forwarded (req.header "X-Forwarded-For")

  abbrev by_consent :
      (Uuid → Channel → ConsentEvidence → Operation)
      → (ConsentBody → ConsentEvidence)
      → String
      → Handling Success
  by_consent op evidence word = permitted req contacts_manage_consent (λ t. do
    id ← path_id env req "id" "id"
    body ← decode (env.decode_consent req.body)
    answer ← ask env t (op id body.channel (evidence body))
    respond_ok (status_word word))

  -- `OptIn`.
  unfoldable pub handle_opt_in : Handling Success
  handle_opt_in =
      by_consent opt_in_contact
        (λ body.
          normalize_consent_evidence body body.expires_at body.double_opt_in_required client_ip)
        "opted_in"

  -- `ConfirmOptIn`.
  unfoldable pub handle_confirm_opt_in : Handling Success
  handle_confirm_opt_in =
      by_consent confirm_contact (λ body. normalize_consent_evidence body none false client_ip)
        "opted_in"

  -- `OptOut`.
  unfoldable pub handle_opt_out : Handling Success
  handle_opt_out =
      by_consent opt_out_contact (λ body. normalize_consent_evidence body none false client_ip)
        "opted_out"

  -- `ListConsentRecords`.
  unfoldable pub handle_list_consents : Handling Success
  unfolding page_of
  handle_list_consents = permitted req contacts_read (λ t. do
    id ← path_id env req "id" "id"
    pages ← page_of env req
    answer ← ask env t (list_consents id pages.0 pages.1)
    respond_ok (service_value answer))
