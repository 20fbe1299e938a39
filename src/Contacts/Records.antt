-- ===== src/Contacts/Records.antt =====
-- core/services/contact_service.go: the helpers of `ContactService` that call nothing.
use Prim.Native.Char.{code}
use spur_messaging.Prelude.{
  String, Bool, true, false, ◌&&◌, Option, none, some, List, [], ◌∷◌, is_empty, str_eq,
  if◌then◌else◌, leb, ltb, ◌==◌, characters,
}
use spur_messaging.Domain.Errors.{validation_error}
use spur_messaging.Domain.Message.{Uuid, Time, Channel, whatsapp, sms, email, other_channel}
use spur_messaging.Domain.Contact.{OptInStatus, pending, double_opt_in_pending, opted_out, Contact}
use spur_messaging.Calls.{Result, ok, err}
use spur_messaging.Contacts.Env.{
  CreateContactRequest, UpdateContactRequest, ConsentEvidence, ConsentRecord,
}

-- `contactOptInStatus`.
abbrev pub contact_opt_in_status : Contact → Channel → Result OptInStatus
contact_opt_in_status c whatsapp = ok c.opt_in_whatsapp
contact_opt_in_status c sms = ok c.opt_in_sms
contact_opt_in_status c email = ok c.opt_in_email
contact_opt_in_status c (other_channel s) =
    err (validation_error "channel" "channel must be whatsapp, sms, or email")

abbrev pub is_opted_out : OptInStatus → Bool
is_opted_out opted_out = true
is_opted_out _ = false

abbrev pub is_double_pending : OptInStatus → Bool
is_double_pending double_opt_in_pending = true
is_double_pending _ = false

-- The statuses that a confirmation may follow.
abbrev pub is_waiting : OptInStatus → Bool
is_waiting double_opt_in_pending = true
is_waiting pending = true
is_waiting _ = false

abbrev pub channel_eq : Channel → Channel → Bool
channel_eq whatsapp whatsapp = true
channel_eq sms sms = true
channel_eq email email = true
channel_eq (other_channel s) (other_channel t) = str_eq s t
channel_eq _ _ = false

-- `t != nil && t.Before(now)`.
abbrev pub is_before : Option Time → Time → Bool
is_before none now = false
is_before (some t) now = ltb t now

-- `buildConsentRecord`.
abbrev pub build_consent_record :
    Uuid → Uuid → Channel → OptInStatus → ConsentEvidence → Uuid → Time → ConsentRecord
build_consent_record tenant_id contact_id channel status evidence id now = record {
  id = id;
  tenant_id = tenant_id;
  contact_id = contact_id;
  channel = channel;
  status = status;
  source = if is_empty evidence.source then "manual" else evidence.source;
  purpose = evidence.purpose;
  proof = evidence.proof;
  ip_address = evidence.ip_address;
  user_agent = evidence.user_agent;
  brand = evidence.brand;
  keyword = evidence.keyword;
  locale = evidence.locale;
  expires_at = evidence.expires_at;
  confirmed_at = evidence.confirmed_at;
  created_at = now;
}

-- The loop of `pendingConsentExpired`: the first record of a pending double opt-in decides.
unfoldable pub first_pending_expired : Channel → Time → List ConsentRecord → Bool
first_pending_expired channel now [] = false
first_pending_expired channel now (r ∷ rs) =
    let later = first_pending_expired channel now rs in
    if channel_eq r.channel channel && is_double_pending r.status
    then is_before r.expires_at now
    else later

-- The literal of `Create` and of `BulkImport`.
abbrev pub new_contact : Uuid → CreateContactRequest → Uuid → Time → Time → Contact
new_contact tenant_id req id created_at updated_at = record {
  id = id;
  tenant_id = tenant_id;
  phone = req.phone;
  email_address = req.email_address;
  name = req.name;
  attributes = req.attributes;
  tags = req.tags;
  opt_in_whatsapp = pending;
  opt_in_sms = pending;
  opt_in_email = pending;
  created_at = created_at;
  updated_at = updated_at;
}

abbrev pub some_or {ℓ} : {A : Type ℓ} → Option A → A → A
some_or none d = d
some_or (some a) d = a

abbrev pub first_of {ℓ} : {A : Type ℓ} → Option A → Option A → Option A
first_of none d = d
first_of (some a) d = some a

-- The fields that `Update` replaces.
abbrev pub apply_update : UpdateContactRequest → Time → Contact → Contact
apply_update req now c = record c {
  phone = first_of req.phone c.phone;
  email_address = first_of req.email_address c.email_address;
  name = first_of req.name c.name;
  attributes = some_or req.attributes c.attributes;
  tags = some_or req.tags c.tags;
  updated_at = now;
}

unfoldable pub all_digits : String → Bool
all_digits String.[] = true
all_digits (String.◌∷◌ c s) = leb 48 (code c) && leb (code c) 57 && all_digits s

-- The pattern `^\+[1-9]\d{6,14}$`.
unfoldable pub is_e164 : String → Bool
unfolding all_digits characters
is_e164 (String.◌∷◌ c (String.◌∷◌ d s)) =
    (code c == 43)
    && leb 49 (code d)
    && leb (code d) 57
    && all_digits s
    && leb 6 (characters s)
    && leb (characters s) 14
is_e164 _ = false
