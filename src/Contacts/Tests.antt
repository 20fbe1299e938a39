-- ===== src/Contacts/Tests.antt =====
-- core/services/contact_service.go on one environment: one contact, pending by double opt-in on SMS.
use spur_messaging.Prelude.{
  join, trim_space, has_prefix, ◌+◌, String, true, false, ◌≡◌, refl, ◌⊎◌, none, some, List, [], ◌∷◌,
  str_eq, length, if◌then◌else◌,
}
use spur_messaging.Domain.Errors.{sentinel, not_found}
use spur_messaging.Domain.Message.{sms, whatsapp}
use spur_messaging.Domain.Contact.{
  Contact, pending, double_opt_in_pending, opted_in, opted_out, is_opted_in,
}
use spur_messaging.Calls.{ok, err}
use spur_messaging.Contacts.Env.{CreateContactRequest, ConsentEvidence, ContactEnv}
use spur_messaging.Contacts.Keywords.{UnicodeTables}
use spur_messaging.Contacts.Records.{is_waiting, is_opted_out}
use spur_messaging.Contacts.Service.{
  opt_in_target, opt_in, confirm_opt_in, opt_out, handle_inbound_consent_keyword,
}
use spur_messaging.Contacts.Import.{BulkImportResult, bulk_import, stored_count, bulk_import_tally}
use spur_messaging.Contacts.Consent.{
  writes_of, IsRecorded, ShowsFresh, Finds, Withdrawn, opt_in-IsRecorded, confirm_opt_in-writes,
  opt_out-IsRecorded, handle_inbound_consent_keyword_lem,
}

abbrev contact : Contact
contact = record {
  id = 1;
  tenant_id = 7;
  phone = some "+15550001";
  email_address = none;
  name = none;
  attributes = [];
  tags = [];
  opt_in_whatsapp = opted_in;
  opt_in_sms = double_opt_in_pending;
  opt_in_email = pending;
  created_at = 0;
  updated_at = 0;
}

abbrev env : ContactEnv
env = record {
  new_uuid = λ h. 11;
  clock = λ h. 100;
  get_by_id = λ h t id. ok contact;
  get_by_phone = λ h t p. if str_eq p "+15550001" then ok contact else err (sentinel not_found);
  get_by_email = λ h t a. err (sentinel not_found);
  create = λ h c. ok c;
  update = λ h c. ok c;
  update_opt_in = λ h t id c s. ok tt;
  delete = λ h t id. ok tt;
  create_consent_record = λ h r. ok tt;
  list_consent_records = λ h t id p n. ok [];
}

abbrev evidence : ConsentEvidence
evidence = record {
  source = "";
  purpose = "offers";
  proof = "";
  ip_address = "";
  user_agent = "";
  brand = "";
  keyword = "";
  locale = "";
  expires_at = some 200;
  confirmed_at = none;
  double_opt_in_required = true;
}

abbrev tables : UnicodeTables
tables = record { to_lower = λ s. s; is_mark = λ c. false; is_white = λ c. false }

opt_in-IsRecorded_example :
    Finds env 7 1 sms is_opted_in []
    ⊎ IsRecorded 7 1 sms (opt_in_target true) (opt_in env 7 1 sms evidence []).1
unfolding opt_in
opt_in-IsRecorded_example = opt_in-IsRecorded env 7 1 sms evidence [] refl

confirm_opt_in-writes_example :
    (writes_of (confirm_opt_in env 7 1 sms evidence []).1 ≡ [])
    ⊎ ((writes_of (confirm_opt_in env 7 1 sms evidence []).1 ≡ (7, 1, sms, opted_in) ∷ [])
        × Finds env 7 1 sms is_waiting []
        × ShowsFresh 7 1 sms (confirm_opt_in env 7 1 sms evidence []).1)
confirm_opt_in-writes_example = confirm_opt_in-writes env 7 1 sms evidence []

opt_out-IsRecorded_example :
    Finds env 7 1 sms is_opted_out []
    ⊎ IsRecorded 7 1 sms opted_out (opt_out env 7 1 sms evidence []).1
unfolding opt_out
opt_out-IsRecorded_example = opt_out-IsRecorded env 7 1 sms evidence [] refl

handle_inbound_consent_keyword_example :
    Withdrawn env 7 whatsapp "15550001" []
      (handle_inbound_consent_keyword env 7 tables whatsapp "15550001" " stop " evidence []).1
unfolding handle_inbound_consent_keyword join trim_space has_prefix
handle_inbound_consent_keyword_example =
    handle_inbound_consent_keyword_lem env 7 tables whatsapp "15550001" " stop " evidence [] refl

abbrev row_with : String → CreateContactRequest
row_with phone = record {
  phone = some phone;
  email_address = none;
  name = none;
  attributes = [];
  tags = [];
}

-- A duplicate, a number that is none, and a new contact.
abbrev rows : List CreateContactRequest
rows = row_with "+15550001" ∷ row_with "555" ∷ row_with "+15550002" ∷ []

bulk_import_tally_example :
    (r : BulkImportResult) × ((bulk_import env 7 rows []).0 ≡ ok r)
    × (r.total ≡ length rows)
    × (r.imported + r.duplicates + length r.errors ≡ r.total)
    × (stored_count (bulk_import env 7 rows []).1 ≡ r.imported + 0)
bulk_import_tally_example = bulk_import_tally env 7 rows []
