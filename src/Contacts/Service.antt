-- ===== src/Contacts/Service.antt =====
-- core/services/contact_service.go: `ContactService` but for its import.
use spur_messaging.Prelude.{
  String, Bool, true, false, not, ◌&&◌, Option, none, some, List, is_empty, str_eq, if◌then◌else◌,
  ltb, has_prefix, trim_space, append, deref,
}
use spur_messaging.Prelude.Int.{ℤ, pos, ltb_ℤ, pos_part}
use spur_messaging.Domain.Errors.{validation_error, conflict_error}
use spur_messaging.Domain.Message.{Uuid, Time, Channel, email, other_channel}
use spur_messaging.Domain.Contact.{
  OptInStatus, double_opt_in_pending, opted_in, opted_out, is_opted_in, Contact,
}
use spur_messaging.Calls.{Result, ok, err, Op, pure, fail, ◌>>=◌, ◌>>◌, call, draw, attempt, guard}
use spur_messaging.Contacts.Env.{
  CreateContactRequest, UpdateContactRequest, ConsentEvidence, ConsentRecord, ContactCall,
  ContactEnv, ContactHistory, drew_id, read_clock, asked_contact, asked_phone, asked_address,
  created_contact, updated_contact, updated_opt_in, created_record, listed_records, deleted_contact,
}
use spur_messaging.Contacts.Keywords.{
  ConsentKeywordAction, unknown_keyword, opt_in_keyword, opt_out_keyword, UnicodeTables,
  detect_consent_keyword,
}
use spur_messaging.Contacts.Records.{
  contact_opt_in_status, is_opted_out, is_waiting, build_consent_record, first_pending_expired,
  new_contact, apply_update,
}

-- The status that an opt-in comes to.
abbrev pub opt_in_target : Bool → OptInStatus
opt_in_target true = double_opt_in_pending
opt_in_target false = opted_in

-- Whether the new text is there and is not the one on record.
abbrev pub is_changed : Option String → Option String → Bool
is_changed none old = false
is_changed (some new) none = not (is_empty new)
is_changed (some new) (some old) = not (is_empty new) && not (str_eq new old)

abbrev pub confirmed : ConsentEvidence → Time → ConsentEvidence
confirmed consent now = record consent {
  double_opt_in_required = false;
  confirmed_at = some now;
  source = if is_empty consent.source then "double_opt_in_confirmed" else consent.source;
}

module _ (env : ContactEnv) (tenant_id : Uuid) where
  abbrev pub get_by_id : Uuid → Op ContactCall Contact
  get_by_id id = call (λ h. env.get_by_id h tenant_id id) (asked_contact tenant_id id)

  abbrev pub get_by_phone : String → Op ContactCall Contact
  get_by_phone phone = call (λ h. env.get_by_phone h tenant_id phone) (asked_phone tenant_id phone)

  abbrev pub get_by_email : String → Op ContactCall Contact
  get_by_email address =
      call (λ h. env.get_by_email h tenant_id address) (asked_address tenant_id address)

  -- `Delete`.
  unfoldable pub delete_contact : Uuid → Op ContactCall (Unit {0})
  delete_contact id = call (λ h. env.delete h tenant_id id) (deleted_contact tenant_id id)

  -- Whether a number or an address is wanted and someone has it; a failed lookup counts as no.
  unfoldable pub phone_is_taken : Bool → String → Op ContactCall Bool
  phone_is_taken wanted phone =
      if wanted
      then (do
        found ← attempt (get_by_phone phone)
        elim found [ ok contact ↦ pure true | err e ↦ pure false ])
      else pure false

  unfoldable pub email_is_taken : Bool → String → Op ContactCall Bool
  email_is_taken wanted address =
      if wanted
      then (do
        found ← attempt (get_by_email address)
        elim found [ ok contact ↦ pure true | err e ↦ pure false ])
      else pure false

  abbrev pub insert_contact : CreateContactRequest → Op ContactCall Contact
  insert_contact req = do
    id ← draw env.new_uuid drew_id
    created_at ← draw env.clock read_clock
    updated_at ← draw env.clock read_clock
    let contact = new_contact tenant_id req id created_at updated_at
    call (λ h. env.create h contact) (created_contact contact)

  -- `Create`.
  unfoldable pub create : CreateContactRequest → Op ContactCall Contact
  unfolding phone_is_taken email_is_taken
  create req =
      let phone = deref req.phone in
      let address = deref req.email_address in
      if is_empty phone && is_empty address
      then fail (validation_error "contact" "phone or email is required")
      else (do
        phone_taken ← phone_is_taken (not (is_empty phone)) phone
        guard (not phone_taken) (conflict_error "contact with this phone exists")
        email_taken ← email_is_taken (not (is_empty address)) address
        guard (not email_taken) (conflict_error "contact with this email exists")
        insert_contact req)

  -- `Update`.
  unfoldable pub update : Uuid → UpdateContactRequest → Op ContactCall Contact
  unfolding phone_is_taken email_is_taken
  update id req = do
    contact ← get_by_id id
    phone_taken ← phone_is_taken (is_changed req.phone contact.phone) (deref req.phone)
    guard (not phone_taken) (conflict_error "contact with this phone exists")
    email_taken ←
        email_is_taken (is_changed req.email_address contact.email_address)
          (deref req.email_address)
    guard (not email_taken) (conflict_error "contact with this email exists")
    now ← draw env.clock read_clock
    let updated = apply_update req now contact
    call (λ h. env.update h updated) (updated_contact updated)

  -- A new status, and the record of the consent behind it.
  unfoldable pub write_consent :
      Uuid → Channel → OptInStatus → ConsentEvidence → Op ContactCall (Unit {0})
  write_consent id channel status evidence = do
    call (λ h. env.update_opt_in h tenant_id id channel status)
        (updated_opt_in tenant_id id channel status)
    record_id ← draw env.new_uuid drew_id
    now ← draw env.clock read_clock
    let entry = build_consent_record tenant_id id channel status evidence record_id now
    call (λ h. env.create_consent_record h entry) (created_record entry)

  abbrev pub check_expiry : ConsentEvidence → Op ContactCall (Unit {0})
  check_expiry consent = elim consent.expires_at [
    | none ↦ pure tt
    | some t ↦ do
      now ← draw env.clock read_clock
      guard (not (ltb t now)) (validation_error "expires_at" "consent expiry must be in the future")
  ]

  abbrev pub opt_in_from :
      Uuid → Channel → ConsentEvidence → OptInStatus → Op ContactCall (Unit {0})
  opt_in_from id channel consent status =
      if is_opted_in status
      then pure tt
      else check_expiry consent
        >> write_consent id channel (opt_in_target consent.double_opt_in_required) consent

  -- The status of the contact on the channel.
  unfoldable pub current_status : Uuid → Channel → Op ContactCall OptInStatus
  current_status id channel = do
    contact ← get_by_id id
    elim (contact_opt_in_status contact channel) [ ok s ↦ pure s | err e ↦ fail e ]

  -- `OptIn`.
  unfoldable pub opt_in : Uuid → Channel → ConsentEvidence → Op ContactCall (Unit {0})
  unfolding current_status write_consent
  opt_in id channel consent = do
    status ← current_status id channel
    opt_in_from id channel consent status

  -- `pendingConsentExpired`.
  unfoldable pub pending_consent_expired : Uuid → Channel → Time → Op ContactCall Bool
  unfolding first_pending_expired
  pending_consent_expired id channel now = do
    records ←
        call (λ h. env.list_consent_records h tenant_id id 1 10) (listed_records tenant_id id 1 10)
    pure (first_pending_expired channel now records)

  abbrev pub confirm_from :
      Uuid → Channel → ConsentEvidence → OptInStatus → Op ContactCall (Unit {0})
  confirm_from id channel consent status = if is_opted_in status then pure tt else (do
    guard (is_waiting status)
        (validation_error "status" "contact is not waiting for opt-in confirmation")
    now ← draw env.clock read_clock
    expired ← pending_consent_expired id channel now
    guard (not expired) (validation_error "expires_at" "opt-in confirmation has expired")
    write_consent id channel opted_in (confirmed consent now))

  -- `ConfirmOptIn`.
  unfoldable pub confirm_opt_in : Uuid → Channel → ConsentEvidence → Op ContactCall (Unit {0})
  unfolding current_status write_consent pending_consent_expired
  confirm_opt_in id channel consent = do
    status ← current_status id channel
    confirm_from id channel consent status

  -- `OptOut`.
  unfoldable pub opt_out : Uuid → Channel → ConsentEvidence → Op ContactCall (Unit {0})
  unfolding current_status write_consent
  opt_out id channel consent = do
    status ← current_status id channel
    if is_opted_out status then pure tt else write_consent id channel opted_out consent

  -- `contactByRecipient`: a number is tried as it stands, then with a `+` before it.
  unfoldable pub contact_by_recipient : Channel → String → Op ContactCall Contact
  contact_by_recipient (other_channel s) raw =
      fail (validation_error "channel" "channel must be whatsapp, sms, or email")
  contact_by_recipient email raw = get_by_email (trim_space raw)
  contact_by_recipient _ raw = do
    let recipient = trim_space raw
    found ← attempt (get_by_phone recipient)
    elim found [
      | ok contact ↦ pure contact
      | err e ↦ if has_prefix "+" recipient then fail e else get_by_phone (append "+" recipient)
    ]

  module _ (tables : UnicodeTables) where
    abbrev pub with_keyword : String → ConsentEvidence → ConsentEvidence
    with_keyword text consent = record consent {
      keyword = trim_space text;
      source = if is_empty consent.source then "inbound_keyword" else consent.source;
    }

    abbrev pub act_on :
        ConsentKeywordAction → Channel → ConsentEvidence → Contact → Op ContactCall (Unit {0})
    act_on opt_in_keyword channel consent contact =
        opt_in contact.id channel (record consent { double_opt_in_required = false })
    act_on opt_out_keyword channel consent contact = opt_out contact.id channel consent
    act_on unknown_keyword channel consent contact = pure tt

    abbrev pub reply :
        ConsentKeywordAction
        → Channel
        → String
        → String
        → ConsentEvidence
        → Op ContactCall (Unit {0})
    reply unknown_keyword channel recipient text consent = pure tt
    reply action channel recipient text consent = do
      contact ← contact_by_recipient channel recipient
      act_on action channel (with_keyword text consent) contact

    -- `HandleInboundConsentKeyword`: the action, and the error or nil that comes with it.
    unfoldable pub handle_inbound_consent_keyword :
        Channel
        → String
        → String
        → ConsentEvidence
        → ContactHistory
        → (ConsentKeywordAction × Result (Unit {0})) × ContactHistory
    unfolding opt_in opt_out contact_by_recipient detect_consent_keyword
    handle_inbound_consent_keyword channel recipient text consent h =
        let action = detect_consent_keyword tables text in
        let (r, h') = reply action channel recipient text consent h in ((action, r), h')

  -- `ListConsentRecords`.
  unfoldable pub list_consent_records : Uuid → ℤ → ℤ → Op ContactCall (List ConsentRecord)
  list_consent_records contact_id page per_page =
      let p = if ltb_ℤ page (pos 1) then 1 else pos_part page in
      let n = if ltb_ℤ per_page (pos 1) then 20 else pos_part per_page in
      let n' = if ltb 100 n then 100 else n in
      call (λ h. env.list_consent_records h tenant_id contact_id p n')
        (listed_records tenant_id contact_id p n')
