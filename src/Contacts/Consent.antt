-- ===== src/Contacts/Consent.antt =====
-- core/services/contact_service.go: when a contact's consent changes, and that a record is kept.
use spur_messaging.Prelude.{
  String, ap, Bool, true, false, ◌≡◌, refl, ◌≤◌, Option, none, some, inl, inr, Bool-cases, ◌⊎◌,
  List, [], ◌∷◌, arith,
}
use spur_messaging.Domain.Message.{Uuid, Time, Channel}
use spur_messaging.Domain.Contact.{
  opted_out, double_opt_in_pending, OptInStatus, opted_in, is_opted_in, Contact,
}
use spur_messaging.Calls.{bind_cases, ok}
use spur_messaging.Contacts.Env.{
  ConsentEvidence, ConsentRecord, ContactHistory, ContactEnv, updated_opt_in, created_record,
  drew_id, read_clock, listed_records,
}
use spur_messaging.Contacts.Keywords.{
  UnicodeTables, opt_out_keyword, detect_consent_keyword, ConsentKeywordAction, unknown_keyword,
  opt_in_keyword,
}
use spur_messaging.Contacts.Records.{
  is_opted_out, contact_opt_in_status, is_waiting, is_double_pending, is_before, channel_eq,
  first_pending_expired,
}
use spur_messaging.Contacts.Service.{
  act_on, with_keyword, opt_out, handle_inbound_consent_keyword, contact_by_recipient, reply,
  current_status, write_consent, opt_in_target, opt_in, confirm_opt_in, pending_consent_expired,
}

-- The statuses that were written, the latest first: tenant, contact, channel and status.
abbrev pub writes_of : ContactHistory → List (Uuid × Uuid × Channel × OptInStatus)
writes_of [] = []
writes_of (updated_opt_in t id channel status (ok u) ∷ h) = (t, id, channel, status) ∷ writes_of h
writes_of (_ ∷ h) = writes_of h

-- The last thing that was done is to write the status and to keep a record that says the same.
abbrev pub IsRecorded : Uuid → Uuid → Channel → OptInStatus → ContactHistory → Type 0
IsRecorded t id channel status
      (created_record e (ok u)
        ∷ read_clock now
        ∷ drew_id i
        ∷ updated_opt_in t' id' channel' status' (ok v)
        ∷ h) =
    ((t' ≡ t) × (id' ≡ id) × (channel' ≡ channel) × (status' ≡ status))
    × ((e.tenant_id ≡ t) × (e.contact_id ≡ id) × (e.channel ≡ channel) × (e.status ≡ status))
IsRecorded t id channel status _ = ⊥

-- The record asks for a double opt-in on the channel.
abbrev pub AsksToConfirm : Channel → ConsentRecord → Type 0
AsksToConfirm channel r = (channel_eq r.channel channel ≡ true) × (r.status ≡ double_opt_in_pending)

abbrev pub IsOpen : Time → Option Time → Type 0
IsOpen now none = Unit
IsOpen now (some t) = now ≤ t

-- The first record that asks for a double opt-in on the channel, if there is one, has not expired.
abbrev pub FirstIsOpen : Channel → Time → List ConsentRecord → Type 0
FirstIsOpen channel now [] = Unit
FirstIsOpen channel now (r ∷ rs) =
    (AsksToConfirm channel r × IsOpen now r.expires_at)
    ⊎ ((AsksToConfirm channel r → ⊥) × FirstIsOpen channel now rs)

-- Of the latest list of the contact's consent records that was read, the first record that asks for a
-- double opt-in on the channel had not expired at the time read before.
abbrev pub ShowsFresh : Uuid → Uuid → Channel → ContactHistory → Type 0
ShowsFresh t id channel [] = ⊥
ShowsFresh t id channel (listed_records t' id' p n (ok rs) ∷ read_clock now ∷ h) =
    (t' ≡ t) × (id' ≡ id) × FirstIsOpen channel now rs
ShowsFresh t id channel (_ ∷ h) = ShowsFresh t id channel h

-- The same by the loop of `pendingConsentExpired`.
abbrev PassesLoop : Uuid → Uuid → Channel → ContactHistory → Type 0
PassesLoop t id channel [] = ⊥
PassesLoop t id channel (listed_records t' id' p n (ok rs) ∷ read_clock now ∷ h) =
    (t' ≡ t) × (id' ≡ id) × (first_pending_expired channel now rs ≡ false)
PassesLoop t id channel (_ ∷ h) = PassesLoop t id channel h

is_double_pending_lem :
    (s : OptInStatus)
    → ((s ≡ double_opt_in_pending) × (is_double_pending s ≡ true))
      ⊎ ((s ≡ double_opt_in_pending → ⊥) × (is_double_pending s ≡ false))
is_double_pending_lem double_opt_in_pending = inl (refl, refl)
is_double_pending_lem s = ground arith

is_before-IsOpen : (o : Option Time) (now : Time) → is_before o now ≡ false → IsOpen now o
is_before-IsOpen none now e = tt
is_before-IsOpen (some t) now e = ground arith

first_pending_expired_lem :
    (channel : Channel) (now : Time) (rs : List ConsentRecord)
    → first_pending_expired channel now rs ≡ false
    → FirstIsOpen channel now rs
unfolding first_pending_expired
first_pending_expired_lem channel now [] e = tt
first_pending_expired_lem channel now (r ∷ rs) e =
    let later = first_pending_expired_lem channel now rs in
    elim (Bool-cases (channel_eq r.channel channel)) [
      | inl same ↦ elim (is_double_pending_lem r.status) [
        | inl (asks, p) ↦ inl ((same, asks), is_before-IsOpen r.expires_at now (ground arith))
        | inr (not_so, p) ↦ inr (λ a. not_so a.1, later (ground arith))
      ]
      | inr other ↦ inr (λ a. absurd (ground arith), later (ground arith))
    ]

PassesLoop-ShowsFresh :
    (t id : Uuid) (channel : Channel) (h : ContactHistory)
    → PassesLoop t id channel h
    → ShowsFresh t id channel h
PassesLoop-ShowsFresh t id channel [] s = s
PassesLoop-ShowsFresh t id channel (listed_records t' id' p n (ok rs) ∷ read_clock now ∷ h) s =
    (s.0, s.1, first_pending_expired_lem channel now rs s.2)
PassesLoop-ShowsFresh t id channel (_ ∷ h) s = PassesLoop-ShowsFresh t id channel h s

module _ (env : ContactEnv) (tenant_id : Uuid) where
  -- The lookup of the contact finds a status on the channel that passes the test.
  abbrev pub Finds : Uuid → Channel → (OptInStatus → Bool) → ContactHistory → Type 0
  Finds id channel test h =
      (c : Contact) × (s : OptInStatus) × (env.get_by_id h tenant_id id ≡ ok c)
      × (contact_opt_in_status c channel ≡ ok s)
      × (test s ≡ true)

  -- An opt-in that answers without an error: the contact had opted in on the channel already, or
  -- the last thing done was to write the new status, `double_opt_in_pending` where a double opt-in
  -- is asked for and `opted_in` where not, and to keep a consent record of it.
  pub opt_in-IsRecorded :
      (id : Uuid) (channel : Channel) (consent : ConsentEvidence) (h : ContactHistory)
      → (opt_in env tenant_id id channel consent h).0 ≡ ok tt
      → Finds id channel is_opted_in h
        ⊎ IsRecorded tenant_id id channel
            (opt_in_target consent.double_opt_in_required)
            (opt_in env tenant_id id channel consent h).1
  unfolding opt_in current_status write_consent
  opt_in-IsRecorded id channel consent h e = ground arith

  confirm_opt_in-PassesLoop :
      (id : Uuid) (channel : Channel) (consent : ConsentEvidence) (h : ContactHistory)
      → let h' = (confirm_opt_in env tenant_id id channel consent h).1 in
        (writes_of h' ≡ writes_of h)
        ⊎ ((writes_of h' ≡ (tenant_id, id, channel, opted_in) ∷ writes_of h)
            × Finds id channel is_waiting h
            × PassesLoop tenant_id id channel h')
  unfolding confirm_opt_in current_status write_consent pending_consent_expired
      first_pending_expired
  confirm_opt_in-PassesLoop id channel consent h = ground arith

  -- A confirmation writes nothing, or it writes the one status `opted_in`, and then the contact was
  -- pending on the channel, and of the contact's consent records that were listed, the first one that
  -- asks for a double opt-in on the channel, if there is one, had not expired.
  pub confirm_opt_in-writes :
      (id : Uuid) (channel : Channel) (consent : ConsentEvidence) (h : ContactHistory)
      → let h' = (confirm_opt_in env tenant_id id channel consent h).1 in
        (writes_of h' ≡ writes_of h)
        ⊎ ((writes_of h' ≡ (tenant_id, id, channel, opted_in) ∷ writes_of h)
            × Finds id channel is_waiting h
            × ShowsFresh tenant_id id channel h')
  confirm_opt_in-writes id channel consent h =
      elim (confirm_opt_in-PassesLoop id channel consent h) [
        | inl quiet ↦ inl quiet
        | inr (wrote, found, passed) ↦ inr (
          wrote,
          found,
          PassesLoop-ShowsFresh tenant_id id channel
              (confirm_opt_in env tenant_id id channel consent h).1 passed,
        )
      ]

  -- A withdrawal that answers without an error: the contact had opted out on the channel already,
  -- or the last thing done was to write `opted_out` and to keep a consent record of it.
  pub opt_out-IsRecorded :
      (id : Uuid) (channel : Channel) (consent : ConsentEvidence) (h : ContactHistory)
      → (opt_out env tenant_id id channel consent h).0 ≡ ok tt
      → Finds id channel is_opted_out h
        ⊎ IsRecorded tenant_id id channel opted_out (opt_out env tenant_id id channel consent h).1
  unfolding opt_out current_status write_consent
  opt_out-IsRecorded id channel consent h e = ground arith

  -- What an answered withdrawal comes to.
  abbrev pub Withdrawn : Channel → String → ContactHistory → ContactHistory → Type 0
  Withdrawn channel recipient h after =
      (contact : Contact) × (h' : ContactHistory) × (contact_by_recipient env tenant_id channel
          recipient h
        ≡ (ok contact, h'))
      × (Finds contact.id channel is_opted_out h'
          ⊎ IsRecorded tenant_id contact.id channel opted_out after)

  reply-Withdrawn :
      (tables : UnicodeTables) (action : ConsentKeywordAction) (channel : Channel)
      (recipient text : String) (consent : ConsentEvidence) (h : ContactHistory)
      → action ≡ opt_out_keyword
      → (reply env tenant_id tables action channel recipient text consent h).0 ≡ ok tt
      → Withdrawn channel recipient h
          (reply env tenant_id tables action channel recipient text consent h).1
  reply-Withdrawn tables unknown_keyword channel recipient text consent h e = λ r. absurd (cc e)
  reply-Withdrawn tables opt_in_keyword channel recipient text consent h e = λ r. absurd (cc e)
  reply-Withdrawn tables opt_out_keyword channel recipient text consent h e =
      bind_cases (contact_by_recipient env tenant_id channel recipient)
        (act_on env tenant_id tables opt_out_keyword channel
          (with_keyword env tenant_id tables text consent))
        h (λ out. out.0 ≡ ok tt → Withdrawn channel recipient h out.1) (λ x p q. absurd (cc q))
        λ contact p q. (
          contact,
          (contact_by_recipient env tenant_id channel recipient h).1,
          ap (λ r. (r, (contact_by_recipient env tenant_id channel recipient h).1)) p,
          opt_out-IsRecorded contact.id channel (with_keyword env tenant_id tables text consent) _
              q,
        )

  -- A reply that reads as a withdrawal and is answered without an error: a contact was found under
  -- the number or the address, and it had opted out on the channel already, or the last thing done
  -- was to write `opted_out` for it and to keep a consent record of that.
  pub handle_inbound_consent_keyword_lem :
      (tables : UnicodeTables) (channel : Channel) (recipient text : String)
      (consent : ConsentEvidence) (h : ContactHistory)
      → let out =
          handle_inbound_consent_keyword env tenant_id tables channel recipient text consent h in
        out.0 ≡ (opt_out_keyword, ok tt) → Withdrawn channel recipient h out.1
  unfolding handle_inbound_consent_keyword
  handle_inbound_consent_keyword_lem tables channel recipient text consent h e =
      reply-Withdrawn tables (detect_consent_keyword tables text) channel recipient text consent h
        (ap (λ x. x.0) e) (ap (λ x. x.1) e)
