-- ===== src/Http/Bounded.antt =====
-- adapters/http: the sizes of what the handlers pass on to the services.
use spur_messaging.Prelude.{
  ◌≤◌, ℕ, String, ◌≡◌, ◌⊎◌, Option, none, some, List, [], ◌∷◌, Metadata, length, arith,
}
use spur_messaging.Prelude.Int.{ℤ, pos, ◌≤ℤ◌}
use spur_messaging.Calls.{Result, ok, err}
use spur_messaging.Message.Env.{SendRequest}
use spur_messaging.Identity.Context.{tenant_id_of, is_authenticated}
use spur_messaging.Api.Validate.{
  SegmentRule, len, validate_metadata, validate_tags, validate_pagination, validate_idempotency_key,
  validate_campaign_name, validate_template_name, validate_email_template, validate_segment_rules,
}
use spur_messaging.Http.Env.{
  Request, Operation, HttpHistory, HttpEnv, asked, send_message, send_bulk_messages, list_messages,
  create_template, list_templates, create_email_template, list_email_templates, create_campaign,
  list_campaigns, create_contact, list_contacts, update_contact, import_contacts, list_consents,
  create_segment, update_segment, resolve_segment, list_conversations, list_endpoints,
  list_deliveries, list_ledger, get_top_links, list_unsubscribes, list_suppressions, list_accounts,
  list_phones,
}
use spur_messaging.Http.Steps.{Outcome, done}
use spur_messaging.Http.Messages.{check_all_bulk}
use spur_messaging.Http.Contacts.{validate_given}
use spur_messaging.Http.Guarded.{check_all_bulk_lem}
use spur_messaging.Http.Routes.{Endpoint}
use spur_messaging.Http.Dispatch.{handle}

-- A page from 1, of 1 to 100 entries.
abbrev pub IsPage : ℤ → ℤ → Type 0
IsPage page per_page = (pos 1 ≤ℤ page) × (pos 1 ≤ℤ per_page) × (per_page ≤ℤ pos 100)

-- A page of `parsePagination`.
abbrev pub IsOpenPage : ℤ → ℤ → Type 0
IsOpenPage page per_page = (pos 0 ≤ℤ page) × (pos 1 ≤ℤ per_page)

abbrev IfOk : Result (Unit {0}) → Type 0 → Type 0
IfOk (ok u) P = P
IfOk (err e) P = Unit

abbrev IsGoodPage : Result (ℤ × ℤ) → Type 0
IsGoodPage (ok out) = IsPage out.0 out.1
IsGoodPage (err e) = Unit

metadata_lem : (m : Metadata) → IfOk (validate_metadata m) (length m ≤ 20)
unfolding validate_metadata
metadata_lem m = ground arith

tags_lem : (tags : List String) → IfOk (validate_tags tags) (length tags ≤ 10)
unfolding validate_tags
tags_lem tags = ground arith

key_lem :
    (key : String)
    → IfOk (validate_idempotency_key key) ((key ≡ "") ⊎ ((8 ≤ len key) × (len key ≤ 128)))
unfolding validate_idempotency_key
key_lem key = ground arith

page_lem : (page per_page : ℤ) → IsGoodPage (validate_pagination page per_page)
unfolding validate_pagination
page_lem page per_page = ground arith

scheduled_name_lem :
    (name : String) → IfOk (validate_campaign_name name) ((1 ≤ len name) × (len name ≤ 255))
unfolding validate_campaign_name
scheduled_name_lem name = ground arith

template_name_lem :
    (name : String) → IfOk (validate_template_name name) ((1 ≤ len name) × (len name ≤ 512))
unfolding validate_template_name
template_name_lem name = ground arith

email_template_lem :
    (name subject html : String)
    → IfOk
        (validate_email_template name subject html)
        ((1 ≤ len subject) × (len subject ≤ 998) × (1 ≤ len html) × (len html ≤ 5_242_880))
unfolding validate_email_template
email_template_lem name subject html = ground arith

rules_lem : (rules : List SegmentRule) → IfOk (validate_segment_rules rules) (length rules ≤ 10)
unfolding validate_segment_rules
rules_lem rules = ground arith

abbrev pub AllSmall : List SendRequest → Type 0
AllSmall [] = Unit
AllSmall (r ∷ rs) = (length r.metadata ≤ 20) × AllSmall rs

abbrev pub IsSmall {ℓ} : {A : Type ℓ} → ℕ → Option (List A) → Type 0
IsSmall n none = Unit
IsSmall n (some xs) = length xs ≤ n

given_tags_lem : (x : Option (List String)) → IfOk (validate_given validate_tags x) (IsSmall 10 x)
unfolding validate_given
given_tags_lem none = tt
given_tags_lem (some tags) = tags_lem tags

given_metadata_lem :
    (x : Option Metadata) → IfOk (validate_given validate_metadata x) (IsSmall 20 x)
unfolding validate_given
given_metadata_lem none = tt
given_metadata_lem (some m) = metadata_lem m

abbrev AreSmall : Outcome (List SendRequest) → Type 0
AreSmall (done rs) = AllSmall rs
AreSmall r = Unit

bulk_lem :
    (env : HttpEnv) (rs : List SendRequest) (h : HttpHistory) → AreSmall (check_all_bulk env rs h).0
unfolding check_all_bulk
bulk_lem env [] h = tt
bulk_lem env (r ∷ rs) h =
    let one = metadata_lem r.metadata in
    let rest = bulk_lem env rs h in ground (arith, check_all_bulk_lem env rs h)

-- What an operation may be asked with.
abbrev pub IsBounded : Operation → Type 0
IsBounded (send_message r) =
    (length r.metadata ≤ 20)
    × ((r.idempotency_key ≡ "") ⊎ ((8 ≤ len r.idempotency_key) × (len r.idempotency_key ≤ 128)))
IsBounded (send_bulk_messages rs) = AllSmall rs
IsBounded (list_messages f) = IsPage f.page f.per_page
IsBounded (create_template r) = (1 ≤ len r.name) × (len r.name ≤ 512)
IsBounded (list_templates c s page per_page) = IsPage page per_page
IsBounded (create_email_template r) =
    (1 ≤ len r.subject)
    × (len r.subject ≤ 998)
    × (1 ≤ len r.html_body)
    × (len r.html_body ≤ 5_242_880)
IsBounded (list_email_templates c page per_page) = IsPage page per_page
IsBounded (create_campaign r) =
    (1 ≤ len r.name) × (len r.name ≤ 255) × (length r.contact_ids ≤ 100_000)
IsBounded (list_campaigns s page per_page) = IsPage page per_page
IsBounded (create_contact r) = (length r.tags ≤ 10) × (length r.attributes ≤ 20)
IsBounded (list_contacts f) = IsPage f.page f.per_page
IsBounded (update_contact id r) = IsSmall 10 r.tags × IsSmall 20 r.attributes
IsBounded (import_contacts rs) = length rs ≤ 10_000
IsBounded (list_consents id page per_page) = IsPage page per_page
IsBounded (create_segment s) = length s.rules ≤ 10
IsBounded (update_segment id s) = length s.rules ≤ 10
IsBounded (resolve_segment id page per_page) = IsPage page per_page
IsBounded (list_conversations f) = IsPage f.page f.per_page
IsBounded (list_endpoints page per_page) = IsOpenPage page per_page
IsBounded (list_deliveries id page per_page) = IsOpenPage page per_page
IsBounded (list_ledger c page per_page) = IsOpenPage page per_page
IsBounded (get_top_links id limit) = pos 1 ≤ℤ limit
IsBounded (list_unsubscribes s page per_page) = IsPage page per_page
IsBounded (list_suppressions s page per_page) = IsPage page per_page
IsBounded (list_accounts page per_page) = IsPage page per_page
IsBounded (list_phones page per_page) = IsPage page per_page
IsBounded op = Unit

abbrev pub AllBounded : HttpHistory → Type 0
AllBounded [] = Unit
AllBounded (asked t op r ∷ h) = IsBounded op × AllBounded h
AllBounded (c ∷ h) = AllBounded h

module _ (env : HttpEnv) (req : Request) where
  -- Whatever a request holds, and whichever route it comes by: what its handler asks of the services
  -- keeps to these limits. Pages are at least 1 with 1 to 100 entries, but those of endpoints,
  -- deliveries and the ledger, which are at least 0 with 1 entry or more; top links are at least 1. A
  -- message, alone or in bulk, has at most 20 keys of metadata; sent alone, its idempotency key is empty
  -- or has 8 to 128 bytes. A contact that is created or updated has at most 10 tags and 20 attributes, a
  -- segment at most 10 rules, an import at most 10,000 rows. A campaign that is created has a name of 1
  -- to 255 bytes and at most 100,000 contacts, a template that is created a name of 1 to 512 bytes, an
  -- email template that is created a subject of 1 to 998 bytes and a body of 1 to 5,242,880.
  pub handle-AllBounded : (e : Endpoint) → AllBounded (handle env req e []).1
  unfolding handle tenant_id_of is_authenticated
  handle-AllBounded Endpoint.list_accounts = grind (arith, page_lem)
  handle-AllBounded Endpoint.list_phones = grind (arith, page_lem)
  handle-AllBounded Endpoint.create_template = grind (arith, template_name_lem)
  handle-AllBounded Endpoint.list_templates = grind (arith, page_lem)
  handle-AllBounded Endpoint.create_email = grind (arith, email_template_lem)
  handle-AllBounded Endpoint.list_emails = grind (arith, page_lem)
  handle-AllBounded Endpoint.send = grind (arith, metadata_lem, key_lem)
  handle-AllBounded Endpoint.send_bulk = grind (arith, bulk_lem, check_all_bulk_lem)
  handle-AllBounded Endpoint.list_messages = grind (arith, page_lem)
  handle-AllBounded Endpoint.list_conversations = grind (arith, page_lem)
  handle-AllBounded Endpoint.create_contact = grind (arith, tags_lem, metadata_lem)
  handle-AllBounded Endpoint.list_contacts = grind (arith, page_lem)
  handle-AllBounded Endpoint.update_contact = grind (arith, given_tags_lem, given_metadata_lem)
  handle-AllBounded Endpoint.list_consents = grind (arith, page_lem)
  handle-AllBounded Endpoint.create_segment = grind (arith, rules_lem)
  handle-AllBounded Endpoint.update_segment = grind (arith, rules_lem)
  handle-AllBounded Endpoint.resolve_segment = grind (arith, page_lem)
  handle-AllBounded Endpoint.create_campaign = grind (arith, scheduled_name_lem)
  handle-AllBounded Endpoint.list_campaigns = grind (arith, page_lem)
  handle-AllBounded Endpoint.list_unsubscribes = grind (arith, page_lem)
  handle-AllBounded Endpoint.list_suppressions = grind (arith, page_lem)
  handle-AllBounded e = ground arith
