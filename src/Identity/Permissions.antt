-- ===== src/Identity/Permissions.antt =====
-- pkg/permissions/permissions.go: the permission keys, the catalog and the role templates.
use spur_messaging.Prelude.{String, List, [], ◌∷◌}

abbrev pub analytics_read : String
analytics_read = "messaging:analytics:read"

abbrev pub providers_read : String
providers_read = "messaging:providers:read"

abbrev pub providers_write : String
providers_write = "messaging:providers:write"

abbrev pub providers_test : String
providers_test = "messaging:providers:test"

abbrev pub templates_read : String
templates_read = "messaging:templates:read"

abbrev pub templates_write : String
templates_write = "messaging:templates:write"

abbrev pub templates_submit : String
templates_submit = "messaging:templates:submit"

abbrev pub contacts_read : String
contacts_read = "messaging:contacts:read"

abbrev pub contacts_write : String
contacts_write = "messaging:contacts:write"

abbrev pub contacts_import : String
contacts_import = "messaging:contacts:import"

abbrev pub contacts_manage_consent : String
contacts_manage_consent = "messaging:contacts:manage_consent"

abbrev pub segments_read : String
segments_read = "messaging:segments:read"

abbrev pub segments_write : String
segments_write = "messaging:segments:write"

abbrev pub campaigns_read : String
campaigns_read = "messaging:campaigns:read"

abbrev pub campaigns_write : String
campaigns_write = "messaging:campaigns:write"

abbrev pub campaigns_execute : String
campaigns_execute = "messaging:campaigns:execute"

abbrev pub messages_read : String
messages_read = "messaging:messages:read"

abbrev pub messages_send : String
messages_send = "messaging:messages:send"

abbrev pub messages_send_bulk : String
messages_send_bulk = "messaging:messages:send_bulk"

abbrev pub conversations_read : String
conversations_read = "messaging:conversations:read"

abbrev pub conversations_write : String
conversations_write = "messaging:conversations:write"

abbrev pub conversations_assign : String
conversations_assign = "messaging:conversations:assign"

abbrev pub webhooks_read : String
webhooks_read = "messaging:webhooks:read"

abbrev pub webhooks_write : String
webhooks_write = "messaging:webhooks:write"

abbrev pub webhooks_test : String
webhooks_test = "messaging:webhooks:test"

abbrev pub webhooks_replay : String
webhooks_replay = "messaging:webhooks:replay"

abbrev pub billing_read : String
billing_read = "messaging:billing:read"

abbrev pub billing_manage : String
billing_manage = "messaging:billing:manage"

pub record Permission : Type 0 where
  pub key : String
  pub description : String

pub record RoleTemplate : Type 0 where
  pub code : String
  pub name : String
  pub description : String
  pub permissions : List String

abbrev permission : String → String → Permission
permission key description = record { key = key; description = description }

abbrev pub catalog : List Permission
catalog =
    permission analytics_read "Read messaging dashboards, campaign reports, and delivery analytics."
    ∷ permission providers_read "Read messaging provider configuration."
    ∷ permission providers_write "Create and update messaging provider credentials."
    ∷ permission providers_test "Send provider test messages."
    ∷ permission templates_read "Read WhatsApp and email templates."
    ∷ permission templates_write "Create and update WhatsApp and email templates."
    ∷ permission templates_submit
        "Submit WhatsApp templates for provider approval and sync review state."
    ∷ permission contacts_read
        "Read contacts, segments, consent, unsubscribe, and suppression data."
    ∷ permission contacts_write "Create, update, and delete contacts."
    ∷ permission contacts_import "Import contacts in bulk."
    ∷ permission contacts_manage_consent
        "Manage opt-in, opt-out, unsubscribe, and suppression state."
    ∷ permission segments_read "Read audience segments and resolved segment contacts."
    ∷ permission segments_write "Create, update, and delete audience segments."
    ∷ permission campaigns_read "Read campaign lists, status, and reporting."
    ∷ permission campaigns_write "Create and update campaigns."
    ∷ permission campaigns_execute "Execute, pause, resume, and manage campaign runs."
    ∷ permission messages_read "Read message delivery logs."
    ∷ permission messages_send "Send individual messages and test sends."
    ∷ permission messages_send_bulk "Send bulk messages."
    ∷ permission conversations_read
        "Read conversation inbox threads, notes, assignment, and SLA state."
    ∷ permission conversations_write
        "Update conversation status, handoff state, tags, notes, priority, and SLA fields."
    ∷ permission conversations_assign "Assign conversations to agents or teams."
    ∷ permission webhooks_read "Read tenant webhook endpoints and delivery logs."
    ∷ permission webhooks_write "Create, update, disable, and delete tenant webhook endpoints."
    ∷ permission webhooks_test "Send test events to tenant webhook endpoints."
    ∷ permission webhooks_replay "Replay tenant webhook deliveries."
    ∷ permission billing_read
        "Read wallet balances, usage charges, rate cards, and billing ledger entries."
    ∷ permission billing_manage "Create wallet credits, billing adjustments, and rate cards."
    ∷ []

abbrev pub keys_of : List Permission → List String
keys_of [] = []
keys_of (p ∷ ps) = p.key ∷ keys_of ps

-- `Keys`.
abbrev pub keys : List String
keys = keys_of catalog

abbrev role : (code name description : String) → List String → RoleTemplate
role code name description permissions = record {
  code = code;
  name = name;
  description = description;
  permissions = permissions;
}

abbrev pub role_templates : List RoleTemplate
role_templates =
    role "messaging_admin" "Messaging Admin"
      "Manage messaging providers, templates, contacts, campaigns, sends, and analytics." keys
    ∷ role "messaging_developer" "Messaging Developer"
        "Configure providers, manage templates, send test messages, and read delivery logs."
        (providers_read ∷ providers_write ∷ providers_test ∷ templates_read ∷ templates_write
          ∷ templates_submit ∷ contacts_read ∷ messages_read ∷ messages_send ∷ conversations_read
          ∷ conversations_write ∷ conversations_assign ∷ webhooks_read ∷ webhooks_write
          ∷ webhooks_test ∷ webhooks_replay ∷ billing_read ∷ analytics_read ∷ [])
    ∷ role "messaging_campaign_manager" "Campaign Manager"
        "Build audiences, manage consent, launch campaigns, and read campaign analytics."
        (analytics_read ∷ templates_read ∷ contacts_read ∷ contacts_write ∷ contacts_import
          ∷ contacts_manage_consent ∷ segments_read ∷ segments_write ∷ campaigns_read
          ∷ campaigns_write ∷ campaigns_execute ∷ messages_read ∷ messages_send_bulk
          ∷ conversations_read ∷ webhooks_read ∷ billing_read ∷ [])
    ∷ role "messaging_support_agent" "Support Agent"
        "Read contacts and message history, send replies, and review basic analytics."
        (analytics_read ∷ contacts_read ∷ messages_read ∷ messages_send ∷ conversations_read
          ∷ conversations_write ∷ [])
    ∷ role "messaging_read_only" "Messaging Read Only"
        "View messaging configuration, templates, contacts, campaigns, messages, and analytics."
        (analytics_read ∷ providers_read ∷ templates_read ∷ contacts_read ∷ segments_read
          ∷ campaigns_read ∷ messages_read ∷ conversations_read ∷ webhooks_read ∷ billing_read ∷ [])
    ∷ role "messaging_finance" "Finance User"
        "Review usage, wallet balance, billing ledger, and manage billing adjustments."
        (analytics_read ∷ campaigns_read ∷ messages_read ∷ billing_read ∷ billing_manage ∷ [])
    ∷ []
