-- ===== src/Http/Answered.antt =====
-- adapters/http: the routes that name one thing by its ID reach their service.
use spur_messaging.Prelude.{true, ◌≡◌, Option, none, some, ◌∷◌, arith}
use spur_messaging.Domain.Message.{Uuid}
use spur_messaging.Calls.{Result, ok, err}
use spur_messaging.Identity.Context.{tenant_id_of, has_permission, is_authenticated}
use spur_messaging.Http.Env.{
  Request, Operation, Answer, HttpHistory, HttpEnv, asked, delete_campaign, delete_contact,
  delete_email_template, delete_endpoint, delete_provider, delete_segment, delete_template,
  disconnect_account, execute_campaign, get_account, get_campaign, get_campaign_report,
  get_campaign_stats, get_contact, get_conversation, get_email_template, get_endpoint, get_message,
  get_onboarding, get_provider_config, get_segment, get_template, pause_campaign,
  remove_suppression, resubscribe, resume_campaign, submit_template, sync_account, sync_phone,
  sync_template, test_endpoint,
}
use spur_messaging.Http.Steps.{Outcome, Success, Payload, done, refused, service_value, status_word}
use spur_messaging.Http.Routes.{Endpoint, documented}
use spur_messaging.Http.Dispatch.{handle}
use spur_messaging.Http.Guarded.{needed}

-- What a route asks for, where it needs nothing but the ID in its path.
abbrev pub asks : Endpoint → Option (Uuid → Operation)
asks Endpoint.get_provider = some get_provider_config
asks Endpoint.delete_provider = some delete_provider
asks Endpoint.get_session = some get_onboarding
asks Endpoint.get_account = some get_account
asks Endpoint.sync_account = some sync_account
asks Endpoint.delete_account = some disconnect_account
asks Endpoint.sync_phone = some sync_phone
asks Endpoint.get_webhook = some get_endpoint
asks Endpoint.delete_webhook = some delete_endpoint
asks Endpoint.test_webhook = some test_endpoint
asks Endpoint.get_template = some get_template
asks Endpoint.delete_template = some delete_template
asks Endpoint.submit_template = some submit_template
asks Endpoint.sync_template = some sync_template
asks Endpoint.get_email = some get_email_template
asks Endpoint.delete_email = some delete_email_template
asks Endpoint.get_message = some get_message
asks Endpoint.get_conversation = some get_conversation
asks Endpoint.get_contact = some get_contact
asks Endpoint.delete_contact = some delete_contact
asks Endpoint.get_segment = some get_segment
asks Endpoint.delete_segment = some delete_segment
asks Endpoint.get_campaign = some get_campaign
asks Endpoint.delete_campaign = some delete_campaign
asks Endpoint.execute_campaign = some execute_campaign
asks Endpoint.pause_campaign = some pause_campaign
asks Endpoint.resume_campaign = some resume_campaign
asks Endpoint.campaign_stats = some get_campaign_stats
asks Endpoint.resubscribe = some resubscribe
asks Endpoint.remove_suppression = some remove_suppression
asks Endpoint.campaign_report = some get_campaign_report
asks e = none

-- What a route says of the service's value: a word where the service has none to give, else the value.
abbrev pub says : Endpoint → Answer → Payload
says Endpoint.delete_provider a = status_word "deleted"
says Endpoint.delete_account a = status_word "disconnected"
says Endpoint.delete_webhook a = status_word "deleted"
says Endpoint.delete_template a = status_word "deleted"
says Endpoint.delete_email a = status_word "deleted"
says Endpoint.delete_contact a = status_word "deleted"
says Endpoint.delete_segment a = status_word "deleted"
says Endpoint.delete_campaign a = status_word "deleted"
says Endpoint.execute_campaign a = status_word "started"
says Endpoint.pause_campaign a = status_word "paused"
says Endpoint.resume_campaign a = status_word "resumed"
says Endpoint.resubscribe a = status_word "resubscribed"
says Endpoint.remove_suppression a = status_word "removed"
says e a = service_value a

-- The service's value with 200 and no pages, or its error.
abbrev pub IsReply : (Answer → Payload) → Result Answer → Outcome Success → Type 0
IsReply say (ok a) (done s) = (s.status ≡ 200) × (s.payload ≡ say a) × (s.pagination ≡ none)
IsReply say (err e) (refused x) = x ≡ e
IsReply say r out = ⊥

module _ (env : HttpEnv) (req : Request) (h : HttpHistory) (t id : Uuid) where
  abbrev pub Reaches :
      Option (Uuid → Operation) → (Answer → Payload) → Outcome Success × HttpHistory → Type 0
  Reaches none say out = Unit
  Reaches (some op) say out =
      (out.1 ≡ asked t (op id) (env.serve h t (op id)) ∷ h)
      × IsReply say (env.serve h t (op id)) out.0

  -- A tenant's request that has the permission and names an ID that parses, by a route that needs no
  -- more: the service is asked once, for that tenant and that ID. Its error is the response; its value
  -- is the response with 200, or, on a route that only acts, the word of that route.
  pub handle-Reaches :
      (e : Endpoint)
      → req.context.tenant ≡ some t
      → has_permission req.context (needed e) ≡ true
      → env.parse_uuid (req.path "id") ≡ some id
      → Reaches (asks e) (says e) (handle env req e h)
  unfolding handle documented tenant_id_of is_authenticated
  handle-Reaches e own may named = ground arith
