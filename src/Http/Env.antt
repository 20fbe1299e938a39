-- ===== src/Http/Env.antt =====
-- adapters/http: the request, what the handlers ask of the services, and what they answer.
pub mod Bodies
pub use spur_messaging.Http.Env.Bodies.{
  Request, SendBody, ConsentBody, MoneyBody, RateBody, SuppressionBody, SuppressionCheckBody,
  ProviderTestBody, Segment, MessageFilter, ContactFilter,
}
use spur_messaging.Prelude.{ℕ, String, Bool, Option, List, Metadata}
use spur_messaging.Prelude.Int.{ℤ}
use spur_messaging.Domain.Message.{Uuid, Time, Channel, MessageStatus}
use spur_messaging.Calls.{Result}
use spur_messaging.Message.Env.{SendRequest}
use spur_messaging.Contacts.Env.{CreateContactRequest, UpdateContactRequest, ConsentEvidence}
use spur_messaging.Campaigns.Env.{CreateCampaignRequest, UpdateCampaignRequest}
use spur_messaging.Templates.Env.{CreateTemplateRequest, UpdateTemplateRequest}
use spur_messaging.Templates.Emails.{CreateEmailTemplateRequest, UpdateEmailTemplateRequest}
use spur_messaging.Deliveries.Endpoints.{CreateEndpointRequest, UpdateEndpointRequest}
use spur_messaging.Conversations.Service.{ConversationFilter, ConversationUpdate}
use spur_messaging.Registry.Lookup.{ProviderConfig}
use spur_messaging.Onboarding.Env.{OnboardingSession}
use spur_messaging.Onboarding.Sessions.{CallbackRequest}
use spur_messaging.Sender.Env.{Cost}
use spur_messaging.Identity.Context.{Context}
use spur_messaging.Api.Validate.{SegmentRule}

-- The methods of core/ports/services.go that the handlers call with a tenant; a status or a reason
-- that comes from the query is its text.
pub data Operation : Type 0 where
  send_message : SendRequest → Operation
  send_bulk_messages : List SendRequest → Operation
  get_message : Uuid → Operation
  list_messages : MessageFilter → Operation
  create_template : CreateTemplateRequest → Operation
  list_templates : Option Channel → Option String → (page per_page : ℤ) → Operation
  update_template : Uuid → UpdateTemplateRequest → Operation
  get_template delete_template submit_template sync_template : Uuid → Operation
  create_email_template : CreateEmailTemplateRequest → Operation
  list_email_templates : Option String → (page per_page : ℤ) → Operation
  update_email_template : Uuid → UpdateEmailTemplateRequest → Operation
  get_email_template delete_email_template : Uuid → Operation
  preview_email_template : Uuid → Metadata → Operation
  duplicate_email_template : Uuid → String → Operation
  create_campaign : CreateCampaignRequest → Operation
  list_campaigns : Option String → (page per_page : ℤ) → Operation
  update_campaign : Uuid → UpdateCampaignRequest → Operation
  get_campaign delete_campaign execute_campaign pause_campaign resume_campaign : Uuid → Operation
  get_campaign_stats : Uuid → Operation
  create_contact : CreateContactRequest → Operation
  list_contacts : ContactFilter → Operation
  update_contact : Uuid → UpdateContactRequest → Operation
  get_contact delete_contact : Uuid → Operation
  import_contacts : List CreateContactRequest → Operation
  opt_in_contact confirm_contact opt_out_contact : Uuid → Channel → ConsentEvidence → Operation
  list_consents : Uuid → (page per_page : ℤ) → Operation
  create_segment : Segment → Operation
  list_segments : Operation
  update_segment : Uuid → Segment → Operation
  get_segment delete_segment : Uuid → Operation
  resolve_segment : Uuid → (page per_page : ℤ) → Operation
  list_conversations : ConversationFilter → Operation
  get_conversation : Uuid → Operation
  update_conversation : Uuid → ConversationUpdate → Operation
  add_note : (id author : Uuid) → String → Operation
  create_endpoint : CreateEndpointRequest → Operation
  list_endpoints : (page per_page : ℤ) → Operation
  update_endpoint : Uuid → UpdateEndpointRequest → Operation
  get_endpoint delete_endpoint test_endpoint replay_delivery : Uuid → Operation
  list_deliveries : Option Uuid → (page per_page : ℤ) → Operation
  get_balance : (currency : String) → Operation
  list_ledger : (currency : String) → (page per_page : ℤ) → Operation
  credit_wallet adjust_wallet : MoneyBody → Operation
  estimate_cost : Channel → (category country currency : String) → Operation
  get_overview get_bounces get_engagement : (from to : Time) → Operation
  get_campaign_report : Uuid → Operation
  get_reputation : Operation
  get_top_links : Uuid → ℤ → Operation
  list_unsubscribes list_suppressions : Option String → (page per_page : ℤ) → Operation
  resubscribe remove_suppression : Uuid → Operation
  is_unsubscribed : String → Operation
  add_suppression : Channel → (recipient reason : String) → Operation
  check_suppressions : Channel → List String → Operation
  complete_onboarding : CallbackRequest → Operation
  get_onboarding get_account sync_account disconnect_account sync_phone : Uuid → Operation
  list_accounts list_phones : (page per_page : ℤ) → Operation
  list_providers : Operation
  get_provider_config delete_provider : Uuid → Operation

-- What a method answers with: the JSON of the value, and the total of a list.
pub record Answer : Type 0 where
  pub content : String
  pub total : ℕ

pub data HttpCall : Type 0 where
  read_clock : Time → HttpCall
  asked : Uuid → Operation → Result Answer → HttpCall
  asked_channel : Uuid → Channel → Result (Option ProviderConfig) → HttpCall
  asked_provider : Uuid → Uuid → Result ProviderConfig → HttpCall
  created_provider updated_provider : ProviderConfig → Result Answer → HttpCall
  created_session : Uuid → String → Result OnboardingSession → HttpCall
  created_rate_card : Option Uuid → RateBody → (effective_from : Time) → Result Answer → HttpCall

abbrev pub HttpHistory : Type 0
HttpHistory = List HttpCall

-- The standard library and chi, as far as the handlers ask them, and the services. `atoi` is the number
-- that `strconv.Atoi` answers with, whatever its error; the zero time is 0.
pub record HttpEnv : Type 0 where
  pub parse_uuid : String → Option Uuid
  pub atoi : String → ℤ
  pub is_number : String → Bool
  pub parse_time : String → Option Time
  pub to_lower : String → String
  pub split_host_port : String → Option String
  pub decode_send : String → Option SendBody
  pub decode_sends : String → Option (List SendRequest)
  pub decode_template : String → Option CreateTemplateRequest
  pub decode_template_update : String → Option UpdateTemplateRequest
  pub decode_email_template : String → Option CreateEmailTemplateRequest
  pub decode_email_template_update : String → Option UpdateEmailTemplateRequest
  pub decode_variables : String → Option Metadata
  pub decode_test_email : String → Option (String × Metadata)
  pub decode_name : String → Option String
  pub decode_campaign : String → Option CreateCampaignRequest
  pub decode_campaign_update : String → Option UpdateCampaignRequest
  pub decode_contact : String → Option CreateContactRequest
  pub decode_contacts : String → Option (List CreateContactRequest)
  pub decode_contact_update : String → Option UpdateContactRequest
  pub decode_consent : String → Option ConsentBody
  pub decode_segment : String → Option Segment
  pub decode_conversation_update : String → Option ConversationUpdate
  pub decode_note : String → Option String
  pub decode_endpoint : String → Option CreateEndpointRequest
  pub decode_endpoint_update : String → Option UpdateEndpointRequest
  pub decode_money : String → Option MoneyBody
  pub decode_rate : String → Option RateBody
  pub decode_suppression : String → Option SuppressionBody
  pub decode_suppression_check : String → Option SuppressionCheckBody
  pub decode_provider : String → Option ProviderConfig
  pub decode_provider_test : String → Option ProviderTestBody
  pub decode_state : String → Option String
  pub decode_callback : String → Option CallbackRequest
  pub clock : HttpHistory → Time
  pub serve : HttpHistory → Uuid → Operation → Result Answer
  pub get_by_channel : HttpHistory → Uuid → Channel → Result (Option ProviderConfig)
  pub get_provider : HttpHistory → Uuid → Uuid → Result ProviderConfig
  pub create_provider : HttpHistory → ProviderConfig → Result Answer
  pub update_provider : HttpHistory → ProviderConfig → Result Answer
  pub create_session : HttpHistory → Uuid → String → Result OnboardingSession
  pub create_rate_card : HttpHistory → Option Uuid → RateBody → Time → Result Answer
