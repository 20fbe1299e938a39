-- ===== src/Http/Dispatch.antt =====
-- adapters/http/routes.go: the handler of each route.
use spur_messaging.Http.Env.{Request, HttpEnv}
use spur_messaging.Http.Steps.{Handling, Success}
use spur_messaging.Http.Routes.{Endpoint}
use spur_messaging.Http.Providers.{
  handle_create_provider, handle_list_providers, handle_get_provider, handle_update_provider,
  handle_delete_provider, handle_test_provider, handle_onboarding_config, handle_create_session,
  handle_callback, handle_get_session, handle_list_accounts, handle_get_account,
  handle_sync_account, handle_delete_account, handle_list_phones, handle_sync_phone,
}
use spur_messaging.Http.Inbox.{
  handle_create_webhook, handle_list_webhooks, handle_get_webhook, handle_update_webhook,
  handle_delete_webhook, handle_test_webhook, handle_list_deliveries, handle_replay_delivery,
  handle_list_conversations, handle_get_conversation, handle_update_conversation, handle_add_note,
}
use spur_messaging.Http.Billing.{
  handle_balance, handle_credit_wallet, handle_ledger, handle_adjust_wallet,
  handle_create_rate_card, handle_estimate, handle_message_analytics, handle_dashboard,
  handle_overview, handle_campaign_report, handle_bounces, handle_reputation, handle_top_links,
  handle_engagement,
}
use spur_messaging.Http.Templates.{
  handle_create_template, handle_list_templates, handle_get_template, handle_update_template,
  handle_delete_template, handle_submit_template, handle_sync_template, handle_create_email,
  handle_list_emails, handle_get_email, handle_update_email, handle_delete_email,
  handle_preview_email, handle_duplicate_email, handle_send_test_email,
}
use spur_messaging.Http.Messages.{
  handle_send, handle_send_bulk, handle_list_messages, handle_get_message,
}
use spur_messaging.Http.Contacts.{
  handle_create_contact, handle_list_contacts, handle_get_contact, handle_update_contact,
  handle_delete_contact, handle_import_contacts, handle_opt_in, handle_confirm_opt_in,
  handle_opt_out, handle_list_consents,
}
use spur_messaging.Http.Lists.{
  handle_create_segment, handle_list_segments, handle_get_segment, handle_update_segment,
  handle_delete_segment, handle_resolve_segment, handle_list_unsubscribes, handle_resubscribe,
  handle_check_unsubscribe, handle_list_suppressions, handle_add_suppression,
  handle_remove_suppression, handle_check_suppressions,
}
use spur_messaging.Http.Campaigns.{
  handle_create_campaign, handle_list_campaigns, handle_get_campaign, handle_update_campaign,
  handle_delete_campaign, handle_execute_campaign, handle_pause_campaign, handle_resume_campaign,
  handle_campaign_stats,
}

module _ (env : HttpEnv) (req : Request) where
  -- `RegisterRoutes`.
  unfoldable pub handle : Endpoint → Handling Success
  unfolding handle_create_provider handle_list_providers handle_get_provider handle_update_provider
      handle_delete_provider handle_test_provider handle_onboarding_config handle_create_session
      handle_callback handle_get_session handle_list_accounts handle_get_account handle_sync_account
      handle_delete_account handle_list_phones handle_sync_phone handle_create_webhook
      handle_list_webhooks handle_get_webhook handle_update_webhook handle_delete_webhook
      handle_test_webhook handle_list_deliveries handle_replay_delivery handle_balance
      handle_credit_wallet handle_ledger handle_adjust_wallet handle_create_rate_card
      handle_estimate handle_create_template handle_list_templates handle_get_template
      handle_update_template handle_delete_template handle_submit_template handle_sync_template
      handle_create_email handle_list_emails handle_get_email handle_update_email
      handle_delete_email handle_preview_email handle_duplicate_email handle_send_test_email
      handle_send handle_send_bulk handle_list_messages handle_get_message handle_list_conversations
      handle_get_conversation handle_update_conversation handle_add_note handle_create_contact
      handle_list_contacts handle_get_contact handle_update_contact handle_delete_contact
      handle_import_contacts handle_opt_in handle_confirm_opt_in handle_opt_out handle_list_consents
      handle_create_segment handle_list_segments handle_get_segment handle_update_segment
      handle_delete_segment handle_resolve_segment handle_create_campaign handle_list_campaigns
      handle_get_campaign handle_update_campaign handle_delete_campaign handle_execute_campaign
      handle_pause_campaign handle_resume_campaign handle_campaign_stats handle_list_unsubscribes
      handle_resubscribe handle_check_unsubscribe handle_list_suppressions handle_add_suppression
      handle_remove_suppression handle_check_suppressions handle_message_analytics handle_dashboard
      handle_overview handle_campaign_report handle_bounces handle_reputation handle_top_links
      handle_engagement
  handle Endpoint.create_provider = handle_create_provider env req
  handle Endpoint.list_providers = handle_list_providers env req
  handle Endpoint.get_provider = handle_get_provider env req
  handle Endpoint.update_provider = handle_update_provider env req
  handle Endpoint.delete_provider = handle_delete_provider env req
  handle Endpoint.test_provider = handle_test_provider env req
  handle Endpoint.onboarding_config = handle_onboarding_config env req
  handle Endpoint.create_session = handle_create_session env req
  handle Endpoint.callback = handle_callback env req
  handle Endpoint.get_session = handle_get_session env req
  handle Endpoint.list_accounts = handle_list_accounts env req
  handle Endpoint.get_account = handle_get_account env req
  handle Endpoint.sync_account = handle_sync_account env req
  handle Endpoint.delete_account = handle_delete_account env req
  handle Endpoint.list_phones = handle_list_phones env req
  handle Endpoint.sync_phone = handle_sync_phone env req
  handle Endpoint.create_webhook = handle_create_webhook env req
  handle Endpoint.list_webhooks = handle_list_webhooks env req
  handle Endpoint.get_webhook = handle_get_webhook env req
  handle Endpoint.update_webhook = handle_update_webhook env req
  handle Endpoint.delete_webhook = handle_delete_webhook env req
  handle Endpoint.test_webhook = handle_test_webhook env req
  handle Endpoint.list_deliveries = handle_list_deliveries env req
  handle Endpoint.replay_delivery = handle_replay_delivery env req
  handle Endpoint.balance = handle_balance env req
  handle Endpoint.credit_wallet = handle_credit_wallet env req
  handle Endpoint.ledger = handle_ledger env req
  handle Endpoint.adjust_wallet = handle_adjust_wallet env req
  handle Endpoint.create_rate_card = handle_create_rate_card env req
  handle Endpoint.estimate = handle_estimate env req
  handle Endpoint.usage = handle_ledger env req
  handle Endpoint.create_template = handle_create_template env req
  handle Endpoint.list_templates = handle_list_templates env req
  handle Endpoint.get_template = handle_get_template env req
  handle Endpoint.update_template = handle_update_template env req
  handle Endpoint.delete_template = handle_delete_template env req
  handle Endpoint.submit_template = handle_submit_template env req
  handle Endpoint.sync_template = handle_sync_template env req
  handle Endpoint.create_email = handle_create_email env req
  handle Endpoint.list_emails = handle_list_emails env req
  handle Endpoint.get_email = handle_get_email env req
  handle Endpoint.update_email = handle_update_email env req
  handle Endpoint.delete_email = handle_delete_email env req
  handle Endpoint.preview_email = handle_preview_email env req
  handle Endpoint.duplicate_email = handle_duplicate_email env req
  handle Endpoint.send_test_email = handle_send_test_email env req
  handle Endpoint.send = handle_send env req
  handle Endpoint.send_bulk = handle_send_bulk env req
  handle Endpoint.list_messages = handle_list_messages env req
  handle Endpoint.get_message = handle_get_message env req
  handle Endpoint.list_conversations = handle_list_conversations env req
  handle Endpoint.get_conversation = handle_get_conversation env req
  handle Endpoint.update_conversation = handle_update_conversation env req
  handle Endpoint.add_note = handle_add_note env req
  handle Endpoint.create_contact = handle_create_contact env req
  handle Endpoint.list_contacts = handle_list_contacts env req
  handle Endpoint.get_contact = handle_get_contact env req
  handle Endpoint.update_contact = handle_update_contact env req
  handle Endpoint.delete_contact = handle_delete_contact env req
  handle Endpoint.import_contacts = handle_import_contacts env req
  handle Endpoint.opt_in = handle_opt_in env req
  handle Endpoint.confirm_opt_in = handle_confirm_opt_in env req
  handle Endpoint.opt_out = handle_opt_out env req
  handle Endpoint.list_consents = handle_list_consents env req
  handle Endpoint.create_segment = handle_create_segment env req
  handle Endpoint.list_segments = handle_list_segments env req
  handle Endpoint.get_segment = handle_get_segment env req
  handle Endpoint.update_segment = handle_update_segment env req
  handle Endpoint.delete_segment = handle_delete_segment env req
  handle Endpoint.resolve_segment = handle_resolve_segment env req
  handle Endpoint.create_campaign = handle_create_campaign env req
  handle Endpoint.list_campaigns = handle_list_campaigns env req
  handle Endpoint.get_campaign = handle_get_campaign env req
  handle Endpoint.update_campaign = handle_update_campaign env req
  handle Endpoint.delete_campaign = handle_delete_campaign env req
  handle Endpoint.execute_campaign = handle_execute_campaign env req
  handle Endpoint.pause_campaign = handle_pause_campaign env req
  handle Endpoint.resume_campaign = handle_resume_campaign env req
  handle Endpoint.campaign_stats = handle_campaign_stats env req
  handle Endpoint.list_unsubscribes = handle_list_unsubscribes env req
  handle Endpoint.resubscribe = handle_resubscribe env req
  handle Endpoint.check_unsubscribe = handle_check_unsubscribe env req
  handle Endpoint.list_suppressions = handle_list_suppressions env req
  handle Endpoint.add_suppression = handle_add_suppression env req
  handle Endpoint.remove_suppression = handle_remove_suppression env req
  handle Endpoint.check_suppressions = handle_check_suppressions env req
  handle Endpoint.message_analytics = handle_message_analytics env req
  handle Endpoint.dashboard = handle_dashboard env req
  handle Endpoint.overview = handle_overview env req
  handle Endpoint.campaign_report = handle_campaign_report env req
  handle Endpoint.bounces = handle_bounces env req
  handle Endpoint.reputation = handle_reputation env req
  handle Endpoint.top_links = handle_top_links env req
  handle Endpoint.engagement = handle_engagement env req
