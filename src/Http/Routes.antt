-- ===== src/Http/Routes.antt =====
-- adapters/http/routes.go: the routes, with the permission that the file's comment names for each.
use spur_messaging.Prelude.{String}
use spur_messaging.Identity.Permissions.{
  analytics_read, providers_read, providers_write, providers_test, templates_read, templates_write,
  templates_submit, contacts_read, contacts_write, contacts_import, contacts_manage_consent,
  segments_read, segments_write, campaigns_read, campaigns_write, campaigns_execute, messages_read,
  messages_send, messages_send_bulk, conversations_read, conversations_write, webhooks_read,
  webhooks_write, webhooks_test, webhooks_replay, billing_read, billing_manage,
}

-- A constructor for each line of `RegisterRoutes`, in its order.
pub data Endpoint : Type 0 where
  create_provider list_providers get_provider update_provider delete_provider test_provider :
      Endpoint
  onboarding_config create_session callback get_session list_accounts get_account sync_account
        delete_account list_phones sync_phone :
      Endpoint
  create_webhook list_webhooks get_webhook update_webhook delete_webhook test_webhook
        list_deliveries replay_delivery :
      Endpoint
  balance credit_wallet ledger adjust_wallet create_rate_card estimate usage : Endpoint
  create_template list_templates get_template update_template delete_template submit_template
        sync_template :
      Endpoint
  create_email list_emails get_email update_email delete_email preview_email duplicate_email
        send_test_email :
      Endpoint
  send send_bulk list_messages get_message : Endpoint
  list_conversations get_conversation update_conversation add_note : Endpoint
  create_contact list_contacts get_contact update_contact delete_contact import_contacts opt_in
        confirm_opt_in opt_out list_consents :
      Endpoint
  create_segment list_segments get_segment update_segment delete_segment resolve_segment : Endpoint
  create_campaign list_campaigns get_campaign update_campaign delete_campaign execute_campaign
        pause_campaign resume_campaign campaign_stats :
      Endpoint
  list_unsubscribes resubscribe check_unsubscribe : Endpoint
  list_suppressions add_suppression remove_suppression check_suppressions : Endpoint
  message_analytics dashboard overview campaign_report bounces reputation top_links engagement :
      Endpoint

-- The comment beside the route.
unfoldable pub documented : Endpoint → String
documented Endpoint.create_provider = providers_write
documented Endpoint.list_providers = providers_read
documented Endpoint.get_provider = providers_read
documented Endpoint.update_provider = providers_write
documented Endpoint.delete_provider = providers_write
documented Endpoint.test_provider = providers_test
documented Endpoint.onboarding_config = providers_read
documented Endpoint.create_session = providers_write
documented Endpoint.callback = providers_write
documented Endpoint.get_session = providers_read
documented Endpoint.list_accounts = providers_read
documented Endpoint.get_account = providers_read
documented Endpoint.sync_account = providers_write
documented Endpoint.delete_account = providers_write
documented Endpoint.list_phones = providers_read
documented Endpoint.sync_phone = providers_write
documented Endpoint.create_webhook = webhooks_write
documented Endpoint.list_webhooks = webhooks_read
documented Endpoint.get_webhook = webhooks_read
documented Endpoint.update_webhook = webhooks_write
documented Endpoint.delete_webhook = webhooks_write
documented Endpoint.test_webhook = webhooks_test
documented Endpoint.list_deliveries = webhooks_read
documented Endpoint.replay_delivery = webhooks_replay
documented Endpoint.balance = billing_read
documented Endpoint.credit_wallet = billing_manage
documented Endpoint.ledger = billing_read
documented Endpoint.adjust_wallet = billing_manage
documented Endpoint.create_rate_card = billing_manage
documented Endpoint.estimate = billing_read
documented Endpoint.usage = billing_read
documented Endpoint.create_template = templates_write
documented Endpoint.list_templates = templates_read
documented Endpoint.get_template = templates_read
documented Endpoint.update_template = templates_write
documented Endpoint.delete_template = templates_write
documented Endpoint.submit_template = templates_submit
documented Endpoint.sync_template = templates_read
documented Endpoint.create_email = templates_write
documented Endpoint.list_emails = templates_read
documented Endpoint.get_email = templates_read
documented Endpoint.update_email = templates_write
documented Endpoint.delete_email = templates_write
documented Endpoint.preview_email = templates_read
documented Endpoint.duplicate_email = templates_write
documented Endpoint.send_test_email = messages_send
documented Endpoint.send = messages_send
documented Endpoint.send_bulk = messages_send_bulk
documented Endpoint.list_messages = messages_read
documented Endpoint.get_message = messages_read
documented Endpoint.list_conversations = conversations_read
documented Endpoint.get_conversation = conversations_read
documented Endpoint.update_conversation = conversations_write
documented Endpoint.add_note = conversations_write
documented Endpoint.create_contact = contacts_write
documented Endpoint.list_contacts = contacts_read
documented Endpoint.get_contact = contacts_read
documented Endpoint.update_contact = contacts_write
documented Endpoint.delete_contact = contacts_write
documented Endpoint.import_contacts = contacts_import
documented Endpoint.opt_in = contacts_manage_consent
documented Endpoint.confirm_opt_in = contacts_manage_consent
documented Endpoint.opt_out = contacts_manage_consent
documented Endpoint.list_consents = contacts_read
documented Endpoint.create_segment = segments_write
documented Endpoint.list_segments = segments_read
documented Endpoint.get_segment = segments_read
documented Endpoint.update_segment = segments_write
documented Endpoint.delete_segment = segments_write
documented Endpoint.resolve_segment = segments_read
documented Endpoint.create_campaign = campaigns_write
documented Endpoint.list_campaigns = campaigns_read
documented Endpoint.get_campaign = campaigns_read
documented Endpoint.update_campaign = campaigns_write
documented Endpoint.delete_campaign = campaigns_write
documented Endpoint.execute_campaign = campaigns_execute
documented Endpoint.pause_campaign = campaigns_execute
documented Endpoint.resume_campaign = campaigns_execute
documented Endpoint.campaign_stats = campaigns_read
documented Endpoint.list_unsubscribes = contacts_read
documented Endpoint.resubscribe = contacts_manage_consent
documented Endpoint.check_unsubscribe = contacts_read
documented Endpoint.list_suppressions = contacts_read
documented Endpoint.add_suppression = contacts_manage_consent
documented Endpoint.remove_suppression = contacts_manage_consent
documented Endpoint.check_suppressions = contacts_read
documented Endpoint.message_analytics = analytics_read
documented Endpoint.dashboard = analytics_read
documented Endpoint.overview = analytics_read
documented Endpoint.campaign_report = analytics_read
documented Endpoint.bounces = analytics_read
documented Endpoint.reputation = analytics_read
documented Endpoint.top_links = analytics_read
documented Endpoint.engagement = analytics_read
