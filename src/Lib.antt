-- ===== src/Lib.antt =====
-- spur-messaging: sending WhatsApp, SMS and email messages for tenants.
--
-- The program stores a message and puts it on a queue (core/services/message_service.go); a worker
-- takes it from there, hands it to a provider, retries and charges for it (worker/sender.go);
-- providers report back through webhooks, which raise the message's status and keep the
-- suppression lists (core/services/webhook_service.go); contacts give and withdraw their consent
-- (core/services/contact_service.go), which sending depends on.
--
-- Calls.antt is the model of code that calls the outside. Repositories, queue, providers, clock
-- and other services are interfaces of core/ports. An operation reads and extends the history of
-- the calls made so far, the latest first, and an environment gives the answer to each call as a
-- function of that history. A theorem for every environment thus covers every failure, every
-- interleaving with other writers, and any passing of time. The environments are the records
-- MessageEnv, WebhookEnv, ContactEnv, SenderEnv,
-- DeliveryEnv, CampaignEnv, BillingEnv, TemplateEnv,
-- EmailEnv, ConversationEnv, OnboardingEnv and HttpEnv, with a field for each method that
-- is called.
--
-- A child module, such as Webhook/Ranks/Climbing or Api/Validate/Text, holds what its parent starts
-- from; the parent passes its names on.
--
-- Domain holds core/domain: errors with `errors.Is` (Errors), messages, channels, statuses and
-- their ranks (Message), contacts (Contact), templates (Template), events (Event), campaign
-- counters (Campaign). UUIDs are their 128-bit numbers, times are nanoseconds.
--
-- Message is core/services/message_service.go. Env: the request, the configuration, the calls.
-- Checks: the first half of `Send`, up to the WhatsApp checks, and core/services/resolve.go. Email
-- and Build: rendering, unsubscribe link, tracking, metadata, the message. Send: storing, queueing,
-- and `Send`, `SendBulk`, `Retry`, `createSuppressedMessage`. Rules, Trace and Growth: what a phase
-- leaves in the history. Cleared, Sent, Safety, Idempotency and Bulk: the theorems; Bulk is about
-- sequences of `Send`. HMAC, the text of a
-- UUID and the matching of the link pattern are the parameter TextEngine.
--
-- Webhook is core/services/webhook_service.go, from the decoded payload on. Whatsapp and
-- EmailEvents: the two handlers. Ranks: how statuses change. Feedback: bounces and complaints.
--
-- Contacts is core/services/contact_service.go. Keywords: core/domain/consent_keywords.go, with
-- Go's Unicode tables as a parameter. Records: the helpers that call nothing. Service: the
-- operations. Import: `BulkImport`. Consent: what consent operations write.
--
-- Sender is worker/sender.go. Request: the requests to providers and the charge. Attempt:
-- `sendWithCfg`. Delivery: `HandleMessage`; its loop sleeps and goes on after a 429 without
-- counting the attempt, so the model gives it fuel, and Retries bounds the turns that it needs.
--
-- Deliveries is core/services/tenant_webhook_service.go, which passes events on to the tenants' own
-- endpoints. Attempt: one request and the schedule after it. Endpoints: creating and updating.
-- Service: delivering, replaying and working off what is due. Attempts and Safe: the theorems.
--
-- Access is adapters/http/middleware.go. Limiter: the rate limiter, request by request in the order
-- in which they take its lock. Windows: how many get through.
--
-- Campaigns is core/services/campaign_service.go and worker/campaign_executor.go. Service and
-- Execute: the service's operations. Machine: the commands of a client, the step relation of the
-- statuses. Phases and Lives: sequences of commands. Vetted and Safety: to whom `Execute` sends.
-- Executor: `ExecuteCampaign`; Screened and Progress: to whom it sends and what it reports.
--
-- Api is adapters/http/response.go and adapters/http/validation.go. Respond: the response to an error;
-- Go ranges over the map of codes in any order, which is an argument. Order: what it comes to in
-- every order. Validate: the validators. Refusals and Normal: the theorems.
--
-- Identity is pkg/permissions/permissions.go (Permissions) and pkg/authctx/authctx.go (Context,
-- Claims, Bridge). Parsing a UUID, base64 and JSON are the parameter Decoders. Grants, Bridged: the
-- theorems.
--
-- Billing is core/services/billing_service.go. Env: ledger, rate cards, and float64 amounts by their
-- bits. Service: the operations. Charges: what a message is charged.
--
-- Mail is core/services/email_sender.go and core/services/messaging_gateway.go, the module's own
-- clients of `Send`, whose model they use. Requests: what they ask for. Gateway: `Submit`.
--
-- Registry is core/services/provider_registry.go. Lookup: the maps and `GetProvider`. Choice: what
-- it picks. Templates is core/services/template_service.go; Approval: what a provider approves. Its
-- Emails and Versions are core/services/email_template_service.go, Worker is
-- worker/template_sync.go. Conversations is core/services/conversation_service.go; Sound: what
-- reaches the repository.
--
-- Onboarding is core/services/whatsapp_onboarding_service.go. Accounts: owners, `upsertProviderConfig`,
-- `SyncWABA`. Sync: phone numbers, `SyncWhatsAppAccount`. Sessions: the callback. Commands: one
-- number synchronised, disconnecting by WABA. Isolation, Phones and Callback: numbers of other tenants.
--
-- Http is adapters/http, route by route. Env: the request and its bodies (Bodies), what a handler
-- asks of core/ports/services.go (Operation) and the calls it makes. Steps: guards, pages, early
-- returns (Returns), the helpers of response.go and how a handler ends. Messages, Contacts,
-- Campaigns, Templates, Inbox, Billing, Lists and Providers: the handlers by file, handle_x for a
-- method X; Inbox is conversation_handler.go and tenant_webhook_handler.go, Billing has
-- analytics_handler.go too, Lists segments, unsubscribes and suppressions, Providers
-- whatsapp_onboarding_handler.go too. Routes: the permissions of routes.go. Dispatch: from a route
-- to its handler. Callbacks: webhook_handler.go, which spur.json mounts beside the routes, and the
-- unsubscribe link. Entry: `RegisterRoutes` of module.go, the bridge, the limiter and the
-- handlers in a row. Guarded, Denied, Steady, Answered, Bounded: the theorems on the handlers.
-- Served: the handlers over MessageService, with `Execute` of campaigns as any operation on the same
-- queue. Entered, Metered: the theorems on the chain. Services, JSON decoding,
-- UUIDs, numbers, times and addresses are fields of HttpEnv.
--
-- Not modelled: SQL and generated code under adapters/postgres, the HTTP and SMTP traffic of
-- adapters/providers, Redis, the suppression, unsubscribe and email analytics services (one query
-- each), the construction of the components, logging and the contents of JSON.
pub mod Prelude
pub mod Domain
pub mod Calls
pub mod Campaigns
pub mod Api
pub mod Message
pub mod Webhook
pub mod Contacts
pub mod Sender
pub mod Deliveries
pub mod Access
pub mod Onboarding
pub mod Http
pub mod Conversations
pub mod Templates
pub mod Registry
pub mod Mail
pub mod Billing
pub mod Identity
