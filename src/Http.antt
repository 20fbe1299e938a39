-- ===== src/Http.antt =====
-- adapters/http: the handlers, from the routed request to the response.
pub mod Env
pub mod Steps
pub mod Messages
pub mod Contacts
pub mod Campaigns
pub mod Templates
pub mod Inbox
pub mod Billing
pub mod Lists
pub mod Providers
pub mod Routes
pub mod Callbacks
pub mod Dispatch
pub mod Guarded
pub mod Denied
pub mod Steady
pub mod Served
pub mod Entry
pub mod Entered
pub mod Metered
pub mod Answered
pub mod Bounded
pub mod Tests
mod Arrivals
