-- ===== src/Onboarding/Callback.antt =====
-- core/services/whatsapp_onboarding_service.go: numbers of other tenants, whatever a client asks.
