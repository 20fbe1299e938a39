-- ===== src/Templates/Worker.antt =====
-- worker/template_sync.go: the worker that asks providers for the statuses of pending templates.
use spur_messaging.Prelude.{
  String, Bool, true, false, Option, some, List, [], ◌∷◌, ◌≡◌, refl, arith,
}
use spur_messaging.Domain.Message.{Channel, whatsapp}
use spur_messaging.Domain.Template.{TemplateStatus, Template, template_status_eq}
use spur_messaging.Calls.{Result, ok, err, Op, pure, ◌>>=◌, ◌>>◌, call, attempt}
use spur_messaging.Registry.Lookup.{ProviderConfig}
use spur_messaging.Templates.Env.{
  TemplateCall, TemplateHistory, TemplateEnv, set_status, asked_provider, asked_status,
}

module _ (env : TemplateEnv) where
  abbrev store_news :
      Template
      → (provider_id : String) → TemplateStatus × Option String
      → Bool
      → Op TemplateCall (Unit {0})
  store_news tmpl provider_id news true = pure tt
  store_news tmpl provider_id (status, reason) false = do
    outcome ← attempt (
        call (λ h. env.update_status h tmpl.tenant_id tmpl.id status (some provider_id) reason)
          (set_status tmpl.tenant_id tmpl.id status (some provider_id) reason))
    pure tt

  abbrev take_news :
      Template
      → (provider_id : String) → Result (TemplateStatus × Option String)
      → Op TemplateCall (Unit {0})
  take_news tmpl provider_id (err e) = pure tt
  take_news tmpl provider_id (ok news) =
      store_news tmpl provider_id news (template_status_eq news.0 tmpl.status)

  abbrev ask_with :
      Template → (provider_id : String) → Result ProviderConfig → Op TemplateCall (Unit {0})
  ask_with tmpl provider_id (err e) = pure tt
  ask_with tmpl provider_id (ok cfg) = do
    news ←
        attempt
          (call (λ h. env.get_template_status h cfg provider_id) (asked_status cfg provider_id))
    take_news tmpl provider_id news

  abbrev if_submitted : Template → Channel → Option String → Op TemplateCall (Unit {0})
  if_submitted tmpl whatsapp (some provider_id) = do
    found ← attempt (
        call (λ h. env.get_provider h tmpl.tenant_id tmpl.channel)
          (asked_provider tmpl.tenant_id tmpl.channel))
    ask_with tmpl provider_id found
  if_submitted tmpl channel id = pure tt

  -- One turn of the loop; what fails is passed over.
  unfoldable pub sync_template : Template → Op TemplateCall (Unit {0})
  sync_template tmpl = if_submitted tmpl tmpl.channel tmpl.provider_template_id

  -- The loop.
  unfoldable pub sync_templates : List Template → Op TemplateCall (Unit {0})
  unfolding sync_template
  sync_templates [] = pure tt
  sync_templates (tmpl ∷ tmpls) = sync_template tmpl >> sync_templates tmpls

  -- `SyncPendingTemplates`, whose list is declared and never filled.
  unfoldable pub sync_pending_templates : Op TemplateCall (Unit {0})
  unfolding sync_templates
  sync_pending_templates = sync_templates []

  -- The worker calls nothing.
  pub sync_pending_templates_lem : (h : TemplateHistory) → sync_pending_templates h ≡ (ok tt, h)
  unfolding sync_pending_templates sync_templates
  sync_pending_templates_lem h = refl

  sync_template_ok : (tmpl : Template) (h : TemplateHistory) → (sync_template tmpl h).0 ≡ ok tt
  unfolding sync_template
  sync_template_ok tmpl h = ground arith

  -- Nothing that fails ends the loop.
  pub sync_templates_ok :
      (tmpls : List Template) (h : TemplateHistory) → (sync_templates tmpls h).0 ≡ ok tt
  unfolding sync_templates
  sync_templates_ok [] h = refl
  sync_templates_ok (tmpl ∷ tmpls) h =
      let one = sync_template_ok tmpl h in
      let rest = sync_templates_ok tmpls (sync_template tmpl h).1 in ground arith
