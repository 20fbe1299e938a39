-- ===== src/Templates/Service.antt =====
-- core/services/template_service.go: the operations on a template.
use spur_messaging.Prelude.{String, Bool, true, false, not, Option, none, some}
use spur_messaging.Domain.Errors.{validation_error, conflict_error}
use spur_messaging.Domain.Message.{Uuid}
use spur_messaging.Domain.Template.{
  TemplateStatus, Template, draft, pending, rejected, template_status_eq,
}
use spur_messaging.Calls.{Result, ok, Op, pure, ◌>>=◌, ◌>>◌, call, draw, attempt, guard}
use spur_messaging.Templates.Env.{
  CreateTemplateRequest, UpdateTemplateRequest, TemplateCall, TemplateEnv, drew_id, read_clock,
  asked_template, asked_name, created_template, updated_template, set_status, asked_provider,
  submitted_template, asked_status, deleted_template,
}

abbrev pub is_draft : TemplateStatus → Bool
is_draft draft = true
is_draft _ = false

abbrev pub is_editable : TemplateStatus → Bool
is_editable draft = true
is_editable rejected = true
is_editable _ = false

abbrev pub field_or {ℓ} : {A : Type ℓ} → Option A → A → A
field_or none old = old
field_or (some new) old = new

abbrev pub is_taken : Result (Option Template) → Bool
is_taken (ok (some t)) = true
is_taken _ = false

module _ (env : TemplateEnv) (tenant_id : Uuid) where
  abbrev pub find : Uuid → Op TemplateCall Template
  find id = call (λ h. env.get_by_id h tenant_id id) (asked_template tenant_id id)

  -- `Create`.
  unfoldable pub create : CreateTemplateRequest → Op TemplateCall Template
  create req = do
    existing ← attempt (
        call (λ h. env.get_by_name h tenant_id req.name req.language)
          (asked_name tenant_id req.name req.language))
    guard (not (is_taken existing)) (conflict_error "template with this name and language exists")
    id ← draw env.new_uuid drew_id
    now ← draw env.clock read_clock
    later ← draw env.clock read_clock
    let tmpl : Template = record {
      id = id;
      tenant_id = tenant_id;
      channel = req.channel;
      name = req.name;
      language = req.language;
      category = req.category;
      components = req.components;
      status = draft;
      provider_template_id = none;
      rejection_reason = none;
      created_at = now;
      updated_at = later;
    }
    call (λ h. env.create h tmpl) (created_template tmpl)
    pure tmpl

  -- `Update`.
  unfoldable pub update : Uuid → UpdateTemplateRequest → Op TemplateCall Template
  update id req = do
    tmpl ← find id
    guard (is_editable tmpl.status)
        (validation_error "status" "approved/pending templates cannot be edited")
    now ← draw env.clock read_clock
    let changed = record tmpl {
      category = field_or req.category tmpl.category;
      components = field_or req.components tmpl.components;
      updated_at = now;
    }
    call (λ h. env.update h changed) (updated_template changed)
    pure changed

  -- `Delete`.
  unfoldable pub delete : Uuid → Op TemplateCall (Unit {0})
  delete id = call (λ h. env.delete h tenant_id id) (deleted_template tenant_id id)

  -- `SubmitForApproval`.
  unfoldable pub submit_for_approval : Uuid → Op TemplateCall Template
  submit_for_approval id = do
    tmpl ← find id
    guard (is_draft tmpl.status) (validation_error "status" "only draft templates can be submitted")
    cfg ←
        call (λ h. env.get_provider h tenant_id tmpl.channel)
          (asked_provider tenant_id tmpl.channel)
    provider_id ← call (λ h. env.submit_template h cfg tmpl) (submitted_template cfg tmpl)
    now ← draw env.clock read_clock
    call (λ h. env.update_status h tenant_id id pending (some provider_id) none)
        (set_status tenant_id id pending (some provider_id) none)
    pure (record tmpl {
      status = pending;
      provider_template_id = some provider_id;
      updated_at = now;
    })

  abbrev pub take_status :
      Uuid → Template → TemplateStatus × Option String → Bool → Op TemplateCall Template
  take_status id tmpl news true = pure tmpl
  take_status id tmpl (status, reason) false = do
    now ← draw env.clock read_clock
    call (λ h. env.update_status h tenant_id id status tmpl.provider_template_id reason)
        (set_status tenant_id id status tmpl.provider_template_id reason)
    pure (record tmpl { status = status; rejection_reason = reason; updated_at = now })

  abbrev pub sync_with : Uuid → Template → Option String → Op TemplateCall Template
  sync_with id tmpl none = pure tmpl
  sync_with id tmpl (some provider_id) = do
    cfg ←
        call (λ h. env.get_provider h tenant_id tmpl.channel)
          (asked_provider tenant_id tmpl.channel)
    news ← call (λ h. env.get_template_status h cfg provider_id) (asked_status cfg provider_id)
    take_status id tmpl news (template_status_eq news.0 tmpl.status)

  -- `SyncStatus`.
  unfoldable pub sync_status : Uuid → Op TemplateCall Template
  sync_status id = do tmpl ← find id; sync_with id tmpl tmpl.provider_template_id
