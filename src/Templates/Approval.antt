-- ===== src/Templates/Approval.antt =====
-- core/services/template_service.go: what a provider approves is what is stored.
use spur_messaging.Prelude.{true, ◌≡◌, ◌⊎◌, [], ◌∷◌, arith}
use spur_messaging.Domain.Errors.{validation_error}
use spur_messaging.Domain.Message.{Uuid}
use spur_messaging.Domain.Template.{Template, rejected}
use spur_messaging.Calls.{ok, err, Op}
use spur_messaging.Templates.Env.{
  UpdateTemplateRequest, TemplateCall, TemplateHistory, TemplateEnv, asked_template,
  updated_template, set_status, submitted_template,
}
use spur_messaging.Templates.Service.{
  is_draft, is_editable, update, submit_for_approval, sync_status,
}

-- What a client may ask of a stored template.
pub data Command : Type 0 where
  asks_update : UpdateTemplateRequest → Command
  asks_submit asks_sync : Command

unfoldable pub obey : TemplateEnv → Uuid → Uuid → Command → Op TemplateCall Template
obey env tenant_id id (asks_update req) = update env tenant_id id req
obey env tenant_id id asks_submit = submit_for_approval env tenant_id id
obey env tenant_id id asks_sync = sync_status env tenant_id id

-- What a call may write, given the template that was found: new content only where its status lets
-- it be edited, with the status kept; a provider gets only a draft; a status is written only where the
-- template is a draft, or with the provider's ID that it has.
abbrev pub MayWrite : Uuid → Uuid → Template → TemplateCall → Type 0
MayWrite t id old (updated_template new r) =
    (is_editable old.status ≡ true)
    × (new.status ≡ old.status)
    × (new.id ≡ old.id)
    × (new.tenant_id ≡ old.tenant_id)
    × (new.provider_template_id ≡ old.provider_template_id)
MayWrite t id old (submitted_template cfg x r) = (is_draft old.status ≡ true) × (x ≡ old)
MayWrite t id old (set_status u j status p reason r) =
    (u ≡ t) × (j ≡ id) × ((is_draft old.status ≡ true) ⊎ (p ≡ old.provider_template_id))
MayWrite t id old c = Unit

abbrev pub AllMayWrite : Uuid → Uuid → Template → TemplateHistory → Type 0
AllMayWrite t id old [] = Unit
AllMayWrite t id old (c ∷ h) = MayWrite t id old c × AllMayWrite t id old h

module _ (env : TemplateEnv) (tenant_id id : Uuid) where
  -- Whatever is asked of a template that is found, and whichever calls fail: its content is written
  -- only while it is a draft or rejected, and then its status, its owner and the provider's ID stay as
  -- they are; a provider is given only a draft, just as it was found; and a status is written only for
  -- this template, with the provider's ID that it had unless it was a draft.
  pub obey-AllMayWrite :
      (cmd : Command) {tmpl : Template}
      → env.get_by_id [] tenant_id id ≡ ok tmpl
      → AllMayWrite tenant_id id tmpl (obey env tenant_id id cmd []).1
  unfolding obey update submit_for_approval sync_status
  obey-AllMayWrite (asks_update req) found = ground arith
  obey-AllMayWrite asks_submit found = ground arith
  obey-AllMayWrite asks_sync found = ground arith

  -- A rejected template stays rejected under editing, and is refused when it is submitted again.
  pub rejected_lem :
      (req : UpdateTemplateRequest) (h : TemplateHistory) {tmpl new : Template}
      → env.get_by_id h tenant_id id ≡ ok tmpl
      → tmpl.status ≡ rejected
      → ((update env tenant_id id req h).0 ≡ ok new → new.status ≡ rejected)
        × (submit_for_approval env tenant_id id h ≡ (
          err (validation_error "status" "only draft templates can be submitted"),
          asked_template tenant_id id (ok tmpl) ∷ h,
        ))
  unfolding update submit_for_approval
  rejected_lem req h found bad = (λ e. ground arith, ground arith)
