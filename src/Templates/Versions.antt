-- ===== src/Templates/Versions.antt =====
-- core/services/email_template_service.go: what the operations on a stored template write.
use spur_messaging.Prelude.{◌≡◌, ◌+◌, ◌%◌, ◌^◌, String, [], ◌∷◌, Metadata, arith}
use spur_messaging.Domain.Message.{Uuid}
use spur_messaging.Domain.Template.{EmailTemplate}
use spur_messaging.Calls.{ok, Op, pure, ◌>>=◌}
use spur_messaging.Templates.Emails.{
  UpdateEmailTemplateRequest, EmailPreview, EmailCall, EmailHistory, EmailEnv, created_email,
  updated_email, update_email, preview, duplicate,
}

pub data EmailCommand : Type 0 where
  asks_update : UpdateEmailTemplateRequest → EmailCommand
  asks_preview : Metadata → EmailCommand
  asks_duplicate : String → EmailCommand

abbrev drop_template : EmailTemplate → Op EmailCall (Unit {0})
drop_template t = pure tt

abbrev drop_preview : EmailPreview → Op EmailCall (Unit {0})
drop_preview p = pure tt

unfoldable pub obey_email : EmailEnv → Uuid → Uuid → EmailCommand → Op EmailCall (Unit {0})
obey_email env t id (asks_update req) = update_email env t id req >>= drop_template
obey_email env t id (asks_preview variables) = preview env t id variables >>= drop_preview
obey_email env t id (asks_duplicate name) = duplicate env t id name >>= drop_template

-- An update is the next version of the same template, and a copy is the first version of a template
-- of the same tenant with the same content.
abbrev pub KeepsVersions : EmailTemplate → EmailCall → Type 0
KeepsVersions old (updated_email new r) =
    (new.id ≡ old.id)
    × (new.tenant_id ≡ old.tenant_id)
    × (new.name ≡ old.name)
    × (new.created_at ≡ old.created_at)
    × (new.version ≡ (old.version + 1) % 2 ^ 64)
KeepsVersions old (created_email new r) =
    (new.tenant_id ≡ old.tenant_id)
    × (new.subject ≡ old.subject)
    × (new.html_body ≡ old.html_body)
    × (new.text_body ≡ old.text_body)
    × (new.version ≡ 1)
KeepsVersions old c = Unit

abbrev pub AllKeepVersions : EmailTemplate → EmailHistory → Type 0
AllKeepVersions old [] = Unit
AllKeepVersions old (c ∷ h) = KeepsVersions old c × AllKeepVersions old h

-- Whatever is asked of an email template that is found, and whichever calls fail, each row that is
-- written over it is the template under the same ID, tenant, name and creation time with the next
-- version, modulo 2^64, and each row that is added is the tenant's, with the template's subject and
-- bodies and version 1.
pub obey_email-AllKeepVersions :
    (env : EmailEnv) (t id : Uuid) (cmd : EmailCommand) {tmpl : EmailTemplate}
    → env.get_by_id [] t id ≡ ok tmpl
    → AllKeepVersions tmpl (obey_email env t id cmd []).1
unfolding obey_email update_email preview duplicate
obey_email-AllKeepVersions env t id (asks_update req) found = ground arith
obey_email-AllKeepVersions env t id (asks_preview variables) found = ground arith
obey_email-AllKeepVersions env t id (asks_duplicate name) found = ground arith
