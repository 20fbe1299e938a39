-- ===== src/Templates/Emails.antt =====
-- core/services/email_template_service.go: the operations on an email template.
use spur_messaging.Prelude.{
  ◌+◌, ◌%◌, ◌^◌, String, Bool, true, Option, List, Metadata, is_empty, if◌then◌else◌,
}
use spur_messaging.Domain.Message.{Uuid, Time}
use spur_messaging.Domain.Template.{EmailTemplate}
use spur_messaging.Calls.{Result, Op, pure, ◌>>=◌, ◌>>◌, call, draw}
use spur_messaging.Message.Email.{render_email}
use spur_messaging.Templates.Service.{field_or}

pub record CreateEmailTemplateRequest : Type 0 where
  pub name : String
  pub subject : String
  pub preview_text : String
  pub html_body : String
  pub text_body : String
  pub category : String
  pub variables : List String

pub record UpdateEmailTemplateRequest : Type 0 where
  pub subject : Option String
  pub preview_text : Option String
  pub html_body : Option String
  pub text_body : Option String
  pub category : Option String
  pub variables : Option (List String)
  pub is_active : Option Bool

pub record EmailPreview : Type 0 where
  pub subject : String
  pub html_body : String
  pub text_body : String

pub data EmailCall : Type 0 where
  drew_id : Uuid → EmailCall
  read_clock : Time → EmailCall
  asked_email : Uuid → Uuid → Result EmailTemplate → EmailCall
  created_email : EmailTemplate → Result (Unit {0}) → EmailCall
  deleted_email : Uuid → Uuid → Result (Unit {0}) → EmailCall
  updated_email : EmailTemplate → Result (Unit {0}) → EmailCall

abbrev pub EmailHistory : Type 0
EmailHistory = List EmailCall

pub record EmailEnv : Type 0 where
  pub new_uuid : EmailHistory → Uuid
  pub clock : EmailHistory → Time
  pub get_by_id : EmailHistory → Uuid → Uuid → Result EmailTemplate
  pub create : EmailHistory → EmailTemplate → Result (Unit {0})
  pub update : EmailHistory → EmailTemplate → Result (Unit {0})
  pub delete : EmailHistory → Uuid → Uuid → Result (Unit {0})

module _ (env : EmailEnv) (tenant_id : Uuid) where
  abbrev find_email : Uuid → Op EmailCall EmailTemplate
  find_email id = call (λ h. env.get_by_id h tenant_id id) (asked_email tenant_id id)

  -- `Create`; its `stripHTML` answers the HTML as it is.
  unfoldable pub create_email : CreateEmailTemplateRequest → Op EmailCall EmailTemplate
  create_email req = do
    id ← draw env.new_uuid drew_id
    now ← draw env.clock read_clock
    later ← draw env.clock read_clock
    let tmpl : EmailTemplate = record {
      id = id;
      tenant_id = tenant_id;
      name = req.name;
      subject = req.subject;
      preview_text = req.preview_text;
      html_body = req.html_body;
      text_body = if is_empty req.text_body then req.html_body else req.text_body;
      category = req.category;
      variables = req.variables;
      is_active = true;
      version = 1;
      created_at = now;
      updated_at = later;
    }
    call (λ h. env.create h tmpl) (created_email tmpl)
    pure tmpl

  -- `Update`.
  unfoldable pub update_email : Uuid → UpdateEmailTemplateRequest → Op EmailCall EmailTemplate
  update_email id req = do
    tmpl ← find_email id
    now ← draw env.clock read_clock
    let changed = record tmpl {
      subject = field_or req.subject tmpl.subject;
      preview_text = field_or req.preview_text tmpl.preview_text;
      html_body = field_or req.html_body tmpl.html_body;
      text_body = field_or req.text_body tmpl.text_body;
      category = field_or req.category tmpl.category;
      variables = field_or req.variables tmpl.variables;
      is_active = field_or req.is_active tmpl.is_active;
      version = (tmpl.version + 1) % 2 ^ 64;
      updated_at = now;
    }
    call (λ h. env.update h changed) (updated_email changed)
    pure changed

  -- `Delete`.
  unfoldable pub delete_email : Uuid → Op EmailCall (Unit {0})
  delete_email id = call (λ h. env.delete h tenant_id id) (deleted_email tenant_id id)

  -- `Preview`, where the loop comes to the variables in the order of the list.
  unfoldable pub preview : Uuid → Metadata → Op EmailCall EmailPreview
  unfolding render_email
  preview id variables = do
    tmpl ← find_email id
    pure (record {
      subject = render_email tmpl.subject variables;
      html_body = render_email tmpl.html_body variables;
      text_body = render_email tmpl.text_body variables;
    })

  -- `Duplicate`.
  unfoldable pub duplicate : Uuid → String → Op EmailCall EmailTemplate
  duplicate id new_name = do
    tmpl ← find_email id
    copy_id ← draw env.new_uuid drew_id
    now ← draw env.clock read_clock
    later ← draw env.clock read_clock
    let copy = record tmpl {
      id = copy_id;
      name = new_name;
      created_at = now;
      updated_at = later;
      version = 1;
    }
    call (λ h. env.create h copy) (created_email copy)
    pure copy
