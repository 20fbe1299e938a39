-- ===== src/Domain/Template.antt =====
-- core/domain/template.go and email_template.go, as far as sending reads them.
use spur_messaging.Prelude.{ℕ, String, Bool, true, false, Option, List, str_eq}
use spur_messaging.Domain.Message.{Uuid, Time, Channel}

pub data TemplateStatus : Type 0 where
  draft pending approved rejected : TemplateStatus
  other_status : String → TemplateStatus

abbrev pub is_approved : TemplateStatus → Bool
is_approved approved = true
is_approved _ = false

abbrev pub template_status_eq : TemplateStatus → TemplateStatus → Bool
template_status_eq draft draft = true
template_status_eq pending pending = true
template_status_eq approved approved = true
template_status_eq rejected rejected = true
template_status_eq (other_status s) (other_status t) = str_eq s t
template_status_eq _ _ = false

pub record TemplateButton : Type 0 where
  pub type : String
  pub text : String
  pub url : Option String
  pub phone_number : Option String

pub record TemplateExample : Type 0 where
  pub header_handle : List String
  pub body_text : List (List String)

pub record TemplateComponent : Type 0 where
  pub type : String
  pub format : Option String
  pub text : Option String
  pub example : Option TemplateExample
  pub buttons : List TemplateButton

pub record Template : Type 0 where
  pub id : Uuid
  pub tenant_id : Uuid
  pub channel : Channel
  pub name : String
  pub language : String
  pub category : String
  pub components : List TemplateComponent
  pub status : TemplateStatus
  pub provider_template_id : Option String
  pub rejection_reason : Option String
  pub created_at : Time
  pub updated_at : Time

-- `version` is an `int`, by its 64 bits.
pub record EmailTemplate : Type 0 where
  pub id : Uuid
  pub tenant_id : Uuid
  pub name : String
  pub subject : String
  pub preview_text : String
  pub html_body : String
  pub text_body : String
  pub category : String
  pub variables : List String
  pub is_active : Bool
  pub version : ℕ
  pub created_at : Time
  pub updated_at : Time
