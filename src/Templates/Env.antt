-- ===== src/Templates/Env.antt =====
-- core/services/template_service.go: what it is asked for and what it calls.
use spur_messaging.Prelude.{String, Option, List}
use spur_messaging.Domain.Message.{Uuid, Time, Channel}
use spur_messaging.Domain.Template.{TemplateStatus, TemplateComponent, Template}
use spur_messaging.Calls.{Result}
use spur_messaging.Registry.Lookup.{ProviderConfig}

pub record CreateTemplateRequest : Type 0 where
  pub channel : Channel
  pub name : String
  pub language : String
  pub category : String
  pub components : List TemplateComponent

pub record UpdateTemplateRequest : Type 0 where
  pub category : Option String
  pub components : Option (List TemplateComponent)

pub data TemplateCall : Type 0 where
  drew_id : Uuid → TemplateCall
  read_clock : Time → TemplateCall
  asked_template : Uuid → Uuid → Result Template → TemplateCall
  asked_name : Uuid → (name language : String) → Result (Option Template) → TemplateCall
  created_template : Template → Result (Unit {0}) → TemplateCall
  updated_template : Template → Result (Unit {0}) → TemplateCall
  deleted_template : Uuid → Uuid → Result (Unit {0}) → TemplateCall
  set_status :
      Uuid
      → Uuid
      → TemplateStatus
      → (provider_id reason : Option String) → Result (Unit {0})
      → TemplateCall
  asked_provider : Uuid → Channel → Result ProviderConfig → TemplateCall
  submitted_template : ProviderConfig → Template → Result String → TemplateCall
  asked_status : ProviderConfig → String → Result (TemplateStatus × Option String) → TemplateCall

abbrev pub TemplateHistory : Type 0
TemplateHistory = List TemplateCall

pub record TemplateEnv : Type 0 where
  pub new_uuid : TemplateHistory → Uuid
  pub clock : TemplateHistory → Time
  pub get_by_id : TemplateHistory → Uuid → Uuid → Result Template
  pub get_by_name : TemplateHistory → Uuid → (name language : String) → Result (Option Template)
  pub create : TemplateHistory → Template → Result (Unit {0})
  pub update : TemplateHistory → Template → Result (Unit {0})
  pub delete : TemplateHistory → Uuid → Uuid → Result (Unit {0})
  pub update_status :
      TemplateHistory
      → Uuid
      → Uuid
      → TemplateStatus
      → (provider_id reason : Option String) → Result (Unit {0})
  pub get_provider : TemplateHistory → Uuid → Channel → Result ProviderConfig
  pub submit_template : TemplateHistory → ProviderConfig → Template → Result String
  pub get_template_status :
      TemplateHistory → ProviderConfig → String → Result (TemplateStatus × Option String)
