-- ===== src/Contacts/Env.antt =====
-- core/services/contact_service.go: what `ContactService` is asked for and what it calls.
use spur_messaging.Prelude.{ℕ, String, Bool, Option, List, Metadata}
use spur_messaging.Domain.Message.{Uuid, Time, Channel}
use spur_messaging.Domain.Contact.{OptInStatus, Contact}
use spur_messaging.Calls.{Result}

-- ports.CreateContactRequest.
pub record CreateContactRequest : Type 0 where
  pub phone : Option String
  pub email_address : Option String
  pub name : Option String
  pub attributes : Metadata
  pub tags : List String

-- ports.UpdateContactRequest.
pub record UpdateContactRequest : Type 0 where
  pub phone : Option String
  pub email_address : Option String
  pub name : Option String
  pub attributes : Option Metadata
  pub tags : Option (List String)

-- ports.ConsentEvidence.
pub record ConsentEvidence : Type 0 where
  pub source : String
  pub purpose : String
  pub proof : String
  pub ip_address : String
  pub user_agent : String
  pub brand : String
  pub keyword : String
  pub locale : String
  pub expires_at : Option Time
  pub confirmed_at : Option Time
  pub double_opt_in_required : Bool

-- domain.ConsentRecord.
pub record ConsentRecord : Type 0 where
  pub id : Uuid
  pub tenant_id : Uuid
  pub contact_id : Uuid
  pub channel : Channel
  pub status : OptInStatus
  pub source : String
  pub purpose : String
  pub proof : String
  pub ip_address : String
  pub user_agent : String
  pub brand : String
  pub keyword : String
  pub locale : String
  pub expires_at : Option Time
  pub confirmed_at : Option Time
  pub created_at : Time

pub data ContactCall : Type 0 where
  drew_id : Uuid → ContactCall
  read_clock : Time → ContactCall
  asked_contact : Uuid → Uuid → Result Contact → ContactCall
  asked_phone : Uuid → String → Result Contact → ContactCall
  asked_address : Uuid → String → Result Contact → ContactCall
  created_contact : Contact → Result Contact → ContactCall
  updated_contact : Contact → Result Contact → ContactCall
  updated_opt_in : Uuid → Uuid → Channel → OptInStatus → Result (Unit {0}) → ContactCall
  deleted_contact : Uuid → Uuid → Result (Unit {0}) → ContactCall
  created_record : ConsentRecord → Result (Unit {0}) → ContactCall
  listed_records : Uuid → Uuid → ℕ → ℕ → Result (List ConsentRecord) → ContactCall

abbrev pub ContactHistory : Type 0
ContactHistory = List ContactCall

-- `create` and `update` answer the stored row, which the repository writes back.
pub record ContactEnv : Type 0 where
  pub new_uuid : ContactHistory → Uuid
  pub clock : ContactHistory → Time
  pub get_by_id : ContactHistory → Uuid → Uuid → Result Contact
  pub get_by_phone : ContactHistory → Uuid → String → Result Contact
  pub get_by_email : ContactHistory → Uuid → String → Result Contact
  pub create : ContactHistory → Contact → Result Contact
  pub update : ContactHistory → Contact → Result Contact
  pub update_opt_in : ContactHistory → Uuid → Uuid → Channel → OptInStatus → Result (Unit {0})
  pub delete : ContactHistory → Uuid → Uuid → Result (Unit {0})
  pub create_consent_record : ContactHistory → ConsentRecord → Result (Unit {0})
  pub list_consent_records : ContactHistory → Uuid → Uuid → ℕ → ℕ → Result (List ConsentRecord)
