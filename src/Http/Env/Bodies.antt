-- ===== src/Http/Env/Bodies.antt =====
-- adapters/http: the request, the bodies that the handlers decode, and the filters of the lists.
use spur_messaging.Prelude.{String, Bool, Option, List, Metadata}
use spur_messaging.Prelude.Int.{ℤ}
use spur_messaging.Domain.Message.{Uuid, Time, Channel, MessageStatus}
use spur_messaging.Message.Env.{SendRequest}
use spur_messaging.Contacts.Env.{ConsentEvidence}
use spur_messaging.Sender.Env.{Cost}
use spur_messaging.Identity.Context.{Context}
use spur_messaging.Api.Validate.{SegmentRule}

-- `http.Request`: the context, the parameters of the path, the query, the headers and the body.
pub record Request : Type 0 where
  pub context : Context
  pub path : String → String
  pub query : String → String
  pub header : String → String
  pub user_agent : String
  pub remote_addr : String
  pub body : String
  pub has_body : Bool

-- The struct that `SendMessage` decodes: a request, with fields beside it.
pub record SendBody : Type 0 where
  pub request : SendRequest
  pub track_opens : Option Bool
  pub track_clicks : Option Bool
  pub from_email : String
  pub from_name : String
  pub reply_to : String
  pub sender_id : String
  pub idempotency : String
  pub cc : List String
  pub bcc : List String

-- The structs of `OptIn`, `ConfirmOptIn` and `OptOut`; only the first reads the last two fields.
pub record ConsentBody : Type 0 where
  pub channel : Channel
  pub consent : ConsentEvidence
  pub source : String
  pub purpose : String
  pub proof : String
  pub brand : String
  pub keyword : String
  pub locale : String
  pub expires_at : Option Time
  pub double_opt_in_required : Bool

pub record MoneyBody : Type 0 where
  pub amount : Cost
  pub currency : String
  pub description : String
  pub metadata : Metadata

pub record RateBody : Type 0 where
  pub channel : Channel
  pub category : String
  pub country : String
  pub currency : String
  pub unit_price : Cost
  pub effective_from : String
  pub platform_wide : Bool

-- The structs of `AddToSuppression` and `BulkCheckSuppression`.
pub record SuppressionBody : Type 0 where
  pub channel : String
  pub recipient : String
  pub email_address : String
  pub reason : String

pub record SuppressionCheckBody : Type 0 where
  pub channel : String
  pub recipients : List String
  pub email_addresses : List String

pub record ProviderTestBody : Type 0 where
  pub recipient : String
  pub message : String

pub record Segment : Type 0 where
  pub id : Uuid
  pub tenant_id : Uuid
  pub name : String
  pub is_dynamic : Bool
  pub rules : List SegmentRule
  pub created_at : Time
  pub updated_at : Time

-- ports.MessageFilter and ports.ContactFilter, less the fields that no handler sets.
pub record MessageFilter : Type 0 where
  pub channel : Option Channel
  pub status : Option MessageStatus
  pub recipient : Option String
  pub page : ℤ
  pub per_page : ℤ

pub record ContactFilter : Type 0 where
  pub phone : Option String
  pub email_address : Option String
  pub tag : Option String
  pub page : ℤ
  pub per_page : ℤ
