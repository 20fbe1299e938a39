-- ===== src/Domain/Contact.antt =====
-- core/domain/contact.go: contacts, and where each stands with consent on each channel.
use spur_messaging.Prelude.{String, Option, List, Metadata, Bool, true, false}
use spur_messaging.Domain.Message.{Uuid, Time, Channel, whatsapp, sms, email, other_channel}

pub data OptInStatus : Type 0 where
  pending double_opt_in_pending opted_in opted_out : OptInStatus
  other_opt_in : String → OptInStatus

abbrev pub is_opted_in : OptInStatus → Bool
is_opted_in opted_in = true
is_opted_in _ = false

pub record Contact : Type 0 where
  pub id : Uuid
  pub tenant_id : Uuid
  pub phone : Option String
  pub email_address : Option String
  pub name : Option String
  pub attributes : Metadata
  pub tags : List String
  pub opt_in_whatsapp : OptInStatus
  pub opt_in_sms : OptInStatus
  pub opt_in_email : OptInStatus
  pub created_at : Time
  pub updated_at : Time

-- The `switch` on the channel that the senders make: `optedIn` stays false on any other channel.
unfoldable pub is_opted_in_on : Channel → Contact → Bool
is_opted_in_on whatsapp c = is_opted_in c.opt_in_whatsapp
is_opted_in_on sms c = is_opted_in c.opt_in_sms
is_opted_in_on email c = is_opted_in c.opt_in_email
is_opted_in_on (other_channel s) c = false
