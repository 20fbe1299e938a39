-- ===== src/Domain/Message.antt =====
-- core/domain/message.go and core/domain/channel.go: channels, message statuses and their ranks.
use spur_messaging.Prelude.{ℕ, ◌*◌, String, Bool, true, false, Option, none, some, Metadata}
use spur_messaging.Prelude.Int.{ℤ, pos, negsuc}

-- `uuid.UUID`, read as its 128-bit number; `uuid.Nil` is 0.
abbrev pub Uuid : Type 0
Uuid = ℕ

-- `time.Time` and `time.Duration`, in nanoseconds.
abbrev pub Time : Type 0
Time = ℕ

abbrev pub seconds : ℕ → Time
seconds n = n * 1_000_000_000

-- A `Channel` is text; `other_channel` stands for every text but the three constants.
pub data Channel : Type 0 where
  whatsapp sms email : Channel
  other_channel : String → Channel

abbrev pub is_email : Channel → Bool
is_email email = true
is_email _ = false

abbrev pub is_whatsapp : Channel → Bool
is_whatsapp whatsapp = true
is_whatsapp _ = false

-- `unknown_status` stands for every text but the constants.
pub data MessageStatus : Type 0 where
  created validated queued provider_submitted sent delivered read opened clicked replied :
      MessageStatus
  failed cancelled expired suppressed : MessageStatus
  unknown_status : String → MessageStatus

-- The map `messageStatusRanks`.
unfoldable pub message_status_ranks : MessageStatus → Option ℕ
message_status_ranks created = some 0
message_status_ranks validated = some 10
message_status_ranks queued = some 20
message_status_ranks provider_submitted = some 30
message_status_ranks sent = some 40
message_status_ranks delivered = some 50
message_status_ranks read = some 60
message_status_ranks opened = some 60
message_status_ranks clicked = some 70
message_status_ranks replied = some 80
message_status_ranks failed = some 100
message_status_ranks cancelled = some 100
message_status_ranks expired = some 100
message_status_ranks suppressed = some 100
message_status_ranks (unknown_status s) = none

unfoldable pub is_valid_message_status : MessageStatus → Bool
unfolding message_status_ranks
is_valid_message_status status = elim (message_status_ranks status) [ some r ↦ true | none ↦ false ]

unfoldable pub message_status_rank : MessageStatus → ℤ
unfolding message_status_ranks
message_status_rank status = elim (message_status_ranks status) [
  | some rank ↦ pos rank
  | none ↦ negsuc 0
]

pub data MessageType : Type 0 where
  template text media interactive location : MessageType
  other_type : String → MessageType

abbrev pub is_template : MessageType → Bool
is_template template = true
is_template _ = false

pub data Direction : Type 0 where
  outbound inbound : Direction

pub record Message : Type 0 where
  pub id : Uuid
  pub tenant_id : Uuid
  pub campaign_id : Option Uuid
  pub conversation_id : Option Uuid
  pub channel : Channel
  pub direction : Direction
  pub recipient : String
  pub sender : String
  pub message_type : MessageType
  pub template_id : Option Uuid
  pub template_name : Option String
  pub template_params : Metadata
  pub text_body : Option String
  pub media_url : Option String
  pub media_type : Option String
  pub provider_message_id : String
  pub idempotency_key : Option String
  pub status : MessageStatus
  pub error_code : Option String
  pub error_message : Option String
  pub sent_at : Option Time
  pub failed_at : Option Time
  pub created_at : Time
  pub metadata : Metadata
