-- ===== src/Conversations/Service.antt =====
-- core/services/conversation_service.go and core/domain/conversation.go.
use spur_messaging.Prelude.{
  ℕ, String, Bool, true, false, not, ◌&&◌, ◌==◌, Option, none, some, List, [], ◌∷◌, is_empty, leb,
  trim_space, length, if◌then◌else◌,
}
use spur_messaging.Prelude.Int.{ℤ, pos, ltb_ℤ, leb_ℤ}
use spur_messaging.Domain.Errors.{validation_error}
use spur_messaging.Domain.Message.{Uuid, Time, Channel}
use spur_messaging.Calls.{Result, Op, ◌>>=◌, ◌>>◌, call, draw, guard}
use spur_messaging.Message.Email.{bytes}

-- The last constructor of each stands for every text but the constants.
pub data ConversationStatus : Type 0 where
  open_status pending_status resolved_status closed_status : ConversationStatus
  other_conversation_status : String → ConversationStatus

pub data HandoffStatus : Type 0 where
  bot_handoff agent_handoff closed_handoff waiting_customer_handoff : HandoffStatus
  other_handoff : String → HandoffStatus

pub data Priority : Type 0 where
  low_priority medium_priority high_priority urgent_priority : Priority
  other_priority : String → Priority

abbrev pub is_valid_conversation_status : ConversationStatus → Bool
is_valid_conversation_status (other_conversation_status s) = false
is_valid_conversation_status s = true

abbrev pub is_valid_handoff_status : HandoffStatus → Bool
is_valid_handoff_status (other_handoff s) = false
is_valid_handoff_status s = true

abbrev pub is_valid_priority : Priority → Bool
is_valid_priority (other_priority s) = false
is_valid_priority p = true

pub record ConversationNote : Type 0 where
  pub id : Uuid
  pub author_id : Uuid
  pub body : String
  pub created_at : Time

pub record Conversation : Type 0 where
  pub id : Uuid
  pub tenant_id : Uuid
  pub channel : Channel
  pub recipient : String
  pub status : ConversationStatus
  pub handoff_status : HandoffStatus
  pub assigned_agent_id : Option Uuid
  pub assigned_team : Option String
  pub priority : Priority
  pub tags : List String
  pub notes : List ConversationNote
  pub last_inbound_at : Option Time
  pub last_outbound_at : Option Time
  pub service_window_until : Option Time
  pub first_response_due_at : Option Time
  pub resolution_due_at : Option Time
  pub closed_at : Option Time
  pub created_at : Time
  pub updated_at : Time

pub record ConversationFilter : Type 0 where
  pub channel : Option Channel
  pub status : Option ConversationStatus
  pub handoff_status : Option HandoffStatus
  pub assigned_agent_id : Option Uuid
  pub recipient : Option String
  pub tag : Option String
  pub page : ℤ
  pub per_page : ℤ

-- ports.ConversationUpdate, whose fields are those of ports.UpdateConversationRequest.
pub record ConversationUpdate : Type 0 where
  pub status : Option ConversationStatus
  pub handoff_status : Option HandoffStatus
  pub assigned_agent_id : Option Uuid
  pub assigned_team : Option String
  pub priority : Option Priority
  pub tags : Option (List String)
  pub first_response_due_at : Option Time
  pub resolution_due_at : Option Time

pub data ConversationCall : Type 0 where
  drew_id : Uuid → ConversationCall
  read_clock : Time → ConversationCall
  listed : Uuid → ConversationFilter → Result (List Conversation × ℕ) → ConversationCall
  updated : Uuid → Uuid → ConversationUpdate → Result Conversation → ConversationCall
  noted : Uuid → Uuid → ConversationNote → Result Conversation → ConversationCall

abbrev pub ConversationHistory : Type 0
ConversationHistory = List ConversationCall

pub record ConversationEnv : Type 0 where
  pub new_uuid : ConversationHistory → Uuid
  pub clock : ConversationHistory → Time
  pub list_conversations :
      ConversationHistory → Uuid → ConversationFilter → Result (List Conversation × ℕ)
  pub update_conversation :
      ConversationHistory → Uuid → Uuid → ConversationUpdate → Result Conversation
  pub add_conversation_note :
      ConversationHistory → Uuid → Uuid → ConversationNote → Result Conversation

abbrev pub holds {ℓ} : {A : Type ℓ} → (A → Bool) → Option A → Bool
holds p none = true
holds p (some a) = p a

unfoldable pub are_filled : List String → Bool
unfolding trim_space
are_filled [] = true
are_filled (t ∷ ts) = not (is_empty (trim_space t)) && are_filled ts

module _ (env : ConversationEnv) (tenant_id : Uuid) where
  -- `List`.
  unfoldable pub list : ConversationFilter → Op ConversationCall (List Conversation × ℕ)
  list filter =
      let asked = record filter {
        page = if ltb_ℤ filter.page (pos 1) then pos 1 else filter.page;
        per_page = if leb_ℤ filter.per_page (pos 0) then pos 20 else filter.per_page;
      } in
      call (λ h. env.list_conversations h tenant_id asked) (listed tenant_id asked)

  -- `Update`.
  unfoldable pub update : Uuid → ConversationUpdate → Op ConversationCall Conversation
  unfolding are_filled
  update id req = do
    guard (holds is_valid_conversation_status req.status)
        (validation_error "status" "invalid conversation status")
    guard (holds is_valid_handoff_status req.handoff_status)
        (validation_error "handoff_status" "invalid handoff status")
    guard (holds is_valid_priority req.priority) (validation_error "priority" "invalid priority")
    guard (holds are_filled req.tags) (validation_error "tags" "tags must not be empty")
    call (λ h. env.update_conversation h tenant_id id req) (updated tenant_id id req)

  -- `AddNote`.
  unfoldable pub add_note : Uuid → Uuid → String → Op ConversationCall Conversation
  unfolding trim_space bytes
  add_note id author_id raw = do
    let body = trim_space raw
    guard (not (is_empty body)) (validation_error "body" "note body is required")
    guard (leb (length (bytes body)) 5000)
        (validation_error "body" "note body must be 5000 characters or fewer")
    guard (not (author_id == 0)) (validation_error "author_id" "note author is required")
    note_id ← draw env.new_uuid drew_id
    now ← draw env.clock read_clock
    let note : ConversationNote = record {
      id = note_id;
      author_id = author_id;
      body = body;
      created_at = now;
    }
    call (λ h. env.add_conversation_note h tenant_id id note) (noted tenant_id id note)
