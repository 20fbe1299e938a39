-- ===== src/Conversations/Tests.antt =====
-- core/services/conversation_service.go on one note.
use spur_messaging.Prelude.{none, []}
use spur_messaging.Domain.Errors.{sentinel, not_found}
use spur_messaging.Domain.Message.{whatsapp}
use spur_messaging.Calls.{ok, err}
use spur_messaging.Conversations.Service.{
  Conversation, ConversationEnv, open_status, bot_handoff, low_priority,
}
use spur_messaging.Conversations.Sound.{asks_note, serve_request, AllSound, serve_request-AllSound}

abbrev conversation : Conversation
conversation = record {
  id = 3;
  tenant_id = 7;
  channel = whatsapp;
  recipient = "+15550001";
  status = open_status;
  handoff_status = bot_handoff;
  assigned_agent_id = none;
  assigned_team = none;
  priority = low_priority;
  tags = [];
  notes = [];
  last_inbound_at = none;
  last_outbound_at = none;
  service_window_until = none;
  first_response_due_at = none;
  resolution_due_at = none;
  closed_at = none;
  created_at = 0;
  updated_at = 0;
}

abbrev env : ConversationEnv
env = record {
  new_uuid = λ h. 9;
  clock = λ h. 1000;
  list_conversations = λ h t f. err (sentinel not_found);
  update_conversation = λ h t id u. ok conversation;
  add_conversation_note = λ h t id n. ok conversation;
}

serve_request-AllSound_example : AllSound 7 (serve_request env 7 (asks_note 3 5 " call back ") []).1
serve_request-AllSound_example = serve_request-AllSound env 7 (asks_note 3 5 " call back ") [] tt
