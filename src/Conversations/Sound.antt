-- ===== src/Conversations/Sound.antt =====
-- core/services/conversation_service.go: what reaches the repository.
use spur_messaging.Prelude.{
  ℕ, ◌≤◌, String, true, false, ◌≡◌, List, [], ◌∷◌, is_empty, length, arith,
}
use spur_messaging.Prelude.Int.{ℤ, pos, negsuc}
use spur_messaging.Domain.Message.{Uuid}
use spur_messaging.Calls.{Op, pure, ◌>>=◌}
use spur_messaging.Message.Email.{bytes}
use spur_messaging.Conversations.Service.{
  Conversation, ConversationFilter, ConversationUpdate, ConversationCall, ConversationHistory,
  ConversationEnv, listed, updated, noted, is_valid_conversation_status, is_valid_handoff_status,
  is_valid_priority, are_filled, holds, list, update, add_note,
}

pub data Request : Type 0 where
  asks_list : ConversationFilter → Request
  asks_update : Uuid → ConversationUpdate → Request
  asks_note : Uuid → Uuid → String → Request

abbrev drop_list : List Conversation × ℕ → Op ConversationCall (Unit {0})
drop_list xs = pure tt

abbrev drop_one : Conversation → Op ConversationCall (Unit {0})
drop_one c = pure tt

unfoldable pub serve_request : ConversationEnv → Uuid → Request → Op ConversationCall (Unit {0})
serve_request env t (asks_list f) = list env t f >>= drop_list
serve_request env t (asks_update id req) = update env t id req >>= drop_one
serve_request env t (asks_note id author body) = add_note env t id author body >>= drop_one

abbrev pub AtLeastOne : ℤ → Type 0
AtLeastOne (pos n) = 1 ≤ n
AtLeastOne (negsuc n) = ⊥

-- A page and a size of at least 1; an update with values that exist and no blank tag; a note with an
-- author and a text of 1 to 5000 bytes.
abbrev pub SoundCall : Uuid → ConversationCall → Type 0
SoundCall t (listed u f r) = (u ≡ t) × AtLeastOne f.page × AtLeastOne f.per_page
SoundCall t (updated u id req r) =
    (u ≡ t)
    × (holds is_valid_conversation_status req.status ≡ true)
    × (holds is_valid_handoff_status req.handoff_status ≡ true)
    × (holds is_valid_priority req.priority ≡ true)
    × (holds are_filled req.tags ≡ true)
SoundCall t (noted u id n r) =
    (u ≡ t) × (is_empty n.body ≡ false) × (length (bytes n.body) ≤ 5000) × (n.author_id ≡ 0 → ⊥)
SoundCall t c = Unit

abbrev pub AllSound : Uuid → ConversationHistory → Type 0
AllSound t [] = Unit
AllSound t (c ∷ h) = SoundCall t c × AllSound t h

-- Whatever is asked, the repository gets the tenant's calls only, and they are sound: a list has a
-- page and a size of at least 1, an update only statuses, handoffs and priorities that exist and no
-- blank tag, and a note has an author and a text of 1 to 5000 bytes.
pub serve_request-AllSound :
    (env : ConversationEnv) (t : Uuid) (req : Request) (h : ConversationHistory)
    → AllSound t h
    → AllSound t (serve_request env t req h).1
unfolding serve_request list update add_note
serve_request-AllSound env t (asks_list f) h s = ground arith
serve_request-AllSound env t (asks_update id req) h s = ground arith
serve_request-AllSound env t (asks_note id author body) h s = ground arith
