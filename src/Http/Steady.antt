-- ===== src/Http/Steady.antt =====
-- adapters/http: no handler panics on a request that has a tenant.
use spur_messaging.Prelude.{◌≡◌, String, Option, some, List, [], ◌∷◌, arith}
use spur_messaging.Domain.Message.{Uuid}
use spur_messaging.Identity.Context.{tenant_id_of, is_authenticated}
use spur_messaging.Message.Env.{SendRequest}
use spur_messaging.Http.Env.{Request, HttpEnv, HttpHistory}
use spur_messaging.Http.Steps.{Outcome, crashed}
use spur_messaging.Http.Messages.{check_all_bulk}
use spur_messaging.Api.Validate.{validate_channel}
use spur_messaging.Http.Inbox.{channel_filter, conversation_filter, handoff_filter, id_filter}
use spur_messaging.Http.Routes.{Endpoint, documented}
use spur_messaging.Http.Dispatch.{handle}

-- It is no panic.
abbrev pub IsAnswer : {A : Type 0} → Outcome A → Type 0
IsAnswer (crashed message) = ⊥
IsAnswer r = Unit

channel_filter-IsAnswer : (o : Option String) → IsAnswer (channel_filter o)
unfolding channel_filter validate_channel
channel_filter-IsAnswer o = ground arith

conversation_filter-IsAnswer : (o : Option String) → IsAnswer (conversation_filter o)
unfolding conversation_filter
conversation_filter-IsAnswer o = ground arith

handoff_filter-IsAnswer : (o : Option String) → IsAnswer (handoff_filter o)
unfolding handoff_filter
handoff_filter-IsAnswer o = ground arith

module _ (env : HttpEnv) where
  id_filter-IsAnswer : (req : Request) (o : Option String) → IsAnswer (id_filter env req o)
  unfolding id_filter
  id_filter-IsAnswer req o = ground arith

  check_all_bulk-IsAnswer :
      (rs : List SendRequest) (h : HttpHistory) → IsAnswer (check_all_bulk env rs h).0
  unfolding check_all_bulk
  check_all_bulk-IsAnswer [] h = tt
  check_all_bulk-IsAnswer (r ∷ rs) h = ground (arith, check_all_bulk-IsAnswer rs h)

module _ (env : HttpEnv) (req : Request) where
  pub handle-IsAnswer :
      (e : Endpoint) {t : Uuid} → req.context.tenant ≡ some t → IsAnswer (handle env req e []).0
  unfolding handle documented tenant_id_of is_authenticated
  handle-IsAnswer Endpoint.send_bulk own = grind (arith, check_all_bulk-IsAnswer)
  handle-IsAnswer Endpoint.list_conversations own = grind (
    arith, channel_filter-IsAnswer, conversation_filter-IsAnswer, handoff_filter-IsAnswer,
    id_filter-IsAnswer,
  )
  handle-IsAnswer e own = ground arith
