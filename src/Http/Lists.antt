-- ===== src/Http/Lists.antt =====
-- adapters/http/segment_handler.go, adapters/http/suppression_handler.go and adapters/http/unsubscribe_handler.go.
use spur_messaging.Prelude.{String, not, List, [], ◌∷◌, is_empty, if◌then◌else◌}
use spur_messaging.Domain.Message.{Channel}
use spur_messaging.Calls.{Result, ok, err}
use spur_messaging.Http.Steps.{
  Handling, Success, ◌>>=◌, ◌>>◌, lift, require, decode, ask, permitted, by_id, by_page, path_id,
  page_of, validate_recipient, service_value, status_word, under_key, respond_ok, respond_created,
  respond_list, pagination_of, query_filter, channel_of,
}
use spur_messaging.Identity.Permissions.{
  segments_read, segments_write, contacts_read, contacts_manage_consent,
}
use spur_messaging.Api.Validate.{validate_segment_rules, validate_channel}
use spur_messaging.Http.Env.{
  Request, HttpEnv, create_segment, list_segments, update_segment, get_segment, delete_segment,
  resolve_segment, list_unsubscribes, resubscribe, is_unsubscribed, list_suppressions,
  add_suppression, remove_suppression, check_suppressions,
}

abbrev pub text_or : String → String → String
text_or a b = if is_empty a then b else a

abbrev pub list_or : List String → List String → List String
list_or [] ys = ys
list_or (x ∷ xs) ys = x ∷ xs

module _ (env : HttpEnv) where
  abbrev validated : Result String → Result (List String) → Result (List String)
  validated (ok r) (ok rs) = ok (r ∷ rs)
  validated (ok r) (err e) = err e
  validated (err e) rest = err e

  -- The loop of `BulkCheckSuppression`.
  unfoldable pub validate_recipients : Channel → List String → Result (List String)
  validate_recipients channel [] = ok []
  validate_recipients channel (r ∷ rs) =
      validated (validate_recipient env channel r) (validate_recipients channel rs)

  module _ (req : Request) where
    -- `CreateSegment`.
    unfoldable pub handle_create_segment : Handling Success
    handle_create_segment = permitted req segments_write (λ t. do
      body ← decode (env.decode_segment req.body)
      lift (validate_segment_rules body.rules)
      answer ← ask env t (create_segment body)
      respond_created (service_value answer))

    -- `ListSegments`.
    unfoldable pub handle_list_segments : Handling Success
    handle_list_segments =
        permitted req segments_read
          (λ t. do answer ← ask env t list_segments; respond_ok (service_value answer))

    -- `GetSegment`.
    unfoldable pub handle_get_segment : Handling Success
    handle_get_segment = by_id env req segments_read get_segment service_value

    -- `UpdateSegment`.
    unfoldable pub handle_update_segment : Handling Success
    handle_update_segment = permitted req segments_write (λ t. do
      id ← path_id env req "id" "id"
      body ← decode (env.decode_segment req.body)
      lift (validate_segment_rules body.rules)
      answer ← ask env t (update_segment id (record body { id = id }))
      respond_ok (service_value answer))

    -- `DeleteSegment`.
    unfoldable pub handle_delete_segment : Handling Success
    handle_delete_segment = by_id env req segments_write delete_segment (λ a. status_word "deleted")

    -- `ResolveContacts`.
    unfoldable pub handle_resolve_segment : Handling Success
    unfolding page_of
    handle_resolve_segment = permitted req segments_read (λ t. do
      id ← path_id env req "id" "id"
      pages ← page_of env req
      answer ← ask env t (resolve_segment id pages.0 pages.1)
      respond_list answer (pagination_of pages.0 pages.1 answer.total))

    -- `ListUnsubscribes`.
    unfoldable pub handle_list_unsubscribes : Handling Success
    unfolding page_of
    handle_list_unsubscribes =
        by_page env req contacts_read (list_unsubscribes (query_filter (req.query "scope")))

    -- `Resubscribe`.
    unfoldable pub handle_resubscribe : Handling Success
    handle_resubscribe =
        by_id env req contacts_manage_consent resubscribe (λ a. status_word "resubscribed")

    -- `CheckUnsubscribe`.
    unfoldable pub handle_check_unsubscribe : Handling Success
    handle_check_unsubscribe = permitted req contacts_read (λ t. do
      require (not (is_empty (req.query "email"))) "email" "email is required"
      answer ← ask env t (is_unsubscribed (req.query "email"))
      respond_ok (under_key "unsubscribed" answer))

    -- `ListSuppressions`.
    unfoldable pub handle_list_suppressions : Handling Success
    unfolding page_of
    handle_list_suppressions =
        by_page env req contacts_read (list_suppressions (query_filter (req.query "reason")))

    -- `AddToSuppression`.
    unfoldable pub handle_add_suppression : Handling Success
    handle_add_suppression = permitted req contacts_manage_consent (λ t. do
      body ← decode (env.decode_suppression req.body)
      let channel = channel_of (text_or body.channel "email")
      lift (validate_channel channel)
      recipient ← lift (validate_recipient env channel (text_or body.recipient body.email_address))
      answer ← ask env t (add_suppression channel recipient body.reason)
      respond_ok (status_word "suppressed"))

    -- `RemoveFromSuppression`.
    unfoldable pub handle_remove_suppression : Handling Success
    handle_remove_suppression =
        by_id env req contacts_manage_consent remove_suppression (λ a. status_word "removed")

    -- `BulkCheckSuppression`.
    unfoldable pub handle_check_suppressions : Handling Success
    handle_check_suppressions = permitted req contacts_read (λ t. do
      body ← decode (env.decode_suppression_check req.body)
      let channel = channel_of (text_or body.channel "email")
      lift (validate_channel channel)
      recipients ← lift (validate_recipients channel (list_or body.recipients body.email_addresses))
      answer ← ask env t (check_suppressions channel recipients)
      respond_ok (under_key "suppressed" answer))
