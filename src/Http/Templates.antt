-- ===== src/Http/Templates.antt =====
-- adapters/http/template_handler.go and adapters/http/email_template_handler.go.
use spur_messaging.Prelude.{not, is_empty}
use spur_messaging.Domain.Errors.{validation_error}
use spur_messaging.Http.Steps.{
  Handling, Success, ◌>>=◌, ◌>>◌, lift, check, decode, ask, permitted, by_id, by_page, path_id,
  page_of, service_value, status_word, respond_ok, respond_created, query_filter, channel_of,
  map_option,
}
use spur_messaging.Identity.Permissions.{
  templates_read, templates_write, templates_submit, messages_send,
}
use spur_messaging.Api.Validate.{
  validate_template_name, validate_template_category, validate_email_template,
}
use spur_messaging.Http.Env.{
  Request, HttpEnv, create_template, list_templates, update_template, get_template, delete_template,
  submit_template, sync_template, create_email_template, list_email_templates,
  update_email_template, get_email_template, delete_email_template, preview_email_template,
  duplicate_email_template,
}

module _ (env : HttpEnv) (req : Request) where
  -- `CreateTemplate`.
  unfoldable pub handle_create_template : Handling Success
  handle_create_template = permitted req templates_write (λ t. do
    body ← decode (env.decode_template req.body)
    lift (validate_template_name body.name)
    lift (validate_template_category body.category)
    check (not (is_empty body.language)) (validation_error "language" "invalid language code")
    answer ← ask env t (create_template body)
    respond_created (service_value answer))

  -- `ListTemplates`.
  unfoldable pub handle_list_templates : Handling Success
  unfolding page_of
  handle_list_templates = by_page env req templates_read (
      list_templates (map_option channel_of (query_filter (req.query "channel")))
        (query_filter (req.query "status")))

  -- `GetTemplate`.
  unfoldable pub handle_get_template : Handling Success
  handle_get_template = by_id env req templates_read get_template service_value

  -- `UpdateTemplate`.
  unfoldable pub handle_update_template : Handling Success
  handle_update_template = permitted req templates_write (λ t. do
    id ← path_id env req "id" "id"
    body ← decode (env.decode_template_update req.body)
    answer ← ask env t (update_template id body)
    respond_ok (service_value answer))

  -- `DeleteTemplate`.
  unfoldable pub handle_delete_template : Handling Success
  handle_delete_template =
      by_id env req templates_write delete_template (λ a. status_word "deleted")

  -- `SubmitForApproval`.
  unfoldable pub handle_submit_template : Handling Success
  handle_submit_template = by_id env req templates_submit submit_template service_value

  -- `SyncStatus`.
  unfoldable pub handle_sync_template : Handling Success
  handle_sync_template = by_id env req templates_read sync_template service_value

  -- `CreateEmailTemplate`.
  unfoldable pub handle_create_email : Handling Success
  handle_create_email = permitted req templates_write (λ t. do
    body ← decode (env.decode_email_template req.body)
    lift (validate_email_template body.name body.subject body.html_body)
    answer ← ask env t (create_email_template body)
    respond_created (service_value answer))

  -- `ListEmailTemplates`.
  unfoldable pub handle_list_emails : Handling Success
  unfolding page_of
  handle_list_emails =
      by_page env req templates_read (list_email_templates (query_filter (req.query "category")))

  -- `GetEmailTemplate`.
  unfoldable pub handle_get_email : Handling Success
  handle_get_email = by_id env req templates_read get_email_template service_value

  -- `UpdateEmailTemplate`.
  unfoldable pub handle_update_email : Handling Success
  handle_update_email = permitted req templates_write (λ t. do
    id ← path_id env req "id" "id"
    body ← decode (env.decode_email_template_update req.body)
    answer ← ask env t (update_email_template id body)
    respond_ok (service_value answer))

  -- `DeleteEmailTemplate`.
  unfoldable pub handle_delete_email : Handling Success
  handle_delete_email =
      by_id env req templates_write delete_email_template (λ a. status_word "deleted")

  -- `PreviewEmailTemplate`.
  unfoldable pub handle_preview_email : Handling Success
  handle_preview_email = permitted req templates_read (λ t. do
    id ← path_id env req "id" "id"
    variables ← decode (env.decode_variables req.body)
    answer ← ask env t (preview_email_template id variables)
    respond_ok (service_value answer))

  -- `DuplicateTemplate`.
  unfoldable pub handle_duplicate_email : Handling Success
  handle_duplicate_email = permitted req templates_write (λ t. do
    id ← path_id env req "id" "id"
    name ← decode (env.decode_name req.body)
    answer ← ask env t (duplicate_email_template id name)
    respond_ok (service_value answer))

  -- `SendTestEmail`, which sends nothing.
  unfoldable pub handle_send_test_email : Handling Success
  handle_send_test_email = permitted req messages_send (λ t. do
    body ← decode (env.decode_test_email req.body)
    respond_ok (status_word "test email sent"))
