-- ===== src/Http/Steps.antt =====
-- adapters/http: the steps that the handlers share.
pub mod Returns
pub use spur_messaging.Http.Steps.Returns.{
  Outcome, done, refused, invalid, crashed, Handling, pure, ◌>>=◌, ◌>>◌, outcome_of, lift, settled,
  call, require, check, need, decode,
}
use spur_messaging.Prelude.{
  ◌+◌, ◌-◌, ◌/◌, ℕ, String, Bool, true, false, ◌||◌, ◌==◌, Option, none, some, List, ◌∷◌, is_empty,
  str_eq, if◌then◌else◌,
}
use spur_messaging.Prelude.Int.{ℤ, pos, negsuc, ltb_ℤ}
use spur_messaging.Domain.Errors.{
  GoError, sentinel, invalid_input, unauthorized, forbidden, error_text, validation_error,
}
use spur_messaging.Domain.Message.{Uuid, Time, Channel, whatsapp, sms, email, other_channel}
use spur_messaging.Calls.{Result, ok, err}
use spur_messaging.Identity.Context.{is_authenticated, tenant_id_of, has_permission}
use spur_messaging.Api.Validate.{validate_pagination, validate_email, validate_phone}
use spur_messaging.Api.Respond.{Entry, ErrorResponse, respond_error}
use spur_messaging.Onboarding.Env.{OnboardingSession}
use spur_messaging.Http.Env.{
  Request, Operation, Answer, HttpCall, HttpHistory, HttpEnv, read_clock, asked,
}

pub record Pagination : Type 0 where
  pub page : ℤ
  pub per_page : ℤ
  pub total : ℕ
  pub total_pages : ℕ

-- The `data` of a response: the service's value, alone or under a key, or a word under "status".
pub data Payload : Type 0 where
  service_value : Answer → Payload
  under_key : String → Answer → Payload
  status_word : String → Payload
  fixed_word : (key word : String) → Payload
  session_value : OnboardingSession → Payload

pub record Success : Type 0 where
  pub status : ℕ
  pub payload : Payload
  pub pagination : Option Pagination

-- `RespondOK`, `RespondCreated` and `RespondList`.
abbrev pub respond_ok : Payload → Handling Success
respond_ok p = pure (record { status = 200; payload = p; pagination = none })

abbrev pub respond_created : Payload → Handling Success
respond_created p = pure (record { status = 201; payload = p; pagination = none })

abbrev pub respond_list : Answer → Pagination → Handling Success
respond_list a p = pure (record { status = 200; payload = service_value a; pagination = some p })

-- `(total + perPage - 1) / perPage`, where the handlers have checked that perPage is positive.
abbrev pub page_count : ℕ → ℤ → ℕ
page_count total (pos per_page) = (total + per_page - 1) / per_page
page_count total (negsuc n) = 0

abbrev pub pagination_of : ℤ → ℤ → ℕ → Pagination
pagination_of page per_page total = record {
  page = page;
  per_page = per_page;
  total = total;
  total_pages = page_count total per_page;
}

-- `totalPages`.
abbrev pub total_pages : ℕ → ℤ → ℕ
total_pages total per_page =
    if ltb_ℤ per_page (pos 1) || (total == 0) then 0 else page_count total per_page

abbrev pub with_total_pages : ℤ → ℤ → ℕ → Pagination
with_total_pages page per_page total = record {
  page = page;
  per_page = per_page;
  total = total;
  total_pages = total_pages total per_page;
}

abbrev pub is_zero_int : ℤ → Bool
is_zero_int (pos n) = n == 0
is_zero_int (negsuc n) = false

abbrev pub nonzero_or : ℤ → ℤ → ℤ
nonzero_or n d = if is_zero_int n then d else n

-- A filter of the query: none where it is empty.
abbrev pub query_filter : String → Option String
query_filter s = if is_empty s then none else some s

-- `domain.Channel(s)`.
unfoldable pub channel_of : String → Channel
channel_of s =
    if str_eq s "whatsapp"
    then whatsapp
    else if str_eq s "sms"
    then sms
    else if str_eq s "email"
    then email
    else other_channel s

-- A time that a text gives, where the zero time is 0.
abbrev pub time_or_zero : Option Time → Time
time_or_zero none = 0
time_or_zero (some t) = t

abbrev pub map_option : {A B : Type 0} → (A → B) → Option A → Option B
map_option f none = none
map_option f (some a) = some (f a)

module _ (req : Request) where
  -- The beginning of every handler: `TenantID`, which panics where there is none, and
  -- `HasPermission`.
  abbrev pub permitted : String → (Uuid → Handling Success) → Handling Success
  permitted permission k h = elim (tenant_id_of req.context) [
    | ok t ↦ elim (has_permission req.context permission) [
      | true ↦ k t h
      | false ↦ (refused (sentinel forbidden), h)
    ]
    | err e ↦ (crashed (error_text e), h)
  ]

  -- The beginning of the onboarding handlers: `tenantFromRequest` comes first.
  abbrev pub tenant_permitted : String → (Uuid → Handling Success) → Handling Success
  tenant_permitted permission k h = elim (is_authenticated req.context) [
    | true ↦ permitted permission k h
    | false ↦ (refused (sentinel unauthorized), h)
  ]

module _ (env : HttpEnv) where
  abbrev pub ask : Uuid → Operation → Handling Answer
  ask t op = call (λ h. env.serve h t op) (asked t op)

  abbrev pub read_now : Handling Time
  read_now h = let t = env.clock h in (done t, read_clock t ∷ h)

  -- `validateEmail` for an email, `validatePhone` for the other channels.
  abbrev pub validate_recipient : Channel → String → Result String
  validate_recipient email r = validate_email env.to_lower r
  validate_recipient c r = validate_phone r

  module _ (req : Request) where
    -- `uuid.Parse(chi.URLParam(r, name))`, whose error names a field.
    abbrev pub path_id : (name field : String) → Handling Uuid
    path_id name field = need (env.parse_uuid (req.path name)) field "invalid ID format"

    -- The page that `ListMessages` and the other lists read, with what it replaces a 0 by.
    unfoldable pub page_of : Handling (ℤ × ℤ)
    page_of = lift (
        validate_pagination (nonzero_or (env.atoi (req.query "page")) (pos 1))
          (nonzero_or (env.atoi (req.query "per_page")) (pos 20)))

    -- `parsePagination`.
    unfoldable pub parse_pagination : ℤ × ℤ
    parse_pagination =
        let page = env.atoi (req.query "page") in
        let per_page = env.atoi (req.query "per_page") in
        (
          if ltb_ℤ page (pos 0) then pos 0 else page,
          if ltb_ℤ per_page (pos 1) then pos 25 else per_page,
        )

    abbrev number_or : String → String → ℤ → Result ℤ
    number_or name message d =
        if is_empty (req.query name)
        then ok d
        else if env.is_number (req.query name)
        then ok (env.atoi (req.query name))
        else err (validation_error name message)

    -- `paginationFromRequest`.
    unfoldable pub pagination_from_request : Handling (ℤ × ℤ)
    pagination_from_request = do
      page ← lift (number_or "page" "page must be a number" (pos 1))
      per_page ← lift (number_or "per_page" "per_page must be a number" (pos 20))
      lift (validate_pagination page per_page)

  module _ (req : Request) where
    -- A handler that asks for one thing by the ID in the path.
    abbrev pub by_id :
        (permission : String) → (Uuid → Operation) → (Answer → Payload) → Handling Success
    by_id permission op payload =
        permitted req permission
          (λ t. do id ← path_id req "id" "id"; answer ← ask t (op id); respond_ok (payload answer))

    -- A handler that lists a page.
    abbrev pub by_page : (permission : String) → (ℤ → ℤ → Operation) → Handling Success
    by_page permission op = permitted req permission (λ t. do
      pages ← page_of req
      answer ← ask t (op pages.0 pages.1)
      respond_list answer (pagination_of pages.0 pages.1 answer.total))

-- A response: the status and, of a failure, what the error says; a panic has none.
pub data Response : Type 0 where
  replied : Success → Response
  failed : ErrorResponse → Response
  none_sent : Response

-- `RespondError`, given the order in which its loop comes to the entries, `RespondValidationError`
-- and the success responses.
unfoldable pub respond : List Entry → Outcome Success → Response
unfolding respond_error
respond order (done s) = replied s
respond order (refused e) = failed (respond_error order e)
respond order (invalid field message) =
    failed (record { status = 400; code = "VALIDATION_ERROR"; message = message; field = field })
respond order (crashed message) = none_sent
