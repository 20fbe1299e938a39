-- ===== src/Api/Order.antt =====
-- adapters/http/response.go: Go ranges over a map in any order, and `RespondError` answers alike.
pub mod Entries
unfoldable pub use spur_messaging.Api.Order.Entries.{root, entry_of}
pub use spur_messaging.Api.Order.Entries.{same_address, key-entry_of, is_listed, listed_as}
use spur_messaging.Prelude.{
  ℕ, String, true, false, ◌==◌, ==_iff, ◌≡◌, refl, sym, ap, ◌∙◌, Option, none, some, List, [], ◌∷◌,
  arith, All, Any, inl, inr, ◌⊎◌, All-map, All-at, Bool-cases, Option-cases, if◌then◌else◌,
}
use spur_messaging.Domain.Errors.{
  Sentinel, GoError, sentinel, domain_error, wrapped, other, panicked, is_error, error_text,
  address, not_found, already_exists, invalid_input, unauthorized, forbidden, provider_error,
  provider_not_configured, provider_timeout, credentials_expired, rate_limit_exceeded,
  template_not_approved, session_window_closed, suppressed, unsubscribed, opt_in_required,
  campaign_not_executable, template_in_use, queue_unavailable,
}
use spur_messaging.Api.Respond.{
  Entry, entry, error_code_map, ErrorResponse, search, respond_error, code_of, status_of,
  as_domain_error,
}

-- An order in which the loop may come to the entries: it comes to each of them, and to no other.
pub record IsOrder (order : List Entry) : Type 0 where
  pub known : All (λ x. Any (λ y. y ≡ x) error_code_map) order
  pub complete : All (λ y. Any (λ x. x ≡ y) order) error_code_map

is_error_lem : (e : GoError) (s : Sentinel) → is_error e s ≡ true → root e ≡ some s
unfolding is_error root
is_error_lem (sentinel t) s f = ap some (same_address t s ((==_iff _ _).0 f))
is_error_lem (domain_error t message field) s f = ap some (same_address t s ((==_iff _ _).0 f))
is_error_lem (wrapped message e) s f = is_error_lem e s f
is_error_lem (other message) s f = ground arith
is_error_lem (panicked message) s f = ground arith

root_lem : (e : GoError) (s : Sentinel) → root e ≡ some s → is_error e s ≡ true
unfolding is_error root
root_lem (sentinel t) s f = ground arith
root_lem (domain_error t message field) s f = ground arith
root_lem (wrapped message e) s f = root_lem e s f
root_lem (other message) s f = ground arith
root_lem (panicked message) s f = ground arith

search_found :
    (order : List Entry) (e : GoError)
    → All (λ x. x ≡ entry_of x.key) order
    → ((search order e ≡ none) × All (λ x. is_error e x.key ≡ false) order)
      ⊎ ((s : Sentinel) × (root e ≡ some s) × (search order e ≡ some (entry_of s)))
unfolding search
search_found [] e w = inl (refl, tt)
search_found (x ∷ xs) e (w, ws) = elim (Bool-cases (is_error e x.key)) [
  | inl hit ↦
      inr (
        x.key,
        is_error_lem e x.key hit,
        ap (λ b. if b then some x else search xs e) hit ∙ ap some w,
      )
  | inr miss ↦
      let skip = ap (λ b. if b then some x else search xs e) miss in
      elim (search_found xs e ws) [
        | inl (nothing, rest) ↦ inl (skip ∙ nothing, (miss, rest))
        | inr (s, r, found) ↦ inr (s, r, skip ∙ found)
      ]
]

abbrev pub found_of : Option Sentinel → Option Entry
found_of none = none
found_of (some s) = some (entry_of s)

-- Whatever the order, the entry that the loop finds is that of the error's sentinel.
search_lem : (order : List Entry) (e : GoError) → IsOrder order → search order e ≡ found_of (root e)
search_lem order e o =
    let known =
      All-map (λ x m. All-at (λ y. y ≡ entry_of y.key) error_code_map listed_as m) order o.known in
    elim (search_found order e known) [
      | inr (s, r, found) ↦ found ∙ ap found_of (sym r)
      | inl (nothing, rest) ↦ elim (Option-cases (root e)) [
        | inl r ↦ nothing ∙ ap found_of (sym r)
        | inr (s, r) ↦
            let there =
              All-at (λ y. Any (λ x. x ≡ y) order) error_code_map o.complete (is_listed s) in
            let miss = All-at (λ x. is_error e x.key ≡ false) order rest there in
            let hit = root_lem e s r in let same = key-entry_of s in absurd (ground arith)
      ]
    ]

root-as_domain_error :
    (e : GoError) (s : Sentinel) (message field : String)
    → as_domain_error e ≡ some (s, message, field)
    → root e ≡ some s
unfolding root as_domain_error
root-as_domain_error (sentinel t) s m f p = ground arith
root-as_domain_error (domain_error t n g) s m f p = ground arith
root-as_domain_error (wrapped n e) s m f p = root-as_domain_error e s m f p
root-as_domain_error (other n) s m f p = ground arith
root-as_domain_error (panicked n) s m f p = ground arith

abbrev pub message_of : GoError → Option (Sentinel × String × String) → String
message_of e none = error_text e
message_of e (some (s, message, field)) = message

abbrev pub field_of : Option (Sentinel × String × String) → String
field_of none = ""
field_of (some (s, message, field)) = field

-- The response by the error's own sentinel, with no search.
abbrev pub respond_directly : GoError → ErrorResponse
respond_directly e = record {
  status = status_of (found_of (root e));
  code = code_of (found_of (root e));
  message = message_of e (as_domain_error e);
  field = field_of (as_domain_error e);
}

-- In whatever order the loop comes to the entries of the map, an error is answered with the code and
-- the status of the sentinel at the end of its chain, or with INTERNAL_ERROR and 500 where there is
-- none, with the message and the field of the first domain error of the chain, or with its own
-- text and no field where there is none.
pub respond_error_lem :
    (order : List Entry) (e : GoError) → IsOrder order → respond_error order e ≡ respond_directly e
unfolding respond_error root
respond_error_lem order e o = elim (Option-cases (as_domain_error e)) [
  | inl p ↦ rw (p, search_lem order e o) refl
  | inr ((s, message, field), p) ↦
      rw (p, search_lem order (sentinel s) o, root-as_domain_error e s message field p) refl
]
