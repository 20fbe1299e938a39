-- ===== src/Message/Email.antt =====
-- core/services/message_service.go: the text that `Send` makes of an email.
use Prim.Native.Char.{code}
use spur_messaging.Prelude.{
  ℕ, ◌+◌, ◌/◌, ◌%◌, String, Bool, true, false, Option, none, some, List, [], ◌∷◌, ◌++◌, ◌==◌, ltb,
  if◌then◌else◌, Metadata, append, concat, contains, replace_first, replace_all,
}
use spur_messaging.Domain.Message.{Uuid}

-- What the standard library and google/uuid compute: an HMAC-SHA256 in hexadecimal under the
-- service's key, a UUID as text, and the matching of the fixed pattern of `rewriteLinks`, which
-- hands each match and its submatches to a function, and `none` when that function panics.
pub record TextEngine : Type 0 where
  pub hmac_hex : String → String
  pub uuid_string : Uuid → String
  pub replace_matches : (String → List String → Option String) → String → Option String

-- `renderEmail`; the order of the list is the order in which Go ranges over the map.
unfoldable pub render_email : String → Metadata → String
render_email content [] = content
render_email content ((k, v) ∷ variables) =
    render_email (replace_all content (concat ("{{" ∷ k ∷ "}}" ∷ [])) v) variables

-- `stripHTML`, the pattern `<[^>]*>`: a `<` with a `>` behind it starts a tag.
strip_from : Bool → String → String
strip_from in_tag String.[] = String.[]
strip_from true (String.◌∷◌ c s) = strip_from (if code c == b'>' then false else true) s
strip_from false (String.◌∷◌ c s) = elim (if code c == b'<' then contains s ">" else false) [
  | true ↦ strip_from true s
  | false ↦ String.◌∷◌ c (strip_from false s)
]

unfoldable pub strip_html : String → String
unfolding strip_from
strip_html html = strip_from false html

-- The bytes of a code point in UTF-8.
abbrev utf8 : ℕ → List ℕ
utf8 c =
    if ltb c 0x80
    then c ∷ []
    else if ltb c 0x800
    then (0xc0 + c / 64) ∷ (0x80 + c % 64) ∷ []
    else if ltb c 0x10000
    then (0xe0 + c / 4096) ∷ (0x80 + c / 64 % 64) ∷ (0x80 + c % 64) ∷ []
    else (0xf0 + c / 262144) ∷ (0x80 + c / 4096 % 64) ∷ (0x80 + c / 64 % 64) ∷ (0x80 + c % 64) ∷ []

unfoldable pub bytes : String → List ℕ
bytes String.[] = []
bytes (String.◌∷◌ c s) = utf8 (code c) ++ bytes s

hex_digit : ℕ → String
hex_digit d = elim (d == 0) [
  | true ↦ "0"
  | false ↦
      if d == 1
      then "1"
      else if d == 2
      then "2"
      else if d == 3
      then "3"
      else if d == 4
      then "4"
      else if d == 5
      then "5"
      else if d == 6
      then "6"
      else if d == 7
      then "7"
      else if d == 8
      then "8"
      else if d == 9
      then "9"
      else if d == 10
      then "a"
      else if d == 11
      then "b"
      else if d == 12
      then "c"
      else if d == 13
      then "d"
      else if d == 14
      then "e"
      else "f"
]

hex_byte : ℕ → String
unfolding hex_digit
hex_byte b = append (hex_digit (b / 16)) (hex_digit (b % 16))

-- `hex.EncodeToString([]byte(originalURL))[:8]`: the slice panics on fewer than four bytes.
unfoldable pub link_hash : String → Option String
unfolding hex_byte
link_hash url = elim (bytes url) [
  | a ∷ b ∷ c ∷ d ∷ _ ↦ some (concat (hex_byte a ∷ hex_byte b ∷ hex_byte c ∷ hex_byte d ∷ []))
  | _ ↦ none
]

module _ (engine : TextEngine) (webhook_base_url : String) where
  open engine use {hmac_hex, uuid_string, replace_matches}

  -- `generateUnsubscribeToken`.
  unfoldable pub generate_unsubscribe_token : Uuid → String → String
  generate_unsubscribe_token tenant_id address = hmac_hex (append (uuid_string tenant_id) address)

  -- The function that `rewriteLinks` applies to each link.
  unfoldable pub rewrite_link : Uuid → String → List String → Option String
  rewrite_link message_id link submatches = elim (contains link "unsubscribe") [
    | true ↦ some link
    | false ↦ elim submatches [
      | whole ∷ original_url ∷ _ ↦ elim (message_id == 0) [
        | true ↦ some link
        | false ↦ elim (link_hash original_url) [
          | none ↦ none
          | some hash ↦ some (
              replace_first link original_url (
                concat (
                  webhook_base_url
                  ∷ "/messaging/track/click/"
                  ∷ uuid_string message_id
                  ∷ "/"
                  ∷ hash
                  ∷ "?url="
                  ∷ original_url
                  ∷ [])))
        ]
      ]
      | _ ↦ some link
    ]
  ]

  -- `rewriteLinks`; `none` is a panic.
  unfoldable pub rewrite_links : String → Uuid → Option String
  unfolding rewrite_link
  rewrite_links html message_id = replace_matches (rewrite_link message_id) html

  -- The tracking pixel, before `</body>` or at the end.
  unfoldable pub add_pixel : String → Uuid → String
  add_pixel html message_id =
      let pixel_url =
        concat (webhook_base_url ∷ "/messaging/track/open/" ∷ uuid_string message_id ∷ []) in
      let pixel_tag =
        concat (
          "<img src=\"" ∷ pixel_url ∷ "\" width=\"1\" height=\"1\" style=\"display:none;\">"
          ∷ []) in
      if contains html "</body>"
      then replace_first html "</body>" (append pixel_tag "</body>")
      else append html pixel_tag

  -- The marketing part: the link that an unsubscribe request will follow.
  unfoldable pub unsubscribe_url : Uuid → String → String
  unfolding generate_unsubscribe_token
  unsubscribe_url tenant_id recipient = concat (
      webhook_base_url
      ∷ "/messaging/unsubscribe/"
      ∷ generate_unsubscribe_token tenant_id recipient
      ∷ [])

  unfoldable pub add_unsubscribe_link : String → String → String
  add_unsubscribe_link html url =
      if contains html "unsubscribe"
      then html
      else append html (concat ("<br><br><a href=\"" ∷ url ∷ "\">Unsubscribe</a>" ∷ []))
