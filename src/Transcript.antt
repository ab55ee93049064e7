-- ===== src/Transcript.antt =====
-- crates/agent-rdp-daemon/src/transcript.rs: what of a request reaches the transcript.
pub mod Secrets
mod Tests
use agent_rdp.Base.{
  ℕ, Bool, ◌||◌, Option, none, some, ◌++◌, ltb, leb, if◌then◌else◌, length, take, Text, codes,
  text_eq, utf8_len, decimal,
}
use agent_rdp.Json.{
  Json, Items, Members, null, bool, num, other_num, str, array, object, nil, cons, end, member, get,
}

abbrev pub max_string_chars : ℕ
max_string_chars = 256

abbrev pub max_summary_bytes : ℕ
max_summary_bytes = 8192

unfoldable pub shorten : Text → Text
shorten s =
    if ltb max_string_chars (length s)
    then take max_string_chars s ++ (codes "…(" ++ (decimal (length s) ++ codes " chars)"))
    else s

abbrev pub blank : Json
blank = str (codes "***")

-- A payload is replaced by its size; what is no string is left.
abbrev pub sized : Json → Json
sized (str s) = object (member (codes "bytes") (num (utf8_len s)) end)
sized v = v

unfoldable pub is_password : Text → Bool
is_password key = text_eq key (codes "password")

unfoldable pub is_payload : Text → Bool
is_payload key = text_eq key (codes "data_b64") || text_eq key (codes "base64")

unfoldable mutual
  pub redact : Json → Json
  redact (object ms) = object (redact_members ms)
  redact (array js) = array (redact_items js)
  redact (str s) = str (shorten s)
  redact v = v

  pub redact_items : Items → Items
  redact_items nil = nil
  redact_items (cons v js) = cons (redact v) (redact_items js)

  pub redact_members : Members → Members
  redact_members end = end
  redact_members (member key v ms) =
      let rest = redact_members ms in
      let inner = redact v in
      if is_password key
      then member key blank rest
      else if is_payload key
      then member key (sized v) rest
      else member key inner rest

-- `Option::or_else`, with null for none.
abbrev pub or_get : Option Json → Option Json → Json
or_get (some v) other = v
or_get none (some v) = v
or_get none none = null

-- `cap`, with the length of what `serde_json::to_string` prints as a parameter.
unfoldable pub cap : (size : Json → ℕ) → Json → Json
cap size value =
    if leb (size value) max_summary_bytes
    then value
    else object (
        member (codes "type") (or_get (get (codes "type") value) (get (codes "op") value))
          (member (codes "truncated_bytes") (num (size value)) end))

-- `summarize_request`, from the request as JSON on.
unfoldable pub summarize : (size : Json → ℕ) → Json → Json
summarize size value = cap size (redact value)
