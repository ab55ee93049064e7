-- ===== src/Transcript/Tests.antt =====
-- A connect request in the transcript.
use agent_rdp.Base.{◌≡◌, refl, true, codes, text_eq, utf8_width, utf8_len}
use agent_rdp.Json.{Json, str, num, object, member, end}
use agent_rdp.Transcript.{
  redact, redact_items, redact_members, shorten, is_password, is_payload, summarize,
}
use agent_rdp.Transcript.Secrets.{is_clean, summarize-is_clean}

abbrev connect : Json
connect = object (
    member (codes "host") (str (codes "srv")) (
      member (codes "password") (str (codes "hunter2"))
        (member (codes "data_b64") (str (codes "QUJD")) end)))

redacted :
    redact connect
    ≡ object (
        member (codes "host") (str (codes "srv")) (
          member
            (codes "password")
            (str (codes "***"))
            (member (codes "data_b64") (object (member (codes "bytes") (num 4) end)) end)))
unfolding redact redact_items redact_members shorten is_password is_payload text_eq utf8_len
    utf8_width
redacted = refl

summarize-is_clean_example : is_clean (summarize (λ v. 100) connect) ≡ true
summarize-is_clean_example = summarize-is_clean (λ v. 100) connect
