-- ===== src/Automate.antt =====
-- crates/agent-rdp-daemon/src/handlers/automate.rs: a request to the automation agent that is
-- ready, its deadline, and the ladder that finds out what became of one whose reply was lost. Times
-- are in milliseconds. `convert_response`, which only reads an answer, stands as a constructor.
pub mod Ladder
pub mod Times
pub mod Callers
mod Tests
use agent_rdp.Json.{Json, null, get, as_str, as_u64}
use agent_rdp.Protocol.Errors.{ErrorCode}
use agent_rdp.Protocol.Automate.{
  AutomateRequest, query_result, is_read_only, click, select, toggle, expand, collapse,
  context_menu, focus, get_value, fill, clear, scroll, wait_for, window, run, status,
}
use agent_rdp.Dvc.Ipc.{RequestError, indeterminate}
use agent_rdp.Base.{
  ℕ, zero, suc, ◌+◌, ◌-◌, ◌*◌, ◌/◌, ◌%◌, ◌^◌, ◌≤◌, ◌<◌, min, max, ◌≡◌, refl, sym, ap, ◌∙◌, subst,
  ◌≢◌, ◌↔◌, ◌⊎◌, inl, inr, ite, Bool, true, false, not, ◌&&◌, ◌||◌, Option, none, some, List, [],
  ◌∷◌, ◌++◌, map, reverse, arith, dec_lt, dec_le, ℕ_discrete, ltb, leb, ◌==◌, if◌then◌else◌, ==_iff,
  ltb→lt, leb→le, Bool-cases, if_either, if_split, Option-cases, is_some, is_none, some_of, Result,
  Result-cases, ok, err, u32_max, u64_max, sat_add32, sat_add64, length, get_elem?, take, drop,
  length-append, length-drop, length-take, take-length, append_assoc, append-nil, reverse-cons,
  length-reverse, keep, any, all, All, All-append, length-keep-le, Text, codes, text_eq, text_eq→eq,
  text_eq_refl, text_eq_iff, Text-discrete, utf8_width, utf8_len, utf16_units, encode_utf16,
  decimal, lower, lookup, erase, insert, lookup-erase, lookup-insert, has-insert, has-erase,
  contains, discard, add, contains-discard, contains-add,
}

abbrev pub query_result_attempts : ℕ
query_result_attempts = 3

abbrev pub query_result_timeout : ℕ
query_result_timeout = 10000

abbrev pub query_result_backoff : ℕ
query_result_backoff = 2000

abbrev pub status_probe_timeout : ℕ
status_probe_timeout = 5000

abbrev pub default_dvc_timeout : ℕ
default_dvc_timeout = 10000

abbrev kill_verify_budget : ℕ
kill_verify_budget = 20000

abbrev spawn_timeout : ℕ
spawn_timeout = 90000

unfoldable pub indeterminate_resolution_worst : ℕ
indeterminate_resolution_worst =
    query_result_timeout * query_result_attempts + query_result_backoff * (1 + 2)

unfoldable pub request_timeout : AutomateRequest → (default : ℕ) → ℕ
request_timeout (run c a true h timeout_ms s st k) default =
    timeout_ms + default + kill_verify_budget
request_timeout (run c a false h timeout_ms s st k) default = max spawn_timeout default
request_timeout (wait_for s timeout_ms w) default = timeout_ms + default
request_timeout r default = default

unfoldable pub dvc_deadline : AutomateRequest → ℕ
unfolding request_timeout
dvc_deadline status = status_probe_timeout
dvc_deadline r = request_timeout r default_dvc_timeout

unfoldable pub skips_recovery_ladder : AutomateRequest → Bool
skips_recovery_ladder status = true
skips_recovery_ladder (query_result id) = true
skips_recovery_ladder r = false

unfoldable pub targets_an_element : AutomateRequest → Bool
targets_an_element (click s d) = true
targets_an_element (select s i) = true
targets_an_element (toggle s t) = true
targets_an_element (expand s) = true
targets_an_element (collapse s) = true
targets_an_element (context_menu s) = true
targets_an_element (focus s) = true
targets_an_element (get_value s p) = true
targets_an_element (fill s t) = true
targets_an_element (clear s) = true
targets_an_element (scroll s d a c) = true
targets_an_element (wait_for s t w) = true
targets_an_element (window a s) = true
targets_an_element r = false

abbrev is_prefix : Text → Text → Bool
is_prefix [] t = true
is_prefix (c ∷ s) [] = false
is_prefix (c ∷ s) (d ∷ t) = c == d && is_prefix s t

-- `str::contains`.
abbrev contains_text : Text → Text → Bool
contains_text needle [] = is_prefix needle []
contains_text needle (c ∷ t) = is_prefix needle (c ∷ t) || contains_text needle t

-- No letter of the needles is the lower case of a letter outside ASCII.
unfoldable pub stale_ref_hint : Text → Text
unfolding lower
stale_ref_hint message =
    let low = lower message in
    if contains_text (codes "disabled") low
      || contains_text (codes "no longer exists") low
      || contains_text (codes "not found") low
    then message
      ++ codes
          " (the ref may be stale after a UI change - re-run `automate snapshot` and retry with a fresh ref)"
    else message

pub record UnknownIdFacts : Type 0 where
  pub same_agent : Option Bool
  pub evicted : Bool
  pub disk_journal : Bool
  pub keyed : Bool

pub data UnknownId : Type 0 where
  never_ran : UnknownId
  record_lost : (why : Text) → UnknownId

abbrev pub by_agent : Option Bool → UnknownId
by_agent (some true) = never_ran
by_agent (some false) =
    record_lost (codes "the agent was replaced and the record did not survive its restart")
by_agent none =
    record_lost (codes "this agent cannot confirm it is the one that received the request")

unfoldable pub unknown_id_verdict : UnknownIdFacts → UnknownId
unknown_id_verdict f =
    if f.evicted
    then record_lost (codes "the agent's journal evicted the record")
    else by_agent f.same_agent

-- What the handler answers.
pub data Answer : Type 0 where
  -- `convert_response` of what the agent answered, or what a status probe gave.
  converted : AutomateRequest → Json → Answer
  probed : Result RequestError Json → Answer
  -- The agent says that the command failed.
  command_failed : (message : Text) → Answer
  -- The request did not run, so a retry is safe.
  never_received : (id : Text) → Answer
  -- It may or may not have run.
  outcome_unknown : (message : Text) → Answer
  cannot_recover : (id why : Text) → Answer
  still_busy : (id message : Text) → Answer

unfoldable error_code_of : Answer → Option ErrorCode
error_code_of (command_failed m) = some ErrorCode.automation_error
error_code_of (never_received id) = some ErrorCode.automation_error
error_code_of (outcome_unknown m) = some ErrorCode.automation_indeterminate
error_code_of (cannot_recover id why) = some ErrorCode.automation_indeterminate
error_code_of (still_busy id m) = some ErrorCode.automation_indeterminate
error_code_of a = none

-- The channel's client, the clock, and the texts of its errors.
pub record Client (S : Type 0) : Type 0 where
  pub ask : S → AutomateRequest → ℕ → S × Result RequestError Json
  pub probe : S → ℕ → S × Result RequestError Json
  pub default_timeout : S → ℕ
  pub has_query_result : S → Bool
  pub note_spawn : S → (spawn_ms elapsed : ℕ) → S
  pub now : S → ℕ
  pub sleep : S → ℕ → S
  pub text_of : RequestError → Text

abbrev pub text_at : Text → Json → Option Text
text_at k v = elim (get k v) [ none ↦ none | some j ↦ as_str j ]

abbrev as_flag : Json → Bool
as_flag (Json.bool b) = b
as_flag v = false

abbrev pub flag_at : Text → Json → Bool
flag_at k v = elim (get k v) [ none ↦ false | some j ↦ as_flag j ]

abbrev or_null : Option Json → Json
or_null none = null
or_null (some j) = j

abbrev or_text : Text → Option Text → Text
or_text d none = d
or_text d (some t) = t

abbrev hinted : AutomateRequest → Text → Text
hinted r message = if targets_an_element r then stale_ref_hint message else message

abbrev is_keyed : AutomateRequest → Bool
is_keyed (run c a w h t s st (some key)) = true
is_keyed r = false

abbrev pub same_instance : Option Text → Option Text → Option Bool
same_instance (some a) (some b) = some (text_eq a b)
same_instance a b = none

abbrev facts_of : AutomateRequest → (sent_to : Option Text) → Json → UnknownIdFacts
facts_of r sent_to value = record {
  same_agent = same_instance sent_to (text_at (codes "instance_id") value);
  evicted = flag_at (codes "evicted") value;
  disk_journal = elim (text_at (codes "journal") value) [
    | none ↦ false
    | some j ↦ text_eq j (codes "disk")
  ];
  keyed = is_keyed r;
}

abbrev pub by_verdict : (id : Text) → UnknownId → Answer
by_verdict id never_ran = never_received id
by_verdict id (record_lost why) = cannot_recover id why

abbrev failure_text : Json → Text
failure_text value =
    or_text (codes "the command failed on the agent")
      (elim (get (codes "error") value) [ none ↦ none | some e ↦ text_at (codes "message") e ])

-- What the answer to a lookup is worth.
unfoldable pub answer_lookup :
    AutomateRequest → (id : Text) → (sent_to : Option Text) → Json → Answer
unfolding unknown_id_verdict targets_an_element stale_ref_hint
answer_lookup r id sent_to value =
    if flag_at (codes "known") value
    then if flag_at (codes "success") value
      then converted r (or_null (get (codes "data") value))
      else command_failed (hinted r (failure_text value))
    else by_verdict id (unknown_id_verdict (facts_of r sent_to value))

unfoldable pub indeterminate_message : AutomateRequest → (error : Text) → Text
unfolding is_read_only
indeterminate_message r error =
    if is_read_only r
    then error ++ codes " This command is read-only - retrying is safe."
    else error

module _ {S : Type 0} (l : Client S) (r : AutomateRequest) (id : Text) (sent_to : Option Text)
    (error : Text) where
  abbrev pub after_lookup :
      (attempt : ℕ) → (S → S × Answer) → S × Result RequestError Json → S × Answer
  after_lookup attempt rest (s, ok value) = (s, answer_lookup r id sent_to value)
  after_lookup attempt rest (s, err e) =
      if ltb attempt query_result_attempts
      then rest (l.sleep s (query_result_backoff * attempt))
      else (s, still_busy id (indeterminate_message r error))

  -- The lookups, the first of which is number 1.
  unfoldable pub look_up : ℕ → (attempt : ℕ) → S → S × Answer
  unfolding answer_lookup indeterminate_message
  look_up zero attempt s = (s, still_busy id (indeterminate_message r error))
  look_up (suc f) attempt s =
      after_lookup attempt (look_up f (attempt + 1))
        (l.ask s (query_result id) query_result_timeout)

  unfoldable pub resolve_indeterminate : S → S × Answer
  unfolding look_up indeterminate_message
  resolve_indeterminate s =
      if l.has_query_result s
      then look_up query_result_attempts 1 s
      else (s, outcome_unknown (indeterminate_message r error))

abbrev is_run : AutomateRequest → Bool
is_run (run c a w h t s st k) = true
is_run r = false

abbrev pub spawned : AutomateRequest → Json → Option ℕ
spawned r data_ =
    if is_run r
    then elim (get (codes "spawn_ms") data_) [ none ↦ none | some j ↦ as_u64 j ]
    else none

module _ {S : Type 0} (l : Client S) where
  abbrev pub noted_spawn : S → (sent_at : ℕ) → Option ℕ → S
  noted_spawn s sent_at none = s
  noted_spawn s sent_at (some ms) = l.note_spawn s ms (l.now s - sent_at)

  abbrev pub after_send :
      AutomateRequest → (sent_at : ℕ) → S × Result RequestError Json → S × Answer
  after_send r sent_at (s, ok value) = (noted_spawn s sent_at (spawned r value), converted r value)
  after_send r sent_at (s, err (indeterminate id n sent_to)) =
      let error = l.text_of (indeterminate id n sent_to) in
      if skips_recovery_ladder r
      then (s, outcome_unknown error)
      else resolve_indeterminate l r id sent_to error s
  after_send r sent_at (s, err e) = (s, command_failed (hinted r (l.text_of e)))

  abbrev as_probed : S × Result RequestError Json → S × Answer
  as_probed (s, p) = (s, probed p)

  -- `handle`, once the agent is ready.
  unfoldable pub handle_ready : AutomateRequest → S → S × Answer
  unfolding resolve_indeterminate request_timeout skips_recovery_ladder targets_an_element
      stale_ref_hint
  handle_ready status s = as_probed (l.probe s status_probe_timeout)
  handle_ready r s = after_send r (l.now s) (l.ask s r (request_timeout r (l.default_timeout s)))
