-- ===== src/Automate/Tests.antt =====
-- A request whose reply is lost, and lookups that time out.
use agent_rdp.Json.{Json, null, member, end, get, get_member}
use agent_rdp.Protocol.Automate.{AutomateRequest, query_result, click, run}
use agent_rdp.Dvc.Ipc.{RequestError, indeterminate}
use agent_rdp.Automate.{
  default_dvc_timeout, request_timeout, dvc_deadline, skips_recovery_ladder, unknown_id_verdict,
  never_received, Client, flag_at, answer_lookup, look_up, resolve_indeterminate, handle_ready,
}
use agent_rdp.Automate.Ladder.{IsHonest, Backed, safe_retry_never_ran}
use agent_rdp.Automate.Callers.{automate_timeout_ms, daemon_gives_up_first}
use agent_rdp.Automate.Times.{IsTimely}
use agent_rdp.Base.{
  ℕ, ◌+◌, ◌-◌, ◌^◌, ◌<◌, none, ◌≡◌, refl, ap, ◌∙◌, ◌≢◌, Bool, true, false, some, [], arith,
  if◌then◌else◌, Result, ok, err, Text, codes, text_eq,
}

abbrev lost_id : Text
lost_id = codes "r1"

abbrev agent : Text
agent = codes "a1"

-- What the agent answers to a lookup of a request it has run, and of any other.
abbrev record_of : Json
record_of = Json.object (
    member (codes "known") (Json.bool true)
      (member (codes "success") (Json.bool true) (member (codes "data") null end)))

abbrev denial : Json
denial = Json.object (
    member (codes "known") (Json.bool false) (
      member (codes "evicted") (Json.bool false)
        (member (codes "instance_id") (Json.str agent) end)))

abbrev ask_agent : ℕ → AutomateRequest → ℕ → ℕ × Result RequestError Json
ask_agent s (query_result id) t =
    (s + 7, ok (if text_eq id (codes "r0") then record_of else denial))
ask_agent s r t = (s + t, err (indeterminate lost_id 1 (some agent)))

-- The state is the clock. A request is lost, and a lookup is answered.
abbrev client : Client ℕ
client = record {
  ask = ask_agent;
  probe = λ s t. (s + t, ok null);
  default_timeout = λ s. default_dvc_timeout;
  has_query_result = λ s. true;
  note_spawn = λ s a b. s;
  now = λ s. s;
  sleep = λ s d. s + d;
  text_of = λ e. [];
}

retry_is_called_safe :
    handle_ready client (click (codes "#b") false) 0 ≡ (10007, never_received lost_id)
unfolding handle_ready request_timeout skips_recovery_ladder resolve_indeterminate look_up
    answer_lookup unknown_id_verdict text_eq get get_member
retry_is_called_safe = refl

-- The agent has run r0.
abbrev RanR0 : (instance_id id : Text) → Type 0
RanR0 i id = text_eq id (codes "r0") ≡ true

abbrev known_of : Result RequestError Json → Bool
known_of (ok value) = flag_at (codes "known") value
known_of (err e) = false

known_is_record : (b : Bool) → known_of (ok (if b then record_of else denial)) ≡ false → b ≢ true
unfolding text_eq get get_member
known_is_record true e h = ground (arith, e)
known_is_record false e h = ground (arith, h)

client-IsHonest : IsHonest RanR0 client
unfolding IsHonest
client-IsHonest s id t value i a d =
    known_is_record (text_eq id (codes "r0")) (ap known_of a ∙ d.unknown)

safe_retry_never_ran_example :
    Backed RanR0
      (client.ask 0
        (click (codes "#b") false)
        (request_timeout (click (codes "#b") false) (client.default_timeout 0))).1
      (handle_ready client (click (codes "#b") false) 0).1
safe_retry_never_ran_example =
    safe_retry_never_ran RanR0 client client-IsHonest (click (codes "#b") false) 0

-- A client for which every lookup times out as well.
abbrev silent : Client ℕ
silent = record client { ask = λ s r t. (s + t, err (indeterminate lost_id 1 (some agent))) }

silent-IsTimely : IsTimely silent
silent-IsTimely = record {
  asks = λ s r t. omega arith;
  probes = λ s t. omega arith;
  sleeps = λ s d. omega arith;
  notes = λ s a b. omega arith;
}

-- The bound is reached: 10 s for the request and 36 s for the ladder.
bound_is_reached : (handle_ready silent (click (codes "#b") false) 0).0 ≡ 46000
unfolding handle_ready request_timeout skips_recovery_ladder resolve_indeterminate look_up
    answer_lookup
bound_is_reached = refl

-- With the command line's default, 30 s.
daemon_gives_up_first_example :
    silent.now (handle_ready silent (click (codes "#b") false) 0).0
    < silent.now 0 + automate_timeout_ms (click (codes "#b") false) 30000
unfolding dvc_deadline request_timeout
daemon_gives_up_first_example =
    daemon_gives_up_first silent silent-IsTimely (click (codes "#b") false) 0 30000 refl
      (omega arith) (omega arith)

-- The greatest timeout of a run: its deadline, cut to 64 bits, is below the base.
abbrev longest_run : AutomateRequest
longest_run = run (codes "cmd") [] true false (2 ^ 64 - 1) none false none

longest_run_is_cut : automate_timeout_ms longest_run 30000 ≡ 96000
unfolding automate_timeout_ms dvc_deadline request_timeout skips_recovery_ladder
longest_run_is_cut = refl
