-- ===== src/Dvc/Ipc.antt =====
-- dvc_ipc.rs: a request is handed over under the lock, then its caller waits for the answer. What
-- other calls do to the client during the wait is a function that the caller takes.
pub mod Outcomes
use agent_rdp.Json.{Json, null}
use agent_rdp.Base.{
  ℕ, ◌+◌, ◌-◌, ◌%◌, ◌^◌, Text, codes, Bool, true, false, not, ◌&&◌, ◌||◌, Option, none, some, List,
  [], ◌∷◌, ◌++◌, Text-discrete, lookup, erase, insert, is_none, is_some, ltb, length, ◌==◌, u64_max,
  if◌then◌else◌, Result, ok, err,
}
use agent_rdp.Protocol.Automate.{AutomateRequest, run, status}
use agent_rdp.Dvc.{
  DvcSharedState, DvcHandshake, DvcResponse, DvcError, DvcProtocolMessage, Effect, send, request,
}

pub data SendError : Type 0 where
  channel_not_open no_command_sender still_in_flight send_failed : SendError

-- Why `send_request_inner` gives no value.
pub data RequestError : Type 0 where
  not_sent : SendError → RequestError
  -- `DvcIndeterminate`: handed over, and no answer.
  indeterminate :
      (request_id : Text) (consecutive_failures : ℕ) (agent_instance : Option Text) → RequestError
  -- An answer that says failure: the agent's, or the daemon's own to the requests in flight when the
  -- channel is closed or released.
  failed : (code message : Text) → RequestError

-- `last_rtt_ms` is `u64_max` until a request has been answered.
pub record DvcIpc : Type 0 where
  pub shared : DvcSharedState
  pub timeout : ℕ
  pub consecutive_failures : ℕ
  pub rtt_ms : ℕ

abbrev pub last_rtt_ms : DvcIpc → Option ℕ
last_rtt_ms i = if i.rtt_ms == u64_max then none else some i.rtt_ms

unfoldable pub is_ready : DvcSharedState → Bool
is_ready s = is_some s.greeting && is_some s.channel_id

unfoldable pub pending_requests : DvcSharedState → ℕ
pending_requests s = length s.pending

unfoldable pub request_id : AutomateRequest → Text → Text
request_id (run c a w h t s st (some key)) fresh = key
request_id r fresh = fresh

abbrev instance_of : Option DvcHandshake → Option Text
instance_of none = none
instance_of (some h) = h.instance_id

-- The high-water mark of the deadlines granted.
abbrev raise_busy : Option ℕ → ℕ → Option ℕ
raise_busy none t = some t
raise_busy (some b) t = if ltb b t then some t else some b

abbrev registered : DvcSharedState → ℕ → Text → ℕ → ℕ → Bool → DvcSharedState
registered s now id waiter response_timeout occupies = record s {
  pending = insert Text-discrete id waiter s.pending;
  busy_until = if occupies then raise_busy s.busy_until (now + response_timeout) else s.busy_until;
}

-- The critical section: `delivered` is whether the session still takes commands.
abbrev hand_over_on :
    Option ℕ → DvcSharedState → ℕ → Text → ℕ → ℕ → Bool → Bool → Result SendError DvcSharedState
hand_over_on none s now id waiter t occupies delivered = err channel_not_open
hand_over_on (some c) s now id waiter t occupies delivered =
    if not s.command_tx
    then err no_command_sender
    else if is_some (lookup Text-discrete id s.pending)
    then err still_in_flight
    else if not delivered
    then err send_failed
    else ok (registered s now id waiter t occupies)

unfoldable pub hand_over :
    DvcSharedState → ℕ → Text → ℕ → ℕ → Bool → Bool → Result SendError DvcSharedState
hand_over s = hand_over_on s.channel_id s

-- How the wait ends: an answer after some time, the reply channel gone, or the deadline.
pub data Outcome : Type 0 where
  answered : DvcResponse → ℕ → Outcome
  dropped timed_out : Outcome

abbrev or_null : Option Json → Json
or_null none = null
or_null (some j) = j

abbrev or_unknown : Option DvcError → RequestError
or_unknown none = failed (codes "unknown") (codes "Unknown error")
or_unknown (some e) = failed e.code e.message

-- `fetch_add` on an `AtomicU32`.
abbrev incremented : ℕ → ℕ
incremented n = (n + 1) % 2 ^ 32

unfoldable pub finish : DvcIpc → Text → Option Text → Outcome → DvcIpc × Result RequestError Json
finish i id inst (answered r ms) = (
  record i { consecutive_failures = 0; rtt_ms = ms % 2 ^ 64 },
  if r.success then ok (or_null r.payload) else err (or_unknown r.error),
)
finish i id inst dropped =
    let n = incremented i.consecutive_failures in
    (record i { consecutive_failures = n }, err (indeterminate id n inst))
finish i id inst timed_out =
    let n = incremented i.consecutive_failures in
    (
      record i {
        shared = record (i.shared) { pending = erase Text-discrete id i.shared.pending };
        consecutive_failures = n;
      },
      err (indeterminate id n inst),
    )

-- What surrounds one request: the random id, the clock and the waiter at the hand-over, whether
-- the session takes the command, what others do meanwhile, and how the wait ends.
pub record Circumstance : Type 0 where
  pub fresh : Text
  pub now : ℕ
  pub waiter : ℕ
  pub delivered : Bool
  pub meanwhile : DvcIpc → DvcIpc
  pub outcome : Outcome

abbrev wait_for_reply :
    DvcIpc
    → Circumstance
    → Text
    → Result SendError DvcSharedState
    → DvcIpc × Result RequestError Json
wait_for_reply i e id (err x) = (i, err (not_sent x))
wait_for_reply i e id (ok s) =
    finish (e.meanwhile (record i { shared = s })) id (instance_of s.greeting) e.outcome

unfoldable pub send_request_inner :
    DvcIpc → AutomateRequest → ℕ → Bool → Circumstance → DvcIpc × Result RequestError Json
unfolding hand_over finish request_id
send_request_inner i r response_timeout occupies e =
    let id = request_id r e.fresh in
    wait_for_reply i e id
      (hand_over i.shared e.now id e.waiter response_timeout occupies e.delivered)

unfoldable pub send_request :
    DvcIpc → AutomateRequest → Circumstance → DvcIpc × Result RequestError Json
send_request i r e = send_request_inner i r i.timeout true e

abbrev is_err : Result RequestError Json → Bool
is_err (ok j) = false
is_err (err e) = true

-- A probe that was missed while another request was in flight takes its own failure back.
unfoldable pub probe_status : DvcIpc → ℕ → Circumstance → DvcIpc × Result RequestError Json
probe_status i response_timeout e =
    let busy = ltb 0 (pending_requests i.shared) in
    let (i', result) = send_request_inner i status response_timeout false e in
    if is_err result && busy
    then (record i' { consecutive_failures = i'.consecutive_failures - 1 }, result)
    else (i', result)
