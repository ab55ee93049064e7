-- ===== src/Dvc.antt =====
-- crates/agent-rdp-daemon/src/automation/dvc_channel.rs and dvc_ipc.rs: the channel to the
-- automation agent, its shared state, and what each call does to it. A reply channel is the number
-- of the waiter that holds its other end; an instant is a number; what a call sends or answers is a
-- list of effects. `start`, `close`, `release_primary` and the hand-over hold the lock of the state
-- throughout. `process` lets it go between its parts: `process_among` has what others do then, and
-- `process` is the run with nothing in between.
pub mod Ipc
pub mod Slot
pub mod Interleaved
pub mod Stale
pub mod Replies
mod Tests
use agent_rdp.Json.{Json, Members, object}
use agent_rdp.Base.{
  ℕ, ◌+◌, Text, codes, decimal, text_eq, Bool, true, false, not, ◌&&◌, Option, none, some, List, [],
  ◌∷◌, ◌++◌, map, ℕ_discrete, Text-discrete, lookup, erase, insert, contains, discard, add, is_none,
  is_some, sat_add32, ◌==◌, ltb, if◌then◌else◌,
}

pub record DvcError : Type 0 where
  pub code : Text
  pub message : Text

pub record DvcHandshake : Type 0 where
  pub version : Text
  pub agent_pid : ℕ
  pub capabilities : List Text
  pub build_id : Option Text
  pub instance_id : Option Text
  pub started_unix : Option ℕ

pub record DvcResponse : Type 0 where
  pub success : Bool
  pub payload : Option Json
  pub error : Option DvcError

pub data DvcProtocolMessage : Type 0 where
  handshake : DvcHandshake → DvcProtocolMessage
  request : (id command : Text) (params : Json) → DvcProtocolMessage
  response : (id : Text) → DvcResponse → DvcProtocolMessage
  poll : DvcProtocolMessage

-- `command_tx` and `closed_notify` are whether the sender is there.
pub record DvcSharedState : Type 0 where
  pub pending : List (Text × ℕ)
  pub greeting : Option DvcHandshake
  pub handshake_at : Option ℕ
  pub channel_id : Option ℕ
  pub extras : List ℕ
  pub expected_build_id : Option Text
  pub stale_rejections : ℕ
  pub last_inbound_at : Option ℕ
  pub busy_until : Option ℕ
  pub command_tx : Bool
  pub closed_notify : Bool

pub data Effect : Type 0 where
  -- A message to the agent on a channel.
  send : ℕ → DvcProtocolMessage → Effect
  -- An answer to a waiter.
  reply : ℕ → DvcResponse → Effect
  -- A notice to the relaunch supervisor, and one that an agent is there.
  notify_closed : Effect
  notify_handshake : DvcHandshake → Effect

-- `DvcSharedState::default`.
abbrev pub init : DvcSharedState
init = record {
  pending = [];
  greeting = none;
  handshake_at = none;
  channel_id = none;
  extras = [];
  expected_build_id = none;
  stale_rejections = 0;
  last_inbound_at = none;
  busy_until = none;
  command_tx = false;
  closed_notify = false;
}

abbrev pub is_launching : DvcSharedState → Bool
is_launching s = is_some s.channel_id && is_none s.greeting

abbrev pub text_is : Text → Option Text → Bool
text_is t none = false
text_is t (some u) = text_eq u t

abbrev accepts : Option Text → Option Text → Bool
accepts none b = true
accepts (some e) b = text_is e b

unfoldable pub build_id_accepted : DvcSharedState → Option Text → Bool
build_id_accepted s b = accepts s.expected_build_id b

abbrev pub channel_is : Option ℕ → ℕ → Bool
channel_is none c = false
channel_is (some p) c = p == c

abbrev failure : Text → Text → DvcResponse
failure code message = record {
  success = false;
  payload = none;
  error = some (record { code = code; message = message });
}

abbrev pub closed_reply : DvcResponse
closed_reply = failure (codes "channel_closed") (codes "DVC channel was closed")

abbrev pub released_reply : DvcResponse
released_reply = failure (codes "channel_closed") (codes "the automation agent was asked to exit")

-- `pending.drain()`, with one answer to every waiter.
unfoldable pub fail_all : DvcResponse → List (Text × ℕ) → List Effect
fail_all r [] = []
fail_all r ((id, w) ∷ m) = reply w r ∷ fail_all r m

pub release_primary : DvcSharedState → ℕ → DvcSharedState × Bool × List Effect
release_primary s c = if not (channel_is s.channel_id c) then (s, false, []) else (
  record s {
    channel_id = none;
    greeting = none;
    handshake_at = none;
    last_inbound_at = none;
    busy_until = none;
    extras = add ℕ_discrete c s.extras;
    pending = [];
  },
  true,
  fail_all released_reply s.pending,
)

unfoldable pub shutdown_request : ℕ → DvcProtocolMessage
shutdown_request c =
    request (codes "shutdown-" ++ decimal c) (codes "shutdown") (object Members.end)

-- `DvcProcessor::start`.
abbrev open_slot : Option ℕ → ℕ → DvcSharedState → DvcSharedState
open_slot none c s = record s { channel_id = some c }
open_slot (some p) c s = record s { extras = add ℕ_discrete c s.extras }

unfoldable pub start : DvcSharedState → ℕ → DvcSharedState
start s c = open_slot s.channel_id c (record s { extras = discard ℕ_discrete c s.extras })

-- A handshake from an agent that runs other scripts.
abbrev pub refuse_stale : DvcSharedState → ℕ → DvcSharedState
refuse_stale s c = record s {
  stale_rejections = sat_add32 s.stale_rejections 1;
  channel_id = if channel_is s.channel_id c then none else s.channel_id;
  extras = add ℕ_discrete c s.extras;
}

-- A handshake that is stored; an extra takes the slot over.
abbrev pub accept : DvcSharedState → ℕ → ℕ → Bool → DvcHandshake → DvcSharedState
accept s now c is_extra h = record s {
  extras = if is_extra then discard ℕ_discrete c s.extras else s.extras;
  channel_id = if is_extra then some c else s.channel_id;
  greeting = some h;
  handshake_at = some now;
  last_inbound_at = some now;
  busy_until = none;
}

abbrev noticed : Bool → DvcHandshake → List Effect
noticed tx h = if tx then notify_handshake h ∷ [] else []

-- What other threads do to the state each time `process` has let go of its lock.
abbrev pub Between : Type 0
Between = ℕ → DvcSharedState → DvcSharedState

abbrev pub alone : Between
alone i s = s

-- The lock is taken for whether the channel is an extra, for whether it may be promoted, for the
-- build id, and for the handshake itself.
unfoldable pub on_handshake :
    Between → Bool → DvcSharedState → ℕ → ℕ → DvcHandshake → DvcSharedState × List Effect
on_handshake between tx s now c h =
    let is_extra = contains ℕ_discrete c s.extras in
    let s1 = between 0 s in
    let promote : Bool = if is_none s1.channel_id then true else channel_is s1.channel_id c in
    let s2 = between 1 s1 in
    if not (build_id_accepted s2 h.build_id)
    then (refuse_stale s2 c, send c (shutdown_request c) ∷ [])
    else if is_extra && not promote
    then (s2, send c (shutdown_request c) ∷ [])
    else (accept (between 2 s2) now c is_extra h, noticed tx h)

abbrev pub answer : Option ℕ → DvcResponse → List Effect
answer none r = []
answer (some w) r = reply w r ∷ []

unfoldable pub on_response :
    Between → DvcSharedState → ℕ → ℕ → Text → DvcResponse → DvcSharedState × List Effect
on_response between s now c id r =
    if contains ℕ_discrete c s.extras
    then (s, [])
    else (let s1 = between 0 s in
        (
          record s1 { last_inbound_at = some now; pending = erase Text-discrete id s1.pending },
          answer (lookup Text-discrete id s1.pending) r,
        ))

-- `DvcProcessor::process` on a payload that `decode_message` has read, or could not read. `tx` is
-- whether the processor was built with a handshake notice.
unfoldable pub process_among :
    Between
    → Bool
    → DvcSharedState
    → ℕ
    → ℕ
    → Option DvcProtocolMessage
    → DvcSharedState × List Effect
unfolding on_handshake on_response
process_among between tx s now c none = (s, [])
process_among between tx s now c (some (handshake h)) = on_handshake between tx s now c h
process_among between tx s now c (some (response id r)) = on_response between s now c id r
process_among between tx s now c (some (request i m p)) = (s, [])
process_among between tx s now c (some poll) = (s, [])

-- With nothing in between.
unfoldable pub process :
    Bool → DvcSharedState → ℕ → ℕ → Option DvcProtocolMessage → DvcSharedState × List Effect
unfolding process_among
process tx s now c m = process_among alone tx s now c m

-- `DvcProcessor::close`.
unfoldable pub close : DvcSharedState → ℕ → DvcSharedState × List Effect
close s c =
    if contains ℕ_discrete c s.extras
    then (record s { extras = discard ℕ_discrete c s.extras }, [])
    else if not (channel_is s.channel_id c)
    then (s, [])
    else (
      record s { channel_id = none; greeting = none; handshake_at = none; pending = [] },
      (if s.closed_notify then notify_closed ∷ [] else []) ++ fail_all closed_reply s.pending,
    )
