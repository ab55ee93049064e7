-- ===== src/Reconnect.antt =====
-- crates/agent-rdp-daemon/src/reconnect.rs: what the daemon remembers in order to reconnect, and
-- when it may. Times are in milliseconds.
pub mod Attempt
pub mod Outages
pub mod Loop
pub mod Drops
mod Tests
use agent_rdp.Base.{
  ℕ, ◌-◌, ◌*◌, ◌/◌, Bool, true, false, not, ◌&&◌, Option, none, some, ◌++◌, ltb, leb, ◌==◌,
  if◌then◌else◌, Result, ok, err, sat_add32, Text, codes, decimal,
}
use agent_rdp.Json.{Json, Members, object, str, num, null, member, end}
use agent_rdp.Protocol.Connect.{ConnectRequest}

-- `backoff`, in milliseconds.
unfoldable pub backoff : ℕ → ℕ
backoff attempt =
    1000
    * (if leb attempt 1
        then 5
        else if attempt == 2
        then 10
        else if attempt == 3
        then 20
        else if attempt == 4
        then 40
        else 60)

abbrev pub healthy_session : ℕ
healthy_session = 120000

abbrev pub max_short_sessions : ℕ
max_short_sessions = 5

pub record ReconnectSnapshot : Type 0 where
  pub enabled : Bool
  pub have_request : Bool
  pub stopped : Bool
  pub in_flight : Bool
  pub dropped_generation : ℕ
  pub current_generation : ℕ
  pub serial_at_arm : ℕ
  pub serial_now : ℕ

-- The refusals of `should_attempt`, in the order of its guards.
pub data Refusal : Type 0 where
  not_enabled no_request gave_up_earlier already_running newer_session user_acted : Refusal

unfoldable pub should_attempt : ReconnectSnapshot → Result Refusal (Unit {0})
should_attempt s =
    if not s.enabled
    then err not_enabled
    else if not s.have_request
    then err no_request
    else if s.stopped
    then err gave_up_earlier
    else if s.in_flight
    then err already_running
    else if not (s.current_generation == s.dropped_generation)
    then err newer_session
    else if not (s.serial_now == s.serial_at_arm)
    then err user_acted
    else ok tt

pub record AutoReconnect : Type 0 where
  pub request : Option ConnectRequest
  pub enabled : Bool
  pub reconnects : ℕ
  pub attempts : ℕ
  pub last_attempt_error : Option Text
  pub outage_began : Option ℕ
  pub next_attempt_at : Option ℕ
  pub stopped_reason : Option Text
  pub short_sessions : ℕ
  pub last_success : Option ℕ
  pub in_flight : Bool

abbrev pub default_state : AutoReconnect
default_state = record {
  request = none;
  enabled = false;
  reconnects = 0;
  attempts = 0;
  last_attempt_error = none;
  outage_began = none;
  next_attempt_at = none;
  stopped_reason = none;
  short_sessions = 0;
  last_success = none;
  in_flight = false;
}

unfoldable pub remember : AutoReconnect → ConnectRequest → AutoReconnect
remember a r = record a {
  enabled = r.auto_reconnect;
  request = some r;
  stopped_reason = none;
  attempts = 0;
  short_sessions = 0;
  last_success = none;
  outage_began = none;
  next_attempt_at = none;
  in_flight = false;
}

unfoldable pub stop : AutoReconnect → Text → AutoReconnect
stop a why = record a { next_attempt_at = none; stopped_reason = some why }

unfoldable pub stand_down : AutoReconnect → AutoReconnect
stand_down a = record a { next_attempt_at = none }

-- `duration_since` answers nothing when the clock has gone back.
abbrev pub lived_short : Option ℕ → ℕ → Bool
lived_short none now = false
lived_short (some at) now = leb at now && ltb (now - at) healthy_session

abbrev pub short_sessions_text : ℕ → Text
short_sessions_text n =
    codes "the session was re-established "
    ++ (decimal n
        ++ (codes " times and dropped again within "
            ++ (decimal (healthy_session / 1000)
                ++ codes "s each time; something other than a transient outage is ending it")))

unfoldable pub note_outage : AutoReconnect → ℕ → AutoReconnect × Bool
unfolding stop
note_outage a now =
    let n = sat_add32 a.short_sessions 1 in
    if lived_short a.last_success now
    then if leb max_short_sessions n
      then (stop (record a { short_sessions = n }) (short_sessions_text n), false)
      else (record a { short_sessions = n }, true)
    else (record a { short_sessions = 0 }, true)

unfoldable pub note_success : AutoReconnect → ℕ → AutoReconnect
note_success a now = record a {
  reconnects = sat_add32 a.reconnects 1;
  attempts = 0;
  next_attempt_at = none;
  outage_began = none;
  last_attempt_error = none;
  last_success = some now;
}

unfoldable pub disarm : AutoReconnect → AutoReconnect
disarm a = record a {
  enabled = false;
  request = none;
  next_attempt_at = none;
  outage_began = none;
  attempts = 0;
}

-- `InFlight::claim` and its `drop`.
unfoldable pub claim : AutoReconnect → AutoReconnect
claim a = record a { in_flight = true }

unfoldable pub release : AutoReconnect → AutoReconnect
release a = record a { in_flight = false }

abbrev text_or_null : Option Text → Json
text_or_null none = null
text_or_null (some t) = str t

-- What is journaled about an attempt.
unfoldable pub attempt_event : ConnectRequest → ℕ → Text → Option Text → Json
attempt_event r attempt outcome detail = object (
    member (codes "rdp_auto_reconnect")
      (object (
        member (codes "host") (str r.host) (
          member (codes "port") (num r.port) (
            member (codes "username") (str r.username) (
              member (codes "attempt") (num attempt) (
                member (codes "outcome") (str outcome)
                  (member (codes "detail") (text_or_null detail) end)))))))
      end)
