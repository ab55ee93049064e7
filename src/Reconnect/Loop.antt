-- ===== src/Reconnect/Loop.antt =====
-- crates/agent-rdp-daemon/src/daemon.rs (`reconnect_loop` and what the user's requests do to it)
-- and handlers/connect.rs (the slot of the session).
pub mod Users
pub mod Failures
pub mod GivenUp
use agent_rdp.Base.{
  ℕ, ◌+◌, ◌%◌, ◌^◌, Bool, true, false, not, Option, none, some, List, [], ◌∷◌, ◌++◌, ◌==◌,
  if◌then◌else◌, is_some, Result, ok, err, Text, codes,
}
use agent_rdp.Json.{Json}
use agent_rdp.Protocol.Connect.{
  ConnectRequest, validate_connect_request, ConnectRefusal, refusal_text,
}
use agent_rdp.Protocol.Errors.{ErrorCode, authentication_failed, invalid_request}
use agent_rdp.Reconnect.{
  AutoReconnect, ReconnectSnapshot, should_attempt, backoff, note_outage, note_success, remember,
  disarm, stand_down, stop, claim, release, attempt_event, Refusal,
}

abbrev pub word : ℕ
word = 2 ^ 64

-- What the loop shares with the request handlers. A session is its generation, and the journal
-- holds what `append_event` was given, latest first.
pub record World : Type 0 where
  pub auto : AutoReconnect
  pub generation : ℕ
  pub serial : ℕ
  pub last_disconnect : Option ℕ
  pub session : Option ℕ
  pub journal : List Json

-- What comes of `RdpSession::connect` and the check that the session is not already dead.
abbrev pub Reply : Type 0
Reply = Result (ErrorCode × Text) (Unit {0})

-- `connect::handle` up to the connection: the generation, and the slot emptied.
unfoldable pub connect_begin : World → World
connect_begin w = record w { generation = (w.generation + 1) % word; session = none }

-- `connect::handle` from the connection on: the session is stored.
unfoldable pub connect_finish : World → ℕ → Reply → World
connect_finish w generation (ok u) = record w { session = some generation }
connect_finish w generation (err e) = w

-- What others do while the loop waits.
pub data Act : Type 0 where
  connects : ConnectRequest → Reply → Act
  disconnects shuts_down : Act
  drops : ℕ → Act

abbrev bump : World → World
bump w = record w { serial = (w.serial + 1) % word }

-- `handle_client` clears the drop that the connect recovered from.
unfoldable pub user_connect : World → ConnectRequest → Reply → World
unfolding connect_begin connect_finish
user_connect w r (ok u) =
    let begun = connect_begin w in
    let done = connect_finish begun begun.generation (ok u) in
    record done { auto = remember done.auto r; last_disconnect = none }
user_connect w r (err e) = connect_finish (connect_begin w) (w.generation + 1) (err e)

-- `handle_client` and the handlers, and the record that a transport drop leaves.
unfoldable pub act : World → Act → World
act w (connects r reply) = elim (validate_connect_request r) [
  | ok u ↦ user_connect (bump w) r reply
  | err e ↦ bump w
]
act w disconnects = record (bump w) { auto = disarm w.auto; session = none }
act w shuts_down = record (bump w) { auto = disarm w.auto }
act w (drops at) = record w { last_disconnect = some at }

unfoldable pub acts : World → List Act → World
acts w [] = w
acts w (a ∷ rest) = acts (act w a) rest

abbrev pub snapshot : World → (dropped armed : ℕ) → ReconnectSnapshot
snapshot w dropped armed = record {
  enabled = w.auto.enabled;
  have_request = is_some w.auto.request;
  stopped = is_some w.auto.stopped_reason;
  in_flight = w.auto.in_flight;
  dropped_generation = dropped;
  current_generation = w.generation;
  serial_at_arm = armed;
  serial_now = w.serial;
}

abbrev pub with_auto : World → AutoReconnect → World
with_auto w a = record w { auto = a }

-- The schedule is taken back, unless it is another attempt's.
unfoldable pub abandoned : World → World
abandoned w = if w.auto.in_flight then w else with_auto w (stand_down w.auto)

-- The start of `reconnect_loop`: the outage is noted, and `none` is an end without an attempt.
unfoldable pub enter : World → ℕ → World × Bool
enter w now =
    if not w.auto.enabled
    then (w, false)
    else (let (noted, go) = note_outage w.auto now in
        if go
        then (with_auto w (record noted { attempts = 0; outage_began = some now }), true)
        else (with_auto w (stand_down noted), false))

-- One turn of the loop, as the world gives it: what happens before it, while it sleeps, and while
-- it connects; the times; and what the host answers.
pub record Turn : Type 0 where
  pub before : List Act
  pub now : ℕ
  pub asleep : List Act
  pub meanwhile : List Act
  pub reply : Reply
  pub done_at : ℕ

pub data TurnEnd : Type 0 where
  ended : World → TurnEnd
  again : World → (dropped : ℕ) → TurnEnd

abbrev pub journaled : World → Json → World
journaled w e = record w { journal = e ∷ w.journal }

abbrev pub rejected_text : Text → Text
rejected_text m =
    codes "the server rejected the connection in a way retrying cannot fix ("
    ++ (m ++ codes "); reconnect manually once it is resolved")

-- Credentials refused once are refused again.
abbrev pub is_final : ErrorCode → Bool
is_final authentication_failed = true
is_final invalid_request = true
is_final _ = false

abbrev pub same_time : Option ℕ → Option ℕ → Bool
same_time none none = true
same_time (some a) (some b) = a == b
same_time none (some b) = false
same_time (some a) none = false

-- After the answer.
unfoldable pub settle :
    World → ConnectRequest → (attempt done_at : ℕ) → (drop_before : Option ℕ) → Reply → TurnEnd
settle w r attempt done_at drop_before (ok u) =
    let told = journaled w (attempt_event r attempt (codes "connected") none) in
    ended (record told {
      auto = note_success w.auto done_at;
      last_disconnect = if same_time w.last_disconnect drop_before then none else w.last_disconnect;
    })
settle w r attempt done_at drop_before (err (code, message)) =
    let told = journaled w (attempt_event r attempt (codes "failed") (some message)) in
    let noted = record w.auto { last_attempt_error = some message } in
    if is_final code
    then ended (with_auto told (stop noted (rejected_text message)))
    else again (with_auto told noted) w.generation

-- `connect::handle` as the loop calls it, with what others do before it is connected.
unfoldable pub connect : World → ConnectRequest → List Act → Reply → World × Reply
connect w r meanwhile reply =
    let begun = connect_begin w in
    elim (validate_connect_request r) [
      | ok u ↦ (connect_finish (acts begun meanwhile) begun.generation reply, reply)
      | err e ↦ (w, err (invalid_request, refusal_text r e))
    ]

-- The attempt: announced, claimed, made, and the claim given back.
unfoldable pub attempt_connect : World → Turn → ConnectRequest → (attempt : ℕ) → TurnEnd
attempt_connect w t r attempt =
    let told = journaled w (attempt_event r attempt (codes "attempting") none) in
    let (after, reply) = connect (with_auto told (claim w.auto)) r t.meanwhile t.reply in
    settle (with_auto after (release after.auto)) r attempt t.done_at w.last_disconnect reply

abbrev pub scheduled : World → (attempt now : ℕ) → World
scheduled w attempt now =
    with_auto w
      (record w.auto { attempts = attempt; next_attempt_at = some (now + backoff attempt) })

-- From the request on: the wait, the second look, the attempt.
unfoldable pub wait_and_try :
    World → (dropped armed attempt : ℕ) → Turn → Option ConnectRequest → TurnEnd
wait_and_try w dropped armed attempt t none = ended (with_auto w (stand_down w.auto))
wait_and_try w dropped armed attempt t (some r) =
    let woken = acts (scheduled w attempt t.now) t.asleep in
    elim (should_attempt (snapshot woken dropped armed)) [
      | ok u ↦ attempt_connect woken t r attempt
      | err why ↦ ended (abandoned woken)
    ]

unfoldable pub turn : World → (dropped armed attempt : ℕ) → Turn → TurnEnd
turn w dropped armed attempt t =
    let seen = acts w t.before in
    elim (should_attempt (snapshot seen dropped armed)) [
      | ok u ↦ wait_and_try seen dropped armed attempt t seen.auto.request
      | err why ↦ ended (abandoned seen)
    ]

-- The `loop` of `reconnect_loop`, on as many turns as the world gives it.
unfoldable pub turns : World → (dropped armed attempt : ℕ) → List Turn → TurnEnd
turns w dropped armed attempt [] = again w dropped
turns w dropped armed attempt (t ∷ ts) =
    let next = (attempt + 1) % 2 ^ 32 in
    elim (turn w dropped armed next t) [ ended v ↦ ended v | again v d ↦ turns v d armed next ts ]

-- `reconnect_loop`, for a drop noticed now.
unfoldable pub reconnect_loop : World → (now dropped armed : ℕ) → List Turn → TurnEnd
unfolding turns enter
reconnect_loop w now dropped armed ts =
    let (v, go) = enter w now in if go then turns v dropped armed 0 ts else ended v
