-- ===== src/Reconnect/Tests.antt =====
-- Runs of the reconnect rules and of the loop on concrete worlds.
use agent_rdp.Base.{
  ◌<◌, ◌≢◌, ◌^◌, ◌++◌, ℕ, ◌+◌, ◌-◌, ◌%◌, min, ◌≡◌, refl, ◌⊎◌, true, false, none, some, List, [],
  ◌∷◌, arith, ltb, is_some, ok, err, length, codes,
}
use agent_rdp.Protocol.Connect.{ConnectRequest, default_request, validate_connect_request}
use agent_rdp.Protocol.Errors.{authentication_failed, connection_failed}
use agent_rdp.Reconnect.{
  attempt_event, note_outage, AutoReconnect, ReconnectSnapshot, default_state, should_attempt,
  user_acted,
}
use agent_rdp.Reconnect.Outages.{Cycle, outages, flapping_gives_up}
use agent_rdp.Reconnect.Loop.{
  Act, World, connects, disconnects, drops, Turn, ended, again, turn, attempt_connect,
  reconnect_loop, acts, scheduled, word, rejected_text,
}
use agent_rdp.Reconnect.Loop.Users.{
  IsLeft, user_request_ends_turn, disconnect_during_attempt_is_undone,
}
use agent_rdp.Reconnect.Loop.GivenUp.{Outage}
use agent_rdp.Reconnect.Loop.Failures.{
  told, counted, retried, refused_credentials_stop, IsReady, failing, own_failures_do_not_end_it,
}
use agent_rdp.Reconnect.Drops.{
  DisconnectEvent, drop_event, note_drop, on_drop, claimed, newer_session_is_left,
  user_request_ends_recovery,
}

abbrev request : ConnectRequest
request = record default_request { host = codes "srv"; password = codes "x"; auto_reconnect = true }

abbrev kept : AutoReconnect
kept = record default_state { request = some request; enabled = true; last_success = some 1000 }

abbrev idle : World
idle = record {
  auto = kept;
  generation = 3;
  serial = 7;
  last_disconnect = some 5000;
  session = none;
  journal = [];
}

abbrev quiet : Turn
quiet = record {
  before = [];
  now = 5000;
  asleep = [];
  meanwhile = [];
  reply = ok tt;
  done_at = 11000;
}

abbrev seen : ReconnectSnapshot
seen = record {
  enabled = true;
  have_request = true;
  stopped = false;
  in_flight = false;
  dropped_generation = 3;
  current_generation = 3;
  serial_at_arm = 7;
  serial_now = 8;
}

user_has_acted : should_attempt seen ≡ err user_acted
unfolding should_attempt
user_has_acted = refl

abbrev flaps : List Cycle
flaps =
    record { began = 2000; back = 10000 }
    ∷ record { began = 20000; back = 30000 }
    ∷ record { began = 40000; back = 50000 }
    ∷ record { began = 60000; back = 70000 }
    ∷ record { began = 80000; back = 90000 }
    ∷ []

flapping_gives_up_example :
    let (n, last) = outages kept flaps in
    (n ≡ min (length flaps) (4 - kept.short_sessions))
    × (is_some last.stopped_reason ≡ ltb (4 - kept.short_sessions) (length flaps))
flapping_gives_up_example = flapping_gives_up kept 1000 flaps refl refl (
  omega arith,
  omega arith,
  (
    omega arith,
    omega arith,
    (omega arith, omega arith, (omega arith, omega arith, (omega arith, omega arith, tt))),
  ),
)

abbrev disturbed : Turn
disturbed = record quiet { asleep = drops 5500 ∷ disconnects ∷ [] }

user_request_ends_turn_example :
    let now_seen = acts idle disturbed.before in
    (v : World) × (turn idle 3 idle.serial 1 disturbed ≡ ended v)
    × (IsLeft v now_seen ⊎ IsLeft v (acts (scheduled now_seen 1 disturbed.now) disturbed.asleep))
user_request_ends_turn_example =
    user_request_ends_turn idle 3 1 disturbed (omega arith) (omega arith) (omega arith)

disconnect_during_attempt_is_undone_example :
    (v : World) × (attempt_connect idle (record quiet { meanwhile = disconnects ∷ [] }) request 1
      ≡ ended v)
    × (v.session ≡ some ((idle.generation + 1) % word))
    × (v.auto.request ≡ none)
    × (v.auto.enabled ≡ false)
unfolding validate_connect_request
disconnect_during_attempt_is_undone_example =
    disconnect_during_attempt_is_undone idle (record quiet { meanwhile = disconnects ∷ [] }) request
      1 refl refl refl

abbrev given_up : World
given_up = record idle { auto = record kept { stopped_reason = some (codes "refused") } }

abbrev failed_by_hand : Turn
failed_by_hand = record quiet {
  before = connects request (err (connection_failed, codes "no route")) ∷ [];
}

-- Two drops, the second after a connect of the user's that fails.
abbrev two_drops : List Outage
two_drops =
    record {
      happened = drops 4000 ∷ [];
      noticed = 4000;
      dropped = 3;
      armed = 7;
      turns_of = failed_by_hand ∷ [];
    }
    ∷ record {
      happened = failed_by_hand.before;
      noticed = 9000;
      dropped = 4;
      armed = 8;
      turns_of = failed_by_hand ∷ [];
    }
    ∷ []

abbrev times : List (ℕ × ℕ)
times = (5000, 11000) ∷ (11000, 22000) ∷ (22000, 43000) ∷ []

refused_credentials_stop_example :
    let last = (counted 0 times + 1) % 2 ^ 32 in
    (v : World) × (reconnect_loop idle 500000 idle.generation 7 (
        failing (connection_failed, codes "no route") times
        ++ retried (authentication_failed, codes "logon") (60000, 61000) ∷ quiet ∷ [])
      ≡ ended v)
    × (v.auto.stopped_reason ≡ some (rejected_text (codes "logon")))
    × (v.auto.in_flight ≡ false)
    × (v.auto.next_attempt_at ≡ none)
    × (v.journal
        ≡ attempt_event request last (codes "failed") (some (codes "logon"))
          ∷ attempt_event request last (codes "attempting") none
          ∷ told request (codes "no route") 0 times idle.journal)
unfolding validate_connect_request note_outage
refused_credentials_stop_example =
    refused_credentials_stop idle request 500000 7 (connection_failed, codes "no route") times
      (codes "logon") (60000, 61000) (quiet ∷ []) refl refl (refl, refl, refl, refl, refl) refl
      (omega arith)

own_failures_do_not_end_it_example :
    (v : World) × (reconnect_loop idle 500000 idle.generation 7
        (failing (connection_failed, codes "no route") times)
      ≡ again v v.generation)
    × IsReady v request 7
    × (v.journal ≡ told request (codes "no route") 0 times idle.journal)
    × (v.generation ≡ (idle.generation + length times) % word)
unfolding validate_connect_request note_outage
own_failures_do_not_end_it_example =
    own_failures_do_not_end_it idle request 500000 7 (connection_failed, codes "no route") times
      refl refl (refl, refl, refl, refl, refl) refl (omega arith)

abbrev dropped : DisconnectEvent
dropped = record { generation = 3; reason = codes "reset" }

abbrev by_hand : List Act
by_hand = connects request (ok tt) ∷ []

newer_session_is_left_example :
    (dropped.generation ≢ idle.generation → on_drop idle dropped 5000 by_hand [] [] ≡ ended idle)
    × (dropped.generation ≡ idle.generation
        → 0 < claimed by_hand
        → on_drop idle dropped 5000 by_hand [] []
          ≡ ended (acts (note_drop idle dropped 5000) by_hand))
unfolding validate_connect_request
newer_session_is_left_example =
    newer_session_is_left idle dropped 5000 by_hand [] [] (omega arith) (omega arith)

user_request_ends_recovery_example :
    (v : World) × (on_drop idle dropped 5000 [] (disconnects ∷ []) (quiet ∷ []) ≡ ended v)
    × ((v.journal ≡ idle.journal) ⊎ (v.journal ≡ drop_event dropped ∷ idle.journal))
user_request_ends_recovery_example =
    user_request_ends_recovery idle dropped 5000 [] (disconnects ∷ []) quiet [] (omega arith)
      (omega arith) (omega arith)
