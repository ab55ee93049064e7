-- ===== src/Supervisor.antt =====
-- crates/agent-rdp-daemon/src/automation/bootstrap.rs: what the agent's supervisor decides - when
-- it may launch the agent again, and when it calls one wedged. Times are in milliseconds.
pub mod Relaunch
pub mod Wedge
mod Tests
use agent_rdp.Base.{
  ℕ, ◌+◌, ◌-◌, ◌*◌, ◌/◌, ◌^◌, min, Bool, true, false, not, ◌&&◌, Option, none, some, List, [], ◌∷◌,
  ◌++◌, ltb, leb, ◌==◌, if◌then◌else◌, is_none, Result, ok, err, sat_add32, length, keep, Text,
  codes, decimal,
}

pub record RelaunchBudget : Type 0 where
  pub window : ℕ
  pub max_in_window : ℕ
  pub launches : List ℕ

-- `RelaunchBudget::try_take`. `duration_since` stops at 0.
unfoldable pub try_take : RelaunchBudget → ℕ → RelaunchBudget × Bool
try_take b now =
    let recent = keep (λ t. ltb (now - t) b.window) b.launches in
    if leb b.max_in_window (length recent)
    then (record b { launches = recent }, false)
    else (record b { launches = recent ++ (now ∷ []) }, true)

abbrev pub max_launch_failures : ℕ
max_launch_failures = 6

abbrev pub retry_input_quiet : ℕ
retry_input_quiet = 120000

unfoldable pub retry_backoff : ℕ → ℕ
retry_backoff failures = 1000 * min (60 * 2 ^ min (failures - 1) 4) 300

-- The state of the automation, as far as the supervisor's rules read and write it.
pub record AutomationState : Type 0 where
  pub last_error : Option Text
  pub next_retry_at : Option ℕ
  pub launch_failures : ℕ
  pub launches_without_handshake : ℕ
  pub auto_relaunch_disabled : Bool
  pub wedge_strikes : ℕ
  pub wedge_declared : Bool
  pub wedge_detections : ℕ
  pub agent_ready : Bool

abbrev disabled_text : Text → Text
disabled_text reason =
    reason
    ++ codes
        " (automatic relaunch is disabled by AGENT_RDP_NO_AUTO_RELAUNCH; `automate restart` relaunches)"

abbrev gave_up_text : Text → ℕ → Text
gave_up_text reason n =
    reason
    ++ (codes " (gave up after "
        ++ (decimal n ++ codes " consecutive failed launches; `automate restart` tries again)"))

unfoldable pub record_launch_outcome :
    AutomationState → Result Text (Unit {0}) → ℕ → AutomationState
record_launch_outcome s (ok u) now = record s {
  last_error = none;
  next_retry_at = none;
  launch_failures = 0;
}
record_launch_outcome s (err reason) now =
    let n = sat_add32 s.launch_failures 1 in
    let counted = record s {
      launches_without_handshake = sat_add32 s.launches_without_handshake 1;
      launch_failures = n;
    } in
    if s.auto_relaunch_disabled
    then record counted { next_retry_at = none; last_error = some (disabled_text reason) }
    else if leb max_launch_failures n
    then record counted { next_retry_at = none; last_error = some (gave_up_text reason n) }
    else record counted { next_retry_at = some (now + retry_backoff n); last_error = some reason }

pub record RetrySnapshot : Type 0 where
  pub generation_matches : Bool
  pub session_alive : Bool
  pub enabled : Bool
  pub relaunch_in_flight : Bool
  pub handshake_done : Bool
  pub agent_starting : Bool
  pub next_retry_at : Option ℕ
  pub last_input_age : Option ℕ
  pub auto_relaunch_disabled : Bool
  pub launch_deferred : Bool
  pub wedge_declared : Bool

-- The reasons of `should_retry`, in the order of its guards.
pub data NoRetry : Type 0 where
  session_replaced relaunch_disabled deferred session_gone not_enabled : NoRetry
  in_progress agent_is_up not_scheduled not_due still_starting input_not_quiet : NoRetry

abbrev pub due : Option ℕ → ℕ → Bool
due none now = false
due (some at) now = leb at now

abbrev pub quiet : Option ℕ → Bool
quiet none = true
quiet (some age) = leb retry_input_quiet age

unfoldable pub should_retry : RetrySnapshot → ℕ → Result NoRetry (Unit {0})
should_retry s now =
    if not s.generation_matches
    then err session_replaced
    else if s.auto_relaunch_disabled
    then err relaunch_disabled
    else if s.launch_deferred
    then err deferred
    else if not s.session_alive
    then err session_gone
    else if not s.enabled
    then err not_enabled
    else if s.relaunch_in_flight
    then err in_progress
    else if s.handshake_done && not s.wedge_declared
    then err agent_is_up
    else if is_none s.next_retry_at
    then err not_scheduled
    else if not (due s.next_retry_at now)
    then err not_due
    else if s.agent_starting
    then err still_starting
    else if not (quiet s.last_input_age)
    then err input_not_quiet
    else ok tt

abbrev pub wedge_probe_after : ℕ
wedge_probe_after = 60000

abbrev pub wedge_grace : ℕ
wedge_grace = 120000

abbrev pub wedge_strikes_limit : ℕ
wedge_strikes_limit = 3

pub record WedgeSnapshot : Type 0 where
  pub channel_ready : Bool
  pub pending : ℕ
  pub silent_for : ℕ
  pub busy_until : Option ℕ
  pub strikes : ℕ
  pub transport_healthy : Bool

abbrev past_grace : Option ℕ → ℕ → Bool
past_grace none now = true
past_grace (some until) now = leb (until + wedge_grace) now

unfoldable pub should_probe_wedge : WedgeSnapshot → ℕ → Bool
should_probe_wedge s now =
    s.channel_ready
    && s.transport_healthy
    && s.pending == 0
    && leb wedge_probe_after s.silent_for
    && past_grace s.busy_until now

unfoldable pub is_wedged : WedgeSnapshot → ℕ → Bool
unfolding should_probe_wedge
is_wedged s now = should_probe_wedge s now && leb wedge_strikes_limit s.strikes

-- What one tick of the supervisor sees: the snapshot, but for the strikes; the times before and
-- after the probe; its answer; and what is pending afterwards.
pub record Tick : Type 0 where
  pub seen : WedgeSnapshot
  pub now : ℕ
  pub answered : Bool
  pub pending_after : ℕ
  pub later : ℕ

abbrev wedged_text : ℕ → Text
wedged_text silent =
    codes "the agent holds its DVC channel but has not answered "
    ++ (decimal wedge_strikes_limit
        ++ (codes " status probes and has said nothing for "
            ++ (decimal silent ++ codes "s - it is wedged, not busy")))

abbrev or_now : Option ℕ → ℕ → Option ℕ
or_now none now = some now
or_now (some at) now = some at

unfoldable pub declare_wedged : AutomationState → (silent now : ℕ) → AutomationState
declare_wedged s silent now = if s.wedge_declared then s else record s {
  wedge_declared = true;
  wedge_detections = sat_add32 s.wedge_detections 1;
  agent_ready = false;
  last_error = some (wedged_text (silent / 1000));
  next_retry_at = or_now s.next_retry_at now;
}

abbrev cleared : AutomationState → AutomationState
cleared s = record s { wedge_strikes = 0; wedge_declared = false }

-- `check_for_wedge`, once the automation has a channel to ask on.
unfoldable pub check_for_wedge : AutomationState → Tick → AutomationState
unfolding should_probe_wedge is_wedged declare_wedged
check_for_wedge s t =
    let before = record t.seen { strikes = s.wedge_strikes } in
    let struck = sat_add32 s.wedge_strikes 1 in
    if ltb t.seen.silent_for wedge_probe_after
    then cleared s
    else if not (should_probe_wedge before t.now)
    then s
    else if t.answered
    then (if s.wedge_declared
        then record (cleared s) { agent_ready = true }
        else record s { wedge_strikes = 0 })
    else if ltb 0 t.pending_after
    then s
    else if is_wedged (record before { strikes = struck }) t.later
    then declare_wedged (record s { wedge_strikes = struck }) t.seen.silent_for t.later
    else record s { wedge_strikes = struck }
