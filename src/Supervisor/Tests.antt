-- ===== src/Supervisor/Tests.antt =====
-- Runs of the supervisor's rules.
use agent_rdp.Base.{
  ℕ, ◌+◌, ◌≤◌, ◌≡◌, refl, true, false, none, some, List, [], ◌∷◌, arith, ltb, length, keep,
}
use agent_rdp.Supervisor.{
  try_take, AutomationState, RetrySnapshot, Tick, check_for_wedge, should_probe_wedge, is_wedged,
  declare_wedged, wedge_strikes_limit,
}
use agent_rdp.Supervisor.Relaunch.{requested, within, budget_is_kept}
use agent_rdp.Supervisor.Wedge.{ticks, missed, wedge_needs_evidence}

abbrev asked : List ℕ
asked = 5000 ∷ 3000 ∷ 1000 ∷ []

budget_is_kept_example :
    let (b, granted) = requested 600000 2 asked in
    let recent = length (keep (within 600000 9000) granted) in
    ((try_take b 9000).1 ≡ ltb recent 2) × (recent ≤ 2)
budget_is_kept_example =
    budget_is_kept 600000 2 asked 9000 (omega arith, (omega arith, (omega arith, tt)))

abbrev waiting : RetrySnapshot
waiting = record {
  generation_matches = true;
  session_alive = true;
  enabled = true;
  relaunch_in_flight = false;
  handshake_done = true;
  agent_starting = false;
  next_retry_at = some 60000;
  last_input_age = some 130000;
  auto_relaunch_disabled = false;
  launch_deferred = false;
  wedge_declared = true;
}

abbrev fresh : AutomationState
fresh = record {
  last_error = none;
  next_retry_at = none;
  launch_failures = 0;
  launches_without_handshake = 0;
  auto_relaunch_disabled = false;
  wedge_strikes = 0;
  wedge_declared = false;
  wedge_detections = 0;
  agent_ready = true;
}

abbrev mute : ℕ → Tick
mute at = record {
  seen = record {
    channel_ready = true;
    pending = 0;
    silent_for = at;
    busy_until = none;
    strikes = 0;
    transport_healthy = true;
  };
  now = at;
  answered = false;
  pending_after = 0;
  later = at + 5000;
}

abbrev quiet_night : List Tick
quiet_night = mute 150000 ∷ mute 120000 ∷ mute 90000 ∷ []

declared : (ticks fresh quiet_night).wedge_declared ≡ true
unfolding ticks check_for_wedge should_probe_wedge is_wedged declare_wedged
declared = refl

wedge_needs_evidence_example : wedge_strikes_limit ≤ missed quiet_night
wedge_needs_evidence_example = wedge_needs_evidence fresh quiet_night refl refl declared
