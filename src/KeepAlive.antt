-- ===== src/KeepAlive.antt =====
-- crates/agent-rdp-daemon/src/rdp_session.rs: `KeepAliveWatch`, which counts the keep-alives that
-- the server leaves unanswered.
pub mod Verdict
mod Tests
use agent_rdp.Base.{ℕ, Bool, true, false, ◌&&◌, leb, if◌then◌else◌, sat_add32}

abbrev pub keep_alive_missed_limit : ℕ
keep_alive_missed_limit = 3

pub record KeepAliveWatch : Type 0 where
  pub unanswered : ℕ
  pub armed : Bool
  pub send_failures : ℕ

abbrev pub default_watch : KeepAliveWatch
default_watch = record { unanswered = 0; armed = false; send_failures = 0 }

unfoldable pub record_send : KeepAliveWatch → (answered prompt : Bool) → KeepAliveWatch × Bool
record_send w answered prompt =
    let n = if answered then 0 else sat_add32 w.unanswered 1 in
    let armed = if prompt then true else w.armed in
    (
      record { unanswered = n; armed = armed; send_failures = 0 },
      armed && leb keep_alive_missed_limit n,
    )

unfoldable pub record_send_failure : KeepAliveWatch → KeepAliveWatch × Bool
record_send_failure w =
    let n = sat_add32 w.send_failures 1 in
    (record w { send_failures = n }, leb keep_alive_missed_limit n)
