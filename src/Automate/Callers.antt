-- ===== src/Automate/Callers.antt =====
-- crates/agent-rdp/src/cli/commands/automate.rs: how long the command line waits for an automate
-- request, against what the daemon takes.
use agent_rdp.Protocol.Automate.{AutomateRequest, status, query_result}
use agent_rdp.Automate.{
  default_dvc_timeout, indeterminate_resolution_worst, dvc_deadline, skips_recovery_ladder, Client,
  handle_ready,
}
use agent_rdp.Automate.Times.{IsTimely, ladder_takes, ladder_fits_in}
use agent_rdp.Base.{
  ℕ, ◌+◌, ◌%◌, ◌^◌, ◌≤◌, ◌<◌, max, ◌≡◌, true, false, arith, if◌then◌else◌, refl, sat_add64, Bool,
}

abbrev daemon_slack_ms : ℕ
daemon_slack_ms = 30000

-- A deadline's milliseconds are cut to 64 bits.
unfoldable pub automate_timeout_ms : AutomateRequest → (base_timeout_ms : ℕ) → ℕ
unfolding skips_recovery_ladder indeterminate_resolution_worst dvc_deadline
automate_timeout_ms r base =
    if skips_recovery_ladder r
    then base
    else sat_add64 (sat_add64 (max base (dvc_deadline r % 2 ^ 64)) indeterminate_resolution_worst)
        daemon_slack_ms

short_deadline :
    (r : AutomateRequest) → skips_recovery_ladder r ≡ true → dvc_deadline r ≤ default_dvc_timeout
unfolding dvc_deadline skips_recovery_ladder
short_deadline status h = omega arith
short_deadline (query_result id) h = omega arith
short_deadline r h = ground (arith, h)

ladder_covered :
    (d base : ℕ)
    → base + d + 66000 < 2 ^ 64
    → d + indeterminate_resolution_worst
      < sat_add64 (sat_add64 (max base (d % 2 ^ 64)) indeterminate_resolution_worst) daemon_slack_ms
unfolding indeterminate_resolution_worst
ladder_covered d base h = let low : d % 2 ^ 64 ≡ d = omega (arith, h) in omega (arith, h, low)

either_covered :
    (b : Bool) (d base ladder long : ℕ)
    → (b ≡ true → d < base)
    → d + ladder < long
    → d + (if b then 0 else ladder) < (if b then base else long)
either_covered true d base ladder long h k = let short = h refl in omega (arith, short)
either_covered false d base ladder long h k = k

waits_longer :
    (r : AutomateRequest) (base : ℕ)
    → default_dvc_timeout < base
    → base + dvc_deadline r + 66000 < 2 ^ 64
    → dvc_deadline r + ladder_takes r < automate_timeout_ms r base
unfolding automate_timeout_ms ladder_takes
waits_longer r base h k =
    either_covered (skips_recovery_ladder r) (dvc_deadline r) base indeterminate_resolution_worst
      (sat_add64 (sat_add64 (max base (dvc_deadline r % 2 ^ 64)) indeterminate_resolution_worst)
        daemon_slack_ms)
      (λ e. let short = short_deadline r e in omega (arith, h, short))
      (ladder_covered (dvc_deadline r) base k)

-- The daemon gives up first: with a client whose calls end by their deadlines and the channel's
-- default deadline, a base timeout above that default, and deadlines that 64 bits hold, a request
-- to a ready agent is answered before the command line's own timeout.
pub daemon_gives_up_first :
    {S : Type 0} (l : Client S) (timely : IsTimely l) (r : AutomateRequest) (s : S) (base : ℕ)
    → l.default_timeout s ≡ default_dvc_timeout
    → default_dvc_timeout < base
    → base + dvc_deadline r + 66000 < 2 ^ 64
    → l.now (handle_ready l r s).0 < l.now s + automate_timeout_ms r base
daemon_gives_up_first l timely r s base e h k =
    let within = ladder_fits_in l timely r s e in
    let longer = waits_longer r base h k in omega (arith, within, longer)
