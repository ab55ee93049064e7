-- ===== src/Supervisor/Wedge.antt =====
-- bootstrap.rs: what the verdict on a wedged agent rests on.
use agent_rdp.Base.{
  ℕ, suc, ◌≤◌, min, ◌+◌, none, some, ◌≡◌, inl, inr, Bool, true, false, not, ◌&&◌, ◌||◌, List, [],
  ◌∷◌, arith, ltb, ◌==◌, if◌then◌else◌, Bool-cases, u32_max,
}
use agent_rdp.Supervisor.{
  AutomationState, Tick, check_for_wedge, should_probe_wedge, is_wedged, declare_wedged,
  wedge_probe_after, wedge_grace, wedge_strikes_limit,
}

-- The supervisor's ticks, latest first.
unfoldable pub ticks : AutomationState → List Tick → AutomationState
ticks s [] = s
ticks s (t ∷ before) = check_for_wedge (ticks s before) t

-- The agent has the channel and is quiet, the link is good, no request is under way, and a time that
-- it was granted is over.
unfoldable pub is_quiet : Tick → Bool
is_quiet t =
    t.seen.transport_healthy
    && t.seen.channel_ready
    && t.seen.pending == 0
    && not (ltb t.seen.silent_for wedge_probe_after)
    && elim t.seen.busy_until [ none ↦ true | some until ↦ not (ltb t.now (until + wedge_grace)) ]

-- The agent was quiet, was asked, and said nothing, nor was anything under way afterwards.
unfoldable pub is_missed : Tick → Bool
unfolding is_quiet
is_missed t = is_quiet t && not t.answered && t.pending_after == 0

-- A tick that shows the agent alive: it has spoken lately, or it answers the probe.
unfoldable pub is_alive : Tick → Bool
unfolding is_quiet
is_alive t = ltb t.seen.silent_for wedge_probe_after || (is_quiet t && t.answered)

-- The probes missed since the agent last showed itself alive.
unfoldable pub missed : List Tick → ℕ
missed [] = 0
missed (t ∷ before) =
    if is_alive t then 0 else if is_missed t then suc (missed before) else missed before

strikes-missed :
    (s : AutomationState) (ts : List Tick)
    → s.wedge_strikes ≡ 0
    → (ticks s ts).wedge_strikes ≡ min (missed ts) u32_max
unfolding ticks missed check_for_wedge is_missed is_alive is_quiet should_probe_wedge is_wedged
    declare_wedged
strikes-missed s [] z = omega (arith, z)
strikes-missed s (t ∷ ts) z = ground (arith, strikes-missed s ts z)

-- From a clean start, an agent is under the verdict only if it has missed three probes or more since
-- it last showed itself alive, each while it had the channel and was quiet for long enough, on a
-- good link, with no request under way before or after, and past any time it was granted.
pub wedge_needs_evidence :
    (s : AutomationState) (ts : List Tick)
    → s.wedge_strikes ≡ 0
    → s.wedge_declared ≡ false
    → (ticks s ts).wedge_declared ≡ true
    → wedge_strikes_limit ≤ missed ts
unfolding ticks missed check_for_wedge is_missed is_alive is_quiet should_probe_wedge is_wedged
    declare_wedged
wedge_needs_evidence s [] z n h = cc
wedge_needs_evidence s (t ∷ ts) z n h = elim (Bool-cases (ticks s ts).wedge_declared) [
  | inl d ↦ ground (arith, strikes-missed s ts z, wedge_needs_evidence s ts z n d)
  | inr d ↦ ground (arith, strikes-missed s ts z)
]
