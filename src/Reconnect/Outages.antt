-- ===== src/Reconnect/Outages.antt =====
-- reconnect.rs: a session that keeps dropping soon after it was re-established.
use agent_rdp.Base.{
  ℕ, suc, ◌+◌, ◌-◌, ◌≤◌, ◌<◌, min, ◌≡◌, none, some, List, [], ◌∷◌, arith, ltb, if◌then◌else◌,
  is_some, length,
}
use agent_rdp.Reconnect.{AutoReconnect, note_outage, note_success, stop, healthy_session}

-- An outage, and the time at which the session is back when the outage may be worked on.
pub record Cycle : Type 0 where
  pub began : ℕ
  pub back : ℕ

-- The outages one after another, up to the first that is given up on: how many were worked on.
unfoldable pub outages : AutoReconnect → List Cycle → ℕ × AutoReconnect
outages a [] = (0, a)
outages a (c ∷ cs) =
    let (noted, go) = note_outage a c.began in
    let (n, last) = outages (note_success noted c.back) cs in
    if go then (suc n, last) else (0, noted)

-- Each session is lost within `healthy_session` of being re-established.
abbrev pub IsFlapping : ℕ → List Cycle → Type 0
IsFlapping since [] = Unit
IsFlapping since (c ∷ cs) =
    (since ≤ c.began) × (c.began < since + healthy_session) × IsFlapping c.back cs

-- While every session is lost soon after it came back, the reconnects stop: with k short sessions
-- behind it, the loop works on at most 4 - k more outages, and gives up, with a reason, at the next.
pub flapping_gives_up :
    (a : AutoReconnect) (since : ℕ) (cs : List Cycle)
    → a.last_success ≡ some since
    → a.stopped_reason ≡ none
    → IsFlapping since cs
    → let (n, last) = outages a cs in
      (n ≡ min (length cs) (4 - a.short_sessions))
      × (is_some last.stopped_reason ≡ ltb (4 - a.short_sessions) (length cs))
unfolding outages note_outage note_success stop
flapping_gives_up a since [] h s f = (omega arith, ground arith)
flapping_gives_up a since (c ∷ cs) h s f =
    ground (arith, flapping_gives_up (note_success (note_outage a c.began).0 c.back) c.back cs)
