-- ===== src/Reconnect/Loop/GivenUp.antt =====
-- daemon.rs: a loop that has given up.
use agent_rdp.Base.{ℕ, ◌≡◌, ◌⊎◌, true, none, List, [], ◌∷◌, is_some, err, All, Text}
use agent_rdp.Protocol.Errors.{ErrorCode}
use agent_rdp.Reconnect.Loop.Users.{world_of}
use agent_rdp.Reconnect.Loop.{World, Act, connects, acts, Turn, reconnect_loop}

-- Nothing but a connect of the user's that succeeds.
abbrev pub IsNoSuccess : Act → Type 0
IsNoSuccess (connects r reply) = (e : ErrorCode × Text) × (reply ≡ err e)
IsNoSuccess _ = Unit

abbrev GaveUp : World → Type 0
GaveUp w = is_some w.auto.stopped_reason ≡ true

-- Nothing is journaled, and no session is stored.
abbrev pub IsQuiet : World → World → Type 0
IsQuiet w v = (v.journal ≡ w.journal) × ((v.session ≡ w.session) ⊎ (v.session ≡ none))

-- No connect of the user's succeeds before the turn.
abbrev pub IsHandsOff : Turn → Type 0
IsHandsOff t = All IsNoSuccess t.before

-- It has given up, and nothing was journaled or stored.
abbrev IsOver : World → World → Type 0
IsOver w v = GaveUp v × IsQuiet w v

-- A transport drop: what the user does before it, and the loop that it starts.
pub record Outage : Type 0 where
  pub happened : List Act
  pub noticed : ℕ
  pub dropped : ℕ
  pub armed : ℕ
  pub turns_of : List Turn

unfoldable pub after_outages : World → List Outage → World
after_outages w [] = w
after_outages w (o ∷ os) =
    after_outages
      (world_of (reconnect_loop (acts w o.happened) o.noticed o.dropped o.armed o.turns_of)) os

-- No connect of the user's succeeds before it or between the turns.
abbrev pub IsUnhelped : Outage → Type 0
IsUnhelped o = All IsNoSuccess o.happened × All IsHandsOff o.turns_of
