-- ===== src/Screen.antt =====
-- crates/agent-rdp-protocol/src/request.rs (`Region`): a part of the desktop.
pub mod Clamp
mod Tests
use agent_rdp.Base.{ℕ, ◌-◌, min, ◌||◌, Option, none, some, leb, if◌then◌else◌, sat_add32}

pub record Region : Type 0 where
  pub x : ℕ
  pub y : ℕ
  pub width : ℕ
  pub height : ℕ

unfoldable pub clamp_to : Region → (width height : ℕ) → Option Region
clamp_to r width height =
    let x = min r.x width in
    let y = min r.y height in
    let right = min (sat_add32 r.x r.width) width in
    let bottom = min (sat_add32 r.y r.height) height in
    if leb right x || leb bottom y
    then none
    else some (record { x = x; y = y; width = right - x; height = bottom - y })
