-- ===== src/Screen/Clamp.antt =====
-- request.rs: a clamped region is the part of the region that is on the screen.
use agent_rdp.Base.{
  ℕ, ◌+◌, ◌≤◌, ◌<◌, ◌≡◌, Bool, false, ◌&&◌, Option, none, some, arith, ltb, leb, u32_max,
}
use agent_rdp.Screen.{Region, clamp_to}

unfoldable pub covers : Region → (px py : ℕ) → Bool
covers r px py = leb r.x px && ltb px (r.x + r.width) && leb r.y py && ltb py (r.y + r.height)

abbrev pub covers_opt : Option Region → (px py : ℕ) → Bool
covers_opt none px py = false
covers_opt (some r) px py = covers r px py

-- On a screen whose sides are 32-bit numbers, the clamped region has exactly the pixels of the
-- region that are on the screen, and it is refused exactly when there is none of these.
pub clamp_to-covers :
    (r : Region) (width height px py : ℕ)
    → width ≤ u32_max
    → height ≤ u32_max
    → (covers_opt (clamp_to r width height) px py
        ≡ (covers r px py && ltb px width && ltb py height))
      × ((c : Region)
          → clamp_to r width height ≡ some c
          → (0 < c.width) × (0 < c.height) × (c.x + c.width ≤ width) × (c.y + c.height ≤ height))
unfolding clamp_to covers
clamp_to-covers r width height px py hw hh = (ground arith, λ c h. ground arith)
