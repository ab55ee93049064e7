-- ===== src/Screen/Tests.antt =====
-- A region that reaches over the screen's edge.
use agent_rdp.Base.{◌+◌, ◌≤◌, ◌<◌, ◌≡◌, ◌&&◌, some, arith, ltb}
use agent_rdp.Screen.{Region, clamp_to}
use agent_rdp.Screen.Clamp.{covers, covers_opt, clamp_to-covers}

abbrev wide : Region
wide = record { x = 1900; y = 1000; width = 4294967295; height = 200 }

clamp_to-covers_example :
    (covers_opt (clamp_to wide 1920 1080) 1910 1050
      ≡ (covers wide 1910 1050 && ltb 1910 1920 && ltb 1050 1080))
    × ((c : Region)
        → clamp_to wide 1920 1080 ≡ some c
        → (0 < c.width) × (0 < c.height) × (c.x + c.width ≤ 1920) × (c.y + c.height ≤ 1080))
clamp_to-covers_example = clamp_to-covers wide 1920 1080 1910 1050 (omega arith) (omega arith)
