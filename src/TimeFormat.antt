-- ===== src/TimeFormat.antt =====
-- crates/agent-rdp-daemon/src/timefmt.rs: the UTC calendar. An instant is its seconds after the
-- epoch; one before the epoch counts as the epoch.
use agent_rdp.Base.{
  ℕ, zero, suc, ◌+◌, ◌-◌, ◌*◌, ◌/◌, ◌%◌, ◌≡◌, refl, [], ◌∷◌, ◌++◌, ltb, leb, if◌then◌else◌, length,
  Text, codes, decimal,
}

-- The days from the epoch are not negative, so no difference below stops at 0.
unfoldable civil_from_days : ℕ → ℕ × ℕ × ℕ
civil_from_days days =
    let z = days + 719468 in
    let era = z / 146097 in
    let doe = z - era * 146097 in
    let yoe = (doe - doe / 1460 + doe / 36524 - doe / 146096) / 365 in
    let y = yoe + era * 400 in
    let doy = doe - (365 * yoe + yoe / 4 - yoe / 100) in
    let mp = (5 * doy + 2) / 153 in
    let d = doy - (153 * mp + 2) / 5 + 1 in
    let m = if ltb mp 10 then mp + 3 else mp - 9 in (if leb m 2 then y + 1 else y, m, d)

unfoldable parts : ℕ → (ℕ × ℕ × ℕ) × ℕ × ℕ × ℕ
unfolding civil_from_days
parts secs =
    let sod = secs % 86400 in
    (civil_from_days (secs / 86400), sod / 3600, sod % 3600 / 60, sod % 60)

zeros : ℕ → Text
zeros zero = []
zeros (suc n) = b'0' ∷ zeros n

-- `{:0w}`.
unfoldable padded : ℕ → ℕ → Text
unfolding zeros
padded w n = let digits = decimal n in zeros (w - length digits) ++ digits

-- `YYYYMMDD-HHMMSS`.
unfoldable utc_compact : ℕ → Text
unfolding parts padded
utc_compact t =
    let p = parts t in
    padded 4 p.0.0
    ++ padded 2 p.0.1
    ++ padded 2 p.0.2
    ++ codes "-"
    ++ padded 2 p.1
    ++ padded 2 p.2
    ++ padded 2 p.3

-- `YYYY-MM-DDTHH:MM:SSZ`.
unfoldable pub utc_rfc3339 : ℕ → Text
unfolding parts padded
utc_rfc3339 t =
    let p = parts t in
    padded 4 p.0.0
    ++ codes "-"
    ++ padded 2 p.0.1
    ++ codes "-"
    ++ padded 2 p.0.2
    ++ codes "T"
    ++ padded 2 p.1
    ++ codes ":"
    ++ padded 2 p.2
    ++ codes ":"
    ++ padded 2 p.3
    ++ codes "Z"

leap_day : utc_rfc3339 1709251199 ≡ codes "2024-02-29T23:59:59Z"
unfolding utc_rfc3339 decimal
leap_day = refl
