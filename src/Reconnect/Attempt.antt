-- ===== src/Reconnect/Attempt.antt =====
-- reconnect.rs: when an attempt may be made, and how long it waits.
use agent_rdp.Base.{ℕ, zero, suc, ◌*◌, ◌≤◌, min, ◌≡◌, refl, ◌↔◌, true, false, arith, ok}
use agent_rdp.Reconnect.{ReconnectSnapshot, should_attempt, backoff}

-- What an attempt needs.
pub record IsDue (s : ReconnectSnapshot) : Type 0 where
  pub enabled : s.enabled ≡ true
  pub have_request : s.have_request ≡ true
  pub going : s.stopped ≡ false
  pub alone : s.in_flight ≡ false
  pub same_session : s.current_generation ≡ s.dropped_generation
  pub untouched : s.serial_now ≡ s.serial_at_arm

-- An attempt is allowed exactly when reconnecting is enabled, a request is kept, the loop has not
-- given up, no attempt is running, the session that dropped is the latest, and the user has not
-- acted since.
pub should_attempt-IsDue : (s : ReconnectSnapshot) → (should_attempt s ≡ ok tt) ↔ IsDue s
unfolding should_attempt
should_attempt-IsDue s = ((λ h. ground arith), λ d. ground arith)

-- Five, doubled n times.
unfoldable pub doubled : ℕ → ℕ
doubled zero = 5
doubled (suc n) = 2 * doubled n

doubled-ge : (n : ℕ) → 80 ≤ doubled (suc (suc (suc (suc n))))
unfolding doubled
doubled-ge zero = omega arith
doubled-ge (suc n) = omega (arith, doubled-ge n)

-- The wait before an attempt is five seconds at the first, doubles at each next one, and stays at
-- a minute from the fifth on.
pub backoff-doubled : (n : ℕ) → backoff (suc n) ≡ 1000 * min (doubled n) 60
unfolding backoff doubled
backoff-doubled zero = refl
backoff-doubled (suc zero) = refl
backoff-doubled (suc (suc zero)) = refl
backoff-doubled (suc (suc (suc zero))) = refl
backoff-doubled (suc (suc (suc (suc n)))) = ground (arith, doubled-ge n)
