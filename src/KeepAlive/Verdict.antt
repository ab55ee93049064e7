-- ===== src/KeepAlive/Verdict.antt =====
-- rdp_session.rs: when the watch declares the transport dead.
use agent_rdp.Base.{
  ℕ, suc, min, ◌≡◌, refl, Bool, false, ◌&&◌, ◌||◌, List, [], ◌∷◌, arith, leb, if◌then◌else◌,
  u32_max,
}
use agent_rdp.KeepAlive.{
  KeepAliveWatch, default_watch, record_send, record_send_failure, keep_alive_missed_limit,
}

-- A keep-alive that was written, with what had come back of the one before, or that was not.
pub data Beat : Type 0 where
  sent : (answered prompt : Bool) → Beat
  unwritten : Beat

unfoldable pub beat : KeepAliveWatch → Beat → KeepAliveWatch × Bool
beat w (sent a p) = record_send w a p
beat w unwritten = record_send_failure w

-- The watch after a history, latest beat first.
unfoldable pub watch : List Beat → KeepAliveWatch
watch [] = default_watch
watch (b ∷ history) = (beat (watch history) b).0

-- The latest written beats that found no answer; the latest ones that were not written; and
-- whether an answer was ever prompt.
unfoldable pub silence : List Beat → ℕ
silence [] = 0
silence (sent a p ∷ history) = if a then 0 else suc (silence history)
silence (unwritten ∷ history) = silence history

unfoldable pub writes_lost : List Beat → ℕ
writes_lost [] = 0
writes_lost (sent a p ∷ history) = 0
writes_lost (unwritten ∷ history) = suc (writes_lost history)

unfoldable pub ever_prompt : List Beat → Bool
ever_prompt [] = false
ever_prompt (sent a p ∷ history) = p || ever_prompt history
ever_prompt (unwritten ∷ history) = ever_prompt history

watch_lem :
    (history : List Beat)
    → let w = watch history in
      (w.unanswered ≡ min (silence history) u32_max)
      × (w.send_failures ≡ min (writes_lost history) u32_max)
      × (w.armed ≡ ever_prompt history)
unfolding watch beat record_send record_send_failure silence writes_lost ever_prompt
watch_lem [] = (omega arith, omega arith, refl)
watch_lem (sent a p ∷ history) = ground (arith, watch_lem history)
watch_lem (unwritten ∷ history) = ground (arith, watch_lem history)

-- A written keep-alive ends the session exactly if it is the third or a later one in a row that
-- found no answer to the one before, and the server has answered one promptly at some time; one
-- that cannot be written ends it exactly if it is the third or a later such one in a row. A write
-- that fails does not break a row of unanswered ones.
pub verdict_lem :
    (history : List Beat) (b : Beat)
    → let now = b ∷ history in
      (beat (watch history) b).1 ≡ elim b as (λ _. Bool) [
        | sent a p ↦ ever_prompt now && leb keep_alive_missed_limit (silence now)
        | unwritten ↦ leb keep_alive_missed_limit (writes_lost now)
      ]
unfolding beat record_send record_send_failure silence writes_lost ever_prompt
verdict_lem history (sent a p) = ground (arith, watch_lem history)
verdict_lem history unwritten = ground (arith, watch_lem history)
