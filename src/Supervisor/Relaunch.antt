-- ===== src/Supervisor/Relaunch.antt =====
-- bootstrap.rs: how often and when an agent is launched again.
use agent_rdp.Base.{
  ℕ, suc, ◌+◌, ◌-◌, ◌≤◌, ◌<◌, ◌≡◌, refl, ◌↔◌, Bool, true, false, not, ◌&&◌, none, some, List, [],
  ◌∷◌, ◌++◌, arith, ltb, if◌then◌else◌, ok, err, u32_max, length, length-append, keep,
  length-keep-le, Text,
}
use agent_rdp.Supervisor.{
  RelaunchBudget, try_take, retry_backoff, AutomationState, record_launch_outcome, RetrySnapshot,
  should_retry, quiet, due, max_launch_failures,
}

module _ {A : Type 0} where
  keep-append : (p : A → Bool) (xs ys : List A) → keep p (xs ++ ys) ≡ keep p xs ++ keep p ys
  keep-append p [] ys = refl
  keep-append p (x ∷ xs) ys = ground (arith, keep-append p xs ys)

  -- A stricter test sees nothing of what a laxer one took away.
  keep-keep :
      (p q : A → Bool) (xs : List A)
      → ((x : A) → p x ≡ true → q x ≡ true)
      → keep p (keep q xs) ≡ keep p xs
  keep-keep p q [] h = refl
  keep-keep p q (x ∷ xs) h = ground (arith, h x, keep-keep p q xs h)

-- The times after each other, latest first.
abbrev pub IsDescending : ℕ → List ℕ → Type 0
IsDescending now [] = Unit
IsDescending now (t ∷ times) = (t ≤ now) × IsDescending t times

IsDescending-later :
    (times : List ℕ) (t now : ℕ) → t ≤ now → IsDescending t times → IsDescending now times
IsDescending-later [] t now h d = tt
IsDescending-later (u ∷ times) t now h d = (omega (arith, h, d.0), d.1)

-- The budget, and the launches that it granted, after requests at these times, latest first.
unfoldable pub requested : (window max_in_window : ℕ) → List ℕ → RelaunchBudget × List ℕ
requested window m [] = (record { window = window; max_in_window = m; launches = [] }, [])
requested window m (t ∷ times) =
    let (b, granted) = requested window m times in
    let (c, go) = try_take b t in (c, if go then granted ++ (t ∷ []) else granted)

abbrev pub within : ℕ → ℕ → ℕ → Bool
within window now t = ltb (now - t) window

module _ (window m : ℕ) where
  requested-kept :
      (times : List ℕ) (now : ℕ)
      → IsDescending now times
      → let (b, granted) = requested window m times in
        (keep (within window now) b.launches ≡ keep (within window now) granted)
        × (b.window ≡ window)
        × (b.max_in_window ≡ m)
  unfolding requested try_take
  requested-kept [] now d = (refl, refl, refl)
  requested-kept (t ∷ times) now d =
      let (b, granted) = requested window m times in
      let (same, w, n) = requested-kept times now (IsDescending-later times t now d.0 d.1) in
      let old = keep-keep (within window now) (within window t) b.launches (λ x h. ground arith) in
      ground (
        arith,
        same,
        old,
        w,
        n,
        keep-append (within window now) (keep (within window t) b.launches) (t ∷ []),
        keep-append (within window now) granted (t ∷ []),
      )

  requested-max : (times : List ℕ) → (requested window m times).0.max_in_window ≡ m
  unfolding requested try_take
  requested-max [] = refl
  requested-max (t ∷ times) = ground (arith, requested-max times)

  requested-few : (times : List ℕ) → length (requested window m times).0.launches ≤ m
  unfolding requested try_take
  requested-few [] = omega arith
  requested-few (t ∷ times) =
      let b = (requested window m times).0 in
      let recent = keep (λ x. ltb (t - x) b.window) b.launches in
      ground (
        arith,
        requested-few times,
        length-keep-le (λ x. ltb (t - x) b.window) b.launches,
        length-append recent (t ∷ []),
        requested-max times,
      )

  -- Whatever the requests before it, a relaunch is granted exactly if fewer than the maximum were
  -- granted within the window before it, and there were never more than the maximum. The clock
  -- does not go back.
  pub budget_is_kept :
      (times : List ℕ) (now : ℕ)
      → IsDescending now times
      → let (b, granted) = requested window m times in
        let recent = length (keep (within window now) granted) in
        ((try_take b now).1 ≡ ltb recent m) × (recent ≤ m)
  unfolding try_take
  budget_is_kept times now d =
      let (b, granted) = requested window m times in
      ground (
        arith,
        requested-kept times now d,
        requested-few times,
        length-keep-le (within window now) b.launches,
      )

-- What an automatic launch needs.
pub record IsDueToLaunch (s : RetrySnapshot) (now : ℕ) : Type 0 where
  pub same_session : s.generation_matches ≡ true
  pub allowed : s.auto_relaunch_disabled ≡ false
  pub not_deferred : s.launch_deferred ≡ false
  pub alive : s.session_alive ≡ true
  pub automated : s.enabled ≡ true
  pub alone : s.relaunch_in_flight ≡ false
  pub no_agent : (s.handshake_done && not s.wedge_declared) ≡ false
  pub is_due : due s.next_retry_at now ≡ true
  pub none_starting : s.agent_starting ≡ false
  pub nobody_types : quiet s.last_input_age ≡ true

-- The supervisor types a launch into the session exactly if the session is the one it keeps and
-- is alive and automated, launches are neither disabled nor deferred nor running, no working
-- agent is up or starting, a retry is due, and nobody has used the session for two minutes.
pub should_retry-IsDueToLaunch :
    (s : RetrySnapshot) (now : ℕ) → (should_retry s now ≡ ok tt) ↔ IsDueToLaunch s now
unfolding should_retry
should_retry-IsDueToLaunch s now = (λ h. ground arith, λ d. ground arith)

-- Failed launches one after another, with their reasons and times, latest first.
unfoldable pub failed : AutomationState → List (Text × ℕ) → AutomationState
failed s [] = s
failed s (f ∷ fs) = record_launch_outcome (failed s fs) (err f.0) f.1

failed-counts :
    (s : AutomationState) (fs : List (Text × ℕ))
    → s.launch_failures ≡ 0
    → s.auto_relaunch_disabled ≡ false
    → length fs ≤ u32_max
    → ((failed s fs).launch_failures ≡ length fs) × ((failed s fs).auto_relaunch_disabled ≡ false)
unfolding failed record_launch_outcome
failed-counts s [] z a few = (z, a)
failed-counts s (f ∷ fs) z a few = ground (arith, failed-counts s fs z a)

-- After a success, the n-th failure in a row is retried after a minute doubled n - 1 times, five
-- minutes at most, and the sixth is the last: nothing is scheduled after it.
pub failed_launches_back_off :
    (s : AutomationState) (reason : Text) (now since : ℕ) (fs : List (Text × ℕ))
    → s.auto_relaunch_disabled ≡ false
    → length fs < u32_max
    → let n = suc (length fs) in
      let t = failed (record_launch_outcome s (ok tt) since) ((reason, now) ∷ fs) in
      (t.launch_failures ≡ n)
      × (t.next_retry_at
          ≡ (if ltb n max_launch_failures then some (now + retry_backoff n) else none))
unfolding failed record_launch_outcome
failed_launches_back_off s reason now since fs a few =
    let fresh = record_launch_outcome s (ok tt) since in
    ground (arith, failed-counts fresh fs refl a (omega (arith, few)))
