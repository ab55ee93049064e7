-- ===== src/Reconnect/Loop/Users.antt =====
-- daemon.rs: the user's requests against the reconnect loop.
use agent_rdp.Base.{
  Result-cases, ℕ, ◌+◌, ◌%◌, ◌<◌, ◌≡◌, refl, ◌∙◌, ◌≢◌, ◌⊎◌, inl, inr, false, Option, none, some,
  List, [], ◌∷◌, arith, ok, err,
}
use agent_rdp.Protocol.Connect.{ConnectRequest, validate_connect_request}
use agent_rdp.Reconnect.{Refusal, should_attempt, note_success, disarm, stand_down, claim, release}
use agent_rdp.Reconnect.Attempt.{should_attempt-IsDue}
use agent_rdp.Reconnect.Loop.{
  World, word, Act, connects, disconnects, shuts_down, drops, connect_begin, connect_finish,
  connect, user_connect, act, acts, snapshot, with_auto, abandoned, Turn, TurnEnd, ended, again,
  settle, attempt_connect, scheduled, wait_and_try, turn,
}

-- The requests of the user among what happens.
abbrev pub asks : Act → ℕ
asks (drops at) = 0
asks _ = 1

abbrev pub requests : List Act → ℕ
requests [] = 0
requests (a ∷ rest) = asks a + requests rest

abbrev pub Counted : World → World → ℕ → Type 0
Counted w v n = (v.serial ≡ (w.serial + n) % word) × (v.serial < word)

act-serial : (w : World) (a : Act) → w.serial < word → Counted w (act w a) (asks a)
unfolding act user_connect connect_begin connect_finish
act-serial w (connects r (ok u)) h = ground arith
act-serial w (connects r (err e)) h = ground arith
act-serial w disconnects h = (refl, omega arith)
act-serial w shuts_down h = (refl, omega arith)
act-serial w (drops at) h = (omega arith, h)

pub acts-serial :
    (w : World) (happened : List Act)
    → w.serial < word
    → Counted w (acts w happened) (requests happened)
unfolding acts
acts-serial w [] h = (omega arith, h)
acts-serial w (a ∷ rest) h =
    omega (arith, act-serial w a h, acts-serial (act w a) rest (act-serial w a h).1)

-- Nothing of the session is changed but the schedule and the counts of the reconnects.
abbrev pub IsLeft : World → World → Type 0
IsLeft v u = (v.journal ≡ u.journal) × (v.session ≡ u.session) × (v.generation ≡ u.generation)

pub abandoned-IsLeft : (w : World) → IsLeft (abandoned w) w
unfolding abandoned stand_down
abandoned-IsLeft w = ground arith

module _ (w : World) (dropped armed attempt : ℕ) (t : Turn) (seen : World) where
  pub turn-refused :
      (why : Refusal)
      → seen ≡ acts w t.before
      → should_attempt (snapshot seen dropped armed) ≡ err why
      → turn w dropped armed attempt t ≡ ended (abandoned seen)
  unfolding turn
  turn-refused why e h = ground arith

  turn-due :
      seen ≡ acts w t.before
      → should_attempt (snapshot seen dropped armed) ≡ ok tt
      → turn w dropped armed attempt t ≡ wait_and_try seen dropped armed attempt t seen.auto.request
  unfolding turn
  turn-due e h = ground arith

  waits_in_vain :
      (r : ConnectRequest)
      → let woken = acts (scheduled seen attempt t.now) t.asleep in
        woken.serial ≢ armed
        → wait_and_try seen dropped armed attempt t (some r) ≡ ended (abandoned woken)
  unfolding wait_and_try should_attempt
  waits_in_vain r h = ground arith

  wait-IsLeft :
      (o : Option ConnectRequest)
      → let woken = acts (scheduled seen attempt t.now) t.asleep in
        woken.serial ≢ armed
        → (v : World) × (wait_and_try seen dropped armed attempt t o ≡ ended v)
          × (IsLeft v seen ⊎ IsLeft v woken)
  unfolding wait_and_try stand_down
  wait-IsLeft none h = (with_auto seen (stand_down seen.auto), refl, inl (refl, refl, refl))
  wait-IsLeft (some r) h =
      let woken = acts (scheduled seen attempt t.now) t.asleep in
      (abandoned woken, waits_in_vain r h, inr (abandoned-IsLeft woken))

-- If the user connects, disconnects or shuts down before a turn or during its wait (less than
-- 2 ^ 64 times), the loop ends with that turn and makes no attempt: the session, its generation
-- and the journal are as the user's requests left them.
pub user_request_ends_turn :
    (w : World) (dropped attempt : ℕ) (t : Turn)
    → w.serial < word
    → 0 < requests t.before + requests t.asleep
    → requests t.before + requests t.asleep < word
    → let seen = acts w t.before in
      (v : World) × (turn w dropped w.serial attempt t ≡ ended v)
      × (IsLeft v seen ⊎ IsLeft v (acts (scheduled seen attempt t.now) t.asleep))
user_request_ends_turn w dropped attempt t small some_ few =
    let seen = acts w t.before in
    elim (Result-cases (should_attempt (snapshot seen dropped w.serial))) [
      | inr (why, h) ↦ (
        abandoned seen,
        turn-refused w dropped w.serial attempt t seen why refl h,
        inl (abandoned-IsLeft seen),
      )
      | inl (u, h) ↦
          (let (v, ends, left) =
              wait-IsLeft w dropped w.serial attempt t seen seen.auto.request (λ same. omega (
                arith,
                ((should_attempt-IsDue (snapshot seen dropped w.serial)).0 h).untouched,
                acts-serial w t.before small,
                acts-serial (scheduled seen attempt t.now) t.asleep
                    (acts-serial w t.before small).1,
              )) in
            (v, turn-due w dropped w.serial attempt t seen refl h ∙ ends, left))
    ]

abbrev pub world_of : TurnEnd → World
world_of (ended v) = v
world_of (again v d) = v

-- A `disconnect` of the user's during an automatic attempt, before the host has answered, does
-- not stop it: the loop forgets the credentials, but the session comes back all the same.
pub disconnect_during_attempt_is_undone :
    (w : World) (t : Turn) (r : ConnectRequest) (attempt : ℕ)
    → validate_connect_request r ≡ ok tt
    → t.meanwhile ≡ disconnects ∷ []
    → t.reply ≡ ok tt
    → (v : World) × (attempt_connect w t r attempt ≡ ended v)
      × (v.session ≡ some ((w.generation + 1) % word))
      × (v.auto.request ≡ none)
      × (v.auto.enabled ≡ false)
unfolding attempt_connect connect connect_begin connect_finish acts act settle release claim disarm
    note_success
disconnect_during_attempt_is_undone w t r attempt va m q =
    let v = world_of (attempt_connect w t r attempt) in
    (v, ground arith, ground arith, ground arith, ground arith)
