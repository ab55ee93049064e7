-- ===== src/Reconnect/Drops.antt =====
-- crates/agent-rdp-daemon/src/daemon.rs: what the daemon does when a session's transport drops, up
-- to the reconnect loop.
use agent_rdp.Base.{
  Result-cases, ℕ, ◌+◌, ◌%◌, ◌^◌, ◌<◌, ◌≡◌, refl, ◌∙◌, ◌≢◌, ◌⊎◌, inl, inr, Bool, not, none, some,
  List, [], ◌∷◌, arith, ◌==◌, if◌then◌else◌, Bool-cases, ok, err, Text, codes,
}
use agent_rdp.Json.{Json, str, num, object, member, end}
use agent_rdp.Protocol.Connect.{validate_connect_request}
use agent_rdp.Reconnect.{should_attempt}
use agent_rdp.Reconnect.Attempt.{should_attempt-IsDue}
use agent_rdp.Reconnect.Loop.{
  World, word, Act, connects, disconnects, shuts_down, drops, user_connect, connect_begin,
  connect_finish, act, acts, abandoned, enter, Turn, TurnEnd, ended, turn, turns, snapshot,
  reconnect_loop, journaled,
}
use agent_rdp.Reconnect.Loop.Users.{requests, acts-serial, abandoned-IsLeft, turn-refused}

-- `is_stale_disconnect`.
abbrev pub is_stale_disconnect : ℕ → ℕ → Bool
is_stale_disconnect dropped current = not (dropped == current)

pub record DisconnectEvent : Type 0 where
  pub generation : ℕ
  pub reason : Text

abbrev pub drop_event : DisconnectEvent → Json
drop_event e = object (
    member (codes "rdp_transport_dropped")
      (object (
        member (codes "reason") (str e.reason)
          (member (codes "generation") (num e.generation) end)))
      end)

-- The drop is recorded and journaled.
unfoldable pub note_drop : World → DisconnectEvent → ℕ → World
note_drop w e now = journaled (record w { last_disconnect = some now }) (drop_event e)

-- The task of the teardown: what others do before it takes the session's lock, and before its last
-- look; then the loop. `armed` is the serial at the drop.
unfoldable pub tear_down :
    World → (dropped armed now : ℕ) → (before after : List Act) → List Turn → TurnEnd
tear_down w dropped armed now before after ts =
    let locked = acts w before in
    let emptied = acts (record locked { session = none }) after in
    if not (locked.generation == dropped)
    then ended locked
    else if not (emptied.generation == dropped)
    then ended emptied
    else reconnect_loop emptied now dropped armed ts

unfoldable pub on_drop :
    World → DisconnectEvent → (now : ℕ) → (before after : List Act) → List Turn → TurnEnd
unfolding tear_down note_drop
on_drop w e now before after ts =
    if is_stale_disconnect e.generation w.generation
    then ended w
    else tear_down (note_drop w e now) e.generation w.serial now before after ts

-- The connects that claim a generation, among what happens.
abbrev pub claims : Act → ℕ
claims (connects r reply) = elim (validate_connect_request r) [ ok u ↦ 1 | err e ↦ 0 ]
claims _ = 0

abbrev pub claimed : List Act → ℕ
claimed [] = 0
claimed (a ∷ rest) = claims a + claimed rest

act-generation :
    (w : World) (a : Act)
    → w.generation < word
    → ((act w a).generation ≡ (w.generation + claims a) % word) × ((act w a).generation < word)
unfolding act user_connect connect_begin connect_finish
act-generation w (connects r (ok u)) h = ground arith
act-generation w (connects r (err e)) h = ground arith
act-generation w disconnects h = (omega (arith, h), h)
act-generation w shuts_down h = (omega (arith, h), h)
act-generation w (drops at) h = (omega (arith, h), h)

acts-generation :
    (w : World) (happened : List Act)
    → w.generation < word
    → ((acts w happened).generation ≡ (w.generation + claimed happened) % word)
      × ((acts w happened).generation < word)
unfolding acts
acts-generation w [] h = (omega (arith, h), h)
acts-generation w (a ∷ rest) h =
    omega (arith, act-generation w a h, acts-generation (act w a) rest (act-generation w a h).1)

-- A drop does not touch a newer session. If its notice comes when another connect has claimed the
-- session, nothing changes; and if a connect claims it after the notice and before the teardown
-- has the lock (less than 2 ^ 64 times), all is left as that connect left it.
pub newer_session_is_left :
    (w : World) (e : DisconnectEvent) (now : ℕ) (before after : List Act) (ts : List Turn)
    → w.generation < word
    → claimed before < word
    → (e.generation ≢ w.generation → on_drop w e now before after ts ≡ ended w)
      × (e.generation ≡ w.generation
          → 0 < claimed before
          → on_drop w e now before after ts ≡ ended (acts (note_drop w e now) before))
unfolding on_drop tear_down
newer_session_is_left w e now before after ts h few =
    (λ ne. ground arith, λ same some_. ground (arith, acts-generation (note_drop w e now) before h))

act-journal : (w : World) (a : Act) → (act w a).journal ≡ w.journal
unfolding act user_connect connect_begin connect_finish
act-journal w (connects r (ok u)) = ground arith
act-journal w (connects r (err e)) = ground arith
act-journal w disconnects = refl
act-journal w shuts_down = refl
act-journal w (drops at) = refl

acts-journal : (w : World) (happened : List Act) → (acts w happened).journal ≡ w.journal
unfolding acts
acts-journal w [] = refl
acts-journal w (a ∷ rest) = acts-journal (act w a) rest ∙ act-journal w a

enter-kept :
    (w : World) (now : ℕ)
    → ((enter w now).0.journal ≡ w.journal) × ((enter w now).0.serial ≡ w.serial)
unfolding enter
enter-kept w now = ground arith

turn-untouched :
    (w : World) (dropped armed attempt : ℕ) (t : Turn)
    → (acts w t.before).serial ≢ armed
    → (v : World) × (turn w dropped armed attempt t ≡ ended v) × (v.journal ≡ w.journal)
turn-untouched w dropped armed attempt t ne =
    let seen = acts w t.before in
    elim (Result-cases (should_attempt (snapshot seen dropped armed))) [
      | inr (why, h) ↦ (
        abandoned seen,
        turn-refused w dropped armed attempt t seen why refl h,
        (abandoned-IsLeft seen).0 ∙ acts-journal w t.before,
      )
      | inl (u, h) ↦
          absurd (ne (((should_attempt-IsDue (snapshot seen dropped armed)).0 h).untouched))
    ]

-- A loop whose first turn finds that the user has acted makes no attempt.
loop-untouched :
    (w : World) (now dropped armed : ℕ) (t : Turn) (ts : List Turn)
    → (acts (enter w now).0 t.before).serial ≢ armed
    → (v : World) × (reconnect_loop w now dropped armed (t ∷ ts) ≡ ended v)
      × (v.journal ≡ w.journal)
unfolding reconnect_loop turns
loop-untouched w now dropped armed t ts ne =
    let u = (enter w now).0 in
    let (v, ends, same) = turn-untouched u dropped armed ((0 + 1) % 2 ^ 32) t ne in
    elim (Bool-cases (enter w now).1) [
      | inl go ↦ (v, ground arith, same ∙ (enter-kept w now).0)
      | inr stay ↦ (u, ground arith, (enter-kept w now).0)
    ]

-- If the user connects, disconnects or shuts down between the drop and the loop (less than 2 ^ 64
-- times, with what comes before the first turn), no attempt is made: at most the drop itself is
-- journaled.
pub user_request_ends_recovery :
    (w : World) (e : DisconnectEvent) (now : ℕ) (before after : List Act) (t : Turn)
    (ts : List Turn)
    → w.serial < word
    → 0 < requests before + requests after
    → requests before + requests after + requests t.before < word
    → (v : World) × (on_drop w e now before after (t ∷ ts) ≡ ended v)
      × ((v.journal ≡ w.journal) ⊎ (v.journal ≡ drop_event e ∷ w.journal))
unfolding on_drop tear_down note_drop
user_request_ends_recovery w e now before after t ts small some_ few =
    let noted = note_drop w e now in
    let locked = acts noted before in
    let bare = record locked { session = none } in
    let emptied = acts bare after in
    let one = acts-serial noted before small in
    let two = acts-serial bare after one.1 in
    let begun = (enter emptied now).0 in
    let kept = enter-kept emptied now in
    let three = acts-serial begun t.before (omega (arith, kept, two)) in
    let (v, ends, same) =
      loop-untouched emptied now e.generation w.serial t ts
        (λ eq. omega (arith, eq, one, two, three, kept)) in
    let j1 = acts-journal noted before in
    let j2 = acts-journal bare after in
    elim (Bool-cases (e.generation == w.generation)) [
      | inr stale ↦ (w, ground arith, inl refl)
      | inl live ↦ elim (Bool-cases (locked.generation == e.generation)) [
        | inr newer ↦ (locked, ground arith, inr j1)
        | inl mine ↦ elim (Bool-cases (emptied.generation == e.generation)) [
          | inr newer ↦ (emptied, ground arith, inr (j2 ∙ j1))
          | inl still ↦ (v, ground arith, inr (same ∙ (j2 ∙ j1)))
        ]
      ]
    ]
