-- ===== src/Reconnect/Loop/Failures.antt =====
-- daemon.rs: what a failed attempt leads to.
use agent_rdp.Base.{
  ℕ, ◌+◌, ◌%◌, ◌^◌, ◌<◌, ◌≡◌, refl, sym, ap, ◌∙◌, ◌++◌, append-nil, true, false, none, some, List,
  [], ◌∷◌, arith, ok, err, length, Text, codes,
}
use agent_rdp.Protocol.Connect.{ConnectRequest, validate_connect_request}
use agent_rdp.Protocol.Errors.{ErrorCode, authentication_failed}
use agent_rdp.Reconnect.{note_outage, should_attempt, stop, claim, release, attempt_event}
use agent_rdp.Json.{Json}
use agent_rdp.Reconnect.Loop.Users.{world_of}
use agent_rdp.Reconnect.Loop.{
  word, rejected_text, World, connect_begin, connect_finish, connect, acts, Turn, ended, again,
  is_final, settle, attempt_connect, wait_and_try, turn, reconnect_loop, turns, enter,
}

-- The codes that another attempt may help with.
abbrev pub retried : ErrorCode × Text → ℕ × ℕ → Turn
retried e (now, at) = record {
  before = [];
  now = now;
  asleep = [];
  meanwhile = [];
  reply = err e;
  done_at = at;
}

abbrev pub failing : ErrorCode × Text → List (ℕ × ℕ) → List Turn
failing e [] = []
failing e (x ∷ times) = retried e x ∷ failing e times

-- The loop may go on: nobody has acted, and nothing has been given up.
abbrev pub IsReady : World → ConnectRequest → ℕ → Type 0
IsReady w r armed =
    (w.auto.request ≡ some r)
    × (w.auto.enabled ≡ true)
    × (w.auto.stopped_reason ≡ none)
    × (w.auto.in_flight ≡ false)
    × (w.serial ≡ armed)

-- The journal after n failed attempts: each is announced and then reported with its message.
unfoldable pub told : ConnectRequest → Text → (attempt : ℕ) → List (ℕ × ℕ) → List Json → List Json
told r message attempt [] journal = journal
told r message attempt (x ∷ times) journal =
    let next = (attempt + 1) % 2 ^ 32 in
    told r message next times (
      attempt_event r next (codes "failed") (some message)
      ∷ attempt_event r next (codes "attempting") none
      ∷ journal)

-- The number of the last of n attempts.
unfoldable pub counted : (attempt : ℕ) → List (ℕ × ℕ) → ℕ
counted attempt [] = attempt
counted attempt (x ∷ times) = counted ((attempt + 1) % 2 ^ 32) times

own_failure :
    (w : World) (r : ConnectRequest) (armed attempt : ℕ) (e : ErrorCode × Text) (x : ℕ × ℕ)
    → is_final e.0 ≡ false
    → validate_connect_request r ≡ ok tt
    → IsReady w r armed
    → let v = world_of (turn w w.generation armed attempt (retried e x)) in
      (turn w w.generation armed attempt (retried e x) ≡ again v v.generation)
      × IsReady v r armed
      × (v.auto.attempts ≡ attempt)
      × (v.journal
          ≡ attempt_event r attempt (codes "failed") (some e.1)
            ∷ attempt_event r attempt (codes "attempting") none
            ∷ w.journal)
      × (v.session ≡ none)
      × (v.generation ≡ (w.generation + 1) % word)
unfolding turn wait_and_try acts should_attempt attempt_connect connect connect_begin connect_finish
    settle release claim
own_failure w r armed attempt e x f va h = ground arith

-- Failed attempts, and whatever turns come after them.
turns-go_on :
    (w : World) (r : ConnectRequest) (armed attempt : ℕ) (e : ErrorCode × Text)
    (times : List (ℕ × ℕ)) (ts : List Turn)
    → is_final e.0 ≡ false
    → validate_connect_request r ≡ ok tt
    → IsReady w r armed
    → w.generation < word
    → (v : World) × (turns w w.generation armed attempt (failing e times ++ ts)
        ≡ turns v v.generation armed (counted attempt times) ts)
      × IsReady v r armed
      × (v.journal ≡ told r e.1 attempt times w.journal)
      × (v.generation ≡ (w.generation + length times) % word)
unfolding turns told counted
turns-go_on w r armed attempt e [] ts f va h lt = (w, refl, h, refl, omega (arith, lt))
turns-go_on w r armed attempt e (x ∷ times) ts f va h lt =
    let next = (attempt + 1) % 2 ^ 32 in
    let u = world_of (turn w w.generation armed next (retried e x)) in
    let one = own_failure w r armed next e x f va h in
    let moved = one.5 in
    let (v, goes, ready, journal, generation) =
      turns-go_on u r armed next e times ts f va one.1 (omega (arith, moved)) in
    (
      v,
      ground (arith, one, goes),
      ready,
      journal ∙ ap (told r e.1 next times) one.3,
      omega (arith, generation, moved),
    )

enter-IsReady :
    (w : World) (r : ConnectRequest) (armed now : ℕ)
    → IsReady w r armed
    → (note_outage w.auto now).1 ≡ true
    → let (v, go) = enter w now in
      (go ≡ true) × IsReady v r armed × (v.journal ≡ w.journal) × (v.generation ≡ w.generation)
unfolding enter note_outage
enter-IsReady w r armed now h g = ground arith

loop-go_on :
    (w : World) (r : ConnectRequest) (now armed : ℕ) (e : ErrorCode × Text) (times : List (ℕ × ℕ))
    (ts : List Turn)
    → is_final e.0 ≡ false
    → validate_connect_request r ≡ ok tt
    → IsReady w r armed
    → (note_outage w.auto now).1 ≡ true
    → w.generation < word
    → (v : World) × (reconnect_loop w now w.generation armed (failing e times ++ ts)
        ≡ turns v v.generation armed (counted 0 times) ts)
      × IsReady v r armed
      × (v.journal ≡ told r e.1 0 times w.journal)
      × (v.generation ≡ (w.generation + length times) % word)
unfolding reconnect_loop
loop-go_on w r now armed e times ts f va h g lt =
    let begun = enter-IsReady w r armed now h g in
    let u = (enter w now).0 in
    let (v, goes, ready, journal, generation) =
      turns-go_on u r armed 0 e times ts f va begun.1 (ground (arith, lt, begun)) in
    (
      v,
      ground (arith, begun, goes),
      ready,
      journal ∙ ap (told r e.1 0 times) begun.2,
      ground (arith, generation, begun),
    )

-- The loop does not end itself by its own failures. If the outage may be worked on, the host
-- cannot be reached and nobody interferes, then after n turns the loop is still running, ready for
-- the next attempt; it has journaled, for each attempt in turn, that it is made and that it failed
-- with the host's message; and it goes by the session counter, which its attempts moved n times.
pub own_failures_do_not_end_it :
    (w : World) (r : ConnectRequest) (now armed : ℕ) (e : ErrorCode × Text) (times : List (ℕ × ℕ))
    → is_final e.0 ≡ false
    → validate_connect_request r ≡ ok tt
    → IsReady w r armed
    → (note_outage w.auto now).1 ≡ true
    → w.generation < word
    → (v : World) × (reconnect_loop w now w.generation armed (failing e times)
        ≡ again v v.generation)
      × IsReady v r armed
      × (v.journal ≡ told r e.1 0 times w.journal)
      × (v.generation ≡ (w.generation + length times) % word)
unfolding turns
own_failures_do_not_end_it w r now armed e times f va h g lt =
    let (v, goes, ready, journal, generation) = loop-go_on w r now armed e times [] f va h g lt in
    (
      v,
      ap (reconnect_loop w now w.generation armed) (sym (append-nil (failing e times))) ∙ goes,
      ready,
      journal,
      generation,
    )

refused_turn :
    (w : World) (r : ConnectRequest) (armed attempt : ℕ) (message : Text) (x : ℕ × ℕ)
    (ts : List Turn)
    → validate_connect_request r ≡ ok tt
    → IsReady w r armed
    → let next = (attempt + 1) % 2 ^ 32 in
      (v : World) × (turns w w.generation armed attempt
          (retried (authentication_failed, message) x ∷ ts)
        ≡ ended v)
      × (v.auto.stopped_reason ≡ some (rejected_text message))
      × (v.auto.in_flight ≡ false)
      × (v.auto.next_attempt_at ≡ none)
      × (v.journal
          ≡ attempt_event r next (codes "failed") (some message)
            ∷ attempt_event r next (codes "attempting") none
            ∷ w.journal)
unfolding turns turn wait_and_try acts should_attempt attempt_connect connect connect_begin
    connect_finish settle release claim stop
refused_turn w r armed attempt message x ts va h =
    let next = (attempt + 1) % 2 ^ 32 in
    let t = turn w w.generation armed next (retried (authentication_failed, message) x) in
    (world_of t, ground arith, ground arith, ground arith, ground arith, ground arith)

-- When the host refuses the credentials, after any number of attempts that failed otherwise and
-- with nobody interfering, the loop ends with that attempt, whatever turns would follow: it has
-- journaled no attempt after it, says the host's message as its reason, takes its schedule back and
-- gives up its claim.
pub refused_credentials_stop :
    (w : World) (r : ConnectRequest) (now armed : ℕ) (e : ErrorCode × Text) (times : List (ℕ × ℕ))
    (message : Text) (x : ℕ × ℕ) (ts : List Turn)
    → is_final e.0 ≡ false
    → validate_connect_request r ≡ ok tt
    → IsReady w r armed
    → (note_outage w.auto now).1 ≡ true
    → w.generation < word
    → let last = (counted 0 times + 1) % 2 ^ 32 in
      (v : World) × (reconnect_loop w now w.generation armed
          (failing e times ++ retried (authentication_failed, message) x ∷ ts)
        ≡ ended v)
      × (v.auto.stopped_reason ≡ some (rejected_text message))
      × (v.auto.in_flight ≡ false)
      × (v.auto.next_attempt_at ≡ none)
      × (v.journal
          ≡ attempt_event r last (codes "failed") (some message)
            ∷ attempt_event r last (codes "attempting") none
            ∷ told r e.1 0 times w.journal)
refused_credentials_stop w r now armed e times message x ts f va h g lt =
    let last = (counted 0 times + 1) % 2 ^ 32 in
    let (u, goes, ready, journal, generation) =
      loop-go_on w r now armed e times (retried (authentication_failed, message) x ∷ ts) f va h g
        lt in
    let (v, ends, reason, free, none_due, noted) =
      refused_turn u r armed (counted 0 times) message x ts va ready in
    (
      v,
      goes ∙ ends,
      reason,
      free,
      none_due,
      noted
          ∙ ap
              (λ j.
                attempt_event r last (codes "failed") (some message)
                ∷ attempt_event r last (codes "attempting") none
                ∷ j)
              journal,
    )
