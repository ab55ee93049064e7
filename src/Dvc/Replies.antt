-- ===== src/Dvc/Replies.antt =====
-- dvc_channel.rs: who is answered, and how often.
use agent_rdp.Base.{
  ℕ, ◌+◌, ◌≡◌, refl, Bool, true, false, Option, none, some, List, [], ◌∷◌, arith, ℕ_discrete, ◌==◌,
  if◌then◌else◌, Result, ok, err, Text, Text-discrete, lookup, erase, insert, lookup-erase,
  contains,
}
use agent_rdp.Dvc.{
  DvcSharedState, DvcResponse, handshake, response, request, poll, Effect, send, reply,
  notify_closed, notify_handshake, fail_all, closed_reply, released_reply, release_primary, start,
  process, close,
}
use agent_rdp.Dvc.Ipc.{hand_over}
use agent_rdp.Dvc.Slot.{Event, opens, closes, releases, receives, sends, expires, step}

-- How often a waiter stands in the table of pending requests, and is answered.
abbrev pub waiting : ℕ → List (Text × ℕ) → ℕ
waiting w [] = 0
waiting w ((id, v) ∷ m) = (if v == w then 1 else 0) + waiting w m

abbrev pub answers : ℕ → List Effect → ℕ
answers w [] = 0
answers w (reply v r ∷ es) = (if v == w then 1 else 0) + answers w es
answers w (send c m ∷ es) = answers w es
answers w (notify_closed ∷ es) = answers w es
answers w (notify_handshake h ∷ es) = answers w es

abbrev pub held : ℕ → Option ℕ → ℕ
held w none = 0
held w (some v) = if v == w then 1 else 0

-- No request id stands twice.
abbrev pub IsUnique : List (Text × ℕ) → Type 0
IsUnique [] = Unit
IsUnique ((id, v) ∷ m) = (lookup Text-discrete id m ≡ none) × IsUnique m

waiting-erase-none :
    (w : ℕ) (id : Text) (m : List (Text × ℕ))
    → lookup Text-discrete id m ≡ none
    → waiting w (erase Text-discrete id m) ≡ waiting w m
unfolding lookup erase
waiting-erase-none w id [] h = refl
waiting-erase-none w id ((j, v) ∷ m) h = ground (arith, waiting-erase-none w id m)

waiting-erase :
    (w : ℕ) (id : Text) (m : List (Text × ℕ))
    → IsUnique m
    → waiting w m ≡ waiting w (erase Text-discrete id m) + held w (lookup Text-discrete id m)
unfolding lookup erase
waiting-erase w id [] u = refl
waiting-erase w id ((j, v) ∷ m) u = ground (arith, waiting-erase w id m, waiting-erase-none w id m)

erase-IsUnique :
    (id : Text) (m : List (Text × ℕ)) → IsUnique m → IsUnique (erase Text-discrete id m)
unfolding erase
erase-IsUnique id [] u = tt
erase-IsUnique id ((j, v) ∷ m) u =
    ground (arith, erase-IsUnique id m, lookup-erase Text-discrete j id m)

answers-fail_all :
    (w : ℕ) (r : DvcResponse) (m : List (Text × ℕ)) → answers w (fail_all r m) ≡ waiting w m
unfolding fail_all
answers-fail_all w r [] = refl
answers-fail_all w r ((id, v) ∷ m) = ground (arith, answers-fail_all w r m)

-- What an event sends and answers.
unfoldable pub effects : DvcSharedState → Event → List Effect
effects s (opens c) = []
effects s (closes c) = (close s c).1
effects s (releases c) = (release_primary s c).2
effects s (receives tx now c m) = (process tx s now c m).1
effects s (sends now id w t o d) = []
effects s (expires id) = []

abbrev is_ok {ℓ} : {E : Type ℓ} → Result E DvcSharedState → Bool
is_ok (ok t) = true
is_ok (err e) = false

-- Whether the event hands a request of waiter `w` over, and whether its caller gives up.
abbrev pub handed : ℕ → DvcSharedState → Event → ℕ
handed w s (sends now id v t o d) =
    if is_ok (hand_over s now id v t o d) then (if v == w then 1 else 0) else 0
handed w s _ = 0

abbrev pub given_up : ℕ → DvcSharedState → Event → ℕ
given_up w s (expires id) = held w (lookup Text-discrete id s.pending)
given_up w s _ = 0

step-IsUnique : (s : DvcSharedState) (e : Event) → IsUnique s.pending → IsUnique (step s e).pending
unfolding step start close release_primary process hand_over insert
step-IsUnique s (opens c) u = ground arith
step-IsUnique s (closes c) u = ground arith
step-IsUnique s (releases c) u = ground arith
step-IsUnique s (receives tx now c none) u = u
step-IsUnique s (receives tx now c (some (handshake g))) u = ground arith
step-IsUnique s (receives tx now c (some (response id a))) u =
    ground (arith, erase-IsUnique id s.pending)
step-IsUnique s (receives tx now c (some (request i n q))) u = u
step-IsUnique s (receives tx now c (some poll)) u = u
step-IsUnique s (sends now id w t occ d) u =
    ground (arith, erase-IsUnique id s.pending, lookup-erase Text-discrete id id s.pending)
step-IsUnique s (expires id) u = erase-IsUnique id s.pending u

-- One event: the waiters before it and the one that it hands over are those that still wait after
-- it, those that it answers, and the one that gives up.
pub step_accounts :
    (w : ℕ) (s : DvcSharedState) (e : Event)
    → IsUnique s.pending
    → waiting w s.pending + handed w s e
      ≡ waiting w (step s e).pending + answers w (effects s e) + given_up w s e
unfolding step effects start close release_primary process hand_over insert
step_accounts w s (opens c) u = ground arith
step_accounts w s (closes c) u = ground (arith, answers-fail_all w closed_reply s.pending)
step_accounts w s (releases c) u = ground (arith, answers-fail_all w released_reply s.pending)
step_accounts w s (receives tx now c none) u = ground arith
step_accounts w s (receives tx now c (some (handshake g))) u = ground arith
step_accounts w s (receives tx now c (some (response id a))) u =
    ground (arith, waiting-erase w id s.pending u)
step_accounts w s (receives tx now c (some (request i n q))) u = ground arith
step_accounts w s (receives tx now c (some poll)) u = ground arith
step_accounts w s (sends now id v t occ d) u = ground (arith, waiting-erase w id s.pending u)
step_accounts w s (expires id) u = ground (arith, waiting-erase w id s.pending u)

-- A history from a state: the last state, and all that was handed over, answered and given up.
unfoldable pub run : DvcSharedState → List Event → DvcSharedState
run s [] = s
run s (e ∷ es) = run (step s e) es

unfoldable pub total : (DvcSharedState → Event → ℕ) → DvcSharedState → List Event → ℕ
total f s [] = 0
total f s (e ∷ es) = f s e + total f (step s e) es

abbrev pub answered_by : ℕ → DvcSharedState → Event → ℕ
answered_by w s e = answers w (effects s e)

-- Over any history from a state whose request ids are distinct, no waiter is lost and none is
-- answered twice: those that waited and those handed over are those that wait at the end, the
-- answers given, and the callers that gave up.
pub run_accounts :
    (w : ℕ) (s : DvcSharedState) (es : List Event)
    → IsUnique s.pending
    → waiting w s.pending + total (handed w) s es
      ≡ waiting w (run s es).pending + total (answered_by w) s es + total (given_up w) s es
unfolding run total
run_accounts w s [] u = ground arith
run_accounts w s (e ∷ es) u =
    omega (arith, step_accounts w s e u, run_accounts w (step s e) es (step-IsUnique s e u))

-- When the channel that holds the slot closes or is released, no request is left waiting, and every
-- waiter has as many answers as it had requests.
pub closing_answers_all :
    (w : ℕ) (s : DvcSharedState) (p : ℕ)
    → s.channel_id ≡ some p
    → contains ℕ_discrete p s.extras ≡ false
    → ((close s p).0.pending ≡ [])
      × (answers w (close s p).1 ≡ waiting w s.pending)
      × ((release_primary s p).0.pending ≡ [])
      × (answers w (release_primary s p).2 ≡ waiting w s.pending)
unfolding close release_primary
closing_answers_all w s p h x =
    ground (
      arith,
      answers-fail_all w closed_reply s.pending,
      answers-fail_all w released_reply s.pending,
    )
