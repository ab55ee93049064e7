-- ===== src/Dvc/Stale.antt =====
-- dvc_channel.rs: agents that run other scripts than the daemon ships.
use agent_rdp.Base.{
  ℕ, ◌≡◌, refl, ap, ◌∙◌, subst, ◌≢◌, Bool, true, false, Option, none, some, List, [], ◌∷◌, arith,
  ℕ_discrete, sat_add32, Text, text_eq→eq, contains, contains-add,
}
use agent_rdp.Dvc.{
  DvcSharedState, DvcHandshake, handshake, response, request, poll, channel_is, build_id_accepted,
  send, shutdown_request, release_primary, start, process, close,
}
use agent_rdp.Dvc.Ipc.{hand_over, is_ready}
use agent_rdp.Dvc.Slot.{
  Event, opens, closes, releases, receives, sends, expires, step, Reach, begin, next,
}

abbrev IsAccepted : DvcSharedState → Option DvcHandshake → Type 0
IsAccepted s none = Unit
IsAccepted s (some h) = build_id_accepted s h.build_id ≡ true

step-expected :
    (s : DvcSharedState) (e : Event) → (step s e).expected_build_id ≡ s.expected_build_id
unfolding step start close release_primary process hand_over
step-expected s (opens c) = ground arith
step-expected s (closes c) = ground arith
step-expected s (releases c) = ground arith
step-expected s (receives tx now c none) = refl
step-expected s (receives tx now c (some (handshake g))) = ground arith
step-expected s (receives tx now c (some (response id a))) = ground arith
step-expected s (receives tx now c (some (request i n q))) = refl
step-expected s (receives tx now c (some poll)) = refl
step-expected s (sends now id w t occ d) = ground arith
step-expected s (expires id) = refl

step-IsAccepted :
    (s : DvcSharedState) (e : Event)
    → IsAccepted s s.greeting
    → IsAccepted (step s e) (step s e).greeting
unfolding step start close release_primary process hand_over build_id_accepted
step-IsAccepted s (opens c) h = ground arith
step-IsAccepted s (closes c) h = ground arith
step-IsAccepted s (releases c) h = ground arith
step-IsAccepted s (receives tx now c none) h = h
step-IsAccepted s (receives tx now c (some (handshake g))) h = ground arith
step-IsAccepted s (receives tx now c (some (response id a))) h = ground arith
step-IsAccepted s (receives tx now c (some (request i n q))) h = h
step-IsAccepted s (receives tx now c (some poll)) h = h
step-IsAccepted s (sends now id w t occ d) h = ground arith
step-IsAccepted s (expires id) h = h

accepted-equal :
    (s : DvcSharedState) (b : Option Text) (e : Text)
    → s.expected_build_id ≡ some e
    → build_id_accepted s b ≡ true
    → b ≡ some e
unfolding build_id_accepted
accepted-equal s none e h a = ground (arith, h, a)
accepted-equal s (some b) e h a = ap some (text_eq→eq b e (ground (arith, h, a)))

Reach-expected :
    {expected : Option Text} {s : DvcSharedState} {o : List ℕ}
    → Reach expected s o
    → s.expected_build_id ≡ expected
Reach-expected (begin tx notify) = refl
Reach-expected (next {s = s} e r f) = step-expected s e ∙ Reach-expected r

stored-IsAccepted :
    {expected : Option Text} {s : DvcSharedState} {o : List ℕ}
    → Reach expected s o
    → IsAccepted s s.greeting
stored-IsAccepted (begin tx notify) = tt
stored-IsAccepted (next {s = s} e r f) = step-IsAccepted s e (stored-IsAccepted r)

-- In every state that a session comes through which expects a build id, the handshake that is kept,
-- if any, has presented exactly that build id.
pub Reach-IsAccepted :
    {expected : Option Text} {s : DvcSharedState} {o : List ℕ}
    → Reach expected s o
    → (h : DvcHandshake) (e : Text) → s.greeting ≡ some h
    → expected ≡ some e
    → h.build_id ≡ some e
Reach-IsAccepted {s = s} r h e g x =
    accepted-equal s h.build_id e (Reach-expected r ∙ x)
      (subst (IsAccepted s) g (stored-IsAccepted r))

-- A handshake that presents another build id is answered with `shutdown` and nothing else. Its
-- channel is set aside and does not hold the slot; the handshake, the requests in flight and the
-- other channels stay as they were, and the refusal is counted.
pub stale_is_refused :
    (tx : Bool) (s : DvcSharedState) (now c d : ℕ) (h : DvcHandshake)
    → build_id_accepted s h.build_id ≡ false
    → let (t, es) = process tx s now c (some (handshake h)) in
      (es ≡ send c (shutdown_request c) ∷ [])
      × (channel_is t.channel_id c ≡ false)
      × (contains ℕ_discrete c t.extras ≡ true)
      × (t.greeting ≡ s.greeting)
      × (t.pending ≡ s.pending)
      × (d ≢ c → channel_is t.channel_id d ≡ channel_is s.channel_id d)
      × (d ≢ c → contains ℕ_discrete d t.extras ≡ contains ℕ_discrete d s.extras)
      × (t.stale_rejections ≡ sat_add32 s.stale_rejections 1)
unfolding process
stale_is_refused tx s now c d h bad = (
  ground arith,
  ground arith,
  ground (arith, contains-add ℕ_discrete c c s.extras),
  ground arith,
  ground arith,
  λ ne. ground arith,
  λ ne. ground (arith, contains-add ℕ_discrete d c s.extras),
  ground arith,
)

-- A refusal frees the slot and keeps the handshake that the refused channel had made before. So
-- when an agent has shaken hands and then presents another build id, and a new channel `q` opens,
-- the client counts as ready before the agent on `q` has said anything.
pub stale_handshake_outlives_slot :
    (tx : Bool) (s : DvcSharedState) (now p q : ℕ) (g h : DvcHandshake)
    → s.channel_id ≡ some p
    → s.greeting ≡ some g
    → build_id_accepted s h.build_id ≡ false
    → let t = start (process tx s now p (some (handshake h))).0 q in
      (is_ready t ≡ true) × (t.channel_id ≡ some q) × (t.greeting ≡ some g)
unfolding process start is_ready
stale_handshake_outlives_slot tx s now p q g h hc hg bad = ground arith
