-- ===== src/Dvc/Slot.antt =====
-- Which agent holds the channel: the step relation of the shared state, and who keeps the slot.
use agent_rdp.Base.{
  ℕ, ◌≡◌, refl, ◌≢◌, ◌⊎◌, inl, Bool, true, false, not, ◌&&◌, ◌||◌, Option, none, some, List, [],
  ◌∷◌, arith, ℕ_discrete, ◌==◌, if◌then◌else◌, Result, ok, err, Text, Text-discrete, erase,
  contains, discard, add, contains-discard, contains-add,
}
use agent_rdp.Dvc.{
  DvcSharedState, DvcProtocolMessage, handshake, response, request, poll, init, channel_is,
  build_id_accepted, send, shutdown_request, release_primary, start, process, close,
}
use agent_rdp.Dvc.Ipc.{hand_over}

-- What can happen to the state. The channels that the transport holds open are beside it.
pub data Event : Type 0 where
  opens closes releases : ℕ → Event
  receives : (tx : Bool) (now channel : ℕ) → Option DvcProtocolMessage → Event
  sends : (now : ℕ) (id : Text) (waiter timeout : ℕ) (occupies delivered : Bool) → Event
  expires : Text → Event

abbrev pub kept_or {ℓ} : {E : Type ℓ} → DvcSharedState → Result E DvcSharedState → DvcSharedState
kept_or s (ok t) = t
kept_or s (err e) = s

unfoldable pub step : DvcSharedState → Event → DvcSharedState
step s (opens c) = start s c
step s (closes c) = (close s c).0
step s (releases c) = (release_primary s c).0
step s (receives tx now c m) = (process tx s now c m).0
step s (sends now id w t o d) = kept_or s (hand_over s now id w t o d)
step s (expires id) = record s { pending = erase Text-discrete id s.pending }

abbrev pub opened_after : List ℕ → Event → List ℕ
opened_after o (opens c) = add ℕ_discrete c o
opened_after o (closes c) = discard ℕ_discrete c o
opened_after o _ = o

-- The transport opens a channel that is not open, and serves only channels that are.
abbrev pub Fits : List ℕ → Event → Type 0
Fits o (opens c) = contains ℕ_discrete c o ≡ false
Fits o (closes c) = contains ℕ_discrete c o ≡ true
Fits o (receives tx now c m) = contains ℕ_discrete c o ≡ true
Fits o _ = Unit

-- A channel is open exactly if it holds the slot or is set aside, and never both.
abbrev pub IsPlaced : DvcSharedState → List ℕ → ℕ → Type 0
IsPlaced s o c =
    ((channel_is s.channel_id c || contains ℕ_discrete c s.extras) ≡ contains ℕ_discrete c o)
    × ((channel_is s.channel_id c && contains ℕ_discrete c s.extras) ≡ false)

module _ (s : DvcSharedState) (o : List ℕ) (k c : ℕ) where
  start-IsPlaced :
      contains ℕ_discrete k o ≡ false
      → IsPlaced s o k
      → IsPlaced s o c
      → IsPlaced (start s k) (add ℕ_discrete k o) c
  unfolding start
  start-IsPlaced fresh hk hc = ground (
    arith,
    contains-add ℕ_discrete c k o,
    contains-discard ℕ_discrete c k s.extras,
    contains-add ℕ_discrete c k (discard ℕ_discrete k s.extras),
  )

  close-IsPlaced :
      IsPlaced s o k → IsPlaced s o c → IsPlaced (close s k).0 (discard ℕ_discrete k o) c
  unfolding close
  close-IsPlaced hk hc =
      ground (arith, contains-discard ℕ_discrete c k o, contains-discard ℕ_discrete c k s.extras)

  release_primary-IsPlaced : IsPlaced s o k → IsPlaced s o c → IsPlaced (release_primary s k).0 o c
  unfolding release_primary
  release_primary-IsPlaced hk hc = ground (arith, contains-add ℕ_discrete c k s.extras)

  process-IsPlaced :
      (tx : Bool) (now : ℕ) (m : Option DvcProtocolMessage)
      → contains ℕ_discrete k o ≡ true
      → IsPlaced s o k
      → IsPlaced s o c
      → IsPlaced (process tx s now k m).0 o c
  unfolding process
  process-IsPlaced tx now none live hk hc = hc
  process-IsPlaced tx now (some (handshake h)) live hk hc =
      ground (arith, contains-add ℕ_discrete c k s.extras, contains-discard ℕ_discrete c k s.extras)
  process-IsPlaced tx now (some (response id r)) live hk hc = ground arith
  process-IsPlaced tx now (some (request i n p)) live hk hc = hc
  process-IsPlaced tx now (some poll) live hk hc = hc

hand_over-IsPlaced :
    (s : DvcSharedState) (o : List ℕ) (now : ℕ) (id : Text) (w t : ℕ) (occ d : Bool) (c : ℕ)
    → IsPlaced s o c
    → IsPlaced (kept_or s (hand_over s now id w t occ d)) o c
unfolding hand_over
hand_over-IsPlaced s o now id w t occ d c h = ground arith

pub step-IsPlaced :
    (s : DvcSharedState) (o : List ℕ) (e : Event)
    → Fits o e
    → ((c : ℕ) → IsPlaced s o c)
    → (c : ℕ) → IsPlaced (step s e) (opened_after o e) c
unfolding step
step-IsPlaced s o (opens k) f h c = start-IsPlaced s o k c f (h k) (h c)
step-IsPlaced s o (closes k) f h c = close-IsPlaced s o k c (h k) (h c)
step-IsPlaced s o (releases k) f h c = release_primary-IsPlaced s o k c (h k) (h c)
step-IsPlaced s o (receives tx now k m) f h c = process-IsPlaced s o k c tx now m f (h k) (h c)
step-IsPlaced s o (sends now id w t occ d) f h c = hand_over-IsPlaced s o now id w t occ d c (h c)
step-IsPlaced s o (expires id) f h c = h c

-- The states that the shared state comes through, with the channels open in each.
pub data Reach (expected : Option Text) : DvcSharedState → List ℕ → Type 0 where
  begin :
      (tx notify : Bool)
      → Reach expected
          (record init { expected_build_id = expected; command_tx = tx; closed_notify = notify })
          []
  next :
      {s : DvcSharedState} {o : List ℕ} (e : Event)
      → Reach expected s o
      → Fits o e
      → Reach expected (step s e) (opened_after o e)

-- In every state that a session comes through, a channel is open exactly if it either holds the
-- slot or is set aside, and no channel does both.
pub Reach-IsPlaced :
    {expected : Option Text} {s : DvcSharedState} {o : List ℕ}
    → Reach expected s o
    → (c : ℕ) → IsPlaced s o c
unfolding contains
Reach-IsPlaced (begin tx notify) c = (refl, refl)
Reach-IsPlaced (next {s = s} {o = o} e r f) c = step-IsPlaced s o e f (Reach-IsPlaced r) c

-- What takes the slot from channel `p`: its end, its release, or a handshake of other scripts on it.
abbrev pub evicts : DvcSharedState → ℕ → Event → Bool
evicts s p (closes c) = p == c
evicts s p (releases c) = p == c
evicts s p (receives tx now c (some (handshake h))) = p == c && not (build_id_accepted s h.build_id)
evicts s p _ = false

-- The first agent to open keeps the slot: whatever happens, it has it afterwards too, unless its
-- channel closes, is released, or turns out to run other scripts, and then the slot is free.
pub first_opener_keeps :
    {expected : Option Text} {s : DvcSharedState} {o : List ℕ} (p : ℕ) (e : Event)
    → Reach expected s o
    → s.channel_id ≡ some p
    → (step s e).channel_id ≡ (if evicts s p e then none else some p)
unfolding step start close release_primary process hand_over
first_opener_keeps p (opens c) r h = ground arith
first_opener_keeps p (closes c) r h = ground (arith, Reach-IsPlaced r p)
first_opener_keeps p (releases c) r h = ground arith
first_opener_keeps p (receives tx now c none) r h = ground arith
first_opener_keeps p (receives tx now c (some (handshake g))) r h =
    ground (arith, Reach-IsPlaced r p)
first_opener_keeps p (receives tx now c (some (response id a))) r h = ground arith
first_opener_keeps p (receives tx now c (some (request i n q))) r h = ground arith
first_opener_keeps p (receives tx now c (some poll)) r h = ground arith
first_opener_keeps p (sends now id w t occ d) r h = ground arith
first_opener_keeps p (expires id) r h = ground arith

-- What a caller reads of the agent that holds the slot.
pub record SameAgent (s t : DvcSharedState) : Type 0 where
  pub channel : t.channel_id ≡ s.channel_id
  pub greeting : t.greeting ≡ s.greeting
  pub since : t.handshake_at ≡ s.handshake_at
  pub pending : t.pending ≡ s.pending
  pub heard : t.last_inbound_at ≡ s.last_inbound_at
  pub busy : t.busy_until ≡ s.busy_until

-- An agent that was set aside while another holds the slot changes nothing that is read of that
-- other one, by no message and by no end of its channel. It is sent nothing but `shutdown`.
pub extra_is_harmless :
    (tx : Bool) (s : DvcSharedState) (now p c : ℕ) (m : Option DvcProtocolMessage)
    → s.channel_id ≡ some p
    → p ≢ c
    → contains ℕ_discrete c s.extras ≡ true
    → let (t, es) = process tx s now c m in
      SameAgent s t
      × ((es ≡ []) ⊎ (es ≡ send c (shutdown_request c) ∷ []))
      × SameAgent s (close s c).0
      × ((close s c).1 ≡ [])
unfolding process close
extra_is_harmless tx s now p c none h ne x = (ground arith, inl refl, ground arith, ground arith)
extra_is_harmless tx s now p c (some (handshake g)) h ne x =
    (ground arith, ground arith, ground arith, ground arith)
extra_is_harmless tx s now p c (some (response id r)) h ne x =
    (ground arith, ground arith, ground arith, ground arith)
extra_is_harmless tx s now p c (some (request i n q)) h ne x =
    (ground arith, inl refl, ground arith, ground arith)
extra_is_harmless tx s now p c (some poll) h ne x =
    (ground arith, inl refl, ground arith, ground arith)
