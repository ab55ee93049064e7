-- ===== src/Dvc/Interleaved.antt =====
-- dvc_channel.rs: `process` lets go of its lock between its parts, and other threads may release the
-- agent, hand requests over or stop waiting in between.
use agent_rdp.Base.{
  ℕ, ◌≡◌, refl, Bool, true, false, none, some, List, [], ◌∷◌, arith, ℕ_discrete, contains,
  contains-add, contains-discard, All, Option, Text, ◌&&◌, not, is_none, if_split, if_either, ◌==◌,
  if◌then◌else◌,
}
use agent_rdp.Dvc.Ipc.{hand_over}
use agent_rdp.Dvc.{
  release_primary, DvcSharedState, DvcHandshake, DvcProtocolMessage, Effect, handshake, response,
  request, poll, init, channel_is, build_id_accepted, Between, accept, refuse_stale, on_handshake,
  on_response, process_among,
}
use agent_rdp.Dvc.Slot.{
  Event, opens, closes, releases, receives, sends, expires, step, opened_after, Fits, IsPlaced,
  step-IsPlaced,
}

-- What a thread other than the transport's does.
abbrev pub IsOfOthers : Event → Type 0
IsOfOthers (releases c) = Unit
IsOfOthers (sends now id w t o d) = Unit
IsOfOthers (expires id) = Unit
IsOfOthers e = ⊥

unfoldable pub steps : List Event → DvcSharedState → DvcSharedState
steps [] s = s
steps (e ∷ es) s = steps es (step s e)

-- Such events at each place.
abbrev pub as_between : (ℕ → List Event) → Between
as_between among i s = steps (among i) s

abbrev AllPlaced : List ℕ → DvcSharedState → Type 0
AllPlaced o s = (c : ℕ) → IsPlaced s o c

steps-AllPlaced :
    (o : List ℕ) (es : List Event) (s : DvcSharedState)
    → All IsOfOthers es
    → AllPlaced o s
    → AllPlaced o (steps es s)
unfolding steps
steps-AllPlaced o [] s n h = h
steps-AllPlaced o (releases c ∷ es) s n h =
    steps-AllPlaced o es (step s (releases c)) n.1 (step-IsPlaced s o (releases c) tt h)
steps-AllPlaced o (sends a b c d e f ∷ es) s n h =
    steps-AllPlaced o es (step s (sends a b c d e f)) n.1
      (step-IsPlaced s o (sends a b c d e f) tt h)
steps-AllPlaced o (expires id ∷ es) s n h =
    steps-AllPlaced o es (step s (expires id)) n.1 (step-IsPlaced s o (expires id) tt h)
steps-AllPlaced o (opens c ∷ es) s n h = ground (arith, n)
steps-AllPlaced o (closes c ∷ es) s n h = ground (arith, n)
steps-AllPlaced o (receives a b c m ∷ es) s n h = ground (arith, n)

-- Others may free the slot, and give it to nobody.
step-keeps :
    (s : DvcSharedState) (e : Event) (d : ℕ)
    → IsOfOthers e
    → channel_is (step s e).channel_id d ≡ true
    → channel_is s.channel_id d ≡ true
unfolding step release_primary hand_over
step-keeps s (releases c) d n h = ground (arith, h)
step-keeps s (sends now id w t o b) d n h = ground (arith, h)
step-keeps s (expires id) d n h = h
step-keeps s (opens c) d n h = ground (arith, n)
step-keeps s (closes c) d n h = ground (arith, n)
step-keeps s (receives tx now c m) d n h = ground (arith, n)

steps-keeps :
    (es : List Event) (s : DvcSharedState) (d : ℕ)
    → All IsOfOthers es
    → channel_is (steps es s).channel_id d ≡ true
    → channel_is s.channel_id d ≡ true
unfolding steps
steps-keeps [] s d n h = h
steps-keeps (e ∷ es) s d n h = step-keeps s e d n.0 (steps-keeps es (step s e) d n.1 h)

refuse_stale-AllPlaced :
    (o : List ℕ) (s : DvcSharedState) (c : ℕ)
    → contains ℕ_discrete c o ≡ true
    → AllPlaced o s
    → AllPlaced o (refuse_stale s c)
refuse_stale-AllPlaced o s c live h d =
    ground (arith, live, h c, h d, contains-add ℕ_discrete d c s.extras)

accept-AllPlaced :
    (o : List ℕ) (s : DvcSharedState) (now c : ℕ) (is_extra : Bool) (g : DvcHandshake)
    → contains ℕ_discrete c o ≡ true
    → (is_extra ≡ true → (d : ℕ) → channel_is s.channel_id d ≡ true → (c == d) ≡ true)
    → AllPlaced o s
    → AllPlaced o (accept s now c is_extra g)
accept-AllPlaced o s now c true g live alone h d =
    let only = alone refl d in
    ground (arith, live, only, h c, h d, contains-discard ℕ_discrete d c s.extras)
accept-AllPlaced o s now c false g live alone h d = h d

may_promote :
    (slot : Option ℕ) (c d : ℕ) (is_extra : Bool)
    → (is_extra && not (if is_none slot then true else channel_is slot c)) ≡ false
    → is_extra ≡ true
    → channel_is slot d ≡ true
    → (c == d) ≡ true
may_promote none c d is_extra f x k = ground (arith, k)
may_promote (some p) c d is_extra f x k = ground (arith, f, x, k)

module _ (o : List ℕ) (c : ℕ) (live : contains ℕ_discrete c o ≡ true) (among : ℕ → List Event)
    (others : (i : ℕ) → All IsOfOthers (among i)) where
  handshake-AllPlaced :
      (tx : Bool) (s : DvcSharedState) (now : ℕ) (g : DvcHandshake)
      → AllPlaced o s
      → AllPlaced o (on_handshake (as_between among) tx s now c g).0
  unfolding on_handshake
  handshake-AllPlaced tx s now g h =
      let is_extra = contains ℕ_discrete c s.extras in
      let s1 = steps (among 0) s in
      let promote : Bool = if is_none s1.channel_id then true else channel_is s1.channel_id c in
      let s2 = steps (among 1) s1 in
      let h2 : AllPlaced o s2 =
        steps-AllPlaced o (among 1) s1 (others 1) (steps-AllPlaced o (among 0) s (others 0) h) in
      let P : DvcSharedState × List Effect → Type 0 = λ r. AllPlaced o r.0 in
      if_split P (not (build_id_accepted s2 g.build_id))
        (λ e. refuse_stale-AllPlaced o s2 c live h2)
        (λ e.
          if_split P (is_extra && not promote) (λ f. h2)
            (λ f.
              accept-AllPlaced o (steps (among 2) s2) now c is_extra g live
                (λ x d k.
                  let at1 =
                    steps-keeps (among 1) s1 d (others 1)
                      (steps-keeps (among 2) s2 d (others 2) k) in
                  may_promote s1.channel_id c d is_extra f x at1)
                (steps-AllPlaced o (among 2) s2 (others 2) h2)))

  process_among-AllPlaced :
      (tx : Bool) (s : DvcSharedState) (now : ℕ) (m : Option DvcProtocolMessage)
      → AllPlaced o s
      → AllPlaced o (process_among (as_between among) tx s now c m).0
  unfolding process_among on_response
  process_among-AllPlaced tx s now none h = h
  process_among-AllPlaced tx s now (some (handshake g)) h = handshake-AllPlaced tx s now g h
  process_among-AllPlaced tx s now (some (response id r)) h =
      if_either (λ (r : DvcSharedState × List Effect). AllPlaced o r.0)
        (contains ℕ_discrete c s.extras) h (steps-AllPlaced o (among 0) s (others 0) h)
  process_among-AllPlaced tx s now (some (request i n p)) h = h
  process_among-AllPlaced tx s now (some poll) h = h

-- The states that the shared state comes through when other threads act between the parts of
-- `process`, with the channels open in each.
pub data Comes (expected : Option Text) : DvcSharedState → List ℕ → Type 0 where
  begin :
      (tx notify : Bool)
      → Comes expected
          (record init { expected_build_id = expected; command_tx = tx; closed_notify = notify })
          []
  next :
      {s : DvcSharedState} {o : List ℕ} (e : Event)
      → Comes expected s o
      → Fits o e
      → Comes expected (step s e) (opened_after o e)
  processes :
      {s : DvcSharedState} {o : List ℕ} (among : ℕ → List Event) (tx : Bool) (now c : ℕ)
      (m : Option DvcProtocolMessage)
      → Comes expected s o
      → contains ℕ_discrete c o ≡ true
      → ((i : ℕ) → All IsOfOthers (among i))
      → Comes expected (process_among (as_between among) tx s now c m).0 o

-- Also when other threads release agents, hand requests over and stop waiting between the parts of
-- `process`, a channel is open exactly if it either holds the slot or is set aside, and no channel
-- does both.
pub Comes-IsPlaced :
    {expected : Option Text} {s : DvcSharedState} {o : List ℕ}
    → Comes expected s o
    → (c : ℕ) → IsPlaced s o c
unfolding contains
Comes-IsPlaced (begin tx notify) c = (refl, refl)
Comes-IsPlaced (next {s = s} {o = o} e r f) c = step-IsPlaced s o e f (Comes-IsPlaced r) c
Comes-IsPlaced (processes {s = s} {o = o} among tx now k m r live others) c =
    process_among-AllPlaced o k live among others tx s now m (Comes-IsPlaced r) c
