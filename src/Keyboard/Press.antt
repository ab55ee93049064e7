-- ===== src/Keyboard/Press.antt =====
-- keyboard.rs: which keys a combination may leave held. A send that answers an error may still go
-- through, late or in part, so a key whose press or release has failed is one to doubt.
use agent_rdp.Base.{
  ℕ, suc, ◌+◌, ◌*◌, ◌≤◌, ◌≡◌, refl, sym, ap, ◌∙◌, Bool, true, false, not, ◌&&◌, ◌||◌, ◌==◌, any,
  reverse-cons, Option, none, List, [], ◌∷◌, ◌++◌, reverse, arith, if◌then◌else◌, length, take,
  length-take, append_assoc, append-nil, length-reverse, Text,
}
use agent_rdp.Keyboard.{
  InputEvent, keyboard, unicode, KeyInfo, press_combination, press_down, release_all,
}
use agent_rdp.Keyboard.Requests.{press_key_gap_ms, press_hold_ms}

-- The keys that a batch presses or releases.
abbrev keys_of : Bool → List InputEvent → List KeyInfo
keys_of up (keyboard true ext sc ∷ rest) =
    if up then (sc, ext) ∷ keys_of up rest else keys_of up rest
keys_of up (keyboard false ext sc ∷ rest) =
    if up then keys_of up rest else (sc, ext) ∷ keys_of up rest
keys_of up (unicode r u ∷ rest) = keys_of up rest
keys_of up [] = []

-- The keys whose press was confirmed, and those whose release was tried.
unfoldable pub went_down : List (List InputEvent × Bool) → List KeyInfo
went_down [] = []
went_down (batch ∷ rest) = (if batch.1 then keys_of false batch.0 else []) ++ went_down rest

unfoldable pub let_go : List (List InputEvent × Bool) → List KeyInfo
let_go [] = []
let_go (batch ∷ rest) = keys_of true batch.0 ++ let_go rest

went_down-append :
    (s t : List (List InputEvent × Bool)) → went_down (s ++ t) ≡ went_down s ++ went_down t
unfolding went_down
went_down-append [] t = refl
went_down-append (b ∷ s) t =
    ap (λ x. (if b.1 then keys_of false b.0 else []) ++ x) (went_down-append s t)
    ∙ sym (append_assoc (if b.1 then keys_of false b.0 else []) (went_down s) (went_down t))

let_go-append : (s t : List (List InputEvent × Bool)) → let_go (s ++ t) ≡ let_go s ++ let_go t
unfolding let_go
let_go-append [] t = refl
let_go-append (b ∷ s) t =
    ap (λ x. keys_of true b.0 ++ x) (let_go-append s t)
    ∙ sym (append_assoc (keys_of true b.0) (let_go s) (let_go t))

abbrev same_flag : Bool → Bool → Bool
same_flag true b = b
same_flag false b = not b

abbrev same_key : KeyInfo → KeyInfo → Bool
same_key k j = k.0 == j.0 && same_flag k.1 j.1

-- Whether a key is held after a batch.
abbrev pub held_after : KeyInfo → Bool → List InputEvent → Bool
held_after k h [] = h
held_after k h (keyboard up ext sc ∷ rest) =
    held_after k (if same_key k (sc, ext) then not up else h) rest
held_after k h (unicode r u ∷ rest) = held_after k h rest

-- Whether a key may be held after a trace, when each batch that was not confirmed may have gone
-- through or not.
unfoldable pub may_hold : KeyInfo → Bool → List (List InputEvent × Bool) → Bool
may_hold k h [] = h
may_hold k h ((events, true) ∷ rest) = may_hold k (held_after k h events) rest
may_hold k h ((events, false) ∷ rest) = may_hold k (h || held_after k h events) rest

abbrev about_key : KeyInfo → List InputEvent → Bool
about_key k [] = false
about_key k (keyboard up ext sc ∷ rest) = same_key k (sc, ext) || about_key k rest
about_key k (unicode r u ∷ rest) = about_key k rest

-- Whether a press or a release of the key was not confirmed.
unfoldable pub doubted : KeyInfo → List (List InputEvent × Bool) → Bool
doubted k [] = false
doubted k ((events, taken) ∷ rest) = (not taken && about_key k events) || doubted k rest

may_hold-append :
    (k : KeyInfo) (h : Bool) (s t : List (List InputEvent × Bool))
    → may_hold k h (s ++ t) ≡ may_hold k (may_hold k h s) t
unfolding may_hold
may_hold-append k h [] t = refl
may_hold-append k h ((events, true) ∷ s) t = may_hold-append k (held_after k h events) s t
may_hold-append k h ((events, false) ∷ s) t = may_hold-append k (h || held_after k h events) s t

doubted-append :
    (k : KeyInfo) (s t : List (List InputEvent × Bool))
    → doubted k (s ++ t) ≡ (doubted k s || doubted k t)
unfolding doubted
doubted-append k [] t = refl
doubted-append k ((events, true) ∷ s) t = doubted-append k s t
doubted-append k ((events, false) ∷ s) t = ground (arith, doubted-append k s t)

any-append : (p : KeyInfo → Bool) (xs ys : List KeyInfo) → any p (xs ++ ys) ≡ (any p xs || any p ys)
any-append p [] ys = refl
any-append p (x ∷ xs) ys = ground (arith, any-append p xs ys)

any-reverse : (p : KeyInfo → Bool) (xs : List KeyInfo) → any p (reverse xs) ≡ any p xs
any-reverse p [] = refl
any-reverse p (x ∷ xs) =
    ap (any p) (reverse-cons x xs)
    ∙ ground (arith, any-append p (reverse xs) (x ∷ []), any-reverse p xs)

module _ (answer : ℕ → Option Text) where
  press_down-holds :
      (i : ℕ) (ks : List KeyInfo) (k : KeyInfo) (h : Bool)
      → let (r, down) = press_down answer i ks in
        may_hold k h r.trace ≡ true
        → (h || doubted k r.trace || any (same_key k) (take down ks)) ≡ true
  unfolding press_down may_hold doubted
  press_down-holds i [] k h e = ground arith
  press_down-holds i (j ∷ ks) k h e =
      let rest = press_down-holds (suc i) ks k in
      ground (arith, e, rest (if same_key k j then true else h))

  release_all-holds :
      (i : ℕ) (ks : List KeyInfo) (k : KeyInfo) (h : Bool)
      → may_hold k h (release_all answer i ks).trace ≡ true
      → (doubted k (release_all answer i ks).trace || (h && not (any (same_key k) ks))) ≡ true
  unfolding release_all may_hold doubted
  release_all-holds i [] k h e = ground arith
  release_all-holds i (j ∷ ks) k h e =
      let rest = release_all-holds (suc i) ks k in
      ground (
        arith,
        e,
        rest (if same_key k j then false else h),
        rest (h || (if same_key k j then false else h)),
      )

  press_down_lem :
      (i : ℕ) (ks : List KeyInfo)
      → let (r, down) = press_down answer i ks in
        (went_down r.trace ≡ take down ks)
        × (let_go r.trace ≡ [])
        × (down ≤ length ks)
        × (r.slept ≡ press_key_gap_ms * down)
        × (r.failure ≡ none → down ≡ length ks)
  unfolding press_down went_down let_go
  press_down_lem i [] = (refl, refl, omega arith, omega arith, λ h. refl)
  press_down_lem i (k ∷ ks) = ground (arith, press_down_lem (suc i) ks)

  release_all_lem :
      (i : ℕ) (ks : List KeyInfo)
      → let r = release_all answer i ks in
        (went_down r.trace ≡ []) × (let_go r.trace ≡ ks) × (r.slept ≡ press_key_gap_ms * length ks)
  unfolding release_all went_down let_go
  release_all_lem i [] = (refl, refl, omega arith)
  release_all_lem i (k ∷ ks) = ground (arith, release_all_lem (suc i) ks)

  -- Whatever fails on the transport, a release is tried for exactly the keys whose press was
  -- confirmed, in the reverse order: they are the first keys of the combination, and all of them if
  -- nothing fails. A key that was not held may stay held only if a press or a release of it was not
  -- confirmed, whether such sends go through or not.
  pub combination_lets_go :
      (i : ℕ) (ks : List KeyInfo)
      → let r = press_combination answer i ks in
        let_go r.trace ≡ reverse (went_down r.trace)
        × ((n : ℕ) × (went_down r.trace ≡ take n ks) × (r.failure ≡ none → n ≡ length ks))
        × ((k : KeyInfo) → may_hold k false r.trace ≡ true → doubted k r.trace ≡ true)
  unfolding press_combination
  combination_lets_go i ks =
      let (pressed, down) = press_down answer i ks in
      let (pd, pl, few, slept, full) = press_down_lem i ks in
      let at = i + length pressed.trace in
      let back = reverse (take down ks) in
      let (ud, ul, slept') = release_all_lem at back in
      let ups = (release_all answer at back).trace in
      let wd : went_down (pressed.trace ++ ups) ≡ take down ks =
        cc (went_down-append pressed.trace ups, pd, ud, append-nil (take down ks)) in
      let lg : let_go (pressed.trace ++ ups) ≡ back =
        cc (let_go-append pressed.trace ups, pl, ul) in
      (
        lg ∙ ap reverse (sym wd),
        (down, wd, λ h. ground (arith, full)),
        λ k e.
            let split = sym (may_hold-append k false pressed.trace ups) ∙ e in
            let released = release_all-holds at back k (may_hold k false pressed.trace) split in
            let went = press_down-holds i ks k false in
            ground (
              arith,
              released,
              went,
              any-reverse (same_key k) (take down ks),
              doubted-append k pressed.trace ups,
            ),
      )

  -- A combination of k scancodes sleeps for 50 ms and 20 ms a scancode if nothing fails, and never
  -- longer.
  pub combination-slept :
      (i : ℕ) (ks : List KeyInfo)
      → let r = press_combination answer i ks in
        (r.slept ≤ press_hold_ms + 2 * press_key_gap_ms * length ks)
        × (r.failure ≡ none → r.slept ≡ press_hold_ms + 2 * press_key_gap_ms * length ks)
  unfolding press_combination
  combination-slept i ks =
      let (pressed, down) = press_down answer i ks in
      let lem = press_down_lem i ks in
      ground (
        arith,
        lem,
        release_all_lem (i + length pressed.trace) (reverse (take down ks)),
        length-reverse (take down ks),
        length-take down ks,
      )
