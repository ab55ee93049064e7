-- ===== src/Mouse/Buttons.antt =====
-- mouse.rs: which buttons are held down after a request.
use agent_rdp.Protocol.Errors.{ErrorCode}
use agent_rdp.Mouse.{
  MouseEvent, create_mouse_event, MouseButton, left_mouse, right_mouse, middle_mouse,
  button_to_flags, MouseRequest, move_to, click, right_click, double_click, middle_click, drag,
  button_down, button_up, MouseRun, sent, send_batch, then_batch, two_batches, handle_mouse,
}
use agent_rdp.Base.{
  ℕ, ◌+◌, ◌≡◌, refl, sym, ap, ◌∙◌, subst, Bool, true, false, Option, none, some, List, [], ◌∷◌,
  ◌++◌, take, All, suc, zero, if◌then◌else◌, if_either, ok, err, Text,
}

-- The buttons that the remote desktop takes for held.
pub record Held : Type 0 where
  pub left_held : Bool
  pub right_held : Bool
  pub middle_held : Bool

-- A button's flag with `DOWN` presses it, without releases it.
abbrev held_after : (flag is_down held : Bool) → Bool
held_after true d h = d
held_after false d h = h

unfoldable pub after_event : Held → MouseEvent → Held
after_event h e = record {
  left_held = held_after e.flags.left_button e.flags.is_down h.left_held;
  right_held = held_after e.flags.right_button e.flags.is_down h.right_held;
  middle_held = held_after e.flags.middle_button_or_wheel e.flags.is_down h.middle_held;
}

unfoldable pub after_events : Held → List MouseEvent → Held
unfolding after_event
after_events h [] = h
after_events h (e ∷ es) = after_events (after_event h e) es

-- A batch that failed may have gone through up to some event, or go through later: `reached` is how
-- many of its events do. A request stops at its first failure, so one number is enough.
unfoldable pub after_trace : (reached : ℕ) → Held → List (List MouseEvent × Bool) → Held
unfolding after_events
after_trace reached h [] = h
after_trace reached h ((events, taken) ∷ t) =
    after_trace reached (after_events h (if taken then events else take reached events)) t

unfoldable pub set_button : Bool → MouseButton → Held → Held
set_button d left_mouse h = record h { left_held = d }
set_button d right_mouse h = record h { right_held = d }
set_button d middle_mouse h = record h { middle_held = d }

-- What a request means to do to the buttons.
unfoldable pub effect : MouseRequest → Held → Held
unfolding set_button
effect (move_to x y) h = h
effect (click x y) h = set_button false left_mouse h
effect (right_click x y) h = set_button false right_mouse h
effect (double_click x y) h = set_button false left_mouse h
effect (middle_click x y) h = set_button false middle_mouse h
effect (drag a b c d) h = set_button false left_mouse h
effect (button_down b) h = set_button true b h
effect (button_up b) h = set_button false b h

-- The button that a request is about.
abbrev pub button_of : MouseRequest → Option MouseButton
button_of (move_to x y) = none
button_of (click x y) = some left_mouse
button_of (right_click x y) = some right_mouse
button_of (double_click x y) = some left_mouse
button_of (middle_click x y) = some middle_mouse
button_of (drag a b c d) = some left_mouse
button_of (button_down b) = some b
button_of (button_up b) = some b

-- What is held besides a button.
abbrev pub besides : Option MouseButton → Held → Bool × Bool × Bool
besides none h = (h.left_held, h.right_held, h.middle_held)
besides (some left_mouse) h = (false, h.right_held, h.middle_held)
besides (some right_mouse) h = (h.left_held, false, h.middle_held)
besides (some middle_mouse) h = (h.left_held, h.right_held, false)

-- The two ways a request ends, however much of a failed batch goes through.
pub data Ends (r : MouseRequest) (h : Held) (m : MouseRun) : Type 0 where
  done :
      m.response ≡ ok tt → ((reached : ℕ) → after_trace reached h m.trace ≡ effect r h) → Ends r h m
  failed :
      (e : ErrorCode × Text)
      → m.response ≡ err e
      → ((reached : ℕ)
          → besides (button_of r) (after_trace reached h m.trace) ≡ besides (button_of r) h)
      → Ends r h m

abbrev IsAbout : Option MouseButton → MouseEvent → Type 0
IsAbout b e = (h : Held) → besides b (after_event h e) ≡ besides b h

after_events-besides :
    (b : Option MouseButton) (events : List MouseEvent) (n : ℕ) (h : Held)
    → All (IsAbout b) events
    → besides b (after_events h (take n events)) ≡ besides b h
unfolding after_events
after_events-besides b events zero h a = refl
after_events-besides b [] (suc n) h a = refl
after_events-besides b (e ∷ es) (suc n) h a =
    after_events-besides b es n (after_event h e) a.1 ∙ a.0 h

module _ (connected : ℕ → Bool) (answer : ℕ → Option Text) where
  sent-Ends :
      (r : MouseRequest) (h : Held) (o : Option Text) (events : List MouseEvent)
      → after_events h events ≡ effect r h
      → All (IsAbout (button_of r)) events
      → Ends r h (sent connected answer events o)
  unfolding after_trace
  sent-Ends r h none events e a = done refl (λ n. e)
  sent-Ends r h (some why) events e a =
      failed _ refl (λ n. after_events-besides (button_of r) events n h a)

  batch-Ends :
      (r : MouseRequest) (h : Held) (i : ℕ) (events : List MouseEvent)
      → after_events h events ≡ effect r h
      → All (IsAbout (button_of r)) events
      → Ends r h (send_batch connected answer i events)
  unfolding send_batch after_trace
  batch-Ends r h i events e a =
      if_either (Ends r h) (connected i) (sent-Ends r h (answer i) events e a)
        (failed _ refl (λ n. refl))

  after_trace-append :
      (n : ℕ) (h : Held) (t u : List (List MouseEvent × Bool))
      → after_trace n h (t ++ u) ≡ after_trace n (after_trace n h t) u
  unfolding after_trace
  after_trace-append n h [] u = refl
  after_trace-append n h ((events, taken) ∷ t) u =
      after_trace-append n (after_events h (if taken then events else take n events)) t u

  -- The second batch, after a first one that presses the left button.
  second-Ends :
      (r : MouseRequest) (h : Held) (t : List (List MouseEvent × Bool)) (m : MouseRun) (n : ℕ)
      → button_of r ≡ some left_mouse
      → effect r h ≡ set_button false left_mouse h
      → ((k : ℕ) → after_trace k h t ≡ set_button true left_mouse h)
      → Ends (button_up left_mouse) (set_button true left_mouse h) m
      → Ends r h (record { trace = t ++ m.trace; slept = n; response = m.response })
  unfolding effect
  second-Ends r h t m n p q e (done a b) = done a (λ k.
      after_trace-append k h t m.trace ∙ ap (λ g. after_trace k g m.trace) (e k) ∙ b k ∙ sym q)
  second-Ends r h t m n p q e (failed x a b) = failed x a (λ k.
      ap (besides (button_of r))
        (after_trace-append k h t m.trace ∙ ap (λ g. after_trace k g m.trace) (e k))
      ∙ ap (λ o. besides o (after_trace k (set_button true left_mouse h) m.trace)) p
      ∙ b k
      ∙ sym (ap (λ o. besides o h) p))

  first-Ends :
      (r : MouseRequest) (h : Held) (first : MouseRun) (pause : ℕ) (second : MouseRun)
      → button_of r ≡ some left_mouse
      → effect r h ≡ set_button false left_mouse h
      → Ends (button_down left_mouse) h first
      → Ends (button_up left_mouse) (set_button true left_mouse h) second
      → Ends r h (then_batch connected answer first.response first pause second)
  unfolding effect
  first-Ends r h first pause second p q (done a b) e =
      subst (λ v. Ends r h (then_batch connected answer v first pause second)) (sym a)
        (second-Ends r h first.trace second (first.slept + pause + second.slept) p q b e)
  first-Ends r h first pause second p q (failed x a b) e =
      subst (λ v. Ends r h (then_batch connected answer v first pause second)) (sym a)
        (failed x a (λ k.
          ap (λ o. besides o (after_trace k h first.trace)) p
          ∙ b k
          ∙ sym (ap (λ o. besides o h) p)))

  -- A request that is answered ok does to the buttons what it means to - a click or a drag leaves
  -- its button up, and so on - and nothing else; one that is answered by an error may leave its own
  -- button in either state, and no other button differs, however much of the failed batch goes
  -- through.
  pub mouse_lets_go_or_says :
      (r : MouseRequest) (h : Held) → Ends r h (handle_mouse connected answer r)
  unfolding handle_mouse two_batches effect set_button after_events after_event create_mouse_event
      button_to_flags
  mouse_lets_go_or_says (move_to x y) h = batch-Ends (move_to x y) h 0 _ refl ((λ g. refl), tt)
  mouse_lets_go_or_says (click x y) h =
      first-Ends (click x y) h (send_batch connected answer 0 _) 20
        (send_batch connected answer 1 _) refl refl
        (batch-Ends (button_down left_mouse) h 0 _ refl ((λ g. refl), tt))
        (batch-Ends (button_up left_mouse) (set_button true left_mouse h) 1 _ refl
          ((λ g. refl), tt))
  mouse_lets_go_or_says (drag a b c d) h =
      first-Ends (drag a b c d) h (send_batch connected answer 0 _) 50
        (send_batch connected answer 1 _) refl refl
        (batch-Ends (button_down left_mouse) h 0 _ refl ((λ g. refl), ((λ g. refl), tt)))
        (batch-Ends (button_up left_mouse) (set_button true left_mouse h) 1 _ refl
          ((λ g. refl), ((λ g. refl), tt)))
  mouse_lets_go_or_says (right_click x y) h =
      batch-Ends (right_click x y) h 0 _ refl ((λ g. refl), ((λ g. refl), tt))
  mouse_lets_go_or_says (double_click x y) h =
      batch-Ends (double_click x y) h 0 _ refl
        ((λ g. refl), ((λ g. refl), ((λ g. refl), ((λ g. refl), tt))))
  mouse_lets_go_or_says (middle_click x y) h =
      batch-Ends (middle_click x y) h 0 _ refl ((λ g. refl), ((λ g. refl), tt))
  mouse_lets_go_or_says (button_down left_mouse) h =
      batch-Ends (button_down left_mouse) h 0 _ refl ((λ g. refl), tt)
  mouse_lets_go_or_says (button_down right_mouse) h =
      batch-Ends (button_down right_mouse) h 0 _ refl ((λ g. refl), tt)
  mouse_lets_go_or_says (button_down middle_mouse) h =
      batch-Ends (button_down middle_mouse) h 0 _ refl ((λ g. refl), tt)
  mouse_lets_go_or_says (button_up left_mouse) h =
      batch-Ends (button_up left_mouse) h 0 _ refl ((λ g. refl), tt)
  mouse_lets_go_or_says (button_up right_mouse) h =
      batch-Ends (button_up right_mouse) h 0 _ refl ((λ g. refl), tt)
  mouse_lets_go_or_says (button_up middle_mouse) h =
      batch-Ends (button_up middle_mouse) h 0 _ refl ((λ g. refl), tt)
