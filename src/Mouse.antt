-- ===== src/Mouse.antt =====
-- crates/agent-rdp-daemon/src/handlers/mouse.rs and scroll.rs. Whether the session is there at the
-- i-th look, and what the transport answers to the i-th batch of events, are parameters: nothing,
-- or an error's text. Sleeps are counted in milliseconds.
pub mod Buttons
mod Tests
use agent_rdp.Base.Int.{ℤ, pos, negsuc}
use agent_rdp.Protocol.Errors.{ErrorCode, not_connected, internal_error}
use agent_rdp.Protocol.Automate.{ScrollDirection, up, down, left, right}
use agent_rdp.Base.{
  ℕ, zero, suc, ◌+◌, ◌-◌, ◌*◌, ◌/◌, ◌%◌, ◌^◌, ◌≤◌, ◌<◌, min, max, ◌≡◌, refl, sym, ap, ◌∙◌, subst,
  ◌≢◌, ◌↔◌, ◌⊎◌, inl, inr, ite, Bool, true, false, not, ◌&&◌, ◌||◌, Option, none, some, List, [],
  ◌∷◌, ◌++◌, map, reverse, arith, dec_lt, dec_le, ℕ_discrete, ltb, leb, ◌==◌, if◌then◌else◌, ==_iff,
  ltb→lt, leb→le, Bool-cases, if_either, if_split, Option-cases, is_some, is_none, some_of, Result,
  Result-cases, ok, err, u32_max, u64_max, sat_add32, sat_add64, length, get_elem?, take, drop,
  length-append, length-drop, length-take, take-length, append_assoc, append-nil, reverse-cons,
  length-reverse, keep, any, all, All, All-append, length-keep-le, Text, codes, text_eq, text_eq→eq,
  text_eq_refl, text_eq_iff, Text-discrete, utf8_width, utf8_len, utf16_units, encode_utf16,
  decimal, lower, lookup, erase, insert, lookup-erase, lookup-insert, has-insert, has-erase,
  contains, discard, add, contains-discard, contains-add,
}

-- `PointerFlags`, a flag as whether it is set.
pub record PointerFlags : Type 0 where
  pub left_button : Bool
  pub right_button : Bool
  pub middle_button_or_wheel : Bool
  pub is_down : Bool
  pub is_move : Bool
  pub vertical_wheel : Bool
  pub horizontal_wheel : Bool
  pub wheel_negative : Bool

abbrev pub no_flags : PointerFlags
no_flags = record {
  left_button = false;
  right_button = false;
  middle_button_or_wheel = false;
  is_down = false;
  is_move = false;
  vertical_wheel = false;
  horizontal_wheel = false;
  wheel_negative = false;
}

-- `MousePdu`.
pub record MouseEvent : Type 0 where
  pub flags : PointerFlags
  pub wheel_units : ℤ
  pub x_position : ℕ
  pub y_position : ℕ

unfoldable pub create_mouse_event : (x y : ℕ) → PointerFlags → MouseEvent
create_mouse_event x y flags = record {
  flags = flags;
  wheel_units = pos 0;
  x_position = x;
  y_position = y;
}

pub data MouseButton : Type 0 where
  left_mouse right_mouse middle_mouse : MouseButton

unfoldable pub button_to_flags : MouseButton → PointerFlags
button_to_flags left_mouse = record no_flags { left_button = true }
button_to_flags right_mouse = record no_flags { right_button = true }
button_to_flags middle_mouse = record no_flags { middle_button_or_wheel = true }

pub data MouseRequest : Type 0 where
  move_to click right_click double_click middle_click : (x y : ℕ) → MouseRequest
  drag : (from_x from_y to_x to_y : ℕ) → MouseRequest
  button_down button_up : MouseButton → MouseRequest

abbrev pub with_down : PointerFlags → PointerFlags
with_down f = record f { is_down = true }

abbrev pub with_move : PointerFlags → PointerFlags
with_move f = record f { is_move = true }

-- The batches that were tried and whether the send of each answered ok, the time slept, and the
-- response. A send that answers an error may have gone through in part, or go through later.
pub record MouseRun : Type 0 where
  pub trace : List (List MouseEvent × Bool)
  pub slept : ℕ
  pub response : Result (ErrorCode × Text) (Unit {0})

abbrev pub no_session : MouseRun
no_session = record {
  trace = [];
  slept = 0;
  response = err (not_connected, codes "Not connected to an RDP server");
}

-- Press and release of one button at a point.
abbrev pub press_release : (x y : ℕ) → MouseButton → List MouseEvent
press_release x y b =
    create_mouse_event x y (with_down (button_to_flags b))
    ∷ create_mouse_event x y (button_to_flags b)
    ∷ []

module _ (connected : ℕ → Bool) (answer : ℕ → Option Text) where
  abbrev pub sent : List MouseEvent → Option Text → MouseRun
  sent events none = record { trace = (events, true) ∷ []; slept = 0; response = ok tt }
  sent events (some why) = record {
    trace = (events, false) ∷ [];
    slept = 0;
    response = err (internal_error, why);
  }

  -- The i-th look at the session and one batch.
  unfoldable pub send_batch : ℕ → List MouseEvent → MouseRun
  send_batch i events = if connected i then sent events (answer i) else no_session

  abbrev pub then_batch : Result (ErrorCode × Text) (Unit {0}) → MouseRun → ℕ → MouseRun → MouseRun
  then_batch (err e) first pause second = first
  then_batch (ok u) first pause second = record {
    trace = first.trace ++ second.trace;
    slept = first.slept + pause + second.slept;
    response = second.response;
  }

  -- The lock is let go during the pause, so the session may be gone after it.
  unfoldable pub two_batches : List MouseEvent → (pause : ℕ) → List MouseEvent → MouseRun
  unfolding send_batch
  two_batches events pause others =
      let first = send_batch 0 events in then_batch first.response first pause (send_batch 1 others)

  unfoldable pub handle_mouse : MouseRequest → MouseRun
  unfolding two_batches send_batch create_mouse_event button_to_flags
  handle_mouse (click x y) =
      two_batches (create_mouse_event x y (with_down (button_to_flags left_mouse)) ∷ []) 20
        (create_mouse_event x y (button_to_flags left_mouse) ∷ [])
  handle_mouse (drag from_x from_y to_x to_y) =
      two_batches
        (create_mouse_event from_x from_y (with_move no_flags)
          ∷ create_mouse_event from_x from_y (with_down (button_to_flags left_mouse))
          ∷ [])
        50
        (create_mouse_event to_x to_y (with_move no_flags)
          ∷ create_mouse_event to_x to_y (button_to_flags left_mouse)
          ∷ [])
  handle_mouse (move_to x y) = send_batch 0 (create_mouse_event x y (with_move no_flags) ∷ [])
  handle_mouse (right_click x y) = send_batch 0 (press_release x y right_mouse)
  handle_mouse (double_click x y) =
      send_batch 0 (press_release x y left_mouse ++ press_release x y left_mouse)
  handle_mouse (middle_click x y) = send_batch 0 (press_release x y middle_mouse)
  handle_mouse (button_down b) =
      send_batch 0 (create_mouse_event 0 0 (with_move (with_down (button_to_flags b))) ∷ [])
  handle_mouse (button_up b) =
      send_batch 0 (create_mouse_event 0 0 (with_move (button_to_flags b)) ∷ [])

-- scroll.rs.
abbrev pub max_scroll_amount : ℕ
max_scroll_amount = 100

abbrev pub scroll_units : ScrollDirection → ℤ
scroll_units up = pos 120
scroll_units down = negsuc 119
scroll_units right = pos 120
scroll_units left = negsuc 119

abbrev pub scroll_flags : ScrollDirection → PointerFlags
scroll_flags up = record no_flags { vertical_wheel = true }
scroll_flags down = record no_flags { vertical_wheel = true; wheel_negative = true }
scroll_flags right = record no_flags { horizontal_wheel = true }
scroll_flags left = record no_flags { horizontal_wheel = true; wheel_negative = true }

-- One event a notch.
unfoldable pub create_scroll_events : (x y : ℕ) → ScrollDirection → ℕ → List MouseEvent
create_scroll_events x y d zero = []
create_scroll_events x y d (suc n) =
    record { flags = scroll_flags d; wheel_units = scroll_units d; x_position = x; y_position = y }
    ∷ create_scroll_events x y d n

abbrev or_middle : Option ℕ → ℕ → ℕ
or_middle none extent = extent / 2
or_middle (some x) extent = x

module _ (connected : ℕ → Bool) (answer : ℕ → Option Text) (width height : ℕ) where
  unfoldable pub handle_scroll : ScrollDirection → (amount : ℕ) → (x y : Option ℕ) → MouseRun
  unfolding send_batch create_scroll_events
  handle_scroll d amount x y = send_batch connected answer 0 (
      create_scroll_events (or_middle x width) (or_middle y height) d
        (min (max amount 1) max_scroll_amount))
