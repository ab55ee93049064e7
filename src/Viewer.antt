-- ===== src/Viewer.antt =====
-- crates/agent-rdp-daemon/src/ws_input.rs: what the viewer sends over its web socket, as input for
-- the remote desktop. A delta is an `i32`; arithmetic on it wraps, as in a release build.
pub mod Typing
use agent_rdp.Base.Int.{ℤ, pos, negsuc}
use agent_rdp.Keyboard.{InputEvent, keyboard, unicode}
use agent_rdp.Keyboard.Keymap.{code_to_scancode, key_to_scancode}
use agent_rdp.Mouse.{
  PointerFlags, no_flags, MouseEvent, create_mouse_event, MouseButton, left_mouse, right_mouse,
  middle_mouse, button_to_flags, MouseRequest, move_to, click, right_click, double_click,
  middle_click, drag, button_down, button_up, with_down, with_move, MouseRun, no_session,
  press_release, sent, send_batch, then_batch, two_batches, handle_mouse, max_scroll_amount,
  scroll_units, scroll_flags, create_scroll_events, handle_scroll,
}
use agent_rdp.Base.{
  ℕ, zero, suc, ◌+◌, ◌-◌, ◌*◌, ◌/◌, ◌%◌, ◌^◌, ◌≤◌, ◌<◌, min, max, ◌≡◌, refl, sym, ap, ◌∙◌, subst,
  ◌≢◌, ◌↔◌, ◌⊎◌, inl, inr, ite, Bool, true, false, not, ◌&&◌, ◌||◌, Option, none, some, List, [],
  ◌∷◌, ◌++◌, map, reverse, arith, dec_lt, dec_le, ℕ_discrete, ltb, leb, ◌==◌, if◌then◌else◌, ==_iff,
  ltb→lt, leb→le, Bool-cases, if_either, if_split, Option-cases, is_some, is_none, some_of, Result,
  Result-cases, ok, err, u32_max, u64_max, sat_add32, sat_add64, length, get_elem?, take, drop,
  length-append, length-drop, length-take, take-length, append_assoc, append-nil, reverse-cons,
  length-reverse, keep, any, all, All, All-append, length-keep-le, Text, codes, text_eq, text_eq→eq,
  text_eq_refl, text_eq_iff, Text-discrete, utf8_width, utf8_len, utf16_units, encode_utf16,
  decimal, lower, lookup, erase, insert, lookup-erase, lookup-insert, has-insert, has-erase,
  contains, discard, add, contains-discard, contains-add,
}

pub record MouseInputPayload : Type 0 where
  pub event_type : Text
  pub x : ℕ
  pub y : ℕ
  pub button : Option Text
  pub delta_x : Option ℤ
  pub delta_y : Option ℤ

pub record KeyboardInputPayload : Type 0 where
  pub event_type : Text
  pub key : Option Text
  pub code : Option Text
  pub text : Option Text

unfoldable button_str_to_flags : Option Text → PointerFlags
unfolding button_to_flags
button_str_to_flags none = button_to_flags left_mouse
button_str_to_flags (some b) =
    if text_eq b (codes "right")
    then button_to_flags right_mouse
    else if text_eq b (codes "middle")
    then button_to_flags middle_mouse
    else button_to_flags left_mouse

-- -(2 ^ 31) has no negative: negated it is itself, and its low 16 bits are 0.
unfoldable pub wheel_delta : ℤ → ℤ
wheel_delta (pos n) = pos (min n 32767)
wheel_delta (negsuc n) = if n == 0x7fffffff then pos 0 else negsuc (min (n + 1) 32767 - 1)

abbrev wheel_event : PointerFlags → (x y : ℕ) → ℤ → MouseEvent
wheel_event f x y d = record {
  flags = f;
  wheel_units = wheel_delta d;
  x_position = x;
  y_position = y;
}

abbrev wheel_events : (x y : ℕ) → Option ℤ → Option ℤ → List MouseEvent
wheel_events x y dx (some d) = wheel_event (record no_flags { vertical_wheel = true }) x y d ∷ []
wheel_events x y (some d) none =
    wheel_event (record no_flags { horizontal_wheel = true }) x y d ∷ []
wheel_events x y none none = []

unfoldable mouse_to_fastpath : MouseInputPayload → List MouseEvent
unfolding button_str_to_flags wheel_delta create_mouse_event
mouse_to_fastpath m =
    if text_eq m.event_type (codes "mousePressed")
    then create_mouse_event m.x m.y (with_down (button_str_to_flags m.button)) ∷ []
    else if text_eq m.event_type (codes "mouseReleased")
    then create_mouse_event m.x m.y (button_str_to_flags m.button) ∷ []
    else if text_eq m.event_type (codes "mouseMoved")
    then create_mouse_event m.x m.y (with_move no_flags) ∷ []
    else if text_eq m.event_type (codes "mouseWheel")
    then wheel_events m.x m.y m.delta_x m.delta_y
    else []

abbrev first_of {ℓ} : {A : Type ℓ} → Option A → Option A → Option A
first_of none b = b
first_of (some a) b = some a

abbrev looked_up : (Text → Option (ℕ × Bool)) → Option Text → Option (ℕ × Bool)
looked_up f none = none
looked_up f (some t) = f t

-- The code first, then the key.
unfoldable get_scancode_from_message : KeyboardInputPayload → Option (ℕ × Bool)
get_scancode_from_message m =
    first_of (looked_up code_to_scancode m.code) (looked_up key_to_scancode m.key)

abbrev key_event : (release : Bool) → Option (ℕ × Bool) → List InputEvent
key_event release none = []
key_event release (some k) = keyboard release k.1 k.0 ∷ []

-- `ch as u16` for each character.
unfoldable pub char_events : Text → List InputEvent
char_events [] = []
char_events (c ∷ s) = unicode false (c % 2 ^ 16) ∷ unicode true (c % 2 ^ 16) ∷ char_events s

abbrev pub text_events : Option Text → List InputEvent
text_events none = []
text_events (some t) = char_events t

unfoldable pub keyboard_to_fastpath : KeyboardInputPayload → List InputEvent
unfolding get_scancode_from_message char_events
keyboard_to_fastpath m =
    if text_eq m.event_type (codes "keyDown")
    then key_event false (get_scancode_from_message m)
    else if text_eq m.event_type (codes "keyUp")
    then key_event true (get_scancode_from_message m)
    else if text_eq m.event_type (codes "char")
    then text_events m.text
    else []
