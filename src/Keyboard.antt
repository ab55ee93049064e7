-- ===== src/Keyboard.antt =====
-- crates/agent-rdp-daemon/src/handlers/keyboard.rs, with keymap.rs and the keyboard requests of
-- crates/agent-rdp-protocol/src/request.rs. What the transport answers to the i-th batch of
-- events is a parameter: nothing, or an error's text. Sleeps are counted in milliseconds.
pub mod Keymap
pub mod Requests
pub mod Handler
pub mod Press
pub mod Sequences
mod Tests
use agent_rdp.Base.{
  ℕ, suc, ◌+◌, Bool, true, false, ◌&&◌, ◌||◌, Option, none, some, List, [], ◌∷◌, ◌++◌, reverse, leb,
  ◌==◌, if◌then◌else◌, is_none, Result, ok, err, length, take, Text, codes,
}
use agent_rdp.Keyboard.Keymap.{key_to_scancode_seq, to_lowercase}
use agent_rdp.Protocol.Errors.{
  ErrorCode, not_connected, invalid_request, internal_error, clipboard_error,
}
use agent_rdp.Keyboard.Requests.{
  KeyboardRequest, type_text, press, press_seq, key_down, key_up, paste, validate_keyboard_request,
  KeyboardRefusal, default_press_seq_interval_ms, units_per_batch, split, press_key_gap_ms,
  press_hold_ms,
}

-- `FastPathInputEvent`, as far as the daemon makes it here.
pub data InputEvent : Type 0 where
  keyboard : (release extended : Bool) (scancode : ℕ) → InputEvent
  unicode : (release : Bool) (unit : ℕ) → InputEvent

abbrev pub KeyInfo : Type 0
KeyInfo = ℕ × Bool

abbrev pub create_key_event_ext : KeyInfo → Bool → InputEvent
create_key_event_ext k release = keyboard release k.1 k.0

-- `str::trim`: the characters with the property White_Space.
abbrev pub is_whitespace : ℕ → Bool
is_whitespace c =
    (leb 9 c && leb c 13)
    || c == 32
    || c == 0x85
    || c == 0xa0
    || c == 0x1680
    || (leb 0x2000 c && leb c 0x200a)
    || c == 0x2028
    || c == 0x2029
    || c == 0x202f
    || c == 0x205f
    || c == 0x3000

unfoldable pub trim_start : Text → Text
trim_start [] = []
trim_start (c ∷ s) = if is_whitespace c then trim_start s else c ∷ s

unfoldable pub trim : Text → Text
unfolding trim_start
trim s = reverse (trim_start (reverse (trim_start s)))

abbrev pub unknown_key : Text → Text
unknown_key key = codes "Unknown key: " ++ key

-- The loop of `parse_key_combination`.
unfoldable pub parse_parts : List Text → Result Text (List KeyInfo)
parse_parts [] = ok []
parse_parts (part ∷ parts) =
    let key = to_lowercase (trim part) in
    elim (key_to_scancode_seq key) [
      | none ↦ err (unknown_key key)
      | some seq ↦ elim (parse_parts parts) [ err e ↦ err e | ok infos ↦ ok (seq ++ infos) ]
    ]

unfoldable pub parse_key_combination : Text → Result Text (List KeyInfo)
parse_key_combination keys = parse_parts (split b'+' keys)

-- What was tried on the transport: the batches and whether the send of each answered ok, the time
-- slept, and the first error. A send that answers an error may still go through, late or in part.
pub record Run : Type 0 where
  pub trace : List (List InputEvent × Bool)
  pub slept : ℕ
  pub failure : Option Text

abbrev pub idle : Run
idle = record { trace = []; slept = 0; failure = none }

abbrev pub then_run : List (List InputEvent × Bool) → ℕ → Run → Run
then_run t n r = record r { trace = t ++ r.trace; slept = n + r.slept }

module _ (answer : ℕ → Option Text) where
  -- `send_input`, as the i-th batch.
  abbrev pub taken : ℕ → Bool
  taken i = is_none (answer i)

  -- The key-downs, up to the first that fails, and how many were confirmed.
  unfoldable pub press_down : ℕ → List KeyInfo → Run × ℕ
  press_down i [] = (idle, 0)
  press_down i (k ∷ ks) =
      let event = create_key_event_ext k false ∷ [] in
      let (rest, down) = press_down (suc i) ks in
      elim (answer i) [
        | some why ↦ (record { trace = (event, false) ∷ []; slept = 0; failure = some why }, 0)
        | none ↦ (then_run ((event, true) ∷ []) press_key_gap_ms rest, suc down)
      ]

  -- The key-ups: each is tried, and the first error is kept.
  unfoldable pub release_all : ℕ → List KeyInfo → Run
  release_all i [] = idle
  release_all i (k ∷ ks) =
      let event = create_key_event_ext k true ∷ [] in
      let rest = release_all (suc i) ks in
      elim (answer i) [
        | some why ↦ record (then_run ((event, false) ∷ []) press_key_gap_ms rest) {
          failure = some why;
        }
        | none ↦ then_run ((event, true) ∷ []) press_key_gap_ms rest
      ]

  abbrev first_error : Option Text → Option Text → Option Text
  first_error none e = e
  first_error (some why) e = some why

  unfoldable pub press_combination : ℕ → List KeyInfo → Run
  unfolding press_down release_all
  press_combination i infos =
      let (pressed, down) = press_down i infos in
      let held = if is_none pressed.failure then press_hold_ms else 0 in
      let ups = release_all (i + length pressed.trace) (reverse (take down infos)) in
      record (then_run pressed.trace (pressed.slept + held) ups) {
        failure = first_error pressed.failure ups.failure;
      }
