-- ===== src/Keyboard/Handler.antt =====
-- crates/agent-rdp-daemon/src/handlers/keyboard.rs (`handle`, `handle_paste`) and
-- rdp_session.rs (`send_text`). Whether the time of `send_text` has run out before a batch is a
-- parameter, as the text of that error.
use agent_rdp.Base.{
  ℕ, zero, suc, ◌+◌, Bool, true, false, Option, none, some, List, [], ◌∷◌, ◌++◌, map, reverse, ◌==◌,
  if◌then◌else◌, is_none, Result, ok, err, length, take, drop, Text, codes, encode_utf16, decimal,
}
use agent_rdp.Protocol.Errors.{
  ErrorCode, not_connected, invalid_request, internal_error, clipboard_error,
}
use agent_rdp.Keyboard.Keymap.{key_to_scancode_seq}
use agent_rdp.Keyboard.{
  InputEvent, keyboard, unicode, KeyInfo, create_key_event_ext, Run, idle, then_run,
  press_combination, parse_key_combination, unknown_key,
}
use agent_rdp.Keyboard.Requests.{
  KeyboardRequest, type_text, press, press_seq, key_down, key_up, paste, validate_keyboard_request,
  keyboard_refusal_text, default_press_seq_interval_ms, units_per_batch, or_default,
}

-- `slice::chunks`; a list has no more chunks than items.
unfoldable pub chunks_on : (fuel : ℕ) → List ℕ → List (List ℕ)
chunks_on zero units = []
chunks_on (suc f) [] = []
chunks_on (suc f) (u ∷ units) =
    take units_per_batch (u ∷ units) ∷ chunks_on f (drop units_per_batch (u ∷ units))

abbrev pub chunks : List ℕ → List (List ℕ)
chunks units = chunks_on (length units) units

-- Press and release of each code unit.
unfoldable pub unicode_key_events : List ℕ → List InputEvent
unicode_key_events [] = []
unicode_key_events (u ∷ units) = unicode false u ∷ unicode true u ∷ unicode_key_events units

-- All combinations are read before one is sent.
unfoldable pub parse_all : List Text → Result Text (List (List KeyInfo))
parse_all [] = ok []
parse_all (keys ∷ rest) = elim (parse_key_combination keys) [
  | err e ↦ err e
  | ok infos ↦ elim (parse_all rest) [ err e ↦ err e | ok combos ↦ ok (infos ∷ combos) ]
]

abbrev pub Response : Type 0
Response = Result (ErrorCode × Text) (Unit {0})

abbrev pub response_of : Run → Response
response_of r = elim r.failure [ none ↦ ok tt | some why ↦ err (internal_error, why) ]

-- An answer with nothing sent.
abbrev pub refused : ErrorCode → Text → Run × Response
refused code message = (idle, err (code, message))

module _ (answer late : ℕ → Option Text) where
  -- `send_text`, from the i-th batch on.
  unfoldable pub send_chunks : ℕ → Option ℕ → List (List ℕ) → Run
  send_chunks i delay_ms [] = idle
  send_chunks i delay_ms (chunk ∷ rest) =
      let pause = if i == 0 then 0 else or_default delay_ms 0 in
      let event = unicode_key_events chunk in
      let others = send_chunks (suc i) delay_ms rest in
      elim (late i) [
        | some why ↦ record { trace = []; slept = pause; failure = some why }
        | none ↦ elim (answer i) [
          | some why ↦ record { trace = (event, false) ∷ []; slept = pause; failure = some why }
          | none ↦ then_run ((event, true) ∷ []) pause others
        ]
      ]

  unfoldable pub send_text : Text → Option ℕ → Run
  unfolding send_chunks
  send_text text delay_ms = send_chunks 0 delay_ms (chunks (encode_utf16 text))

  -- The combinations of a sequence, `sent` of `total` before them.
  unfoldable pub press_each : (i sent total interval : ℕ) → List (List KeyInfo) → Run
  press_each i sent total interval [] = idle
  press_each i sent total interval (infos ∷ rest) =
      let pause = if sent == 0 then 0 else interval in
      let r = press_combination answer i infos in
      let others = press_each (i + length r.trace) (suc sent) total interval rest in
      elim r.failure [
        | some why ↦ record r {
          slept = pause + r.slept;
          failure = some (
              why
              ++ (codes " (sent "
                  ++ (decimal sent ++ (codes " of " ++ (decimal total ++ codes " keys)")))));
        }
        | none ↦ then_run r.trace (pause + r.slept) others
      ]

  unfoldable pub send_once : List InputEvent → Run
  send_once events = record {
    trace = (events, is_none (answer 0)) ∷ [];
    slept = 0;
    failure = answer 0;
  }

  abbrev ctrl_v : Bool → List InputEvent
  ctrl_v release =
      if release
      then keyboard true false 0x2f ∷ keyboard true false 0x1d ∷ []
      else keyboard false false 0x1d ∷ keyboard false false 0x2f ∷ []

  unfoldable pub pasted : Run
  pasted = elim (answer 0) [
    | some why ↦ record { trace = (ctrl_v false, false) ∷ []; slept = 0; failure = some why }
    | none ↦ record {
      trace = (ctrl_v false, true) ∷ (ctrl_v true, is_none (answer 1)) ∷ [];
      slept = 10;
      failure = answer 1;
    }
  ]

  unfoldable pub handle_paste : (clipboard : Option Text) → Run × Response
  unfolding pasted
  handle_paste (some why) = refused clipboard_error (codes "Failed to set clipboard: " ++ why)
  handle_paste none = (pasted, response_of pasted)

  abbrev sent : Run → Run × Response
  sent r = (r, response_of r)

  abbrev when_connected : Bool → Run × Response → Run × Response
  when_connected connected r =
      if connected then r else refused not_connected (codes "Not connected to an RDP server")

  unfoldable pub handle :
      (connected : Bool) (clipboard : Option Text) → KeyboardRequest → Run × Response
  unfolding send_text press_each send_once handle_paste
  handle connected clipboard (type_text text delay_ms) =
      when_connected connected (sent (send_text text delay_ms))
  handle connected clipboard (paste text) = when_connected connected (handle_paste clipboard)
  handle connected clipboard (press keys) = elim (parse_key_combination keys) [
    | err e ↦ refused invalid_request e
    | ok infos ↦ when_connected connected (sent (press_combination answer 0 infos))
  ]
  handle connected clipboard (press_seq keys interval_ms) =
      elim (validate_keyboard_request (press_seq keys interval_ms)) [
        | err why ↦ refused invalid_request (keyboard_refusal_text (press_seq keys interval_ms) why)
        | ok u ↦ elim (parse_all keys) [
          | err e ↦ refused invalid_request (e ++ codes " (nothing was sent)")
          | ok combos ↦ when_connected connected (
              sent (
                press_each 0 0 (length combos)
                  (or_default interval_ms default_press_seq_interval_ms) combos))
        ]
      ]
  handle connected clipboard (key_down key) =
      when_connected connected (elim (key_to_scancode_seq key) [
        | none ↦ refused invalid_request (unknown_key key)
        | some seq ↦ sent (send_once (map (λ k. create_key_event_ext k false) seq))
      ])
  handle connected clipboard (key_up key) =
      when_connected connected (elim (key_to_scancode_seq key) [
        | none ↦ refused invalid_request (unknown_key key)
        | some seq ↦ sent (send_once (map (λ k. create_key_event_ext k true) (reverse seq)))
      ])
