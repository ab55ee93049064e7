-- ===== src/Keyboard/Tests.antt =====
-- Runs of the keyboard handler on concrete keys.
use agent_rdp.Base.{
  ℕ, ◌+◌, ◌-◌, ◌*◌, ◌/◌, ◌≤◌, ◌≡◌, refl, true, false, Option, none, some, List, [], ◌∷◌, reverse,
  ltb, if◌then◌else◌, ok, err, length, take, Text, codes, text_eq, encode_utf16,
}
use agent_rdp.Protocol.Errors.{invalid_request}
use agent_rdp.Keyboard.Keymap.{find, lower_char, to_lowercase, key_to_scancode, key_to_scancode_seq}
use agent_rdp.Keyboard.Keymap.Table.{scancodes}
use agent_rdp.Keyboard.Keymap.Names.{shifted_symbols}
use agent_rdp.Keyboard.Keymap.Coverage.{IsMakeCode, key_to_scancode-IsMakeCode}
use agent_rdp.Keyboard.{
  parse_key_combination, parse_parts, trim, trim_start, press_combination, KeyInfo,
}
use agent_rdp.Keyboard.Press.{may_hold, doubted, went_down, let_go, combination_lets_go}
use agent_rdp.Keyboard.Sequences.{sequence_is_bounded, typing_takes_its_time}
use agent_rdp.Keyboard.Requests.{type_text, press_seq, press_seq_max_ms, units_per_batch, split}
use agent_rdp.Keyboard.Handler.{handle}

-- The transport takes the first two batches.
abbrev breaks : ℕ → Option Text
breaks i = if ltb i 2 then none else some (codes "closed")

abbrev in_time : ℕ → Option Text
in_time i = none

abbrev ctrl_shift_1 : List KeyInfo
ctrl_shift_1 = (0x1d, false) ∷ (0x2a, false) ∷ (0x02, false) ∷ []

read : parse_key_combination (codes "Ctrl + !") ≡ ok ctrl_shift_1
unfolding parse_key_combination parse_parts split trim trim_start key_to_scancode_seq
    key_to_scancode find scancodes shifted_symbols text_eq to_lowercase lower_char
read = refl

-- The separator is itself a shifted symbol, so it cannot be pressed.
plus_is_not_read : parse_key_combination (codes "+") ≡ err (codes "Unknown key: ")
unfolding parse_key_combination parse_parts split trim trim_start key_to_scancode_seq
    key_to_scancode find scancodes shifted_symbols text_eq to_lowercase lower_char
plus_is_not_read = refl

key_to_scancode-IsMakeCode_example : IsMakeCode (0x1c, true)
unfolding key_to_scancode find scancodes text_eq to_lowercase lower_char
key_to_scancode-IsMakeCode_example =
    key_to_scancode-IsMakeCode (codes "NumpadEnter") (0x1c, true) refl

combination_lets_go_example :
    let r = press_combination breaks 0 ctrl_shift_1 in
    let_go r.trace ≡ reverse (went_down r.trace)
    × ((n : ℕ) × (went_down r.trace ≡ take n ctrl_shift_1)
        × (r.failure ≡ none → n ≡ length ctrl_shift_1))
    × ((k : KeyInfo) → may_hold k false r.trace ≡ true → doubted k r.trace ≡ true)
combination_lets_go_example = combination_lets_go breaks 0 ctrl_shift_1

sequence_is_bounded_example :
    let (r, response) =
      handle breaks in_time true none (press_seq (codes "left" ∷ codes "ctrl+c" ∷ []) none) in
    (r.slept ≤ press_seq_max_ms) × ((m : Text) → response ≡ err (invalid_request, m) → r.trace ≡ [])
sequence_is_bounded_example =
    sequence_is_bounded breaks in_time true none (codes "left" ∷ codes "ctrl+c" ∷ []) none

typing_takes_its_time_example :
    let (r, response) = handle in_time in_time true none (type_text (codes "hello") (some 500)) in
    (response ≡ ok tt)
    × (r.slept
        ≡ 500
          * ((length (encode_utf16 (codes "hello")) + (units_per_batch - 1)) / units_per_batch - 1))
typing_takes_its_time_example =
    typing_takes_its_time in_time in_time none (codes "hello") 500 (λ n. refl) (λ n. refl)
