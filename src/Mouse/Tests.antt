-- ===== src/Mouse/Tests.antt =====
-- Mouse requests, and the viewer's messages, at concrete values.
use agent_rdp.Base.Int.{pos, negsuc}
use agent_rdp.Keyboard.{unicode}
use agent_rdp.Keyboard.Handler.{unicode_key_events}
use agent_rdp.Mouse.{
  create_mouse_event, button_to_flags, click, send_batch, two_batches, handle_mouse,
}
use agent_rdp.Mouse.Buttons.{
  Held, after_event, after_events, after_trace, Ends, mouse_lets_go_or_says,
}
use agent_rdp.Viewer.{KeyboardInputPayload, wheel_delta, char_events, keyboard_to_fastpath}
use agent_rdp.Viewer.Typing.{char_types_utf16}
use agent_rdp.Base.{
  ℕ, ◌≡◌, refl, true, false, Option, none, some, [], ◌∷◌, ◌==◌, if◌then◌else◌, Text, codes, text_eq,
  encode_utf16,
}

abbrev nothing_held : Held
nothing_held = record { left_held = false; right_held = false; middle_held = false }

-- The second batch is not taken.
abbrev second_fails : ℕ → Option Text
second_fails i = if i == 0 then none else some (codes "gone")

mouse_lets_go_or_says_example :
    Ends (click 3 4) nothing_held (handle_mouse (λ i. true) second_fails (click 3 4))
mouse_lets_go_or_says_example =
    mouse_lets_go_or_says (λ i. true) second_fails (click 3 4) nothing_held

button_stays_held :
    after_trace 0 nothing_held (handle_mouse (λ i. true) second_fails (click 3 4)).trace
    ≡ record nothing_held { left_held = true }
unfolding handle_mouse two_batches send_batch create_mouse_event button_to_flags after_trace
    after_events after_event
button_stays_held = refl

abbrev typed : Text → KeyboardInputPayload
typed t = record { event_type = codes "char"; key = none; code = none; text = some t }

char_types_utf16_example :
    keyboard_to_fastpath (typed (codes "ab")) ≡ unicode_key_events (encode_utf16 (codes "ab"))
char_types_utf16_example = char_types_utf16 (typed (codes "ab")) (codes "ab") refl refl refl

-- U+1F600 is typed as U+F600.
emoji_is_cut :
    keyboard_to_fastpath (typed (0x1f600 ∷ [])) ≡ unicode false 0xf600 ∷ unicode true 0xf600 ∷ []
unfolding keyboard_to_fastpath char_events text_eq
emoji_is_cut = refl

least_delta : wheel_delta (negsuc 0x7fffffff) ≡ pos 0
unfolding wheel_delta
least_delta = refl
