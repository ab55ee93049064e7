-- ===== src/Viewer/Typing.antt =====
-- ws_input.rs: typed text, against the typing of keyboard requests.
use agent_rdp.Keyboard.{unicode}
use agent_rdp.Keyboard.Handler.{unicode_key_events}
use agent_rdp.Viewer.{KeyboardInputPayload, char_events, text_events, keyboard_to_fastpath}
use agent_rdp.Base.{
  ℕ, ◌%◌, ◌^◌, ◌<◌, ◌≡◌, refl, sym, ap, ◌∙◌, true, false, some, [], ◌∷◌, ◌++◌, arith, ltb, all,
  Text, codes, text_eq, utf16_units, encode_utf16,
}

one_unit : (c : ℕ) → c < 0x10000 → utf16_units c ≡ c ∷ []
unfolding utf16_units
one_unit c h = ground (arith, h)

char_events-utf16 :
    (t : Text)
    → all (λ c. ltb c 0x10000) t ≡ true
    → char_events t ≡ unicode_key_events (encode_utf16 t)
unfolding char_events unicode_key_events encode_utf16 utf16_units
char_events-utf16 [] h = refl
char_events-utf16 (c ∷ t) h =
    let lt : c < 0x10000 = ground (arith, h) in
    let rest : all (λ x. ltb x 0x10000) t ≡ true = ground (arith, h) in
    let low : c % 2 ^ 16 ≡ c = omega (arith, lt) in
    ap (λ u. unicode false u ∷ unicode true u ∷ char_events t) low
    ∙ ap (λ es. unicode false c ∷ unicode true c ∷ es) (char_events-utf16 t rest)
    ∙ ap (λ us. unicode_key_events (us ++ encode_utf16 t)) (sym (one_unit c lt))

-- The text of a char message whose characters are all of the basic plane is typed just as a
-- keyboard request types it: each UTF-16 unit is pressed and released.
pub char_types_utf16 :
    (m : KeyboardInputPayload) (t : Text)
    → m.event_type ≡ codes "char"
    → m.text ≡ some t
    → all (λ c. ltb c 0x10000) t ≡ true
    → keyboard_to_fastpath m ≡ unicode_key_events (encode_utf16 t)
unfolding keyboard_to_fastpath text_eq
char_types_utf16 m t e f h =
    ap (λ x. keyboard_to_fastpath (record m { event_type = x })) e
    ∙ ap text_events f
    ∙ char_events-utf16 t h
