-- ===== src/Keyboard/Requests.antt =====
-- crates/agent-rdp-protocol/src/request.rs: the keyboard requests, and which are honoured.
use agent_rdp.Base.{
  ℕ, ◌+◌, ◌-◌, ◌*◌, ◌/◌, min, max, Bool, true, false, not, Option, none, some, List, [], ◌∷◌, ◌++◌,
  ltb, ◌==◌, if◌then◌else◌, Result, ok, err, u64_max, sat_add64, length, keep, Text, codes,
  encode_utf16, decimal,
}

pub data KeyboardRequest : Type 0 where
  type_text : (text : Text) (delay_ms : Option ℕ) → KeyboardRequest
  press : Text → KeyboardRequest
  press_seq : (keys : List Text) (interval_ms : Option ℕ) → KeyboardRequest
  key_down key_up paste : Text → KeyboardRequest

abbrev pub press_seq_max_ms : ℕ
press_seq_max_ms = 30000

abbrev pub press_seq_min_interval_ms : ℕ
press_seq_min_interval_ms = 5

abbrev pub press_key_gap_ms : ℕ
press_key_gap_ms = 10

abbrev pub press_hold_ms : ℕ
press_hold_ms = 50

abbrev pub default_press_seq_interval_ms : ℕ
default_press_seq_interval_ms = 40

-- `TYPE_UNITS_PER_BATCH` and, in rdp_session.rs, `UNITS_PER_BATCH`.
abbrev pub units_per_batch : ℕ
units_per_batch = 64

-- `u64::saturating_mul`.
abbrev pub sat_mul64 : ℕ → ℕ → ℕ
sat_mul64 a b = min (a * b) u64_max

abbrev pub or_default : Option ℕ → ℕ → ℕ
or_default none d = d
or_default (some n) d = n

-- `str::split`: one piece more than there are separators.
abbrev onto_first : ℕ → List Text → List Text
onto_first c [] = (c ∷ []) ∷ []
onto_first c (piece ∷ pieces) = (c ∷ piece) ∷ pieces

unfoldable pub split : ℕ → Text → List Text
split at [] = [] ∷ []
split at (c ∷ s) = if c == at then [] ∷ split at s else onto_first c (split at s)

abbrev pub is_empty {ℓ} : {A : Type ℓ} → List A → Bool
is_empty [] = true
is_empty (x ∷ xs) = false

-- What one combination costs: two scancodes for each part that is not empty.
unfoldable pub combo_hold_ms : Text → ℕ
combo_hold_ms combo =
    let parts = max (length (keep (λ p. not (is_empty p)) (split b'+' combo))) 1 in
    press_hold_ms + 4 * parts * press_key_gap_ms

unfoldable pub combos_hold_ms : List Text → ℕ
combos_hold_ms [] = 0
combos_hold_ms (combo ∷ combos) = combo_hold_ms combo + combos_hold_ms combos

unfoldable pub press_seq_hold_ms : List Text → Option ℕ → ℕ
press_seq_hold_ms keys interval_ms =
    let interval = or_default interval_ms default_press_seq_interval_ms in
    sat_add64 (sat_mul64 (length keys - 1) interval) (combos_hold_ms keys)

unfoldable pub type_hold_ms : Text → Option ℕ → ℕ
type_hold_ms text none = 0
type_hold_ms text (some delay) =
    let batches = (length (encode_utf16 text) + (units_per_batch - 1)) / units_per_batch in
    sat_mul64 (batches - 1) delay

-- The refusals of `validate_keyboard_request`; each stands for its message.
pub data KeyboardRefusal : Type 0 where
  typing_too_long no_keys interval_too_short sequence_too_long : KeyboardRefusal

unfoldable pub validate_keyboard_request : KeyboardRequest → Result KeyboardRefusal (Unit {0})
validate_keyboard_request (type_text text delay_ms) =
    if ltb press_seq_max_ms (type_hold_ms text delay_ms) then err typing_too_long else ok tt
validate_keyboard_request (press_seq keys interval_ms) =
    if is_empty keys
    then err no_keys
    else if ltb (or_default interval_ms default_press_seq_interval_ms) press_seq_min_interval_ms
    then err interval_too_short
    else if ltb press_seq_max_ms (press_seq_hold_ms keys interval_ms)
    then err sequence_too_long
    else ok tt
validate_keyboard_request _ = ok tt

-- The messages.
unfoldable pub keyboard_refusal_text : KeyboardRequest → KeyboardRefusal → Text
keyboard_refusal_text (type_text text delay_ms) why =
    codes "typing "
    ++ (decimal (length text)
        ++ (codes " characters "
            ++ (decimal (or_default delay_ms 0)
                ++ (codes "ms apart would hold the session for "
                    ++ (decimal (type_hold_ms text delay_ms / 1000)
                        ++ (codes "s, and nothing else can use it meanwhile; the limit is "
                            ++ (decimal (press_seq_max_ms / 1000)
                                ++ codes
                                    "s. Send it in several calls, or use `keyboard paste`")))))))
keyboard_refusal_text (press_seq keys interval_ms) no_keys =
    codes "a key sequence needs at least one key"
keyboard_refusal_text (press_seq keys interval_ms) interval_too_short =
    codes "interval_ms must be at least "
    ++ (decimal press_seq_min_interval_ms
        ++ codes ": below that the remote application cannot tell two presses apart")
keyboard_refusal_text (press_seq keys interval_ms) why =
    decimal (length keys)
    ++ (codes " keys "
        ++ (decimal (or_default interval_ms default_press_seq_interval_ms)
            ++ (codes "ms apart would hold the session for "
                ++ (decimal (press_seq_hold_ms keys interval_ms / 1000)
                    ++ (codes
                          "s, and the sequence holds it throughout so focus cannot move; the limit is "
                        ++ (decimal (press_seq_max_ms / 1000)
                            ++ codes "s. Split it into several calls"))))))
keyboard_refusal_text _ why = []
