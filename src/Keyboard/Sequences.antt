-- ===== src/Keyboard/Sequences.antt =====
-- keyboard.rs and request.rs: the pauses that typing and key sequences make.
use agent_rdp.Base.{
  ℕ, zero, suc, ◌+◌, ◌-◌, ◌*◌, ◌/◌, ◌≤◌, ◌≡◌, refl, inl, inr, Bool, true, not, Option, none, some,
  List, [], ◌∷◌, arith, Option-cases, Result-cases, ok, err, length, drop, length-append,
  length-drop, keep, Text, text_eq, encode_utf16,
}
use native.Mathlib.Nat.{mul-suc, mul_comm}
use agent_rdp.Protocol.Errors.{invalid_request}
use agent_rdp.Keyboard.Keymap.{key_to_scancode_seq, to_lowercase, find, key_to_scancode}
use agent_rdp.Keyboard.Keymap.Table.{scancodes}
use agent_rdp.Keyboard.Keymap.Names.{shifted_symbols}
use agent_rdp.Keyboard.Keymap.Coverage.{key_to_scancode_seq-IsShort}
use agent_rdp.Keyboard.{
  KeyInfo, parse_parts, parse_key_combination, trim, trim_start, press_combination,
}
use agent_rdp.Keyboard.Requests.{
  type_text, press_seq, press_seq_max_ms, combo_hold_ms, combos_hold_ms, press_seq_hold_ms,
  validate_keyboard_request, or_default, default_press_seq_interval_ms, is_empty, split,
  units_per_batch,
}
use agent_rdp.Keyboard.Handler.{
  chunks, chunks_on, parse_all, send_chunks, send_text, press_each, handle,
}
use agent_rdp.Keyboard.Press.{combination-slept}

empty_is_unknown : key_to_scancode_seq (to_lowercase (trim [])) ≡ none
unfolding key_to_scancode_seq key_to_scancode find scancodes shifted_symbols text_eq to_lowercase
    trim trim_start
empty_is_unknown = refl

short : (key : Text) (ks : List KeyInfo) → key_to_scancode_seq key ≡ some ks → length ks ≤ 2
short key ks h = let (sc, shape, made) = key_to_scancode_seq-IsShort key ks h in ground arith

parse_parts-short :
    (parts : List Text) (infos : List KeyInfo)
    → parse_parts parts ≡ ok infos
    → length infos ≤ 2 * length (keep (λ p. not (is_empty p)) parts)
unfolding parse_parts
parse_parts-short [] infos h = ground arith
parse_parts-short ([] ∷ parts) infos h = ground (arith, empty_is_unknown)
parse_parts-short ((c ∷ s) ∷ parts) infos h =
    let key = to_lowercase (trim (c ∷ s)) in
    elim (Option-cases (key_to_scancode_seq key)) [
      | inl e ↦ ground arith
      | inr (ks, e) ↦ elim (Result-cases (parse_parts parts)) [
        | inr (why, f) ↦ ground arith
        | inl (rest, f) ↦
            ground (arith, short key ks e, parse_parts-short parts rest f, length-append ks rest)
      ]
    ]

-- A combination that can be read is pressed for no longer than it is charged.
combo-slept :
    (answer : ℕ → Option Text) (i : ℕ) (combo : Text) (infos : List KeyInfo)
    → parse_key_combination combo ≡ ok infos
    → (press_combination answer i infos).slept ≤ combo_hold_ms combo
unfolding parse_key_combination combo_hold_ms
combo-slept answer i combo infos h =
    let few = parse_parts-short (split b'+' combo) infos h in
    ground (arith, combination-slept answer i infos)

module _ (answer late : ℕ → Option Text) where
  -- After the first combination, each costs an interval too.
  press_each-slept :
      (i sent total interval : ℕ) (keys : List Text) (combos : List (List KeyInfo))
      → parse_all keys ≡ ok combos
      → (press_each answer late i (suc sent) total interval combos).slept
        ≤ interval * length keys + combos_hold_ms keys
  unfolding press_each parse_all combos_hold_ms
  press_each-slept i sent total interval [] combos h = ground arith
  press_each-slept i sent total interval (k ∷ keys) combos h =
      elim (Result-cases (parse_key_combination k)) [
        | inr (why, e) ↦ ground arith
        | inl (infos, e) ↦ elim (Result-cases (parse_all keys)) [
          | inr (why, f) ↦ ground arith
          | inl (rest, f) ↦
              (let next = i + length (press_combination answer i infos).trace in
                ground (
                  arith,
                  combo-slept answer i k infos e,
                  press_each-slept next (suc sent) total interval keys rest f,
                  mul-suc interval (length keys),
                ))
        ]
      ]

  sequence-slept :
      (interval : ℕ) (total : ℕ) (keys : List Text) (combos : List (List KeyInfo))
      → parse_all keys ≡ ok combos
      → (press_each answer late 0 0 total interval combos).slept
        ≤ interval * (length keys - 1) + combos_hold_ms keys
  unfolding press_each parse_all combos_hold_ms
  sequence-slept interval total [] combos h = ground arith
  sequence-slept interval total (k ∷ keys) combos h =
      elim (Result-cases (parse_key_combination k)) [
        | inr (why, e) ↦ ground arith
        | inl (infos, e) ↦ elim (Result-cases (parse_all keys)) [
          | inr (why, f) ↦ ground arith
          | inl (rest, f) ↦
              (let next = length (press_combination answer 0 infos).trace in
                ground (
                  arith,
                  combo-slept answer 0 k infos e,
                  press_each-slept next 0 total interval keys rest f,
                ))
        ]
      ]

  -- The pauses that a sequence of keys makes add up to 30 seconds at most, whatever the transport
  -- answers, and a sequence that is refused as invalid has sent nothing.
  pub sequence_is_bounded :
      (connected : Bool) (clipboard : Option Text) (keys : List Text) (interval_ms : Option ℕ)
      → let (r, response) = handle answer late connected clipboard (press_seq keys interval_ms) in
        (r.slept ≤ press_seq_max_ms)
        × ((m : Text) → response ≡ err (invalid_request, m) → r.trace ≡ [])
  unfolding handle validate_keyboard_request press_seq_hold_ms
  sequence_is_bounded connected clipboard keys interval_ms =
      let interval = or_default interval_ms default_press_seq_interval_ms in
      elim (Result-cases (parse_all keys)) [
        | inr (why, e) ↦ (ground arith, λ m h. ground arith)
        | inl (combos, e) ↦ (
          ground (
            arith,
            sequence-slept interval (length combos) keys combos e,
            mul_comm interval (length keys - 1),
          ),
          λ m h. ground arith,
        )
      ]

chunks_on-length :
    (f : ℕ) (units : List ℕ)
    → length units ≤ f
    → length (chunks_on f units) ≡ (length units + (units_per_batch - 1)) / units_per_batch
unfolding chunks_on
chunks_on-length zero units h = ground arith
chunks_on-length (suc f) [] h = ground arith
chunks_on-length (suc f) (u ∷ units) h =
    let left = drop units_per_batch (u ∷ units) in
    let len = length-drop units_per_batch (u ∷ units) in
    omega (arith, len, chunks_on-length f left (omega (arith, len)))

module _ (answer late : ℕ → Option Text) where
  later_chunks-slept :
      (i : ℕ) (delay : ℕ) (cs : List (List ℕ))
      → ((n : ℕ) → answer n ≡ none)
      → ((n : ℕ) → late n ≡ none)
      → let r = send_chunks answer late (suc i) (some delay) cs in
        (r.slept ≡ delay * length cs) × (r.failure ≡ none)
  unfolding send_chunks
  later_chunks-slept i delay [] ha hl = (omega arith, refl)
  later_chunks-slept i delay (c ∷ cs) ha hl = ground (
    arith,
    ha (suc i),
    hl (suc i),
    later_chunks-slept (suc i) delay cs ha hl,
    mul-suc delay (length cs),
  )

  first_chunks-slept :
      (delay : ℕ) (cs : List (List ℕ))
      → ((n : ℕ) → answer n ≡ none)
      → ((n : ℕ) → late n ≡ none)
      → let r = send_chunks answer late 0 (some delay) cs in
        (r.slept ≡ delay * (length cs - 1)) × (r.failure ≡ none)
  unfolding send_chunks
  first_chunks-slept delay [] ha hl = ground arith
  first_chunks-slept delay (c ∷ cs) ha hl =
      ground (arith, ha 0, hl 0, later_chunks-slept 0 delay cs ha hl)

  -- Typing with a delay is done whatever it costs: if the transport takes each batch in time, the
  -- daemon answers success after sleeping the delay between any two batches of 64 code units,
  -- with no bound but the request's own numbers.
  pub typing_takes_its_time :
      (clipboard : Option Text) (text : Text) (delay : ℕ)
      → ((n : ℕ) → answer n ≡ none)
      → ((n : ℕ) → late n ≡ none)
      → let (r, response) = handle answer late true clipboard (type_text text (some delay)) in
        (response ≡ ok tt)
        × (r.slept
            ≡ delay * ((length (encode_utf16 text) + (units_per_batch - 1)) / units_per_batch - 1))
  unfolding handle send_text
  typing_takes_its_time clipboard text delay ha hl =
      let units = encode_utf16 text in
      ground (
        arith,
        first_chunks-slept delay (chunks units) ha hl,
        chunks_on-length (length units) units (omega arith),
      )
