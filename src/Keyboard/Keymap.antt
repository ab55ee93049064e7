-- ===== src/Keyboard/Keymap.antt =====
-- crates/agent-rdp-daemon/src/keymap.rs: from the names of keys to scancodes.
pub mod Table
pub mod Names
pub mod Coverage
use agent_rdp.Base.{
  ℕ, ◌+◌, Bool, false, ◌&&◌, Option, none, some, List, [], ◌∷◌, ◌++◌, leb, ◌==◌, if◌then◌else◌,
  Text, text_eq,
}
use agent_rdp.Keyboard.Keymap.Table.{scancodes}
use agent_rdp.Keyboard.Keymap.Names.{browser_codes, shifted_symbols}

-- A `match` on texts: the first row with the key.
unfoldable pub find {ℓ} : {A : Type ℓ} → Text → List (Text × A) → Option A
find k [] = none
find k (row ∷ rows) = if text_eq k row.0 then some row.1 else find k rows

-- `char::to_lowercase`, on ASCII and on the two other characters whose lower case has ASCII in it.
-- The lower case of any other character is not ASCII, so no key has it in its name.
unfoldable pub lower_char : ℕ → Text
lower_char c =
    if leb b'A' c && leb c b'Z'
    then (c + 32) ∷ []
    else if c == 0x212a
    then b'k' ∷ []
    else if c == 0x130
    then b'i' ∷ 0x307 ∷ []
    else c ∷ []

unfoldable pub to_lowercase : Text → Text
to_lowercase [] = []
to_lowercase (c ∷ s) = lower_char c ++ to_lowercase s

unfoldable pub key_to_scancode : Text → Option (ℕ × Bool)
key_to_scancode key = find (to_lowercase key) scancodes

abbrev pub shift_key : ℕ × Bool
shift_key = (0x2a, false)

abbrev with_shift : Option (ℕ × Bool) → Option (List (ℕ × Bool))
with_shift none = none
with_shift (some sc) = some (shift_key ∷ sc ∷ [])

abbrev looked_up : Option Text → Option (ℕ × Bool)
looked_up none = none
looked_up (some name) = find name scancodes

abbrev or_shifted : Option (ℕ × Bool) → Option Text → Option (List (ℕ × Bool))
or_shifted (some direct) base = some (direct ∷ [])
or_shifted none base = with_shift (looked_up base)

-- The keys to hold, modifier first.
unfoldable pub key_to_scancode_seq : Text → Option (List (ℕ × Bool))
key_to_scancode_seq key = or_shifted (key_to_scancode key) (find key shifted_symbols)

unfoldable pub code_to_scancode : Text → Option (ℕ × Bool)
code_to_scancode code = looked_up (find code browser_codes)
