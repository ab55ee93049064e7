-- ===== src/Keyboard/Keymap/Coverage.antt =====
-- keymap.rs: what the tables cover.
use agent_rdp.Base.{
  ℕ, ◌<◌, ◌≡◌, refl, sym, ap, ◌∙◌, ◌⊎◌, inl, inr, Bool, true, ◌&&◌, Option, none, some, List, [],
  ◌∷◌, ◌++◌, arith, ltb, Option-cases, is_some, is_none, some_of, append_assoc, all, Text, text_eq,
  text_eq→eq,
}
use agent_rdp.Keyboard.Keymap.Table.{scancodes}
use agent_rdp.Keyboard.Keymap.Names.{browser_codes, shifted_symbols}
use agent_rdp.Keyboard.Keymap.{
  find, lower_char, to_lowercase, key_to_scancode, key_to_scancode_seq, code_to_scancode, shift_key,
  looked_up,
}

-- What holds of each row holds of the row that is found.
find-all :
    {A : Type 0} (p : Text × A → Bool) (k : Text) (rows : List (Text × A)) (a : A)
    → all p rows ≡ true
    → find k rows ≡ some a
    → p (k, a) ≡ true
unfolding find
find-all p k [] a h e = cc
find-all p k (row ∷ rows) a h e = ground (arith, find-all p k rows a, text_eq→eq k row.0)

-- A scancode that the protocol's release flag leaves room for, and not the empty one.
abbrev pub IsMakeCode : ℕ × Bool → Type 0
IsMakeCode sc = (0 < sc.0) × (sc.0 < 0x80)

abbrev is_make_code : ℕ × Bool → Bool
is_make_code sc = ltb 0 sc.0 && ltb sc.0 0x80

scancodes_are_made : all (λ row. is_make_code row.1) scancodes ≡ true
unfolding scancodes
scancodes_are_made = refl

found_is_made : (key : Text) (sc : ℕ × Bool) → find key scancodes ≡ some sc → IsMakeCode sc
found_is_made key sc h =
    let made = find-all (λ row. is_make_code row.1) key scancodes sc scancodes_are_made h in
    ground arith

looked_up-IsMakeCode : (o : Option Text) (sc : ℕ × Bool) → looked_up o ≡ some sc → IsMakeCode sc
looked_up-IsMakeCode none sc h = cc
looked_up-IsMakeCode (some name) sc h = found_is_made name sc h

-- Every key that has a name has a scancode from 1 to 127.
pub key_to_scancode-IsMakeCode :
    (key : Text) (sc : ℕ × Bool) → key_to_scancode key ≡ some sc → IsMakeCode sc
unfolding key_to_scancode
key_to_scancode-IsMakeCode key sc h = found_is_made (to_lowercase key) sc h

names_are_keys : all (λ row. is_some (find row.1 scancodes)) browser_codes ≡ true
unfolding browser_codes find scancodes text_eq
names_are_keys = refl

-- Each browser code that has a name has a scancode: the names it stands for are all in the table.
pub code_to_scancode-total :
    (code name : Text)
    → find code browser_codes ≡ some name
    → (sc : ℕ × Bool) × (code_to_scancode code ≡ some sc)
unfolding code_to_scancode
code_to_scancode-total code name h =
    let (sc, e) =
      some_of (find name scancodes) (
        find-all (λ row. is_some (find row.1 scancodes)) code browser_codes name names_are_keys
          h) in
    (sc, ground arith)

to_lowercase-append : (s t : Text) → to_lowercase (s ++ t) ≡ to_lowercase s ++ to_lowercase t
unfolding to_lowercase
to_lowercase-append [] t = refl
to_lowercase-append (c ∷ s) t =
    ap (λ x. lower_char c ++ x) (to_lowercase-append s t)
    ∙ sym (append_assoc (lower_char c) (to_lowercase s) (to_lowercase t))

lower_twice : (c : ℕ) → to_lowercase (lower_char c) ≡ lower_char c
unfolding to_lowercase lower_char
lower_twice c = ground arith

to_lowercase-twice : (s : Text) → to_lowercase (to_lowercase s) ≡ to_lowercase s
unfolding to_lowercase
to_lowercase-twice [] = refl
to_lowercase-twice (c ∷ s) =
    to_lowercase-append (lower_char c) (to_lowercase s) ∙ cc (lower_twice c, to_lowercase-twice s)

-- Names are matched without regard to case.
pub key_to_scancode-lower : (key : Text) → key_to_scancode (to_lowercase key) ≡ key_to_scancode key
unfolding key_to_scancode
key_to_scancode-lower key = ap (λ k. find k scancodes) (to_lowercase-twice key)

bases_are_made : all (λ row. is_some (find row.1 scancodes)) shifted_symbols ≡ true
unfolding shifted_symbols find scancodes text_eq
bases_are_made = refl

symbols_are_no_keys : all (λ row. is_none (key_to_scancode row.0)) shifted_symbols ≡ true
unfolding shifted_symbols find scancodes text_eq key_to_scancode to_lowercase lower_char
symbols_are_no_keys = refl

-- A key is pressed by one scancode or by Shift and another, each from 1 to 127.
pub key_to_scancode_seq-IsShort :
    (key : Text) (ks : List (ℕ × Bool))
    → key_to_scancode_seq key ≡ some ks
    → (sc : ℕ × Bool) × ((ks ≡ sc ∷ []) ⊎ (ks ≡ shift_key ∷ sc ∷ [])) × IsMakeCode sc
unfolding key_to_scancode_seq
key_to_scancode_seq-IsShort key ks h = elim (Option-cases (key_to_scancode key)) [
  | inr (sc, e) ↦ (sc, inl (ground arith), key_to_scancode-IsMakeCode key sc e)
  | inl e ↦ elim (Option-cases (looked_up (find key shifted_symbols))) [
    | inl f ↦ (shift_key, ground arith, ground arith)
    | inr (sc, f) ↦ (sc, inr (ground arith), looked_up-IsMakeCode (find key shifted_symbols) sc f)
  ]
]

-- Each shifted symbol is pressed as Shift and a base key: no name in the table hides it.
pub key_to_scancode_seq-shifted :
    (key base : Text)
    → find key shifted_symbols ≡ some base
    → (sc : ℕ × Bool) × (key_to_scancode_seq key ≡ some (shift_key ∷ sc ∷ []))
unfolding key_to_scancode_seq
key_to_scancode_seq-shifted key base h =
    let (sc, e) = some_of (find base scancodes) (
      find-all (λ row. is_some (find row.1 scancodes)) key shifted_symbols base bases_are_made h) in
    let hidden =
      find-all (λ row. is_none (key_to_scancode row.0)) key shifted_symbols base symbols_are_no_keys
        h in
    (sc, ground arith)
