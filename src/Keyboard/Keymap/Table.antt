-- ===== src/Keyboard/Keymap/Table.antt =====
-- crates/agent-rdp-daemon/src/keymap.rs: the scancodes, in the order of the source.
use agent_rdp.Base.{ℕ, Bool, true, false, List, [], ◌∷◌, Text, codes}

abbrev entry : Text → ℕ → Bool → Text × (ℕ × Bool)
entry name scancode extended = (name, (scancode, extended))

-- `lookup`: the names of a key, its scancode, and whether that is an extended one.
unfoldable pub scancodes : List (Text × (ℕ × Bool))
scancodes =
    entry (codes "ctrl") 0x1d false
    ∷ entry (codes "control") 0x1d false
    ∷ entry (codes "lctrl") 0x1d false
    ∷ entry (codes "rctrl") 0x1d true
    ∷ entry (codes "alt") 0x38 false
    ∷ entry (codes "lalt") 0x38 false
    ∷ entry (codes "ralt") 0x38 true
    ∷ entry (codes "shift") 0x2a false
    ∷ entry (codes "lshift") 0x2a false
    ∷ entry (codes "rshift") 0x36 false
    ∷ entry (codes "win") 0x5b true
    ∷ entry (codes "windows") 0x5b true
    ∷ entry (codes "lwin") 0x5b true
    ∷ entry (codes "super") 0x5b true
    ∷ entry (codes "meta") 0x5b true
    ∷ entry (codes "rwin") 0x5c true
    ∷ entry (codes "esc") 0x01 false
    ∷ entry (codes "escape") 0x01 false
    ∷ entry (codes "f1") 0x3b false
    ∷ entry (codes "f2") 0x3c false
    ∷ entry (codes "f3") 0x3d false
    ∷ entry (codes "f4") 0x3e false
    ∷ entry (codes "f5") 0x3f false
    ∷ entry (codes "f6") 0x40 false
    ∷ entry (codes "f7") 0x41 false
    ∷ entry (codes "f8") 0x42 false
    ∷ entry (codes "f9") 0x43 false
    ∷ entry (codes "f10") 0x44 false
    ∷ entry (codes "f11") 0x57 false
    ∷ entry (codes "f12") 0x58 false
    ∷ entry (codes "f13") 0x64 false
    ∷ entry (codes "f14") 0x65 false
    ∷ entry (codes "f15") 0x66 false
    ∷ entry (codes "f16") 0x67 false
    ∷ entry (codes "f17") 0x68 false
    ∷ entry (codes "f18") 0x69 false
    ∷ entry (codes "f19") 0x6a false
    ∷ entry (codes "f20") 0x6b false
    ∷ entry (codes "f21") 0x6c false
    ∷ entry (codes "f22") 0x6d false
    ∷ entry (codes "f23") 0x6e false
    ∷ entry (codes "f24") 0x76 false
    ∷ entry (codes "tab") 0x0f false
    ∷ entry (codes "enter") 0x1c false
    ∷ entry (codes "return") 0x1c false
    ∷ entry (codes "backspace") 0x0e false
    ∷ entry (codes "space") 0x39 false
    ∷ entry (codes " ") 0x39 false
    ∷ entry (codes "capslock") 0x3a false
    ∷ entry (codes "caps") 0x3a false
    ∷ entry (codes "up") 0x48 true
    ∷ entry (codes "arrowup") 0x48 true
    ∷ entry (codes "down") 0x50 true
    ∷ entry (codes "arrowdown") 0x50 true
    ∷ entry (codes "left") 0x4b true
    ∷ entry (codes "arrowleft") 0x4b true
    ∷ entry (codes "right") 0x4d true
    ∷ entry (codes "arrowright") 0x4d true
    ∷ entry (codes "insert") 0x52 true
    ∷ entry (codes "ins") 0x52 true
    ∷ entry (codes "delete") 0x53 true
    ∷ entry (codes "del") 0x53 true
    ∷ entry (codes "home") 0x47 true
    ∷ entry (codes "end") 0x4f true
    ∷ entry (codes "pageup") 0x49 true
    ∷ entry (codes "pgup") 0x49 true
    ∷ entry (codes "pagedown") 0x51 true
    ∷ entry (codes "pgdn") 0x51 true
    ∷ entry (codes "apps") 0x5d true
    ∷ entry (codes "menu") 0x5d true
    ∷ entry (codes "contextmenu") 0x5d true
    ∷ entry (codes "printscreen") 0x37 true
    ∷ entry (codes "prtsc") 0x37 true
    ∷ entry (codes "scrolllock") 0x46 false
    ∷ entry (codes "pause") 0x45 false
    ∷ entry (codes "break") 0x45 false
    ∷ entry (codes "1") 0x02 false
    ∷ entry (codes "2") 0x03 false
    ∷ entry (codes "3") 0x04 false
    ∷ entry (codes "4") 0x05 false
    ∷ entry (codes "5") 0x06 false
    ∷ entry (codes "6") 0x07 false
    ∷ entry (codes "7") 0x08 false
    ∷ entry (codes "8") 0x09 false
    ∷ entry (codes "9") 0x0a false
    ∷ entry (codes "0") 0x0b false
    ∷ entry (codes "a") 0x1e false
    ∷ entry (codes "b") 0x30 false
    ∷ entry (codes "c") 0x2e false
    ∷ entry (codes "d") 0x20 false
    ∷ entry (codes "e") 0x12 false
    ∷ entry (codes "f") 0x21 false
    ∷ entry (codes "g") 0x22 false
    ∷ entry (codes "h") 0x23 false
    ∷ entry (codes "i") 0x17 false
    ∷ entry (codes "j") 0x24 false
    ∷ entry (codes "k") 0x25 false
    ∷ entry (codes "l") 0x26 false
    ∷ entry (codes "m") 0x32 false
    ∷ entry (codes "n") 0x31 false
    ∷ entry (codes "o") 0x18 false
    ∷ entry (codes "p") 0x19 false
    ∷ entry (codes "q") 0x10 false
    ∷ entry (codes "r") 0x13 false
    ∷ entry (codes "s") 0x1f false
    ∷ entry (codes "t") 0x14 false
    ∷ entry (codes "u") 0x16 false
    ∷ entry (codes "v") 0x2f false
    ∷ entry (codes "w") 0x11 false
    ∷ entry (codes "x") 0x2d false
    ∷ entry (codes "y") 0x15 false
    ∷ entry (codes "z") 0x2c false
    ∷ entry (codes "minus") 0x0c false
    ∷ entry (codes "-") 0x0c false
    ∷ entry (codes "equals") 0x0d false
    ∷ entry (codes "=") 0x0d false
    ∷ entry (codes "leftbracket") 0x1a false
    ∷ entry (codes "[") 0x1a false
    ∷ entry (codes "rightbracket") 0x1b false
    ∷ entry (codes "]") 0x1b false
    ∷ entry (codes "backslash") 0x2b false
    ∷ entry (codes "\\") 0x2b false
    ∷ entry (codes "semicolon") 0x27 false
    ∷ entry (codes ";") 0x27 false
    ∷ entry (codes "quote") 0x28 false
    ∷ entry (codes "'") 0x28 false
    ∷ entry (codes "grave") 0x29 false
    ∷ entry (codes "`") 0x29 false
    ∷ entry (codes "comma") 0x33 false
    ∷ entry (codes ",") 0x33 false
    ∷ entry (codes "period") 0x34 false
    ∷ entry (codes ".") 0x34 false
    ∷ entry (codes "slash") 0x35 false
    ∷ entry (codes "/") 0x35 false
    ∷ entry (codes "numpad0") 0x52 false
    ∷ entry (codes "numpad1") 0x4f false
    ∷ entry (codes "numpad2") 0x50 false
    ∷ entry (codes "numpad3") 0x51 false
    ∷ entry (codes "numpad4") 0x4b false
    ∷ entry (codes "numpad5") 0x4c false
    ∷ entry (codes "numpad6") 0x4d false
    ∷ entry (codes "numpad7") 0x47 false
    ∷ entry (codes "numpad8") 0x48 false
    ∷ entry (codes "numpad9") 0x49 false
    ∷ entry (codes "numpadenter") 0x1c true
    ∷ entry (codes "numpadplus") 0x4e false
    ∷ entry (codes "numpadadd") 0x4e false
    ∷ entry (codes "numpadminus") 0x4a false
    ∷ entry (codes "numpadsubtract") 0x4a false
    ∷ entry (codes "numpadmultiply") 0x37 false
    ∷ entry (codes "numpaddivide") 0x35 true
    ∷ entry (codes "numlock") 0x45 false
    ∷ []
