-- ===== src/Keyboard/Keymap/Names.antt =====
-- crates/agent-rdp-daemon/src/keymap.rs: the names that stand for other names.
use agent_rdp.Base.{List, [], ◌∷◌, Text, codes}

-- `code_to_scancode`: what the browser calls a key, and its name in the table.
unfoldable pub browser_codes : List (Text × Text)
browser_codes =
    (codes "KeyA", codes "a")
    ∷ (codes "KeyB", codes "b")
    ∷ (codes "KeyC", codes "c")
    ∷ (codes "KeyD", codes "d")
    ∷ (codes "KeyE", codes "e")
    ∷ (codes "KeyF", codes "f")
    ∷ (codes "KeyG", codes "g")
    ∷ (codes "KeyH", codes "h")
    ∷ (codes "KeyI", codes "i")
    ∷ (codes "KeyJ", codes "j")
    ∷ (codes "KeyK", codes "k")
    ∷ (codes "KeyL", codes "l")
    ∷ (codes "KeyM", codes "m")
    ∷ (codes "KeyN", codes "n")
    ∷ (codes "KeyO", codes "o")
    ∷ (codes "KeyP", codes "p")
    ∷ (codes "KeyQ", codes "q")
    ∷ (codes "KeyR", codes "r")
    ∷ (codes "KeyS", codes "s")
    ∷ (codes "KeyT", codes "t")
    ∷ (codes "KeyU", codes "u")
    ∷ (codes "KeyV", codes "v")
    ∷ (codes "KeyW", codes "w")
    ∷ (codes "KeyX", codes "x")
    ∷ (codes "KeyY", codes "y")
    ∷ (codes "KeyZ", codes "z")
    ∷ (codes "Digit0", codes "0")
    ∷ (codes "Digit1", codes "1")
    ∷ (codes "Digit2", codes "2")
    ∷ (codes "Digit3", codes "3")
    ∷ (codes "Digit4", codes "4")
    ∷ (codes "Digit5", codes "5")
    ∷ (codes "Digit6", codes "6")
    ∷ (codes "Digit7", codes "7")
    ∷ (codes "Digit8", codes "8")
    ∷ (codes "Digit9", codes "9")
    ∷ (codes "F1", codes "f1")
    ∷ (codes "F2", codes "f2")
    ∷ (codes "F3", codes "f3")
    ∷ (codes "F4", codes "f4")
    ∷ (codes "F5", codes "f5")
    ∷ (codes "F6", codes "f6")
    ∷ (codes "F7", codes "f7")
    ∷ (codes "F8", codes "f8")
    ∷ (codes "F9", codes "f9")
    ∷ (codes "F10", codes "f10")
    ∷ (codes "F11", codes "f11")
    ∷ (codes "F12", codes "f12")
    ∷ (codes "ShiftLeft", codes "lshift")
    ∷ (codes "ShiftRight", codes "rshift")
    ∷ (codes "ControlLeft", codes "lctrl")
    ∷ (codes "ControlRight", codes "rctrl")
    ∷ (codes "AltLeft", codes "lalt")
    ∷ (codes "AltRight", codes "ralt")
    ∷ (codes "MetaLeft", codes "lwin")
    ∷ (codes "MetaRight", codes "rwin")
    ∷ (codes "Escape", codes "esc")
    ∷ (codes "Tab", codes "tab")
    ∷ (codes "Enter", codes "enter")
    ∷ (codes "Backspace", codes "backspace")
    ∷ (codes "Space", codes "space")
    ∷ (codes "CapsLock", codes "capslock")
    ∷ (codes "ArrowUp", codes "up")
    ∷ (codes "ArrowDown", codes "down")
    ∷ (codes "ArrowLeft", codes "left")
    ∷ (codes "ArrowRight", codes "right")
    ∷ (codes "Insert", codes "insert")
    ∷ (codes "Delete", codes "delete")
    ∷ (codes "Home", codes "home")
    ∷ (codes "End", codes "end")
    ∷ (codes "PageUp", codes "pageup")
    ∷ (codes "PageDown", codes "pagedown")
    ∷ (codes "Minus", codes "-")
    ∷ (codes "Equal", codes "=")
    ∷ (codes "BracketLeft", codes "[")
    ∷ (codes "BracketRight", codes "]")
    ∷ (codes "Backslash", codes "\\")
    ∷ (codes "Semicolon", codes ";")
    ∷ (codes "Quote", codes "'")
    ∷ (codes "Backquote", codes "`")
    ∷ (codes "Comma", codes ",")
    ∷ (codes "Period", codes ".")
    ∷ (codes "Slash", codes "/")
    ∷ (codes "Numpad0", codes "numpad0")
    ∷ (codes "Numpad1", codes "numpad1")
    ∷ (codes "Numpad2", codes "numpad2")
    ∷ (codes "Numpad3", codes "numpad3")
    ∷ (codes "Numpad4", codes "numpad4")
    ∷ (codes "Numpad5", codes "numpad5")
    ∷ (codes "Numpad6", codes "numpad6")
    ∷ (codes "Numpad7", codes "numpad7")
    ∷ (codes "Numpad8", codes "numpad8")
    ∷ (codes "Numpad9", codes "numpad9")
    ∷ (codes "NumpadEnter", codes "numpadenter")
    ∷ (codes "NumpadAdd", codes "numpadplus")
    ∷ (codes "NumpadSubtract", codes "numpadminus")
    ∷ (codes "NumpadMultiply", codes "numpadmultiply")
    ∷ (codes "NumpadDivide", codes "numpaddivide")
    ∷ (codes "NumLock", codes "numlock")
    ∷ (codes "ContextMenu", codes "apps")
    ∷ (codes "PrintScreen", codes "printscreen")
    ∷ (codes "ScrollLock", codes "scrolllock")
    ∷ (codes "Pause", codes "pause")
    ∷ []

-- `key_to_scancode_seq`: the symbols that take Shift, and the keys they stand on.
unfoldable pub shifted_symbols : List (Text × Text)
shifted_symbols =
    (codes "!", codes "1")
    ∷ (codes "@", codes "2")
    ∷ (codes "#", codes "3")
    ∷ (codes "$", codes "4")
    ∷ (codes "%", codes "5")
    ∷ (codes "^", codes "6")
    ∷ (codes "&", codes "7")
    ∷ (codes "*", codes "8")
    ∷ (codes "(", codes "9")
    ∷ (codes ")", codes "0")
    ∷ (codes "_", codes "-")
    ∷ (codes "+", codes "=")
    ∷ (codes "{", codes "[")
    ∷ (codes "}", codes "]")
    ∷ (codes "|", codes "\\")
    ∷ (codes ":", codes ";")
    ∷ (codes "\"", codes "'")
    ∷ (codes "<", codes ",")
    ∷ (codes ">", codes ".")
    ∷ (codes "?", codes "/")
    ∷ (codes "~", codes "`")
    ∷ []
