-- ===== src/Clipboard.antt =====
-- crates/agent-rdp-daemon/src/rdp_session/clipboard.rs: text as Windows' clipboard holds it.
pub mod LineEndings
mod Tests
use agent_rdp.Base.{
  ℕ, ◌/◌, ◌%◌, Bool, true, false, ◌&&◌, List, [], ◌∷◌, ◌++◌, ◌==◌, if◌then◌else◌, Text,
  encode_utf16,
}

abbrev pub cr : ℕ
cr = 13

abbrev pub lf : ℕ
lf = 10

-- The loop of `normalize_to_crlf`: `after_cr` says that the last character was a CR, whose LF, if
-- it comes, is taken with it.
unfoldable pub normalize_from : (after_cr : Bool) → Text → Text
normalize_from after_cr [] = []
normalize_from after_cr (c ∷ s) =
    let rest = normalize_from false s in
    let rest_of_cr = normalize_from true s in
    if after_cr && c == lf
    then rest
    else if c == cr
    then cr ∷ lf ∷ rest_of_cr
    else if c == lf
    then cr ∷ lf ∷ rest
    else c ∷ rest

unfoldable pub normalize_to_crlf : Text → Text
unfolding normalize_from
normalize_to_crlf text = normalize_from false text

-- `u16::to_le_bytes`, in order.
unfoldable pub le_bytes : List ℕ → List ℕ
le_bytes [] = []
le_bytes (u ∷ units) = (u % 256) ∷ (u / 256) ∷ le_bytes units

unfoldable pub encode_cf_unicodetext : Text → List ℕ
encode_cf_unicodetext text = le_bytes (encode_utf16 (normalize_to_crlf text) ++ (0 ∷ []))
