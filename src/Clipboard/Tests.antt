-- ===== src/Clipboard/Tests.antt =====
-- Runs of the clipboard's encoding.
use agent_rdp.Base.{◌≡◌, refl, true, false, [], ◌∷◌, ◌++◌, codes, utf16_units, encode_utf16}
use agent_rdp.Clipboard.{cr, normalize_from, normalize_to_crlf, le_bytes, encode_cf_unicodetext}
use agent_rdp.Clipboard.LineEndings.{is_crlf, normalize_to_crlf-twice}

encoded : encode_cf_unicodetext (codes "a\n") ≡ 97 ∷ 0 ∷ 13 ∷ 0 ∷ 10 ∷ 0 ∷ 0 ∷ 0 ∷ []
unfolding encode_cf_unicodetext normalize_to_crlf normalize_from encode_utf16 utf16_units le_bytes
encoded = refl

normalize_to_crlf-twice_example :
    let s = codes "a" ++ (cr ∷ codes "b") in
    (is_crlf false (normalize_to_crlf s) ≡ true)
    × (is_crlf false s ≡ true → normalize_to_crlf s ≡ s)
    × (normalize_to_crlf (normalize_to_crlf s) ≡ normalize_to_crlf s)
normalize_to_crlf-twice_example = normalize_to_crlf-twice (codes "a" ++ (cr ∷ codes "b"))
