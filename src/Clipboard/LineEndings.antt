-- ===== src/Clipboard/LineEndings.antt =====
-- clipboard.rs: line endings.
use agent_rdp.Base.{
  ◌≡◌, refl, Bool, true, false, not, ◌&&◌, [], ◌∷◌, arith, ◌==◌, if◌then◌else◌, Text,
}
use agent_rdp.Clipboard.{cr, lf, normalize_from, normalize_to_crlf}

-- Each CR is followed by an LF, and each LF comes after a CR; `after_cr` says what came before.
unfoldable pub is_crlf : (after_cr : Bool) → Text → Bool
is_crlf after_cr [] = not after_cr
is_crlf after_cr (c ∷ s) =
    if after_cr
    then c == lf && is_crlf false s
    else if c == cr
    then is_crlf true s
    else not (c == lf) && is_crlf false s

normalize_from-is_crlf : (b : Bool) (s : Text) → is_crlf false (normalize_from b s) ≡ true
unfolding normalize_from is_crlf
normalize_from-is_crlf b [] = refl
normalize_from-is_crlf b (c ∷ s) =
    ground (arith, normalize_from-is_crlf false s, normalize_from-is_crlf true s)

normalize_from-fixed :
    (s : Text)
    → (is_crlf false s ≡ true → normalize_from false s ≡ s)
      × (is_crlf true s ≡ true → lf ∷ normalize_from true s ≡ s)
unfolding normalize_from is_crlf
normalize_from-fixed [] = (λ h. refl, λ h. cc)
normalize_from-fixed (c ∷ s) =
    let ih = normalize_from-fixed s in (λ h. ground (arith, ih), λ h. ground (arith, ih))

-- Normalizing leaves no bare CR or LF, and leaves a text that has none as it is; so to normalize
-- twice is to normalize once.
pub normalize_to_crlf-twice :
    (s : Text)
    → (is_crlf false (normalize_to_crlf s) ≡ true)
      × (is_crlf false s ≡ true → normalize_to_crlf s ≡ s)
      × (normalize_to_crlf (normalize_to_crlf s) ≡ normalize_to_crlf s)
unfolding normalize_to_crlf
normalize_to_crlf-twice s = (
  normalize_from-is_crlf false s,
  (normalize_from-fixed s).0,
  (normalize_from-fixed (normalize_from false s)).0 (normalize_from-is_crlf false s),
)
