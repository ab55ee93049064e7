-- ===== src/Transfer/RoundTrip.antt =====
-- file_transfer.rs with actions.ps1: a push, and then a pull of the same file.
use agent_rdp.Transfer.{
  Bytes, max_transfer_bytes, Crates, TransferError, is_absolute_windows_path, check_remote_path,
  check_paths, Readiness, hex_digest, FileTransferResult,
}
use agent_rdp.Transfer.Push.{handle_push}
use agent_rdp.Transfer.Pull.{
  pull_attempts, PullAttempt, Pulled, pull_once, after_attempt, pull_loop, store, pull_checked,
  handle_pull,
}
use agent_rdp.Transfer.Agent.{Disk, content_of, Fate, Site, agent_link}
use agent_rdp.Transfer.Staging.{Swapped}
use agent_rdp.Transfer.Reading.{quiet, request, IsCalm, Arrives, pull_once-Arrives}
use agent_rdp.Transfer.Outcome.{PushEnds, push_is_atomic}
use agent_rdp.Base.{
  ℕ, ◌≤◌, ◌≡◌, refl, sym, subst, ◌≢◌, true, Option, some, [], arith, Result, ok, length, Text,
  Text-discrete, lookup-insert,
}

abbrev pub all_ready : Readiness
all_ready = record { session = true; enabled = true; initialized = true; ready = true }

-- The local path has the content, and the result names its hash and size.
pub IsBrought :
    Crates → Text → Bytes → Site × Option (Result TransferError FileTransferResult) → Type 0
IsBrought k to content r =
    (content_of to (Site.local r.0) ≡ some content)
    × ((result : FileTransferResult) × (r.1 ≡ some (ok result))
        × (result.sha256 ≡ hex_digest k content)
        × (result.bytes ≡ length content))

module _ (k : Crates) (codec : (c : Bytes) → k.decode (k.encode c) ≡ some c)
    (hashes : (c : Bytes) → k.sha256 c ≢ []) where
  module _ (path to : Text) (content : Bytes) (fits : length content ≤ max_transfer_bytes)
      (w : Site) (present : content_of path w.disk ≡ some content) where
    attempt-IsBrought :
        (rest : Site → Site × Pulled) (r : Site × PullAttempt)
        → Arrives k codec hashes path content w.clock w.local to fits r
        → IsBrought k to content
            (store k (quiet k) to (after_attempt k (quiet k) (request path to) w.clock 1 rest r))
    unfolding Arrives IsBrought IsCalm
    attempt-IsBrought rest (v, a) h =
        subst
          (λ x. IsBrought k to content (
            store k (quiet k) to
              (after_attempt k (quiet k) (request path to) w.clock 1 rest (v, x))))
          (sym h.1.1)
          (ground (arith, lookup-insert Text-discrete to to content v.local), (_, refl, refl, refl))

    calm :
        content_of path w.disk ≡ some content → IsCalm k codec hashes path content w.clock w.local w
    unfolding IsCalm
    calm h = (h, refl, refl)

    loop-IsBrought :
        IsBrought k to content
          (store k (quiet k) to (pull_loop k (quiet k) pull_attempts (request path to) w.clock 1 w))
    unfolding pull_loop
    loop-IsBrought =
        attempt-IsBrought (pull_loop k (quiet k) 2 (request path to) w.clock 2)
          (pull_once k (quiet k) (request path to) w.clock w)
          (pull_once-Arrives k codec hashes path content w.clock w.local to fits w (calm present))

    checked :
        is_absolute_windows_path path ≡ true
        → k.is_absolute to ≡ true
        → check_paths k to path ≡ ok tt
    unfolding check_paths check_remote_path
    checked a b = ground (arith, a, b)

    brought :
        is_absolute_windows_path path ≡ true
        → k.is_absolute to ≡ true
        → IsBrought k to content (handle_pull k (quiet k) w all_ready (request path to))
    unfolding handle_pull
    brought a b =
        subst (λ c. IsBrought k to content (pull_checked k (quiet k) (request path to) w c))
          (sym (checked a b)) loop-IsBrought

  PushEnds-present :
      (path : Text) (content : Bytes) (d : Disk)
      (r : Site × Result TransferError FileTransferResult)
      → PushEnds k path content d r
      → (result : FileTransferResult) → r.1 ≡ ok result
      → content_of path (Site.disk r.0) ≡ some content
  unfolding Swapped
  PushEnds-present path content d r (PushEnds.nothing_changed kept e x) result h =
      ground (arith, x, h)
  PushEnds-present path content d r (PushEnds.replaced s q x y z) result h = s.0
  PushEnds-present path content d r (PushEnds.failed_late t e n x) result h = ground (arith, x, h)

  -- When base64 decodes what it encoded and a SHA-256 is not empty, a file that fits into the
  -- limit and whose push succeeded, over whatever link, comes back whole when it is then pulled to
  -- any absolute path over a link on which nothing goes wrong.
  pub pushed_comes_back :
      (fates : ℕ → Fate) (delay : ℕ → ℕ) (w : Site) (ready : Readiness) (local path id to : Text)
      (content : Bytes) (result : FileTransferResult)
      → content_of local w.local ≡ some content
      → length content ≤ max_transfer_bytes
      → is_absolute_windows_path path ≡ true
      → k.is_absolute to ≡ true
      → (handle_push k (agent_link k fates delay) w ready local path id).1 ≡ ok result
      → IsBrought k to content (
          handle_pull k
            (quiet k)
            (handle_push k (agent_link k fates delay) w ready local path id).0
            all_ready
            (request path to))
  pushed_comes_back fates delay w ready local path id to content result h fits a b e =
      brought path to content fits
        (handle_push k (agent_link k fates delay) w ready local path id).0
        (PushEnds-present path content w.disk
          (handle_push k (agent_link k fates delay) w ready local path id)
          (push_is_atomic k codec fates delay w ready local path id content h) result e)
        a b
