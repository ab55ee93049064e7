-- ===== src/Transfer/Verified.antt =====
-- file_transfer.rs: what a pull that succeeds delivers.
use agent_rdp.Json.{Json}
use agent_rdp.Protocol.Automate.{file_stat}
use agent_rdp.Transfer.{
  Bytes, Crates, Link, hex_digest, max_transfer_bytes, flag_at, number_at, Freshness,
  FileTransferResult,
}
use agent_rdp.Transfer.Pull.{FilePullRequest, PullAttempt, delivered, Pulled, got, size_of, hash_of}
use agent_rdp.Base.{ℕ, ◌+◌, ◌≤◌, ◌≡◌, true, false, codes, Option, some, ok, length, Text}

-- The file is one of bounded size, and where an age is asked for, the agent names the file's time and
-- its own, and they are no further apart.
pub record IsFit (p : FilePullRequest) (stat : Json) : Type 0 where
  pub exists : flag_at (codes "exists") stat ≡ true
  pub no_directory : flag_at (codes "is_directory") stat ≡ false
  pub small : size_of stat ≤ max_transfer_bytes
  pub fresh :
      (age : ℕ)
      → p.max_age_secs ≡ some age
      → (modified now : ℕ) × (number_at (codes "modified_unix") stat ≡ some modified)
        × (number_at (codes "now_unix") stat ≡ some now)
        × (now ≤ modified + age)

module _ (k : Crates) {S : Type 0} (l : Link S) where
  -- Something the agent said of the file at some moment, in answer to a stat, and the content that
  -- was read has the hash it named.
  IsConfirmed : FilePullRequest → Bytes → Type 0
  IsConfirmed p content =
      (s : S) × (timeout : ℕ) × (stat : Json) × ((l.ask s (file_stat p.remote_path) timeout).1
        ≡ ok stat)
      × IsFit p stat
      × (hash_of stat ≡ hex_digest k content)

  module _ (p : FilePullRequest) (started : ℕ) where
    Delivers : S × PullAttempt → Type 0
    Delivers r =
        (content : Bytes) (chunks : ℕ) (sha : Text) (f : Option Freshness)
        → r.1 ≡ delivered content chunks sha f
        → IsConfirmed p content × (sha ≡ hex_digest k content)

    -- What the loop over the attempts gets is confirmed.
    Gets : S × Pulled → Type 0
    Gets r =
        (content : Bytes) (chunks : ℕ) (sha : Text) (f : Option Freshness)
        → r.1 ≡ got content chunks sha f
        → IsConfirmed p content × (sha ≡ hex_digest k content)

  -- The result describes some content which is confirmed and which was written as the last thing.
  pub IsStored : FilePullRequest → S → FileTransferResult → Type 0
  IsStored p s r =
      (content : Bytes) × (s' : S) × (s ≡ (l.write_file s' p.local_path content).0)
      × IsConfirmed p content
      × (r.sha256 ≡ hex_digest k content)
      × (r.bytes ≡ length content)
