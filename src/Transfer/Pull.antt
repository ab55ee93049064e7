-- ===== src/Transfer/Pull.antt =====
-- file_transfer.rs: pulling a remote file - stat, read, compare hashes, and read again a file that
-- changed in between - and asking about one.
use agent_rdp.Json.{Json}
use agent_rdp.Protocol.Automate.{file_read_chunk, file_stat}
use agent_rdp.Dvc.Ipc.{RequestError}
use agent_rdp.Transfer.{
  Bytes, chunk_bytes, max_transfer_bytes, chunk_timeout, verify_timeout, step_timeout_for, Crates,
  Link, TransferError, cannot_write, too_large, budget_exhausted, no_hash, cannot_stat, not_found,
  is_a_directory, stale, no_file_times, read_failed, undecodable, stalled, changed,
  check_remote_path, check_paths, Readiness, ready_ipc, hex_digest, or_else, text_at, number_at,
  flag_at, Freshness, file_freshness, FileTransferResult,
}
use agent_rdp.Base.{
  ℕ, zero, suc, ◌+◌, ◌-◌, ◌*◌, ◌/◌, ◌^◌, min, Bool, not, ◌&&◌, Option, none, some, [], ◌∷◌, ◌++◌,
  ltb, leb, ◌==◌, if◌then◌else◌, Result, ok, err, length, Text, codes, text_eq, decimal,
}

abbrev pub pull_attempts : ℕ
pull_attempts = 3

abbrev pull_retry_base : ℕ
pull_retry_base = 150

abbrev pull_retry_max_bytes : ℕ
pull_retry_max_bytes = 8 * 1024 * 1024

abbrev pub pull_retry_max_elapsed : ℕ
pull_retry_max_elapsed = 30000

unfoldable pub retry_pull : (attempt size elapsed : ℕ) → Bool
retry_pull attempt size elapsed =
    ltb attempt pull_attempts && leb size pull_retry_max_bytes && ltb elapsed pull_retry_max_elapsed

unfoldable pub pull_backoff : ℕ → ℕ
pull_backoff attempt = pull_retry_base * 2 ^ min (attempt - 1) 8

unfoldable pub changed_advice : (attempt size elapsed : ℕ) → Text
changed_advice attempt size elapsed =
    if leb pull_attempts attempt
    then codes "It is being rewritten faster than it can be read - pull a snapshot copy instead."
    else if ltb pull_retry_max_bytes size
    then codes "Files over "
      ++ decimal pull_retry_max_bytes
      ++ codes
          " bytes are not re-read automatically - pull a snapshot copy, or re-run once the producer has finished writing it."
    else codes "The read had already taken "
      ++ decimal (elapsed / 1000)
      ++ codes "s, past the "
      ++ decimal (pull_retry_max_elapsed / 1000)
      ++ codes "s retry limit - re-run once the producer has finished writing it."

pub record FilePullRequest : Type 0 where
  pub remote_path : Text
  pub local_path : Text
  pub max_age_secs : Option ℕ

pub record FileStatResult : Type 0 where
  pub path : Text
  pub exists : Bool
  pub is_directory : Bool
  pub size : Option ℕ
  pub sha256 : Option Text
  pub freshness : Option Freshness

-- What the loop over a file's bytes gives; `unfinished` is the fuel's end.
pub data ReadOutcome : Type 0 where
  read_all : (content : Bytes) (chunks : ℕ) → ReadOutcome
  read_error : TransferError → ReadOutcome
  unfinished : ReadOutcome

pub data PullAttempt : Type 0 where
  delivered :
      (content : Bytes) (chunks : ℕ) (sha256 : Text) (freshness : Option Freshness) → PullAttempt
  differs : (remote local : Text) (size : ℕ) → PullAttempt
  failed_with : TransferError → PullAttempt
  never_ends : PullAttempt

-- What the loop over the attempts gives to the rest of the handler.
pub data Pulled : Type 0 where
  got : (content : Bytes) (chunks : ℕ) (sha256 : Text) (freshness : Option Freshness) → Pulled
  gave_up : TransferError → Pulled
  unending : Pulled

-- `u64::div_ceil` by the chunk size.
abbrev chunks_in : ℕ → ℕ
chunks_in size = (size + (chunk_bytes - 1)) / chunk_bytes

abbrev pub size_of : Json → ℕ
size_of stat = or_else 0 (number_at (codes "size") stat)

abbrev pub hash_of : Json → Text
hash_of stat = or_else [] (text_at (codes "sha256") stat)

-- The checks on the reply to the stat, up to the hash.
abbrev pub stat_refusal : Text → Json → Result TransferError (Unit {0})
stat_refusal path stat =
    if not (flag_at (codes "exists") stat)
    then err (not_found path)
    else if flag_at (codes "is_directory") stat
    then err (is_a_directory path)
    else if ltb max_transfer_bytes (size_of stat)
    then err (too_large path (size_of stat))
    else ok tt

abbrev pub age_refusal : Text → Option ℕ → Option Freshness → Result TransferError (Unit {0})
age_refusal path none f = ok tt
age_refusal path (some max_age) none = err no_file_times
age_refusal path (some max_age) (some f) =
    if ltb max_age f.age_secs then err (stale path f.age_secs f.modified max_age) else ok tt

unfoldable pub check_stat : FilePullRequest → Json → Result TransferError (Unit {0})
unfolding file_freshness
check_stat p stat = elim (stat_refusal p.remote_path stat) [
  | err e ↦ err e
  | ok u ↦ age_refusal p.remote_path p.max_age_secs (file_freshness stat)
]

module _ (k : Crates) where
  -- The end of an attempt: the hash of what came, against the stat's.
  unfoldable pub verified : (path : Text) → Json → Bytes → ℕ → PullAttempt
  unfolding hex_digest file_freshness
  verified path stat content chunks =
      let local_sha256 = hex_digest k content in
      if length (hash_of stat) == 0
      then failed_with (no_hash path)
      else if not (text_eq (hash_of stat) local_sha256)
      then differs (hash_of stat) local_sha256 (size_of stat)
      else delivered content chunks local_sha256 (file_freshness stat)

  module _ {S : Type 0} (l : Link S) where
    -- What a decoded chunk does to the loop.
    abbrev pub take_chunk :
        Text → Bytes → ℕ → Json → (Bytes → ℕ → S × ReadOutcome) → S → Option Bytes → S × ReadOutcome
    take_chunk path content chunks value rest s none = (s, read_error undecodable)
    take_chunk path content chunks value rest s (some []) =
        if flag_at (codes "eof") value
        then (s, read_all content (chunks + 1))
        else (s, read_error (stalled (length content) path))
    take_chunk path content chunks value rest s (some (b ∷ bs)) =
        rest (content ++ (b ∷ bs)) (chunks + 1)

    abbrev pub after_read :
        Text
        → Bytes
        → ℕ
        → (S → Bytes → ℕ → S × ReadOutcome)
        → S × Result RequestError Json
        → S × ReadOutcome
    after_read path content chunks rest (s, err e) =
        (s, read_error (read_failed (length content) path e))
    after_read path content chunks rest (s, ok value) =
        take_chunk path content chunks value (rest s) s
          (k.decode (or_else [] (text_at (codes "data_b64") value)))

    abbrev pub read_chunk :
        Text → ℕ → Bytes → ℕ → (S → Bytes → ℕ → S × ReadOutcome) → S → Option ℕ → S × ReadOutcome
    read_chunk path size content chunks rest s none =
        (s, read_error (budget_exhausted (codes "Pull") chunks (chunks_in size) path))
    read_chunk path size content chunks rest s (some timeout) =
        after_read path content chunks rest
          (l.ask s (file_read_chunk path (length content) chunk_bytes) timeout)

    unfoldable pub read_chunks :
        ℕ → (path : Text) (started size : ℕ) → S → Bytes → ℕ → S × ReadOutcome
    unfolding step_timeout_for
    read_chunks zero path started size s content chunks =
        (s, if ltb (length content) size then unfinished else read_all content chunks)
    read_chunks (suc f) path started size s content chunks =
        let step =
          read_chunk path size content chunks (read_chunks f path started size) s
            (step_timeout_for chunk_timeout (l.now s - started)) in
        if ltb (length content) size then step else (s, read_all content chunks)

    abbrev pub attempt_of : Text → Json → S × ReadOutcome → S × PullAttempt
    attempt_of path stat (s, unfinished) = (s, never_ends)
    attempt_of path stat (s, read_error e) = (s, failed_with e)
    attempt_of path stat (s, read_all content chunks) = (s, verified path stat content chunks)

    abbrev pub after_check :
        FilePullRequest → ℕ → Json → S → Result TransferError (Unit {0}) → S × PullAttempt
    after_check p started stat s (err e) = (s, failed_with e)
    after_check p started stat s (ok u) =
        attempt_of p.remote_path stat
          (read_chunks (size_of stat) p.remote_path started (size_of stat) s [] 0)

    abbrev pub after_stat : FilePullRequest → ℕ → S × Result RequestError Json → S × PullAttempt
    after_stat p started (s, err e) = (s, failed_with (cannot_stat p.remote_path e))
    after_stat p started (s, ok stat) = after_check p started stat s (check_stat p stat)

    abbrev pub with_stat : FilePullRequest → ℕ → S → Option ℕ → S × PullAttempt
    with_stat p started s none =
        (s, failed_with (budget_exhausted (codes "Pull") 0 0 p.remote_path))
    with_stat p started s (some timeout) =
        after_stat p started (l.ask s (file_stat p.remote_path) timeout)

    unfoldable pub pull_once : FilePullRequest → ℕ → S → S × PullAttempt
    unfolding read_chunks step_timeout_for check_stat verified
    pull_once p started s =
        with_stat p started s (step_timeout_for verify_timeout (l.now s - started))

    abbrev pub after_attempt :
        FilePullRequest → ℕ → ℕ → (S → S × Pulled) → S × PullAttempt → S × Pulled
    after_attempt p started attempt rest (s, delivered c n h f) = (s, got c n h f)
    after_attempt p started attempt rest (s, failed_with e) = (s, gave_up e)
    after_attempt p started attempt rest (s, never_ends) = (s, unending)
    after_attempt p started attempt rest (s, differs remote local size) =
        let elapsed = l.now s - started in
        if retry_pull attempt size elapsed then rest (l.sleep s (pull_backoff attempt)) else (
          s,
          gave_up
              (changed p.remote_path attempt remote local (changed_advice attempt size elapsed)),
        )

    -- The attempts, the first of which is number 1.
    unfoldable pub pull_loop : ℕ → FilePullRequest → (started attempt : ℕ) → S → S × Pulled
    unfolding pull_once retry_pull pull_backoff changed_advice
    pull_loop zero p started attempt s = (s, unending)
    pull_loop (suc f) p started attempt s =
        after_attempt p started attempt (pull_loop f p started (attempt + 1))
          (pull_once p started s)

    abbrev pub pull_result :
        Text
        → Bytes
        → FileTransferResult
        → S × Result Text (Unit {0})
        → S × Option (Result TransferError FileTransferResult)
    pull_result path content r (s, err reason) = (s, some (err (cannot_write path reason)))
    pull_result path content r (s, ok u) = (s, some (ok r))

    abbrev pub store : Text → S × Pulled → S × Option (Result TransferError FileTransferResult)
    store path (s, unending) = (s, none)
    store path (s, gave_up e) = (s, some (err e))
    store path (s, got content chunks sha freshness) =
        pull_result path content
          (record {
            path = path;
            bytes = length content;
            sha256 = sha;
            chunks = chunks;
            freshness = freshness;
          })
          (l.write_file s path content)

    abbrev pub pull_checked :
        FilePullRequest
        → S
        → Result TransferError (Unit {0})
        → S × Option (Result TransferError FileTransferResult)
    pull_checked p s (err e) = (s, some (err e))
    pull_checked p s (ok u) = store p.local_path (pull_loop pull_attempts p (l.now s) 1 s)

    abbrev pub pull_ready :
        FilePullRequest
        → S
        → Result TransferError (Unit {0})
        → S × Option (Result TransferError FileTransferResult)
    pull_ready p s (err e) = (s, some (err e))
    pull_ready p s (ok u) = pull_checked p s (check_paths k p.local_path p.remote_path)

    -- It gives nothing when it does not end.
    unfoldable pub handle_pull :
        S → Readiness → FilePullRequest → S × Option (Result TransferError FileTransferResult)
    unfolding pull_loop ready_ipc check_paths
    handle_pull s r p = pull_ready p s (ready_ipc r)

module _ {S : Type 0} (l : Link S) where
  abbrev stat_result : Text → S × Result RequestError Json → S × Result TransferError FileStatResult
  stat_result path (s, err e) = (s, err (cannot_stat path e))
  stat_result path (s, ok stat) =
      let exists = flag_at (codes "exists") stat in
      let is_directory = flag_at (codes "is_directory") stat in
      (
        s,
        ok (record {
          path = path;
          exists = exists;
          is_directory = is_directory;
          size = if exists && not is_directory then number_at (codes "size") stat else none;
          sha256 = text_at (codes "sha256") stat;
          freshness = file_freshness stat;
        }),
      )

  abbrev stat_checked :
      S → Text → Result TransferError (Unit {0}) → S × Result TransferError FileStatResult
  stat_checked s path (err e) = (s, err e)
  stat_checked s path (ok u) = stat_result path (l.ask s (file_stat path) verify_timeout)

  abbrev stat_ready :
      S → Text → Result TransferError (Unit {0}) → S × Result TransferError FileStatResult
  stat_ready s path (err e) = (s, err e)
  stat_ready s path (ok u) = stat_checked s path (check_remote_path path)

  unfoldable handle_stat : S → Readiness → Text → S × Result TransferError FileStatResult
  unfolding ready_ipc check_remote_path file_freshness
  handle_stat s r path = stat_ready s path (ready_ipc r)
