-- ===== src/Transfer/Ends.antt =====
-- file_transfer.rs: the end of a pull.
use agent_rdp.Json.{Json}
use agent_rdp.Protocol.Automate.{file_stat, file_read_chunk}
use agent_rdp.Dvc.Ipc.{RequestError}
use agent_rdp.Transfer.{
  Bytes, chunk_bytes, chunk_timeout, verify_timeout, step_timeout_for, Crates, Link, TransferError,
  check_paths, Readiness, ready_ipc, or_else, text_at, FileTransferResult,
}
use agent_rdp.Transfer.Pull.{
  pull_attempts, retry_pull, pull_backoff, FilePullRequest, ReadOutcome, read_all, read_error,
  unfinished, PullAttempt, delivered, differs, failed_with, never_ends, Pulled, got, gave_up,
  unending, size_of, check_stat, verified, take_chunk, after_read, read_chunk, read_chunks,
  attempt_of, after_check, after_stat, with_stat, pull_once, after_attempt, pull_loop, pull_result,
  store, pull_checked, pull_ready, handle_pull,
}
use agent_rdp.Base.{
  ℕ, zero, suc, ◌+◌, ◌-◌, ◌≤◌, ◌<◌, refl, ◌≢◌, Option, none, some, [], ◌∷◌, ◌++◌, arith, ltb,
  if_either, Result, ok, err, length, length-append, Text, codes,
}

read_all-lem : (c : Bytes) (n : ℕ) → read_all c n ≢ unfinished
read_all-lem c n h = cc

module _ (k : Crates) {S : Type 0} (l : Link S) where
  module _ (path : Text) (content : Bytes) (chunks : ℕ) where
    take_chunk-ends :
        (value : Json) (rest : Bytes → ℕ → S × ReadOutcome) (s : S) (o : Option Bytes)
        → ((b : ℕ) (bs : Bytes) → (rest (content ++ (b ∷ bs)) (chunks + 1)).1 ≢ unfinished)
        → (take_chunk k l path content chunks value rest s o).1 ≢ unfinished
    take_chunk-ends value rest s none h e = cc
    take_chunk-ends value rest s (some []) h e = ground arith
    take_chunk-ends value rest s (some (b ∷ bs)) h e = h b bs e

    after_read-ends :
        (rest : S → Bytes → ℕ → S × ReadOutcome) (r : S × Result RequestError Json)
        → ((s : S) (b : ℕ) (bs : Bytes)
            → (rest s (content ++ (b ∷ bs)) (chunks + 1)).1 ≢ unfinished)
        → (after_read k l path content chunks rest r).1 ≢ unfinished
    after_read-ends rest (s, err e) h x = cc
    after_read-ends rest (s, ok value) h x =
        take_chunk-ends value (rest s) s (k.decode (or_else [] (text_at (codes "data_b64") value)))
          (h s) x

    read_chunk-ends :
        (size : ℕ) (rest : S → Bytes → ℕ → S × ReadOutcome) (s : S) (t : Option ℕ)
        → ((s' : S) (b : ℕ) (bs : Bytes)
            → (rest s' (content ++ (b ∷ bs)) (chunks + 1)).1 ≢ unfinished)
        → (read_chunk k l path size content chunks rest s t).1 ≢ unfinished
    read_chunk-ends size rest s none h x = cc
    read_chunk-ends size rest s (some t) h x =
        after_read-ends rest (l.ask s (file_read_chunk path (length content) chunk_bytes) t) h x

  read_chunks-ends :
      (f : ℕ) (path : Text) (started size : ℕ) (s : S) (content : Bytes) (chunks : ℕ)
      → size ≤ f + length content
      → (read_chunks k l f path started size s content chunks).1 ≢ unfinished
  unfolding read_chunks
  read_chunks-ends zero path started size s content chunks h e = ground arith
  read_chunks-ends (suc f) path started size s content chunks h e =
      if_either (λ (r : S × ReadOutcome). r.1 ≢ unfinished) (ltb (length content) size)
        (read_chunk-ends path content chunks size (read_chunks k l f path started size) s
          (step_timeout_for chunk_timeout (l.now s - started))
          (λ s' b bs.
            read_chunks-ends f path started size s' (content ++ (b ∷ bs)) (chunks + 1)
              (omega (arith, h, length-append content (b ∷ bs)))))
        (read_all-lem content chunks) e

  attempt_of-ends :
      (path : Text) (stat : Json) (r : S × ReadOutcome)
      → r.1 ≢ unfinished
      → (attempt_of k l path stat r).1 ≢ never_ends
  unfolding verified
  attempt_of-ends path stat (s, unfinished) h e = h refl
  attempt_of-ends path stat (s, read_error x) h e = cc
  attempt_of-ends path stat (s, read_all c n) h e = ground arith

  module _ (p : FilePullRequest) (started : ℕ) where
    after_check-ends :
        (stat : Json) (s : S) (r : Result TransferError (Unit {0}))
        → (after_check k l p started stat s r).1 ≢ never_ends
    after_check-ends stat s (err x) e = cc
    after_check-ends stat s (ok u) e =
        attempt_of-ends p.remote_path stat
          (read_chunks k l (size_of stat) p.remote_path started (size_of stat) s [] 0)
          (read_chunks-ends (size_of stat) p.remote_path started (size_of stat) s [] 0
            (omega arith))
          e

    after_stat-ends :
        (r : S × Result RequestError Json) → (after_stat k l p started r).1 ≢ never_ends
    after_stat-ends (s, err x) e = cc
    after_stat-ends (s, ok stat) e = after_check-ends stat s (check_stat p stat) e

    with_stat-ends : (s : S) (t : Option ℕ) → (with_stat k l p started s t).1 ≢ never_ends
    with_stat-ends s none e = cc
    with_stat-ends s (some t) e = after_stat-ends (l.ask s (file_stat p.remote_path) t) e

    pull_once-ends : (s : S) → (pull_once k l p started s).1 ≢ never_ends
    unfolding pull_once
    pull_once-ends s = with_stat-ends s (step_timeout_for verify_timeout (l.now s - started))

    after_attempt-ends :
        (f attempt : ℕ) (r : S × PullAttempt)
        → r.1 ≢ never_ends
        → ((s : S)
            → attempt < pull_attempts
            → (pull_loop k l f p started (attempt + 1) s).1 ≢ unending)
        → (after_attempt k l p started attempt (pull_loop k l f p started (attempt + 1)) r).1
          ≢ unending
    unfolding retry_pull
    after_attempt-ends f attempt (s, delivered c n h g) x rest e = cc
    after_attempt-ends f attempt (s, failed_with y) x rest e = cc
    after_attempt-ends f attempt (s, never_ends) x rest e = x refl
    after_attempt-ends f attempt (s, differs remote local size) x rest e =
        let again = rest (l.sleep s (pull_backoff attempt)) in ground (arith, again)

    pull_loop-ends :
        (f attempt : ℕ) (s : S)
        → pull_attempts < f + attempt
        → attempt ≤ pull_attempts
        → (pull_loop k l f p started attempt s).1 ≢ unending
    unfolding pull_loop
    pull_loop-ends zero attempt s h h' e = omega (arith, h, h')
    pull_loop-ends (suc f) attempt s h h' e =
        after_attempt-ends f attempt (pull_once k l p started s) (pull_once-ends s)
          (λ s' lt. pull_loop-ends f (attempt + 1) s' (omega (arith, h)) (omega (arith, lt))) e

  pull_result-ends :
      (path : Text) (c : Bytes) (q : FileTransferResult) (w : S × Result Text (Unit {0}))
      → (pull_result k l path c q w).1 ≢ none
  pull_result-ends path c q (s, ok u) e = cc
  pull_result-ends path c q (s, err x) e = cc

  store-ends : (path : Text) (q : S × Pulled) → q.1 ≢ unending → (store k l path q).1 ≢ none
  store-ends path (s, unending) h e = h refl
  store-ends path (s, gave_up x) h e = cc
  store-ends path (s, got c n sha f) h e = pull_result-ends path c _ (l.write_file s path c) e

  pull_checked-ends :
      (s : S) (p : FilePullRequest) (c : Result TransferError (Unit {0}))
      → (pull_checked k l p s c).1 ≢ none
  pull_checked-ends s p (err x) e = cc
  pull_checked-ends s p (ok u) e =
      store-ends p.local_path (pull_loop k l pull_attempts p (l.now s) 1 s)
        (pull_loop-ends p (l.now s) pull_attempts 1 s (omega arith) (omega arith)) e

  pull_ready-ends :
      (s : S) (p : FilePullRequest) (c : Result TransferError (Unit {0}))
      → (pull_ready k l p s c).1 ≢ none
  pull_ready-ends s p (err x) e = cc
  pull_ready-ends s p (ok u) e = pull_checked-ends s p (check_paths k p.local_path p.remote_path) e

  -- A pull ends, whatever the agent answers: each chunk that is taken brings the content nearer to
  -- the size that the stat named, and no more than three attempts are made.
  pub pull_ends :
      (s : S) (ready : Readiness) (p : FilePullRequest) → (handle_pull k l s ready p).1 ≢ none
  unfolding handle_pull
  pull_ends s ready p e = pull_ready-ends s p (ready_ipc ready) e
