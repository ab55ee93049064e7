-- ===== src/Transfer/Budget.antt =====
-- file_transfer.rs: how long a transfer takes, against what the command line waits for it.
use agent_rdp.Json.{Json}
use agent_rdp.Protocol.Automate.{AutomateRequest, file_stat, file_read_chunk}
use agent_rdp.Dvc.Ipc.{RequestError}
use agent_rdp.Transfer.{
  Bytes, chunk_bytes, max_transfer_bytes, chunk_timeout, verify_timeout, transfer_budget,
  abort_timeout, transfer_timeout_ms, step_timeout_for, Crates, Link, TransferError, hex_digest,
  or_else, text_at, flag_at, FileTransferResult,
}
use agent_rdp.Transfer.Push.{
  chunks_of, is_indeterminate, chunk_request, abort_request, abort_push, after_chunk, send_chunk,
  push_chunks, pushed, push_content,
}
use agent_rdp.Transfer.Pull.{
  pull_attempts, pull_retry_max_elapsed, retry_pull, pull_backoff, FilePullRequest, ReadOutcome,
  read_all, read_error, unfinished, PullAttempt, delivered, differs, failed_with, never_ends,
  Pulled, size_of, check_stat, take_chunk, after_read, read_chunk, read_chunks, attempt_of,
  after_check, after_stat, with_stat, pull_once, after_attempt, pull_loop,
}
use agent_rdp.Base.{
  ℕ, zero, suc, ◌+◌, ◌-◌, ◌≤◌, ◌<◌, ◌≡◌, refl, sym, subst, inl, inr, true, not, ◌||◌, Option, none,
  some, List, [], ◌∷◌, ◌++◌, arith, ltb, ◌==◌, if◌then◌else◌, Bool-cases, if_either, Result, ok,
  err, length, Text, codes,
}

step_timeout-within :
    (step elapsed t : ℕ) → step_timeout_for step elapsed ≡ some t → t + elapsed ≤ transfer_budget
unfolding step_timeout_for
step_timeout-within step elapsed t h = ground arith

pull_backoff-short : (attempt : ℕ) → attempt < pull_attempts → pull_backoff attempt ≤ 300
unfolding pull_backoff
pull_backoff-short zero h = omega arith
pull_backoff-short (suc zero) h = omega arith
pull_backoff-short (suc (suc zero)) h = omega arith
pull_backoff-short (suc (suc (suc a))) h = omega (arith, h)

retry_pull-quick :
    (attempt size elapsed : ℕ)
    → retry_pull attempt size elapsed ≡ true
    → (elapsed < pull_retry_max_elapsed) × (pull_backoff attempt ≤ 300)
unfolding retry_pull
retry_pull-quick attempt size elapsed h =
    let short = pull_backoff-short attempt in (ground arith, ground (arith, short))

module _ (k : Crates) {S : Type 0} (l : Link S) where
  -- A request is given up at its deadline, a pause lasts what was asked for, and the clock does not
  -- go back.
  unfoldable pub IsTimely : Type 0
  IsTimely =
      ((s : S) (r : AutomateRequest) (t : ℕ)
        → (l.now s ≤ l.now (l.ask s r t).0) × (l.now (l.ask s r t).0 ≤ l.now s + t))
      × ((s : S) (d : ℕ) → (l.now s ≤ l.now (l.sleep s d)) × (l.now (l.sleep s d) ≤ l.now s + d))

  module _ (timely : IsTimely) (started : ℕ) where
    IsWithin : S → Type 0
    IsWithin s = (started ≤ l.now s) × (l.now s ≤ started + transfer_budget)

    ask-IsWithin :
        (s : S) (r : AutomateRequest) (step t : ℕ)
        → IsWithin s
        → step_timeout_for step (l.now s - started) ≡ some t
        → IsWithin (l.ask s r t).0
    unfolding IsWithin IsTimely
    ask-IsWithin s r step t h e =
        let a = timely.0 s r t in
        let b = step_timeout-within step (l.now s - started) t e in
        (omega (arith, a.0, h.0), omega (arith, a.1, b, h.0, h.1))

    IsOver : S → Type 0
    IsOver s = l.now s ≤ started + transfer_budget + abort_timeout

    abort_push-IsOver : (s : S) (path id : Text) → IsWithin s → IsOver (abort_push k l s path id)
    unfolding IsWithin IsTimely IsOver abort_push
    abort_push-IsOver s path id h =
        omega (arith, h.1, (timely.0 s (abort_request k path id) abort_timeout).1)

    module _ (path id sha : Text) (total : ℕ) where
      after_chunk-IsOver :
          (index : ℕ) (rest : S → Option Json → S × Result TransferError (Option Json))
          (final : Option Json) (r : S × Result RequestError Json)
          → IsWithin r.0
          → ((s : S) (f : Option Json) → IsWithin s → IsOver (rest s f).0)
          → IsOver (after_chunk k l path id index total rest final r).0
      unfolding IsOver IsWithin
      after_chunk-IsOver index rest final (s, ok reply) h x =
          x s (if index + 1 == total then some reply else final) h
      after_chunk-IsOver index rest final (s, err e) h x =
          if_either IsOver (not (index + 1 == total) || not (is_indeterminate e))
            (abort_push-IsOver s path id h) (omega (arith, h.1))

      send_chunk-IsOver :
          (index step : ℕ) (rest : S → Option Json → S × Result TransferError (Option Json)) (s : S)
          (final : Option Json) (c : Bytes) (o : Option ℕ)
          → IsWithin s
          → step_timeout_for step (l.now s - started) ≡ o
          → ((s' : S) (f : Option Json) → IsWithin s' → IsOver (rest s' f).0)
          → IsOver (send_chunk k l path id sha index total rest s final c o).0
      send_chunk-IsOver index step rest s final c none h e x = abort_push-IsOver s path id h
      send_chunk-IsOver index step rest s final c (some t) h e x =
          let r = chunk_request k path id sha index total c in
          after_chunk-IsOver index rest final (l.ask s r t) (ask-IsWithin s r step t h e) x

      push_chunks-IsOver :
          (cs : List Bytes) (index : ℕ) (s : S) (final : Option Json)
          → IsWithin s
          → IsOver (push_chunks k l path id sha started total index cs s final).0
      unfolding push_chunks IsOver IsWithin
      push_chunks-IsOver [] index s final h = omega (arith, h.1)
      push_chunks-IsOver (c ∷ cs) index s final h =
          send_chunk-IsOver index (if index + 1 == total then verify_timeout else chunk_timeout)
            (push_chunks k l path id sha started total (index + 1) cs) s final c
            (step_timeout_for (if index + 1 == total then verify_timeout else chunk_timeout)
              (l.now s - started))
            h refl (λ s' f within. push_chunks-IsOver cs (index + 1) s' f within)

    pushed-IsOver :
        (path sha : Text) (content : Bytes) (r : S × Result TransferError (Option Json))
        → IsOver r.0
        → IsOver (pushed k l path sha content r).0
    pushed-IsOver path sha content (s, err e) h = h
    pushed-IsOver path sha content (s, ok final) h = h

    take_chunk-IsWithin :
        (path : Text) (content : Bytes) (chunks : ℕ) (value : Json)
        (rest : Bytes → ℕ → S × ReadOutcome) (s : S) (o : Option Bytes)
        → IsWithin s
        → ((c : Bytes) (n : ℕ) → IsWithin (rest c n).0)
        → IsWithin (take_chunk k l path content chunks value rest s o).0
    take_chunk-IsWithin path content chunks value rest s none h x = h
    take_chunk-IsWithin path content chunks value rest s (some []) h x =
        if_either (λ (r : S × ReadOutcome). IsWithin r.0) (flag_at (codes "eof") value) h h
    take_chunk-IsWithin path content chunks value rest s (some (b ∷ bs)) h x =
        x (content ++ (b ∷ bs)) (chunks + 1)

    after_read-IsWithin :
        (path : Text) (content : Bytes) (chunks : ℕ) (rest : S → Bytes → ℕ → S × ReadOutcome)
        (r : S × Result RequestError Json)
        → IsWithin r.0
        → ((s' : S) (c : Bytes) (n : ℕ) → IsWithin s' → IsWithin (rest s' c n).0)
        → IsWithin (after_read k l path content chunks rest r).0
    after_read-IsWithin path content chunks rest (s, err e) h x = h
    after_read-IsWithin path content chunks rest (s, ok value) h x =
        take_chunk-IsWithin path content chunks value (rest s) s
          (k.decode (or_else [] (text_at (codes "data_b64") value))) h (λ c n. x s c n h)

    read_chunk-IsWithin :
        (path : Text) (size : ℕ) (content : Bytes) (chunks : ℕ)
        (rest : S → Bytes → ℕ → S × ReadOutcome) (s : S) (o : Option ℕ)
        → IsWithin s
        → step_timeout_for chunk_timeout (l.now s - started) ≡ o
        → ((s' : S) (c : Bytes) (n : ℕ) → IsWithin s' → IsWithin (rest s' c n).0)
        → IsWithin (read_chunk k l path size content chunks rest s o).0
    read_chunk-IsWithin path size content chunks rest s none h e x = h
    read_chunk-IsWithin path size content chunks rest s (some t) h e x =
        let r = file_read_chunk path (length content) chunk_bytes in
        after_read-IsWithin path content chunks rest (l.ask s r t)
          (ask-IsWithin s r chunk_timeout t h e) x

    read_chunks-IsWithin :
        (f : ℕ) (path : Text) (size : ℕ) (s : S) (content : Bytes) (chunks : ℕ)
        → IsWithin s
        → IsWithin (read_chunks k l f path started size s content chunks).0
    unfolding read_chunks
    read_chunks-IsWithin zero path size s content chunks h = h
    read_chunks-IsWithin (suc f) path size s content chunks h =
        if_either (λ (r : S × ReadOutcome). IsWithin r.0) (ltb (length content) size)
          (read_chunk-IsWithin path size content chunks (read_chunks k l f path started size) s
            (step_timeout_for chunk_timeout (l.now s - started)) h refl
            (λ s' c n within. read_chunks-IsWithin f path size s' c n within))
          h

    module _ (p : FilePullRequest) where
      attempt_of-0 :
          (path : Text) (stat : Json) (r : S × ReadOutcome) → (attempt_of k l path stat r).0 ≡ r.0
      attempt_of-0 path stat (s, unfinished) = refl
      attempt_of-0 path stat (s, read_error e) = refl
      attempt_of-0 path stat (s, read_all c n) = refl

      after_check-IsWithin :
          (stat : Json) (s : S) (r : Result TransferError (Unit {0}))
          → IsWithin s
          → IsWithin (after_check k l p started stat s r).0
      after_check-IsWithin stat s (err e) h = h
      after_check-IsWithin stat s (ok u) h =
          let r = read_chunks k l (size_of stat) p.remote_path started (size_of stat) s [] 0 in
          subst IsWithin (sym (attempt_of-0 p.remote_path stat r))
            (read_chunks-IsWithin (size_of stat) p.remote_path (size_of stat) s [] 0 h)

      after_stat-IsWithin :
          (r : S × Result RequestError Json)
          → IsWithin r.0
          → IsWithin (after_stat k l p started r).0
      after_stat-IsWithin (s, err e) h = h
      after_stat-IsWithin (s, ok stat) h = after_check-IsWithin stat s (check_stat p stat) h

      with_stat-IsWithin :
          (s : S) (o : Option ℕ)
          → IsWithin s
          → step_timeout_for verify_timeout (l.now s - started) ≡ o
          → IsWithin (with_stat k l p started s o).0
      with_stat-IsWithin s none h e = h
      with_stat-IsWithin s (some t) h e =
          let r = file_stat p.remote_path in
          after_stat-IsWithin (l.ask s r t) (ask-IsWithin s r verify_timeout t h e)

      retry-IsWithin :
          (attempt size : ℕ) (rest : S → S × Pulled) (s : S) (y : Pulled)
          → IsWithin s
          → ((s' : S) → IsWithin s' → IsWithin (rest s').0)
          → IsWithin
              (if retry_pull attempt size (l.now s - started)
                then rest (l.sleep s (pull_backoff attempt))
                else (s, y)).0
      unfolding IsWithin IsTimely
      retry-IsWithin attempt size rest s y h x =
          elim (Bool-cases (retry_pull attempt size (l.now s - started))) [
            | inl e ↦
                let quick = retry_pull-quick attempt size (l.now s - started) e in
                let paused = timely.1 s (pull_backoff attempt) in
                let next =
                  x (l.sleep s (pull_backoff attempt)) (
                    omega (arith, h.0, paused.0),
                    omega (arith, h.0, quick.0, quick.1, paused.1),
                  ) in
                ground (arith, next)
            | inr e ↦ ground (arith, h)
          ]

      after_attempt-IsWithin :
          (attempt : ℕ) (rest : S → S × Pulled) (r : S × PullAttempt)
          → IsWithin r.0
          → ((s : S) → IsWithin s → IsWithin (rest s).0)
          → IsWithin (after_attempt k l p started attempt rest r).0
      after_attempt-IsWithin attempt rest (s, delivered c n sha f) h x = h
      after_attempt-IsWithin attempt rest (s, failed_with e) h x = h
      after_attempt-IsWithin attempt rest (s, never_ends) h x = h
      after_attempt-IsWithin attempt rest (s, differs remote local size) h x =
          retry-IsWithin attempt size rest s _ h x

      pull_loop-IsWithin :
          (f attempt : ℕ) (s : S) → IsWithin s → IsWithin (pull_loop k l f p started attempt s).0
      unfolding pull_loop pull_once
      pull_loop-IsWithin zero attempt s h = h
      pull_loop-IsWithin (suc f) attempt s h =
          after_attempt-IsWithin attempt (pull_loop k l f p started (attempt + 1))
            (pull_once k l p started s)
            (with_stat-IsWithin s (step_timeout_for verify_timeout (l.now s - started)) h refl)
            (pull_loop-IsWithin f (attempt + 1))

  starts : (timely : IsTimely) (s : S) → IsWithin timely (l.now s) s
  unfolding IsWithin
  starts timely s = (omega arith, omega arith)

  -- When requests are given up at their deadlines and pauses last what was asked for, then a push
  -- of content, its clean-up included, and all attempts of a pull are over before the time that
  -- the command line allows, whatever the agent answers.
  pub transfers_fit_in :
      IsTimely
      → (s : S) (path id : Text) (content : Bytes) (p : FilePullRequest)
      → (l.now (push_content k l s path id content).0 < l.now s + transfer_timeout_ms)
        × (l.now (pull_loop k l pull_attempts p (l.now s) 1 s).0 < l.now s + transfer_timeout_ms)
  unfolding push_content IsOver IsWithin
  transfers_fit_in timely s path id content p =
      let sha = hex_digest k content in
      let cs = chunks_of content in
      (
        if_either
            (λ (r : S × Result TransferError FileTransferResult).
              l.now r.0 < l.now s + transfer_timeout_ms)
            (ltb max_transfer_bytes (length content)) (omega arith)
            (omega (
              arith,
              pushed-IsOver timely (l.now s) path sha content
                  (push_chunks k l path id sha (l.now s) (length cs) 0 cs s none)
                  (push_chunks-IsOver timely (l.now s) path id sha (length cs) cs 0 s none
                    (starts timely s)),
            )),
        omega
            (arith, (pull_loop-IsWithin timely (l.now s) p pull_attempts 1 s (starts timely s)).1),
      )
