-- ===== src/Transfer/Push.antt =====
-- file_transfer.rs: pushing a local file, chunk by chunk, into a sidecar that the agent swaps in.
use agent_rdp.Json.{Json}
use agent_rdp.Protocol.Automate.{AutomateRequest, file_write_chunk}
use agent_rdp.Dvc.Ipc.{RequestError, indeterminate}
use agent_rdp.Transfer.{
  Bytes, chunk_bytes, max_transfer_bytes, chunk_timeout, verify_timeout, abort_timeout,
  step_timeout_for, Crates, Link, TransferError, cannot_read, too_large, budget_exhausted,
  chunk_failed, no_hash, other_hash, other_size, check_paths, Readiness, ready_ipc, hex_digest,
  or_else, text_at, number_at, FileTransferResult,
}
use agent_rdp.Base.{
  ℕ, zero, suc, ◌+◌, ◌-◌, Bool, true, false, not, ◌||◌, Option, none, some, List, [], ◌∷◌, ltb,
  ◌==◌, if◌then◌else◌, Result, ok, err, length, take, drop, Text, codes, text_eq, lower,
}

-- `slice::chunks`; a list has no more chunks than items.
unfoldable pub chunks_from : ℕ → ℕ → Bytes → List Bytes
chunks_from zero n content = []
chunks_from (suc f) n [] = []
chunks_from (suc f) n (b ∷ bs) = take n (b ∷ bs) ∷ chunks_from f n (drop n (b ∷ bs))

-- An empty file is one empty chunk.
unfoldable pub chunks_of : Bytes → List Bytes
unfolding chunks_from
chunks_of [] = [] ∷ []
chunks_of (b ∷ bs) = chunks_from (length (b ∷ bs)) chunk_bytes (b ∷ bs)

unfoldable pub push_failure_advice : (last unknown : Bool) → Text
push_failure_advice last unknown =
    if not last
    then codes
        "The destination was not touched: the transfer is assembled in a sidecar and only swapped into place after the final chunk verifies, and that chunk was never sent. The partial sidecar was discarded. Re-running is safe."
    else if unknown
    then codes
        "Run `file stat` on the destination now, before deciding anything. The outcome is unknown: the reply to the final chunk was lost, so the verified file may or may not have been swapped into place."
    else codes
        "The agent rejected the final step (write, verification or the swap into place) and discarded the staged copy; the destination was not replaced. Re-running only helps if the error names something that has since changed - a file held open by another program, or a permission - otherwise the same input produces the same error."

abbrev pub is_indeterminate : RequestError → Bool
is_indeterminate (indeterminate id n i) = true
is_indeterminate e = false

-- `reply.and_then(get)`.
abbrev pub reported {ℓ} : {A : Type ℓ} → (Json → Option A) → Option Json → Option A
reported f none = none
reported f (some j) = f j

abbrev same_size : Text → ℕ → Option ℕ → Result TransferError (Unit {0})
same_size path sent none = ok tt
same_size path sent (some n) = if n == sent then ok tt else err (other_size path n sent)

abbrev verify_hash : Option Text → Option ℕ → Text → ℕ → Text → Result TransferError (Unit {0})
verify_hash none size sha sent path = err (no_hash path)
verify_hash (some h) size sha sent path =
    if text_eq (lower h) (lower sha)
    then same_size path sent size
    else err (other_hash path (lower h) sha)

unfoldable pub verify_push : Option Json → Text → ℕ → Text → Result TransferError (Unit {0})
verify_push reply sha sent path =
    verify_hash (reported (text_at (codes "sha256")) reply)
      (reported (number_at (codes "total_size")) reply) sha sent path

module _ (k : Crates) where
  abbrev pub chunk_request : (path id sha : Text) (index total : ℕ) → Bytes → AutomateRequest
  chunk_request path id sha index total c =
      let last = index + 1 == total in
      file_write_chunk path (k.encode c) (index == 0) last (if last then some sha else none) id
        false

  abbrev pub abort_request : (path id : Text) → AutomateRequest
  abort_request path id = file_write_chunk path [] false false none id true

  module _ {S : Type 0} (l : Link S) where
    -- What the agent answers is not looked at.
    unfoldable pub abort_push : S → (path id : Text) → S
    abort_push s path id = (l.ask s (abort_request path id) abort_timeout).0

    abbrev chunk_error : Text → ℕ → ℕ → RequestError → TransferError
    chunk_error path index total e =
        chunk_failed (index + 1) total path e
          (push_failure_advice (index + 1 == total) (is_indeterminate e))

    abbrev pub after_chunk :
        (path id : Text) (index total : ℕ)
        → (S → Option Json → S × Result TransferError (Option Json))
        → Option Json
        → S × Result RequestError Json
        → S × Result TransferError (Option Json)
    after_chunk path id index total rest final (s, ok reply) =
        rest s (if index + 1 == total then some reply else final)
    after_chunk path id index total rest final (s, err e) = (
      if not (index + 1 == total) || not (is_indeterminate e) then abort_push s path id else s,
      err (chunk_error path index total e),
    )

    abbrev pub send_chunk :
        (path id sha : Text) (index total : ℕ)
        → (S → Option Json → S × Result TransferError (Option Json))
        → S
        → Option Json
        → Bytes
        → Option ℕ
        → S × Result TransferError (Option Json)
    send_chunk path id sha index total rest s final c none =
        (abort_push s path id, err (budget_exhausted (codes "Push") index total path))
    send_chunk path id sha index total rest s final c (some timeout) =
        after_chunk path id index total rest final
          (l.ask s (chunk_request path id sha index total c) timeout)

    -- The loop over the chunks, with the reply to the last one.
    unfoldable pub push_chunks :
        (path id sha : Text) (started total index : ℕ)
        → List Bytes
        → S
        → Option Json
        → S × Result TransferError (Option Json)
    unfolding abort_push step_timeout_for
    push_chunks path id sha started total index [] s final = (s, ok final)
    push_chunks path id sha started total index (c ∷ cs) s final =
        send_chunk path id sha index total (push_chunks path id sha started total (index + 1) cs) s
          final c
          (step_timeout_for (if index + 1 == total then verify_timeout else chunk_timeout)
            (l.now s - started))

    abbrev pub push_result :
        (path sha : Text)
        → Bytes
        → Option Json
        → Result TransferError (Unit {0})
        → Result TransferError FileTransferResult
    push_result path sha content final (err e) = err e
    push_result path sha content final (ok u) = ok (record {
      path = or_else path (reported (text_at (codes "path")) final);
      bytes = length content;
      sha256 = sha;
      chunks = length (chunks_of content);
      freshness = none;
    })

    abbrev pub pushed :
        (path sha : Text)
        → Bytes
        → S × Result TransferError (Option Json)
        → S × Result TransferError FileTransferResult
    pushed path sha content (s, err e) = (s, err e)
    pushed path sha content (s, ok final) =
        (s, push_result path sha content final (verify_push final sha (length content) path))

    -- The transfer itself, of content that was read.
    unfoldable pub push_content :
        S → (path id : Text) → Bytes → S × Result TransferError FileTransferResult
    unfolding push_chunks verify_push hex_digest chunks_of
    push_content s path id content =
        if ltb max_transfer_bytes (length content)
        then (s, err (too_large path (length content)))
        else let cs = chunks_of content in
          let sha = hex_digest k content in
          pushed path sha content (push_chunks path id sha (l.now s) (length cs) 0 cs s none)

    abbrev pub push_read :
        (local path id : Text) → S × Result Text Bytes → S × Result TransferError FileTransferResult
    push_read local path id (s, err reason) = (s, err (cannot_read local reason))
    push_read local path id (s, ok content) = push_content s path id content

    abbrev pub push_checked :
        S
        → (local path id : Text) → Result TransferError (Unit {0})
        → S × Result TransferError FileTransferResult
    push_checked s local path id (err e) = (s, err e)
    push_checked s local path id (ok u) = push_read local path id (l.read_file s local)

    abbrev pub push_ready :
        S
        → (local path id : Text) → Result TransferError (Unit {0})
        → S × Result TransferError FileTransferResult
    push_ready s local path id (err e) = (s, err e)
    push_ready s local path id (ok u) = push_checked s local path id (check_paths k local path)

    unfoldable pub handle_push :
        S → Readiness → (local path id : Text) → S × Result TransferError FileTransferResult
    unfolding push_content ready_ipc check_paths
    handle_push s r local path id = push_ready s local path id (ready_ipc r)
