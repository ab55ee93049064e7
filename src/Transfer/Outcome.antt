-- ===== src/Transfer/Outcome.antt =====
-- file_transfer.rs with actions.ps1: what a whole push can end in.
use agent_rdp.Json.{Json, get, get_member}
use agent_rdp.Dvc.Ipc.{RequestError}
use agent_rdp.Transfer.{
  Bytes, max_transfer_bytes, Crates, Link, TransferError, chunk_failed, check_paths, Readiness,
  ready_ipc, hex_digest, or_else, text_at, FileTransferResult,
}
use agent_rdp.Transfer.Push.{
  chunks_from, chunks_of, push_failure_advice, is_indeterminate, reported, verify_push, push_chunks,
  push_result, pushed, push_content, push_read, push_checked, push_ready, handle_push,
}
use agent_rdp.Transfer.Agent.{Disk, content_of, finished_reply, Fate, Site, read_local, agent_link}
use agent_rdp.Transfer.Staging.{Kept, Swapped, Touched, Kept-refl}
use agent_rdp.Transfer.Atomic.{concat, chunks_of-concat, Ending, IsStaged, push_chunks-Ends}
use agent_rdp.Base.{
  ℕ, ◌≤◌, ◌≡◌, refl, sym, ap, ◌∙◌, subst, true, Option, none, some, List, [], ◌∷◌, arith, ltb, ◌==◌,
  if_either, Result, ok, err, length, Text, codes, text_eq, text_eq_refl, lower,
}

chunks_of-nonempty : (content : Bytes) → 1 ≤ length (chunks_of content)
unfolding chunks_of chunks_from
chunks_of-nonempty [] = omega arith
chunks_of-nonempty (b ∷ bs) = omega arith

==-refl : (n : ℕ) → (n == n) ≡ true
==-refl n = ground arith

module _ (k : Crates) where
  finished-verifies :
      (path : Text) (content : Bytes) (n : ℕ)
      → verify_push
          (some (finished_reply k path content n))
          (hex_digest k content)
          (length content)
          path
        ≡ ok tt
  unfolding verify_push get get_member text_eq
  finished-verifies path content n =
      let h = text_eq_refl (lower (hex_digest k content)) in
      let e = ==-refl (length content) in ground (arith, h, e)

  -- The three ways a push ends. It failed, and no file of the remote disk differs but for sidecars
  -- of the path; the path has the content, no other such file differs, and the result names the
  -- content's hash and size; or its last chunk is what failed, the path has the content or its old
  -- file is gone, and no other such file differs.
  pub data PushEnds (path : Text) (content : Bytes) (before : Disk)
      (r : Site × Result TransferError FileTransferResult) : Type 0 where
    nothing_changed :
        Kept path before (Site.disk r.0)
        → (e : TransferError) → r.1 ≡ err e
        → PushEnds path content before r
    replaced :
        Swapped path content before (Site.disk r.0)
        → (result : FileTransferResult) → r.1 ≡ ok result
        → FileTransferResult.sha256 result ≡ hex_digest k content
        → FileTransferResult.bytes result ≡ length content
        → PushEnds path content before r
    failed_late :
        Touched path content before (Site.disk r.0)
        → (e : RequestError) (total : ℕ)
        → r.1
          ≡ err (chunk_failed total total path e (push_failure_advice true (is_indeterminate e)))
        → PushEnds path content before r

  module _ (fates : ℕ → Fate) (delay : ℕ → ℕ) where
    abbrev link : Link Site
    link = agent_link k fates delay

    abbrev result_of : Text → Bytes → Option Json → FileTransferResult
    result_of path content f = record {
      path = or_else path (reported (text_at (codes "path")) f);
      bytes = length content;
      sha256 = hex_digest k content;
      chunks = length (chunks_of content);
      freshness = none;
    }

    push_result-ok :
        (path : Text) (content : Bytes) (f : Option Json) (v : Result TransferError (Unit {0}))
        → v ≡ ok tt
        → push_result k link path (hex_digest k content) content f v ≡ ok (result_of path content f)
    push_result-ok path content f (ok tt) e = refl
    push_result-ok path content f (err x) e = ground arith

    pushed-PushEnds :
        (path id : Text) (content : Bytes) (total : ℕ) (d : Disk)
        (r : Site × Result TransferError (Option Json))
        → Ending k fates delay path id (hex_digest k content) total content d r
        → PushEnds path content d (pushed k link path (hex_digest k content) content r)
    pushed-PushEnds path id content total d (w, err e) (Ending.unchanged kept e' x) =
        nothing_changed kept e refl
    pushed-PushEnds path id content total d (w, err e) (Ending.confirmed s n x) = ground arith
    pushed-PushEnds path id content total d (w, err e) (Ending.unknown s e' x) =
        let y : e
            ≡ chunk_failed total total path e' (push_failure_advice true (is_indeterminate e')) =
          cc in
        failed_late s e' total (ap err y)
    pushed-PushEnds path id content total d (w, ok f) (Ending.unchanged kept e x) = ground arith
    pushed-PushEnds path id content total d (w, ok f) (Ending.confirmed s n x) =
        let y : f ≡ some (finished_reply k path content n) = cc in
        replaced s (result_of path content f)
          (push_result-ok path content f
            (verify_push f (hex_digest k content) (length content) path)
            (ap (λ g. verify_push g (hex_digest k content) (length content) path) y
              ∙ finished-verifies path content n))
          refl refl
    pushed-PushEnds path id content total d (w, ok f) (Ending.unknown s e x) = ground arith

    module _ (codec : (c : Bytes) → k.decode (k.encode c) ≡ some c) where
      chunks-Ends :
          (w : Site) (path id sha : Text) (content : Bytes) (cs : List Bytes)
          → 1 ≤ length cs
          → content ≡ concat cs
          → Ending k fates delay path id sha
              (length cs)
              content
              w.disk
              (push_chunks k link path id sha w.clock (length cs) 0 cs w none)
      unfolding IsStaged
      chunks-Ends w path id sha content [] h e = ground (arith, h)
      chunks-Ends w path id sha content (c ∷ cs) h e =
          push_chunks-Ends k fates delay path id sha codec content w.disk (length (c ∷ cs)) w.clock
            cs c 0 [] w none (omega arith) e (Kept-refl path w.disk)
            (λ z. refl, λ ne. ground (arith, ne))

      push_content-PushEnds :
          (w : Site) (path id : Text) (content : Bytes)
          → PushEnds path content w.disk (push_content k link w path id content)
      unfolding push_content
      push_content-PushEnds w path id content =
          if_either (PushEnds path content w.disk) (ltb max_transfer_bytes (length content))
            (nothing_changed (Kept-refl path w.disk) _ refl)
            (pushed-PushEnds path id content (length (chunks_of content)) w.disk
              (push_chunks k link path id (hex_digest k content) w.clock
                (length (chunks_of content)) 0 (chunks_of content) w none)
              (chunks-Ends w path id (hex_digest k content) content (chunks_of content)
                (chunks_of-nonempty content) (sym (chunks_of-concat content))))

      push_checked-PushEnds :
          (w : Site) (local path id : Text) (content : Bytes) (c : Result TransferError (Unit {0}))
          → content_of local w.local ≡ some content
          → PushEnds path content w.disk (push_checked k link w local path id c)
      push_checked-PushEnds w local path id content (err e) h =
          nothing_changed (Kept-refl path w.disk) e refl
      push_checked-PushEnds w local path id content (ok u) h =
          subst
            (λ o.
              PushEnds path content w.disk
                (push_read k link local path id (w, read_local k fates delay o)))
            (sym h) (push_content-PushEnds w path id content)

      push_ready-PushEnds :
          (w : Site) (local path id : Text) (content : Bytes) (c : Result TransferError (Unit {0}))
          → content_of local w.local ≡ some content
          → PushEnds path content w.disk (push_ready k link w local path id c)
      push_ready-PushEnds w local path id content (err e) h =
          nothing_changed (Kept-refl path w.disk) e refl
      push_ready-PushEnds w local path id content (ok u) h =
          push_checked-PushEnds w local path id content (check_paths k local path) h

  -- When base64 decodes what it encoded, a push of a local file ends in one of three ways, whatever
  -- its requests meet on the remote machine and whichever of them, or of their replies, are lost or
  -- answered by an error of the daemon's: it failed, and no remote file but sidecars of the path
  -- differs; or it succeeded, the path has exactly the local file's content, nothing else but
  -- sidecars differs, and the result names the content's hash and size; or it failed and names its
  -- last chunk as what failed, nothing else but sidecars differs, and the path has exactly the local
  -- file's content or no file.
  pub push_is_atomic :
      ((c : Bytes) → k.decode (k.encode c) ≡ some c)
      → (fates : ℕ → Fate) (delay : ℕ → ℕ) (w : Site) (ready : Readiness) (local path id : Text)
        (content : Bytes)
      → content_of local w.local ≡ some content
      → PushEnds path content w.disk
          (handle_push k (agent_link k fates delay) w ready local path id)
  unfolding handle_push
  push_is_atomic codec fates delay w ready local path id content h =
      push_ready-PushEnds fates delay codec w local path id content (ready_ipc ready) h
