-- ===== src/Transfer/Atomic.antt =====
-- file_transfer.rs with actions.ps1: what the chunks of a push do to the remote files.
use agent_rdp.Json.{Json}
use agent_rdp.Dvc.Ipc.{RequestError}
use agent_rdp.Transfer.{
  Bytes, chunk_bytes, chunk_timeout, verify_timeout, step_timeout_for, Crates, Link, TransferError,
  chunk_failed,
}
use agent_rdp.Transfer.Push.{
  chunks_from, chunks_of, push_failure_advice, is_indeterminate, chunk_request, abort_request,
  abort_push, after_chunk, send_chunk, push_chunks,
}
use agent_rdp.Transfer.Agent.{
  Disk, content_of, part_of, existing, tid_of, finished_reply, serve, Fate, served, unheard,
  undelivered, Site, fated, agent_link,
}
use agent_rdp.Transfer.Staging.{
  Kept, Swapped, Touched, Kept-refl, Kept-then, Kept-Swapped, Kept-Touched, Touched-Kept, broken,
  Step, refused, appended, swapped, write_chunk-Step, abort-Kept,
}
use agent_rdp.Base.{
  ℕ, zero, suc, ◌+◌, ◌-◌, ◌≤◌, ◌≡◌, refl, sym, ap, ◌∙◌, subst, ◌≢◌, inl, true, false, not, ◌||◌,
  Option, none, some, List, [], ◌∷◌, ◌++◌, arith, ◌==◌, if◌then◌else◌, ==_iff, if_either, Result,
  ok, err, length, take, drop, length-drop, append_assoc, append-nil, Text,
}

abbrev pub concat : List Bytes → Bytes
concat [] = []
concat (c ∷ cs) = c ++ concat cs

pub take-drop : (n : ℕ) (xs : Bytes) → take n xs ++ drop n xs ≡ xs
take-drop zero xs = refl
take-drop (suc n) [] = refl
take-drop (suc n) (x ∷ xs) = ap (λ t. x ∷ t) (take-drop n xs)

chunks_from-concat :
    (f n : ℕ) (content : Bytes)
    → 1 ≤ n
    → length content ≤ f
    → concat (chunks_from f n content) ≡ content
unfolding chunks_from
chunks_from-concat zero n [] h h' = refl
chunks_from-concat zero n (b ∷ bs) h h' = ground (arith, h')
chunks_from-concat (suc f) n [] h h' = refl
chunks_from-concat (suc f) n (b ∷ bs) h h' =
    ap (λ t. take n (b ∷ bs) ++ t)
      (chunks_from-concat f n (drop n (b ∷ bs)) h (omega (arith, h, h', length-drop n (b ∷ bs))))
    ∙ take-drop n (b ∷ bs)

-- The chunks are the content.
pub chunks_of-concat : (content : Bytes) → concat (chunks_of content) ≡ content
unfolding chunks_of
chunks_of-concat [] = refl
chunks_of-concat (b ∷ bs) =
    chunks_from-concat (length (b ∷ bs)) chunk_bytes (b ∷ bs) (omega arith) (omega arith)

module _ (k : Crates) (fates : ℕ → Fate) (delay : ℕ → ℕ) (path id sha : Text) where
  -- How a push ends: the remote files are as they were and it failed; or the path has the content
  -- and the push has its confirmation; or its last step failed too late.
  pub data Ending (total : ℕ) (content : Bytes) (d0 : Disk)
      (r : Site × Result TransferError (Option Json)) : Type 0 where
    unchanged :
        Kept path d0 (Site.disk r.0) → (e : TransferError) → r.1 ≡ err e → Ending total content d0 r
    confirmed :
        Swapped path content d0 (Site.disk r.0)
        → (n : ℕ) → r.1 ≡ ok (some (finished_reply k path content n))
        → Ending total content d0 r
    unknown :
        Touched path content d0 (Site.disk r.0)
        → (e : RequestError)
        → r.1
          ≡ err (chunk_failed total total path e (push_failure_advice true (is_indeterminate e)))
        → Ending total content d0 r

  abbrev link : Link Site
  link = agent_link k fates delay

  abbrev disk_of : Site × Result TransferError (Option Json) → Disk
  disk_of r = r.0.disk

  abort_fated-Kept :
      (f : Fate) (d : Disk) → Kept path d (fated k fates delay f (abort_request k path id) d).0
  abort_fated-Kept (served u) d = abort-Kept path k id d u
  abort_fated-Kept (unheard u e) d = abort-Kept path k id d u
  abort_fated-Kept (undelivered e) d = Kept-refl path d

  abort_push-Kept : (w : Site) → Kept path w.disk (Site.disk (abort_push k link w path id))
  unfolding abort_push
  abort_push-Kept w = abort_fated-Kept (fates w.asked) w.disk

  module _ (content : Bytes) (d0 : Disk) (total index : ℕ) where
    abbrev Rest : Type 0
    Rest = Site → Option Json → Site × Result TransferError (Option Json)

    abbrev Ends : Site × Result TransferError (Option Json) → Type 0
    Ends r = Ending total content d0 r

    after_error-Ends :
        (rest : Rest) (final : Option Json) (w : Site) (e : RequestError)
        → Kept path d0 w.disk
        → Ends (after_chunk k link path id index total rest final (w, err e))
    after_error-Ends rest final w e h =
        unchanged
          (if_either (λ (v : Site). Kept path d0 v.disk)
            (not (index + 1 == total) || not (is_indeterminate e))
            (Kept-then path d0 w.disk (Site.disk (abort_push k link w path id)) h
              (abort_push-Kept w))
            h)
          _ refl

    -- The last step failed, and an abort that may follow touches sidecars only.
    touched-Ends :
        (rest : Rest) (final : Option Json) (w : Site) (e : RequestError)
        → (index + 1 == total) ≡ true
        → Touched path content d0 w.disk
        → Ends (after_chunk k link path id index total rest final (w, err e))
    touched-Ends rest final w e l h =
        unknown
          (if_either (λ (v : Site). Touched path content d0 v.disk)
            (not (index + 1 == total) || not (is_indeterminate e))
            (Touched-Kept path content d0 w.disk (Site.disk (abort_push k link w path id)) h
              (abort_push-Kept w))
            h)
          e (let t : index + 1 ≡ total = (==_iff (index + 1) total).0 l in cc)

    module _ (staged : Bytes) (rest : Rest) (final : Option Json)
        (more : (index + 1 == total) ≡ false
          → (w : Site) (f : Option Json) → Kept path d0 w.disk
          → content_of (part_of path (tid_of id)) w.disk ≡ some staged
          → Ends (rest w f))
        (done : (index + 1 == total) ≡ true
          → (staged ≡ content) × ((w : Site) (f : Option Json) → rest w f ≡ (w, ok f))) where
      served-Ends :
          (d : Disk) (w : Site) (r : Result RequestError Json)
          → Kept path d0 d
          → Step path k (tid_of id) (index + 1 == total) d staged (w.disk, r)
          → Ends (after_chunk k link path id index total rest final (w, r))
      served-Ends d w (err e) h (refused kept e' x) =
          after_error-Ends rest final w e (Kept-then path d0 d w.disk h kept)
      served-Ends d w (err e) h (appended kept l x j y) = ground arith
      served-Ends d w (err e) h (swapped sw l n y) = ground arith
      served-Ends d w (err e) h (broken t l e' y) = touched-Ends rest final w e l (
          subst (λ c. Touched path c d0 w.disk) (done l).0
            (Kept-Touched path staged d0 d w.disk h t))
      served-Ends d w (ok j) h (broken t l e y) = ground arith
      served-Ends d w (ok j) h (refused kept e x) = ground arith
      served-Ends d w (ok j) h (appended kept l x j' y) =
          more l w _ (Kept-then path d0 d w.disk h kept) x
      served-Ends d w (ok j) h (swapped sw l n y) =
          let whole = (done l).0 in
          subst Ends (sym ((done l).1 w _)) (
            confirmed
              (subst (λ c. Swapped path c d0 w.disk) whole
                (Kept-Swapped path staged d0 d w.disk h sw))
              n (ground (arith, whole)))

      -- The agent served it, but the answer was lost.
      lost-Ends :
          (d : Disk) (w : Site) (r : Result RequestError Json) (e : RequestError)
          → Kept path d0 d
          → Step path k (tid_of id) (index + 1 == total) d staged (w.disk, r)
          → Ends (after_chunk k link path id index total rest final (w, err e))
      lost-Ends d w r e h (refused kept e' x) =
          after_error-Ends rest final w e (Kept-then path d0 d w.disk h kept)
      lost-Ends d w r e h (appended kept l x j y) =
          after_error-Ends rest final w e (Kept-then path d0 d w.disk h kept)
      lost-Ends d w r e h (swapped sw l n y) = touched-Ends rest final w e l (
          subst (λ c. Touched path c d0 w.disk) (done l).0
            (Kept-Touched path staged d0 d w.disk h (inl sw)))
      lost-Ends d w r e h (broken t l e' y) = touched-Ends rest final w e l (
          subst (λ c. Touched path c d0 w.disk) (done l).0
            (Kept-Touched path staged d0 d w.disk h t))

      module _ (c : Bytes) (codec : k.decode (k.encode c) ≡ some c) where
        fated-Ends :
            (f : Fate) (w w' : Site)
            → Kept path d0 w.disk
            → ((index == 0) ≡ true → staged ≡ c)
            → ((index == 0) ≡ false
                → staged ≡ existing (content_of (part_of path (tid_of id)) w.disk) ++ c)
            → w'.disk ≡ (fated k fates delay f (chunk_request k path id sha index total c) w.disk).0
            → Ends (
                after_chunk k link path id index total rest final (
                  w',
                  (fated k fates delay f (chunk_request k path id sha index total c) w.disk).1,
                ))
        unfolding serve
        fated-Ends (undelivered e) w w' h hf hn d =
            after_error-Ends rest final w' e (subst (Kept path d0) (sym d) h)
        fated-Ends (served u) w w' h hf hn d =
            let r = serve k u (chunk_request k path id sha index total c) w.disk in
            served-Ends w.disk w' r.1 h (
              subst (λ x. Step path k (tid_of id) (index + 1 == total) w.disk staged (x, r.1))
                (sym d)
                (write_chunk-Step path k id w.disk u (index == 0) (index + 1 == total)
                  (if index + 1 == total then some sha else none) c staged codec hf hn))
        fated-Ends (unheard u e) w w' h hf hn d =
            let r = serve k u (chunk_request k path id sha index total c) w.disk in
            lost-Ends w.disk w' r.1 e h (
              subst (λ x. Step path k (tid_of id) (index + 1 == total) w.disk staged (x, r.1))
                (sym d)
                (write_chunk-Step path k id w.disk u (index == 0) (index + 1 == total)
                  (if index + 1 == total then some sha else none) c staged codec hf hn))

        send_chunk-Ends :
            (w : Site) (o : Option ℕ)
            → Kept path d0 w.disk
            → ((index == 0) ≡ true → staged ≡ c)
            → ((index == 0) ≡ false
                → staged ≡ existing (content_of (part_of path (tid_of id)) w.disk) ++ c)
            → Ends (send_chunk k link path id sha index total rest w final c o)
        send_chunk-Ends w none h hf hn =
            unchanged
              (Kept-then path d0 w.disk (Site.disk (abort_push k link w path id)) h
                (abort_push-Kept w))
              _ refl
        send_chunk-Ends w (some t) h hf hn =
            fated-Ends (fates w.asked) w
              (link.ask w (chunk_request k path id sha index total c) t).0 h hf hn refl

  module _ (codec : (c : Bytes) → k.decode (k.encode c) ≡ some c) (content : Bytes) (d0 : Disk)
      (total started : ℕ) where
    -- The sidecar has what was sent before; nothing was sent before the first chunk.
    unfoldable pub IsStaged : ℕ → Bytes → Site → Type 0
    IsStaged index sent w =
        (index ≡ 0 → sent ≡ [])
        × (index ≢ 0 → content_of (part_of path (tid_of id)) w.disk ≡ some sent)

    pub push_chunks-Ends :
        (cs : List Bytes) (c : Bytes) (index : ℕ) (sent : Bytes) (w : Site) (final : Option Json)
        → total ≡ index + length (c ∷ cs)
        → content ≡ sent ++ concat (c ∷ cs)
        → Kept path d0 w.disk
        → IsStaged index sent w
        → Ending total content d0
            (push_chunks k link path id sha started total index (c ∷ cs) w final)
    unfolding push_chunks IsStaged
    push_chunks-Ends [] c index sent w final ht hc h st =
        send_chunk-Ends content d0 total index (sent ++ c)
          (push_chunks k link path id sha started total (index + 1) []) final
          (λ l v f kept x. ground (arith, ht, l))
          (λ l. (ap (λ t. sent ++ t) (sym (append-nil c)) ∙ sym hc, λ v f. refl)) c (codec c) w
          (step_timeout_for (if index + 1 == total then verify_timeout else chunk_timeout)
            (w.clock - started))
          h (λ e. ap (λ s. s ++ c) (st.0 (ground arith)))
          (λ e. ap (λ o. existing o ++ c) (sym (st.1 (ground arith))))
    push_chunks-Ends (c' ∷ cs) c index sent w final ht hc h st =
        send_chunk-Ends content d0 total index (sent ++ c)
          (push_chunks k link path id sha started total (index + 1) (c' ∷ cs)) final
          (λ l v f kept x.
            push_chunks-Ends cs c' (index + 1) (sent ++ c) v f (omega (arith, ht))
              (hc ∙ sym (append_assoc sent c (concat (c' ∷ cs)))) kept
              (λ e. ground (arith, e), λ e. x))
          (λ l. ground (arith, ht, l)) c (codec c) w
          (step_timeout_for (if index + 1 == total then verify_timeout else chunk_timeout)
            (w.clock - started))
          h (λ e. ap (λ s. s ++ c) (st.0 (ground arith)))
          (λ e. ap (λ o. existing o ++ c) (sym (st.1 (ground arith))))
