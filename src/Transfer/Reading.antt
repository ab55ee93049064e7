-- ===== src/Transfer/Reading.antt =====
-- file_transfer.rs with actions.ps1: one attempt of a pull over a link on which nothing goes wrong.
use agent_rdp.Json.{Json, get, get_member}
use agent_rdp.Protocol.Automate.{file_read_chunk, file_stat}
use agent_rdp.Dvc.Ipc.{RequestError}
use agent_rdp.Transfer.{
  Bytes, chunk_bytes, max_transfer_bytes, chunk_timeout, verify_timeout, step_timeout_for, Crates,
  Link, hex, hex_digest, or_else, text_at, file_freshness,
}
use agent_rdp.Transfer.Pull.{
  FilePullRequest, ReadOutcome, read_all, PullAttempt, delivered, size_of, hash_of, check_stat,
  verified, take_chunk, after_read, read_chunk, read_chunks, attempt_of, after_check, after_stat,
  with_stat, pull_once,
}
use agent_rdp.Transfer.Agent.{
  Disk, content_of, no_trouble, read_reply, read_of, stat_of, serve, served, Site, agent_link,
}
use agent_rdp.Transfer.Atomic.{take-drop}
use agent_rdp.Base.{
  ℕ, zero, suc, ◌+◌, ◌-◌, ◌≤◌, ◌<◌, min, ◌≡◌, refl, sym, ap, ◌∙◌, subst, ◌≢◌, Bool, false, none,
  some, [], ◌∷◌, ◌++◌, arith, ltb, leb, ◌==◌, ltb→lt, if_split, Result, ok, err, length, take, drop,
  length-append, length-drop, length-take, append_assoc, append-nil, Text, codes, text_eq,
  text_eq_refl,
}

drop-append : (xs ys : Bytes) → drop (length xs) (xs ++ ys) ≡ ys
drop-append [] ys = refl
drop-append (x ∷ xs) ys = drop-append xs ys

-- A link on which nothing goes wrong and no time is lost, and a pull over it.
abbrev pub quiet : Crates → Link Site
quiet k = agent_link k (λ n. served no_trouble) (λ n. 0)

abbrev pub request : (path to : Text) → FilePullRequest
request path to = record { remote_path = path; local_path = to; max_age_secs = none }

hex-nonempty : (bs : Bytes) → bs ≢ [] → (length (hex bs) == 0) ≡ false
hex-nonempty [] h = ground (arith, h)
hex-nonempty (b ∷ bs) h = ground arith

module _ (k : Crates) (codec : (c : Bytes) → k.decode (k.encode c) ≡ some c)
    (hashes : (c : Bytes) → k.sha256 c ≢ []) where
  hash-nonempty : (content : Bytes) → (length (hex_digest k content) == 0) ≡ false
  unfolding hex_digest
  hash-nonempty content = hex-nonempty (k.sha256 content) (hashes content)

  module _ (path : Text) (content : Bytes) where
    -- The path still has the content, the clock stands, and the local files are those given.
    unfoldable pub IsCalm : ℕ → Disk → Site → Type 0
    IsCalm started local w =
        (content_of path w.disk ≡ some content) × (w.clock ≡ started) × (w.local ≡ local)

    -- The disk is not touched by a read.
    after : Site → Site
    after w = record w { asked = w.asked + 1; clock = w.clock + min 0 0 }

    read-IsCalm :
        (started : ℕ) (local : Disk) (w : Site) (offset n t : ℕ)
        → IsCalm started local w
        → IsCalm started local (Link.ask (quiet k) w (file_read_chunk path offset n) t).0
    unfolding IsCalm serve
    read-IsCalm started local w offset n t h = (h.0, omega (arith, h.1), h.2)

    stat-IsCalm :
        (started : ℕ) (local : Disk) (w : Site) (t : ℕ)
        → IsCalm started local w
        → IsCalm started local (Link.ask (quiet k) w (file_stat path) t).0
    unfolding IsCalm serve
    stat-IsCalm started local w t h = (h.0, omega (arith, h.1), h.2)

    read-reply :
        (started : ℕ) (local : Disk) (w : Site) (offset n t : ℕ)
        → IsCalm started local w
        → offset < length content
        → (Link.ask (quiet k) w (file_read_chunk path offset n) t).1
          ≡ ok (
              read_reply k
                (take n (drop offset content))
                (length content)
                (leb (length content) (offset + length (take n (drop offset content)))))
    unfolding IsCalm serve
    read-reply started local w offset n t h lt = ap (read_of k offset n) h.0 ∙ ground (arith, lt)

    Reads : ℕ → Disk → Site × ReadOutcome → Type 0
    Reads started local r = IsCalm started local r.0 × ((n : ℕ) × (r.1 ≡ read_all content n))

    module _ (started : ℕ) (local : Disk) where
      take_chunk-Reads :
          (p : Text) (soFar piece : Bytes) (n : ℕ) (value : Json)
          (rest : Bytes → ℕ → Site × ReadOutcome) (w : Site)
          → 1 ≤ length piece
          → Reads started local (rest (soFar ++ piece) (n + 1))
          → Reads started local (take_chunk k (quiet k) p soFar n value rest w (some piece))
      take_chunk-Reads p soFar [] n value rest w h r = ground (arith, h)
      take_chunk-Reads p soFar (b ∷ bs) n value rest w h r = r

      reply-data :
          (piece : Bytes) (total : ℕ) (eof : Bool)
          → k.decode (or_else [] (text_at (codes "data_b64") (read_reply k piece total eof)))
            ≡ some piece
      unfolding get get_member text_eq
      reply-data piece total eof = codec piece

      after_read-Reads :
          (soFar piece : Bytes) (n total : ℕ) (eof : Bool)
          (rest : Site → Bytes → ℕ → Site × ReadOutcome) (r : Site × Result RequestError Json)
          → r.1 ≡ ok (read_reply k piece total eof)
          → 1 ≤ length piece
          → Reads started local (rest r.0 (soFar ++ piece) (n + 1))
          → Reads started local (after_read k (quiet k) path soFar n rest r)
      after_read-Reads soFar piece n total eof rest (w, err e) x h q = ground arith
      after_read-Reads soFar piece n total eof rest (w, ok j) x h q =
          let y : j ≡ read_reply k piece total eof = cc in
          subst (λ v. Reads started local (after_read k (quiet k) path soFar n rest (w, ok v)))
            (sym y)
            (subst
              (λ o.
                Reads started local
                  (take_chunk k (quiet k) path soFar n (read_reply k piece total eof) (rest w) w o))
              (sym (reply-data piece total eof))
              (take_chunk-Reads path soFar piece n (read_reply k piece total eof) (rest w) w h q))

      whole :
          (soFar rest : Bytes)
          → content ≡ soFar ++ rest
          → length content ≤ length soFar
          → soFar ≡ content
      whole soFar [] e h = sym (append-nil soFar) ∙ sym e
      whole soFar (b ∷ bs) e h = ground (arith, h, ap length e, length-append soFar (b ∷ bs))

      all-Reads :
          (w : Site) (soFar rest : Bytes) (n : ℕ)
          → IsCalm started local w
          → content ≡ soFar ++ rest
          → length content ≤ length soFar
          → Reads started local (w, read_all soFar n)
      unfolding Reads
      all-Reads w soFar rest n h e le = (h, (n, ap (λ c. read_all c n) (whole soFar rest e le)))

      read_chunk-Reads :
          (w : Site) (soFar rest : Bytes) (n : ℕ) (more : Site → Bytes → ℕ → Site × ReadOutcome)
          → IsCalm started local w
          → content ≡ soFar ++ rest
          → length soFar < length content
          → ((v : Site)
              → IsCalm started local v
              → Reads started local (more v (soFar ++ take chunk_bytes rest) (n + 1)))
          → Reads started local
              (read_chunk k (quiet k) path (length content) soFar n more w (some chunk_timeout))
      read_chunk-Reads w soFar rest n more h e lt next =
          let piece-eq : drop (length soFar) content ≡ rest =
            ap (drop (length soFar)) e ∙ drop-append soFar rest in
          after_read-Reads soFar (take chunk_bytes rest) n (length content)
            (leb (length content) (length soFar + length (take chunk_bytes rest))) more
            (Link.ask (quiet k) w (file_read_chunk path (length soFar) chunk_bytes) chunk_timeout)
            (read-reply started local w (length soFar) chunk_bytes chunk_timeout h lt
              ∙ ap
                  (λ c. ok (
                    read_reply k c (length content)
                      (leb (length content) (length soFar + length c))))
                  (ap (take chunk_bytes) piece-eq))
            (omega (arith, lt, ap length e, length-append soFar rest, length-take chunk_bytes rest))
            (next
              (Link.ask (quiet k) w (file_read_chunk path (length soFar) chunk_bytes)
                chunk_timeout).0
              (read-IsCalm started local w (length soFar) chunk_bytes chunk_timeout h))

      in-time :
          (w : Site)
          → IsCalm started local w
          → step_timeout_for chunk_timeout (w.clock - started) ≡ some chunk_timeout
      unfolding IsCalm step_timeout_for
      in-time w h =
          let now : w.clock - started ≡ 0 = omega (arith, h.1) in
          ap (step_timeout_for chunk_timeout) now

      read_chunks-Reads :
          (f : ℕ) (w : Site) (soFar rest : Bytes) (n : ℕ)
          → IsCalm started local w
          → content ≡ soFar ++ rest
          → length rest ≤ f
          → Reads started local (read_chunks k (quiet k) f path started (length content) w soFar n)
      unfolding read_chunks
      read_chunks-Reads zero w soFar rest n h e le =
          if_split (λ o. Reads started local (w, o)) (ltb (length soFar) (length content))
            (λ lt. ground (arith, lt, le, ap length e, length-append soFar rest))
            (λ ge. all-Reads w soFar rest n h e (ground (arith, ge)))
      read_chunks-Reads (suc f) w soFar rest n h e le =
          if_split (Reads started local) (ltb (length soFar) (length content))
            (λ lt.
              subst
                (λ t. Reads started local (
                  read_chunk k (quiet k) path (length content) soFar n
                    (read_chunks k (quiet k) f path started (length content)) w t))
                (sym (in-time w h))
                (read_chunk-Reads w soFar rest n
                  (read_chunks k (quiet k) f path started (length content)) h e
                  (ltb→lt (length soFar) (length content) lt)
                  (λ v calm.
                    read_chunks-Reads f v (soFar ++ take chunk_bytes rest) (drop chunk_bytes rest)
                      (n + 1) calm
                      (e
                        ∙ ap (λ t. soFar ++ t) (sym (take-drop chunk_bytes rest))
                        ∙ sym (append_assoc soFar (take chunk_bytes rest) (drop chunk_bytes rest)))
                      (omega (arith, le, length-drop chunk_bytes rest)))))
            (λ ge. all-Reads w soFar rest n h e (ground (arith, ge)))

      module _ (to : Text) (fits : length content ≤ max_transfer_bytes) where
        abbrev stat : Json
        stat = stat_of k no_trouble (some content)

        stat-size : size_of stat ≡ length content
        unfolding get get_member text_eq
        stat-size = refl

        stat-hash : hash_of stat ≡ hex_digest k content
        unfolding get get_member text_eq
        stat-hash = refl

        stat-passes : check_stat (request path to) stat ≡ ok tt
        unfolding check_stat get get_member text_eq
        stat-passes = ground (arith, fits)

        unfoldable pub Arrives : Site × PullAttempt → Type 0
        Arrives r =
            IsCalm started local r.0
            × ((n : ℕ) × (r.1 ≡ delivered content n (hex_digest k content) (file_freshness stat)))

        attempt_of-Arrives :
            (r : Site × ReadOutcome)
            → Reads started local r
            → Arrives (attempt_of k (quiet k) path stat r)
        unfolding Reads Arrives verified
        attempt_of-Arrives (w, o) h =
            subst (λ x. Arrives (attempt_of k (quiet k) path stat (w, x))) (sym h.1.1)
              (
                h.0,
                (
                  h.1.0,
                  let e = text_eq_refl (hex_digest k content) in
                      let q = stat-hash in let z = hash-nonempty content in ground (arith, e, q, z),
                ),
              )

        after_check-Arrives :
            (w : Site)
            → IsCalm started local w
            → Arrives (after_check k (quiet k) (request path to) started stat w (ok tt))
        after_check-Arrives w h =
            attempt_of-Arrives
              (read_chunks k (quiet k) (size_of stat) path started (size_of stat) w [] 0)
              (subst (λ m. Reads started local (read_chunks k (quiet k) m path started m w [] 0))
                (sym stat-size)
                (read_chunks-Reads (length content) w [] content 0 h refl (omega arith)))

        after_stat-Arrives :
            (r : Site × Result RequestError Json)
            → r.1 ≡ ok stat
            → IsCalm started local r.0
            → Arrives (after_stat k (quiet k) (request path to) started r)
        after_stat-Arrives (w, err e) x h = ground (arith, x)
        after_stat-Arrives (w, ok j) x h =
            let y : j ≡ stat = cc in
            subst (λ v. Arrives (after_stat k (quiet k) (request path to) started (w, ok v)))
              (sym y)
              (subst (λ c. Arrives (after_check k (quiet k) (request path to) started stat w c))
                (sym stat-passes) (after_check-Arrives w h))

        stat-in-time :
            (w : Site)
            → IsCalm started local w
            → step_timeout_for verify_timeout (w.clock - started) ≡ some verify_timeout
        unfolding IsCalm step_timeout_for
        stat-in-time w h =
            let now : w.clock - started ≡ 0 = omega (arith, h.1) in
            ap (step_timeout_for verify_timeout) now

        stat-reply :
            (w : Site) (t : ℕ)
            → IsCalm started local w
            → (Link.ask (quiet k) w (file_stat path) t).1 ≡ ok stat
        unfolding IsCalm serve
        stat-reply w t h = ap (λ o. ok (stat_of k no_trouble o)) h.0

        pub pull_once-Arrives :
            (w : Site)
            → IsCalm started local w
            → Arrives (pull_once k (quiet k) (request path to) started w)
        unfolding pull_once
        pull_once-Arrives w h =
            subst (λ t. Arrives (with_stat k (quiet k) (request path to) started w t))
              (sym (stat-in-time w h))
              (after_stat-Arrives (Link.ask (quiet k) w (file_stat path) verify_timeout)
                (stat-reply w verify_timeout h) (stat-IsCalm started local w verify_timeout h))
