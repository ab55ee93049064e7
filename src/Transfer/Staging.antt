-- ===== src/Transfer/Staging.antt =====
-- actions.ps1, file_write_chunk: what one chunk changes on the remote disk.
use agent_rdp.Json.{Json}
use agent_rdp.Dvc.Ipc.{RequestError}
use agent_rdp.Transfer.{Bytes, Crates, hex_digest}
use agent_rdp.Transfer.Push.{abort_request}
use agent_rdp.Transfer.Agent.{
  Disk, content_of, part_suffix, part_of, Luck, remove_part, sweep, existing, tid_of,
  finished_reply, swap_parts, swap_in, after_write, write_decoded, write_chunk, serve,
}
use agent_rdp.Base.{
  ℕ, ◌≡◌, refl, sym, ap, ◌∙◌, subst, ◌≢◌, ◌⊎◌, inl, inr, Bool, true, false, not, Option, none, some,
  List, [], ◌∷◌, ◌++◌, arith, ◌==◌, if_either, if_split, Result, ok, err, length, length-append,
  Text, codes, text_eq, Text-discrete, lower, erase, insert, lookup-erase, lookup-insert,
}

-- A path that is no sidecar of the transfer's path.
pub IsOther : Text → Text → Type 0
IsOther path q = (id : Text) → q ≢ part_of path id

path-IsOther : (path : Text) → IsOther path path
unfolding IsOther
path-IsOther path id e = omega (
  arith,
  ap length e,
  length-append path (part_suffix id),
  length-append (codes ".agent-rdp-") (id ++ codes ".part"),
)

-- No file but sidecars of the path differs.
pub Kept : Text → Disk → Disk → Type 0
Kept path d d' = (q : Text) → IsOther path q → content_of q d' ≡ content_of q d

-- The path has the content, and no other file but sidecars differs.
unfoldable pub Swapped : Text → Bytes → Disk → Disk → Type 0
Swapped path c d d' =
    (content_of path d' ≡ some c)
    × ((q : Text) → IsOther path q → q ≢ path → content_of q d' ≡ content_of q d)

-- The path has no file, and no other file but sidecars differs.
unfoldable pub Gone : Text → Disk → Disk → Type 0
Gone path d d' =
    (content_of path d' ≡ none)
    × ((q : Text) → IsOther path q → q ≢ path → content_of q d' ≡ content_of q d)

-- The path has the content, or its old file is gone.
abbrev pub Touched : Text → Bytes → Disk → Disk → Type 0
Touched path c d d' = Swapped path c d d' ⊎ Gone path d d'

module _ (path : Text) where
  pub Kept-refl : (d : Disk) → Kept path d d
  unfolding Kept
  Kept-refl d q h = refl

  pub Kept-then : (d d' d'' : Disk) → Kept path d d' → Kept path d' d'' → Kept path d d''
  unfolding Kept
  Kept-then d d' d'' h h' q o = h' q o ∙ h q o

  pub Kept-Swapped :
      (c : Bytes) (d d' d'' : Disk) → Kept path d d' → Swapped path c d' d'' → Swapped path c d d''
  unfolding Kept Swapped
  Kept-Swapped c d d' d'' h s = (s.0, λ q o ne. s.1 q o ne ∙ h q o)

  pub Kept-Touched :
      (c : Bytes) (d d' d'' : Disk) → Kept path d d' → Touched path c d' d'' → Touched path c d d''
  unfolding Kept Gone
  Kept-Touched c d d' d'' h (inl s) = inl (Kept-Swapped c d d' d'' h s)
  Kept-Touched c d d' d'' h (inr g) = inr (g.0, λ q o ne. g.1 q o ne ∙ h q o)

  pub Touched-Kept :
      (c : Bytes) (d d' d'' : Disk) → Touched path c d d' → Kept path d' d'' → Touched path c d d''
  unfolding Kept Swapped Gone
  Touched-Kept c d d' d'' (inl s) h =
      inl (h path (path-IsOther path) ∙ s.0, λ q o ne. h q o ∙ s.1 q o ne)
  Touched-Kept c d d' d'' (inr g) h =
      inr (h path (path-IsOther path) ∙ g.0, λ q o ne. h q o ∙ g.1 q o ne)

  erase_part-Kept : (id : Text) (d : Disk) → Kept path d (erase Text-discrete (part_of path id) d)
  unfolding Kept IsOther
  erase_part-Kept id d q o =
      let other = o id in ground (arith, other, lookup-erase Text-discrete q (part_of path id) d)

  insert_part-Kept :
      (id : Text) (c : Bytes) (d : Disk) → Kept path d (insert Text-discrete (part_of path id) c d)
  unfolding Kept IsOther
  insert_part-Kept id c d q o =
      let other = o id in ground (arith, other, lookup-insert Text-discrete q (part_of path id) c d)

  remove_part-Kept :
      (u : Luck) (id : Text) (d : Disk) → Kept path d (remove_part u (part_of path id) d)
  remove_part-Kept u id d = if_either (Kept path d) u.is_stuck (Kept-refl d) (erase_part-Kept id d)

  sweep-Kept : (ids : List Text) (d : Disk) → Kept path d (sweep path ids d)
  unfolding sweep
  sweep-Kept [] d = Kept-refl d
  sweep-Kept (id ∷ ids) d =
      let d' = erase Text-discrete (part_of path id) d in
      Kept-then d d' (sweep path ids d') (erase_part-Kept id d) (sweep-Kept ids d')

  insert_path-Swapped :
      (c : Bytes) (d0 d : Disk) → Kept path d0 d → Swapped path c d0 (insert Text-discrete path c d)
  unfolding Swapped Kept
  insert_path-Swapped c d0 d h = (
    ground (arith, lookup-insert Text-discrete path path c d),
    λ q o ne. let kept = h q o in ground (arith, ne, kept, lookup-insert Text-discrete q path c d),
  )

  erase_path-Gone : (d0 d : Disk) → Kept path d0 d → Gone path d0 (erase Text-discrete path d)
  unfolding Gone Kept
  erase_path-Gone d0 d h = (
    ground (arith, lookup-erase Text-discrete path path d),
    λ q o ne. let kept = h q o in ground (arith, ne, kept, lookup-erase Text-discrete q path d),
  )

  module _ (k : Crates) (id : Text) (last : Bool) (d0 : Disk) (staged : Bytes) where
    -- What a chunk can do that brings the sidecar to `staged`.
    pub data Step (r : Disk × Result RequestError Json) : Type 0 where
      refused : Kept path d0 r.0 → (e : RequestError) → r.1 ≡ err e → Step r
      appended :
          Kept path d0 r.0
          → last ≡ false
          → content_of (part_of path id) r.0 ≡ some staged
          → (j : Json) → r.1 ≡ ok j
          → Step r
      swapped :
          Swapped path staged d0 r.0
          → last ≡ true
          → (n : ℕ) → r.1 ≡ ok (finished_reply k path staged n)
          → Step r
      -- It failed too late.
      broken : Touched path staged d0 r.0 → last ≡ true → (e : RequestError) → r.1 ≡ err e → Step r

    refused-removed :
        (u : Luck) (d : Disk) (e : RequestError)
        → Kept path d0 d
        → Step (remove_part u (part_of path id) d, err e)
    refused-removed u d e h =
        refused (Kept-then d0 d (remove_part u (part_of path id) d) h (remove_part-Kept u id d)) e
          refl

    swap_parts-Step :
        (u : Luck) (n : ℕ) (d : Disk) (o : Option Bool)
        → Kept path d0 d
        → last ≡ true
        → Step (swap_parts k u path (part_of path id) staged n d o)
    swap_parts-Step u n d (some false) h l = refused-removed u d _ h
    swap_parts-Step u n d (some true) h l =
        broken
          (Touched-Kept staged d0 (erase Text-discrete path d)
            (remove_part u (part_of path id) (erase Text-discrete path d))
            (inr (erase_path-Gone d0 d h)) (remove_part-Kept u id (erase Text-discrete path d)))
          l _ refl
    swap_parts-Step u n d none h l =
        let d' = insert Text-discrete path staged (erase Text-discrete (part_of path id) d) in
        let s : Swapped path staged d0 d' =
          insert_path-Swapped staged d0 (erase Text-discrete (part_of path id) d)
            (Kept-then d0 d (erase Text-discrete (part_of path id) d) h (erase_part-Kept id d)) in
        if_either (λ (r : Result RequestError Json). Step (d', r)) u.is_unreported
          (broken (inl s) l _ refl) (swapped s l n refl)

    swap_in-Step :
        (u : Luck) (sha : Option Text) (n : ℕ) (d : Disk)
        → Kept path d0 d
        → last ≡ true
        → Step (swap_in k u path (part_of path id) sha staged n d)
    swap_in-Step u none n d h l = refused-removed u d _ h
    swap_in-Step u (some sha) n d h l = if_either Step (length sha == 0) (refused-removed u d _ h) (
        if_either Step (not (text_eq (lower sha) (hex_digest k staged))) (refused-removed u d _ h)
          (swap_parts-Step u n d u.swap_error h l))

    after_write-Step :
        (u : Luck) (sha : Option Text) (c : Bytes) (d : Disk) (o : Option Bytes)
        → Kept path d0 d
        → Step (after_write k u path (part_of path id) last sha staged c d o)
    after_write-Step u sha c d (some left) h =
        refused-removed u (insert Text-discrete (part_of path id) left d) _
          (Kept-then d0 d _ h (insert_part-Kept id left d))
    after_write-Step u sha c d none h =
        let d' = insert Text-discrete (part_of path id) staged d in
        let h' = Kept-then d0 d d' h (insert_part-Kept id staged d) in
        if_split Step last (swap_in-Step u sha (length c) d' h') (λ l.
          if_either (λ (r : Result RequestError Json). Step (d', r)) u.is_unreported
            (refused h' _ refl)
            (appended h' l
              (ground
                (arith, lookup-insert Text-discrete (part_of path id) (part_of path id) staged d))
              _ refl))

    write_decoded-Step :
        (u : Luck) (first : Bool) (sha : Option Text) (c : Bytes)
        → (first ≡ true → staged ≡ c)
        → (first ≡ false → staged ≡ existing (content_of (part_of path id) d0) ++ c)
        → Step (write_decoded k u path id first last sha d0 (some c))
    write_decoded-Step u first sha c hf hn =
        if_split Step first
          (λ e. if_either Step u.is_container (refused (Kept-refl d0) _ refl) (
            subst
              (λ x. Step (
                after_write k u path (part_of path id) last sha x c (sweep path u.swept d0)
                  u.write_error))
              (hf e)
              (after_write-Step u sha c (sweep path u.swept d0) u.write_error
                (sweep-Kept u.swept d0))))
          (λ e.
            subst (λ x. Step (after_write k u path (part_of path id) last sha x c d0 u.write_error))
              (hn e) (after_write-Step u sha c d0 u.write_error (Kept-refl d0)))

  module _ (k : Crates) (id : Text) where
    -- A chunk of a push, that is not an abort, in base64 that decodes to what was encoded.
    pub write_chunk-Step :
        (d : Disk) (u : Luck) (first last : Bool) (sha : Option Text) (c staged : Bytes)
        → k.decode (k.encode c) ≡ some c
        → (first ≡ true → staged ≡ c)
        → (first ≡ false → staged ≡ existing (content_of (part_of path (tid_of id)) d) ++ c)
        → Step k
            (tid_of id)
            last
            d
            staged
            (write_chunk k u path (k.encode c) first last sha id false d)
    unfolding write_chunk
    write_chunk-Step d u first last sha c staged codec hf hn =
        if_either (Step k (tid_of id) last d staged) (length path == 0)
          (refused (Kept-refl d) _ refl)
          (subst
            (λ o.
              Step k (tid_of id) last d staged
                (write_decoded k u path (tid_of id) first last sha d o))
            (sym codec) (write_decoded-Step k (tid_of id) last d staged u first sha c hf hn))

    pub abort-Kept : (d : Disk) (u : Luck) → Kept path d (serve k u (abort_request k path id) d).0
    unfolding serve write_chunk
    abort-Kept d u =
        if_either (λ (r : Disk × Result RequestError Json). Kept path d r.0) (length path == 0)
          (Kept-refl d) (remove_part-Kept u (tid_of id) d)
