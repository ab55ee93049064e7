-- ===== src/Transfer/Agent.antt =====
-- automation/scripts/lib/actions.ps1: what the agent does with the requests of a transfer, and a
-- link over it that may lose requests and replies or answer for the agent. The remote disk is a map
-- from paths to contents; what else happens on that machine comes with each request, in a `Luck`.
use agent_rdp.Json.{Json, Members}
use agent_rdp.Protocol.Automate.{AutomateRequest, file_write_chunk, file_read_chunk, file_stat}
use agent_rdp.Dvc.Ipc.{RequestError, failed}
use agent_rdp.Transfer.{Bytes, Crates, Link, hex_digest}
use agent_rdp.Base.{
  ℕ, ◌+◌, min, Bool, true, false, not, Option, none, some, List, [], ◌∷◌, ◌++◌, leb, ◌==◌,
  if◌then◌else◌, Result, ok, err, length, take, drop, Text, codes, text_eq, Text-discrete, lower,
  lookup, erase, insert,
}

abbrev pub Disk : Type 0
Disk = List (Text × Bytes)

abbrev pub content_of : Text → Disk → Option Bytes
content_of path d = lookup Text-discrete path d

abbrev pub part_suffix : Text → Text
part_suffix id = codes ".agent-rdp-" ++ id ++ codes ".part"

abbrev pub part_of : (path id : Text) → Text
part_of path id = path ++ part_suffix id

-- What a request meets on the remote machine.
pub record Luck : Type 0 where
  -- The path is a directory's.
  pub is_container : Bool
  -- The transfers whose sidecars the sweep finds older than ten minutes.
  pub swept : List Text
  -- A write fails and leaves this in the sidecar.
  pub write_error : Option Bytes
  -- A sidecar cannot be removed, which is not reported.
  pub is_stuck : Bool
  -- `File.Replace` or `File.Move` fails: nothing has moved, or, since there is no backup, the file
  -- that was there is gone.
  pub swap_error : Option Bool
  -- What is read of the file for the reply, after it was written, cannot be read.
  pub is_unreported : Bool
  -- The time stamps that a stat reports.
  pub modified_unix : ℕ
  pub now_unix : ℕ

abbrev pub no_trouble : Luck
no_trouble = record {
  is_container = false;
  swept = [];
  write_error = none;
  is_stuck = false;
  swap_error = none;
  is_unreported = false;
  modified_unix = 0;
  now_unix = 0;
}

-- `Remove-Item` on a sidecar, with errors passed over.
abbrev pub remove_part : Luck → Text → Disk → Disk
remove_part u part d = if u.is_stuck then d else erase Text-discrete part d

unfoldable pub sweep : (path : Text) → List Text → Disk → Disk
sweep path [] d = d
sweep path (id ∷ ids) d = sweep path ids (erase Text-discrete (part_of path id) d)

abbrev agent_failed : Text → RequestError
agent_failed message = failed (codes "command_failed") message

abbrev pub existing : Option Bytes → Bytes
existing none = []
existing (some c) = c

-- A transfer of no id is the legacy one.
abbrev pub tid_of : Text → Text
tid_of id = if length id == 0 then codes "legacy" else id

module _ (k : Crates) where
  abbrev pub finished_reply : (path : Text) → Bytes → ℕ → Json
  finished_reply path content written = Json.object (
      Members.member (codes "bytes_written") (Json.num written) (
        Members.member (codes "sha256") (Json.str (hex_digest k content)) (
          Members.member (codes "total_size") (Json.num (length content))
            (Members.member (codes "path") (Json.str path) Members.end))))

  abbrev chunk_reply : Bytes → ℕ → Json
  chunk_reply content written = Json.object (
      Members.member (codes "bytes_written") (Json.num written)
        (Members.member (codes "total_size") (Json.num (length content)) Members.end))

  -- The swap, and the look at the new file for the reply, whose failure undoes nothing.
  abbrev pub swap_parts :
      Luck → (path part : Text) → Bytes → ℕ → Disk → Option Bool → Disk × Result RequestError Json
  swap_parts u path part content written d (some is_gone) = (
    remove_part u part (if is_gone then erase Text-discrete path d else d),
    err (agent_failed (codes "could not replace")),
  )
  swap_parts u path part content written d none = (
    insert Text-discrete path content (erase Text-discrete part d),
    if u.is_unreported
        then err (agent_failed (codes "cannot read the new file"))
        else ok (finished_reply path content written),
  )

  -- The end of the last chunk: a hash is required, it must be the sidecar's, and the swap may fail.
  abbrev pub swap_in :
      Luck → (path part : Text) → Option Text → Bytes → ℕ → Disk → Disk × Result RequestError Json
  swap_in u path part none content written d =
      (remove_part u part d, err (agent_failed (codes "no expected hash")))
  swap_in u path part (some sha) content written d =
      if length sha == 0
      then (remove_part u part d, err (agent_failed (codes "no expected hash")))
      else if not (text_eq (lower sha) (hex_digest k content))
      then (remove_part u part d, err (agent_failed (codes "verification failed")))
      else swap_parts u path part content written d u.swap_error

  abbrev pub after_write :
      Luck
      → (path part : Text) → (last : Bool) → Option Text
      → (staged content : Bytes) → Disk
      → Option Bytes
      → Disk × Result RequestError Json
  after_write u path part last sha staged content d (some left) = (
    remove_part u part (insert Text-discrete part left d),
    err (agent_failed (codes "could not write chunk")),
  )
  after_write u path part last sha staged content d none =
      let d' = insert Text-discrete part staged d in
      if last then swap_in u path part sha staged (length content) d' else (
        d',
        if u.is_unreported
            then err (agent_failed (codes "cannot read the sidecar"))
            else ok (chunk_reply staged (length content)),
      )

  abbrev pub write_decoded :
      Luck
      → (path id : Text) → (first last : Bool) → Option Text
      → Disk
      → Option Bytes
      → Disk × Result RequestError Json
  write_decoded u path id first last sha d none = (d, err (agent_failed (codes "not base64")))
  write_decoded u path id first last sha d (some content) =
      let part = part_of path id in
      if first
      then if u.is_container
        then (d, err (agent_failed (codes "is a directory")))
        else after_write u path part last sha content content (sweep path u.swept d) u.write_error
      else let staged = existing (content_of part d) ++ content in
        after_write u path part last sha staged content d u.write_error

  -- `Invoke-FileWriteChunk`.
  unfoldable pub write_chunk :
      Luck
      → (path data_b64 : Text) → (first last : Bool) → Option Text
      → (id : Text) → (abort : Bool) → Disk
      → Disk × Result RequestError Json
  unfolding hex_digest lower sweep
  write_chunk u path data_b64 first last sha id abort d =
      let tid = tid_of id in
      if length path == 0
      then (d, err (agent_failed (codes "requires 'path'")))
      else if abort
      then (
        remove_part u (part_of path tid) d,
        ok (Json.object (Members.member (codes "aborted") (Json.bool true) Members.end)),
      )
      else write_decoded u path tid first last sha d (k.decode data_b64)

  abbrev pub read_reply : Bytes → ℕ → Bool → Json
  read_reply piece total eof = Json.object (
      Members.member (codes "data_b64") (Json.str (k.encode piece)) (
        Members.member (codes "bytes_read") (Json.num (length piece)) (
          Members.member (codes "total_size") (Json.num total)
            (Members.member (codes "eof") (Json.bool eof) Members.end))))

  -- At the end the agent writes the empty text itself.
  abbrev end_reply : ℕ → Json
  end_reply total = Json.object (
      Members.member (codes "data_b64") (Json.str []) (
        Members.member (codes "bytes_read") (Json.num 0) (
          Members.member (codes "total_size") (Json.num total)
            (Members.member (codes "eof") (Json.bool true) Members.end))))

  abbrev pub read_of : ℕ → ℕ → Option Bytes → Result RequestError Json
  read_of offset len none = err (agent_failed (codes "File not found"))
  read_of offset len (some content) =
      let piece = take len (drop offset content) in
      if leb (length content) offset
      then ok (end_reply (length content))
      else ok (read_reply piece (length content) (leb (length content) (offset + length piece)))

  abbrev pub stat_of : Luck → Option Bytes → Json
  stat_of u none =
      if u.is_container
      then Json.object (
          Members.member (codes "exists") (Json.bool true) (
            Members.member (codes "is_directory") (Json.bool true)
              (Members.member (codes "size") (Json.num 0) Members.end)))
      else Json.object (Members.member (codes "exists") (Json.bool false) Members.end)
  stat_of u (some content) = Json.object (
      Members.member (codes "exists") (Json.bool true) (
        Members.member (codes "is_directory") (Json.bool false) (
          Members.member (codes "size") (Json.num (length content)) (
            Members.member (codes "sha256") (Json.str (hex_digest k content)) (
              Members.member (codes "modified_unix") (Json.num u.modified_unix)
                (Members.member (codes "now_unix") (Json.num u.now_unix) Members.end))))))

  -- `Invoke-FileWriteChunk`, `Invoke-FileReadChunk` and `Invoke-FileStat`, by the request; a
  -- transfer sends no other.
  unfoldable pub serve : Luck → AutomateRequest → Disk → Disk × Result RequestError Json
  unfolding write_chunk hex_digest
  serve u (file_write_chunk path b first last sha id abort) d =
      write_chunk u path b first last sha id abort d
  serve u (file_read_chunk path offset len) d = (d, read_of offset len (content_of path d))
  serve u (file_stat path) d = (d, ok (stat_of u (content_of path d)))
  serve u _ d = (d, err (agent_failed (codes "Unknown command")))

-- What becomes of a request: it is served; it is served and its waiter gets an error that is not
-- the agent's, such as that the reply is late or that the channel was closed; or it does not arrive.
pub data Fate : Type 0 where
  served : Luck → Fate
  unheard : Luck → RequestError → Fate
  undelivered : RequestError → Fate

-- The remote disk, the fates of the requests to come by their number, the number of requests so
-- far, the clock, and the local files.
pub record Site : Type 0 where
  pub disk : Disk
  pub asked : ℕ
  pub clock : ℕ
  pub local : Disk

module _ (k : Crates) (fates : ℕ → Fate) (delay : ℕ → ℕ) where
  abbrev pub fated : Fate → AutomateRequest → Disk → Disk × Result RequestError Json
  fated (served u) r d = serve k u r d
  fated (unheard u e) r d = ((serve k u r d).0, err e)
  fated (undelivered e) r d = (d, err e)

  abbrev ask_agent : Site → AutomateRequest → ℕ → Site × Result RequestError Json
  ask_agent w r t =
      let a = fated (fates w.asked) r w.disk in
      (record w { disk = a.0; asked = w.asked + 1; clock = w.clock + min t (delay w.asked) }, a.1)

  abbrev pub read_local : Option Bytes → Result Text Bytes
  read_local none = err (codes "not found")
  read_local (some c) = ok c

  -- The agent behind the channel.
  abbrev pub agent_link : Link Site
  agent_link = record {
    ask = ask_agent;
    now = λ w. w.clock;
    sleep = λ w d. record w { clock = w.clock + d };
    read_file = λ w path. (w, read_local (content_of path w.local));
    write_file = λ w path c. (record w { local = insert Text-discrete path c w.local }, ok tt);
  }
