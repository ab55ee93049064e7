-- ===== src/Transfer/Tests.antt =====
-- The theorems on transfers at concrete crates, disks and faults, and runs of the handlers.
use agent_rdp.Json.{get, get_member}
use agent_rdp.Transfer.{
  step_timeout_for, Crates, is_absolute_windows_path, check_remote_path, check_paths, ready_ipc,
  hex_digest, FileTransferResult,
}
use agent_rdp.Transfer.{chunk_failed}
use agent_rdp.Transfer.Push.{
  chunks_from, chunks_of, push_failure_advice, verify_push, abort_push, push_chunks, push_content,
  handle_push,
}
use agent_rdp.Transfer.Pull.{pull_attempts, pull_loop, handle_pull}
use agent_rdp.Dvc.Ipc.{RequestError, failed, indeterminate}
use agent_rdp.Transfer.Agent.{
  content_of, no_trouble, sweep, write_chunk, serve, Fate, Site, agent_link,
}
use agent_rdp.Transfer.Budget.{IsTimely, transfers_fit_in}
use agent_rdp.Transfer.Ends.{pull_ends}
use agent_rdp.Transfer.Outcome.{PushEnds, push_is_atomic}
use agent_rdp.Transfer.Reading.{quiet, request}
use agent_rdp.Transfer.RoundTrip.{all_ready, IsBrought, pushed_comes_back}
use agent_rdp.TimeFormat.{utc_rfc3339}
use agent_rdp.Base.{
  ℕ, ◌<◌, ◌≡◌, refl, ◌≢◌, Bool, true, false, none, some, [], ◌∷◌, arith, ◌==◌, ok, err, Text, codes,
  text_eq, Text-discrete, lower, lookup, erase, insert,
}

abbrev starts_with_slash : Text → Bool
starts_with_slash [] = false
starts_with_slash (c ∷ s) = c == 47

-- Stand-ins that have what the theorems ask of the crates.
abbrev toy : Crates
toy = record {
  encode = λ c. c;
  decode = λ t. some t;
  sha256 = λ c. 7 ∷ c;
  is_absolute = starts_with_slash;
}

abbrev remote : Text
remote = codes "C:\\a"

abbrev local_file : Text
local_file = codes "/a"

abbrev copy : Text
copy = codes "/b"

abbrev here : Site
here = record { disk = []; asked = 0; clock = 0; local = (local_file, 1 ∷ 2 ∷ []) ∷ [] }

abbrev there : Site
there = record {
  disk = (remote, 1 ∷ 2 ∷ []) ∷ [];
  asked = 0;
  clock = 0;
  local = (local_file, 1 ∷ 2 ∷ []) ∷ [];
}

-- The reply to the only chunk is lost.
abbrev lossy : ℕ → Fate
lossy n = Fate.unheard no_trouble (indeterminate (codes "r") 1 none)

-- The channel is closed while the agent works on the only chunk, and the daemon answers.
abbrev closed_answer : RequestError
closed_answer = failed (codes "channel_closed") (codes "DVC channel was closed")

abbrev closing : ℕ → Fate
closing n = Fate.unheard no_trouble closed_answer

-- The advice is that the destination was not replaced, and it was.
replaced_in_spite :
    let r =
      handle_push toy
        (agent_link toy closing (λ n. 9))
        here
        all_ready
        local_file
        remote
        (codes "t") in
    (r.1 ≡ err (chunk_failed 1 1 remote closed_answer (push_failure_advice true false)))
    × (content_of remote r.0.disk ≡ some (1 ∷ 2 ∷ []))
unfolding handle_push push_content push_chunks abort_push step_timeout_for verify_push chunks_of
    chunks_from hex_digest lower ready_ipc check_paths check_remote_path is_absolute_windows_path
    serve write_chunk sweep get get_member text_eq lookup insert erase Text-discrete
    push_failure_advice
replaced_in_spite = (refl, refl)

push_is_atomic_example :
    PushEnds toy remote
      (1 ∷ 2 ∷ [])
      []
      (handle_push toy (agent_link toy lossy (λ n. 9)) here all_ready local_file remote (codes "t"))
unfolding lookup Text-discrete
push_is_atomic_example =
    push_is_atomic toy (λ c. refl) lossy (λ n. 9) here all_ready local_file remote (codes "t")
      (1 ∷ 2 ∷ []) refl

abbrev toy_result : FileTransferResult
toy_result = record {
  path = remote;
  bytes = 2;
  sha256 = codes "070102";
  chunks = 1;
  freshness = none;
}

push-succeeds :
    (handle_push toy (quiet toy) here all_ready local_file remote (codes "t")).1 ≡ ok toy_result
unfolding handle_push push_content push_chunks abort_push step_timeout_for verify_push chunks_of
    chunks_from hex_digest lower ready_ipc check_paths check_remote_path is_absolute_windows_path
    serve write_chunk sweep get get_member text_eq lookup insert erase Text-discrete
push-succeeds = refl

pushed_comes_back_example : IsBrought toy copy (1 ∷ 2 ∷ []) (
    handle_pull toy
      (quiet toy)
      (handle_push toy (quiet toy) here all_ready local_file remote (codes "t")).0
      all_ready
      (request remote copy))
unfolding lookup Text-discrete is_absolute_windows_path
pushed_comes_back_example =
    pushed_comes_back toy (λ c. refl) (λ c h. ground (arith, h)) (λ n. Fate.served no_trouble)
      (λ n. 0) here all_ready local_file remote (codes "t") copy (1 ∷ 2 ∷ []) toy_result refl
      (omega arith) refl refl push-succeeds

abbrev pull_answer : FileTransferResult
pull_answer = record {
  path = copy;
  bytes = 2;
  sha256 = codes "070102";
  chunks = 1;
  freshness = some (record { modified = utc_rfc3339 0; modified_unix = 0; age_secs = 0 });
}

pull_ends_example :
    (handle_pull toy (agent_link toy lossy (λ n. 9)) there all_ready (request remote copy)).1 ≢ none
pull_ends_example =
    pull_ends toy (agent_link toy lossy (λ n. 9)) there all_ready (request remote copy)

lossy-IsTimely : IsTimely toy (agent_link toy lossy (λ n. 9))
unfolding IsTimely
lossy-IsTimely = (λ s r t. (omega arith, omega arith), λ s d. (omega arith, omega arith))

transfers_fit_in_example :
    (Site.clock
        (push_content toy (agent_link toy lossy (λ n. 9)) here remote (codes "t") (1 ∷ 2 ∷ [])).0
      < 570000)
    × (Site.clock
          (pull_loop toy
            (agent_link toy lossy (λ n. 9))
            pull_attempts
            (request remote copy)
            0
            1
            here).0
        < 570000)
transfers_fit_in_example =
    transfers_fit_in toy (agent_link toy lossy (λ n. 9)) lossy-IsTimely here remote (codes "t")
      (1 ∷ 2 ∷ []) (request remote copy)
