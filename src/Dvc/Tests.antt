-- ===== src/Dvc/Tests.antt =====
-- The theorems about the channel at concrete sessions: an agent that shook hands on channel 4 and
-- one that was set aside on channel 5.
use agent_rdp.Base.{
  ℕ, ◌==◌, if◌then◌else◌, if_either, All, ◌+◌, ◌≡◌, refl, inr, true, false, none, some, List, [],
  ◌∷◌, arith, ℕ_discrete, Text, codes, text_eq, Text-discrete, lookup, erase, insert, contains,
  discard, add,
}
use agent_rdp.Protocol.Automate.{AutomateRequest, run}
use agent_rdp.Dvc.{
  DvcSharedState, DvcHandshake, DvcResponse, handshake, response, init, start, process,
  process_among, on_handshake, release_primary, close, build_id_accepted, fail_all,
}
use agent_rdp.Dvc.Ipc.{
  pending_requests, DvcIpc, Circumstance, timed_out, hand_over, probe_status, is_ready,
}
use agent_rdp.Dvc.Slot.{
  Event, opens, closes, releases, receives, step, Reach, begin, next, Reach-IsPlaced, IsPlaced,
  first_opener_keeps, extra_is_harmless, SameAgent,
}
use agent_rdp.Dvc.Interleaved.{IsOfOthers, steps, as_between, Comes, processes, Comes-IsPlaced}
use agent_rdp.Dvc.Stale.{Reach-IsAccepted, stale_handshake_outlives_slot}
use agent_rdp.Dvc.Replies.{
  run_accounts, closing_answers_all, waiting, answers, total, handed, answered_by, given_up,
}
use agent_rdp.Dvc.Replies
use agent_rdp.Dvc.Ipc.Outcomes.{busy_probe_counts_nothing}

abbrev build : Text
build = codes "b1"

abbrev greeting : DvcHandshake
greeting = record {
  version = codes "1.9";
  agent_pid = 812;
  capabilities = [];
  build_id = some build;
  instance_id = some (codes "i7");
  started_unix = none;
}

abbrev other_greeting : DvcHandshake
other_greeting = record greeting { build_id = some (codes "b0") }

abbrev two_agents : DvcSharedState
two_agents = record init {
  channel_id = some 4;
  extras = 5 ∷ [];
  greeting = some greeting;
  expected_build_id = some build;
  pending = (codes "k", 30) ∷ [];
  busy_until = some 900;
  command_tx = true;
  closed_notify = true;
}

abbrev done_reply : DvcResponse
done_reply = record { success = true; payload = none; error = none }

abbrev client : DvcIpc
client = record { shared = two_agents; timeout = 10000; consecutive_failures = 1; rtt_ms = 4 }

abbrev lost : Circumstance
lost = record {
  fresh = codes "r1";
  now = 100;
  waiter = 31;
  delivered = true;
  meanwhile = λ i. i;
  outcome = timed_out;
}

abbrev fresh_session : DvcSharedState
fresh_session = record init {
  expected_build_id = some build;
  command_tx = true;
  closed_notify = true;
}

abbrev first_open : DvcSharedState
first_open = step fresh_session (opens 4)

abbrev both_open : DvcSharedState
both_open = step first_open (opens 5)

two_opens : Reach (some build) both_open (add ℕ_discrete 5 (add ℕ_discrete 4 []))
unfolding contains add discard ℕ_discrete
two_opens = next (opens 5) (next (opens 4) (begin true true) refl) refl

Reach-IsPlaced_example : IsPlaced both_open (add ℕ_discrete 5 (add ℕ_discrete 4 [])) 5
Reach-IsPlaced_example = Reach-IsPlaced two_opens 5

-- Channel 5 is set aside while 4 holds the slot.
both_open_channels :
    (both_open.channel_id ≡ some 4) × (contains ℕ_discrete 5 both_open.extras ≡ true)
unfolding step start contains add discard ℕ_discrete
both_open_channels = (refl, refl)

first_opener_keeps_example : (step both_open (closes 5)).channel_id ≡ some 4
first_opener_keeps_example = first_opener_keeps 4 (closes 5) two_opens both_open_channels.0

extra_is_harmless_example : SameAgent two_agents (close two_agents 5).0
unfolding contains ℕ_discrete
extra_is_harmless_example =
    (extra_is_harmless false two_agents 10 4 5 (some (response (codes "k") done_reply)) refl
      (omega arith) refl).2

abbrev shaken : DvcSharedState
shaken = step both_open (receives true 12 4 (some (handshake greeting)))

shaken-Reach : Reach (some build) shaken (add ℕ_discrete 5 (add ℕ_discrete 4 []))
unfolding contains add discard ℕ_discrete
shaken-Reach = next (receives true 12 4 (some (handshake greeting))) two_opens refl

Reach-IsAccepted_example : greeting.build_id ≡ some build
unfolding step start process contains add discard ℕ_discrete build_id_accepted text_eq
Reach-IsAccepted_example = Reach-IsAccepted shaken-Reach greeting build refl refl

stale_handshake_outlives_slot_example :
    is_ready (start (process true two_agents 10 4 (some (handshake other_greeting))).0 9) ≡ true
unfolding build_id_accepted text_eq
stale_handshake_outlives_slot_example =
    (stale_handshake_outlives_slot true two_agents 10 4 9 greeting other_greeting refl refl refl).0

abbrev history : List Event
history =
    receives false 20 4 (some (response (codes "k") done_reply))
    ∷ receives false 21 4 (some (response (codes "k") done_reply))
    ∷ closes 4
    ∷ []

-- The waiter is answered once, though the answer comes twice.
answered_once : total (answered_by 30) two_agents history ≡ 1
unfolding total step Replies.effects process close lookup erase contains discard ℕ_discrete
    Text-discrete fail_all
answered_once = refl

run_accounts_example :
    waiting 30 two_agents.pending + total (handed 30) two_agents history
    ≡ waiting 30 (Replies.run two_agents history).pending
      + total (answered_by 30) two_agents history
      + total (given_up 30) two_agents history
unfolding lookup
run_accounts_example = run_accounts 30 two_agents history (refl, tt)

closing_answers_all_example : (close two_agents 4).0.pending ≡ []
unfolding contains ℕ_discrete
closing_answers_all_example = (closing_answers_all 30 two_agents 4 refl refl).0

abbrev keyed_run : AutomateRequest
keyed_run = run (codes "dir") [] true false 500 none false (some (codes "k"))

abbrev probing : DvcSharedState
probing = record two_agents { pending = insert Text-discrete (codes "r1") 31 two_agents.pending }

busy_probe_counts_nothing_example : (probe_status client 3000 lost).0.consecutive_failures ≡ 1
unfolding hand_over lookup Text-discrete ℕ_discrete pending_requests
busy_probe_counts_nothing_example =
    busy_probe_counts_nothing client 3000 lost probing (omega arith) refl (inr refl) refl
      (omega arith)

-- The agent on channel 4 is released while its handshake is handled.
abbrev release_last : ℕ → List Event
release_last i = if i == 2 then releases 4 ∷ [] else []

release_last-IsOfOthers : (i : ℕ) → All IsOfOthers (release_last i)
release_last-IsOfOthers i = if_either (All IsOfOthers) (i == 2) (tt, tt) tt

abbrev released_late : DvcSharedState
released_late =
    (process_among (as_between release_last) true both_open 12 4 (some (handshake greeting))).0

both_open-Comes : Comes (some build) both_open (add ℕ_discrete 5 (add ℕ_discrete 4 []))
unfolding contains add discard ℕ_discrete
both_open-Comes = Comes.next (opens 5) (Comes.next (opens 4) (Comes.begin true true) refl) refl

Comes-IsPlaced_example : IsPlaced released_late (add ℕ_discrete 5 (add ℕ_discrete 4 [])) 4
unfolding contains add discard ℕ_discrete
Comes-IsPlaced_example =
    Comes-IsPlaced
      (processes release_last true 12 4 (some (handshake greeting)) both_open-Comes refl
        release_last-IsOfOthers)
      4

-- Its handshake is kept and the slot is free.
handshake_outlives_release :
    (released_late.channel_id ≡ none) × (released_late.greeting ≡ some greeting)
unfolding process_among on_handshake steps start step release_primary contains add discard
    ℕ_discrete build_id_accepted text_eq
handshake_outlives_release = (refl, refl)
