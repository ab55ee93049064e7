-- ===== src/Dvc/Ipc/Outcomes.antt =====
-- dvc_ipc.rs: what a caller may conclude from the result of a request.
use agent_rdp.Base.{
  ℕ, ◌+◌, ◌≤◌, ◌<◌, max, ◌≡◌, refl, ◌⊎◌, inl, inr, Bool, true, false, some, arith, Result, ok, err,
  u32_max, Text,
}
use agent_rdp.Json.{Json}
use agent_rdp.Dvc.{DvcSharedState, DvcResponse}
use agent_rdp.Dvc.Ipc.{
  DvcIpc, SendError, RequestError, not_sent, indeterminate, failed, Outcome, answered, dropped,
  timed_out, Circumstance, hand_over, pending_requests, send_request_inner, probe_status,
  or_unknown, instance_of,
}

-- What each result says of the request `id` that was handed over as `h`, waited until `o`, and took
-- the client from `i` to `i'`.
abbrev pub Tells :
    DvcIpc
    → DvcIpc
    → Text
    → Result SendError DvcSharedState
    → Outcome
    → Result RequestError Json
    → Type 0
Tells i i' id h o (ok j) = (r : DvcResponse) × (ms : ℕ) × (o ≡ answered r ms) × (r.success ≡ true)
Tells i i' id h o (err (not_sent x)) = (h ≡ err x) × (i' ≡ i)
Tells i i' id h o (err (failed c m)) =
    (r : DvcResponse) × (ms : ℕ) × (o ≡ answered r ms)
    × (r.success ≡ false)
    × (or_unknown r.error ≡ failed c m)
Tells i i' id h o (err (indeterminate k n inst)) =
    ((o ≡ dropped) ⊎ (o ≡ timed_out))
    × (k ≡ id)
    × (n ≡ i'.consecutive_failures)
    × ((s : DvcSharedState) × (h ≡ ok s) × (inst ≡ instance_of s.greeting))

-- A status probe that is missed while another request is in flight leaves the count of failures as
-- it was, if nothing else changed the count meanwhile and it is not at its greatest value.
pub busy_probe_counts_nothing :
    (i : DvcIpc) (t : ℕ) (e : Circumstance) (s : DvcSharedState)
    → 0 < pending_requests i.shared
    → hand_over i.shared e.now e.fresh e.waiter t false e.delivered ≡ ok s
    → (e.outcome ≡ dropped) ⊎ (e.outcome ≡ timed_out)
    → (e.meanwhile (record i { shared = s })).consecutive_failures ≡ i.consecutive_failures
    → i.consecutive_failures < u32_max
    → (probe_status i t e).0.consecutive_failures ≡ i.consecutive_failures
unfolding probe_status send_request_inner
busy_probe_counts_nothing i t e s busy handed lost same small = elim lost [
  | inl o ↦ ground arith
  | inr o ↦ ground arith
]

-- The deadline until which the agent may be at work never falls when a request is handed over, and
-- covers the request if it counts; a probe leaves it alone.
pub busy_until-rises :
    (s t : DvcSharedState) (now : ℕ) (id : Text) (w d b : ℕ) (occupies delivered : Bool)
    → hand_over s now id w d occupies delivered ≡ ok t
    → s.busy_until ≡ some b
    → (c : ℕ) × (t.busy_until ≡ some c)
      × (b ≤ c)
      × (occupies ≡ true → now + d ≤ c)
      × (occupies ≡ false → c ≡ b)
unfolding hand_over
busy_until-rises s t now id w d b true delivered h hb =
    (max b (now + d), ground arith, omega arith, (λ _. omega arith), λ e. cc)
busy_until-rises s t now id w d b false delivered h hb =
    (b, ground arith, omega arith, (λ e. cc), λ _. refl)
