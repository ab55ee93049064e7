-- ===== src/Automate/Times.antt =====
-- handlers/automate.rs: how long a request may take, the ladder included.
use agent_rdp.Json.{Json}
use agent_rdp.Protocol.Automate.{AutomateRequest, query_result, status}
use agent_rdp.Dvc.Ipc.{RequestError, not_sent, failed, indeterminate}
use agent_rdp.Automate.{
  query_result_attempts, query_result_timeout, query_result_backoff, status_probe_timeout,
  default_dvc_timeout, indeterminate_resolution_worst, request_timeout, dvc_deadline,
  skips_recovery_ladder, Answer, Client, after_lookup, look_up, resolve_indeterminate, noted_spawn,
  spawned, after_send, handle_ready,
}
use agent_rdp.Base.{
  ℕ, zero, suc, ◌+◌, ◌-◌, ◌*◌, ◌≤◌, ◌≡◌, ap, Bool, true, false, Option, none, some, arith, ltb,
  if◌then◌else◌, if_either, Result, ok, err, Text,
}

-- A client whose calls end by their deadlines, and whose sleeps do not overrun.
pub record IsTimely {S : Type 0} (l : Client S) : Type 0 where
  pub asks : (s : S) (r : AutomateRequest) (t : ℕ) → l.now (l.ask s r t).0 ≤ l.now s + t
  pub probes : (s : S) (t : ℕ) → l.now (l.probe s t).0 ≤ l.now s + t
  pub sleeps : (s : S) (d : ℕ) → l.now (l.sleep s d) ≤ l.now s + d
  pub notes : (s : S) (a b : ℕ) → l.now (l.note_spawn s a b) ≤ l.now s

-- What the lookups that are left may take.
abbrev lookups_take : (fuel attempt : ℕ) → ℕ
lookups_take zero attempt = 0
lookups_take (suc f) attempt =
    let rest = lookups_take f (attempt + 1) in
    query_result_timeout
    + (if ltb attempt query_result_attempts then query_result_backoff * attempt + rest else 0)

-- What the ladder adds to a request's own deadline.
unfoldable pub ladder_takes : AutomateRequest → ℕ
unfolding skips_recovery_ladder indeterminate_resolution_worst
ladder_takes r = if skips_recovery_ladder r then 0 else indeterminate_resolution_worst

-- Two choices on one test, side by side.
if_both {ℓ κ ι} :
    {A : Type ℓ} {B : Type κ} (R : A → B → Type ι) (b : Bool) {x y : A} {u v : B}
    → R x u
    → R y v
    → R (if b then x else y) (if b then u else v)
if_both R true h k = h
if_both R false h k = k

module _ {S : Type 0} (l : Client S) (timely : IsTimely l) where
  module _ (r : AutomateRequest) (id : Text) (sent_to : Option Text) (error : Text) where
    after_lookup-le :
        (attempt : ℕ) (rest : S → S × Answer) (n : ℕ)
        → ((s : S) → l.now (rest s).0 ≤ l.now s + n)
        → (p : S × Result RequestError Json)
        → l.now (after_lookup l r id sent_to error attempt rest p).0
          ≤ l.now p.0
            + (if ltb attempt query_result_attempts then query_result_backoff * attempt + n else 0)
    after_lookup-le attempt rest n h (s, ok value) = omega arith
    after_lookup-le attempt rest n h (s, err x) =
        let slept = timely.sleeps s (query_result_backoff * attempt) in
        let rested = h (l.sleep s (query_result_backoff * attempt)) in
        if_both (λ (a : S × Answer) (m : ℕ). l.now a.0 ≤ l.now s + m)
          (ltb attempt query_result_attempts) (omega (arith, slept, rested)) (omega arith)

    look_up-le :
        (fuel attempt : ℕ) (s : S)
        → l.now (look_up l r id sent_to error fuel attempt s).0
          ≤ l.now s + lookups_take fuel attempt
    unfolding look_up
    look_up-le zero attempt s = omega arith
    look_up-le (suc f) attempt s =
        let asked = timely.asks s (query_result id) query_result_timeout in
        let after =
          after_lookup-le attempt (look_up l r id sent_to error f (attempt + 1))
            (lookups_take f (attempt + 1)) (look_up-le f (attempt + 1))
            (l.ask s (query_result id) query_result_timeout) in
        omega (arith, asked, after)

    resolve-le :
        (s : S)
        → l.now (resolve_indeterminate l r id sent_to error s).0
          ≤ l.now s + indeterminate_resolution_worst
    unfolding resolve_indeterminate indeterminate_resolution_worst
    resolve-le s =
        if_either (λ (a : S × Answer). l.now a.0 ≤ l.now s + indeterminate_resolution_worst)
          (l.has_query_result s) (look_up-le query_result_attempts 1 s) (omega arith)

  noted-le : (s : S) (at : ℕ) (o : Option ℕ) → l.now (noted_spawn l s at o) ≤ l.now s
  noted-le s at none = omega arith
  noted-le s at (some ms) = timely.notes s ms (l.now s - at)

  after_send-le :
      (r : AutomateRequest) (at : ℕ) (p : S × Result RequestError Json)
      → l.now (after_send l r at p).0 ≤ l.now p.0 + ladder_takes r
  unfolding ladder_takes
  after_send-le r at (s, ok value) =
      let noted = noted-le s at (spawned r value) in omega (arith, noted)
  after_send-le r at (s, err (not_sent e)) = omega arith
  after_send-le r at (s, err (failed c m)) = omega arith
  after_send-le r at (s, err (indeterminate id n sent_to)) =
      if_both (λ (a : S × Answer) (m : ℕ). l.now a.0 ≤ l.now s + m) (skips_recovery_ladder r)
        (omega arith) (resolve-le r id sent_to (l.text_of (indeterminate id n sent_to)) s)

  -- With a client whose calls end by their deadlines, and the channel's default deadline, a request
  -- to an agent that is ready is answered within its own deadline and the worst of the ladder; a
  -- status request or a lookup within its deadline alone.
  pub ladder_fits_in :
      (r : AutomateRequest) (s : S)
      → l.default_timeout s ≡ default_dvc_timeout
      → l.now (handle_ready l r s).0 ≤ l.now s + dvc_deadline r + ladder_takes r
  unfolding handle_ready dvc_deadline skips_recovery_ladder ladder_takes
  ladder_fits_in status s e =
      let probed_by = timely.probes s status_probe_timeout in omega (arith, probed_by)
  ladder_fits_in r s e =
      let asked = timely.asks s r (request_timeout r (l.default_timeout s)) in
      let after = after_send-le r (l.now s) (l.ask s r (request_timeout r (l.default_timeout s))) in
      let same = ap (request_timeout r) e in omega (arith, asked, after, same)
