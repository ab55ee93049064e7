-- ===== src/Automate/Ladder.antt =====
-- handlers/automate.rs: what the ladder may tell of a request whose reply was lost.
use agent_rdp.Json.{Json}
use agent_rdp.Protocol.Automate.{AutomateRequest, query_result, status}
use agent_rdp.Dvc.Ipc.{RequestError, not_sent, failed, indeterminate}
use agent_rdp.Automate.{
  query_result_attempts, query_result_timeout, query_result_backoff, request_timeout,
  skips_recovery_ladder, unknown_id_verdict, Answer, never_received, Client, text_at, flag_at,
  same_instance, by_verdict, by_agent, answer_lookup, after_lookup, look_up, resolve_indeterminate,
  after_send, handle_ready,
}
use agent_rdp.Base.{
  ℕ, zero, suc, ◌+◌, ◌*◌, ◌≡◌, refl, sym, ap, subst, inl, inr, Bool, true, false, Option, none,
  some, ltb, Bool-cases, if_either, if_split, Result, ok, err, Text, codes, text_eq, text_eq→eq,
}

-- What an agent answers, in its own name, that holds no record of a request and has dropped none.
pub record Denies (value : Json) (i : Text) : Type 0 where
  pub unknown : flag_at (codes "known") value ≡ false
  pub kept : flag_at (codes "evicted") value ≡ false
  pub named : text_at (codes "instance_id") value ≡ some i

-- What an agent tells of a request holds: the instance that denies it has not run it.
unfoldable pub IsHonest : {S : Type 0} → ((instance_id id : Text) → Type 0) → Client S → Type 0
IsHonest {S} ran l =
    (s : S) (id : Text) (t : ℕ) (value : Json) (i : Text)
    → (l.ask s (query_result id) t).1 ≡ ok value
    → Denies value i
    → ¬ ran i id

abbrev says_safe : Answer → Bool
says_safe (never_received id) = true
says_safe a = false

-- An answer that calls a retry safe comes of a lost reply, and the instance that was sent the
-- request did not run it.
pub data Backed (ran : (instance_id id : Text) → Type 0) (outcome : Result RequestError Json)
    : Answer → Type 0 where
  safe_to_retry :
      (i id : Text) (n : ℕ)
      → outcome ≡ err (indeterminate id n (some i))
      → ¬ ran i id
      → Backed ran outcome (never_received id)
  not_called_safe : (a : Answer) → says_safe a ≡ false → Backed ran outcome a

module _ (ran : (instance_id id : Text) → Type 0) (outcome : Result RequestError Json)
    (r : AutomateRequest) (id : Text) (n : ℕ) where
  agent-Backed :
      (sent_to named : Option Text)
      → outcome ≡ err (indeterminate id n sent_to)
      → ((i : Text) → named ≡ some i → ¬ ran i id)
      → Backed ran outcome (by_verdict id (by_agent (same_instance sent_to named)))
  agent-Backed (some i) (some j) e honest = elim (Bool-cases (text_eq i j)) [
    | inl h ↦
        subst (λ b. Backed ran outcome (by_verdict id (by_agent (some b)))) (sym h)
          (safe_to_retry i id n e (honest i (ap some (sym (text_eq→eq i j h)))))
    | inr h ↦
        subst (λ b. Backed ran outcome (by_verdict id (by_agent (some b)))) (sym h)
          (not_called_safe _ refl)
  ]
  agent-Backed (some i) none e honest = not_called_safe _ refl
  agent-Backed none named e honest = not_called_safe _ refl

  answer-Backed :
      (sent_to : Option Text) (value : Json)
      → outcome ≡ err (indeterminate id n sent_to)
      → ((i : Text) → Denies value i → ¬ ran i id)
      → Backed ran outcome (answer_lookup r id sent_to value)
  unfolding answer_lookup unknown_id_verdict
  answer-Backed sent_to value e honest =
      if_split (Backed ran outcome) (flag_at (codes "known") value)
        (λ k.
          if_either (Backed ran outcome) (flag_at (codes "success") value) (not_called_safe _ refl)
            (not_called_safe _ refl))
        (λ k.
          if_split (λ v. Backed ran outcome (by_verdict id v)) (flag_at (codes "evicted") value)
            (λ v. not_called_safe _ refl)
            (λ v.
              agent-Backed sent_to (text_at (codes "instance_id") value) e
                (λ i m. honest i (record { unknown = k; kept = v; named = m }))))

  module _ {S : Type 0} (l : Client S) (sent_to : Option Text) (error : Text)
      (e : outcome ≡ err (indeterminate id n sent_to)) (honest : IsHonest ran l) where
    lookup-Backed :
        (attempt : ℕ) (rest : S → S × Answer) (p : S × Result RequestError Json)
        → ((s : S) → Backed ran outcome (rest s).1)
        → ((value : Json) → p.1 ≡ ok value → (i : Text) → Denies value i → ¬ ran i id)
        → Backed ran outcome (after_lookup l r id sent_to error attempt rest p).1
    lookup-Backed attempt rest (s, ok value) h d = answer-Backed sent_to value e (d value refl)
    lookup-Backed attempt rest (s, err x) h d =
        if_either (λ (a : S × Answer). Backed ran outcome a.1) (ltb attempt query_result_attempts)
          (h (l.sleep s (query_result_backoff * attempt))) (not_called_safe _ refl)

    look_up-Backed :
        (fuel attempt : ℕ) (s : S)
        → Backed ran outcome (look_up l r id sent_to error fuel attempt s).1
    unfolding look_up IsHonest
    look_up-Backed zero attempt s = not_called_safe _ refl
    look_up-Backed (suc f) attempt s =
        lookup-Backed attempt (look_up l r id sent_to error f (attempt + 1))
          (l.ask s (query_result id) query_result_timeout) (look_up-Backed f (attempt + 1))
          (λ value a i. honest s id query_result_timeout value i a)

    resolve-Backed : (s : S) → Backed ran outcome (resolve_indeterminate l r id sent_to error s).1
    unfolding resolve_indeterminate
    resolve-Backed s =
        if_either (λ (a : S × Answer). Backed ran outcome a.1) (l.has_query_result s)
          (look_up-Backed query_result_attempts 1 s) (not_called_safe _ refl)

module _ (ran : (instance_id id : Text) → Type 0) {S : Type 0} (l : Client S)
    (honest : IsHonest ran l) where
  after_send-Backed :
      (r : AutomateRequest) (at : ℕ) (p : S × Result RequestError Json)
      → Backed ran p.1 (after_send l r at p).1
  after_send-Backed r at (s, ok value) = not_called_safe _ refl
  after_send-Backed r at (s, err (not_sent e)) = not_called_safe _ refl
  after_send-Backed r at (s, err (failed c m)) = not_called_safe _ refl
  after_send-Backed r at (s, err (indeterminate id n sent_to)) =
      if_either (λ (a : S × Answer). Backed ran (err (indeterminate id n sent_to)) a.1)
        (skips_recovery_ladder r) (not_called_safe _ refl)
        (resolve-Backed ran (err (indeterminate id n sent_to)) r id n l sent_to
          (l.text_of (indeterminate id n sent_to)) refl honest s)

  -- When the agents are honest - the instance that answers a lookup in its own name with no record,
  -- known or evicted, has not run the request - the handler calls a retry safe only after a reply
  -- that was lost, and only for a request whose own instance has not run it.
  pub safe_retry_never_ran :
      (r : AutomateRequest) (s : S)
      → Backed ran (l.ask s r (request_timeout r (l.default_timeout s))).1 (handle_ready l r s).1
  unfolding handle_ready
  safe_retry_never_ran status s = not_called_safe _ refl
  safe_retry_never_ran r s =
      after_send-Backed r (l.now s) (l.ask s r (request_timeout r (l.default_timeout s)))
