-- ===== src/Protocol/Automate.antt =====
-- crates/agent-rdp-protocol/src/automation.rs: the requests to the automation agent.
use agent_rdp.Base.Int.{ℤ}
use agent_rdp.Base.{ℕ, Text, Bool, true, false, Option, List}

pub data ScrollDirection : Type 0 where
  up down left right : ScrollDirection

pub data WindowAction : Type 0 where
  list focus maximize minimize restore close : WindowAction

pub data WaitState : Type 0 where
  visible enabled gone : WaitState

pub data AutomateRequest : Type 0 where
  snapshot :
      (interactive_only compact : Bool) (max_depth : ℕ) (selector : Option Text) (focused : Bool)
      → AutomateRequest
  get_value : (selector : Text) (property : Option Text) → AutomateRequest
  focus : (selector : Text) → AutomateRequest
  click : (selector : Text) (double_click : Bool) → AutomateRequest
  select : (selector : Text) (item : Option Text) → AutomateRequest
  toggle : (selector : Text) (state : Option Bool) → AutomateRequest
  expand : (selector : Text) → AutomateRequest
  collapse : (selector : Text) → AutomateRequest
  context_menu : (selector : Text) → AutomateRequest
  fill : (selector text : Text) → AutomateRequest
  clear : (selector : Text) → AutomateRequest
  scroll :
      (selector : Text) (direction : Option ScrollDirection) (amount : Option ℤ)
      (to_child : Option Text)
      → AutomateRequest
  window : (action : WindowAction) (selector : Option Text) → AutomateRequest
  run :
      (command : Text) (args : List Text) (wait hidden : Bool) (timeout_ms : ℕ)
      (shell : Option Text) (stream : Bool) (idempotency_key : Option Text)
      → AutomateRequest
  run_poll : (pid : ℕ) → AutomateRequest
  wait_for : (selector : Text) (timeout_ms : ℕ) (state : WaitState) → AutomateRequest
  status : AutomateRequest
  file_write_chunk :
      (path data_b64 : Text) (first last : Bool) (sha256 : Option Text) (transfer_id : Text)
      (abort : Bool)
      → AutomateRequest
  file_read_chunk : (path : Text) (offset len : ℕ) → AutomateRequest
  file_stat : (path : Text) → AutomateRequest
  query_result : (id : Text) → AutomateRequest
  shutdown : AutomateRequest

-- `AutomateRequest::is_read_only`: sending it again changes nothing on the remote side.
unfoldable pub is_read_only : AutomateRequest → Bool
is_read_only (snapshot i c d s f) = true
is_read_only (get_value s p) = true
is_read_only status = true
is_read_only (wait_for s t w) = true
is_read_only (file_stat p) = true
is_read_only (file_read_chunk p o l) = true
is_read_only (query_result i) = true
is_read_only (window WindowAction.list s) = true
is_read_only _ = false
