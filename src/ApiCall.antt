-- ===== src/ApiCall.antt =====
-- src/typesense/sync/api_call.py: the retries of a request. `request_handler.make_request` and the server
-- are the parameter `send`; the clock stands still during a request.
pub mod Retries
use typesense_python.Base.{ℕ, zero, suc, ◌+◌, true, false, Option, none, some}
use typesense_python.NodeManager.{NodeManager, Choice, get_node, set_node_health}

-- How `make_request` ends: with a response, with one of _SERVER_ERRORS, or with another exception.
pub data Response (A E : Type 0) : Type 0 where
  response : A → Response A E
  server_error : E → Response A E
  other_error : E → Response A E

-- How `_execute_request` ends; `unhealthy` is TypesenseClientError("All nodes are unhealthy").
pub data Outcome (A E : Type 0) : Type 0 where
  returned : A → Outcome A E
  raised : E → Outcome A E
  unhealthy : Outcome A E

abbrev pub Send : Type 0 → Type 0 → Type 0 → Type 0
Send W A E = W → Choice → W × Response A E

-- The node that is marked healthy is the next one of the rotation, not the one that has answered.
unfoldable pub mark_healthy : NodeManager → ℕ → NodeManager
mark_healthy m now = let (m', choice) = get_node m now in set_node_health m' now choice true

abbrev pub give_up : {A E : Type 0} → Option E → Outcome A E
give_up none = unhealthy
give_up (some e) = raised e

module _ {W A E : Type 0} (send : Send W A E) (now : ℕ) where
  -- `_execute_request` with as many attempts left.
  unfoldable pub execute_request : NodeManager → W → ℕ → Option E → NodeManager × W × Outcome A E
  execute_request m w zero last_exception = (m, w, give_up last_exception)
  execute_request m w (suc attempts) last_exception =
      let (m', node) = get_node m now in
      let (w', reply) = send w node in
      elim reply [
        | response a ↦ (mark_healthy m' now, w', returned a)
        | server_error e ↦ execute_request (set_node_health m' now node false) w' attempts (some e)
        | other_error e ↦ (m', w', raised e)
      ]

  -- The call that a client makes: num_retries is 0, and goes up to the configured number.
  unfoldable pub request : NodeManager → W → ℕ → NodeManager × W × Outcome A E
  request m w num_retries = execute_request m w (num_retries + 1) none
