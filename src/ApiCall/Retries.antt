-- ===== src/ApiCall/Retries.antt =====
-- src/typesense/sync/api_call.py: how many attempts a request makes and how it ends.
use typesense_python.Base.{nat_eq, text_eq, ℕ, suc, ◌+◌, ◌≤◌, ◌<◌, ◌≡◌, Bool, true, false}
use typesense_python.NodeManager.{NodeManager}
use typesense_python.ApiCall.{Response, Outcome, Send}
use typesense_python.ApiCall.Response.{response, server_error, other_error}
use typesense_python.ApiCall.Outcome.{returned, raised}

abbrev pub is_server_error : {A E : Type 0} → Response A E → Bool
is_server_error (server_error e) = true
is_server_error _ = false

-- How an answer at attempt k, of n at most after the first, ends the request.
abbrev pub Ends : {A E : Type 0} → Response A E → ℕ → ℕ → Outcome A E → Type 0
Ends (response a) k n out = out ≡ returned a
Ends (other_error e) k n out = out ≡ raised e
Ends (server_error e) k n out = (k ≡ n) × (out ≡ raised e)

module _ {A E : Type 0} (answer : ℕ → Response A E) where
  -- The server's answers in turn; the world counts the attempts.
  abbrev pub answering : Send ℕ A E
  answering w node = (suc w, answer w)

  -- Attempt k ends the request: before it there were server errors only.
  pub record Ended (i n w : ℕ) (out : Outcome A E) : Type 0 where
    pub k : ℕ
    pub within : k ≤ n
    pub attempts : w ≡ i + (k + 1)
    pub earlier : (j : ℕ) → j < k → is_server_error (answer (i + j)) ≡ true
    pub ends : Ends (answer (i + k)) k n out
