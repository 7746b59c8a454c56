-- ===== src/HttpClient.antt =====
-- src/typesense_lite/http_client.py: `get_with_retry`. A request is a parameter; the pauses are not modelled.
use typesense_python.Base.{nat_eq, text_eq, ℕ, zero, suc}

-- What a request ends with: the JSON of a response, an httpx.HTTPStatusError, another httpx.HTTPError, or
-- another exception.
pub data HttpReply (A : Type 0) : Type 0 where
  answered : A → HttpReply A
  status_error : ℕ → HttpReply A
  failed_call : HttpReply A
  raised : HttpReply A

-- The loop, with as many attempts left after this one.
unfoldable pub get_attempts : {W A : Type 0} → (W → W × HttpReply A) → ℕ → W → W × HttpReply A
get_attempts call zero w = call w
get_attempts call (suc n) w =
    let (w', reply) = call w in
    elim reply [
      | answered a ↦ (w', answered a)
      | raised ↦ (w', raised)
      | status_error s ↦ get_attempts call n w'
      | failed_call ↦ get_attempts call n w'
    ]

-- With its default of one retry.
unfoldable pub get_with_retry : {W A : Type 0} → (W → W × HttpReply A) → W → W × HttpReply A
get_with_retry call w = get_attempts call 1 w
