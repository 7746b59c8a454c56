-- ===== src/Coordinator.antt =====
-- src/typesense_lite/coordinator.py: the writes. Each goes as a command to the Raft leader of the
-- document's shard, with up to RAFT_SUBMIT_ATTEMPTS attempts. `ask` and `post` are the HTTP calls.
pub mod Trusted
pub mod Attempts
pub mod Nodes
pub mod Search
pub mod Alive
pub mod Writes
use typesense_python.Base.{
  leb, ◌==◌, if◌then◌else◌, Str, ℕ, zero, suc, Bool, ◌&&◌, Option, none, some,
}
use typesense_python.Base.Result.{Error, Result, ok, raise}
use typesense_python.Base.Result.Error.{runtime_error}
use typesense_python.Schemas.{ℤ, Document, NodeInfo}
use typesense_python.Raft.Types.{RaftCommand}
use typesense_python.Cluster.{ClusterMap}
use typesense_python.LeaderDirectory.{Ask, Leaders, get_leader, invalidate}

-- A response to a command: its status and what is read of its JSON, `payload.get("ok") is True` first.
pub record CommandReply : Type 0 where
  pub status_code : ℕ
  pub ok : Bool
  pub leader : Str
  pub term : Option ℕ
  pub commit_index : Option ℕ
  pub result : Option Document

-- `none` is an httpx.HTTPError.
abbrev pub Post : Type 0 → Type 0
Post W = W → NodeInfo → ℤ → RaftCommand → W × Option CommandReply

-- The errors that a submission keeps in `last_error` or raises.
pub data SubmitError : Type 0 where
  no_leader : SubmitError
  connection : SubmitError
  status : ℕ → SubmitError
  refused : SubmitError
  other : Error → SubmitError

pub data Submitted : Type 0 where
  delivered : CommandReply → Submitted
  failed : SubmitError → Submitted

-- How an attempt goes on after the call of the leader.
pub data Attempt : Type 0 where
  done : CommandReply → Attempt
  retry : SubmitError → Attempt
  stop : SubmitError → Attempt

-- `raise_for_status` passes a response with a status from 200 to 299.
abbrev pub is_success : ℕ → Bool
is_success s = leb 200 s && leb s 299

unfoldable pub judge : CommandReply → Attempt
judge r =
    if r.status_code == 409
    then retry (status 409)
    else if is_success r.status_code
    then (if r.ok then done r else retry refused)
    else if leb 500 r.status_code
    then retry (status r.status_code)
    else stop (status r.status_code)

unfoldable pub attempt_of : Option CommandReply → Attempt
attempt_of none = retry connection
attempt_of (some r) = judge r

-- `raise last_error`, and without one the RuntimeError.
abbrev pub end_of_attempts : Option SubmitError → Submitted
end_of_attempts none = failed no_leader
end_of_attempts (some e) = failed e

-- What a round of the loop ends with: the next round, or the return or the exception.
pub data SubmitRound (W : Type 0) : Type 0 where
  next : W → Leaders → SubmitError → SubmitRound W
  final : W → Leaders → Submitted → SubmitRound W

unfoldable pub judged_round : {W : Type 0} → W → Leaders → ℤ → Attempt → SubmitRound W
judged_round w leaders shard (done r) = final w leaders (delivered r)
judged_round w leaders shard (retry e) = next w (invalidate leaders shard) e
judged_round w leaders shard (stop e) = final w (invalidate leaders shard) (failed e)

module _ {W : Type 0} (ask : Ask W) (post : Post W) (cluster : ClusterMap) where
  unfoldable pub led_round : W → Leaders → ℤ → RaftCommand → Result NodeInfo → SubmitRound W
  led_round w leaders shard command (raise runtime_error) = next w leaders no_leader
  led_round w leaders shard command (raise e) = final w leaders (failed (other e))
  led_round w leaders shard command (ok node) =
      let (w', reply) = post w node shard command in
      judged_round w' leaders shard (attempt_of reply)

  unfoldable pub submit_round : W → Leaders → ℤ → RaftCommand → SubmitRound W
  submit_round w leaders shard command =
      let (w', leaders', leader) = get_leader ask cluster w leaders shard in
      led_round w' leaders' shard command leader

  -- `_submit_raft_command` with as many attempts left.
  unfoldable pub submit_attempts :
      ℕ → W → Leaders → ℤ → RaftCommand → Option SubmitError → W × Leaders × Submitted
  submit_attempts zero w leaders shard command last = (w, leaders, end_of_attempts last)
  submit_attempts (suc n) w leaders shard command last =
      elim (submit_round w leaders shard command) [
        | next w' leaders' e ↦ submit_attempts n w' leaders' shard command (some e)
        | final w' leaders' end ↦ (w', leaders', end)
      ]

  unfoldable pub submit_raft_command : W → Leaders → ℤ → RaftCommand → W × Leaders × Submitted
  submit_raft_command w leaders shard command = submit_attempts 8 w leaders shard command none
