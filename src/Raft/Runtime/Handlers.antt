-- ===== src/Raft/Runtime/Handlers.antt =====
-- `handle_request_vote` and `handle_append_entries` of raft_runtime.py: the handlers of raft_core.py with
-- what they write to disk, the committed entries applied, and the recovery status.
use typesense_python.Base.{
  ℕ, ◌+◌, Str, codes, Bool, true, false, not, ◌&&◌, ◌||◌, Option, none, some, max, length, leb,
  if◌then◌else◌,
}
use typesense_python.Base.Result.{Result, ok, raise}
use typesense_python.Schemas.{Document}
use typesense_python.Recovery.{
  RecoveryStatus, recovering, rebuilding, validating, catching_up, same_status,
}
use typesense_python.Raft.Types.{VoteRequest, VoteReply, AppendRequest, AppendReply}
use typesense_python.Raft.Core
use typesense_python.Raft.Core.{RaftCore, last_log_index}
use typesense_python.Raft.Runtime.{
  RaftRuntime, Progress, current_progress, same_progress, save_state, replace_log,
  compute_recovery_status, log_recovery_event, log_current_recovery_state, plain_event,
}
use typesense_python.Raft.Runtime.Apply.{Apply, apply_committed_entries}

unfoldable pub handle_request_vote : RaftRuntime → ℕ → VoteRequest → RaftRuntime × VoteReply
handle_request_vote rt now request =
    let (core, reply) = Core.handle_request_vote rt.core request in
    let voted = record rt {
      core = core;
      last_heartbeat_at = if reply.vote_granted then now else rt.last_heartbeat_at;
    } in
    (log_current_recovery_state (save_state voted), reply)

abbrev pub has_leader : Option Str → Bool
has_leader none = false
has_leader (some _) = true

-- The recovery override that a confirmed catch-up takes away.
abbrev pub cleared_override : Option RecoveryStatus → Option RecoveryStatus
cleared_override none = none
cleared_override (some s) =
    if same_status s rebuilding || (same_status s validating || same_status s catching_up)
    then none
    else some s

unfoldable pub note_leader : RaftRuntime → ℕ → RecoveryStatus → AppendRequest → RaftRuntime
note_leader rt now before_status r =
    let seen = record rt {
      last_heartbeat_at = now;
      leader_last_log_index = some (max (r.prev_log_index + length r.entries) r.leader_commit);
      leader_commit_index = some r.leader_commit;
    } in
    if has_leader seen.core.leader_id && same_status before_status recovering
    then log_recovery_event seen (record (plain_event recovering (codes "found raft leader")) {
      source_leader = seen.core.leader_id;
    })
    else seen

abbrev pub caught_up : RaftRuntime → ℕ → ℕ → Bool
caught_up rt leader_last leader_commit =
    leb leader_last (last_log_index rt.core)
    && (leb leader_commit rt.core.commit_index && leb rt.core.commit_index rt.core.last_applied)

unfoldable pub confirm_catchup : RaftRuntime → Progress → AppendRequest → RaftRuntime
confirm_catchup rt before r =
    let same = same_progress (current_progress rt) before in
    let done =
      caught_up rt (max (r.prev_log_index + length r.entries) r.leader_commit) r.leader_commit in
    if not same && done
    then record rt { needs_catchup_confirmation = true }
    else if same && done
    then record rt {
      needs_catchup_confirmation = false;
      recovery_status_override = cleared_override rt.recovery_status_override;
    }
    else rt

module _ {M : Type 0} (apply : Apply M) where
  abbrev pub finish :
      Progress
      → AppendRequest
      → AppendReply
      → RaftRuntime × M × Result (Option Document)
      → RaftRuntime × M × Result AppendReply
  finish before r reply (rt, m, raise e) = (rt, m, raise e)
  finish before r reply (rt, m, ok _) =
      (log_current_recovery_state (save_state (confirm_catchup rt before r)), m, ok reply)

  -- `_handle_append_entries_locked`; `now` is the monotonic clock.
  unfoldable pub handle_append_entries :
      RaftRuntime → M → ℕ → AppendRequest → RaftRuntime × M × Result AppendReply
  unfolding note_leader confirm_catchup apply_committed_entries
  handle_append_entries rt m now r =
      let (core, reply) = Core.handle_append_entries rt.core r in
      let appended = replace_log (record rt { core = core }) in
      if reply.success
      then finish (current_progress rt) r reply (
          apply_committed_entries apply (note_leader appended now (compute_recovery_status rt) r) m)
      else (log_current_recovery_state (save_state appended), m, ok reply)
