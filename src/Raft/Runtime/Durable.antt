-- ===== src/Raft/Runtime/Durable.antt =====
-- What raft_runtime.py has written to disk when a handler returns its reply, and when it raises.
use typesense_python.Base.{ℕ, ◌≡◌, ◌∙◌, refl, sym, ap, Option, arith, Bool-cases, inl, inr}
use typesense_python.Base.Result.{Result, ok, raise}
use typesense_python.Schemas.{Document}
use typesense_python.Recovery.{RecoveryStatus}
use typesense_python.Raft.Types.{VoteRequest, AppendRequest, AppendReply}
use typesense_python.Raft.Core
use typesense_python.Raft.Core.{RaftCore}
use typesense_python.Raft.Runtime.{
  RaftRuntime, Disk, Progress, log_recovery_event, log_current_recovery_state, replace_log,
  current_progress, compute_recovery_status,
}
use typesense_python.Raft.Runtime.Apply.{Apply, apply_committed_entries}
use typesense_python.Raft.Runtime.Handlers.{
  handle_request_vote, handle_append_entries, finish, note_leader, confirm_catchup,
}
use typesense_python.Raft.Runtime.Cores.{core-log_current}

pub disk-log_current : (rt : RaftRuntime) → (log_current_recovery_state rt).disk ≡ rt.disk
unfolding log_current_recovery_state log_recovery_event
disk-log_current rt = ground arith

disk-note_leader :
    (rt : RaftRuntime) (now : ℕ) (s : RecoveryStatus) (r : AppendRequest)
    → ((note_leader rt now s r).disk ≡ rt.disk) × ((note_leader rt now s r).core.log ≡ rt.core.log)
unfolding note_leader log_recovery_event
disk-note_leader rt now s r = ground arith

-- The files agree with the state in memory.
abbrev pub IsSaved : RaftRuntime → Type 0
IsSaved rt = (rt.disk.saved_state ≡ rt.core.state) × (rt.disk.saved_log ≡ rt.core.log)

-- A vote, granted or not, is on disk with its term before the reply goes out.
pub handle_request_vote_durable :
    (rt : RaftRuntime) (now : ℕ) (r : VoteRequest)
    → (handle_request_vote rt now r).0.disk.saved_state
      ≡ (handle_request_vote rt now r).0.core.state
unfolding handle_request_vote
handle_request_vote_durable rt now r = rw (disk-log_current, core-log_current) refl

-- How the two files stand after an append request that came to its end, or that failed on the way.
abbrev pub SavedBy : RaftRuntime → RaftRuntime → Result AppendReply → Type 0
SavedBy before rt (ok _) = IsSaved rt
SavedBy before rt (raise _) =
    (rt.disk.saved_log ≡ rt.core.log) × (rt.disk.saved_state ≡ before.disk.saved_state)

module _ {M : Type 0} (apply : Apply M) where
  finish-SavedBy :
      (before : RaftRuntime) (p : Progress) (r : AppendRequest) (reply : AppendReply)
      (rt : RaftRuntime) (m : M) (result : Result (Option Document))
      → rt.disk.saved_log ≡ rt.core.log
      → rt.disk.saved_state ≡ before.disk.saved_state
      → SavedBy before
          (finish apply p r reply (rt, m, result)).0
          (finish apply p r reply (rt, m, result)).2
  unfolding confirm_catchup
  finish-SavedBy before p r reply rt m (ok o) h q =
      rw (disk-log_current, core-log_current) (ground arith)
  finish-SavedBy before p r reply rt m (raise e) h q = (h, q)

  -- An append request that gets a reply, accepted or refused, has left its log and its state on disk. One
  -- that raises, since `apply_command` raised, has left the log on disk and the old state beside it.
  pub handle_append_entries_durable :
      (rt : RaftRuntime) (m : M) (now : ℕ) (r : AppendRequest)
      → SavedBy rt
          (handle_append_entries apply rt m now r).0
          (handle_append_entries apply rt m now r).2
  unfolding handle_append_entries
  handle_append_entries_durable rt m now r =
      let (core, reply) = Core.handle_append_entries rt.core r in
      let appended = replace_log (record rt { core = core }) in
      let n = note_leader appended now (compute_recovery_status rt) r in
      let (rt', m', result) = apply_committed_entries apply n m in
      let (disk, log) = disk-note_leader appended now (compute_recovery_status rt) r in
      elim (Bool-cases reply.success) [
        | inl won ↦ rw won (
            finish-SavedBy rt (current_progress rt) r reply rt' m' result
              (ap (λ (d : Disk). d.saved_log) disk ∙ sym log)
              (ap (λ (d : Disk). d.saved_state) disk))
        | inr lost ↦ rw (lost, disk-log_current, core-log_current) (refl, refl)
      ]
