-- ===== src/Raft/Runtime/Cores.antt =====
-- What the operations of raft_runtime.py do to the Raft state inside the runtime.
use typesense_python.Base.{ℕ, ◌≡◌, refl, Option, none, some, arith, Bool-cases, inl, inr}
use mathlib.Core.Path.{subst}
use typesense_python.Base.Result.{Result, ok, raise}
use typesense_python.Schemas.{Document}
use typesense_python.Recovery.{RecoveryStatus}
use typesense_python.Raft.Types.{AppendReply, leader, follower, VoteRequest, AppendRequest}
use typesense_python.Raft.Core
use typesense_python.Raft.Core.{RaftCore}
use typesense_python.Raft.Runtime.{
  RaftRuntime, RecoveryEvent, Progress, current_progress, compute_recovery_status, replace_log,
  log_recovery_event, log_current_recovery_state,
}
use typesense_python.Raft.Runtime.Apply.{Apply, apply_committed_entries}
use typesense_python.Raft.Runtime.Handlers.{
  handle_request_vote, handle_append_entries, finish, note_leader, confirm_catchup,
}
use typesense_python.Raft.Runtime.Election.{become_leader, give_up}
use typesense_python.Raft.Runtime.Replicate.{step_down}

pub core-log_recovery_event :
    (rt : RaftRuntime) (e : RecoveryEvent) → (log_recovery_event rt e).core ≡ rt.core
unfolding log_recovery_event
core-log_recovery_event rt e = ground arith

pub core-log_current : (rt : RaftRuntime) → (log_current_recovery_state rt).core ≡ rt.core
unfolding log_current_recovery_state log_recovery_event
core-log_current rt = ground arith

pub core-handle_request_vote :
    (rt : RaftRuntime) (now : ℕ) (r : VoteRequest)
    → (handle_request_vote rt now r).0.core ≡ (Core.handle_request_vote rt.core r).0
unfolding handle_request_vote
core-handle_request_vote rt now r = core-log_current _

pub core-become_leader :
    (rt : RaftRuntime)
    → (become_leader rt).core ≡ record rt.core { role = leader; leader_id = some rt.core.node_id }
unfolding become_leader
core-become_leader rt = core-log_recovery_event _ _

pub core-give_up :
    (rt : RaftRuntime) (term : ℕ)
    → (give_up rt term).core ≡ record rt.core {
      state = record rt.core.state { current_term = term; voted_for = none };
      role = follower;
    }
unfolding give_up
core-give_up rt term = core-log_current _

pub core-step_down :
    (rt : RaftRuntime) (term : ℕ)
    → (step_down rt term).core ≡ record rt.core {
      state = record rt.core.state { current_term = term; voted_for = none };
      role = follower;
      leader_id = none;
    }
unfolding step_down
core-step_down rt term = core-log_current _

-- The parts of a node that elections read.
pub record SameBallot (c c' : RaftCore) : Type 0 where
  pub node_id : c'.node_id ≡ c.node_id
  pub members : c'.members ≡ c.members
  pub term : c'.current_term ≡ c.current_term
  pub vote : c'.voted_for ≡ c.voted_for
  pub role : c'.role ≡ c.role

core-note_leader :
    (rt : RaftRuntime) (now : ℕ) (s : RecoveryStatus) (r : AppendRequest)
    → (note_leader rt now s r).core ≡ rt.core
unfolding note_leader
core-note_leader rt now s r = grind (arith, core-log_recovery_event)

core-confirm_catchup :
    (rt : RaftRuntime) (p : Progress) (r : AppendRequest) → (confirm_catchup rt p r).core ≡ rt.core
unfolding confirm_catchup
core-confirm_catchup rt p r = ground arith

module _ {M : Type 0} (apply : Apply M) where
  SameBallot-apply :
      (rt : RaftRuntime) (m : M) → SameBallot rt.core (apply_committed_entries apply rt m).0.core
  unfolding apply_committed_entries
  SameBallot-apply rt m = record {
    node_id = refl;
    members = refl;
    term = refl;
    vote = refl;
    role = refl;
  }

  SameBallot-finish :
      (c : RaftCore) (p : Progress) (r : AppendRequest) (reply : AppendReply) (rt : RaftRuntime)
      (m : M) (result : Result (Option Document))
      → SameBallot c rt.core
      → SameBallot c (finish apply p r reply (rt, m, result)).0.core
  SameBallot-finish c p r reply rt m (ok o) h = rw core-log_current (rw core-confirm_catchup h)
  SameBallot-finish c p r reply rt m (raise e) h = h

  pub core-handle_append_entries :
      (rt : RaftRuntime) (m : M) (now : ℕ) (r : AppendRequest)
      → SameBallot
          (Core.handle_append_entries rt.core r).0
          (handle_append_entries apply rt m now r).0.core
  unfolding handle_append_entries
  core-handle_append_entries rt m now r =
      elim (Bool-cases (Core.handle_append_entries rt.core r).1.success) [
        | inl won ↦
            let (core, reply) = Core.handle_append_entries rt.core r in
            let appended = replace_log (record rt { core = core }) in
            let n = note_leader appended now (compute_recovery_status rt) r in
            let (rt', m', result) = apply_committed_entries apply n m in
            rw won (
              SameBallot-finish core (current_progress rt) r reply rt' m' result (
                subst (λ k. SameBallot k rt'.core)
                  (core-note_leader appended now (compute_recovery_status rt) r)
                  (SameBallot-apply n m)))
        | inr lost ↦
            rw (lost, core-log_current)
              (record { node_id = refl; members = refl; term = refl; vote = refl; role = refl })
      ]

pub reply-handle_request_vote :
    (rt : RaftRuntime) (now : ℕ) (r : VoteRequest)
    → (handle_request_vote rt now r).1 ≡ (Core.handle_request_vote rt.core r).1
unfolding handle_request_vote
reply-handle_request_vote rt now r = refl
