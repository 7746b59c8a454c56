-- ===== src/Raft/Runtime/Stuck.antt =====
-- `submit_command` of raft_runtime.py where a committed entry cannot be applied.
use typesense_python.Base.{nat_eq, text_eq, ℕ, ◌+◌, ◌<◌, ◌≡◌, Bool, true, false, Option, none, some}
use typesense_python.Base.Result.{Result, ok, raise, Error}
use typesense_python.Raft.Types.{RaftLogEntry}
use typesense_python.Raft.Log.{entry_at}
use typesense_python.Raft.Log.Numbered.{Numbered}
use typesense_python.Raft.Core.Replication.{IsWellFormed}
use typesense_python.Raft.Runtime.{RaftRuntime}
use typesense_python.Raft.Runtime.Apply.{Apply}
use typesense_python.Raft.Runtime.Kept.{Kept}
use typesense_python.Raft.Runtime.Replicate.{Post}
use typesense_python.Raft.Runtime.Submit.{SubmitReply}
use typesense_python.Raft.Runtime.Submit.SubmitReply.{committed}

module _ {M : Type 0} (apply : Apply M) where
  -- The committed entry that is next to be applied fails with this error.
  pub record Stuck (rt : RaftRuntime) (m : M) (error : Error) : Type 0 where
    pub well_formed : IsWellFormed rt.core
    pub behind : rt.core.last_applied < rt.core.commit_index
    pub entry : RaftLogEntry
    pub next : entry_at rt.core.log (rt.core.last_applied + 1) ≡ some entry
    pub fails : apply m entry.command ≡ raise error

  abbrev pub is_committed : Result SubmitReply → Bool
  is_committed (ok (committed n t c d)) = true
  is_committed _ = false

  -- A submission that leaves the node and its application where they were, without a commit.
  abbrev pub Blocked :
      {W : Type 0} → ℕ → M → Error → RaftRuntime × M × W × Result SubmitReply → Type 0
  Blocked n m error (rt, m', w, reply) =
      Stuck rt m error × (m' ≡ m) × (rt.core.last_applied ≡ n) × (is_committed reply ≡ false)

  module _ {W : Type 0} (post : Post W) where
    abbrev BlockedAfter : ℕ → M → Error → Option (RaftRuntime × M × W × Result SubmitReply) → Type 0
    BlockedAfter n m error none = Unit
    BlockedAfter n m error (some r) = Blocked n m error r
