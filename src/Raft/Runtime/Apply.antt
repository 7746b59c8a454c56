-- ===== src/Raft/Runtime/Apply.antt =====
-- `_apply_committed_entries` of raft_runtime.py: the committed entries that are not applied yet go to
-- `apply_command`, the parameter `apply`, in the order of their indices. A failure of `apply` leaves the
-- loop at once; what was applied before stays applied.
pub mod Order
use typesense_python.Base.{ℕ, Bool, Option, none, some, List, [], ◌∷◌, ltb, leb, if◌then◌else◌}
use typesense_python.Base.Order.{sort}
use typesense_python.Base.Result.{Result, ok, raise}
use typesense_python.Schemas.{Document}
use typesense_python.Raft.Types.{RaftCommand, RaftLogEntry}
use typesense_python.Raft.Runtime.{RaftRuntime}

-- sorted(log, key=lambda item: item.index)
abbrev pub index_le : RaftLogEntry → RaftLogEntry → Bool
index_le a b = leb a.index b.index

unfoldable pub sorted_log : List RaftLogEntry → List RaftLogEntry
sorted_log = sort index_le

-- The loop's variables: how it ends, the application's state and `last_applied`.
pub record Applied (M : Type 0) : Type 0 where
  pub result : Result (Option Document)
  pub machine : M
  pub last_applied : ℕ

abbrev pub Apply : Type 0 → Type 0
Apply M = M → RaftCommand → Result (M × Document)

module _ {M : Type 0} (apply : Apply M) where
  unfoldable pub apply_entries : ℕ → List RaftLogEntry → M → ℕ → Option Document → Applied M
  apply_entries commit [] m applied result = record {
    result = ok result;
    machine = m;
    last_applied = applied;
  }
  apply_entries commit (e ∷ es) m applied result =
      let skipped = apply_entries commit es m applied result in
      let stopped : Applied M = record {
        result = ok result;
        machine = m;
        last_applied = applied;
      } in
      let applied_next : Applied M = elim (apply m e.command) [
        | ok (m', document) ↦ apply_entries commit es m' e.index (some document)
        | raise error ↦ record { result = raise error; machine = m; last_applied = applied }
      ] in
      if leb e.index applied then skipped else if ltb commit e.index then stopped else applied_next

  unfoldable pub apply_committed_entries :
      RaftRuntime → M → RaftRuntime × M × Result (Option Document)
  unfolding apply_entries sorted_log
  apply_committed_entries rt m =
      let done =
        apply_entries rt.core.commit_index (sorted_log rt.core.log) m rt.core.last_applied none in
      (
        record rt {
          core = record rt.core {
            state = record rt.core.state { last_applied = done.last_applied };
          };
        },
        done.machine,
        done.result,
      )
