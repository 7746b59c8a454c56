-- ===== src/Raft/Runtime/Snapshot.antt =====
-- `committed_commands`, `committed_log_entries`, `set_recovery_override` and `install_snapshot_metadata`
-- of raft_runtime.py.
use typesense_python.Base.{ℕ, Str, true, some, List, map, max, filter, leb}
use typesense_python.Schemas.{Document}
use typesense_python.Raft.Types.{RaftCommand, RaftLogEntry}
use typesense_python.Raft.Runtime.{RaftRuntime, save_state, replace_log}
use typesense_python.Raft.Runtime.Apply.{sorted_log}

unfoldable pub committed_commands : RaftRuntime → List RaftCommand
unfolding sorted_log
committed_commands rt =
    map (λ (e : RaftLogEntry). e.command)
      (filter (λ e. leb e.index rt.core.last_applied) (sorted_log rt.core.log))

unfoldable pub committed_log_entries : RaftRuntime → List RaftLogEntry
unfolding sorted_log
committed_log_entries rt = filter (λ e. leb e.index rt.core.commit_index) (sorted_log rt.core.log)

-- The log entries of a snapshot come from the leader's `committed_log_entries`.
unfoldable pub install_snapshot_metadata :
    RaftRuntime → ℕ → ℕ → List RaftLogEntry → Str → Document → RaftRuntime
unfolding sorted_log
install_snapshot_metadata rt snapshot_index term entries leader_id summary =
    let installed = record rt {
      core = record rt.core {
        state = record rt.core.state {
          current_term = max rt.core.current_term term;
          commit_index = snapshot_index;
          last_applied = snapshot_index;
        };
        log = sorted_log (filter (λ e. leb e.index snapshot_index) entries);
        leader_id = some leader_id;
      };
      leader_last_log_index = some snapshot_index;
      leader_commit_index = some snapshot_index;
      needs_catchup_confirmation = true;
    } in
    record (save_state (replace_log installed)) { rebuild_summary = some summary }
