-- ===== src/Tests/Data.antt =====
-- The nodes, commands and logs of the tests.
use typesense_python.Base.{ℕ, ◌+◌, Str, codes, false, none, some, List, [], ◌∷◌}
use typesense_python.Base.Result.{ok}
use typesense_python.Raft.Types.{RaftCommand, RaftLogEntry, RaftPersistentState, initial_state}
use typesense_python.Raft.Core.{RaftCore, new_core}
use typesense_python.Raft.Runtime.{RaftRuntime}
use typesense_python.Raft.Runtime.Apply.{Apply}

abbrev pub a : Str
a = codes "a"

abbrev pub b : Str
b = codes "b"

abbrev pub c : Str
c = codes "c"

abbrev pub members : List Str
members = a ∷ b ∷ c ∷ []

abbrev pub command : RaftCommand
command = record {
  type = some (codes "add_document");
  collection = some (codes "books");
  document = some [];
  document_id = none;
  changes = none;
}

abbrev pub entry : ℕ → ℕ → RaftLogEntry
entry index term = record { index = index; term = term; command = command }

abbrev pub core_with : Str → RaftPersistentState → List RaftLogEntry → RaftCore
core_with n state log = new_core n members state log

abbrev pub at_term : ℕ → ℕ → ℕ → RaftPersistentState
at_term term commit applied = record {
  current_term = term;
  voted_for = none;
  commit_index = commit;
  last_applied = applied;
}

abbrev pub runtime_with : RaftCore → RaftRuntime
runtime_with core = record {
  shard_id = 0;
  core = core;
  peer_urls = [];
  peer_progress = [];
  disk = record { saved_state = initial_state; saved_log = [] };
  last_heartbeat_at = 0;
  recovery_error = none;
  recovery_status_override = none;
  rebuild_summary = none;
  leader_last_log_index = none;
  leader_commit_index = none;
  needs_catchup_confirmation = false;
  last_logged_recovery_status = none;
  last_logged_progress = none;
  recovery_events = [];
}

-- An application that counts the commands.
abbrev pub counting : Apply ℕ
counting m _ = ok (m + 1, [])
