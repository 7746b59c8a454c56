-- ===== src/Raft/Log.antt =====
-- The log as raft_core.py reads and writes it: a list of entries, found by their index.
use typesense_python.Base.{
  ℕ, Option, none, some, List, [], ◌∷◌, ◌++◌, last?, filter, ltb, ◌==◌, if◌then◌else◌,
}
use typesense_python.Raft.Types.{RaftLogEntry}
pub mod Numbered
pub mod Merge
pub mod Matching

-- `last_log_index` and `last_log_term`
abbrev index_of : Option RaftLogEntry → ℕ
index_of none = 0
index_of (some e) = e.index

abbrev term_of : Option RaftLogEntry → ℕ
term_of none = 0
term_of (some e) = e.term

unfoldable pub last_index : List RaftLogEntry → ℕ
last_index log = index_of (last? log)

unfoldable pub last_term : List RaftLogEntry → ℕ
last_term log = term_of (last? log)

-- `_entry_at`
unfoldable pub entry_at : List RaftLogEntry → ℕ → Option RaftLogEntry
entry_at [] i = none
entry_at (e ∷ log) i = if e.index == i then some e else entry_at log i

abbrev truncate : List RaftLogEntry → RaftLogEntry → Option RaftLogEntry → List RaftLogEntry
truncate log e none = log
truncate log e (some existing) =
    if existing.term == e.term then log else filter (λ item. ltb item.index e.index) log

abbrev extend : List RaftLogEntry → RaftLogEntry → Option RaftLogEntry → List RaftLogEntry
extend log e none = log ++ e ∷ []
extend log e (some _) = log

-- One round of the loop of `handle_append_entries`.
unfoldable pub append_entry : List RaftLogEntry → RaftLogEntry → List RaftLogEntry
append_entry log e =
    let kept = truncate log e (entry_at log e.index) in extend kept e (entry_at kept e.index)

unfoldable pub merge_entries : List RaftLogEntry → List RaftLogEntry → List RaftLogEntry
merge_entries log [] = log
merge_entries log (e ∷ es) = merge_entries (append_entry log e) es
