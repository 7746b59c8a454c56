-- ===== src/Tests/Logs.antt =====
-- Append requests, replication and the applying of entries at concrete logs.
use typesense_python.Base.{
  ℕ, zero, suc, ◌≡◌, ◌≢◌, refl, str_eq, true, some, [], ◌∷◌, arith, take, drop,
}
use typesense_python.Raft.Types.{VoteRequest, AppendRequest}
use typesense_python.Raft.Log.Merge.{term_at}
use typesense_python.Raft.Log.{last_index, last_term, entry_at, append_entry, merge_entries}
use typesense_python.Raft.Core.{RaftCore, new_core, handle_request_vote, handle_append_entries}
use typesense_python.Raft.Core.Votes.{
  Granted, VoteKept, handle_request_vote-Granted, start, request_vote, append_entries,
  Handled-VoteKept,
}
use typesense_python.Raft.Core.Replication.{
  IsWellFormed, Replicated, handle_append_entries-Replicated, handle_append_entries_idem,
}
use typesense_python.Raft.Runtime.{RaftRuntime}
use typesense_python.Raft.Runtime.Apply.{apply_committed_entries}
use typesense_python.Raft.Runtime.Apply.Order.{Outcome, apply_committed_entries-Outcome}
use typesense_python.Raft.Runtime.Handlers
use typesense_python.Raft.Runtime.Durable.{
  SavedBy, handle_request_vote_durable, handle_append_entries_durable,
}
use typesense_python.Raft.Runtime.Replicate.{replicate}
use typesense_python.Raft.Runtime.Replicate.CatchUp.{
  answer, CanCatchUp, CaughtUp, replicate-CaughtUp,
}
use typesense_python.Tests.Data.{a, b, entry, core_with, at_term, runtime_with, counting}

program : Unit {0}
unfolding new_core handle_request_vote handle_append_entries last_index last_term entry_at
    append_entry merge_entries str_eq
program = tt

-- The second entry of the follower is of an old term.
abbrev diverged : RaftCore
diverged = core_with b (at_term 2 1 1) (entry 1 1 ∷ entry 2 1 ∷ [])

abbrev repair : AppendRequest
repair = record {
  term = 3;
  leader_id = a;
  prev_log_index = 1;
  prev_log_term = 1;
  entries = entry 2 3 ∷ entry 3 3 ∷ [];
  leader_commit = 2;
}

diverged-IsWellFormed : IsWellFormed diverged
unfolding program
diverged-IsWellFormed = record {
  numbered = (refl, (refl, tt));
  committed = omega arith;
  applied = omega arith;
}

repaired : handle_append_entries diverged repair ≡ (
  record (core_with b (at_term 3 2 1) (entry 1 1 ∷ entry 2 3 ∷ entry 3 3 ∷ [])) {
    leader_id = some a;
  },
  record { term = 3; success = true; match_index = 3 },
)
unfolding program
repaired = refl

handle_append_entries-Replicated_example :
    Replicated diverged repair (handle_append_entries diverged repair).0
unfolding program
handle_append_entries-Replicated_example =
    handle_append_entries-Replicated diverged repair diverged-IsWellFormed (refl, (refl, tt))
      ((λ le. absurd (omega arith)), ((λ le. absurd (omega arith)), tt)) refl

handle_append_entries_idem_example :
    handle_append_entries (handle_append_entries diverged repair).0 repair
    ≡ handle_append_entries diverged repair
unfolding program
handle_append_entries_idem_example =
    handle_append_entries_idem diverged repair diverged-IsWellFormed (refl, (refl, tt))
      ((λ le. absurd (omega arith)), ((λ le. absurd (omega arith)), tt)) refl

-- The same node refuses entries after an index that it does not have.
abbrev gap : AppendRequest
gap = record repair { prev_log_index = 7; prev_log_term = 3; entries = [] }

abbrev candidacy : VoteRequest
candidacy = record { term = 3; candidate_id = a; last_log_index = 2; last_log_term = 1 }

handle_request_vote-Granted_example :
    Granted diverged candidacy (handle_request_vote diverged candidacy).0
unfolding program
handle_request_vote-Granted_example = handle_request_vote-Granted diverged candidacy refl

Handled-VoteKept_example :
    VoteKept diverged (handle_append_entries (handle_request_vote diverged candidacy).0 repair).0
Handled-VoteKept_example = Handled-VoteKept (append_entries (request_vote start candidacy) repair)

-- Two of three entries are committed, one is applied.
abbrev behind : RaftRuntime
behind = runtime_with (core_with b (at_term 2 2 1) (entry 1 1 ∷ entry 2 1 ∷ entry 3 2 ∷ []))

apply_committed_entries-Outcome_example :
    Outcome counting 1 2 (drop 1 (entry 1 1 ∷ entry 2 1 ∷ entry 3 2 ∷ [])) 1 (record {
      result = (apply_committed_entries counting behind 1).2;
      machine = (apply_committed_entries counting behind 1).1;
      last_applied = (apply_committed_entries counting behind 1).0.core.last_applied;
    })
unfolding new_core
apply_committed_entries-Outcome_example =
    apply_committed_entries-Outcome counting behind 1 (record {
      numbered = (refl, (refl, (refl, tt)));
      committed = omega arith;
      applied = omega arith;
    })

handle_request_vote_durable_example :
    (Handlers.handle_request_vote behind 4 candidacy).0.disk.saved_state
    ≡ (Handlers.handle_request_vote behind 4 candidacy).0.core.state
handle_request_vote_durable_example = handle_request_vote_durable behind 4 candidacy

handle_append_entries_durable_example :
    SavedBy behind
      (Handlers.handle_append_entries counting behind 1 4 repair).0
      (Handlers.handle_append_entries counting behind 1 4 repair).2
handle_append_entries_durable_example = handle_append_entries_durable counting behind 1 4 repair

-- The leader starts at its end and goes back over the follower's old entry.
abbrev leading : RaftRuntime
leading = runtime_with (core_with a (at_term 3 1 1) (entry 1 1 ∷ entry 2 3 ∷ entry 3 3 ∷ []))

logs_match :
    (i t : ℕ)
    → term_at leading.log i ≡ some t
    → term_at diverged.log i ≡ some t
    → take i leading.log ≡ take i diverged.log
unfolding program
logs_match zero t h h' = refl
logs_match (suc zero) t h h' = refl
logs_match (suc (suc i)) t h h' = ground arith

terms_positive : (i : ℕ) → term_at diverged.log i ≢ some 0
unfolding program
terms_positive i h = ground arith

leads_diverged : CanCatchUp leading.core diverged
unfolding program
leads_diverged = record {
  numbered = (refl, (refl, (refl, tt)));
  peer_numbered = (refl, (refl, tt));
  matching = logs_match;
  term = omega arith;
  positive = terms_positive;
}

replicate-CaughtUp_example :
    (rt : RaftRuntime) × (p : RaftCore) × (replicate answer 4 leading diverged b
        (record { next_index = 4; match_index = 0 })
      ≡ some (rt, p, true))
    × CaughtUp leading b rt p
replicate-CaughtUp_example =
    replicate-CaughtUp 4 leading diverged b (record { next_index = 4; match_index = 0 })
      leads_diverged (omega arith) (omega arith)
