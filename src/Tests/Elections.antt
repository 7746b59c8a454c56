-- ===== src/Tests/Elections.antt =====
-- An election of three nodes, and a vote that comes too late.
use typesense_python.Base.{◌≡◌, refl, str_eq, true, none, some, [], arith}
use typesense_python.Raft.Types.{leader, VoteRequest, AppendRequest, initial_state}
use typesense_python.Raft.Core
use typesense_python.Raft.Core.{new_core}
use typesense_python.Raft.Log.{last_index, last_term, entry_at, merge_entries}
use typesense_python.Raft.Runtime.{
  majority, log_current_recovery_state, compute_recovery_status, log_recovery_event,
}
use typesense_python.Raft.Runtime.Handlers.{handle_request_vote, handle_append_entries}
use typesense_python.Raft.Runtime.Election.{begin_election, receive_vote, become_leader}
use typesense_python.Raft.Runtime.Stale.{stale_vote_elects}
use typesense_python.Raft.Group.{Group, Reach, vote, begin, receive, here, next}
use typesense_python.Raft.Group.Safety.{IsFresh, election_safety}
use typesense_python.Tests.Data.{a, b, members, core_with, at_term, runtime_with, counting}

abbrev fresh : Group
fresh = record {
  node = λ n. runtime_with (core_with n initial_state []);
  ballots = λ m t. none;
  asked = λ n. 0;
  supporters = λ n. [];
}

fresh-IsFresh : IsFresh members fresh
fresh-IsFresh = record { cores = λ n. refl; no_ballots = λ m t. refl; no_supporters = λ n. refl }

abbrev request : VoteRequest
request = record { term = 1; candidate_id = a; last_log_index = 0; last_log_term = 0 }

program : Unit {0}
unfolding new_core begin_election receive_vote handle_request_vote handle_append_entries
    become_leader majority Core.handle_request_vote Core.handle_append_entries last_index last_term
    entry_at merge_entries str_eq log_current_recovery_state compute_recovery_status
    log_recovery_event
program = tt

elected : (g : Group) × Reach counting members fresh g × ((g.node a).core.role ≡ leader)
unfolding program
elected = (
  _,
  next (next (next here (begin a refl)) (vote b 5 request)) (receive a b refl refl refl refl),
  refl,
)

election_safety_example : a ≡ a
election_safety_example =
    election_safety counting members a a fresh-IsFresh elected.1 elected.2 elected.2 refl

-- Node `a` asked in term 1, follows a leader of term 2, and then gets the vote of term 1.
abbrev newer : AppendRequest
newer = record {
  term = 2;
  leader_id = b;
  prev_log_index = 0;
  prev_log_term = 0;
  entries = [];
  leader_commit = 0;
}

stale_vote_elects_example :
    ((receive_vote
        (handle_append_entries counting (runtime_with (core_with a (at_term 1 0 0) [])) 0 7 newer).0
        1
        (some (record { term = 1; vote_granted = true }))).0.core.role
      ≡ leader)
    × ((receive_vote
          (handle_append_entries counting
            (runtime_with (core_with a (at_term 1 0 0) []))
            0
            7
            newer).0
          1
          (some (record { term = 1; vote_granted = true }))).0.core.current_term
        ≡ 2)
unfolding majority new_core
stale_vote_elects_example =
    stale_vote_elects counting (runtime_with (core_with a (at_term 1 0 0) [])) 0 7 1 newer
      (record { term = 1; vote_granted = true }) (omega arith) (omega arith) refl (omega arith)
