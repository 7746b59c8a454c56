-- ===== src/Raft/Runtime/Election.antt =====
-- `start_election` and `_become_leader` of raft_runtime.py. The replies of the peers come in any order,
-- and other handlers of the node may run before each of them: `begin_election` is the part before the
-- first reply, and `receive_vote` is the body of the loop over the replies.
use typesense_python.Base.{
  ℕ, ◌+◌, codes, Bool, true, false, Option, none, some, List, [], ◌∷◌, map, ltb, leb, if◌then◌else◌,
}
use typesense_python.Raft.Types.{follower, candidate, leader, VoteRequest, VoteReply}
use typesense_python.Raft.Core.{last_log_index, last_log_term}
use typesense_python.Raft.Runtime.{
  RaftRuntime, majority, save_state, compute_recovery_status, log_recovery_event,
  log_current_recovery_state, plain_event,
}

-- `_become_leader`
unfoldable pub become_leader : RaftRuntime → RaftRuntime
become_leader rt =
    let next = last_log_index rt.core + 1 in
    let elected = record rt {
      core = record rt.core { role = leader; leader_id = some rt.core.node_id };
      leader_last_log_index = some (last_log_index rt.core);
      leader_commit_index = some rt.core.commit_index;
      needs_catchup_confirmation = false;
      peer_progress =
          map (λ peer. (peer.0, record { next_index = next; match_index = 0 })) rt.peer_urls;
    } in
    log_recovery_event elected
      (plain_event (compute_recovery_status elected) (codes "became raft leader"))

unfoldable pub stand_for_election : RaftRuntime → RaftRuntime
stand_for_election rt = save_state (record rt {
  core = record rt.core {
    state = record rt.core.state {
      current_term = rt.core.current_term + 1;
      voted_for = some rt.core.node_id;
    };
    role = candidate;
    leader_id = none;
  };
})

abbrev pub vote_request : RaftRuntime → VoteRequest
vote_request rt = record {
  term = rt.core.current_term;
  candidate_id = rt.core.node_id;
  last_log_index = last_log_index rt.core;
  last_log_term = last_log_term rt.core;
}

-- The votes counted so far, and whether the loop goes on.
pub record Ballot : Type 0 where
  pub votes : ℕ
  pub open_ : Bool

unfoldable pub begin_election : RaftRuntime → RaftRuntime × Ballot
unfolding stand_for_election majority
begin_election rt =
    let standing = stand_for_election rt in
    if leb (majority standing) 1
    then (become_leader standing, record { votes = 1; open_ = false })
    else (standing, record { votes = 1; open_ = true })

-- A reply with a higher term ends the candidacy.
unfoldable pub give_up : RaftRuntime → ℕ → RaftRuntime
give_up rt term = log_current_recovery_state (
    save_state (record rt {
      core = record rt.core {
        state = record rt.core.state { current_term = term; voted_for = none };
        role = follower;
      };
    }))

abbrev pub count_vote : RaftRuntime → ℕ → RaftRuntime × Ballot
count_vote rt votes =
    if leb (majority rt) (votes + 1)
    then (become_leader rt, record { votes = votes + 1; open_ = false })
    else (rt, record { votes = votes + 1; open_ = true })

-- One round of the loop; `none` is a peer that did not answer.
unfoldable pub receive_vote : RaftRuntime → ℕ → Option VoteReply → RaftRuntime × Ballot
unfolding majority
receive_vote rt votes none = (rt, record { votes = votes; open_ = true })
receive_vote rt votes (some reply) =
    if ltb rt.core.current_term reply.term
    then (give_up rt reply.term, record { votes = votes; open_ = false })
    else if reply.vote_granted
    then count_vote rt votes
    else (rt, record { votes = votes; open_ = true })

-- The whole loop, when no other handler runs between the replies.
unfoldable pub count_votes : RaftRuntime → Ballot → List (Option VoteReply) → RaftRuntime
unfolding receive_vote
count_votes rt ballot [] = rt
count_votes rt ballot (reply ∷ replies) =
    let (rt', ballot') = receive_vote rt ballot.votes reply in
    let rest = count_votes rt' ballot' replies in if ballot.open_ then rest else rt

unfoldable pub start_election : RaftRuntime → List (Option VoteReply) → RaftRuntime
unfolding begin_election count_votes
start_election rt replies = let (rt', ballot) = begin_election rt in count_votes rt' ballot replies
