-- ===== src/Raft/Runtime/Stale.antt =====
-- What happens in raft_runtime.py to a vote that is counted after the candidate's term has moved on.
use typesense_python.Base.{
  ℕ, ◌+◌, ◌/◌, ◌≤◌, ◌<◌, ◌≡◌, ◌∙◌, refl, true, some, length, arith, le→not-ltb, le→leb,
}
use typesense_python.Raft.Types.{leader, VoteReply, AppendRequest}
use typesense_python.Raft.Core
use typesense_python.Raft.Core.{RaftCore}
use typesense_python.Raft.Runtime.{RaftRuntime, majority}
use typesense_python.Raft.Runtime.Apply.{Apply}
use typesense_python.Raft.Runtime.Handlers.{handle_append_entries}
use typesense_python.Raft.Runtime.Election.{receive_vote}
use typesense_python.Raft.Runtime.Cores.{core-become_leader, core-handle_append_entries}

adopted_term :
    (c : RaftCore) (r : AppendRequest)
    → c.current_term < r.term
    → ((Core.handle_append_entries c r).0.current_term ≡ r.term)
      × ((Core.handle_append_entries c r).0.members ≡ c.members)
unfolding Core.handle_append_entries
adopted_term c r h = ground arith

majority_wins :
    (rt : RaftRuntime) (votes : ℕ) (reply : VoteReply)
    → reply.term ≤ rt.core.current_term
    → reply.vote_granted ≡ true
    → length rt.core.members / 2 + 1 ≤ votes + 1
    → ((receive_vote rt votes (some reply)).0.core.role ≡ leader)
      × ((receive_vote rt votes (some reply)).0.core.current_term ≡ rt.core.current_term)
unfolding receive_vote
majority_wins rt votes reply old granted won =
    rw
      (
        le→not-ltb rt.core.current_term reply.term old,
        granted,
        le→leb (length rt.core.members / 2 + 1) (votes + 1) won,
        core-become_leader,
      )
      (refl, refl)

-- A candidate that has followed the leader of a newer term in the meantime still counts a vote for its
-- old term, and with the vote that makes the majority it becomes leader of the newer term, in which
-- nobody voted for it.
pub stale_vote_elects :
    {M : Type 0} (apply : Apply M) (rt : RaftRuntime) (m : M) (now votes : ℕ) (r : AppendRequest)
    (reply : VoteReply)
    → rt.core.current_term < r.term
    → reply.term ≤ rt.core.current_term
    → reply.vote_granted ≡ true
    → majority rt ≤ votes + 1
    → ((receive_vote (handle_append_entries apply rt m now r).0 votes (some reply)).0.core.role
        ≡ leader)
      × ((receive_vote
            (handle_append_entries apply rt m now r).0
            votes
            (some reply)).0.core.current_term
          ≡ r.term)
unfolding majority
stale_vote_elects apply rt m now votes r reply newer old granted won =
    let same = core-handle_append_entries apply rt m now r in
    let (term, members) = adopted_term rt.core r newer in
    let e = same.term ∙ term in
    let (role, kept) =
      majority_wins (handle_append_entries apply rt m now r).0 votes reply (omega arith) granted
        (rw (same.members ∙ members) won) in
    (role, kept ∙ e)
