-- ===== src/Raft/Core/Votes.antt =====
-- Votes and terms under the two handlers of raft_core.py.
use typesense_python.Base.{◌≤◌, ◌≡◌, Str, str_eq_iff, true, some, arith}
use typesense_python.Raft.Types.{VoteRequest, AppendRequest, leader}
use typesense_python.Raft.Core.{
  RaftCore, is_member, last_log_index, last_log_term, handle_request_vote, decide_vote,
  handle_append_entries,
}

-- Terms grow, and within a term a vote that was cast stays.
pub record VoteKept (c c' : RaftCore) : Type 0 where
  pub term : c.current_term ≤ c'.current_term
  pub vote :
      (v : Str) → c.voted_for ≡ some v → c.current_term ≡ c'.current_term → c'.voted_for ≡ some v

decide_vote-VoteKept : (c : RaftCore) (r : VoteRequest) → VoteKept c (decide_vote c r).0
unfolding decide_vote
decide_vote-VoteKept c r = record {
  term = ground arith;
  vote = λ v e t. ground (arith, str_eq_iff v r.candidate_id);
}

pub handle_request_vote-VoteKept :
    (c : RaftCore) (r : VoteRequest) → VoteKept c (handle_request_vote c r).0
unfolding handle_request_vote
handle_request_vote-VoteKept c r = record {
  term = ground arith;
  vote = λ v e t. ground (arith, str_eq_iff v r.candidate_id);
}

pub handle_append_entries-VoteKept :
    (c : RaftCore) (r : AppendRequest) → VoteKept c (handle_append_entries c r).0
unfolding handle_append_entries
handle_append_entries-VoteKept c r = record { term = ground arith; vote = λ v e t. ground arith }

-- What a granted vote means.
pub record Granted (c : RaftCore) (r : VoteRequest) (c' : RaftCore) : Type 0 where
  pub term : c'.current_term ≡ r.term
  pub vote : c'.voted_for ≡ some r.candidate_id
  pub member : is_member c.members r.candidate_id ≡ true
  pub not_behind : last_log_term c ≤ r.last_log_term
  pub as_long : last_log_term c ≡ r.last_log_term → last_log_index c ≤ r.last_log_index
  pub log : c'.log ≡ c.log

pub handle_request_vote-Granted :
    (c : RaftCore) (r : VoteRequest)
    → (handle_request_vote c r).1.vote_granted ≡ true
    → Granted c r (handle_request_vote c r).0
unfolding handle_request_vote
handle_request_vote-Granted c r h = record {
  term = ground arith;
  vote = ground arith;
  member = ground arith;
  not_behind = ground arith;
  as_long = λ e. ground arith;
  log = ground arith;
}

-- What the handlers leave alone, and that neither makes a leader.
pub record Unelected (c c' : RaftCore) : Type 0 where
  pub node_id : c'.node_id ≡ c.node_id
  pub members : c'.members ≡ c.members
  pub leading : c'.role ≡ leader → (c.role ≡ leader) × (c.current_term ≡ c'.current_term)

pub handle_request_vote-Unelected :
    (c : RaftCore) (r : VoteRequest) → Unelected c (handle_request_vote c r).0
unfolding handle_request_vote
handle_request_vote-Unelected c r = record {
  node_id = ground arith;
  members = ground arith;
  leading = λ l. (ground arith, ground arith);
}

pub handle_append_entries-Unelected :
    (c : RaftCore) (r : AppendRequest) → Unelected c (handle_append_entries c r).0
unfolding handle_append_entries
handle_append_entries-Unelected c r = record {
  node_id = ground arith;
  members = ground arith;
  leading = λ l. (ground arith, ground arith);
}

-- A sequence of calls of the two handlers.
pub data Handled (c : RaftCore) : RaftCore → Type 0 where
  start : Handled c c
  request_vote :
      {c' : RaftCore} → Handled c c' → (r : VoteRequest) → Handled c (handle_request_vote c' r).0
  append_entries :
      {c' : RaftCore}
      → Handled c c'
      → (r : AppendRequest) → Handled c (handle_append_entries c' r).0

VoteKept-trans : {c c' c'' : RaftCore} → VoteKept c c' → VoteKept c' c'' → VoteKept c c''
VoteKept-trans h k = record {
  term = omega (arith, h.term, k.term);
  vote = λ v e t.
      k.vote v (h.vote v e (omega (arith, h.term, k.term))) (omega (arith, h.term, k.term));
}

-- Over any sequence of vote and append requests the term does not go back, and a vote that the node has
-- cast stays its vote while the term is the same.
pub Handled-VoteKept : {c c' : RaftCore} → Handled c c' → VoteKept c c'
Handled-VoteKept start = record { term = omega arith; vote = λ v e t. e }
Handled-VoteKept (request_vote h r) =
    VoteKept-trans (Handled-VoteKept h) (handle_request_vote-VoteKept _ r)
Handled-VoteKept (append_entries h r) =
    VoteKept-trans (Handled-VoteKept h) (handle_append_entries-VoteKept _ r)
