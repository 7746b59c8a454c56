-- ===== src/Raft/Core.antt =====
-- src/typesense_lite/raft_core.py: the state of one node in one shard group and its two handlers.
pub mod Replication
pub mod Votes
use typesense_python.Base.{
  ℕ, Str, str_eq, Bool, true, false, ◌&&◌, ◌||◌, Option, none, some, List, any, ltb, leb, ◌==◌, min,
  if◌then◌else◌,
}
use typesense_python.Raft.Types.{
  RaftRole, follower, RaftLogEntry, RaftPersistentState, VoteRequest, VoteReply, AppendRequest,
  AppendReply,
}
use typesense_python.Raft.Log.{last_index, last_term, entry_at, merge_entries}

pub record RaftCore : Type 0 where
  pub node_id : Str
  pub members : List Str
  pub state : RaftPersistentState
  pub open state use *
  pub log : List RaftLogEntry
  pub role : RaftRole
  pub leader_id : Option Str

unfoldable pub new_core : Str → List Str → RaftPersistentState → List RaftLogEntry → RaftCore
new_core node_id members state log = record {
  node_id = node_id;
  members = members;
  state = state;
  log = log;
  role = follower;
  leader_id = none;
}

abbrev pub last_log_index : RaftCore → ℕ
last_log_index c = last_index c.log

abbrev pub last_log_term : RaftCore → ℕ
last_log_term c = last_term c.log

-- `voted_for in {None, candidate_id}`
abbrev pub may_vote : Option Str → Str → Bool
may_vote none candidate = true
may_vote (some other) candidate = str_eq other candidate

abbrev pub is_member : List Str → Str → Bool
is_member members node = any (λ m. str_eq m node) members

unfoldable pub log_is_up_to_date : RaftCore → VoteRequest → Bool
log_is_up_to_date c r =
    ltb (last_log_term c) r.last_log_term
    || (r.last_log_term == last_log_term c && leb (last_log_index c) r.last_log_index)

-- The term of the request is not behind: a new term clears the vote.
unfoldable pub see_vote_term : RaftCore → ℕ → RaftCore
see_vote_term c term =
    if ltb c.current_term term
    then record c {
      state = record c.state { current_term = term; voted_for = none };
      role = follower;
      leader_id = none;
    }
    else c

unfoldable pub decide_vote : RaftCore → VoteRequest → RaftCore × VoteReply
unfolding log_is_up_to_date
decide_vote c r =
    let granted =
      may_vote c.voted_for r.candidate_id
      && (log_is_up_to_date c r && is_member c.members r.candidate_id) in
    (
      if granted
          then record c { state = record c.state { voted_for = some r.candidate_id } }
          else c,
      record { term = c.current_term; vote_granted = granted },
    )

unfoldable pub handle_request_vote : RaftCore → VoteRequest → RaftCore × VoteReply
unfolding see_vote_term decide_vote
handle_request_vote c r =
    if ltb r.term c.current_term
    then (c, record { term = c.current_term; vote_granted = false })
    else decide_vote (see_vote_term c r.term) r

abbrev pub append_reply : RaftCore → Bool → AppendReply
append_reply c success = record {
  term = c.current_term;
  success = success;
  match_index = last_log_index c;
}

unfoldable pub see_append_term : RaftCore → AppendRequest → RaftCore
see_append_term c r =
    if ltb c.current_term r.term
    then record c {
      state = record c.state { current_term = r.term; voted_for = none };
      role = follower;
      leader_id = some r.leader_id;
    }
    else record c { role = follower; leader_id = some r.leader_id }

-- `previous is None or previous.term != prev_log_term`, negated
abbrev pub previous_matches : Option RaftLogEntry → ℕ → Bool
previous_matches none t = false
previous_matches (some e) t = e.term == t

abbrev pub accepts : List RaftLogEntry → AppendRequest → Bool
accepts log r =
    if ltb 0 r.prev_log_index
    then previous_matches (entry_at log r.prev_log_index) r.prev_log_term
    else true

unfoldable pub take_entries : RaftCore → AppendRequest → RaftCore
take_entries c r =
    let log = merge_entries c.log r.entries in
    record c {
      state = record c.state {
        commit_index =
            if ltb c.commit_index r.leader_commit
            then min r.leader_commit (last_index log)
            else c.commit_index;
      };
      log = log;
    }

unfoldable pub append_at_term : RaftCore → AppendRequest → RaftCore × AppendReply
unfolding take_entries
append_at_term c r =
    if accepts c.log r
    then (take_entries c r, append_reply (take_entries c r) true)
    else (c, append_reply c false)

unfoldable pub handle_append_entries : RaftCore → AppendRequest → RaftCore × AppendReply
unfolding see_append_term append_at_term
handle_append_entries c r =
    if ltb r.term c.current_term
    then (c, append_reply c false)
    else append_at_term (see_append_term c r) r
