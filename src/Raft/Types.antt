-- ===== src/Raft/Types.antt =====
-- src/typesense_lite/raft_types.py: roles, commands, log entries and the durable state.
use typesense_python.Base.{ℕ, Str, Bool, Option, none, List}
use typesense_python.Schemas.{Document}

pub data RaftRole : Type 0 where
  follower candidate leader : RaftRole

-- A `TypedDict` with `total=False`: each key may be missing.
pub record RaftCommand : Type 0 where
  pub type : Option Str
  pub collection : Option Str
  pub document : Option Document
  pub document_id : Option Str
  pub changes : Option Document

pub record RaftLogEntry : Type 0 where
  pub index : ℕ
  pub term : ℕ
  pub command : RaftCommand

pub record RaftPersistentState : Type 0 where
  pub current_term : ℕ
  pub voted_for : Option Str
  pub commit_index : ℕ
  pub last_applied : ℕ

-- `RaftPersistentState()`
abbrev pub initial_state : RaftPersistentState
initial_state = record { current_term = 0; voted_for = none; commit_index = 0; last_applied = 0 }

-- The keyword arguments of the two calls between nodes, and their replies.
pub record VoteRequest : Type 0 where
  pub term : ℕ
  pub candidate_id : Str
  pub last_log_index : ℕ
  pub last_log_term : ℕ

pub record VoteReply : Type 0 where
  pub term : ℕ
  pub vote_granted : Bool

pub record AppendRequest : Type 0 where
  pub term : ℕ
  pub leader_id : Str
  pub prev_log_index : ℕ
  pub prev_log_term : ℕ
  pub entries : List RaftLogEntry
  pub leader_commit : ℕ

pub record AppendReply : Type 0 where
  pub term : ℕ
  pub success : Bool
  pub match_index : ℕ
