-- ===== src/Raft/Runtime.antt =====
-- src/typesense_lite/raft_runtime.py: the object around the Raft state of one node in one shard. What it
-- writes to disk is the field `disk`; the application's state and the network are in the children.
pub mod Apply
pub mod Cores
pub mod Handlers
pub mod Ends
pub mod Kept
pub mod Election
pub mod Replicate
pub mod Submit
pub mod Stuck
pub mod Snapshot
pub mod Stale
pub mod Durable
use typesense_python.Base.{
  ℕ, ◌+◌, ◌-◌, ◌/◌, Str, codes, Bool, false, not, ◌&&◌, Option, none, some, List, [], ◌∷◌, ◌++◌,
  length, drop, last?, ltb, leb, ◌==◌, if◌then◌else◌,
}
use typesense_python.Base.Dict.{Dict}
use typesense_python.Recovery.{
  RecoveryStatus, recovering, catching_up, healthy, failed, same_status,
}
use typesense_python.Schemas.{Document}
use typesense_python.Raft.Types.{RaftRole, leader, RaftLogEntry, RaftPersistentState}
use typesense_python.Raft.Core.{RaftCore, last_log_index}

pub record PeerProgress : Type 0 where
  pub next_index : ℕ
  pub match_index : ℕ

-- An entry of `_recovery_events`, without its time.
pub record RecoveryEvent : Type 0 where
  pub status : RecoveryStatus
  pub reason : Str
  pub source_leader : Option Str
  pub snapshot_index : Option ℕ
  pub error : Option Str

-- The files state.json and log.jsonl of the shard, as `load_state` and `load_log` read them.
pub record Disk : Type 0 where
  pub saved_state : RaftPersistentState
  pub saved_log : List RaftLogEntry

-- (last_log_index, commit_index, last_applied)
pub record Progress : Type 0 where
  pub last_log : ℕ
  pub commit : ℕ
  pub applied : ℕ

pub record RaftRuntime : Type 0 where
  pub shard_id : ℕ
  pub core : RaftCore
  pub open core use *
  pub peer_urls : Dict Str Str
  pub peer_progress : Dict Str PeerProgress
  pub disk : Disk
  pub last_heartbeat_at : ℕ
  pub recovery_error : Option Str
  pub recovery_status_override : Option RecoveryStatus
  pub rebuild_summary : Option Document
  pub leader_last_log_index : Option ℕ
  pub leader_commit_index : Option ℕ
  pub needs_catchup_confirmation : Bool
  pub last_logged_recovery_status : Option RecoveryStatus
  pub last_logged_progress : Option Progress
  pub recovery_events : List RecoveryEvent

abbrev pub current_progress : RaftRuntime → Progress
current_progress rt = record {
  last_log = last_log_index rt.core;
  commit = rt.core.commit_index;
  applied = rt.core.last_applied;
}

abbrev pub same_progress : Progress → Progress → Bool
same_progress a b = a.last_log == b.last_log && (a.commit == b.commit && a.applied == b.applied)

-- self.storage.save_state(self.core.state)
abbrev pub save_state : RaftRuntime → RaftRuntime
save_state rt = record rt { disk = record rt.disk { saved_state = rt.core.state } }

-- self.storage.replace_log(self.core.log)
abbrev pub replace_log : RaftRuntime → RaftRuntime
replace_log rt = record rt { disk = record rt.disk { saved_log = rt.core.log } }

unfoldable pub majority : RaftRuntime → ℕ
majority rt = length rt.core.members / 2 + 1

abbrev behind : ℕ → Option ℕ → Bool
behind n none = false
behind n (some k) = ltb n k

-- `_compute_recovery_status` from the test of the leader's identity on.
unfoldable pub follower_status : RaftRuntime → Option Str → RecoveryStatus
follower_status rt none = recovering
follower_status rt (some _) =
    if rt.needs_catchup_confirmation
    then catching_up
    else if ltb rt.core.last_applied rt.core.commit_index
    then catching_up
    else if behind (last_log_index rt.core) rt.leader_last_log_index
    then catching_up
    else if behind rt.core.commit_index rt.leader_commit_index
    then catching_up
    else healthy

unfoldable pub role_status : RaftRuntime → RaftRole → RecoveryStatus
unfolding follower_status
role_status rt leader =
    if leb rt.core.commit_index rt.core.last_applied then healthy else catching_up
role_status rt _ = follower_status rt rt.core.leader_id

abbrev pub status_from : Option Str → Option RecoveryStatus → RecoveryStatus → RecoveryStatus
status_from (some _) _ s = failed
status_from none (some o) s = o
status_from none none s = s

unfoldable pub compute_recovery_status : RaftRuntime → RecoveryStatus
unfolding role_status
compute_recovery_status rt =
    status_from rt.recovery_error rt.recovery_status_override
      (if length rt.core.members == 1 then healthy else role_status rt rt.core.role)

abbrev pub last_status_is : Option RecoveryEvent → RecoveryStatus → Bool
last_status_is none s = false
last_status_is (some e) s = same_status e.status s

-- `deque(maxlen=32)`: the oldest event goes when there are more.
unfoldable pub push_event : List RecoveryEvent → RecoveryEvent → List RecoveryEvent
push_event events e = let all = events ++ e ∷ [] in drop (length all - 32) all

-- `_log_recovery_event`: an event is kept only if its status is not that of the last one.
unfoldable pub log_recovery_event : RaftRuntime → RecoveryEvent → RaftRuntime
unfolding push_event
log_recovery_event rt e =
    if last_status_is (last? rt.recovery_events) e.status
    then rt
    else record rt { recovery_events = push_event rt.recovery_events e }

abbrev pub plain_event : RecoveryStatus → Str → RecoveryEvent
plain_event s reason = record {
  status = s;
  reason = reason;
  source_leader = none;
  snapshot_index = none;
  error = none;
}

abbrev logged_is : Option RecoveryStatus → RecoveryStatus → Bool
logged_is none s = false
logged_is (some t) s = same_status s t

abbrev progress_is : Option Progress → Progress → Bool
progress_is none p = false
progress_is (some q) p = same_progress p q

-- `_log_current_recovery_state`
unfoldable pub log_current_recovery_state : RaftRuntime → RaftRuntime
log_current_recovery_state rt =
    let status = compute_recovery_status rt in
    let progress = current_progress rt in
    let logged =
      if not (logged_is rt.last_logged_recovery_status status)
      then log_recovery_event rt (plain_event status (codes "recovery status changed"))
      else if same_status status catching_up && not (progress_is rt.last_logged_progress progress)
      then log_recovery_event rt (plain_event status (codes "raft log catch-up progress"))
      else rt in
    record logged {
      last_logged_recovery_status = some status;
      last_logged_progress = some progress;
    }

-- `_mark_recovery_failed`
unfoldable pub mark_recovery_failed : RaftRuntime → Str → RaftRuntime
mark_recovery_failed rt error =
    log_recovery_event (record rt { recovery_error = some error })
      (record (plain_event failed (codes "recovery failed")) { error = some error })
