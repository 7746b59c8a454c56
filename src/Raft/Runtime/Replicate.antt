-- ===== src/Raft/Runtime/Replicate.antt =====
-- `_replicate_to_peer` of raft_runtime.py: a leader sends a peer the entries that it lacks, and goes one
-- index back after each refusal. The network is the parameter `post`: the state of the rest of the group
-- and the request give the new state and the reply, or none for an HTTP error.
pub mod CatchUp
pub mod Ends
use typesense_python.Base.{
  ℕ, zero, suc, ◌+◌, ◌-◌, Str, Bool, true, false, Option, none, some, List, max, filter, ltb, leb,
  ◌==◌, if◌then◌else◌, text_eq,
}
use typesense_python.Base.Dict
use typesense_python.Raft.Types.{RaftLogEntry, follower, AppendRequest, AppendReply}
use typesense_python.Raft.Log.{entry_at}
use typesense_python.Raft.Core.{RaftCore, last_log_index}
use typesense_python.Raft.Runtime.{
  RaftRuntime, PeerProgress, save_state, log_current_recovery_state,
}

abbrev term_or_zero : Option RaftLogEntry → ℕ
term_or_zero none = 0
term_or_zero (some e) = e.term

-- `_log_term`
unfoldable pub log_term : List RaftLogEntry → ℕ → ℕ
log_term log i = if i == 0 then 0 else term_or_zero (entry_at log i)

-- `_entries_from`
abbrev pub entries_from : List RaftLogEntry → ℕ → List RaftLogEntry
entries_from log start = filter (λ e. leb start e.index) log

abbrev pub append_request : RaftCore → ℕ → AppendRequest
append_request core next = record {
  term = core.current_term;
  leader_id = core.node_id;
  prev_log_index = next - 1;
  prev_log_term = log_term core.log (next - 1);
  entries = entries_from core.log next;
  leader_commit = core.commit_index;
}

-- A reply with a higher term deposes the leader.
unfoldable pub step_down : RaftRuntime → ℕ → RaftRuntime
step_down rt term = log_current_recovery_state (
    save_state (record rt {
      core = record rt.core {
        state = record rt.core.state { current_term = term; voted_for = none };
        role = follower;
        leader_id = none;
      };
    }))

abbrev pub Post : Type 0 → Type 0
Post W = W → Str → AppendRequest → W × Option AppendReply

-- `self.peer_progress.setdefault(...)`
abbrev pub progress_of : RaftRuntime → Option PeerProgress → PeerProgress
progress_of rt none = record { next_index = last_log_index rt.core + 1; match_index = 0 }
progress_of rt (some p) = p

abbrev pub set_progress : RaftRuntime → Str → PeerProgress → RaftRuntime
set_progress rt peer p = record rt { peer_progress = Dict.put rt.peer_progress peer p }

-- What a round does with the reply: it ends with a result, or goes on with the new next index.
pub data Round : Type 0 where
  done : RaftRuntime → Bool → Round
  again : RaftRuntime → PeerProgress → Round

unfoldable pub handle_reply : RaftRuntime → Str → PeerProgress → Option AppendReply → Round
unfolding step_down
handle_reply rt peer p none = done rt false
handle_reply rt peer p (some reply) =
    if ltb rt.core.current_term reply.term
    then done (step_down rt reply.term) false
    else if reply.success
    then done
        (set_progress rt peer
          (record { next_index = reply.match_index + 1; match_index = reply.match_index }))
        true
    else (let back : PeerProgress = record p { next_index = max 1 (p.next_index - 1) } in
        again (set_progress rt peer back) back)

module _ {W : Type 0} (post : Post W) where
  -- The `while` loop on fuel; `none` says that the fuel ran out.
  unfoldable pub replicate :
      ℕ → RaftRuntime → W → Str → PeerProgress → Option (RaftRuntime × W × Bool)
  unfolding handle_reply log_term
  replicate zero rt w peer p = none
  replicate (suc fuel) rt w peer p =
      let (w', reply) = post w peer (append_request rt.core p.next_index) in
      let round : Option (RaftRuntime × W × Bool) = elim (handle_reply rt peer p reply) [
        | done rt' success ↦ some (rt', w', success)
        | again rt' back ↦ replicate fuel rt' w' peer back
      ] in
      if leb 1 p.next_index then round else some (rt, w, false)

  unfoldable pub replicate_to_peer : ℕ → RaftRuntime → W → Str → Option (RaftRuntime × W × Bool)
  unfolding replicate
  replicate_to_peer fuel rt w peer =
      let p = progress_of rt (Dict.get rt.peer_progress peer) in
      replicate fuel (set_progress rt peer p) w peer p
