-- ===== src/Raft/Runtime/Submit.antt =====
-- `_submit_command_locked` of raft_runtime.py: a leader appends a command to its log, sends it to each
-- peer in turn, and commits and applies it once a majority holds it.
use typesense_python.Base.{
  ℕ, ◌+◌, Str, text_eq, Bool, true, false, Option, none, some, [], ◌∷◌, ◌++◌, ltb, if◌then◌else◌,
}
use typesense_python.Base.Dict
use typesense_python.Base.Result.{Result, ok, raise}
use typesense_python.Schemas.{Document}
use typesense_python.Raft.Types.{RaftRole, leader, RaftCommand}
use typesense_python.Raft.Core.{last_log_index}
use typesense_python.Raft.Runtime.{RaftRuntime, PeerProgress, majority, save_state, replace_log}
use typesense_python.Raft.Runtime.Apply.{Apply, apply_committed_entries}
use typesense_python.Raft.Runtime.Replicate.{Post, replicate_to_peer}

-- The three replies, and the exception of `apply_command`.
pub data SubmitReply : Type 0 where
  not_leader : Option Str → ℕ → SubmitReply
  no_majority : Str → ℕ → SubmitReply
  committed : Str → ℕ → ℕ → Option Document → SubmitReply

abbrev pub is_leader : RaftRole → Bool
is_leader leader = true
is_leader _ = false

unfoldable pub append_command : RaftRuntime → RaftCommand → RaftRuntime
append_command rt command = replace_log (record rt {
  core = record rt.core {
    log =
        rt.core.log
        ++ record {
          index = last_log_index rt.core + 1;
          term = rt.core.current_term;
          command = command;
        }
          ∷ [];
  };
})

abbrev pub matched : Option PeerProgress → ℕ → Bool
matched none i = false
matched (some p) i = if ltb p.match_index i then false else true

module _ {M W : Type 0} (apply : Apply M) (post : Post W) where
  -- The loop over the peers; `none` says that a replication ran out of fuel.
  unfoldable pub replicate_all :
      ℕ → ℕ → RaftRuntime → W → Dict.Dict Str Str → ℕ → Option (RaftRuntime × W × ℕ)
  unfolding replicate_to_peer
  replicate_all fuel index rt w [] replicated = some (rt, w, replicated)
  replicate_all fuel index rt w ((peer, _) ∷ peers) replicated =
      elim (replicate_to_peer post fuel rt w peer) [
        | none ↦ none
        | some (rt', w', success) ↦ replicate_all fuel index rt' w' peers (
            if success
            then (if matched (Dict.get rt'.peer_progress peer) index
                then replicated + 1
                else replicated)
            else replicated)
      ]

  abbrev pub reply_committed :
      W → RaftRuntime × M × Result (Option Document) → RaftRuntime × M × W × Result SubmitReply
  reply_committed w (rt, m, raise e) = (rt, m, w, raise e)
  reply_committed w (rt, m, ok result) = (
    save_state rt,
    m,
    w,
    ok (committed rt.core.node_id rt.core.current_term rt.core.commit_index result),
  )

  unfoldable pub commit_command :
      ℕ → ℕ → RaftRuntime → M → W → RaftRuntime × M × W × Result SubmitReply
  unfolding majority apply_committed_entries
  commit_command index replicated rt m w =
      if ltb replicated (majority rt)
      then (rt, m, w, ok (no_majority rt.core.node_id rt.core.current_term))
      else reply_committed w (
          apply_committed_entries apply
            (record rt {
              core = record rt.core { state = record rt.core.state { commit_index = index } };
            })
            m)

  unfoldable pub submit_command :
      ℕ → RaftRuntime → M → W → RaftCommand → Option (RaftRuntime × M × W × Result SubmitReply)
  unfolding append_command replicate_all commit_command
  submit_command fuel rt m w command =
      let index = last_log_index rt.core + 1 in
      let appended = append_command rt command in
      let outcome : Option (RaftRuntime × M × W × Result SubmitReply) =
        elim (replicate_all fuel index appended w rt.peer_urls 1) [
          | none ↦ none
          | some (rt', w', replicated) ↦ some (commit_command index replicated rt' m w')
        ] in
      if is_leader rt.core.role
      then outcome
      else some (rt, m, w, ok (not_leader rt.core.leader_id rt.core.current_term))
