-- ===== src/Raft/Runtime/Ends.antt =====
-- `submit_command` of raft_runtime.py: when a submission ends.
use typesense_python.Base.{
  Str, text_eq, nat_eq, ℕ, suc, ◌+◌, ◌≡◌, refl, inl, inr, Bool-cases, if◌then◌else◌, Option, some,
  [], ◌∷◌, arith,
}
use mathlib.Core.Path.{subst}
use typesense_python.Base.Dict
use typesense_python.Base.Result.{ok}
use typesense_python.Raft.Types.{RaftCommand}
use typesense_python.Raft.Core.{last_log_index}
use typesense_python.Raft.Runtime.{RaftRuntime}
use typesense_python.Raft.Runtime.Apply.{Apply}
use typesense_python.Raft.Runtime.Replicate.{
  Post, replicate, replicate_to_peer, set_progress, progress_of,
}
use typesense_python.Raft.Runtime.Replicate.Ends.{TakesAll, replicate-Ends}
use typesense_python.Raft.Runtime.Submit.{
  is_leader, append_command, matched, replicate_all, commit_command, submit_command,
}
use typesense_python.Raft.Runtime.Submit.SubmitReply.{not_leader}

-- From some fuel on, the result is always the same.
abbrev pub Settles : {A : Type 0} → (ℕ → Option A) → Type 0
Settles {A} f = (n : ℕ) × (a : A) × ((k : ℕ) → f (n + k) ≡ some a)

module _ {M W : Type 0} (apply : Apply M) (post : Post W) (takes_all : TakesAll post) where
  replicate_to_peer-Settles :
      (rt : RaftRuntime) (w : W) (peer : Str) → Settles (λ n. replicate_to_peer post n rt w peer)
  unfolding replicate_to_peer
  replicate_to_peer-Settles rt w peer =
      let p = progress_of rt (Dict.get rt.peer_progress peer) in
      let (r, runs) =
        replicate-Ends post takes_all p.next_index (set_progress rt peer p) w peer p
          (omega arith) in
      (
        suc p.next_index,
        r,
        λ k.
            let same : suc (p.next_index + k) ≡ suc p.next_index + k = omega arith in
            subst (λ f. replicate post f (set_progress rt peer p) w peer p ≡ some r) same (runs k),
      )

  replicate_all-Settles :
      (index : ℕ) (rt : RaftRuntime) (w : W) (peers : Dict.Dict Str Str) (replicated : ℕ)
      → Settles (λ n. replicate_all apply post n index rt w peers replicated)
  unfolding replicate_all
  replicate_all-Settles index rt w [] replicated = (0, (rt, w, replicated), λ k. refl)
  replicate_all-Settles index rt w ((peer, url) ∷ peers) replicated =
      let (n, r, runs) = replicate_to_peer-Settles rt w peer in
      let (rt', w', success) = r in
      let more =
        if success
        then (if matched (Dict.get rt'.peer_progress peer) index
            then replicated + 1
            else replicated)
        else replicated in
      let (m, a, goes_on) = replicate_all-Settles index rt' w' peers more in
      (
        n + m,
        a,
        λ k.
            let first : n + (m + k) ≡ n + m + k = omega arith in
            let second : m + (n + k) ≡ n + m + k = omega arith in
            rw
              (
                replicate_all,
                subst (λ f. replicate_to_peer post f rt w peer ≡ some r) first (runs (m + k)),
              )
              (subst (λ f. replicate_all apply post f index rt' w' peers more ≡ some a) second
                (goes_on (n + k))),
      )

  -- If a request for the whole log is taken or ends the replication, a submission ends.
  pub submit_command-Settles :
      (rt : RaftRuntime) (m : M) (w : W) (c : RaftCommand)
      → Settles (λ n. submit_command apply post n rt m w c)
  unfolding submit_command
  submit_command-Settles rt m w c =
      let index = last_log_index rt.core + 1 in
      let (n, (rt', w', replicated), runs) =
        replicate_all-Settles index (append_command rt c) w rt.peer_urls 1 in
      elim (Bool-cases (is_leader rt.core.role)) [
        | inl leads ↦
            (n, commit_command apply post index replicated rt' m w', λ k. rw (leads, runs k) refl)
        | inr follows ↦ (
          n,
          (rt, m, w, ok (not_leader rt.core.leader_id rt.core.current_term)),
          λ k. rw follows refl,
        )
      ]
