-- ===== src/Raft/Runtime/Kept.antt =====
-- raft_runtime.py: a replication leaves the log and the commit index of a leader as they are.
use typesense_python.Base.{
  ltb, leb, if◌then◌else◌, Bool-cases, nat_eq, Str, text_eq, ℕ, zero, suc, ◌+◌, ◌≡◌, refl, ◌∙◌, inl,
  inr, Option, none, some, [], ◌∷◌,
}
use typesense_python.Base.Dict
use typesense_python.Raft.Types.{AppendReply}
use typesense_python.Raft.Core.{RaftCore}
use typesense_python.Raft.Runtime.{RaftRuntime, PeerProgress}
use typesense_python.Raft.Runtime.Apply.{Apply}
use typesense_python.Raft.Runtime.Cores.{core-step_down}
use typesense_python.Raft.Runtime.Replicate.{
  Post, Round, handle_reply, replicate, replicate_to_peer, append_request, step_down,
}
use typesense_python.Raft.Runtime.Replicate.Round.{done, again}
use typesense_python.Raft.Runtime.Submit.{matched, replicate_all}

-- The parts of a node that applying reads are the same.
pub record Kept (c c' : RaftCore) : Type 0 where
  pub log : c'.log ≡ c.log
  pub commit : c'.commit_index ≡ c.commit_index
  pub applied : c'.last_applied ≡ c.last_applied

pub Kept-refl : (c : RaftCore) → Kept c c
Kept-refl c = record { log = refl; commit = refl; applied = refl }

pub Kept-trans : (c d e : RaftCore) → Kept c d → Kept d e → Kept c e
Kept-trans c d e a b = record {
  log = b.log ∙ a.log;
  commit = b.commit ∙ a.commit;
  applied = b.applied ∙ a.applied;
}

-- The core that a round leaves.
abbrev RoundKept : RaftCore → Round → Type 0
RoundKept c (done rt success) = Kept c rt.core
RoundKept c (again rt p) = Kept c rt.core

step_down-Kept : (rt : RaftRuntime) (term : ℕ) → Kept rt.core (step_down rt term).core
step_down-Kept rt term =
    rw (core-step_down rt term) (record { log = refl; commit = refl; applied = refl })

handle_reply-Kept :
    (rt : RaftRuntime) (peer : Str) (p : PeerProgress) (r : Option AppendReply)
    → RoundKept rt.core (handle_reply rt peer p r)
unfolding handle_reply
handle_reply-Kept rt peer p none = Kept-refl rt.core
handle_reply-Kept rt peer p (some r) = elim (Bool-cases (ltb rt.core.current_term r.term)) [
  | inl a ↦ rw (handle_reply, a) (step_down-Kept rt r.term)
  | inr a ↦ elim (Bool-cases r.success) [
    | inl b ↦ rw (handle_reply, a, b) (Kept-refl rt.core)
    | inr b ↦ rw (handle_reply, a, b) (Kept-refl rt.core)
  ]
]

module _ {M W : Type 0} (apply : Apply M) (post : Post W) where
  abbrev pub Keeps : {A : Type 0} → RaftCore → Option (RaftRuntime × W × A) → Type 0
  Keeps c none = Unit
  Keeps c (some (rt, w, a)) = Kept c rt.core

  Keeps-trans :
      {A : Type 0} (c d : RaftCore) (r : Option (RaftRuntime × W × A))
      → Kept c d
      → Keeps d r
      → Keeps c r
  Keeps-trans c d none h k = tt
  Keeps-trans c d (some (rt, w, a)) h k = Kept-trans c d rt.core h k

  replicate-Keeps :
      (fuel : ℕ) (rt : RaftRuntime) (w : W) (peer : Str) (p : PeerProgress)
      → Keeps rt.core (replicate post fuel rt w peer p)
  unfolding replicate
  replicate-Keeps zero rt w peer p = tt
  replicate-Keeps (suc fuel) rt w peer p = elim (Bool-cases (leb 1 p.next_index)) [
    | inr a ↦ rw (replicate, a) (Kept-refl rt.core)
    | inl a ↦
        let r = post w peer (append_request rt.core p.next_index) in
        rw (replicate, a)
          (elim (handle_reply rt peer p (r.1))
              as (λ round.
                RoundKept rt.core round
                → Keeps rt.core (elim round [
                  | done rt' success ↦ some (rt', r.0, success)
                  | again rt' back ↦ replicate post fuel rt' (r.0) peer back
                ])) [
                  | done rt' success ↦ λ h. h
                  | again rt' back ↦ λ h.
                      Keeps-trans rt.core rt'.core _ h (replicate-Keeps fuel rt' (r.0) peer back)
                ]
            (handle_reply-Kept rt peer p (r.1)))
  ]

  replicate_to_peer-Keeps :
      (fuel : ℕ) (rt : RaftRuntime) (w : W) (peer : Str)
      → Keeps rt.core (replicate_to_peer post fuel rt w peer)
  unfolding replicate_to_peer
  replicate_to_peer-Keeps fuel rt w peer = replicate-Keeps fuel _ w peer _

  pub replicate_all-Keeps :
      (fuel index : ℕ) (rt : RaftRuntime) (w : W) (peers : Dict.Dict Str Str) (n : ℕ)
      → Keeps rt.core (replicate_all apply post fuel index rt w peers n)
  unfolding replicate_all
  replicate_all-Keeps fuel index rt w [] n = Kept-refl rt.core
  replicate_all-Keeps fuel index rt w ((peer, url) ∷ peers) n =
      elim (replicate_to_peer post fuel rt w peer)
          as (λ r.
            Keeps rt.core r
            → Keeps rt.core (elim r [
              | none ↦ none
              | some (rt', w', success) ↦ replicate_all apply post fuel index rt' w' peers (
                  if success
                  then (if matched (Dict.get rt'.peer_progress peer) index then n + 1 else n)
                  else n)
            ])) [
              | none ↦ λ h. tt
              | some (rt', w', success) ↦ λ h.
                  Keeps-trans rt.core rt'.core _ h (replicate_all-Keeps fuel index rt' w' peers _)
            ]
        (replicate_to_peer-Keeps fuel rt w peer)
