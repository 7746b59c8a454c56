-- ===== src/Raft/Runtime/Replicate/Ends.antt =====
-- `_replicate_to_peer` of raft_runtime.py: when the loop ends.
use typesense_python.Base.{
  ltb, leb, Bool-cases, nat_eq, max, Str, ℕ, zero, suc, ◌+◌, ◌-◌, ◌≤◌, ◌<◌, ◌≡◌, refl, inl, inr,
  ◌⊎◌, Bool, true, false, Option, none, some, arith,
}
use mathlib.Core.Path.{subst}
use typesense_python.Raft.Types.{AppendRequest, AppendReply}
use typesense_python.Raft.Runtime.{RaftRuntime, PeerProgress}
use typesense_python.Raft.Runtime.Replicate.{Post, Round, handle_reply, replicate, append_request}
use typesense_python.Raft.Runtime.Replicate.Round.{done, again}
use typesense_python.Raft.Runtime.Replicate.CatchUp.{answer}
use typesense_python.Raft.Core.{handle_append_entries}
use typesense_python.Raft.Core.Replication.{handle_append_entries_outcome}

-- A reply with which a request for the whole log ends: none, a newer term, or success.
pub data Taken (term : ℕ) : Option AppendReply → Type 0 where
  no_reply : Taken term none
  newer : (r : AppendReply) → term < r.term → Taken term (some r)
  success : (r : AppendReply) → r.success ≡ true → Taken term (some r)

Round-cases :
    (x : Round)
    → ((rt : RaftRuntime) × (b : Bool) × (x ≡ done rt b))
      ⊎ ((rt : RaftRuntime) × (p : PeerProgress) × (x ≡ again rt p))
Round-cases (done rt b) = inl (rt, b, refl)
Round-cases (again rt p) = inr (rt, p, refl)

abbrev BacksUp : ℕ → Round → Type 0
BacksUp n (done rt b) = Unit
BacksUp n (again rt p) = p.next_index ≡ max 1 (n - 1)

handle_reply-BacksUp :
    (rt : RaftRuntime) (peer : Str) (p : PeerProgress) (reply : Option AppendReply)
    → BacksUp p.next_index (handle_reply rt peer p reply)
unfolding handle_reply
handle_reply-BacksUp rt peer p none = tt
handle_reply-BacksUp rt peer p (some r) = elim (Bool-cases (ltb rt.core.current_term r.term)) [
  | inl a ↦ rw (handle_reply, a) tt
  | inr a ↦ elim (Bool-cases r.success) [
    | inl b ↦ rw (handle_reply, a, b) tt
    | inr b ↦ rw (handle_reply, a, b) refl
  ]
]

abbrev Stops : Round → Type 0
Stops (done rt b) = Unit
Stops (again rt p) = ⊥

handle_reply-Stops :
    (rt : RaftRuntime) (peer : Str) (p : PeerProgress) (reply : Option AppendReply)
    → Taken rt.core.current_term reply
    → Stops (handle_reply rt peer p reply)
unfolding handle_reply
handle_reply-Stops rt peer p _ no_reply = tt
handle_reply-Stops rt peer p _ (newer r h) =
    let e : ltb rt.core.current_term r.term ≡ true = ground (arith, h) in rw (handle_reply, e) tt
handle_reply-Stops rt peer p _ (success r h) = elim (Bool-cases (ltb rt.core.current_term r.term)) [
  | inl a ↦ rw (handle_reply, a) tt
  | inr a ↦ rw (handle_reply, a, h) tt
]

module _ {W : Type 0} (post : Post W) where
  -- Whatever the world, a request that starts at the beginning of the log is taken, or the peer is of a
  -- newer term, or it gives no reply.
  abbrev pub TakesAll : Type 0
  TakesAll =
      (w : W) (peer : Str) (r : AppendRequest)
      → r.prev_log_index ≡ 0
      → Taken r.term (post w peer r).1

  module _ (takes_all : TakesAll) where
    again-lower :
        (rt rt' : RaftRuntime) (w : W) (peer : Str) (p back : PeerProgress) (n : ℕ)
        → handle_reply rt peer p (post w peer (append_request rt.core p.next_index)).1
          ≡ again rt' back
        → 1 ≤ p.next_index
        → p.next_index ≤ suc n
        → back.next_index ≤ n
    again-lower rt rt' w peer p back n e pos h =
        let reply = (post w peer (append_request rt.core p.next_index)).1 in
        let backs : back.next_index ≡ max 1 (p.next_index - 1) =
          subst (BacksUp p.next_index) e (handle_reply-BacksUp rt peer p reply) in
        elim (Bool-cases (leb 2 p.next_index)) [
          | inl a ↦ ground (arith, a, h, backs)
          | inr a ↦ absurd (
              subst Stops e (
                handle_reply-Stops rt peer p reply (
                  takes_all w peer (append_request rt.core p.next_index) (ground (arith, a, pos)))))
        ]

    -- With more fuel than the next index the loop ends, and more fuel makes no difference.
    pub replicate-Ends :
        (n : ℕ) (rt : RaftRuntime) (w : W) (peer : Str) (p : PeerProgress)
        → p.next_index ≤ n
        → (r : RaftRuntime × W × Bool) × ((k : ℕ)
            → replicate post (suc (n + k)) rt w peer p ≡ some r)
    unfolding replicate
    replicate-Ends zero rt w peer p h =
        let e : leb 1 p.next_index ≡ false = ground (arith, h) in
        ((rt, w, false), λ k. rw (replicate, e) refl)
    replicate-Ends (suc n) rt w peer p h = elim (Bool-cases (leb 1 p.next_index)) [
      | inr a ↦ ((rt, w, false), λ k. rw (replicate, a) refl)
      | inl a ↦
          let r = post w peer (append_request rt.core p.next_index) in
          elim (Round-cases (handle_reply rt peer p (r.1))) [
            | inl (rt', b, e) ↦ ((rt', r.0, b), λ k. rw (replicate, a, e) refl)
            | inr (rt', back, e) ↦
                let (x, runs) =
                  replicate-Ends n rt' (r.0) peer back
                    (again-lower rt rt' w peer p back n e (ground (arith, a)) h) in
                let more : (k : ℕ) → replicate post (suc (suc (n + k))) rt w peer p ≡ some x =
                  λ k. rw (replicate, a, e) (runs k) in
                (
                  x,
                  λ k.
                      let same : suc (suc (n + k)) ≡ suc (suc n + k) = omega arith in
                      subst (λ f. replicate post f rt w peer p ≡ some x) same (more k),
                )
          ]
    ]

-- A peer that answers with `handle_append_entries` of raft_core.py does so.
pub answer-TakesAll : TakesAll answer
unfolding answer handle_append_entries
answer-TakesAll w peer r start = elim (Bool-cases (ltb r.term w.current_term)) [
  | inl behind ↦ newer _ (ground (arith, behind))
  | inr in_time ↦
      success _ ((handle_append_entries_outcome w r).0.1 (ground (arith, in_time), inl start))
]
