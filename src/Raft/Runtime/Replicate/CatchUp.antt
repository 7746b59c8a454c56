-- ===== src/Raft/Runtime/Replicate/CatchUp.antt =====
-- `_replicate_to_peer` of raft_runtime.py against a peer of the same group that answers.
use typesense_python.Base.{
  ℕ, zero, suc, ◌+◌, ◌-◌, ◌≤◌, ◌<◌, ◌≡◌, ◌≢◌, ◌∙◌, sym, refl, ap, Str, text_eq, true, false, Option,
  some, List, [], ◌∷◌, ◌++◌, length, take, drop, length-take, max, ◌==◌, arith, Bool-cases,
  Option-cases, inl, inr, take-append-drop, le→not-ltb, le→leb,
}
use mathlib.Core.Path.{subst}
use typesense_python.Base.Dict
use typesense_python.Raft.Types.{RaftLogEntry, AppendRequest, AppendReply}
use typesense_python.Raft.Log.{entry_at, last_index, merge_entries}
use typesense_python.Raft.Log.Numbered.{Numbered, drop-Numbered}
use typesense_python.Raft.Log.Merge.{term_at, merge_entries-Merged, present-le}
use typesense_python.Raft.Log.Matching.{Matching, merge_catches_up}
use typesense_python.Raft.Core.{RaftCore, accepts, handle_append_entries}
use typesense_python.Raft.Core.Replication.{last_index-length, accepts_iff}
use typesense_python.Raft.Runtime.{RaftRuntime, PeerProgress}
use typesense_python.Raft.Runtime.Replicate.{
  done, again, log_term, entries_from, append_request, set_progress, handle_reply, replicate,
}

-- A peer that answers each request with `handle_append_entries` of raft_core.py.
unfoldable pub answer : RaftCore → Str → AppendRequest → RaftCore × Option AppendReply
answer p url r = let (p', reply) = handle_append_entries p r in (p', some reply)

-- A leader and a peer of one group: both logs are numbered and match, the peer's term is not newer,
-- and no entry has term 0.
pub record CanCatchUp (l p : RaftCore) : Type 0 where
  pub numbered : Numbered 0 l.log
  pub peer_numbered : Numbered 0 p.log
  pub matching : Matching l.log p.log
  pub term : p.current_term ≤ l.current_term
  pub positive : (i : ℕ) → term_at p.log i ≢ some 0

entries_from-all :
    (n i : ℕ) (log : List RaftLogEntry) → Numbered n log → i ≤ n + 1 → entries_from log i ≡ log
entries_from-all n i [] h q = refl
entries_from-all n i (e ∷ log) h q =
    ground (arith, entries_from-all (n + 1) i log h.1 (omega arith))

entries_from-drop :
    (n k i : ℕ) (log : List RaftLogEntry)
    → Numbered n log
    → i ≡ n + k + 1
    → entries_from log i ≡ drop k log
entries_from-drop n zero i [] h q = refl
entries_from-drop n zero i (e ∷ log) h q =
    ground (arith, entries_from-all (n + 1) i log h.1 (omega arith))
entries_from-drop n (suc k) i [] h q = refl
entries_from-drop n (suc k) i (e ∷ log) h q =
    ground (arith, entries_from-drop (n + 1) k i log h.1 (omega arith))

record Answered (p : RaftCore) (r : AppendRequest) : Type 0 where
  term : (handle_append_entries p r).1.term ≡ r.term
  success : (handle_append_entries p r).1.success ≡ accepts p.log r
  match : (handle_append_entries p r).1.match_index ≡ last_index (handle_append_entries p r).0.log
  accepted :
      accepts p.log r ≡ true → (handle_append_entries p r).0.log ≡ merge_entries p.log r.entries
  refused : accepts p.log r ≡ false → (handle_append_entries p r).0.log ≡ p.log
  adopted : (handle_append_entries p r).0.current_term ≡ r.term

handle-Answered : (p : RaftCore) (r : AppendRequest) → p.current_term ≤ r.term → Answered p r
unfolding handle_append_entries
handle-Answered p r h = record {
  term = ground arith;
  success = ground arith;
  match = ground arith;
  accepted = λ a. ground arith;
  refused = λ a. ground arith;
  adopted = ground arith;
}

module _ (l p : RaftCore) (ready : CanCatchUp l p) (next : ℕ) (pos : 1 ≤ next) where
  abbrev request : AppendRequest
  request = append_request l next

  -- A previous entry that the peer accepts is one of the leader's.
  shared_prefix :
      accepts p.log request ≡ true
      → (next - 1 ≤ length l.log) × (take (next - 1) p.log ≡ take (next - 1) l.log)
  unfolding log_term
  shared_prefix a = elim ((accepts_iff p.log request).0 a) [
    | inl start ↦ (omega arith, rw start refl)
    | inr held ↦ elim (Option-cases (entry_at l.log (next - 1))) [
      | inl missing ↦ absurd (ready.positive (next - 1) (held ∙ ap some (ground arith)))
      | inr (x, found) ↦ elim (Bool-cases (next - 1 == 0)) [
        | inl zero_index ↦ absurd (ready.positive (next - 1) (held ∙ ap some (ground arith)))
        | inr further ↦ (
          omega (arith, present-le 0 (next - 1) l.log x ready.numbered found),
          sym (
              ready.matching (next - 1) x.term (rw found refl)
                (held ∙ ap some (rw (further, found) refl))),
        )
      ]
    ]
  ]

  refused_further : accepts p.log request ≡ false → 1 < next
  refused_further a = ground arith

  -- After an accepted round the peer's log starts with the leader's.
  accepted_starts :
      accepts p.log request ≡ true
      → (take (length l.log) (handle_append_entries p request).0.log ≡ l.log)
        × (length l.log ≤ (handle_append_entries p request).1.match_index)
  accepted_starts a =
      let k = next - 1 in
      let x = handle-Answered p request ready.term in
      let (short, prefix) = shared_prefix a in
      let whole : take k l.log ++ drop k l.log ≡ l.log = take-append-drop k l.log in
      let size : length (take k l.log) ≡ k = omega (arith, length-take k l.log) in
      let sent : entries_from l.log next ≡ drop k l.log =
        entries_from-drop 0 k next l.log ready.numbered (omega arith) in
      let starts =
        merge_catches_up (take k l.log) (drop k l.log) p.log (rw whole ready.numbered)
          ready.peer_numbered (rw whole ready.matching) (rw size prefix) in
      let starts' : take (length l.log) (handle_append_entries p request).0.log ≡ l.log =
        rw (x.accepted a) (
          rw sent
            (subst (λ z. take (length z) (merge_entries p.log (drop k l.log)) ≡ z) whole starts)) in
      let merged =
        merge_entries-Merged k p.log (drop k l.log) ready.peer_numbered
          (drop-Numbered 0 k k l.log ready.numbered (omega arith))
          (omega (arith, ap length prefix, length-take k p.log, length-take k l.log)) in
      let numbered : Numbered 0 (handle_append_entries p request).0.log =
        rw (x.accepted a) (rw sent merged.numbered) in
      (
        starts',
        omega (
          arith,
          x.match,
          last_index-length _ numbered,
          ap length starts',
          length-take (length l.log) (handle_append_entries p request).0.log,
        ),
      )

  -- A refusal leaves the peer as ready as it was.
  still_ready : accepts p.log request ≡ false → CanCatchUp l (handle_append_entries p request).0
  still_ready a =
      let x = handle-Answered p request ready.term in
      let same = x.refused a in
      record {
        numbered = ready.numbered;
        peer_numbered = rw same ready.peer_numbered;
        matching = rw same ready.matching;
        term = omega (arith, x.adopted);
        positive = rw same ready.positive;
      }

-- How the loop ends: the peer's log starts with the leader's, the leader knows it, and its own Raft state
-- is as it was.
pub record CaughtUp (rt : RaftRuntime) (peer : Str) (rt' : RaftRuntime) (p' : RaftCore)
    : Type 0 where
  pub starts : take (length rt.core.log) p'.log ≡ rt.core.log
  pub core : rt'.core ≡ rt.core
  pub match_index : ℕ
  pub progress :
      Dict.get rt'.peer_progress peer
      ≡ some (record { next_index = match_index + 1; match_index = match_index })
  pub covers : length rt.core.log ≤ match_index

module _ (rt : RaftRuntime) (peer : Str) (progress : PeerProgress) (reply : AppendReply) where
  reply_succeeds :
      reply.term ≡ rt.core.current_term
      → reply.success ≡ true
      → handle_reply rt peer progress (some reply)
        ≡ done
            (set_progress rt peer
              (record { next_index = reply.match_index + 1; match_index = reply.match_index }))
            true
  unfolding handle_reply
  reply_succeeds t s = rw (le→not-ltb rt.core.current_term reply.term (omega arith), s)

  abbrev back : PeerProgress
  back = record progress { next_index = max 1 (progress.next_index - 1) }

  reply_refuses :
      reply.term ≡ rt.core.current_term
      → reply.success ≡ false
      → handle_reply rt peer progress (some reply) ≡ again (set_progress rt peer back) back
  unfolding handle_reply
  reply_refuses t s = rw (le→not-ltb rt.core.current_term reply.term (omega arith), s)

-- A leader and a peer whose logs are numbered and match (where both hold the same term at an
-- index, they are the same up to it), where the peer's term is not newer than the leader's and no
-- entry of the peer has term 0, and the peer answers each request with `handle_append_entries`:
-- with as much fuel as the next index, replicating to the peer ends with success, and the peer has
-- caught up: its log starts with the leader's, the recorded match index covers the leader's log,
-- and the leader's Raft state is unchanged.
pub replicate-CaughtUp :
    (fuel : ℕ) (rt : RaftRuntime) (p : RaftCore) (peer : Str) (progress : PeerProgress)
    → CanCatchUp rt.core p
    → 1 ≤ progress.next_index
    → progress.next_index ≤ fuel
    → (rt' : RaftRuntime) × (p' : RaftCore) × (replicate answer fuel rt p peer progress
        ≡ some (rt', p', true))
      × CaughtUp rt peer rt' p'
unfolding replicate answer
replicate-CaughtUp zero rt p peer progress ready pos enough = absurd (omega arith)
replicate-CaughtUp (suc fuel) rt p peer progress ready pos enough =
    let r = append_request rt.core progress.next_index in
    let (p', reply) = handle_append_entries p r in
    let x = handle-Answered p r ready.term in
    elim (Bool-cases (accepts p.log r)) [
      | inl taken ↦
          let (starts, covers) = accepted_starts rt.core p ready progress.next_index pos taken in
          let progress' : PeerProgress = record {
            next_index = reply.match_index + 1;
            match_index = reply.match_index;
          } in
          (
            set_progress rt peer progress',
            p',
            rw
                (
                  le→leb 1 progress.next_index pos,
                  reply_succeeds rt peer progress reply x.term (x.success ∙ taken),
                )
                refl,
            record {
              starts = starts;
              core = refl;
              match_index = reply.match_index;
              progress = Dict.get-put_self rt.peer_progress peer progress';
              covers = covers;
            },
          )
      | inr refused ↦
          let next = back rt peer progress reply in
          let further = refused_further rt.core p ready progress.next_index pos refused in
          let (rt'', p'', runs, caught) =
            replicate-CaughtUp fuel (set_progress rt peer next) p' peer next
              (still_ready rt.core p ready progress.next_index pos refused) (omega arith)
              (omega arith) in
          (
            rt'',
            p'',
            rw
                (
                  le→leb 1 progress.next_index pos,
                  reply_refuses rt peer progress reply x.term (x.success ∙ refused),
                )
                runs,
            record {
              starts = caught.starts;
              core = caught.core;
              match_index = caught.match_index;
              progress = caught.progress;
              covers = caught.covers;
            },
          )
    ]
