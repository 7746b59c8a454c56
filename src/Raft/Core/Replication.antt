-- ===== src/Raft/Core/Replication.antt =====
-- What `handle_append_entries` of raft_core.py does to a node's log, commit index and term.
use typesense_python.Base.{
  ℕ, ◌+◌, ◌-◌, ◌≤◌, ◌<◌, ◌≡◌, ◌∙◌, sym, refl, ap, true, false, some, List, [], ◌∷◌, length, take,
  length-take, All, ◌↔◌, ◌⊎◌, ltb, if◌then◌else◌, arith, Bool-cases, Option-cases, inl, inr, min,
}
use native.Mathlib.Decide.{dec_le}
use typesense_python.Raft.Types.{RaftLogEntry, AppendRequest, follower}
use typesense_python.Raft.Log.{entry_at, last_index, append_entry, merge_entries}
use typesense_python.Raft.Log.Numbered.{Numbered, last_index-eq-length}
use typesense_python.Raft.Log.Merge.{
  term_at, term_at-take, merge_entries-Merged, merge_entries_idem, present-le,
  append_entry-Appended, append_entry_held, take-shorten,
}
use typesense_python.Raft.Core.{RaftCore, append_reply, accepts, handle_append_entries}

-- The log has the indices 1, 2, ..., and what is committed is in it.
pub record IsWellFormed (c : RaftCore) : Type 0 where
  pub numbered : Numbered 0 c.log
  pub committed : c.commit_index ≤ length c.log
  pub applied : c.last_applied ≤ c.commit_index

pub last_index-length : (log : List RaftLogEntry) → Numbered 0 log → last_index log ≡ length log
unfolding last_index
last_index-length [] h = refl
last_index-length (e ∷ log) h = last_index-eq-length 0 (e ∷ log) h (omega arith) ∙ omega arith

-- The request continues the leader's log at the index after `prev_log_index`.
abbrev pub IsConsecutive : AppendRequest → Type 0
IsConsecutive r = Numbered r.prev_log_index r.entries

accepts-le :
    (log : List RaftLogEntry) (r : AppendRequest)
    → Numbered 0 log
    → accepts log r ≡ true
    → r.prev_log_index ≤ length log
accepts-le log r h ok = elim (Bool-cases (ltb 0 r.prev_log_index)) [
  | inl pos ↦ elim (Option-cases (entry_at log r.prev_log_index)) [
    | inl missing ↦ ground arith
    | inr (x, found) ↦ omega (arith, present-le 0 r.prev_log_index log x h found)
  ]
  | inr start ↦ ground arith
]

pub accepts_iff :
    (log : List RaftLogEntry) (r : AppendRequest)
    → (accepts log r ≡ true)
      ↔ ((r.prev_log_index ≡ 0) ⊎ (term_at log r.prev_log_index ≡ some r.prev_log_term))
accepts_iff log r = elim (Option-cases (entry_at log r.prev_log_index)) [
  | inl missing ↦ rw missing (ground arith)
  | inr (x, found) ↦ rw found (ground arith)
]

record Accepted (c : RaftCore) (r : AppendRequest) (c' : RaftCore) : Type 0 where
  accepted : accepts c.log r ≡ true
  log : c'.log ≡ merge_entries c.log r.entries
  commit : c'.commit_index ≡ (
      if ltb c.commit_index r.leader_commit
      then min r.leader_commit (last_index (merge_entries c.log r.entries))
      else c.commit_index)
  applied : c'.last_applied ≡ c.last_applied
  term : c'.current_term ≡ r.term
  leader : c'.leader_id ≡ some r.leader_id
  role : c'.role ≡ follower

success-Accepted :
    (c : RaftCore) (r : AppendRequest)
    → (handle_append_entries c r).1.success ≡ true
    → Accepted c r (handle_append_entries c r).0
unfolding handle_append_entries
success-Accepted c r h = record {
  accepted = ground arith;
  log = ground arith;
  commit = ground arith;
  applied = ground arith;
  term = ground arith;
  leader = ground arith;
  role = ground arith;
}

-- The leader of the request agrees with what this node has committed.
abbrev pub Agrees : ℕ → List RaftLogEntry → List RaftLogEntry → Type 0
Agrees commit log entries = All (λ e. e.index ≤ commit → term_at log e.index ≡ some e.term) entries

Agrees-append :
    (commit : ℕ) (log es : List RaftLogEntry) (e : RaftLogEntry) (log' : List RaftLogEntry)
    → commit < e.index
    → Agrees commit log es
    → (n : ℕ) → commit ≤ n
    → Numbered n es
    → Agrees commit log' es
Agrees-append commit log [] e log' p h n q k = tt
Agrees-append commit log (x ∷ es) e log' p h n q k =
    (λ le. absurd (omega arith), Agrees-append commit log es e log' p h.1 (n + 1) (omega arith) k.1)

-- Entries at and below the commit index survive the loop.
pub merge_keeps_committed :
    (commit prev : ℕ) (log entries : List RaftLogEntry)
    → Numbered 0 log
    → Numbered prev entries
    → prev ≤ length log
    → Agrees commit log entries
    → take commit (merge_entries log entries) ≡ take commit log
unfolding merge_entries
merge_keeps_committed commit prev log [] wf n p a = refl
merge_keeps_committed commit prev log (e ∷ es) wf n p a =
    let first = append_entry-Appended log e wf (omega arith) (omega arith) in
    elim (dec_le e.index commit) [
      | yes le ↦
          let same : append_entry log e ≡ log = append_entry_held log e (a.0 le) in
          let rest =
            merge_keeps_committed commit (prev + 1) log es wf n.1
              (omega (arith, ap length same, first.covers, n.0)) a.1 in
          ap (λ l. take commit (merge_entries l es)) same ∙ rest
      | no gt ↦
          merge_keeps_committed commit (prev + 1) (append_entry log e) es first.numbered n.1
            (omega (arith, first.covers, n.0))
            (Agrees-append commit log es e (append_entry log e) (omega arith) a.1 (prev + 1)
              (omega arith) n.1)
          ∙ take-shorten commit (e.index - 1) _ _ (omega arith) first.before
    ]

-- What an accepted request leaves behind.
pub record Replicated (c : RaftCore) (r : AppendRequest) (c' : RaftCore) : Type 0 where
  pub valid : IsWellFormed c'
  pub covers : r.prev_log_index + length r.entries ≤ length c'.log
  pub holds : All (λ e. term_at c'.log e.index ≡ some e.term) r.entries
  pub before : take r.prev_log_index c'.log ≡ take r.prev_log_index c.log
  pub committed : take c.commit_index c'.log ≡ take c.commit_index c.log
  pub commit : c.commit_index ≤ c'.commit_index
  pub term : c'.current_term ≡ r.term
  pub leader : c'.leader_id ≡ some r.leader_id

-- Once a well-formed node accepts consecutive entries that agree with what it has committed, its
-- log is well formed, holds every entry with its term, is unchanged up to `prev_log_index` and up to
-- the old commit index, and the commit index has not gone back and stays within the log.
pub handle_append_entries-Replicated :
    (c : RaftCore) (r : AppendRequest)
    → IsWellFormed c
    → IsConsecutive r
    → Agrees c.commit_index c.log r.entries
    → (handle_append_entries c r).1.success ≡ true
    → Replicated c r (handle_append_entries c r).0
handle_append_entries-Replicated c r wf seq agrees ok =
    let a = success-Accepted c r ok in
    let here : r.prev_log_index ≤ length c.log = accepts-le c.log r wf.numbered a.accepted in
    let m = merge_entries-Merged r.prev_log_index c.log r.entries wf.numbered seq here in
    let same =
      merge_keeps_committed c.commit_index r.prev_log_index c.log r.entries wf.numbered seq here
        agrees in
    let long : c.commit_index ≤ length (merge_entries c.log r.entries) = omega (
      arith,
      ap length same,
      length-take c.commit_index c.log,
      length-take c.commit_index (merge_entries c.log r.entries),
    ) in
    let last : last_index (merge_entries c.log r.entries) ≡ length (merge_entries c.log r.entries) =
      last_index-length _ m.numbered in
    record {
      valid = record {
        numbered = rw a.log m.numbered;
        committed = rw (a.log, a.commit) (ground arith);
        applied = rw (a.applied, a.commit) (ground arith);
      };
      covers = rw a.log m.covers;
      holds = rw a.log m.holds;
      before = rw a.log m.before;
      committed = rw a.log same;
      commit = rw a.commit (ground arith);
      term = a.term;
      leader = a.leader;
    }

pub handle_append_entries_outcome :
    (c : RaftCore) (r : AppendRequest)
    → (((handle_append_entries c r).1.success ≡ true) ↔ (
        (c.current_term ≤ r.term)
        × ((r.prev_log_index ≡ 0) ⊎ (term_at c.log r.prev_log_index ≡ some r.prev_log_term))))
      × ((handle_append_entries c r).1.success ≡ false
          → ((handle_append_entries c r).0.log ≡ c.log)
            × ((handle_append_entries c r).0.commit_index ≡ c.commit_index)
            × ((handle_append_entries c r).0.last_applied ≡ c.last_applied))
unfolding handle_append_entries
handle_append_entries_outcome c r = ground (arith, accepts_iff c.log r)

success-reply :
    (c : RaftCore) (r : AppendRequest)
    → (handle_append_entries c r).1.success ≡ true
    → handle_append_entries c r
      ≡ ((handle_append_entries c r).0, append_reply (handle_append_entries c r).0 true)
unfolding handle_append_entries
success-reply c r h = ground arith

handle_again :
    (c : RaftCore) (r : AppendRequest)
    → c.current_term ≡ r.term
    → c.role ≡ follower
    → c.leader_id ≡ some r.leader_id
    → accepts c.log r ≡ true
    → merge_entries c.log r.entries ≡ c.log
    → (if ltb c.commit_index r.leader_commit
        then min r.leader_commit (last_index c.log)
        else c.commit_index)
      ≡ c.commit_index
    → handle_append_entries c r ≡ (c, append_reply c true)
unfolding handle_append_entries
handle_again c r t ro l a m k = ground arith

commit_again :
    (commit bound n commit' : ℕ)
    → commit' ≡ (if ltb commit bound then min bound n else commit)
    → (if ltb commit' bound then min bound n else commit') ≡ commit'
commit_again commit bound n commit' e = ground arith

accepts_again :
    (log log' : List RaftLogEntry) (r : AppendRequest)
    → Numbered 0 log
    → Numbered 0 log'
    → take r.prev_log_index log' ≡ take r.prev_log_index log
    → accepts log r ≡ true
    → (r.prev_log_index ≡ 0) ⊎ (term_at log' r.prev_log_index ≡ some r.prev_log_term)
accepts_again log log' r h h' same ok = elim ((accepts_iff log r).0 ok) [
  | inl start ↦ inl start
  | inr held ↦
      inr (term_at-take r.prev_log_index r.prev_log_index log' log h' h (omega arith) same ∙ held)
]

-- A request that was accepted and comes again changes nothing and gets the same reply.
pub handle_append_entries_idem :
    (c : RaftCore) (r : AppendRequest)
    → IsWellFormed c
    → IsConsecutive r
    → Agrees c.commit_index c.log r.entries
    → (handle_append_entries c r).1.success ≡ true
    → handle_append_entries (handle_append_entries c r).0 r ≡ handle_append_entries c r
handle_append_entries_idem c r wf seq agrees ok =
    let a = success-Accepted c r ok in
    let p = handle_append_entries-Replicated c r wf seq agrees ok in
    let c' = (handle_append_entries c r).0 in
    let again : accepts c'.log r ≡ true =
      (accepts_iff c'.log r).1
        (accepts_again c.log c'.log r wf.numbered p.valid.numbered p.before a.accepted) in
    handle_again c' r a.term a.role a.leader again (merge_entries_idem c'.log r.entries p.holds) (
      commit_again c.commit_index r.leader_commit _ c'.commit_index (
        a.commit
        ∙ ap
            (λ l.
              if ltb c.commit_index r.leader_commit
              then min r.leader_commit (last_index l)
              else c.commit_index)
            (sym a.log)))
    ∙ sym (success-reply c r ok)
