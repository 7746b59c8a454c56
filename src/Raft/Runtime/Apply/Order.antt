-- ===== src/Raft/Runtime/Apply/Order.antt =====
-- What `_apply_committed_entries` of raft_runtime.py applies, in which order, and where it stops.
use typesense_python.Base.{
  ℕ, zero, suc, ◌+◌, ◌≤◌, ◌<◌, ◌≡◌, ◌∙◌, refl, ap, Option, none, some, List, [], ◌∷◌, length, take,
  drop, arith, inl, inr, ◌⊎◌, length-drop, le→leb, lt→not-leb, lt→ltb, le→not-ltb,
}
use native.Mathlib.Decide.{dec_lt}
use typesense_python.Base.Order.{sort, insert}
use typesense_python.Base.Result.{Result, ok, raise, Error}
use typesense_python.Schemas.{Document}
use typesense_python.Raft.Types.{RaftLogEntry}
use typesense_python.Raft.Log.{entry_at}
use typesense_python.Raft.Log.Numbered.{Numbered, drop-Numbered}
use typesense_python.Raft.Core.Replication.{IsWellFormed}
use typesense_python.Raft.Runtime.{RaftRuntime}
use typesense_python.Raft.Runtime.Apply.{
  Apply, Applied, index_le, sorted_log, apply_entries, apply_committed_entries,
}

insert-Numbered :
    (n : ℕ) (e : RaftLogEntry) (log : List RaftLogEntry)
    → Numbered n (e ∷ log)
    → insert index_le e log ≡ e ∷ log
unfolding insert
insert-Numbered n e [] h = refl
insert-Numbered n e (x ∷ log) h = ground arith

-- A numbered log is sorted already.
pub sorted_log-Numbered : (n : ℕ) (log : List RaftLogEntry) → Numbered n log → sorted_log log ≡ log
unfolding sorted_log sort
sorted_log-Numbered n [] h = refl
sorted_log-Numbered n (e ∷ log) h =
    ap (insert index_le e) (sorted_log-Numbered (n + 1) log h.1) ∙ insert-Numbered n e log h

module _ {M : Type 0} (apply : Apply M) where
  -- The application's states that a list of entries leads through, one `apply` each.
  pub data Ran : List RaftLogEntry → M → M → Type 0 where
    stay : {m : M} → Ran [] m m
    step :
        {m m' m'' : M} {document : Document} (e : RaftLogEntry) {es : List RaftLogEntry}
        → apply m e.command ≡ ok (m', document)
        → Ran es m' m''
        → Ran (e ∷ es) m m''

  -- How the loop over entries numbered from `n` + 1 ends, with the first `k` of them applied.
  pub record Outcome (n commit : ℕ) (log : List RaftLogEntry) (m : M) (done : Applied M)
      : Type 0 where
    pub count : ℕ
    pub reached : done.last_applied ≡ n + count
    pub ran : Ran (take count log) m done.machine
    pub complete : (o : Option Document) → done.result ≡ ok o → done.last_applied ≡ commit
    pub stopped :
        (err : Error)
        → done.result ≡ raise err
        → (done.last_applied < commit)
          × ((e : RaftLogEntry) × (entry_at log (done.last_applied + 1) ≡ some e)
              × (apply done.machine e.command ≡ raise err))

  Outcome-stays :
      (n commit : ℕ) (log : List RaftLogEntry) (m : M) (result : Option Document)
      → n ≡ commit
      → Outcome n commit log m (record { result = ok result; machine = m; last_applied = n })
  Outcome-stays n commit log m result e = record {
    count = 0;
    reached = omega arith;
    ran = stay;
    complete = λ o q. e;
    stopped = λ err q. cc;
  }

  Outcome-stops :
      (n commit : ℕ) (e : RaftLogEntry) (log : List RaftLogEntry) (m : M) (error : Error)
      → Numbered n (e ∷ log)
      → n < commit
      → apply m e.command ≡ raise error
      → Outcome n commit
          (e ∷ log)
          m
          (record { result = raise error; machine = m; last_applied = n })
  unfolding entry_at
  Outcome-stops n commit e log m error h a fails = record {
    count = 0;
    reached = omega arith;
    ran = stay;
    complete = λ o q. cc;
    stopped = λ err q. (a, (e, ground arith, cc));
  }

  Outcome-steps :
      (n commit : ℕ) (e : RaftLogEntry) (log : List RaftLogEntry) (m m' : M) (document : Document)
      (done : Applied M)
      → Numbered n (e ∷ log)
      → n < commit
      → apply m e.command ≡ ok (m', document)
      → Outcome (n + 1) commit log m' done
      → Outcome n commit (e ∷ log) m done
  unfolding entry_at
  Outcome-steps n commit e log m m' document done h a succeeds o = record {
    count = suc o.count;
    reached = omega (arith, o.reached);
    ran = step e succeeds o.ran;
    complete = o.complete;
    stopped = λ err q.
        let (lt, (x, found, fails)) = o.stopped err q in
        (lt, (x, ground (arith, o.reached), fails));
  }

  Result-cases {ℓ} :
      {A : Type ℓ} (r : Result A) → ((a : A) × (r ≡ ok a)) ⊎ ((e : Error) × (r ≡ raise e))
  Result-cases (ok a) = inl (a, refl)
  Result-cases (raise e) = inr (e, refl)

  module _ (commit k : ℕ) (e : RaftLogEntry) (es : List RaftLogEntry) (m : M)
      (result : Option Document) where
    round_skips :
        e.index ≤ k
        → apply_entries apply commit (e ∷ es) m k result ≡ apply_entries apply commit es m k result
    unfolding apply_entries
    round_skips h = rw (le→leb e.index k h)

    round_stops :
        k < e.index
        → commit < e.index
        → apply_entries apply commit (e ∷ es) m k result
          ≡ record { result = ok result; machine = m; last_applied = k }
    unfolding apply_entries
    round_stops h h' = rw (lt→not-leb e.index k h, lt→ltb commit e.index h')

    round_applies :
        (m' : M) (document : Document)
        → k < e.index
        → e.index ≤ commit
        → apply m e.command ≡ ok (m', document)
        → apply_entries apply commit (e ∷ es) m k result
          ≡ apply_entries apply commit es m' e.index (some document)
    unfolding apply_entries
    round_applies m' document h h' succeeds =
        rw (lt→not-leb e.index k h, le→not-ltb commit e.index h', succeeds)

    pub round_fails :
        (error : Error)
        → k < e.index
        → e.index ≤ commit
        → apply m e.command ≡ raise error
        → apply_entries apply commit (e ∷ es) m k result
          ≡ record { result = raise error; machine = m; last_applied = k }
    unfolding apply_entries
    round_fails error h h' fails = rw (lt→not-leb e.index k h, le→not-ltb commit e.index h', fails)

  apply_entries-Outcome :
      (n commit k : ℕ) (log : List RaftLogEntry) (m : M) (result : Option Document)
      → k ≡ n
      → Numbered n log
      → n ≤ commit
      → commit ≤ n + length log
      → Outcome n commit log m (apply_entries apply commit log m k result)
  unfolding apply_entries
  apply_entries-Outcome n commit k [] m result q h a b =
      rw q (Outcome-stays n commit [] m result (omega arith))
  apply_entries-Outcome n commit k (e ∷ log) m result q h a b = elim (dec_lt n commit) [
    | no last ↦
        rw (round_stops commit k e log m result (omega arith) (omega arith))
          (rw q (Outcome-stays n commit (e ∷ log) m result (omega arith)))
    | yes more ↦ elim (Result-cases (apply m e.command)) [
      | inl ((m', document), succeeds) ↦
          rw
            (round_applies commit k e log m result m' document (omega arith) (omega arith) succeeds)
            (Outcome-steps n commit e log m m' document _ h more succeeds (
              apply_entries-Outcome (n + 1) commit e.index log m' (some document) h.0 h.1
                (omega arith) (omega arith)))
      | inr (error, fails) ↦
          rw (round_fails commit k e log m result error (omega arith) (omega arith) fails)
            (rw q (Outcome-stops n commit e log m error h more fails))
    ]
  ]

  -- The entries that are applied already are skipped.
  pub apply_entries-drop :
      (n commit j k : ℕ) (log : List RaftLogEntry) (m : M) (result : Option Document)
      → Numbered n log
      → k ≡ n + j
      → apply_entries apply commit log m k result
        ≡ apply_entries apply commit (drop j log) m k result
  apply_entries-drop n commit zero k log m result h q = refl
  apply_entries-drop n commit (suc j) k [] m result h q = refl
  apply_entries-drop n commit (suc j) k (e ∷ log) m result h q =
      round_skips commit k e log m result (omega arith)
      ∙ apply_entries-drop (n + 1) commit j k log m result h.1 (omega arith)

  -- On a well-formed node the loop applies, each once and in the order of the log, the entries behind
  -- `last_applied`. If no `apply_command` fails, it ends at the commit index. If one fails, it ends just
  -- before that entry, which is committed and not applied.
  pub apply_committed_entries-Outcome :
      (rt : RaftRuntime) (m : M)
      → IsWellFormed rt.core
      → Outcome rt.core.last_applied rt.core.commit_index
          (drop rt.core.last_applied rt.core.log)
          m
          (record {
            result = (apply_committed_entries apply rt m).2;
            machine = (apply_committed_entries apply rt m).1;
            last_applied = (apply_committed_entries apply rt m).0.core.last_applied;
          })
  unfolding apply_committed_entries
  apply_committed_entries-Outcome rt m wf =
      let n = rt.core.last_applied in
      let log = rt.core.log in
      let commit = rt.core.commit_index in
      rw (sorted_log-Numbered 0 log wf.numbered) (
        rw (apply_entries-drop 0 commit n n log m none wf.numbered (omega arith)) (
          apply_entries-Outcome n commit n (drop n log) m none refl
            (drop-Numbered 0 n n log wf.numbered (omega arith)) wf.applied
            (omega (arith, length-drop n log, wf.committed))))
