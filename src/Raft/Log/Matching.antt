-- ===== src/Raft/Log/Matching.antt =====
-- Logs that agree as Raft's log matching property says, and how the loop of `handle_append_entries` makes
-- one of them start with the other.
use typesense_python.Base.{
  ℕ, zero, suc, ◌+◌, ◌≤◌, ◌≡◌, ◌∙◌, sym, refl, ap, some, List, [], ◌∷◌, ◌++◌, append-nil,
  append_assoc, length, take, length-take, length-append, ◌==◌, ==_iff, arith, Bool-cases,
  Option-cases, inl, inr,
}
use mathlib.Core.Path.{subst}
use mathlib.Core.Option
use mathlib.Core.Option.{some-injective}
use native.Mathlib.Decide.{dec_le}
use typesense_python.Raft.Types.{RaftLogEntry}
use typesense_python.Raft.Log.{entry_at, append_entry, merge_entries}
use typesense_python.Raft.Log.Numbered.{Numbered}
use typesense_python.Raft.Log.Merge.{
  term_at, take-append, take-of-take, present-le, absent-lt, append_entry_new, append_entry_same,
  append_entry_conflict, append_entry-Appended,
}

-- Where two logs hold the same term at an index, they are the same up to that index.
abbrev pub Matching : List RaftLogEntry → List RaftLogEntry → Type 0
Matching l p = (i t : ℕ) → term_at l i ≡ some t → term_at p i ≡ some t → take i l ≡ take i p

take-length {ℓ} : {A : Type ℓ} (n : ℕ) (xs : List A) → length xs ≤ n → take n xs ≡ xs
take-length zero [] h = refl
take-length zero (x ∷ xs) h = absurd (omega arith)
take-length (suc n) [] h = refl
take-length (suc n) (x ∷ xs) h = ap (◌∷◌ x) (take-length n xs (omega arith))

take-prefix {ℓ} : {A : Type ℓ} (n : ℕ) (xs ys : List A) → n ≡ length xs → take n (xs ++ ys) ≡ xs
take-prefix n xs ys e = take-append n xs ys (omega arith) ∙ take-length n xs (omega arith)

entry_at-append :
    (n i : ℕ) (pre es : List RaftLogEntry) (e : RaftLogEntry)
    → Numbered n (pre ++ e ∷ es)
    → i ≡ n + length pre + 1
    → (entry_at (pre ++ e ∷ es) i ≡ some e) × (e.index ≡ i)
unfolding entry_at
entry_at-append n i [] es e h q = ground arith
entry_at-append n i (x ∷ pre) es e h q =
    ground (arith, entry_at-append (n + 1) i pre es e h.1 (omega arith))

Matching-take : (j : ℕ) (l p : List RaftLogEntry) → Numbered 0 p → p ≡ take j l → Matching l p
Matching-take j l p wf e i t hl hp = elim (dec_le i j) [
  | yes le ↦ sym (ap (take i) e ∙ take-of-take i j l le)
  | no gt ↦ elim (Option-cases (entry_at p i)) [
    | inl missing ↦ cc (rw missing at hp)
    | inr (x, found) ↦
        absurd (omega (arith, present-le 0 i p x wf found, ap length e, length-take j l))
  ]
]

-- One round on a log that starts with `pre`.
record Extended (pre : List RaftLogEntry) (e : RaftLogEntry) (l p : List RaftLogEntry)
    : Type 0 where
  numbered : Numbered 0 p
  starts : take (length pre + 1) p ≡ pre ++ e ∷ []
  matching : Matching l p

module _ (pre es : List RaftLogEntry) (e : RaftLogEntry) (p : List RaftLogEntry)
    (wf : Numbered 0 (pre ++ e ∷ es)) (wf' : Numbered 0 p) (match : Matching (pre ++ e ∷ es) p)
    (starts : take (length pre) p ≡ pre) where
  abbrev l : List RaftLogEntry
  l = pre ++ e ∷ es

  at_e : e.index ≡ length pre + 1
  at_e = (entry_at-append 0 (length pre + 1) pre es e wf (omega arith)).1

  held : term_at l e.index ≡ some e.term
  held =
      ap (Option.map (λ (x : RaftLogEntry). x.term))
        (entry_at-append 0 e.index pre es e wf (omega (arith, at_e))).0

  long : length pre ≤ length p
  long = omega (arith, ap length starts, length-take (length pre) p)

  pre_e : take (length pre + 1) l ≡ pre ++ e ∷ []
  pre_e =
      ap (take (length pre + 1)) (sym (append_assoc pre (e ∷ []) es))
      ∙ take-prefix (length pre + 1) (pre ++ e ∷ []) es (omega (arith, length-append pre (e ∷ [])))

  Extended-new : append_entry p e ≡ pre ++ e ∷ [] → Extended pre e l (append_entry p e)
  Extended-new new = record {
    numbered =
        (append_entry-Appended p e wf' (omega (arith, at_e)) (omega (arith, at_e, long))).numbered;
    starts =
        ap (take (length pre + 1)) new
        ∙ take-length (length pre + 1) (pre ++ e ∷ []) (omega (arith, length-append pre (e ∷ [])));
    matching =
        Matching-take (length pre + 1) l (append_entry p e)
          (append_entry-Appended p e wf' (omega (arith, at_e)) (omega (arith, at_e, long))).numbered
          (new ∙ sym pre_e);
  }

  append_entry-Extended : Extended pre e l (append_entry p e)
  append_entry-Extended = elim (Option-cases (entry_at p e.index)) [
    | inl missing ↦
        let short = absent-lt 0 e.index p wf' (omega (arith, at_e)) missing in
        Extended-new (
          append_entry_new p e missing
          ∙ ap (λ k. k ++ e ∷ []) (sym (take-length (length pre) p (omega (arith, at_e))) ∙ starts))
    | inr (x, found) ↦ elim (Bool-cases (x.term == e.term)) [
      | inl same ↦
          let kept = append_entry_same p e x found same in
          let t : term_at p e.index ≡ some e.term =
            rw found (ap some ((==_iff x.term e.term).0 same)) in
          rw kept (record {
            numbered = wf';
            starts =
                subst (λ i. take i p ≡ pre ++ e ∷ []) at_e
                  (sym (match e.index e.term held t) ∙ ap (λ i. take i l) at_e ∙ pre_e);
            matching = match;
          })
      | inr other ↦ Extended-new (
          append_entry_conflict p e wf' (length pre) x found other at_e
          ∙ ap (λ k. k ++ e ∷ []) starts)
    ]
  ]

-- The loop makes a log that starts with `pre` start with the leader's log `pre ++ es`.
pub merge_catches_up :
    (pre es p : List RaftLogEntry)
    → Numbered 0 (pre ++ es)
    → Numbered 0 p
    → Matching (pre ++ es) p
    → take (length pre) p ≡ pre
    → take (length (pre ++ es)) (merge_entries p es) ≡ pre ++ es
unfolding merge_entries
merge_catches_up pre [] p wf wf' match starts = rw append-nil starts
merge_catches_up pre (e ∷ es) p wf wf' match starts =
    let x = append_entry-Extended pre es e p wf wf' match starts in
    let same : (pre ++ e ∷ []) ++ es ≡ pre ++ e ∷ es = append_assoc pre (e ∷ []) es in
    subst (λ l. take (length l) (merge_entries (append_entry p e) es) ≡ l) same
      (merge_catches_up (pre ++ e ∷ []) es (append_entry p e) (rw same wf) x.numbered
        (rw same x.matching)
        (subst (λ n. take n (append_entry p e) ≡ pre ++ e ∷ [])
          (omega (arith, length-append pre (e ∷ []))) x.starts))
