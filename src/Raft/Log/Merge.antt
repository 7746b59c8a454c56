-- ===== src/Raft/Log/Merge.antt =====
-- The loop of `handle_append_entries` on consecutively numbered logs.
use typesense_python.Base.{
  ℕ, zero, suc, ◌+◌, ◌-◌, ◌≤◌, ◌<◌, ◌≡◌, ◌∙◌, sym, refl, ap, Option, none, some, List, [], ◌∷◌,
  ◌++◌, length, take, length-take, length-append, ◌==◌, arith, Bool-cases, Option-cases, inl, inr,
  true, false, All, ==_iff,
}
use mathlib.Core.Option
use mathlib.Core.Option.{some-injective}
use native.Mathlib.Decide.{dec_le}
use typesense_python.Raft.Types.{RaftLogEntry}
use typesense_python.Raft.Log.{entry_at, append_entry, merge_entries}
use typesense_python.Raft.Log.Numbered.{
  Numbered, take-Numbered, Numbered-snoc, entry_at_high, entry_at_within, entry_at-take,
  filter-take,
}

-- The term that the log holds at an index.
abbrev pub term_at : List RaftLogEntry → ℕ → Option ℕ
term_at log i = Option.map (λ (e : RaftLogEntry). e.term) (entry_at log i)

-- What one round establishes at the round's entry.
pub record Appended (log : List RaftLogEntry) (e : RaftLogEntry) (log' : List RaftLogEntry)
    : Type 0 where
  pub numbered : Numbered 0 log'
  pub covers : e.index ≤ length log'
  pub holds : term_at log' e.index ≡ some e.term
  pub before : take (e.index - 1) log' ≡ take (e.index - 1) log

pub take-append {ℓ} :
    {A : Type ℓ} (k : ℕ) (xs ys : List A) → k ≤ length xs → take k (xs ++ ys) ≡ take k xs
take-append zero xs ys h = refl
take-append (suc k) [] ys h = absurd (omega arith)
take-append (suc k) (x ∷ xs) ys h = ap (◌∷◌ x) (take-append k xs ys (omega arith))

take-take {ℓ} : {A : Type ℓ} (k : ℕ) (xs : List A) → take k (take k xs) ≡ take k xs
take-take zero xs = refl
take-take (suc k) [] = refl
take-take (suc k) (x ∷ xs) = ap (◌∷◌ x) (take-take k xs)

pub take-of-take {ℓ} : {A : Type ℓ} (j k : ℕ) (xs : List A) → j ≤ k → take j (take k xs) ≡ take j xs
take-of-take zero k xs h = refl
take-of-take (suc j) zero xs h = absurd (omega arith)
take-of-take (suc j) (suc k) [] h = refl
take-of-take (suc j) (suc k) (x ∷ xs) h = ap (◌∷◌ x) (take-of-take j k xs (omega arith))

pub take-shorten {ℓ} :
    {A : Type ℓ} (j k : ℕ) (xs ys : List A) → j ≤ k → take k xs ≡ take k ys → take j xs ≡ take j ys
take-shorten j k xs ys h same =
    sym (take-of-take j k xs h) ∙ ap (take j) same ∙ take-of-take j k ys h

pub entry_at-snoc :
    (n : ℕ) (log : List RaftLogEntry) (e : RaftLogEntry)
    → Numbered n log
    → e.index ≡ n + length log + 1
    → entry_at (log ++ e ∷ []) e.index ≡ some e
unfolding entry_at
entry_at-snoc n [] e h i = ground (arith, ==_iff e.index e.index)
entry_at-snoc n (x ∷ log) e h i = ground (arith, entry_at-snoc (n + 1) log e h.1 (omega arith))

pub present-le :
    (n i : ℕ) (log : List RaftLogEntry) (x : RaftLogEntry)
    → Numbered n log
    → entry_at log i ≡ some x
    → i ≤ n + length log
present-le n i log x h found = elim (dec_le i (n + length log)) [
  | yes le ↦ le
  | no gt ↦ cc (entry_at_high n i log h (omega arith))
]

pub absent-lt :
    (n i : ℕ) (log : List RaftLogEntry)
    → Numbered n log
    → n < i
    → entry_at log i ≡ none
    → n + length log < i
absent-lt n i log h p missing = elim (dec_le i (n + length log)) [
  | yes le ↦ let (x, found, _) = entry_at_within n i log h p le in cc (found)
  | no gt ↦ omega arith
]

module _ (log : List RaftLogEntry) (e : RaftLogEntry) where
  -- The rounds for a new index and for an entry that is there.
  pub append_entry_new : entry_at log e.index ≡ none → append_entry log e ≡ log ++ e ∷ []
  unfolding append_entry
  append_entry_new h = rw (h, h)

  pub append_entry_same :
      (x : RaftLogEntry)
      → entry_at log e.index ≡ some x
      → (x.term == e.term) ≡ true
      → append_entry log e ≡ log
  unfolding append_entry
  append_entry_same x h t = rw (h, t, h)

module _ (log : List RaftLogEntry) (e : RaftLogEntry) (wf : Numbered 0 log) where
  -- A log of `k` entries below the new index, extended.
  Appended-snoc :
      (kept : List RaftLogEntry)
      → Numbered 0 kept
      → e.index ≡ length kept + 1
      → take (e.index - 1) kept ≡ take (e.index - 1) log
      → Appended log e (kept ++ e ∷ [])
  Appended-snoc kept nk i same = record {
    numbered = Numbered-snoc 0 kept e nk (omega arith);
    covers = omega (arith, length-append kept (e ∷ []));
    holds = rw (entry_at-snoc 0 kept e nk (omega arith));
    before = take-append (e.index - 1) kept (e ∷ []) (omega arith) ∙ same;
  }

  -- The round for a conflict.
  pub append_entry_conflict :
      (k : ℕ) (x : RaftLogEntry)
      → entry_at log e.index ≡ some x
      → (x.term == e.term) ≡ false
      → e.index ≡ k + 1
      → append_entry log e ≡ take k log ++ e ∷ []
  unfolding append_entry
  append_entry_conflict k x h t i = rw (
    h,
    t,
    filter-take 0 k e.index log wf (omega arith),
    entry_at_high 0 e.index (take k log) (take-Numbered 0 k log wf)
        (omega (arith, length-take k log)),
  )

  pub append_entry-Appended :
      0 < e.index → e.index ≤ length log + 1 → Appended log e (append_entry log e)
  append_entry-Appended p q = elim (Option-cases (entry_at log e.index)) [
    | inl new ↦
        rw (append_entry_new log e new)
          (Appended-snoc log wf (omega (arith, absent-lt 0 e.index log wf p new)) refl)
    | inr (x, here) ↦ elim (Bool-cases (x.term == e.term)) [
      | inl same ↦ rw (append_entry_same log e x here same) (record {
        numbered = wf;
        covers = omega (arith, present-le 0 e.index log x wf here);
        holds = rw here (ap some ((==_iff x.term e.term).0 same));
        before = refl;
      })
      | inr other ↦ rw (append_entry_conflict (e.index - 1) x here other (omega arith)) (
          Appended-snoc (take (e.index - 1) log) (take-Numbered 0 (e.index - 1) log wf)
            (omega (arith, length-take (e.index - 1) log, present-le 0 e.index log x wf here))
            (take-take (e.index - 1) log))
    ]
  ]

-- What the whole loop establishes, for entries numbered from `prev` + 1.
pub record Merged (prev : ℕ) (log entries log' : List RaftLogEntry) : Type 0 where
  pub numbered : Numbered 0 log'
  pub covers : prev + length entries ≤ length log'
  pub holds : All (λ e. term_at log' e.index ≡ some e.term) entries
  pub before : take prev log' ≡ take prev log

pub term_at-take :
    (k i : ℕ) (xs ys : List RaftLogEntry)
    → Numbered 0 xs
    → Numbered 0 ys
    → i ≤ k
    → take k xs ≡ take k ys
    → term_at xs i ≡ term_at ys i
term_at-take k i xs ys hx hy b same = ap (Option.map (λ (e : RaftLogEntry). e.term)) (
    sym (entry_at-take 0 k i xs hx (omega arith))
    ∙ ap (λ l. entry_at l i) same
    ∙ entry_at-take 0 k i ys hy (omega arith))

pub merge_entries-Merged :
    (prev : ℕ) (log entries : List RaftLogEntry)
    → Numbered 0 log
    → Numbered prev entries
    → prev ≤ length log
    → Merged prev log entries (merge_entries log entries)
unfolding merge_entries
merge_entries-Merged prev log [] wf n p = record {
  numbered = wf;
  covers = omega arith;
  holds = tt;
  before = refl;
}
merge_entries-Merged prev log (e ∷ es) wf n p =
    let first = append_entry-Appended log e wf (omega arith) (omega arith) in
    let rest =
      merge_entries-Merged (prev + 1) (append_entry log e) es first.numbered n.1
        (omega (arith, first.covers, n.0)) in
    record {
      numbered = rest.numbered;
      covers = omega (arith, rest.covers);
      holds = (
        term_at-take (prev + 1) e.index _ _ rest.numbered first.numbered (omega arith) rest.before
            ∙ first.holds,
        rest.holds,
      );
      before =
          take-shorten prev (prev + 1) _ _ (omega arith) rest.before
          ∙ take-shorten prev (e.index - 1) _ _ (omega arith) first.before;
    }

pub append_entry_held :
    (log : List RaftLogEntry) (e : RaftLogEntry)
    → term_at log e.index ≡ some e.term
    → append_entry log e ≡ log
append_entry_held log e h = elim (Option-cases (entry_at log e.index)) [
  | inl missing ↦ cc (rw missing at h)
  | inr (x, found) ↦
      append_entry_same log e x found
        ((==_iff x.term e.term).1 (some-injective _ _ (rw found at h)))
]

-- Once every entry is in the log with its term, the loop changes nothing.
pub merge_entries_idem :
    (log entries : List RaftLogEntry)
    → All (λ e. term_at log e.index ≡ some e.term) entries
    → merge_entries log entries ≡ log
unfolding merge_entries
merge_entries_idem log [] h = refl
merge_entries_idem log (e ∷ es) h =
    ap (λ l. merge_entries l es) (append_entry_held log e h.0) ∙ merge_entries_idem log es h.1
