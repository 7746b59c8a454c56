-- ===== src/Raft/Log/Numbered.antt =====
-- Logs whose entries are numbered consecutively: lookup, truncation and appending.
use typesense_python.Base.{
  ℕ, zero, suc, ◌+◌, ◌≤◌, ◌<◌, ◌≡◌, refl, none, some, List, [], ◌∷◌, ◌++◌, length, take, drop,
  filter, ltb, ◌==◌, arith, Bool-cases, inl, inr, ◌≢◌,
}
use native.Mathlib.Nat.{add-zero}
use typesense_python.Raft.Types.{RaftLogEntry}
use typesense_python.Raft.Log.{entry_at, last_index}

-- The entries have the indices n + 1, n + 2, ...
abbrev pub Numbered : ℕ → List RaftLogEntry → Type 0
Numbered n [] = Unit
Numbered n (e ∷ log) = (e.index ≡ n + 1) × Numbered (n + 1) log

pub take-Numbered : (n k : ℕ) (log : List RaftLogEntry) → Numbered n log → Numbered n (take k log)
take-Numbered n zero log h = tt
take-Numbered n (suc k) [] h = tt
take-Numbered n (suc k) (e ∷ log) h = (h.0, take-Numbered (n + 1) k log h.1)

pub Numbered-snoc :
    (n : ℕ) (log : List RaftLogEntry) (e : RaftLogEntry)
    → Numbered n log
    → e.index ≡ n + length log + 1
    → Numbered n (log ++ e ∷ [])
Numbered-snoc n [] e h i = (omega arith, tt)
Numbered-snoc n (x ∷ log) e h i = (h.0, Numbered-snoc (n + 1) log e h.1 (omega arith))

pub entry_at_low :
    (n i : ℕ) (log : List RaftLogEntry) → Numbered n log → i ≤ n → entry_at log i ≡ none
unfolding entry_at
entry_at_low n i [] h b = refl
entry_at_low n i (e ∷ log) h b = ground (arith, entry_at_low (n + 1) i log h.1 (omega arith))

pub entry_at_high :
    (n i : ℕ) (log : List RaftLogEntry)
    → Numbered n log
    → n + length log < i
    → entry_at log i ≡ none
unfolding entry_at
entry_at_high n i [] h b = refl
entry_at_high n i (e ∷ log) h b = ground (arith, entry_at_high (n + 1) i log h.1 (omega arith))

pub entry_at_within :
    (n i : ℕ) (log : List RaftLogEntry)
    → Numbered n log
    → n < i
    → i ≤ n + length log
    → (e : RaftLogEntry) × (entry_at log i ≡ some e) × (e.index ≡ i)
unfolding entry_at
entry_at_within n i [] h a b = absurd (omega arith)
entry_at_within n i (e ∷ log) h a b = elim (Bool-cases (e.index == i)) [
  | inl here ↦ (e, rw here, ground arith)
  | inr further ↦ rw further (entry_at_within (n + 1) i log h.1 (ground arith) (omega arith))
]

pub entry_at-take :
    (n k i : ℕ) (log : List RaftLogEntry)
    → Numbered n log
    → i ≤ n + k
    → entry_at (take k log) i ≡ entry_at log i
unfolding entry_at
entry_at-take n zero i log h b = rw (entry_at_low n i log h (omega arith))
entry_at-take n (suc k) i [] h b = refl
entry_at-take n (suc k) i (e ∷ log) h b =
    ground (arith, entry_at-take (n + 1) k i log h.1 (omega arith))

filter-none :
    (n i : ℕ) (log : List RaftLogEntry)
    → Numbered n log
    → i ≤ n + 1
    → filter (λ item. ltb item.index i) log ≡ []
filter-none n i [] h b = refl
filter-none n i (e ∷ log) h b = ground (arith, filter-none (n + 1) i log h.1 (omega arith))

-- Keeping the entries below an index is taking a prefix.
pub filter-take :
    (n k i : ℕ) (log : List RaftLogEntry)
    → Numbered n log
    → i ≡ n + k + 1
    → filter (λ item. ltb item.index i) log ≡ take k log
filter-take n zero i [] h b = refl
filter-take n (suc k) i [] h b = refl
filter-take n zero i (e ∷ log) h b = ground (arith, filter-none (n + 1) i log h.1 (omega arith))
filter-take n (suc k) i (e ∷ log) h b =
    ground (arith, filter-take (n + 1) k i log h.1 (omega arith))

pub last_index-eq-length :
    (n : ℕ) (log : List RaftLogEntry)
    → Numbered n log
    → length log ≢ 0
    → last_index log ≡ n + length log
unfolding last_index
last_index-eq-length n [] h b = absurd (b refl)
last_index-eq-length n (e ∷ []) h b = omega arith
last_index-eq-length n (e ∷ x ∷ log) h b =
    omega (arith, last_index-eq-length (n + 1) (x ∷ log) h.1 (omega arith))

pub drop-Numbered :
    (n j k : ℕ) (log : List RaftLogEntry) → Numbered n log → k ≡ n + j → Numbered k (drop j log)
drop-Numbered n zero k log h q = rw (q, add-zero) h
drop-Numbered n (suc j) k [] h q = tt
drop-Numbered n (suc j) k (e ∷ log) h q = drop-Numbered (n + 1) j k log h.1 (omega arith)
