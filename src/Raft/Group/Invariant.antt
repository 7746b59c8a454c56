-- ===== src/Raft/Group/Invariant.antt =====
-- What holds in every reachable state of a group: who voted for whom, and that a leader has a majority.
use typesense_python.Base.{
  ℕ, ◌+◌, ◌*◌, ◌≤◌, ◌<◌, ◌≡◌, ◌∙◌, sym, ap, inl, inr, ◌&&◌, not, Str, str_eq, str_eq_iff, Bool,
  true, false, Option, none, some, List, [], ◌∷◌, length, All, arith, Bool-cases,
}
use mathlib.Core.Option.{some-injective}
use typesense_python.Base.Count.{count, overlap}
use typesense_python.Raft.Types.{leader}
use typesense_python.Raft.Core.{is_member}
use typesense_python.Raft.Group.{Group}

abbrev pub voted_is : Option Str → Str → Bool
voted_is none n = false
voted_is (some c) n = str_eq c n

abbrev pub Ballots : Type 0
Ballots = Str → ℕ → Option Str

-- More than half of the members voted for `n` in the term.
abbrev pub Quorum : List Str → Ballots → ℕ → Str → Type 0
Quorum members ballots t n = length members < 2 * count (λ m. voted_is (ballots m t) n) members

abbrev pub IsDistinct : List Str → Type 0
IsDistinct [] = Unit
IsDistinct (s ∷ l) = (is_member l s ≡ false) × IsDistinct l

-- The members that `n` counted did vote for it in the term of its request.
abbrev pub Supports : List Str → Ballots → Str → ℕ → List Str → Type 0
Supports members ballots n t l =
    All (λ s. (is_member members s ≡ true) × (ballots s t ≡ some n)) l × IsDistinct l

pub record Inv (members : List Str) (g : Group) : Type 0 where
  pub ids : (n : Str) → (g.node n).core.node_id ≡ n
  pub groups : (n : Str) → (g.node n).core.members ≡ members
  pub voted :
      (m c : Str)
      → g.ballots m (g.node m).core.current_term ≡ some c
      → (g.node m).core.voted_for ≡ some c
  pub future : (m : Str) (t : ℕ) → (g.node m).core.current_term < t → g.ballots m t ≡ none
  pub elected :
      (n : Str)
      → (g.node n).core.role ≡ leader
      → Quorum members g.ballots (g.node n).core.current_term n
  pub supported : (n : Str) → Supports members g.ballots n (g.asked n) (g.supporters n)

-- The ballots for a candidate that pass one test pass another.
pub count-le :
    (p q : Str → Bool) (l : List Str)
    → ((s : Str) → p s ≡ true → q s ≡ true)
    → count p l ≤ count q l
unfolding count
count-le p q [] h = omega arith
count-le p q (s ∷ l) h = ground (arith, count-le p q l h, h s)

abbrev except : (Str → Bool) → Str → Str → Bool
except p s x = p x && not (str_eq x s)

count-except :
    (p : Str → Bool) (s : Str) (members : List Str)
    → is_member members s ≡ true
    → p s ≡ true
    → count (except p s) members + 1 ≤ count p members
unfolding count
count-except p s [] h hp = cc
count-except p s (x ∷ l) h hp = elim (Bool-cases (str_eq x s)) [
  | inl here ↦
      let e : p x ≡ true = ap p ((str_eq_iff x s).0 here) ∙ hp in
      rw (here, e) (omega (arith, count-le (except p s) p l (λ y q. ground arith)))
  | inr there ↦
      let rest = count-except p s l (rw there at h) hp in
      elim (Bool-cases (p x)) [
        | inl e ↦ rw (there, e) (omega (arith, rest))
        | inr e ↦ rw (there, e) (omega (arith, rest))
      ]
]

abbrev pub Passes : (Str → Bool) → List Str → List Str → Type 0
Passes p members l = All (λ s. (is_member members s ≡ true) × (p s ≡ true)) l

Passes-except :
    (p : Str → Bool) (s : Str) (members l : List Str)
    → Passes p members l
    → is_member l s ≡ false
    → Passes (except p s) members l
Passes-except p s members [] h d = tt
Passes-except p s members (x ∷ l) h d =
    ((h.0.0, ground (arith, h.0.1)), Passes-except p s members l h.1 (ground arith))

-- Distinct members that pass a test are counted by it.
pub length-le-count :
    (p : Str → Bool) (members l : List Str)
    → Passes p members l
    → IsDistinct l
    → length l ≤ count p members
length-le-count p members [] h d = omega arith
length-le-count p members (s ∷ l) h d = omega (
  arith,
  count-except p s members h.0.0 h.0.1,
  length-le-count (except p s) members l (Passes-except p s members l h.1 d.0) d.1,
)

pub voted_is→eq : (o : Option Str) (n : Str) → voted_is o n ≡ true → o ≡ some n
voted_is→eq none n h = cc
voted_is→eq (some c) n h = ap some ((str_eq_iff c n).0 h)

-- Two leaders of one term are one node.
pub leaders_agree :
    (members : List Str) (g : Group) (a b : Str)
    → Inv members g
    → (g.node a).core.role ≡ leader
    → (g.node b).core.role ≡ leader
    → (g.node a).core.current_term ≡ (g.node b).core.current_term
    → a ≡ b
leaders_agree members g a b inv la lb same =
    let qa = inv.elected a la in
    let qb : Quorum members g.ballots (g.node a).core.current_term b = rw same (inv.elected b lb) in
    let (m, va, vb) =
      overlap (λ m. voted_is (g.ballots m (g.node a).core.current_term) a)
        (λ m. voted_is (g.ballots m (g.node a).core.current_term) b) members (omega arith) in
    some-injective a b (sym (voted_is→eq _ a va) ∙ voted_is→eq _ b vb)
