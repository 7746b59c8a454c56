-- ===== src/Health/Status.antt =====
-- src/typesense_lite/health.py: what the status of the cluster says of the voters.
use typesense_python.Base.{
  ltb, leb, ◌==◌, if◌then◌else◌, Bool-cases, nat_eq, length, any, all, text_eq, ℕ, suc, ◌+◌, ◌/◌,
  ◌≤◌, ◌≡◌, refl, sym, ◌∙◌, inl, inr, Bool, true, false, ◌&&◌, List, [], ◌∷◌, map, arith,
}
use typesense_python.Base.Count.{count}
use typesense_python.Health.{
  NodeHealth, Health, is_voter_ready, status_of, is_unavailable, is_healthy, cluster_status,
}
use typesense_python.Health.Health.{healthy, degraded, unavailable}

count-all :
    (voters : List NodeHealth)
    → (count is_voter_ready voters ≤ length voters)
      × ((count is_voter_ready voters == length voters) ≡ all is_voter_ready voters)
unfolding count
count-all [] = ground arith
count-all (v ∷ vs) = let (le, same) = count-all vs in ground (arith, le, same)

-- Less than a majority of the voters is ready.
abbrev pub lacks_majority : List NodeHealth → Bool
lacks_majority voters = ltb (count is_voter_ready voters) (length voters / 2 + 1)

abbrev grade : ℕ → ℕ → Health
grade n r =
    if ltb 0 n && (r == n) then healthy else if leb (n / 2 + 1) r then degraded else unavailable

grade_healthy : (n r : ℕ) → is_healthy (grade (suc n) r) ≡ (r == suc n)
grade_healthy n r = ground arith

grade_unavailable : (n r : ℕ) → r ≤ suc n → is_unavailable (grade (suc n) r) ≡ ltb r (suc n / 2 + 1)
grade_unavailable n r h = ground arith

status_of_lem :
    (v : NodeHealth) (vs : List NodeHealth)
    → (is_healthy (status_of (v ∷ vs)) ≡ all is_voter_ready (v ∷ vs))
      × (is_unavailable (status_of (v ∷ vs)) ≡ lacks_majority (v ∷ vs))
unfolding status_of
status_of_lem v vs =
    let (le, same) = count-all (v ∷ vs) in
    (
      grade_healthy (length vs) (count is_voter_ready (v ∷ vs)) ∙ same,
      grade_unavailable (length vs) (count is_voter_ready (v ∷ vs)) le,
    )

-- The voters of a shard, of which there is one at least, its primary.
abbrev pub Voters : Type 0
Voters = NodeHealth × List NodeHealth

abbrev pub statuses : List Voters → List Health
statuses shards = map (λ (s : Voters). status_of (s.0 ∷ s.1)) shards

any-lacks :
    (shards : List Voters)
    → any is_unavailable (statuses shards) ≡ any (λ (s : Voters). lacks_majority (s.0 ∷ s.1)) shards
any-lacks [] = refl
any-lacks ((v, vs) ∷ shards) = rw ((status_of_lem v vs).1, any-lacks shards) refl

all-ready :
    (shards : List Voters)
    → all is_healthy (statuses shards) ≡ all (λ (s : Voters). all is_voter_ready (s.0 ∷ s.1)) shards
all-ready [] = refl
all-ready ((v, vs) ∷ shards) = rw ((status_of_lem v vs).0, all-ready shards) refl

not_both : (xs : List Health) → any is_unavailable xs ≡ true → all is_healthy xs ≡ false
not_both [] h = absurd (ground (arith, h))
not_both (healthy ∷ xs) h = not_both xs h
not_both (degraded ∷ xs) h = refl
not_both (unavailable ∷ xs) h = refl

verdict :
    (x : Health) (xs : List Health)
    → (is_unavailable (cluster_status (x ∷ xs)) ≡ any is_unavailable (x ∷ xs))
      × (is_healthy (cluster_status (x ∷ xs)) ≡ all is_healthy (x ∷ xs))
unfolding cluster_status
verdict x xs = elim (Bool-cases (any is_unavailable (x ∷ xs))) [
  | inl e ↦ rw e (refl, sym (not_both (x ∷ xs) e))
  | inr e ↦ elim (Bool-cases (all is_healthy (x ∷ xs))) [
    | inl f ↦ rw (e, f) (refl, refl)
    | inr f ↦ rw (e, f) (refl, refl)
  ]
]

-- A cluster of one shard at least is reported as unavailable if and only if less than a majority of the
-- voters of some shard is ready. It is reported as healthy if and only if all voters of all shards are
-- ready.
pub cluster_status_lem :
    (s : Voters) (shards : List Voters)
    → (is_unavailable (cluster_status (statuses (s ∷ shards)))
        ≡ any (λ (x : Voters). lacks_majority (x.0 ∷ x.1)) (s ∷ shards))
      × (is_healthy (cluster_status (statuses (s ∷ shards)))
          ≡ all (λ (x : Voters). all is_voter_ready (x.0 ∷ x.1)) (s ∷ shards))
unfolding cluster_status
cluster_status_lem s shards =
    let (u, h) = verdict (status_of (s.0 ∷ s.1)) (statuses shards) in
    (u ∙ any-lacks (s ∷ shards), h ∙ all-ready (s ∷ shards))
