-- ===== src/LeaderDirectory/Verified.antt =====
-- src/typesense_lite/leader_directory.py: a refresh keeps nothing but a voter that has just said it leads.
use typesense_python.Base.{
  Bool-cases, Option-cases, nat_eq, drop, Str, str_eq, text_eq, ℕ, suc, ◌≡◌, refl, ap, inl, inr,
  true, Option, none, some, [], ◌∷◌, arith,
}
use typesense_python.Base.Dict.{Dict, get, put, remove}
use typesense_python.Schemas.{ℤ, int_eq, NodeInfo}
use mathlib.Core.Path.{subst}
use typesense_python.LeaderDirectory.{
  Ask, Leaders, says_leader, next_hint, poll, verify_leader, try_hint, refresh_voters,
}

-- The node, asked in some state of the world, said that it leads the shard.
abbrev pub SaidLeader : {W : Type 0} → Ask W → ℤ → NodeInfo → Type 0
SaidLeader {W = W} ask shard node = (w : W) × (says_leader (ask w shard node).1 ≡ true)

-- The node is one of the voters.
abbrev pub Among : NodeInfo → Dict Str NodeInfo → Type 0
Among node voters =
    (i : ℕ) × (id : Str) × (rest : Dict Str NodeInfo) × (drop i voters ≡ (id, node) ∷ rest)

module _ {W : Type 0} (ask : Ask W) where
  poll_lem :
      (w : W) (shard : ℤ) (hint : Option Str) (voters : Dict Str NodeInfo) (node : NodeInfo)
      → (poll ask w shard hint voters).1 ≡ some node
      → SaidLeader ask shard node × Among node voters
  unfolding poll
  poll_lem w shard hint [] node h = absurd (ground arith)
  poll_lem w shard hint ((id, n) ∷ voters) node h =
      elim (Bool-cases (says_leader (ask w shard n).1)) [
        | inl e ↦
            let same : n ≡ node = ground (arith, h, e) in
            (
              subst (SaidLeader ask shard) same (w, e),
              (0, id, voters, ap (λ x. (id, x) ∷ voters) same),
            )
        | inr e ↦
            let (said, (i, k, rest, d)) =
              poll_lem (ask w shard n).0 shard (next_hint (ask w shard n).1 hint) voters node
                (ground (arith, e, h)) in
            (said, (suc i, k, rest, d))
      ]

  get-Among :
      (voters : Dict Str NodeInfo) (id : Str) (node : NodeInfo)
      → get voters id ≡ some node
      → Among node voters
  unfolding get
  get-Among [] id node h = absurd (ground arith)
  get-Among ((j, n) ∷ voters) id node h = elim (Bool-cases (str_eq j id)) [
    | inl e ↦ (0, j, voters, ap (λ x. (j, x) ∷ voters) (ground (arith, h, e)))
    | inr e ↦
        let (i, k, rest, d) = get-Among voters id node (ground (arith, h, e)) in (suc i, k, rest, d)
  ]

  -- What a refresh makes of the cache: a leader that it returns is a voter that has said it leads and
  -- takes the shard's entry, and without one the entry goes.
  abbrev pub Right : Leaders → ℤ → Dict Str NodeInfo → W × Leaders × Option NodeInfo → Type 0
  Right leaders shard voters r = elim (r.2) [
    | none ↦ r.1 ≡ remove leaders shard
    | some node ↦ SaidLeader ask shard node × Among node voters × (r.1 ≡ put leaders shard node)
  ]

  removed-Right :
      (w : W) (leaders : Leaders) (shard : ℤ) (voters : Dict Str NodeInfo)
      → Right leaders shard voters (w, remove leaders shard, none)
  removed-Right w leaders shard voters = refl

  kept-Right :
      (w : W) (leaders : Leaders) (shard : ℤ) (voters : Dict Str NodeInfo) (n : NodeInfo)
      → SaidLeader ask shard n
      → Among n voters
      → Right leaders shard voters (w, put leaders shard n, some n)
  kept-Right w leaders shard voters n said among = (said, among, refl)

  try_hint-Right :
      (w : W) (leaders : Leaders) (shard : ℤ) (voters : Dict Str NodeInfo) (hint : Option Str)
      → Right leaders shard voters (try_hint ask w leaders shard voters hint)
  unfolding try_hint verify_leader
  try_hint-Right w leaders shard voters none = removed-Right w leaders shard voters
  try_hint-Right w leaders shard voters (some id) = elim (Option-cases (get voters id)) [
    | inl e ↦ rw (try_hint, e) (removed-Right w leaders shard voters)
    | inr (n, e) ↦ elim (Bool-cases (says_leader (ask w shard n).1)) [
      | inl s ↦
          rw (try_hint, e, s)
            (kept-Right (ask w shard n).0 leaders shard voters n (w, s) (get-Among voters id n e))
      | inr s ↦ rw (try_hint, e, s) (removed-Right (ask w shard n).0 leaders shard voters)
    ]
  ]

  -- A refresh that returns a leader returns one of the voters, which has said that it leads, and writes
  -- it to the cache; a refresh that returns none drops the shard from the cache. Other shards keep
  -- their entries.
  pub refresh_voters_lem :
      (w : W) (leaders : Leaders) (shard : ℤ) (voters : Dict Str NodeInfo)
      → Right leaders shard voters (refresh_voters ask w leaders shard voters)
  unfolding refresh_voters
  refresh_voters_lem w leaders shard voters = elim (Option-cases (poll ask w shard none voters).1) [
    | inl e ↦
        rw (refresh_voters, e)
          (try_hint-Right (poll ask w shard none voters).0 leaders shard voters
            (poll ask w shard none voters).2)
    | inr (n, e) ↦
        let (said, among) = poll_lem w shard none voters n e in
        rw (refresh_voters, e)
          (kept-Right (poll ask w shard none voters).0 leaders shard voters n said among)
  ]
