-- ===== src/Tests/Healths.antt =====
-- The health of a cluster at a concrete input: one of three voters is down.
use typesense_python.Base.{
  nat_eq, any, all, Str, codes, str_eq, text_eq, ◌≡◌, refl, true, false, none, [], ◌∷◌,
}
use typesense_python.Base.Count.{count}
use typesense_python.Health.{
  NodeHealth, is_voter_ready, status_of, is_unavailable, is_healthy, cluster_status, down, up,
}
use typesense_python.Health.Health.{degraded}
use typesense_python.Health.Status.{Voters, statuses, lacks_majority, cluster_status_lem}
use typesense_python.Tests.Data.{a, b, c}

abbrev voter : Str → NodeHealth
voter id = up id (record { ok = true; status = none; ready = none }) none

abbrev shard : Voters
shard = (voter a, voter b ∷ down c (codes "unavailable") false ∷ [])

reported : cluster_status (statuses (shard ∷ [])) ≡ degraded
unfolding cluster_status status_of count str_eq
reported = refl

cluster_status_lem_example :
    (is_unavailable (cluster_status (statuses (shard ∷ [])))
      ≡ any (λ (x : Voters). lacks_majority (x.0 ∷ x.1)) (shard ∷ []))
    × (is_healthy (cluster_status (statuses (shard ∷ [])))
        ≡ all (λ (x : Voters). all is_voter_ready (x.0 ∷ x.1)) (shard ∷ []))
cluster_status_lem_example = cluster_status_lem shard []
