-- ===== src/Tests/Searches.antt =====
-- The search over the shards at a concrete input: the primary is not ready, its replica answers.
use typesense_python.Base.{
  if◌then◌else◌, nat_eq, Str, codes, str_eq, text_eq, ℕ, suc, ◌≡◌, refl, List, [], ◌∷◌,
}
use typesense_python.Base.Dict.{get}
use typesense_python.Base.Result.{ok}
use typesense_python.Schemas.{ℤ, int_eq, int_beq, NodeInfo}
use typesense_python.Schemas.ℤ.{pos}
use typesense_python.Cluster.{
  ClusterMap, get_search_candidates, get_primary, get_replicas, get_nodes,
}
use typesense_python.HttpClient.{HttpReply, get_with_retry, get_attempts}
use typesense_python.Coordinator.Search.RecoveryBody.{without_shards}
use typesense_python.Coordinator.Search.{
  RecoveryReply, search_shard, gather_hits, search_candidates, node_shard_ready, search_node,
  reply_is_ready,
}
use typesense_python.HttpClient.HttpReply.{answered, status_error}
use typesense_python.Coordinator.Search.Gathered.{gathered}
use typesense_python.Coordinator.Search.Failover.{Ended, search_shard-Ended}
use typesense_python.Tests.Data.{a, b}

code : Unit {0}
unfolding get str_eq int_beq get_search_candidates get_primary get_replicas get_nodes search_shard
    gather_hits search_candidates node_shard_ready search_node get_with_retry get_attempts
    reply_is_ready
code = tt

abbrev node : Str → NodeInfo
node id = record { id = id; host = codes "localhost"; port = 8108 }

abbrev cluster : ClusterMap
cluster = record {
  coordinator = node (codes "c");
  shard_count = pos 1;
  nodes = (a, node a) ∷ (b, node b) ∷ [];
  shards = (pos 0, record { shard_id = pos 0; primary = a; replicas = b ∷ [] }) ∷ [];
}

-- The world counts the requests.
abbrev state : ℕ → NodeInfo → ℕ × RecoveryReply
state w n = (suc w, if str_eq n.id b then answered without_shards else status_error 503)

abbrev query : ℤ → ℕ → NodeInfo → ℕ × HttpReply (List Str)
query shard w n = (suc w, answered (codes "hit" ∷ []))

candidates : get_search_candidates cluster (pos 0) ≡ ok (node a ∷ node b ∷ [])
unfolding code
candidates = refl

served : (gather_hits state query cluster 0 (pos 0 ∷ []) [] []).1 ≡ gathered (codes "hit" ∷ []) []
unfolding code
served = refl

search_shard-Ended_example :
    Ended state query cluster
      (pos 0)
      0
      (node a ∷ node b ∷ [])
      []
      (search_shard state query cluster 0 (pos 0)).1
search_shard-Ended_example =
    search_shard-Ended state query cluster (pos 0) 0 (node a ∷ node b ∷ []) candidates
