-- ===== src/Coordinator/Search/Complete.antt =====
-- src/typesense_lite/coordinator.py: a search over all shards that has no warning.
use typesense_python.Base.{nat_eq, drop, text_eq, ℕ, ◌≡◌, List, ◌∷◌}
use typesense_python.Base.Result.{ok}
use typesense_python.Schemas.{ℤ, NodeInfo}
use typesense_python.Cluster.{ClusterMap, get_search_candidates}
use typesense_python.HttpClient.{HttpReply}
use typesense_python.Coordinator.Search.{RecoveryReply}
use typesense_python.Coordinator.Search.Failover.{IsReliable, NoneRaises}

module _ {W H : Type 0} (state : W → NodeInfo → W × RecoveryReply)
    (query : ℤ → W → NodeInfo → W × HttpReply (List H)) (cluster : ClusterMap) where
  -- One of the candidates of a shard is reliable, and none raises.
  pub record Covered (shard : ℤ) : Type 0 where
    pub nodes : List NodeInfo
    pub known : get_search_candidates cluster shard ≡ ok nodes
    pub place : ℕ
    pub node : NodeInfo
    pub rest : List NodeInfo
    pub among : drop place nodes ≡ node ∷ rest
    pub calm : NoneRaises state query cluster shard
    pub reliable : IsReliable state query cluster shard node
