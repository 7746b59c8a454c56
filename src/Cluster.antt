-- ===== src/Cluster.antt =====
-- src/typesense_lite/cluster.py: the cluster map. The configuration is given with its keys read and
-- `int` applied; `int(hashlib.sha256(...).hexdigest(), 16)` is the parameter `digest`.
pub mod Routing
use typesense_python.Base.{
  ltb, leb, ◌==◌, if◌then◌else◌, nat_eq, length, any, Str, codes, text_eq, ℕ, suc, ◌-◌, ◌%◌, Bool,
  true, false, Option, none, some, List, [], ◌∷◌, map,
}
use typesense_python.Base.Dict.{Dict, get, put}
use typesense_python.Base.Result.{Result, ok, raise, ◌>>=◌}
use typesense_python.Base.Result.Error.{key_error, value_error}
use typesense_python.Schemas.{ℤ, int_eq, NodeInfo, ShardPlacement}
use typesense_python.Schemas.ℤ.{pos, negsuc}

pub record ClusterConfig : Type 0 where
  pub coordinator_host : Str
  pub coordinator_port : ℕ
  pub count : ℤ
  pub node_list : List NodeInfo
  pub shard_list : List ShardPlacement

pub record ClusterMap : Type 0 where
  pub coordinator : NodeInfo
  pub shard_count : ℤ
  pub nodes : Dict Str NodeInfo
  pub shards : Dict ℤ ShardPlacement

-- {node["id"]: NodeInfo(...) for node in config["nodes"]}
unfoldable pub nodes_by_id : Dict Str NodeInfo → List NodeInfo → Dict Str NodeInfo
nodes_by_id d [] = d
nodes_by_id d (node ∷ ns) = nodes_by_id (put d node.id node) ns

-- {int(shard_id): ShardPlacement(...) for shard_id, placement in config["shards"].items()}
unfoldable pub shards_by_id : Dict ℤ ShardPlacement → List ShardPlacement → Dict ℤ ShardPlacement
shards_by_id d [] = d
shards_by_id d (p ∷ ps) = shards_by_id (put d p.shard_id p) ps

-- shard_id < 0 or shard_id >= self.shard_count
unfoldable pub out_of_range : ℤ → ℤ → Bool
out_of_range (negsuc m) count = true
out_of_range (pos m) (negsuc n) = true
out_of_range (pos m) (pos n) = leb n m

abbrev pub is_unknown : Dict Str NodeInfo → Str → Bool
is_unknown nodes id = elim (get nodes id) [ none ↦ true | some node ↦ false ]

unfoldable pub validate_shards : ClusterMap → Dict ℤ ShardPlacement → Result (Unit {0})
validate_shards cluster [] = ok tt
validate_shards cluster ((shard_id, placement) ∷ rest) =
    if out_of_range shard_id cluster.shard_count
    then raise value_error
    else (if is_unknown cluster.nodes placement.primary
        then raise value_error
        else (if any (is_unknown cluster.nodes) placement.replicas
            then raise value_error
            else validate_shards cluster rest))

-- len(shards) != shard_count
unfoldable pub counts : ℕ → ℤ → Bool
counts n (pos m) = n == m
counts n (negsuc m) = false

-- shard_count <= 0
unfoldable pub is_positive : ℤ → Bool
is_positive (pos m) = ltb 0 m
is_positive (negsuc m) = false

unfoldable pub cluster_of : ClusterConfig → ClusterMap
cluster_of config = record {
  coordinator = record {
    id = codes "coordinator";
    host = config.coordinator_host;
    port = config.coordinator_port;
  };
  shard_count = config.count;
  nodes = nodes_by_id [] config.node_list;
  shards = shards_by_id [] config.shard_list;
}

unfoldable pub from_dict : ClusterConfig → Result ClusterMap
from_dict config =
    let cluster = cluster_of config in
    if is_positive config.count
    then (if counts (length cluster.shards) config.count
        then (validate_shards cluster cluster.shards >>= λ done. ok cluster)
        else raise value_error)
    else raise value_error

abbrev pub values {ℓ} : {K : Type ℓ} {V : Type 0} → Dict K V → List V
values d = map (λ (e : _ × _). e.1) d

unfoldable pub to_dict : ClusterMap → ClusterConfig
to_dict cluster = record {
  coordinator_host = cluster.coordinator.host;
  coordinator_port = cluster.coordinator.port;
  count = cluster.shard_count;
  node_list = values cluster.nodes;
  shard_list = values cluster.shards;
}

abbrev pub found {ℓ} : {A : Type ℓ} → Option A → Result A
found none = raise key_error
found (some a) = ok a

-- The remainder of a natural number by the shard count, as Python's `%` takes it. No map that `from_dict`
-- returns has a count of 0, where `%` raises.
unfoldable pub get_shard_id : (Str → ℕ) → ClusterMap → Str → ℤ
get_shard_id digest cluster document_id = elim cluster.shard_count [
  | pos n ↦ pos (digest document_id % n)
  | negsuc n ↦ let r = digest document_id % suc n in if r == 0 then pos 0 else negsuc (n - r)
]

unfoldable pub get_nodes : ClusterMap → List Str → Result (List NodeInfo)
get_nodes cluster [] = ok []
get_nodes cluster (id ∷ ids) =
    found (get cluster.nodes id) >>= λ node. get_nodes cluster ids >>= λ rest. ok (node ∷ rest)

unfoldable pub get_primary : ClusterMap → ℤ → Result NodeInfo
get_primary cluster shard_id =
    found (get cluster.shards shard_id) >>= λ placement. found (get cluster.nodes placement.primary)

unfoldable pub get_replicas : ClusterMap → ℤ → Result (List NodeInfo)
get_replicas cluster shard_id =
    found (get cluster.shards shard_id) >>= λ placement. get_nodes cluster placement.replicas

unfoldable pub get_shard_voters : ClusterMap → ℤ → Result (List NodeInfo)
get_shard_voters cluster shard_id = found (get cluster.shards shard_id) >>= λ placement.
    found (get cluster.nodes placement.primary) >>= λ primary.
    get_nodes cluster placement.replicas >>= λ replicas. ok (primary ∷ replicas)

unfoldable pub get_search_candidates : ClusterMap → ℤ → Result (List NodeInfo)
get_search_candidates cluster shard_id = get_primary cluster shard_id >>= λ primary.
    get_replicas cluster shard_id >>= λ replicas. ok (primary ∷ replicas)
