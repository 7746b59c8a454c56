-- ===== src/Coordinator/Nodes.antt =====
-- src/typesense_lite/coordinator.py: `register_node`, `heartbeat_node` and `cluster_nodes`, over the node
-- directory.
use typesense_python.Base.{nat_eq, Str, text_eq, ℕ, Bool, Option, List, map}
use typesense_python.Base.Order.{sort}
use typesense_python.Base.Result.{Result}
use typesense_python.Schemas.{NodeInfo}
use typesense_python.Index.{str_le}
use typesense_python.Cluster.{ClusterMap}
use typesense_python.NodeDirectory.{
  NodeLiveness, NodeDirectory, Registration, register, heartbeat, cleanup_expired, snapshot,
}

unfoldable pub register_node :
    NodeDirectory → ℕ → Str → Registration → NodeDirectory × Result NodeLiveness
register_node = register

unfoldable pub heartbeat_node : NodeDirectory → ℕ → Str → NodeDirectory × Option NodeLiveness
heartbeat_node = heartbeat

pub record ClusterNodes : Type 0 where
  pub static : List NodeInfo
  pub alive : List (NodeLiveness × ℕ)
  pub alive_timeout_seconds : ℕ

abbrev pub node_id_le : NodeLiveness × ℕ → NodeLiveness × ℕ → Bool
node_id_le (a, _) (b, _) = str_le a.node_id b.node_id

-- The clean-up reads the clock first, the snapshot reads it again.
unfoldable pub cluster_nodes :
    (ℕ → ℕ) → ClusterMap → NodeDirectory → ℕ → ℕ → NodeDirectory × ClusterNodes
cluster_nodes rounded cluster dir now later =
    let (cleaned, _) = cleanup_expired dir now in
    (
      cleaned,
      record {
        static = map (λ (e : Str × NodeInfo). e.1) cluster.nodes;
        alive =
            sort node_id_le
              (map (λ (e : Str × (NodeLiveness × ℕ)). e.1) (snapshot rounded cleaned later));
        alive_timeout_seconds = cleaned.alive_timeout;
      },
    )
