-- ===== src/Tests/Directory.antt =====
-- The coordinator's node directory at concrete inputs.
use typesense_python.Base.{nat_eq, All, codes, text_eq, ◌≡◌, refl, none, List, [], ◌∷◌}
use typesense_python.Base.Dict.{get}
use typesense_python.Schemas.ℤ.{pos}
use typesense_python.Cluster.{ClusterMap}
use typesense_python.NodeDirectory.{NodeDirectory, cleanup_expired}
use typesense_python.NodeDirectory.Leases.{Event, contacts, lease, run, run-contacts}
use typesense_python.NodeDirectory.Leases.Event.{registers, beats, cleans}
use typesense_python.NodeDirectory.Expired.{is_listed, has_expired, cleanup_expired_lem}
use typesense_python.Coordinator.Nodes.{cluster_nodes}
use typesense_python.Coordinator.Alive.{IsYoung, cluster_nodes-IsYoung}
use typesense_python.Tests.Data.{a, b}

abbrev empty : NodeDirectory
empty = record { nodes = []; alive_timeout = 30 }

-- Node `b` falls silent.
abbrev events : List Event
events =
    registers 0 a (codes "localhost", 8108, codes "data")
    ∷ registers 1 b (codes "localhost", 8109, codes "data")
    ∷ beats 35 a
    ∷ cleans 40
    ∷ []

run-contacts_example : get (run empty events).nodes b ≡ contacts 30 b none events
unfolding get
run-contacts_example = run-contacts empty events b tt

abbrev entry_a : NodeDirectory
entry_a = record {
  nodes =
      (
        a,
        record {
          node_id = a;
          host = codes "localhost";
          port = 8108;
          role = codes "data";
          last_seen = 35;
          registered_at = 0;
        },
      )
      ∷ [];
  alive_timeout = 30;
}

cleanup_expired_lem_example :
    (get (cleanup_expired entry_a 70).0.nodes a ≡ lease 30 70 (get entry_a.nodes a))
    × (is_listed a (cleanup_expired entry_a 70).1 ≡ has_expired 30 70 (get entry_a.nodes a))
unfolding get
cleanup_expired_lem_example = cleanup_expired_lem entry_a 70 a (refl, tt)

abbrev cluster : ClusterMap
cluster = record {
  coordinator = record { id = codes "coordinator"; host = codes "localhost"; port = 8100 };
  shard_count = pos 1;
  nodes = [];
  shards = [];
}

cluster_nodes-IsYoung_example :
    All (IsYoung (λ t. t) 30 40 67) (cluster_nodes (λ t. t) cluster entry_a 40 67).1.alive
unfolding get
cluster_nodes-IsYoung_example = cluster_nodes-IsYoung (λ t. t) cluster entry_a 40 67 (refl, tt)
