-- ===== src/Repair.antt =====
-- src/typesense_lite/repair.py: the comparison of the replicas of a shard with its primary, and the copying
-- of the documents that are missing. `NodeApi` is what is called over HTTP.
pub mod Copies
pub mod Converges
use typesense_python.Base.{
  if◌then◌else◌, nat_eq, length, filter, any, Str, str_eq, text_eq, ℕ, zero, suc, ◌+◌, Bool, true,
  false, not, Option, none, some, List, [], ◌∷◌, ◌++◌,
}
use typesense_python.Base.Dict.{Dict, get, put}
use typesense_python.Base.Order.{sort}
use typesense_python.Schemas.{ℤ, int_eq, Document, NodeInfo, ShardPlacement}
use typesense_python.Schemas.ℤ.{pos, negsuc}
use typesense_python.Index.{str_le}
use typesense_python.Cluster.{ClusterMap}

-- The three requests to a node, for a shard and a collection; `none` and `false` are an httpx.HTTPError.
pub record NodeApi (W : Type 0) : Type 0 where
  pub document_ids : W → NodeInfo → ℤ → Str → W × Option (List Str)
  pub fetch : W → NodeInfo → ℤ → Str → Str → W × Option Document
  pub store : W → NodeInfo → ℤ → Str → Document → W × Bool

abbrev pub is_among : Str → List Str → Bool
is_among d ids = any (λ j. str_eq j d) ids

-- set(ids), each id where it stands last
unfoldable pub distinct : List Str → List Str
distinct [] = []
distinct (d ∷ ids) = let rest = distinct ids in if is_among d rest then rest else d ∷ rest

-- sorted(set(left) - set(right))
unfoldable pub difference : List Str → List Str → List Str
difference left right = sort str_le (filter (λ d. not (is_among d right)) (distinct left))

-- What is found of one replica.
pub data ReplicaInfo : Type 0 where
  unavailable : ReplicaInfo
  compared : List Str → List Str → ReplicaInfo

-- What is found of a shard: its primary does not answer, or its replicas are compared.
pub data ShardInfo : Type 0 where
  primary_unavailable : Str → ShardInfo
  checked : Str → Dict Str ReplicaInfo → ShardInfo

abbrev pub info_of : List Str → Option (List Str) → ReplicaInfo
info_of primary_ids none = unavailable
info_of primary_ids (some replica_ids) =
    compared (difference primary_ids replica_ids) (difference replica_ids primary_ids)

pub record RepairResult : Type 0 where
  pub repaired : Dict Str (List Str)
  pub failed : Dict Str (List Str)

-- shard_info.get("replicas", {})
abbrev pub replicas_of : ShardInfo → Dict Str ReplicaInfo
replicas_of (primary_unavailable p) = []
replicas_of (checked p infos) = infos

-- A list that is not empty is entered.
abbrev pub enter : Dict Str (List Str) → Str → List Str → Dict Str (List Str)
enter d replica [] = d
enter d replica (i ∷ ids) = put d replica (i ∷ ids)

unfoldable pub count_ids : Dict Str (List Str) → ℕ
count_ids [] = 0
count_ids ((r, ids) ∷ d) = length ids + count_ids d

-- range(n)
unfoldable pub shards_from : ℕ → ℕ → List ℤ
shards_from i zero = []
shards_from i (suc n) = pos i ∷ shards_from (i + 1) n

abbrev pub shard_range : ℤ → List ℤ
shard_range (pos n) = shards_from 0 n
shard_range (negsuc n) = []

-- The primary of a shard, where the cluster has the shard and the node.
abbrev pub primary_of : ClusterMap → ShardPlacement → Option NodeInfo
primary_of cluster placement = get cluster.nodes placement.primary

module _ {W : Type 0} (api : NodeApi W) (cluster : ClusterMap) (collection : Str) where
  unfoldable pub check_replicas :
      W → ℤ → List Str → List Str → Dict Str ReplicaInfo → W × Dict Str ReplicaInfo
  check_replicas w shard primary_ids [] results = (w, results)
  check_replicas w shard primary_ids (replica ∷ replicas) results =
      elim (get cluster.nodes replica) [
        | none ↦ check_replicas w shard primary_ids replicas results
        | some node ↦
            let (w', ids) = api.document_ids w node shard collection in
            check_replicas w' shard primary_ids replicas
              (put results replica (info_of primary_ids ids))
      ]

  unfoldable pub check_shard_consistency : W → NodeInfo → ℤ → List Str → W × ShardInfo
  check_shard_consistency w primary shard replicas =
      let (w', ids) = api.document_ids w primary shard collection in
      elim ids [
        | none ↦ (w', primary_unavailable primary.id)
        | some primary_ids ↦
            let (w'', results) = check_replicas w' shard primary_ids replicas [] in
            (w'', checked primary.id results)
      ]

  -- The loop over the shards, with `shards_result`.
  unfoldable pub check_shards : W → List ℤ → Dict ℤ ShardInfo → W × Dict ℤ ShardInfo
  check_shards w [] results = (w, results)
  check_shards w (shard ∷ shards) results = elim (get cluster.shards shard) [
    | none ↦ check_shards w shards results
    | some placement ↦ elim (primary_of cluster placement) [
      | none ↦ check_shards w shards results
      | some primary ↦
          let (w', info) = check_shard_consistency w primary shard placement.replicas in
          check_shards w' shards (put results shard info)
    ]
  ]

  unfoldable pub check_consistency : W → W × Dict ℤ ShardInfo
  check_consistency w = check_shards w (shard_range cluster.shard_count) []

  -- The `try` of the inner loop; true says that the document has been written.
  unfoldable pub copy_document : W → NodeInfo → NodeInfo → ℤ → Str → W × Bool
  copy_document w primary node shard id =
      let (w', found) = api.fetch w primary shard collection id in
      elim found [
        | none ↦ (w', false)
        | some document ↦ api.store w' node shard collection document
      ]

  -- The loop over the missing ids, with `replica_repaired` and `replica_failed`.
  unfoldable pub copy_documents :
      W → NodeInfo → NodeInfo → ℤ → List Str → List Str → List Str → W × List Str × List Str
  copy_documents w primary node shard [] repaired failed = (w, repaired, failed)
  copy_documents w primary node shard (id ∷ ids) repaired failed =
      let (w', copied) = copy_document w primary node shard id in
      elim copied [
        | true ↦ copy_documents w' primary node shard ids (repaired ++ (id ∷ [])) failed
        | false ↦ copy_documents w' primary node shard ids repaired (failed ++ (id ∷ []))
      ]

  unfoldable pub repair_replica :
      W → NodeInfo → ℤ → Str → ReplicaInfo → RepairResult → W × RepairResult
  repair_replica w primary shard replica unavailable r = (w, r)
  repair_replica w primary shard replica (compared [] extra) r = (w, r)
  repair_replica w primary shard replica (compared (i ∷ missing) extra) r =
      elim (get cluster.nodes replica) [
        | none ↦ (w, r)
        | some node ↦
            let (w', repaired, failed) = copy_documents w primary node shard (i ∷ missing) [] [] in
            (
              w',
              record {
                repaired = enter r.repaired replica repaired;
                failed = enter r.failed replica failed;
              },
            )
      ]

  unfoldable pub repair_replicas :
      W → NodeInfo → ℤ → Dict Str ReplicaInfo → RepairResult → W × RepairResult
  repair_replicas w primary shard [] r = (w, r)
  repair_replicas w primary shard ((replica, info) ∷ infos) r =
      let (w', r') = repair_replica w primary shard replica info r in
      repair_replicas w' primary shard infos r'

  unfoldable pub repair_shard : W → NodeInfo → ℤ → Dict Str ReplicaInfo → W × RepairResult
  repair_shard w primary shard infos =
      repair_replicas w primary shard infos (record { repaired = []; failed = [] })

  -- The loop over what was found, with `shards_result` and `total_repaired`.
  unfoldable pub repair_shards :
      W → Dict ℤ ShardInfo → Dict ℤ RepairResult → ℕ → W × Dict ℤ RepairResult × ℕ
  repair_shards w [] results total = (w, results, total)
  repair_shards w ((shard, info) ∷ infos) results total = elim (get cluster.shards shard) [
    | none ↦ repair_shards w infos results total
    | some placement ↦ elim (primary_of cluster placement) [
      | none ↦ repair_shards w infos results total
      | some primary ↦
          let (w', r) = repair_shard w primary shard (replicas_of info) in
          repair_shards w' infos (put results shard r) (total + count_ids r.repaired)
    ]
  ]

  unfoldable pub repair_collection : W → W × Dict ℤ RepairResult × ℕ
  repair_collection w = let (w', infos) = check_consistency w in repair_shards w' infos [] 0
