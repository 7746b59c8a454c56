-- ===== src/Health.antt =====
-- src/typesense_lite/health.py: the health of the nodes, of the shards and of the cluster. The two requests to
-- a node are parameters; error texts and URLs are left out.
pub mod Status
use typesense_python.Base.{
  ltb, leb, ◌==◌, if◌then◌else◌, nat_eq, length, any, all, Str, codes, str_eq, text_eq, ◌+◌, ◌/◌,
  Bool, true, false, ◌&&◌, Option, none, some, List, [], ◌∷◌, map,
}
use typesense_python.Base.Count.{count}
use typesense_python.Base.Dict.{Dict, get, put}
use typesense_python.Base.Result.{Result, ok, raise}
use typesense_python.Base.Result.Error.{key_error}
use typesense_python.Schemas.{ℤ, int_eq, NodeInfo, ShardPlacement}
use typesense_python.Cluster.{ClusterMap}
use typesense_python.HttpClient.{HttpReply, get_with_retry}
use typesense_python.HttpClient.HttpReply.{answered, status_error, failed_call, raised}

-- An entry of "shards" of a recovery state: its status, and whether its "ready" is true.
pub record ShardEntry : Type 0 where
  pub status : Option Str
  pub ready : Bool

-- A recovery state with "shards"; an entry that is no dict is `none`.
pub record RecoveryPayload : Type 0 where
  pub status : Option Str
  pub ready : Bool
  pub shards : Dict ℤ (Option ShardEntry)

-- What is read of the answer of /health; `ready` is the truth of its "ready", if it has one.
pub record HealthPayload : Type 0 where
  pub ok : Bool
  pub status : Option Str
  pub ready : Option Bool

pub record NodeHealth : Type 0 where
  pub node : Str
  pub ok : Bool
  pub status : Str
  pub ready : Bool
  pub recovery : Option RecoveryPayload
  pub live : Bool

-- str(value or default)
abbrev pub text_or : Option Str → Str → Str
text_or none default = default
text_or (some []) default = default
text_or (some (c ∷ s)) default = c ∷ s

abbrev pub down : Str → Str → Bool → NodeHealth
down node status live = record {
  node = node;
  ok = false;
  status = status;
  ready = false;
  recovery = none;
  live = live;
}

-- (recovery_payload or {}).get("status")
abbrev pub recovery_status : Option RecoveryPayload → Option Str
recovery_status none = none
recovery_status (some r) = r.status

abbrev pub ready_of : Option RecoveryPayload → Option Bool → Bool
ready_of (some r) own = r.ready
ready_of none none = true
ready_of none (some b) = b

-- A node that says it is ok, with its recovery state.
abbrev pub up : Str → HealthPayload → Option RecoveryPayload → NodeHealth
up node payload recovery =
    let status = text_or (recovery_status recovery) (text_or payload.status (codes "healthy")) in
    let ready = ready_of recovery payload.ready in
    record {
      node = node;
      ok = ready && str_eq status (codes "healthy");
      status = status;
      ready = ready;
      recovery = recovery;
      live = true;
    }

-- `_get_recovery_state` and what follows: a 404 is a node without a recovery state.
unfoldable pub with_recovery : Str → HealthPayload → HttpReply (Option RecoveryPayload) → NodeHealth
with_recovery node payload (answered r) = up node payload r
with_recovery node payload (status_error s) =
    if s == 404 then up node payload none else down node (codes "unavailable") false
with_recovery node payload failed_call = down node (codes "unavailable") false
with_recovery node payload raised = down node (codes "failed") false

pub data Health : Type 0 where
  healthy : Health
  degraded : Health
  unavailable : Health

pub record ShardHealth : Type 0 where
  pub shard_id : ℤ
  pub status : Health
  pub primary : NodeHealth
  pub replicas : List NodeHealth

-- `_shard_member_health` with the entry of the shard.
abbrev pub member_of : NodeHealth → Option (Option ShardEntry) → NodeHealth
member_of node (some (some entry)) =
    let status = text_or entry.status (codes "starting") in
    let ready = entry.ready && str_eq status (codes "healthy") in
    record node { ok = node.live && ready; status = status; ready = ready }
member_of node _ = record node { ok = false; status = codes "starting"; ready = false }

unfoldable pub shard_member_health : NodeHealth → ℤ → NodeHealth
shard_member_health node shard = elim node.recovery [
  | none ↦ node
  | some r ↦ member_of node (get r.shards shard)
]

-- nodes.get(id, NodeHealth(...))
abbrev pub found_or_down : Str → Option NodeHealth → NodeHealth
found_or_down id none = down id (codes "unavailable") false
found_or_down id (some n) = n

abbrev pub member : Dict Str NodeHealth → ℤ → Str → NodeHealth
member nodes shard id = shard_member_health (found_or_down id (get nodes id)) shard

abbrev pub is_voter_ready : NodeHealth → Bool
is_voter_ready n = n.ready

unfoldable pub status_of : List NodeHealth → Health
status_of voters =
    let ready_voters = count is_voter_ready voters in
    if (ltb 0 (length voters)) && (ready_voters == length voters)
    then healthy
    else if leb (length voters / 2 + 1) ready_voters
    then degraded
    else unavailable

unfoldable pub shard_health : Dict Str NodeHealth → ℤ → ShardPlacement → ShardHealth
shard_health nodes shard placement =
    let primary = member nodes shard placement.primary in
    let replicas = map (member nodes shard) placement.replicas in
    record {
      shard_id = shard;
      status = status_of (primary ∷ replicas);
      primary = primary;
      replicas = replicas;
    }

-- The loop over the shards; a shard that is missing is a KeyError.
unfoldable pub shard_healths : ClusterMap → Dict Str NodeHealth → List ℤ → Result (List ShardHealth)
shard_healths cluster nodes [] = ok []
shard_healths cluster nodes (shard ∷ shards) = elim (get cluster.shards shard) [
  | none ↦ raise key_error
  | some placement ↦ elim (shard_healths cluster nodes shards) [
    | ok hs ↦ ok (shard_health nodes shard placement ∷ hs)
    | raise e ↦ raise e
  ]
]

abbrev pub is_unavailable : Health → Bool
is_unavailable unavailable = true
is_unavailable _ = false

abbrev pub is_healthy : Health → Bool
is_healthy healthy = true
is_healthy _ = false

-- `_cluster_status`
unfoldable pub cluster_status : List Health → Health
cluster_status [] = unavailable
cluster_status (s ∷ statuses) =
    if any is_unavailable (s ∷ statuses)
    then unavailable
    else if all is_healthy (s ∷ statuses)
    then healthy
    else degraded

module _ {W : Type 0} (ask_health : W → NodeInfo → W × HttpReply HealthPayload)
    (ask_recovery : W → NodeInfo → W × HttpReply (Option RecoveryPayload)) where
  unfoldable pub node_health : W → Str → NodeInfo → W × NodeHealth
  node_health w id node =
      let (w', reply) = get_with_retry (λ v. ask_health v node) w in
      elim reply [
        | status_error s ↦ (w', down id (codes "unavailable") false)
        | failed_call ↦ (w', down id (codes "unavailable") false)
        | raised ↦ (w', down id (codes "failed") false)
        | answered payload ↦ elim payload.ok [
          | false ↦ (w', down id (text_or payload.status (codes "unavailable")) true)
          | true ↦
              let (w'', recovery) = ask_recovery w' node in (w'', with_recovery id payload recovery)
        ]
      ]

  -- The loop over the nodes.
  unfoldable pub node_healths :
      W → Dict Str NodeInfo → Dict Str NodeHealth → W × Dict Str NodeHealth
  node_healths w [] healths = (w, healths)
  node_healths w ((id, node) ∷ nodes) healths =
      let (w', health) = node_health w id node in node_healths w' nodes (put healths id health)
