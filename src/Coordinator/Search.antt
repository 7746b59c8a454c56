-- ===== src/Coordinator/Search.antt =====
-- src/typesense_lite/coordinator.py: how `search` asks the shards (`_search_shard`, `_node_shard_ready`), over
-- `get_with_retry` of src/typesense_lite/http_client.py. The GET requests are parameters.
pub mod Failover
pub mod Complete
use typesense_python.Base.{
  ◌==◌, nat_eq, Str, text_eq, Bool, true, false, Option, none, some, List, [], ◌∷◌, ◌++◌,
}
use typesense_python.Base.Dict.{Dict, get}
use typesense_python.Base.Result.{ok, raise}
use typesense_python.Schemas.{ℤ, int_eq, NodeInfo}
use typesense_python.HttpClient.{HttpReply, get_with_retry}
use typesense_python.HttpClient.HttpReply.{answered, status_error, failed_call, raised}
use typesense_python.Recovery.{ShardReport, node_is_ready}
use typesense_python.Cluster.{ClusterMap, get_search_candidates}

-- What a recovery state says of a shard: nothing (a missing or empty entry), a report, or a value that has no
-- `get`.
pub data ShardEntry : Type 0 where
  empty : ShardEntry
  report : ShardReport → ShardEntry
  malformed : ShardEntry

-- The body of a success response of /internal/recovery/state: JSON without "shards", JSON whose "shards" is a
-- dict, or one on which `response.json()`, the test for "shards" or the lookup in it raises.
pub data RecoveryBody : Type 0 where
  without_shards : RecoveryBody
  with_shards : Dict ℤ ShardEntry → RecoveryBody
  unreadable : RecoveryBody

abbrev pub RecoveryReply : Type 0
RecoveryReply = HttpReply RecoveryBody

-- A missing key is an empty entry; `none` is an exception.
abbrev pub entry_is_ready : Option ShardEntry → Option Bool
entry_is_ready none = some (node_is_ready none)
entry_is_ready (some empty) = some (node_is_ready none)
entry_is_ready (some (report r)) = some (node_is_ready (some r))
entry_is_ready (some malformed) = none

-- The return value, or `none` for the exception that leaves `_node_shard_ready`: only the request stands
-- in its `try`, not the reading of the body.
unfoldable pub reply_is_ready : ℤ → RecoveryReply → Option Bool
reply_is_ready shard (status_error s) = some (s == 404)
reply_is_ready shard failed_call = some false
reply_is_ready shard raised = some true
reply_is_ready shard (answered without_shards) = some true
reply_is_ready shard (answered unreadable) = none
reply_is_ready shard (answered (with_shards shards)) = entry_is_ready (get shards shard)

-- Why a candidate has not answered.
pub data Refusal : Type 0 where
  not_ready : Refusal
  unreachable : Refusal

-- How the search of a shard ends: with hits, with a warning, or by an exception.
pub data ShardSearch (H : Type 0) : Type 0 where
  found : List H → ShardSearch H
  unavailable : List (Str × Refusal) → ShardSearch H
  broken : ShardSearch H

-- `hits` and `warnings` at the end of the loop, or the exception that ends it.
pub data Gathered (H : Type 0) : Type 0 where
  gathered : List H → List (ℤ × List (Str × Refusal)) → Gathered H
  interrupted : Gathered H

module _ {W H : Type 0} (state : W → NodeInfo → W × RecoveryReply)
    (query : ℤ → W → NodeInfo → W × HttpReply (List H)) (cluster : ClusterMap) where
  unfoldable pub node_shard_ready : W → NodeInfo → ℤ → W × Option Bool
  node_shard_ready w node shard =
      let (w', reply) = get_with_retry (λ v. state v node) w in (w', reply_is_ready shard reply)

  unfoldable pub search_node : W → NodeInfo → ℤ → W × HttpReply (List H)
  search_node w node shard = get_with_retry (λ v. query shard v node) w

  -- The loop over the candidates, with `errors`.
  unfoldable pub search_candidates :
      W → ℤ → List NodeInfo → List (Str × Refusal) → W × ShardSearch H
  search_candidates w shard [] errors = (w, unavailable errors)
  search_candidates w shard (node ∷ nodes) errors =
      let (w', ready) = node_shard_ready w node shard in
      elim ready [
        | none ↦ (w', broken)
        | some false ↦ search_candidates w' shard nodes (errors ++ ((node.id, not_ready) ∷ []))
        | some true ↦
            let (w'', reply) = search_node w' node shard in
            elim reply [
              | answered hits ↦ (w'', found hits)
              | raised ↦ (w'', broken)
              | status_error s ↦
                  search_candidates w'' shard nodes (errors ++ ((node.id, unreachable) ∷ []))
              | failed_call ↦
                  search_candidates w'' shard nodes (errors ++ ((node.id, unreachable) ∷ []))
            ]
      ]

  unfoldable pub search_shard : W → ℤ → W × ShardSearch H
  search_shard w shard = elim (get_search_candidates cluster shard) [
    | raise e ↦ (w, broken)
    | ok nodes ↦ search_candidates w shard nodes []
  ]

  -- The loop over the shards, with `hits` and `warnings`.
  unfoldable pub gather_hits :
      W → List ℤ → List H → List (ℤ × List (Str × Refusal)) → W × Gathered H
  gather_hits w [] hits warnings = (w, gathered hits warnings)
  gather_hits w (shard ∷ shards) hits warnings =
      let (w', end) = search_shard w shard in
      elim end [
        | found more ↦ gather_hits w' shards (hits ++ more) warnings
        | unavailable errors ↦ gather_hits w' shards hits (warnings ++ ((shard, errors) ∷ []))
        | broken ↦ (w', interrupted)
      ]
