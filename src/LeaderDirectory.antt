-- ===== src/LeaderDirectory.antt =====
-- src/typesense_lite/leader_directory.py: the cache of the shards' leaders. `get_with_retry` and the
-- node that answers are the parameter `ask`; `none` is an httpx.HTTPError.
pub mod Verified
use typesense_python.Base.{
  if◌then◌else◌, nat_eq, Str, text_eq, Bool, true, false, Option, none, some, List, [], ◌∷◌,
}
use typesense_python.Base.Dict.{Dict, get, put, remove}
use typesense_python.Base.Result.{Result, ok, raise, ◌>>=◌}
use typesense_python.Base.Result.Error.{runtime_error}
use typesense_python.Schemas.{ℤ, int_eq, NodeInfo}
use typesense_python.Cluster.{ClusterMap, get_shard_voters}

-- What is read of the reply: payload.get("role") == "leader" and a non-empty string "leader_id".
pub record StateReply : Type 0 where
  pub is_leader : Bool
  pub leader_id : Option Str

abbrev pub Ask : Type 0 → Type 0
Ask W = W → ℤ → NodeInfo → W × Option StateReply

abbrev pub Leaders : Type 0
Leaders = Dict ℤ NodeInfo

abbrev pub voters_by_id : Dict Str NodeInfo → List NodeInfo → Dict Str NodeInfo
voters_by_id d [] = d
voters_by_id d (n ∷ ns) = voters_by_id (put d n.id n) ns

abbrev pub says_leader : Option StateReply → Bool
says_leader none = false
says_leader (some r) = r.is_leader

-- The hint is kept until another reply gives one.
abbrev pub next_hint : Option StateReply → Option Str → Option Str
next_hint none hint = hint
next_hint (some r) hint = elim r.leader_id [ none ↦ hint | some id ↦ some id ]

module _ {W : Type 0} (ask : Ask W) where
  -- The loop over the voters: it ends with a node that says it leads, or with a hint.
  unfoldable pub poll : W → ℤ → Option Str → Dict Str NodeInfo → W × Option NodeInfo × Option Str
  poll w shard hint [] = (w, none, hint)
  poll w shard hint ((id, node) ∷ voters) =
      let (w', reply) = ask w shard node in
      elim (says_leader reply) [
        | true ↦ (w', some node, hint)
        | false ↦ poll w' shard (next_hint reply hint) voters
      ]

  unfoldable pub verify_leader : W → ℤ → NodeInfo → W × Bool
  verify_leader w shard node = let (w', reply) = ask w shard node in (w', says_leader reply)

  -- What follows the loop, when it found no leader.
  unfoldable pub try_hint :
      W → Leaders → ℤ → Dict Str NodeInfo → Option Str → W × Leaders × Option NodeInfo
  try_hint w leaders shard voters none = (w, remove leaders shard, none)
  try_hint w leaders shard voters (some id) = elim (get voters id) [
    | none ↦ (w, remove leaders shard, none)
    | some node ↦
        let (w', verified) = verify_leader w shard node in
        if verified
        then (w', put leaders shard node, some node)
        else (w', remove leaders shard, none)
  ]

  unfoldable pub refresh_voters :
      W → Leaders → ℤ → Dict Str NodeInfo → W × Leaders × Option NodeInfo
  refresh_voters w leaders shard voters =
      let (w', leader, hint) = poll w shard none voters in
      elim leader [
        | some node ↦ (w', put leaders shard node, some node)
        | none ↦ try_hint w' leaders shard voters hint
      ]

  unfoldable pub refresh : ClusterMap → W → Leaders → ℤ → Result (W × Leaders × Option NodeInfo)
  refresh cluster w leaders shard = get_shard_voters cluster shard >>= λ voters.
      ok (refresh_voters w leaders shard (voters_by_id [] voters))

  -- What `get_leader` makes of a refresh.
  abbrev pub refreshed :
      W → Leaders → Result (W × Leaders × Option NodeInfo) → W × Leaders × Result NodeInfo
  refreshed w leaders (raise e) = (w, leaders, raise e)
  refreshed w leaders (ok (w', leaders', none)) = (w', leaders', raise runtime_error)
  refreshed w leaders (ok (w', leaders', some node)) = (w', leaders', ok node)

  -- A leader that is known is returned from the cache.
  unfoldable pub get_leader : ClusterMap → W → Leaders → ℤ → W × Leaders × Result NodeInfo
  get_leader cluster w leaders shard = elim (get leaders shard) [
    | some leader ↦ (w, leaders, ok leader)
    | none ↦ refreshed w leaders (refresh cluster w leaders shard)
  ]

unfoldable pub invalidate : Leaders → ℤ → Leaders
invalidate leaders shard = remove leaders shard
