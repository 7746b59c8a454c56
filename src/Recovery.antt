-- ===== src/Recovery.antt =====
-- src/typesense_lite/recovery.py: the recovery status of the shards and of the node.
pub mod Ready
use typesense_python.Base.{
  ◌==◌, if◌then◌else◌, nat_eq, any, all, Str, text_eq, ℕ, Bool, true, false, not, ◌&&◌, Option,
  none, some, List, [], ◌∷◌, map,
}
use typesense_python.Base.Dict.{Dict, put}

pub data RecoveryStatus : Type 0 where
  starting recovering rebuilding catching_up validating healthy failed : RecoveryStatus

abbrev code_of : RecoveryStatus → ℕ
code_of starting = 0
code_of recovering = 1
code_of rebuilding = 2
code_of catching_up = 3
code_of validating = 4
code_of healthy = 5
code_of failed = 6

abbrev pub same_status : RecoveryStatus → RecoveryStatus → Bool
same_status a b = code_of a == code_of b

-- What a shard reports of itself: payload.get("status", "starting"), payload.get("ready") is True and
-- payload.get("error").
pub record ShardReport : Type 0 where
  pub status : RecoveryStatus
  pub ready : Bool
  pub error : Option Str

pub record NodeRecoveryState : Type 0 where
  pub status : RecoveryStatus
  pub error : Option Str
  pub shards : Dict ℕ ShardReport

abbrev pub new_state : NodeRecoveryState
new_state = record { status = starting; error = none; shards = [] }

-- `if error`
abbrev pub is_error : Option Str → Bool
is_error none = false
is_error (some []) = false
is_error (some (c ∷ s)) = true

abbrev pub reports : Dict ℕ ShardReport → List ShardReport
reports d = map (λ (e : ℕ × ShardReport). e.1) d

abbrev pub has_status : RecoveryStatus → ShardReport → Bool
has_status s r = same_status r.status s

-- The statuses by urgency, and then "healthy" if there is no other.
abbrev pub most_urgent : List RecoveryStatus → List ShardReport → RecoveryStatus
most_urgent [] rs = if all (has_status healthy) rs then healthy else starting
most_urgent (s ∷ ss) rs = if any (has_status s) rs then s else most_urgent ss rs

unfoldable pub aggregate_status : List ShardReport → Option Str → RecoveryStatus
aggregate_status rs error = if is_error error then failed else elim rs [
  | [] ↦ starting
  | r ∷ rest ↦
      most_urgent (failed ∷ rebuilding ∷ validating ∷ catching_up ∷ recovering ∷ []) (r ∷ rest)
]

unfoldable pub set_shard : NodeRecoveryState → ℕ → ShardReport → NodeRecoveryState
set_shard state shard report =
    let shards = put state.shards shard report in
    record state { shards = shards; status = aggregate_status (reports shards) state.error }

unfoldable pub fail_shard : NodeRecoveryState → ℕ → Str → NodeRecoveryState
fail_shard state shard error = record {
  shards = put state.shards shard (record { status = failed; ready = false; error = some error });
  status = failed;
  error = some error;
}

unfoldable pub shard_is_ready : ShardReport → Bool
shard_is_ready r = r.ready && same_status r.status healthy

-- What a node's own report says; `none` is a report that is missing or empty.
unfoldable pub node_is_ready : Option ShardReport → Bool
node_is_ready none = false
node_is_ready (some r) = r.ready && same_status r.status healthy

-- bool(shards) and all(shard_is_ready(item) for item in shards.values())
unfoldable pub all_ready : List ShardReport → Bool
all_ready [] = false
all_ready (r ∷ rs) = all shard_is_ready (r ∷ rs)

-- The status and the readiness of `to_dict`.
unfoldable pub reported_status : NodeRecoveryState → RecoveryStatus
reported_status state =
    if not (all_ready (reports state.shards)) && same_status state.status healthy
    then aggregate_status (reports state.shards) state.error
    else state.status

unfoldable pub is_ready : NodeRecoveryState → Bool
is_ready state = all_ready (reports state.shards) && same_status (reported_status state) healthy
