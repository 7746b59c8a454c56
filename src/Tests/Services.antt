-- ===== src/Tests/Services.antt =====
-- The index, a data node, the cluster map and the clients' choices at concrete inputs.
use typesense_python.Base.{
  ◌⊎◌, nat_eq, length, any, All, Str, codes, str_eq, text_eq, ℕ, zero, suc, ◌<◌, ◌≡◌, refl, ◌↔◌,
  true, false, none, some, List, [], ◌∷◌, ◌++◌, map, arith,
}
use typesense_python.Base.Dict.{Dict, get, put, remove}
use typesense_python.Base.Order.{sort}
use typesense_python.Base.Result.{raise, ok, value_error}
use typesense_python.Schemas.{Value, int_eq, int_beq, Document, NodeInfo, ShardPlacement}
use typesense_python.Schemas.ℤ.{pos}
use typesense_python.Schemas.Value.{text}
use typesense_python.Tokenizer.{tokenize, finditer, tokens_of, run_tokens, chinese_tokens, bigrams}
use typesense_python.Tokenizer.Join.{tokenize-join}
use typesense_python.Index.{
  InvertedIndex, new_index, add_document, insert_document, document_id, terms_of, counter,
  count_from, indexable_text, string_fields, join_blank, add_postings, field_terms_of,
}
use typesense_python.Index.Postings.{posting}
use typesense_python.Index.Invariant.{IsIndexed, Built, Built-IsIndexed}
use typesense_python.Index.Invariant.Built.{fresh, added}
use typesense_python.Index.Counter.{occurrences}
use typesense_python.Index.Search.{SearchHit, search, slice_to, hit_le}
use typesense_python.Index.Search.Ranked.{IsHit, search-IsHit, has_id, relevance}
use typesense_python.Storage.{key_eq, records_of}
use typesense_python.Node
use typesense_python.Node.Commands.{Collections, documents_of, describe_commands}
use typesense_python.Node.Commands.Effects.{held}
use typesense_python.Node.Commands.Agreement.{apply_commands, apply_commands-describe_commands}
use typesense_python.Rebuild
use typesense_python.Rebuild.{
  Payload, Expected, Snapshot, build_snapshot_payload, validate_snapshot_payload, manifest_is_valid,
  normalize, normalize_documents,
}
use typesense_python.Rebuild.Accepted.{
  HasIds, Fits, validate_snapshot_payload-build_snapshot_payload,
}
use typesense_python.ApiCall.{Response, request, execute_request}
use typesense_python.ApiCall.Response.{response, server_error}
use typesense_python.ApiCall.Retries.{answering}
use typesense_python.Node.{
  apply_raft_command, apply_typed, apply_add, SearchNode, index_for, replay,
}
use typesense_python.Node.Replay.{apply_all, empty_node, apply_all-replay}
use typesense_python.Raft.Types.{RaftCommand}
use typesense_python.Cluster.{
  ClusterConfig, cluster_of, nodes_by_id, shards_by_id, validate_shards, out_of_range, counts,
  is_positive, from_dict, get_shard_id, get_shard_voters,
}
use typesense_python.Cluster.Routing.{get_shard_voters-get_shard_id}
use typesense_python.LeaderDirectory.{Ask, poll, refresh_voters}
use typesense_python.LeaderDirectory.Verified.{SaidLeader, Among, refresh_voters_lem}
use typesense_python.Recovery.{
  ShardReport, new_state, set_shard, reports, all_ready, is_error, is_ready,
}
use typesense_python.Recovery.RecoveryStatus.{healthy}
use typesense_python.Recovery.Ready.{Reached, is_ready_iff}
use typesense_python.NodeManager.{
  NodeManager, get_node, usable_at, node_at, nearest_usable, is_usable, is_due_for_health_check,
}
use typesense_python.NodeManager.Choice.{listed}
use typesense_python.NodeManager.Rotation.{get_node_usable}
use typesense_python.Tests.Data.{a, b}

code : Unit {0}
unfolding get put remove tokenize finditer tokens_of run_tokens add_document insert_document
    document_id terms_of counter count_from indexable_text string_fields join_blank add_postings
    field_terms_of str_eq posting relevance occurrences chinese_tokens bigrams cluster_of
    nodes_by_id shards_by_id validate_shards out_of_range counts is_positive from_dict int_beq
    usable_at node_at nearest_usable is_usable is_due_for_health_check poll refresh_voters
code = tt

abbrev rust : Str
rust = codes "Rust and C, and Rust"

tokenize-join_example :
    tokenize (codes "Raft" ++ 32 ∷ codes "log42")
    ≡ tokenize (codes "Raft") ++ tokenize (codes "log42")
tokenize-join_example = tokenize-join (codes "Raft") (codes "log42")

tokens : tokenize rust ≡ codes "rust" ∷ codes "and" ∷ codes "c" ∷ codes "and" ∷ codes "rust" ∷ []
unfolding code
tokens = refl

abbrev book : Document
book = (codes "id", text (codes "1")) ∷ (codes "title", text rust) ∷ []

abbrev library : InvertedIndex
library = insert_document new_index (codes "1") book

library-Built : Built library
unfolding code
library-Built = added new_index library book fresh refl

Built-IsIndexed_example : IsIndexed library
Built-IsIndexed_example = Built-IsIndexed library library-Built

search-IsHit_example :
    (hs : List SearchHit) × (search library (codes "rust") (pos 10)
      ≡ ok (slice_to (pos 10) (sort hit_le hs)))
    × All (IsHit library (tokenize (codes "rust"))) hs
    × ((d : Str) (doc : Document)
        → get library.documents d ≡ some doc
        → 0 < relevance (tokenize (codes "rust")) (tokenize (indexable_text doc))
        → any (has_id d) hs ≡ true)
search-IsHit_example = search-IsHit library (codes "rust") (pos 10) library-Built

abbrev add : RaftCommand
add = record {
  type = some (codes "add_document");
  collection = some (codes "books");
  document = some book;
  document_id = none;
  changes = none;
}

apply_all-replay_example :
    replay new_index (records_of (apply_all empty_node ((0, add) ∷ [])).storage (0, codes "books"))
    ≡ ok (index_for (apply_all empty_node ((0, add) ∷ [])) (0, codes "books"))
apply_all-replay_example = apply_all-replay ((0, add) ∷ []) (0, codes "books")

abbrev node : Str → NodeInfo
node id = record { id = id; host = codes "localhost"; port = 8108 }

abbrev placement : ShardPlacement
placement = record { shard_id = pos 0; primary = a; replicas = b ∷ [] }

abbrev config : ClusterConfig
config = record {
  coordinator_host = codes "localhost";
  coordinator_port = 8100;
  count = pos 1;
  node_list = node a ∷ node b ∷ [];
  shard_list = placement ∷ [];
}

accepted : from_dict config ≡ ok (cluster_of config)
unfolding code
accepted = refl

get_shard_voters-get_shard_id_example :
    (p : ShardPlacement) × (voters : List NodeInfo) × (get
        (cluster_of config).shards
        (get_shard_id length (cluster_of config) rust)
      ≡ some p)
    × (get_shard_voters (cluster_of config) (get_shard_id length (cluster_of config) rust)
        ≡ ok voters)
    × (map some voters ≡ map (get (cluster_of config).nodes) (p.primary ∷ p.replicas))
get_shard_voters-get_shard_id_example =
    get_shard_voters-get_shard_id length config (cluster_of config) rust accepted

-- Only node `b` says that it leads, and the count of the questions is the world.
abbrev ask : Ask ℕ
ask w shard n = (suc w, some (record { is_leader = str_eq n.id b; leader_id = none }))

abbrev voters : Dict Str NodeInfo
voters = (a, node a) ∷ (b, node b) ∷ []

refresh_voters_lem_example :
    SaidLeader ask (pos 0) (node b)
    × Among (node b) voters
    × ((refresh_voters ask 0 [] (pos 0) voters).1 ≡ put [] (pos 0) (node b))
unfolding code
refresh_voters_lem_example = refresh_voters_lem ask 0 [] (pos 0) voters

abbrev report : ShardReport
report = record { status = healthy; ready = true; error = none }

is_ready_iff_example : (is_ready (set_shard new_state 0 report) ≡ true) ↔ (
    (all_ready (reports (set_shard new_state 0 report).shards) ≡ true)
    × (is_error (set_shard new_state 0 report).error ≡ false))
is_ready_iff_example =
    is_ready_iff (set_shard new_state 0 report) (Reached.set new_state 0 report Reached.fresh)

-- The first of the two nodes has failed a moment ago.
abbrev manager : NodeManager
manager = record {
  nearest_node = none;
  healthcheck_interval_seconds = 60;
  nodes =
      record { url = a; healthy = false; last_access_ts = 100 }
      ∷ record { url = b; healthy = true; last_access_ts = 100 }
      ∷ [];
  node_index = 0;
}

get_node_usable_example :
    (j : ℕ) × ((get_node manager 101).1 ≡ listed j) × (usable_at manager 101 j ≡ true)
unfolding code
get_node_usable_example = get_node_usable manager 101 1 (omega arith) (omega arith) refl refl

abbrev plain : Value → Str
plain (text s) = s
plain _ = []

applied : (n : SearchNode) × (apply_commands empty_node 0 (add ∷ []) ≡ ok n)
unfolding code apply_commands apply_raft_command apply_typed apply_add Node.add_document index_for
applied = (_, refl)

apply_commands-describe_commands_example :
    (cs : Collections) × (describe_commands plain [] (add ∷ []) ≡ ok cs)
    × ((c : ℕ) (s d : Str) → held (applied.0) (0, c ∷ s) d ≡ get (documents_of (get cs (c ∷ s))) d)
apply_commands-describe_commands_example =
    apply_commands-describe_commands plain (λ s. refl) (applied.0) 0 (add ∷ []) (applied.1)

-- The server fails once and then answers.
abbrev answers : ℕ → Response ℕ ℕ
answers zero = server_error 500
answers (suc i) = response 200

retried : (request (answering answers) 101 manager 0 3).1 ≡ 2
unfolding code request execute_request
retried = refl

-- Checksums by the number of collections.
abbrev count_sum : Rebuild.Collections → Str
count_sum cs = length cs ∷ []

abbrev sent : Payload
sent = build_snapshot_payload count_sum 0 a (codes "leader") 3 7 9 ((b, book ∷ []) ∷ []) []

abbrev asked : Expected
asked = record {
  shard_id = pos 0;
  source_node_id = a;
  term = some (pos 3);
  snapshot_index = none;
  commit_index = none;
}

book-HasIds : HasIds (book ∷ [])
unfolding code
book-HasIds = (refl, tt)

validate_snapshot_payload-build_snapshot_payload_example :
    (Fits 0 a (codes "leader") 3 7 9 asked
      × ((s : Snapshot) × (validate_snapshot_payload count_sum sent asked ≡ ok s)
          × (s.collections ≡ ((b, book ∷ []) ∷ []))
          × (s.log_entries ≡ [])))
    ⊎ ((¬ Fits 0 a (codes "leader") 3 7 9 asked)
        × (validate_snapshot_payload count_sum sent asked ≡ raise value_error))
unfolding get
validate_snapshot_payload-build_snapshot_payload_example =
    validate_snapshot_payload-build_snapshot_payload count_sum 0 a (codes "leader") 3 7 9
      ((b, book ∷ []) ∷ []) [] asked (refl, tt) (book-HasIds, tt)
