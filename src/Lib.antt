-- ===== src/Lib.antt =====
-- The verification library of this repository: the shard replication, the search index and the
-- data nodes of Typesense Lite (src/typesense_lite), and the choice of nodes by the Typesense
-- client (src/typesense), in cubical type theory.
--
-- Parts. Each shard of a collection is kept by a Raft group of data nodes.
-- - Base: the shared names, Python's `str` as a list of code points (Base/Text), `dict` as an
--   association list in insertion order (Base/Dict), `sorted` (Base/Order), exceptions as values
--   (Base/Result) and the counting of majorities (Base/Count).
-- - Tokenizer: src/typesense_lite/tokenizer.py.
-- - Index: src/typesense_lite/index.py, `InvertedIndex` as a record of its four dictionaries;
--   Index/Search is `search`, Index/Query has parts of `search_query`; Counter, Postings,
--   Invariant and Search/Ranked are proofs, Query/Edits and Query/Rows are about `_edit_distance`,
--   Query/Match is `_best_match`.
-- - Storage, Node: src/typesense_lite/storage.py and node.py. The storage is the list of the
--   records that `_append_record` was called with, in order, each with its shard and collection. A
--   method returns the node as it leaves it and a result. `apply_raft_command` is the
--   `apply_command` that a Raft runtime is given. Node/Replay is about the loop of `_reload`,
--   Node/Commands is `_collections_from_commands`, Node/Listing what a node lists.
-- - Coordinator: src/typesense_lite/coordinator.py, the writes: `_submit_raft_command`, and in
--   Coordinator/Writes the single writes and the import; Trusted, Attempts and Writes/Report are
--   proofs. Coordinator/Nodes lists the nodes that are alive, with the proof in Alive;
--   Coordinator/Search asks the shards for hits, with the proofs in Failover and Complete.
-- - HttpClient: src/typesense_lite/http_client.py, `get_with_retry`.
-- - Repair: src/typesense_lite/repair.py; Copies and Converges are proofs.
-- - Health: src/typesense_lite/health.py, with Health/Status on the status of the cluster.
-- - Importer: src/typesense_lite/importer.py, the uploads of JSON.
-- - NodeDirectory: src/typesense_lite/node_directory.py; Leases and Expired are proofs.
-- - Cluster: src/typesense_lite/cluster.py, with Cluster/Routing on where a document goes.
-- - LeaderDirectory: src/typesense_lite/leader_directory.py; Recovery:
--   src/typesense_lite/recovery.py.
-- - NodeManager: src/typesense/node_manager.py, the choice of a node by the Typesense client.
-- - ApiCall: the retries of src/typesense/sync/api_call.py; async_/api_call.py is the same code
--   with awaits.
-- - Preprocess: src/typesense/preprocess.py, the printing of parameters.
-- - Rebuild: src/typesense_lite/rebuild.py, the snapshot payloads.
-- - Schemas: src/typesense_lite/schemas.py, documents and JSON values.
-- - Raft/Types, Raft/Log, Raft/Core: src/typesense_lite/raft_types.py and raft_core.py. `RaftCore`
--   is the record of the object's fields, `handle_request_vote` and `handle_append_entries` return
--   the new record and the reply. Raft/Log holds `_entry_at` and the loop over the entries.
-- - Raft/Runtime: src/typesense_lite/raft_runtime.py. `RaftRuntime` is the record of the object's
--   fields; its files state.json and log.jsonl (src/typesense_lite/raft_storage.py) are the field
--   `disk`. The children are the methods: Apply, Handlers, Election, Replicate, Submit, Snapshot;
--   Cores, Durable, Ends, Kept, Stale and Stuck are proofs.
-- - Raft/Group: a whole group of nodes as a step relation over these methods.
-- - Tests: runs at concrete inputs.
--
-- How the state corresponds. Indices, terms and counts are natural numbers: the program starts
-- them at 0 and only adds to them or takes the maximum. `apply_command`, which changes the state
-- of the application, and the HTTP calls to peers are parameters (`Apply`, `Post`). The clock is
-- an argument. An event of the recovery history carries no time.
--
-- Retries. `_execute_request` recurses on the attempts that are left, which are num_retries + 1 at
-- first.
--
-- Fuel. The digits of a number (Python's `str`) are printed on fuel that is above the number. The
-- loop of `_replicate_to_peer` runs on fuel; more fuel than the next index is enough for a peer
-- that takes a request for the whole log, since the index goes back by one in each round.
--
-- Concurrency. A step of Raft/Group runs one handler, or the part of `start_election` between two
-- awaits. Raft/Runtime/Replicate and Submit run with no other handler of the same node in between.
--
-- Parameters. SHA-256 (`digest`, `checksum`), `str` on a JSON value (`str_of`), `round` on an age
-- (`rounded`), the HTTP calls (`Post`, `Ask`, `NodeApi`, `Send`) and the application (`Apply`).
--
-- Not modelled: most of `search_query`, the installation of snapshots and the comparison of
-- replicas, the order of the merged hits and the other reads of the coordinator, the other uploads
-- of the importer, the inventory; the asyncio tasks and timers (`start`, `stop`,
-- `_run_election_loop`, `_run_heartbeat_loop`, `send_heartbeat`), logging, the HTTP server and its
-- clients, JSON and the file system: in particular the paths of the data files and which
-- directories a restart reads.
pub mod Base
pub mod Tokenizer
pub mod Index
pub mod Repair
pub mod Schemas
pub mod Cluster
pub mod HttpClient
pub mod LeaderDirectory
pub mod NodeDirectory
pub mod NodeManager
pub mod ApiCall
pub mod Storage
pub mod Node
pub mod Health
pub mod Preprocess
pub mod Importer
pub mod Coordinator
pub mod Rebuild
pub mod Recovery
pub mod Raft
pub mod Tests
