-- ===== src/Tests/Coordinator.antt =====
-- The coordinator's writes, and a Raft node that cannot apply a command, at concrete inputs.
use typesense_python.Base.{
  ltb, if◌then◌else◌, nat_eq, length, Str, codes, str_eq, text_eq, ℕ, suc, ◌+◌, ◌*◌, ◌≤◌, ◌≡◌, refl,
  true, none, some, List, [], ◌∷◌, arith,
}
use typesense_python.Base.Dict.{get, put, remove}
use typesense_python.Base.Result.{Result, ok, raise}
use typesense_python.Schemas.{int_eq, int_beq, Document, NodeInfo}
use typesense_python.Schemas.ℤ.{pos}
use typesense_python.Schemas.Value.{text}
use typesense_python.Raft.Types.{RaftLogEntry}
use typesense_python.Raft.Types.RaftRole.{leader}
use typesense_python.Raft.Core.{new_core}
use typesense_python.Raft.Log.{entry_at}
use typesense_python.Raft.Runtime.{RaftRuntime}
use typesense_python.Raft.Runtime.Apply.{Apply}
use typesense_python.Raft.Runtime.Submit.{submit_command}
use typesense_python.Raft.Core.{RaftCore}
use typesense_python.Raft.Runtime.Stuck.{Stuck}
use typesense_python.Index
use typesense_python.Node.{SearchNode, apply_raft_command}
use typesense_python.Cluster.{ClusterMap, cluster_of, get_shard_voters, get_nodes}
use typesense_python.LeaderDirectory.{Ask}
use typesense_python.Coordinator.{CommandReply, Post, submit_raft_command}
use typesense_python.Coordinator.Trusted.{AllTrusted, Accepted, submit_raft_command-Accepted}
use typesense_python.Coordinator.Attempts.{retried, submit_raft_command-AtMost}
use typesense_python.Coordinator.Writes.{import_documents, delete_command}
use typesense_python.Coordinator.Writes.Report.{Truthful, import_documents-Truthful}
use typesense_python.Tests.Data.{a, b, command, at_term, runtime_with}

code : Unit {0}
unfolding get put remove str_eq int_beq cluster_of submit_command entry_at
code = tt

abbrev node : Str → NodeInfo
node id = record { id = id; host = codes "localhost"; port = 8108 }

abbrev cluster : ClusterMap
cluster = record {
  coordinator = record { id = codes "coordinator"; host = codes "localhost"; port = 8100 };
  shard_count = pos 1;
  nodes = (a, node a) ∷ (b, node b) ∷ [];
  shards = (pos 0, record { shard_id = pos 0; primary = a; replicas = b ∷ [] }) ∷ [];
}

-- Only node `b` says that it leads; the world counts the requests.
abbrev ask : Ask ℕ
ask w shard n = (suc w, some (record { is_leader = str_eq n.id b; leader_id = none }))

abbrev accepted : CommandReply
accepted = record {
  status_code = 200;
  ok = true;
  leader = b;
  term = some 1;
  commit_index = some 1;
  result = none;
}

-- The first three requests with a command are lost.
abbrev post : Post ℕ
post w n shard c = (suc w, if ltb w 6 then none else some accepted)

submit_raft_command-Accepted_example :
    AllTrusted ask cluster (submit_raft_command ask post cluster 0 [] (pos 0) command).1
    × Accepted ask cluster post
        (pos 0)
        command
        (submit_raft_command ask post cluster 0 [] (pos 0) command).2
unfolding code
submit_raft_command-Accepted_example =
    submit_raft_command-Accepted ask cluster post 0 [] (pos 0) command
      (λ shard n h. absurd (ground arith))

abbrev books : List Document
books = ((codes "id", text (codes "1")) ∷ []) ∷ [] ∷ []

import_documents-Truthful_example :
    Truthful books (import_documents ask post cluster length 0 [] (codes "books") books).2
import_documents-Truthful_example =
    import_documents-Truthful ask post cluster length 0 [] (codes "books") books

known : get_shard_voters cluster (pos 0) ≡ ok (node a ∷ node b ∷ [])
unfolding code get_shard_voters get_nodes
known = refl

submit_raft_command-AtMost_example :
    (submit_raft_command (retried ask) post cluster 0 [] (pos 0) command).0 ≤ 0 + 8 * (2 * 2 + 3)
submit_raft_command-AtMost_example =
    submit_raft_command-AtMost ask (λ w. w) (λ w shard n. refl) post (λ w n shard c. refl) cluster
      (pos 0) (node a ∷ node b ∷ []) known 0 [] command

-- `apply_command` of a data node.
abbrev by_node : Apply SearchNode
by_node n c =
    let (n', r) = apply_raft_command n 0 c in
    elim r [ ok document ↦ ok (n', document) | raise e ↦ raise e ]

-- The deletion of a document that is not there is committed.
abbrev deletion : RaftLogEntry
deletion = record { index = 1; term = 1; command = delete_command (codes "books") (codes "1") }

abbrev alone : RaftRuntime
alone =
    runtime_with
      (record (new_core a (a ∷ b ∷ []) (at_term 1 1 0) (deletion ∷ [])) { role = leader })

abbrev pair : RaftRuntime
pair = record alone { peer_urls = (b, codes "http://b") ∷ [] }

-- The peer has an empty log.
abbrev follower_core : RaftCore
follower_core = new_core b (a ∷ b ∷ []) (at_term 1 0 0) []
