-- ===== src/Node/Replay.antt =====
-- src/typesense_lite/node.py: the appended records tell how each index came about.
use typesense_python.Base.{
  Bool-cases, Option-cases, nat_eq, Str, codes, text_eq, ℕ, ◌≡◌, refl, ◌∙◌, inl, inr, List, [], ◌∷◌,
  ◌++◌, arith,
}
use typesense_python.Base.Dict.{get, put, get-put}
use typesense_python.Base.Result.{ok, Result-cases}
use mathlib.Core.Path.{subst}
use typesense_python.Schemas.{Document}
use typesense_python.Raft.Types.{RaftCommand}
use typesense_python.Storage.{
  Key, key_eq, key_beq, key_beq_iff, StorageRecord, append_record, records_of,
  records_of-append_record,
}
use typesense_python.Storage.StorageRecord.{upsert, delete}
use typesense_python.Index
use typesense_python.Index.{InvertedIndex, new_index}
use typesense_python.Node.{
  SearchNode, index_for, with_index, add_document, update_document, delete_document,
  apply_raft_command, type_of, CommandType, apply_typed, apply_add, apply_update, apply_delete,
  collection_of, replay_record, replay, is_other_id, updated_document,
}
use typesense_python.Node.CommandType.{adds, updates, deletes, unknown}

-- The appended records tell how each index came about.
pub record IsLogged (node : SearchNode) : Type 0 where
  pub logged : (k : Key) → replay new_index (records_of node.storage k) ≡ ok (index_for node k)

replay_more :
    (ix ix' ix'' : InvertedIndex) (rs : List StorageRecord) (r : StorageRecord)
    → replay ix rs ≡ ok ix'
    → replay_record ix' r ≡ ok ix''
    → replay ix (rs ++ (r ∷ [])) ≡ ok ix''
unfolding replay
replay_more ix ix' ix'' [] r h e = ground (arith, h, e)
replay_more ix ix' ix'' (q ∷ rs) r h e = elim (Result-cases (replay_record ix q)) [
  | inl (jx, f) ↦ rw f (replay_more jx ix' ix'' rs r (ground (arith, f, h)) e)
  | inr (x, f) ↦ absurd (ground (arith, f, h))
]

-- A record is written and the index moves along.
abbrev logged_step : SearchNode → Key → StorageRecord → InvertedIndex → SearchNode
logged_step node k r ix = record {
  storage = append_record node.storage k r;
  indexes = put node.indexes k ix;
}

logged_step-IsLogged :
    (node : SearchNode) (k : Key) (r : StorageRecord) (ix : InvertedIndex)
    → IsLogged node
    → replay_record (index_for node k) r ≡ ok ix
    → IsLogged (logged_step node k r ix)
unfolding index_for
logged_step-IsLogged node k r ix w h = record {
  logged = λ j. elim (Bool-cases (key_beq k j)) [
    | inl e ↦
        let same = (key_beq_iff k j).0 e in
        rw (records_of-append_record node.storage k j r, get-put node.indexes k j ix, e)
          (subst (λ i. replay new_index (records_of node.storage i ++ (r ∷ [])) ≡ ok ix) same
            (replay_more new_index (index_for node k) ix (records_of node.storage k) r (w.logged k)
              h))
    | inr e ↦
        rw (records_of-append_record node.storage k j r, get-put node.indexes k j ix, e)
          (w.logged j)
  ];
}

with_index-IsLogged : (node : SearchNode) (k : Key) → IsLogged node → IsLogged (with_index node k)
unfolding with_index index_for
with_index-IsLogged node k w = record {
  logged = λ j.
      w.logged j ∙ ground (arith, get-put node.indexes k j (index_for node k), key_beq_iff k j);
}

add_document-IsLogged :
    (node : SearchNode) (k : Key) (d : Document)
    → IsLogged node
    → IsLogged (add_document node k d).0
unfolding add_document replay_record
add_document-IsLogged node k d w = elim (Result-cases (Index.add_document (index_for node k) d)) [
  | inl (ix, e) ↦ rw (add_document, e) (logged_step-IsLogged node k (upsert d) ix w e)
  | inr (x, e) ↦ rw (add_document, e) (with_index-IsLogged node k w)
]

update_document-IsLogged :
    (node : SearchNode) (k : Key) (id : Str) (changes : Document)
    → IsLogged node
    → IsLogged (update_document node k id changes).0
unfolding update_document
update_document-IsLogged node k id changes w =
    elim (Bool-cases (is_other_id (get changes (codes "id")) id)) [
      | inl e ↦ rw (update_document, e) w
      | inr e ↦ elim (Option-cases (get (index_for node k).documents id)) [
        | inl f ↦ rw (update_document, e, f) (with_index-IsLogged node k w)
        | inr (current, f) ↦
            rw (update_document, e, f)
              (add_document-IsLogged (with_index node k) k (updated_document current changes id)
                (with_index-IsLogged node k w))
      ]
    ]

delete_document-IsLogged :
    (node : SearchNode) (k : Key) (id : Str)
    → IsLogged node
    → IsLogged (delete_document node k id).0
unfolding delete_document replay_record
delete_document-IsLogged node k id w =
    elim (Result-cases (Index.delete_document (index_for node k) id)) [
      | inl ((d, ix), e) ↦
          rw (delete_document, e)
            (logged_step-IsLogged node k (delete id) ix w (rw (replay_record, e) refl))
      | inr (x, e) ↦ rw (delete_document, e) (with_index-IsLogged node k w)
    ]

apply_typed-IsLogged :
    (ty : CommandType) (node : SearchNode) (k : Key) (command : RaftCommand)
    → IsLogged node
    → IsLogged (apply_typed ty node k command).0
unfolding apply_typed apply_add apply_update apply_delete
apply_typed-IsLogged adds node k command w = elim (Option-cases command.document) [
  | inl e ↦ rw e w
  | inr (d, e) ↦ rw e (add_document-IsLogged node k d w)
]
apply_typed-IsLogged updates node k command w = elim (Option-cases command.document_id) [
  | inl e ↦ rw (apply_update, e) w
  | inr (id, e) ↦ elim (Option-cases command.changes) [
    | inl f ↦ rw (apply_update, e, f) w
    | inr (changes, f) ↦ rw (apply_update, e, f) (update_document-IsLogged node k id changes w)
  ]
]
apply_typed-IsLogged deletes node k command w = elim (Option-cases command.document_id) [
  | inl e ↦ rw e w
  | inr (id, e) ↦ rw e (delete_document-IsLogged node k id w)
]
apply_typed-IsLogged unknown node k command w = w

-- Whether a command succeeds or raises, the records go on telling how the indexes came about.
pub apply_raft_command-IsLogged :
    (node : SearchNode) (shard : ℕ) (command : RaftCommand)
    → IsLogged node
    → IsLogged (apply_raft_command node shard command).0
unfolding apply_raft_command
apply_raft_command-IsLogged node shard command w =
    apply_typed-IsLogged (type_of command.type) node (shard, collection_of command) command w

abbrev pub empty_node : SearchNode
empty_node = record { storage = []; indexes = [] }

pub empty_node-IsLogged : IsLogged empty_node
unfolding replay index_for get records_of
empty_node-IsLogged = record { logged = λ k. refl }

-- A node after some commands for its shards, each of which succeeded or raised.
unfoldable pub apply_all : SearchNode → List (ℕ × RaftCommand) → SearchNode
apply_all node [] = node
apply_all node ((shard, c) ∷ cs) = apply_all (apply_raft_command node shard c).0 cs

apply_all-IsLogged :
    (node : SearchNode) (cs : List (ℕ × RaftCommand)) → IsLogged node → IsLogged (apply_all node cs)
unfolding apply_all
apply_all-IsLogged node [] w = w
apply_all-IsLogged node ((shard, c) ∷ cs) w =
    apply_all-IsLogged (apply_raft_command node shard c).0 cs
      (apply_raft_command-IsLogged node shard c w)

-- A node that started empty and has been given commands, some of which may have raised, has appended
-- for each shard and collection the records from which the loop of `_reload`, given them in order,
-- makes its index again, without an exception.
pub apply_all-replay :
    (cs : List (ℕ × RaftCommand)) (k : Key)
    → replay new_index (records_of (apply_all empty_node cs).storage k)
      ≡ ok (index_for (apply_all empty_node cs) k)
apply_all-replay cs k = (apply_all-IsLogged empty_node cs empty_node-IsLogged).logged k
