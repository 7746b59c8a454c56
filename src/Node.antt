-- ===== src/Node.antt =====
-- src/typesense_lite/node.py: the data node, with an index for each shard and collection, and its storage as the
-- records that it has appended.
-- A method returns the node as it leaves it, also when it raises.
pub mod Listing
pub mod Replay
pub mod Commands
use typesense_python.Base.{
  if◌then◌else◌, nat_eq, Str, codes, str_eq, text_eq, ℕ, Bool, true, false, not, Option, none, some,
  List, [], ◌∷◌,
}
use typesense_python.Base.Dict.{Dict, get, put}
use typesense_python.Base.Result.{Result, ok, raise, ◌>>=◌}
use typesense_python.Base.Result.Error.{key_error, value_error}
use typesense_python.Schemas.{Document, Value}
use typesense_python.Schemas.Value.{text}
use typesense_python.Raft.Types.{RaftCommand}
use typesense_python.Storage.{Key, key_eq, Appends, StorageRecord, append_document, append_delete}
use typesense_python.Storage.StorageRecord.{upsert, delete}
use typesense_python.Index
use typesense_python.Index.{InvertedIndex, new_index}

pub record SearchNode : Type 0 where
  pub storage : Appends
  pub indexes : Dict Key InvertedIndex

abbrev pub index_or_new : Option InvertedIndex → InvertedIndex
index_or_new none = new_index
index_or_new (some ix) = ix

-- self._index_for(shard_id, collection)
unfoldable pub index_for : SearchNode → Key → InvertedIndex
index_for node k = index_or_new (get node.indexes k)

-- What `_index_for` leaves: the index is there from then on.
unfoldable pub with_index : SearchNode → Key → SearchNode
with_index node k = record node { indexes = put node.indexes k (index_for node k) }

abbrev pub Reply : Type 0
Reply = SearchNode × Result Document

unfoldable pub add_document : SearchNode → Key → Document → Reply
add_document node k document = elim (Index.add_document (index_for node k) document) [
  | raise e ↦ (with_index node k, raise e)
  | ok ix ↦ (
    record { storage = append_document node.storage k document; indexes = put node.indexes k ix },
    ok document,
  )
]

unfoldable pub get_document : SearchNode → Key → Str → Reply
get_document node k id = (with_index node k, Index.get_document (index_for node k) id)

-- {**current, **changes}
unfoldable pub merge : Document → Document → Document
merge current [] = current
merge current ((f, v) ∷ changes) = merge (put current f v) changes

-- "id" in changes and changes["id"] != document_id
abbrev pub is_other_id : Option Value → Str → Bool
is_other_id (some (text s)) id = not (str_eq s id)
is_other_id (some v) id = true
is_other_id none id = false

unfoldable pub updated_document : Document → Document → Str → Document
updated_document current changes id = put (merge current changes) (codes "id") (text id)

unfoldable pub update_document : SearchNode → Key → Str → Document → Reply
update_document node k id changes = elim (is_other_id (get changes (codes "id")) id) [
  | true ↦ (node, raise value_error)
  | false ↦ elim (get (index_for node k).documents id) [
    | none ↦ (with_index node k, raise key_error)
    | some current ↦ add_document (with_index node k) k (updated_document current changes id)
  ]
]

unfoldable pub delete_document : SearchNode → Key → Str → Reply
delete_document node k id = elim (Index.delete_document (index_for node k) id) [
  | raise e ↦ (with_index node k, raise e)
  | ok (deleted, ix) ↦ (
    record { storage = append_delete node.storage k id; indexes = put node.indexes k ix },
    ok deleted,
  )
]

-- str(command.get("collection") or "")
abbrev pub collection_of : RaftCommand → Str
collection_of command = elim command.collection [ none ↦ [] | some c ↦ c ]

pub data CommandType : Type 0 where
  adds updates deletes unknown : CommandType

abbrev pub type_of : Option Str → CommandType
type_of none = unknown
type_of (some t) =
    if str_eq t (codes "add_document")
    then adds
    else (if str_eq t (codes "update_document")
        then updates
        else (if str_eq t (codes "delete_document") then deletes else unknown))

-- command["document"], command["document_id"] and command["changes"] raise on a missing key.
unfoldable pub apply_add : SearchNode → Key → Option Document → Reply
apply_add node k none = (node, raise key_error)
apply_add node k (some document) = add_document node k document

unfoldable pub apply_update : SearchNode → Key → Option Str → Option Document → Reply
apply_update node k (some id) (some changes) = update_document node k id changes
apply_update node k _ _ = (node, raise key_error)

unfoldable pub apply_delete : SearchNode → Key → Option Str → Reply
apply_delete node k none = (node, raise key_error)
apply_delete node k (some id) = delete_document node k id

unfoldable pub apply_typed : CommandType → SearchNode → Key → RaftCommand → Reply
apply_typed adds node k command = apply_add node k command.document
apply_typed updates node k command = apply_update node k command.document_id command.changes
apply_typed deletes node k command = apply_delete node k command.document_id
apply_typed unknown node k command = (node, raise value_error)

unfoldable pub apply_raft_command : SearchNode → ℕ → RaftCommand → Reply
apply_raft_command node shard command =
    apply_typed (type_of command.type) node (shard, collection_of command) command

-- One round of the loop of `_reload`: a document that is not there is passed over.
unfoldable pub replay_record : InvertedIndex → StorageRecord → Result InvertedIndex
replay_record ix (upsert document) = Index.add_document ix document
replay_record ix (delete id) = elim (Index.delete_document ix id) [
  | raise e ↦ ok ix
  | ok (deleted, ix') ↦ ok ix'
]

unfoldable pub replay : InvertedIndex → List StorageRecord → Result InvertedIndex
replay ix [] = ok ix
replay ix (r ∷ rs) = replay_record ix r >>= λ ix'. replay ix' rs
