-- ===== src/Node/Commands.antt =====
-- src/typesense_lite/node.py: `_collections_from_commands`, the documents that the committed commands
-- describe. `str_of` is Python's `str` on a JSON value.
pub mod Effects
pub mod Agreement
use typesense_python.Base.{
  nat_eq, filter, Str, codes, text_eq, Bool, true, false, Option, none, some, List, [], ◌∷◌, map,
}
use typesense_python.Base.Dict.{Dict, get, put, remove}
use typesense_python.Base.Order.{sort}
use typesense_python.Base.Result.{Result, ok, raise, ◌>>=◌}
use typesense_python.Base.Result.Error.{key_error}
use typesense_python.Schemas.{Document, Value}
use typesense_python.Raft.Types.{RaftCommand}
use typesense_python.Index.{str_le}
use typesense_python.Node.{CommandType, type_of, collection_of, updated_document}
use typesense_python.Node.CommandType.{adds, updates, deletes, unknown}

abbrev pub Documents : Type 0
Documents = Dict Str Document

abbrev pub Collections : Type 0
Collections = Dict Str Documents

abbrev pub documents_of : Option Documents → Documents
documents_of none = []
documents_of (some ds) = ds

module _ (str_of : Value → Str) where
  unfoldable pub described_add : Documents → Option Document → Result Documents
  described_add ds none = raise key_error
  described_add ds (some document) = elim (get document (codes "id")) [
    | none ↦ raise key_error
    | some v ↦ ok (put ds (str_of v) document)
  ]

  -- An update of a document that is not there is passed over.
  unfoldable pub described_update : Documents → Option Str → Option Document → Result Documents
  described_update ds none changes = raise key_error
  described_update ds (some id) changes = elim (get ds id) [
    | none ↦ ok ds
    | some current ↦ elim changes [
      | none ↦ raise key_error
      | some cs ↦ ok (put ds id (updated_document current cs id))
    ]
  ]

  unfoldable pub described_delete : Documents → Option Str → Result Documents
  described_delete ds none = raise key_error
  described_delete ds (some id) = ok (remove ds id)

  unfoldable pub described : CommandType → Documents → RaftCommand → Result Documents
  described adds ds command = described_add ds command.document
  described updates ds command = described_update ds command.document_id command.changes
  described deletes ds command = described_delete ds command.document_id
  described unknown ds command = ok ds

  -- One round of the loop: a command without a collection is passed over.
  unfoldable pub describe_command : Collections → RaftCommand → Result Collections
  describe_command cs command = elim (collection_of command) [
    | [] ↦ ok cs
    | c ∷ s ↦ described (type_of command.type) (documents_of (get cs (c ∷ s))) command >>= λ ds.
        ok (put cs (c ∷ s) ds)
  ]

  unfoldable pub describe_commands : Collections → List RaftCommand → Result Collections
  describe_commands cs [] = ok cs
  describe_commands cs (command ∷ commands) =
      describe_command cs command >>= λ cs'. describe_commands cs' commands

  abbrev is_kept : Str × Documents → Bool
  is_kept (c, []) = false
  is_kept (c, d ∷ ds) = true

  abbrev by_name : {V : Type 0} → Str × V → Str × V → Bool
  by_name a b = str_le (a.0) (b.0)

  -- The documents of a collection in the order of their ids.
  abbrev listed : Str × Documents → Str × List Document
  listed (c, ds) = (c, map (λ (e : Str × Document). e.1) (sort by_name ds))

  unfoldable pub collections_from_commands : List RaftCommand → Result (Dict Str (List Document))
  collections_from_commands commands =
      describe_commands [] commands >>= λ cs. ok (map listed (filter is_kept (sort by_name cs)))
