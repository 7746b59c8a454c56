-- ===== src/Node/Listing.antt =====
-- src/typesense_lite/node.py: what a node lists and exports. `stored` is what `iter_collection_paths` of storage.py
-- reads from the directories.
use typesense_python.Base.{
  ◌==◌, if◌then◌else◌, nat_eq, any, Str, str_eq, text_eq, ℕ, List, [], ◌∷◌, ◌++◌, map,
}
use typesense_python.Base.Order.{sort}
use typesense_python.Schemas.{ℤ, Document}
use typesense_python.Base.Result.{Result, ok, ◌>>=◌}
use typesense_python.Index.Search.{SearchHit, search}
use typesense_python.Index
use typesense_python.Index.{str_le}
use typesense_python.Storage.{Key}
use typesense_python.Node.{SearchNode, index_for, with_index}

-- A set of names, as the list of its members.
abbrev add_name : Str → List Str → List Str
add_name name names = if any (str_eq name) names then names else name ∷ names

abbrev keys_of {ℓ} : {V : Type ℓ} → List (Key × V) → List Key
keys_of d = map (λ (e : Key × _). e.0) d

-- The names of the collections of one shard.
unfoldable pub names_of_shard : ℕ → List Key → List Str
names_of_shard shard [] = []
names_of_shard shard ((s, c) ∷ ks) =
    let names = names_of_shard shard ks in if s == shard then add_name c names else names

unfoldable pub names_of : List Key → List Str
names_of [] = []
names_of ((s, c) ∷ ks) = add_name c (names_of ks)

unfoldable pub list_collections : List Key → SearchNode → List Str
list_collections stored node = sort str_le (names_of (stored ++ keys_of node.indexes))

unfoldable pub node_documents : SearchNode → Key → SearchNode × List Document
node_documents node k = (with_index node k, Index.list_documents (index_for node k))

unfoldable pub node_document_ids : SearchNode → Key → SearchNode × List Str
node_document_ids node k = (with_index node k, Index.list_document_ids (index_for node k))

-- {collection: self.list_documents(shard_id, collection) for collection in names}
unfoldable pub export_names : SearchNode → ℕ → List Str → SearchNode × List (Str × List Document)
export_names node shard [] = (node, [])
export_names node shard (c ∷ cs) =
    let (node', documents) = node_documents node (shard, c) in
    let (node'', rest) = export_names node' shard cs in (node'', (c, documents) ∷ rest)

unfoldable pub export_shard_collections :
    List Key → SearchNode → ℕ → SearchNode × List (Str × List Document)
export_shard_collections stored node shard =
    export_names node shard (sort str_le (names_of_shard shard (stored ++ keys_of node.indexes)))

-- A hit with the shard and the node that it comes from.
pub record NodeHit : Type 0 where
  pub hit : SearchHit
  pub shard_id : ℕ
  pub node_id : Str

unfoldable pub node_search :
    Str → SearchNode → ℕ → Str → Str → ℤ → SearchNode × Result (List NodeHit)
node_search node_id node shard collection query limit = (
  with_index node (shard, collection),
  search (index_for node (shard, collection)) query limit >>= λ hits.
      ok (map (λ h. record { hit = h; shard_id = shard; node_id = node_id }) hits),
)
