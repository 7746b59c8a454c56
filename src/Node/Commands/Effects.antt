-- ===== src/Node/Commands/Effects.antt =====
-- src/typesense_lite/node.py: what the operations of a node do to the documents that it holds.
use typesense_python.Base.{
  if◌then◌else◌, Bool-cases, Option-cases, nat_eq, Str, codes, str_eq, text_eq, ◌≡◌, refl, sym, ap,
  ◌∙◌, inl, inr, Option, none, some, [], ◌∷◌, arith,
}
use typesense_python.Base.Dict.{get, put, get-put, get-put_self, get-remove}
use typesense_python.Base.Result.{ok, Result-cases}
use typesense_python.Schemas.{Document, Value}
use typesense_python.Schemas.Value.{text, null, boolean, integer, real, array, object}
use typesense_python.Storage
use typesense_python.Index.Invariant.{add_document-cases, delete_document-cases}
use typesense_python.Storage.{Key, key_eq, key_beq, key_beq_iff}
use mathlib.Core.Path.{subst}
use typesense_python.Index
use typesense_python.Index.{InvertedIndex, document_id, id_of, insert_document}
use typesense_python.Node.{
  SearchNode, index_for, index_or_new, with_index, add_document, update_document, delete_document,
  updated_document, merge, is_other_id,
}

-- The document that a node holds.
abbrev pub held : SearchNode → Key → Str → Option Document
held node k d = get (index_for node k).documents d

-- What a command does to the documents under one key: `f` says what is there afterwards.
abbrev pub Changes : SearchNode → SearchNode → Key → (Str → Option Document) → Type 0
Changes node node' k f =
    (j : Key) (d : Str) → held node' j d ≡ (if key_beq k j then f d else held node j d)

insert_document-documents :
    (ix : InvertedIndex) (id : Str) (doc : Document)
    → (insert_document ix id doc).documents ≡ put ix.documents id doc
unfolding insert_document Index.remove_document_terms
insert_document-documents ix id doc = elim (Option-cases (get ix.documents id)) [
  | inl e ↦ rw e refl
  | inr (old, e) ↦ rw e refl
]

held-with_index :
    (node : SearchNode) (k j : Key) (d : Str) → held (with_index node k) j d ≡ held node j d
unfolding with_index index_for
held-with_index node k j d =
    rw (get-put node.indexes k j (index_or_new (get node.indexes k)))
      (elim (Bool-cases (key_beq k j)) [
        | inl e ↦ rw (e, sym ((key_beq_iff k j).0 e)) refl
        | inr e ↦ rw e refl
      ])

-- The index at a key is replaced.
held-put :
    (node : SearchNode) (files : Storage.Appends) (k j : Key) (ix : InvertedIndex) (d : Str)
    → held (record { storage = files; indexes = put node.indexes k ix }) j d
      ≡ (if key_beq k j then get ix.documents d else held node j d)
unfolding index_for
held-put node files k j ix d =
    rw (get-put node.indexes k j ix)
      (elim (Bool-cases (key_beq k j)) [ inl e ↦ rw e refl | inr e ↦ rw e refl ])

-- What an added document makes of the documents.
abbrev pub after_add : SearchNode → Key → Str → Document → Str → Option Document
after_add node k id doc d = if str_eq id d then some doc else held node k d

pub add_document-Changes :
    (node : SearchNode) (k : Key) (doc r : Document)
    → (add_document node k doc).1 ≡ ok r
    → (id : Str) × (document_id doc ≡ some id)
      × Changes node (add_document node k doc).0 k (after_add node k id doc)
unfolding add_document
add_document-Changes node k doc r h =
    elim (Result-cases (Index.add_document (index_for node k) doc)) [
      | inr (x, e) ↦ absurd (ground (arith, e, h))
      | inl (ix, e) ↦
          let (id, f, g) = add_document-cases (index_for node k) ix doc e in
          (
            id,
            f,
            λ j d.
                rw (add_document, e)
                  (held-put node (Storage.append_document node.storage k doc) k j ix d
                    ∙ rw
                        (
                          sym g,
                          insert_document-documents (index_for node k) id doc,
                          get-put (index_for node k).documents id d doc,
                        )
                        refl),
          )
    ]

pub delete_document-Changes :
    (node : SearchNode) (k : Key) (id : Str) (r : Document)
    → (delete_document node k id).1 ≡ ok r
    → Changes node
        (delete_document node k id).0
        k
        (λ d. if str_eq id d then none else held node k d)
unfolding delete_document Index.remove_document_terms
delete_document-Changes node k id r h j d =
    elim (Result-cases (Index.delete_document (index_for node k) id)) [
      | inr (x, e) ↦ absurd (ground (arith, e, h))
      | inl ((doc, ix), e) ↦
          let (f, g) = delete_document-cases (index_for node k) ix id doc e in
          rw (delete_document, e)
            (held-put node (Storage.append_delete node.storage k id) k j ix d
              ∙ rw (sym g, get-remove (index_for node k).documents id d) refl)
    ]

pub id_of-text : (o : Option Value) (id : Str) → id_of o ≡ some id → o ≡ some (text id)
id_of-text none id h = absurd (ground arith)
id_of-text (some (text [])) id h = absurd (ground arith)
id_of-text (some (text (c ∷ s))) id h = ap (λ t. some (text t)) (ground (arith, h))
id_of-text (some null) id h = absurd (ground arith)
id_of-text (some (boolean b)) id h = absurd (ground arith)
id_of-text (some (integer n)) id h = absurd (ground arith)
id_of-text (some (real n)) id h = absurd (ground arith)
id_of-text (some (array xs)) id h = absurd (ground arith)
id_of-text (some (object fs)) id h = absurd (ground arith)

id_of-some : (o : Option Value) (id id' : Str) → o ≡ some (text id) → id_of o ≡ some id' → id' ≡ id
id_of-some o id id' e h = text_of (subst (λ v. v ≡ some (text id)) (id_of-text o id' h) e)
  where
    text_of : {s t : Str} → some (text s) ≡ some (text t) → s ≡ t
    text_of {s} q = ap (λ v. elim v [ none ↦ s | some x ↦ elim x [ text u ↦ u | _ ↦ s ] ]) q

-- An update that succeeds finds the document and writes the merged one.
pub update_document-Changes :
    (node : SearchNode) (k : Key) (id : Str) (changes r : Document)
    → (update_document node k id changes).1 ≡ ok r
    → (current : Document) × (held node k id ≡ some current)
      × Changes node
          (update_document node k id changes).0
          k
          (after_add node k id (updated_document current changes id))
unfolding update_document updated_document document_id
update_document-Changes node k id changes r h =
    elim (Bool-cases (is_other_id (get changes (codes "id")) id)) [
      | inl o ↦ absurd (ground (arith, o, h))
      | inr o ↦ elim (Option-cases (get (index_for node k).documents id)) [
        | inl f ↦ absurd (ground (arith, o, f, h))
        | inr (current, f) ↦
            let doc = updated_document current changes id in
            let (id', g, changed) =
              add_document-Changes (with_index node k) k doc r (ground (arith, o, f, h)) in
            let same : id' ≡ id =
              id_of-some (get doc (codes "id")) id id'
                (get-put_self (merge current changes) (codes "id") (text id)) g in
            (
              current,
              f,
              λ j d.
                  rw (update_document, o, f)
                    (changed j d
                      ∙ rw (held-with_index node k k d, held-with_index node k j d, same) refl),
            )
      ]
    ]
