-- ===== src/Index/Invariant.antt =====
-- src/typesense_lite/index.py: the inverted index agrees with the documents, and `add_document` and
-- `delete_document` keep it so.
use typesense_python.Base.{
  if◌then◌else◌, Option-cases, nat_eq, Str, str_eq, str_eq_iff, text_eq, ◌≡◌, refl, ◌∙◌, inl, inr,
  none, some, [], arith,
}
use typesense_python.Base.Dict.{get, remove, get-put, get-remove, Unique}
use typesense_python.Base.Result.{ok}
use typesense_python.Schemas.{Document}
use mathlib.Core.Path.{subst}
use typesense_python.Index.{
  InvertedIndex, new_index, terms_of, postings_of, document_id, add_document, insert_document,
  delete_document, remove_document_terms, counter,
}
use typesense_python.Index.Counter.{count_from-Unique}
use typesense_python.Index.Postings.{
  posting, posting-add_postings, posting-remove_postings, add_postings-Unique,
  remove_postings-Unique,
}

-- What the index says of a document: the terms that are kept for it, and the frequency of each term.
pub record IsIndexed (ix : InvertedIndex) : Type 0 where
  pub terms :
      (d : Str)
      → get ix.document_terms d
        ≡ elim (get ix.documents d) [ none ↦ none | some doc ↦ some (terms_of doc) ]
  pub frequencies :
      (t d : Str)
      → posting ix.index t d
        ≡ elim (get ix.documents d) [ none ↦ none | some doc ↦ get (terms_of doc) t ]
  pub distinct : (t : Str) → Unique (postings_of (get ix.index t))

pub new_index-IsIndexed : IsIndexed new_index
unfolding get posting
new_index-IsIndexed = record { terms = λ d. refl; frequencies = λ t d. refl; distinct = λ t. tt }

terms_of-Unique : (d : Document) → Unique (terms_of d)
unfolding terms_of counter
terms_of-Unique d = count_from-Unique [] _ tt

-- Without its terms, a document has no posting, and the others are as before.
removed :
    (ix : InvertedIndex) (id : Str) (t d : Str)
    → IsIndexed ix
    → posting (remove_document_terms ix id).index t d
      ≡ (if str_eq id d then none else posting ix.index t d)
unfolding remove_document_terms get
removed ix id t d w =
    posting-remove_postings ix.index id (postings_of (get ix.document_terms id)) t d
    ∙ ground
        (arith, w.terms id, w.frequencies t d, str_eq_iff id d, Option-cases (get ix.documents id))

insert_document-IsIndexed :
    (ix : InvertedIndex) (id : Str) (doc : Document)
    → IsIndexed ix
    → IsIndexed (insert_document ix id doc)
unfolding insert_document remove_document_terms
insert_document-IsIndexed ix id doc w = record {
  terms = λ d. elim (Option-cases (get ix.documents id)) [
    | inl e ↦ ground (
      arith,
      e,
      get-put ix.documents id d doc,
      get-put ix.document_terms id d (terms_of doc),
      w.terms d,
      str_eq_iff id d,
    )
    | inr (old, e) ↦ ground (
      arith,
      e,
      get-put ix.documents id d doc,
      get-put (remove ix.document_terms id) id d (terms_of doc),
      get-remove ix.document_terms id d,
      w.terms d,
      str_eq_iff id d,
    )
  ];
  frequencies = λ t d. elim (Option-cases (get ix.documents id)) [
    | inl e ↦ rw e (
        posting-add_postings ix.index id (terms_of doc) t d (terms_of-Unique doc)
        ∙ ground (
          arith,
          e,
          get-put ix.documents id d doc,
          w.frequencies t d,
          str_eq_iff id d,
          Option-cases (get (terms_of doc) t),
        ))
    | inr (old, e) ↦ rw e (
        posting-add_postings (remove_document_terms ix id).index id (terms_of doc) t d
          (terms_of-Unique doc)
        ∙ ground (
          arith,
          e,
          get-put ix.documents id d doc,
          removed ix id t d w,
          w.frequencies t d,
          str_eq_iff id d,
          Option-cases (get (terms_of doc) t),
        ))
  ];
  distinct = λ t. elim (Option-cases (get ix.documents id)) [
    | inl e ↦ rw e (add_postings-Unique ix.index id (terms_of doc) t w.distinct)
    | inr (old, e) ↦ rw e (
        add_postings-Unique (remove_document_terms ix id).index id (terms_of doc) t (λ t'.
          remove_postings-Unique ix.index id (postings_of (get ix.document_terms id)) t'
            w.distinct))
  ];
}

delete_document-IsIndexed :
    (ix : InvertedIndex) (id : Str)
    → IsIndexed ix
    → IsIndexed (remove_document_terms (record ix { documents = remove ix.documents id }) id)
unfolding remove_document_terms
delete_document-IsIndexed ix id w = record {
  terms = λ d. ground (
    arith,
    get-remove ix.documents id d,
    get-remove ix.document_terms id d,
    w.terms d,
    str_eq_iff id d,
  );
  frequencies = λ t d.
      removed ix id t d w
      ∙ ground (arith, get-remove ix.documents id d, w.frequencies t d, str_eq_iff id d);
  distinct =
      λ t. remove_postings-Unique ix.index id (postings_of (get ix.document_terms id)) t w.distinct;
}

-- What a run of `add_document` and `delete_document` makes of an empty index.
pub data Built : InvertedIndex → Type 0 where
  fresh : Built new_index
  added :
      (ix ix' : InvertedIndex) (doc : Document)
      → Built ix
      → add_document ix doc ≡ ok ix'
      → Built ix'
  deleted :
      (ix ix' : InvertedIndex) (id : Str) (doc : Document)
      → Built ix
      → delete_document ix id ≡ ok (doc, ix')
      → Built ix'

pub add_document-cases :
    (ix ix' : InvertedIndex) (doc : Document)
    → add_document ix doc ≡ ok ix'
    → (id : Str) × (document_id doc ≡ some id) × (insert_document ix id doc ≡ ix')
unfolding add_document
add_document-cases ix ix' doc h = elim (Option-cases (document_id doc)) [
  | inl e ↦ absurd (ground (arith, e, h))
  | inr (id, e) ↦ (id, e, ground (arith, e, h))
]

pub delete_document-cases :
    (ix ix' : InvertedIndex) (id : Str) (doc : Document)
    → delete_document ix id ≡ ok (doc, ix')
    → (get ix.documents id ≡ some doc)
      × (remove_document_terms (record ix { documents = remove ix.documents id }) id ≡ ix')
unfolding delete_document
delete_document-cases ix ix' id doc h = elim (Option-cases (get ix.documents id)) [
  | inl e ↦ absurd (ground (arith, e, h))
  | inr (old, e) ↦ (ground (arith, e, h), ground (arith, e, h))
]

-- Whatever documents are added, replaced and deleted, the index holds of every term and every document
-- the number of times the term occurs in the document's strings as they are now, and nothing else.
pub Built-IsIndexed : (ix : InvertedIndex) → Built ix → IsIndexed ix
Built-IsIndexed _ fresh = new_index-IsIndexed
Built-IsIndexed _ (added ix ix' doc b h) =
    let c = add_document-cases ix ix' doc h in
    subst IsIndexed (c.2) (insert_document-IsIndexed ix (c.0) doc (Built-IsIndexed ix b))
Built-IsIndexed _ (deleted ix ix' id doc b h) =
    subst IsIndexed ((delete_document-cases ix ix' id doc h).1)
      (delete_document-IsIndexed ix id (Built-IsIndexed ix b))
