-- ===== src/Index.antt =====
-- src/typesense_lite/index.py: the documents of one collection on one shard and their inverted index.
pub mod Counter
pub mod Postings
pub mod Search
pub mod Query
pub mod Invariant
use typesense_python.Base.{
  ltb, ◌==◌, if◌then◌else◌, nat_eq, Str, codes, str_eq, text_eq, ℕ, ◌+◌, Bool, true, false, Option,
  none, some, List, [], ◌∷◌, ◌++◌, map,
}
use typesense_python.Base.Dict.{Dict, get, put, remove}
use typesense_python.Base.Order.{sort}
use typesense_python.Base.Result.{Result, ok, raise}
use typesense_python.Base.Result.Error.{key_error, value_error}
use typesense_python.Schemas.{Document, Value}
use typesense_python.Schemas.Value.{text}
use typesense_python.Tokenizer.{tokenize}

-- collections.Counter
abbrev pub Counter : Type 0
Counter = Dict Str ℕ

abbrev pub get_count : Option ℕ → ℕ
get_count none = 0
get_count (some n) = n

unfoldable pub count_from : Counter → List Str → Counter
count_from c [] = c
count_from c (t ∷ ts) = count_from (put c t (get_count (get c t) + 1)) ts

unfoldable pub counter : List Str → Counter
counter ts = count_from [] ts

pub record InvertedIndex : Type 0 where
  pub documents : Dict Str Document
  pub index : Dict Str Counter
  pub document_terms : Dict Str Counter
  pub document_fields : Dict Str (Dict Str Counter)

abbrev pub new_index : InvertedIndex
new_index = record { documents = []; index = []; document_terms = []; document_fields = [] }

-- A document's strings but its id, with their fields.
unfoldable pub string_fields : Document → Dict Str Str
string_fields [] = []
string_fields ((k, text v) ∷ d) =
    let rest = string_fields d in if str_eq k (codes "id") then rest else (k, v) ∷ rest
string_fields ((k, v) ∷ d) = string_fields d

-- " ".join(values)
unfoldable pub join_blank : List Str → Str
join_blank [] = []
join_blank (v ∷ []) = v
join_blank (v ∷ w ∷ vs) = v ++ 32 ∷ join_blank (w ∷ vs)

unfoldable pub indexable_text : Document → Str
indexable_text d = join_blank (map (λ (f : Str × Str). f.1) (string_fields d))

-- A string that is not empty.
abbrev pub id_of : Option Value → Option Str
id_of (some (text (c ∷ s))) = some (c ∷ s)
id_of _ = none

unfoldable pub document_id : Document → Option Str
document_id d = id_of (get d (codes "id"))

unfoldable pub terms_of : Document → Counter
terms_of d = counter (tokenize (indexable_text d))

unfoldable pub field_terms_of : Document → Dict Str Counter
field_terms_of d = map (λ (f : Str × Str). (f.0, counter (tokenize f.1))) (string_fields d)

-- self._index[term], a defaultdict
abbrev pub postings_of : Option Counter → Counter
postings_of none = []
postings_of (some p) = p

-- for term, frequency in terms.items(): self._index[term][document_id] = frequency
unfoldable pub add_postings : Dict Str Counter → Str → Counter → Dict Str Counter
add_postings index id [] = index
add_postings index id ((term, frequency) ∷ terms) =
    add_postings (put index term (put (postings_of (get index term)) id frequency)) id terms

-- One round of the loop of `_remove_document_terms`.
unfoldable pub remove_posting : Dict Str Counter → Str → Str → Dict Str Counter
remove_posting index id term = elim (get index term) [
  | none ↦ index
  | some postings ↦ elim (remove postings id) [
    | [] ↦ remove index term
    | p ∷ ps ↦ put index term (p ∷ ps)
  ]
]

unfoldable pub remove_postings : Dict Str Counter → Str → Counter → Dict Str Counter
remove_postings index id [] = index
remove_postings index id ((term, frequency) ∷ terms) =
    remove_postings (remove_posting index id term) id terms

unfoldable pub remove_document_terms : InvertedIndex → Str → InvertedIndex
remove_document_terms ix id = record ix {
  index = remove_postings ix.index id (postings_of (get ix.document_terms id));
  document_terms = remove ix.document_terms id;
  document_fields = remove ix.document_fields id;
}

-- What `add_document` does with a document of this id.
unfoldable pub insert_document : InvertedIndex → Str → Document → InvertedIndex
insert_document ix id document =
    let cleaned : InvertedIndex = elim (get ix.documents id) [
      | none ↦ ix
      | some old ↦ remove_document_terms ix id
    ] in
    record {
      documents = put cleaned.documents id document;
      index = add_postings cleaned.index id (terms_of document);
      document_terms = put cleaned.document_terms id (terms_of document);
      document_fields = put cleaned.document_fields id (field_terms_of document);
    }

unfoldable pub add_document : InvertedIndex → Document → Result InvertedIndex
add_document ix document = elim (document_id document) [
  | none ↦ raise value_error
  | some id ↦ ok (insert_document ix id document)
]

unfoldable pub get_document : InvertedIndex → Str → Result Document
get_document ix id = elim (get ix.documents id) [ none ↦ raise key_error | some d ↦ ok d ]

-- Python's order on strings.
unfoldable pub str_le : Str → Str → Bool
str_le [] t = true
str_le (a ∷ s) [] = false
str_le (a ∷ s) (b ∷ t) = let rest = str_le s t in if a == b then rest else ltb a b

abbrev pub keys {κ} : {V : Type κ} → Dict Str V → List Str
keys d = map (λ (e : Str × _). e.0) d

abbrev pub values {κ} : {V : Type κ} → Dict Str V → List V
values d = map (λ (e : Str × _). e.1) d

unfoldable pub list_document_ids : InvertedIndex → List Str
list_document_ids ix = sort str_le (keys ix.documents)

unfoldable pub list_documents : InvertedIndex → List Document
list_documents ix = values (sort (λ (a b : Str × Document). str_le a.0 b.0) ix.documents)

unfoldable pub delete_document : InvertedIndex → Str → Result (Document × InvertedIndex)
delete_document ix id = elim (get ix.documents id) [
  | none ↦ raise key_error
  | some document ↦
      ok (document, remove_document_terms (record ix { documents = remove ix.documents id }) id)
]
