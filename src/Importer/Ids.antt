-- ===== src/Importer/Ids.antt =====
-- src/typesense_lite/importer.py: the ids of the documents that an upload gives.
use typesense_python.Base.{
  Option-cases, nat_eq, any, Str, codes, text_eq, ℕ, ◌+◌, ◌≡◌, refl, ap, inl, inr, Bool, true,
  false, Option, none, some, List, [], ◌∷◌, arith,
}
use typesense_python.Base.Dict.{put, get-put_self}
use typesense_python.Base.Result.{Result, ok, raise}
use typesense_python.Schemas.{Document}
use typesense_python.Schemas.Value.{text}
use typesense_python.Index.{document_id, id_of}
use typesense_python.Importer.{Loaded, with_generated_id, item_id, parse_items, parse_json}
use typesense_python.Importer.Loaded.{object, array, scalar, undecodable}

-- A document of an upload: it has an id, its own if it came with one.
abbrev pub IsNamed : Document → Str → Document → Type 0
IsNamed item generated_id document =
    ((id : Str) × (document_id document ≡ some id))
    × ((id : Str) → document_id item ≡ some id → document ≡ item)
    × (document_id item ≡ none → document_id document ≡ some generated_id)

with_generated_id-IsNamed :
    (item : Document) (c : ℕ) (s : Str) → IsNamed item (c ∷ s) (with_generated_id item (c ∷ s))
unfolding with_generated_id document_id
with_generated_id-IsNamed item c s = elim (Option-cases (document_id item)) [
  | inr (id, e) ↦
      rw (with_generated_id, e) ((id, e), λ k h. refl, λ h. absurd (ground (arith, e, h)))
  | inl e ↦
      let named : document_id (put item (codes "id") (text (c ∷ s))) ≡ some (c ∷ s) =
        ap id_of (get-put_self item (codes "id") (text (c ∷ s))) in
      rw (with_generated_id, e) ((c ∷ s, named), λ k h. absurd (ground (arith, e, h)), λ h. named)
]

abbrev pub is_none : Option Document → Bool
is_none none = true
is_none (some d) = false

-- The documents of the items, in their order.
abbrev pub AllNamed : Str → ℕ → List (Option Document) → List Document → Type 0
AllNamed slug index [] [] = Unit
AllNamed slug index (some item ∷ items) (document ∷ documents) =
    IsNamed item (item_id slug index) document × AllNamed slug (index + 1) items documents
AllNamed slug index _ _ = true ≡ false

-- What becomes of the items: documents, or an error since one of them is no object.
abbrev pub Parsed : Str → ℕ → List (Option Document) → Result (List Document) → Type 0
Parsed slug index items (ok documents) = AllNamed slug index items documents
Parsed slug index items (raise e) = any is_none items ≡ true

abbrev pub IsRaised : Result (List Document) → Type 0
IsRaised (ok documents) = true ≡ false
IsRaised (raise e) = Unit

abbrev pub Uploaded : Str → Loaded → Result (List Document) → Type 0
Uploaded slug (object document) r = Parsed slug 1 (some document ∷ []) r
Uploaded slug (array items) r = Parsed slug 1 items r
Uploaded slug scalar r = IsRaised r
Uploaded slug undecodable r = IsRaised r

parse_items-Parsed :
    (c : ℕ) (s : Str) (index : ℕ) (items : List (Option Document))
    → Parsed (c ∷ s) index items (parse_items (c ∷ s) index items)
unfolding parse_items
parse_items-Parsed c s index [] = tt
parse_items-Parsed c s index (none ∷ items) = refl
parse_items-Parsed c s index (some item ∷ items) =
    elim (parse_items (c ∷ s) (index + 1) items)
        as (λ r.
          Parsed (c ∷ s) (index + 1) items r
          → Parsed (c ∷ s) index (some item ∷ items) (elim r [
            | ok documents ↦ ok (with_generated_id item (item_id (c ∷ s) index) ∷ documents)
            | raise e ↦ raise e
          ])) [ ok documents ↦ λ h. (with_generated_id-IsNamed item c _, h) | raise e ↦ λ h. h ]
      (parse_items-Parsed c s (index + 1) items)

-- With a slug that is not empty, an upload of JSON gives one document for each object, in order: the
-- object itself if it has an id, otherwise with the id of its place, so each document has an id. It
-- raises if and only if the JSON cannot be decoded, is no object and no array, or has an item that is no
-- object.
pub parse_json-Uploaded :
    (c : ℕ) (s : Str) (loaded : Loaded) → Uploaded (c ∷ s) loaded (parse_json loaded (c ∷ s))
unfolding parse_json
parse_json-Uploaded c s (object document) = (with_generated_id-IsNamed document c _, tt)
parse_json-Uploaded c s (array items) = parse_items-Parsed c s 1 items
parse_json-Uploaded c s scalar = tt
parse_json-Uploaded c s undecodable = tt
