-- ===== src/Importer.antt =====
-- src/typesense_lite/importer.py: `_parse_json` and `_with_generated_id`. What json.loads makes of the text is an
-- argument.
pub mod Ids
use typesense_python.Base.{
  nat_eq, Str, codes, text_eq, ℕ, ◌+◌, Option, none, some, List, [], ◌∷◌, ◌++◌,
}
use typesense_python.Base.Dict.{put}
use typesense_python.Base.Result.{Result, ok, raise}
use typesense_python.Base.Result.Error.{value_error}
use typesense_python.Schemas.{Document}
use typesense_python.Schemas.ℤ.{pos}
use typesense_python.Schemas.Value.{text}
use typesense_python.Index.{document_id}
use typesense_python.Preprocess.{str_of_int}

-- What json.loads returns: an object, an array, whose items are objects or not, or something else; or it
-- raises a JSONDecodeError.
pub data Loaded : Type 0 where
  object : Document → Loaded
  array : List (Option Document) → Loaded
  scalar : Loaded
  undecodable : Loaded

unfoldable pub with_generated_id : Document → Str → Document
with_generated_id document generated_id = elim (document_id document) [
  | some id ↦ document
  | none ↦ put document (codes "id") (text generated_id)
]

-- f"{slug}-{index}"
abbrev pub item_id : Str → ℕ → Str
item_id slug index = slug ++ (codes "-" ++ str_of_int (pos index))

-- The loop over the items from an index on.
unfoldable pub parse_items : Str → ℕ → List (Option Document) → Result (List Document)
parse_items slug index [] = ok []
parse_items slug index (none ∷ items) = raise value_error
parse_items slug index (some item ∷ items) = elim (parse_items slug (index + 1) items) [
  | ok documents ↦ ok (with_generated_id item (item_id slug index) ∷ documents)
  | raise e ↦ raise e
]

unfoldable pub parse_json : Loaded → Str → Result (List Document)
parse_json (object document) slug = ok (with_generated_id document (item_id slug 1) ∷ [])
parse_json (array items) slug = parse_items slug 1 items
parse_json scalar slug = raise value_error
parse_json undecodable slug = raise value_error
