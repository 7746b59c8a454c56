-- ===== src/Tests/Uploads.antt =====
-- An upload of JSON at a concrete input: one object with an id, and one without.
use typesense_python.Base.{nat_eq, codes, text_eq, some, [], ◌∷◌}
use typesense_python.Schemas.Value.{text}
use typesense_python.Importer.{Loaded, parse_json}
use typesense_python.Importer.Loaded.{array}
use typesense_python.Importer.Ids.{Uploaded, parse_json-Uploaded}

abbrev upload : Loaded
upload = array (some ((codes "id", text (codes "own")) ∷ []) ∷ some [] ∷ [])

parse_json-Uploaded_example : Uploaded (codes "books") upload (parse_json upload (codes "books"))
parse_json-Uploaded_example = parse_json-Uploaded 98 (codes "ooks") upload
