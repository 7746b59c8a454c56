-- ===== src/Index/Query.antt =====
-- src/typesense_lite/index.py: parts of `search_query`: the statistics of the fields, the edit distance and
-- the pages. `avg_len` is kept as the total length and the number of documents.
pub mod Pages
pub mod Edits
pub mod Rows
pub mod Match
use typesense_python.Base.{
  ltb, leb, ◌==◌, if◌then◌else◌, nat_eq, length, take, drop, last?, any, Str, str_eq, text_eq, ℕ,
  zero, suc, ◌+◌, ◌-◌, ◌*◌, max, min, Bool, Option, none, some, List, [], ◌∷◌,
}
use typesense_python.Base.Dict.{Dict, get, put}
use typesense_python.Base.Order.{sort}
use typesense_python.Schemas.{ℤ}
use typesense_python.Schemas.ℤ.{pos, negsuc}
use typesense_python.Index.{Counter, InvertedIndex, count_from, keys, str_le}

pub record FieldStats : Type 0 where
  pub doc_freq : Counter
  pub total_length : ℕ
  pub doc_count : ℕ

-- sum(terms.values())
unfoldable pub total : Counter → ℕ
total [] = 0
total ((t, n) ∷ terms) = n + total terms

-- One round of the inner loop: a document without terms in the field is passed over.
unfoldable pub add_stats : FieldStats → Option Counter → FieldStats
add_stats stats none = stats
add_stats stats (some []) = stats
add_stats stats (some (e ∷ terms)) = record {
  doc_freq = count_from stats.doc_freq (keys (e ∷ terms));
  total_length = stats.total_length + total (e ∷ terms);
  doc_count = stats.doc_count + 1;
}

unfoldable pub field_stats : FieldStats → Str → Dict Str (Dict Str Counter) → FieldStats
field_stats stats field [] = stats
field_stats stats field ((id, fields) ∷ documents) =
    field_stats (add_stats stats (get fields field)) field documents

abbrev no_stats : FieldStats
no_stats = record { doc_freq = []; total_length = 0; doc_count = 0 }

unfoldable pub build_field_stats :
    InvertedIndex → List Str → Dict Str FieldStats → Dict Str FieldStats
build_field_stats ix [] stats = stats
build_field_stats ix (field ∷ fields) stats =
    build_field_stats ix fields (put stats field (field_stats no_stats field ix.document_fields))

abbrev insert_name : List Str → List Str → List Str
insert_name names [] = names
insert_name names (f ∷ fs) =
    let more = insert_name names fs in if any (str_eq f) more then more else f ∷ more

unfoldable pub field_names : List Str → Dict Str (Dict Str Counter) → List Str
field_names names [] = names
field_names names ((id, fields) ∷ documents) =
    field_names (insert_name names (keys fields)) documents

unfoldable pub available_string_fields : InvertedIndex → List Str
available_string_fields ix = sort str_le (field_names [] ix.document_fields)

-- The cells of a row: `previous` from the column before, and the cell to the left.
unfoldable pub row_cells : ℕ → Str → List ℕ → ℕ → List ℕ
row_cells c (r ∷ right) (p ∷ q ∷ previous) left =
    let value = min (min (left + 1) (q + 1)) (if c == r then p else p + 1) in
    value ∷ row_cells c right (q ∷ previous) value
row_cells c _ _ left = []

unfoldable pub row_min : ℕ → List ℕ → ℕ
row_min m [] = m
row_min m (v ∷ vs) = row_min (min m v) vs

unfoldable pub count_up : ℕ → ℕ → List ℕ
count_up i zero = []
count_up i (suc n) = i ∷ count_up (i + 1) n

abbrev pub last_cell : List ℕ → ℕ
last_cell row = elim (last? row) [ none ↦ 0 | some v ↦ v ]

-- The loop over the rows, which ends early when all cells of a row are above the limit.
unfoldable pub edit_rows : ℕ → Str → Str → ℕ → List ℕ → Option ℕ
edit_rows limit [] right row previous =
    if leb (last_cell previous) limit then some (last_cell previous) else none
edit_rows limit (c ∷ left) right row previous =
    let cells = row_cells c right previous row in
    let rest = edit_rows limit left right (row + 1) (row ∷ cells) in
    if ltb limit (row_min row cells) then none else rest

-- abs(len(left) - len(right)) > max_distance
abbrev pub lengths_differ : ℕ → ℕ → ℕ → Bool
lengths_differ m n limit = ltb limit ((m - n) + (n - m))

unfoldable pub edit_distance : Str → Str → ℕ → Option ℕ
edit_distance left right limit =
    if lengths_differ (length left) (length right) limit
    then none
    else edit_rows limit left right 1 (count_up 0 (length right + 1))

-- max(n, 1)
unfoldable pub at_least_one : ℤ → ℕ
at_least_one (pos n) = max n 1
at_least_one (negsuc n) = 1

unfoldable pub paginate {ℓ} : {A : Type ℓ} → List A → ℤ → Option ℤ → List A
paginate hits page none = hits
paginate hits page (some per_page) =
    take (at_least_one per_page) (drop ((at_least_one page - 1) * at_least_one per_page) hits)
