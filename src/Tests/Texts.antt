-- ===== src/Tests/Texts.antt =====
-- Printing, pages and the edit distance at concrete inputs.
use typesense_python.Base.{
  nat_eq, take, Str, codes, text_eq, ℕ, ◌*◌, ◌≡◌, refl, true, none, some, List, [], ◌∷◌,
}
use typesense_python.Base.Result.{ok}
use typesense_python.Schemas.{Items}
use typesense_python.Schemas.ℤ.{pos}
use typesense_python.Schemas.Value.{text, boolean, integer}
use typesense_python.Schemas.Items.{nil, cons}
use typesense_python.Preprocess.{digits, stringify, stringify_items, str_of_int, process_param_list}
use typesense_python.Preprocess.Split.{split_commas, process_param_list-split}
use typesense_python.Index.Query.{
  at_least_one, edit_distance, edit_rows, row_cells, row_min, count_up,
}
use typesense_python.Index.Query.Rows.{IsLeast, edit_distance-IsLeast}
use typesense_python.Index.Query.Pages.{pages, pages-take}

typo : edit_distance (codes "raft") (codes "rafd") 2 ≡ some 1
unfolding edit_distance edit_rows row_cells row_min count_up
typo = refl

too_far : edit_distance (codes "raft") (codes "typo") 2 ≡ none
unfolding edit_distance edit_rows row_cells row_min count_up
too_far = refl

abbrev parameters : Items
parameters = cons (boolean true) (cons (integer (pos 10)) (cons (text (codes "c")) nil))

printed : stringify_items parameters ≡ ok (codes "true" ∷ codes "10" ∷ codes "c" ∷ [])
unfolding stringify_items stringify str_of_int digits
printed = refl

process_param_list-split_example :
    (s : Str) × (process_param_list parameters ≡ ok s)
    × (split_commas s ≡ codes "true" ∷ codes "10" ∷ codes "c" ∷ [])
process_param_list-split_example =
    process_param_list-split parameters (codes "true") (codes "10" ∷ codes "c" ∷ []) printed
      (refl, (refl, (refl, tt)))

abbrev hits : List ℕ
hits = 1 ∷ 2 ∷ 3 ∷ []

pages-take_example : pages hits 2 (pos 2) ≡ take (2 * at_least_one (pos 2)) hits
pages-take_example = pages-take hits 2 (pos 2)

edit_distance-IsLeast_example :
    IsLeast (codes "raft") (codes "rafd") 2 (edit_distance (codes "raft") (codes "rafd") 2)
edit_distance-IsLeast_example = edit_distance-IsLeast (codes "raft") (codes "rafd") 2
