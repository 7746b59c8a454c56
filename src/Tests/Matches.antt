-- ===== src/Tests/Matches.antt =====
-- The answer to a term of a query at concrete inputs.
use typesense_python.Base.{nat_eq, codes, str_eq, text_eq, ◌≡◌, refl, true, some, [], ◌∷◌}
use typesense_python.Base.Dict.{get, Unique}
use typesense_python.Schemas.ℤ.{pos}
use typesense_python.Index.{Counter}
use typesense_python.Index.Query.{edit_distance, edit_rows, row_cells, row_min, count_up}
use typesense_python.Index.Query.Match.{best_match, starts_with, min_by, candidates}
use typesense_python.Index.Query.Match.Best.{IsBest, best_match-IsBest}

abbrev tokens : Counter
tokens = (codes "raft", 1) ∷ (codes "log", 2) ∷ (codes "rafter", 3) ∷ []

tokens-Unique : Unique tokens
unfolding get str_eq
tokens-Unique = (refl, (refl, (refl, tt)))

by_prefix : best_match (codes "raf") tokens true (pos 0) ≡ some (codes "raft", 85)
unfolding best_match get str_eq starts_with min_by
by_prefix = refl

by_typo : best_match (codes "lok") tokens true (pos 1) ≡ some (codes "log", 70)
unfolding best_match get str_eq starts_with min_by candidates edit_distance edit_rows row_cells
    row_min count_up
by_typo = refl

best_match-IsBest_example :
    IsBest (codes "lok") tokens true (pos 1) (best_match (codes "lok") tokens true (pos 1))
best_match-IsBest_example = best_match-IsBest (codes "lok") tokens tokens-Unique true (pos 1)
