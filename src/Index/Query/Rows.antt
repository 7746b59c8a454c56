-- ===== src/Index/Query/Rows.antt =====
-- `_edit_distance` of src/typesense_lite/index.py: its rows hold distances, and it may stop at a row whose
-- cells are all above the limit.
use typesense_python.Base.{
  ltb, leb, ◌==◌, if◌then◌else◌, ltb→lt, leb→le, le→leb, lt→not-leb, Bool-cases, nat_eq, length,
  All, Str, text_eq, ℕ, suc, ◌+◌, ◌≤◌, ◌<◌, min, ◌≡◌, refl, sym, ap, ◌∙◌, inl, inr, Option, none,
  some, List, [], ◌∷◌, arith,
}
use mathlib.Core.Path.{subst}
use typesense_python.Index.Query.{
  row_cells, row_min, count_up, edit_rows, edit_distance, last_cell, lengths_differ,
}
use typesense_python.Index.Query.Edits.{
  Edits, distance, distance-least, distance-nil, distance-Edits, distance-onto, length-Edits, onto,
}

-- The distances from a text, read backwards, to the starts of another.
unfoldable distances : Str → Str → Str → List ℕ
distances a b [] = distance a b ∷ []
distances a b (r ∷ right) = distance a b ∷ distances a (r ∷ b) right

-- A row behind its first cell.
next_cells :
    (c : ℕ) (a b right : Str)
    → distances (c ∷ a) b right
      ≡ distance (c ∷ a) b ∷ row_cells c right (distances a b right) (distance (c ∷ a) b)
unfolding distances row_cells distance
next_cells c a b [] = refl
next_cells c a b (r ∷ []) = refl
next_cells c a b (r ∷ s ∷ right) =
    ap (λ x. distance (c ∷ a) b ∷ x) (next_cells c a (r ∷ b) (s ∷ right))

first_row : (b right : Str) → count_up (length b) (suc (length right)) ≡ distances [] b right
unfolding distances distance count_up
first_row b [] = refl
first_row b (r ∷ right) =
    ap (λ x. length b ∷ x)
      (ap (λ i. count_up i (suc (length right))) (omega arith) ∙ first_row (r ∷ b) right)

last_cell-distances :
    (a b right : Str) → last_cell (distances a b right) ≡ distance a (onto right b)
unfolding distances onto
last_cell-distances a b [] = refl
last_cell-distances a b (r ∷ []) = refl
last_cell-distances a b (r ∷ s ∷ right) = last_cell-distances a (r ∷ b) (s ∷ right)

-- All cells are above the limit.
abbrev Above : ℕ → List ℕ → Type 0
Above limit cells = All (λ v. limit < v) cells

row_min-Above :
    (limit m : ℕ) (cells : List ℕ) → limit < row_min m cells → (limit < m) × Above limit cells
unfolding row_min
row_min-Above limit m [] h = (h, tt)
row_min-Above limit m (v ∷ vs) h =
    let (x, y) = row_min-Above limit (min m v) vs h in (omega (arith, x), (omega (arith, x), y))

row_cells-Above :
    (limit c : ℕ) (right : Str) (previous : List ℕ) (left : ℕ)
    → limit < left
    → Above limit previous
    → Above limit (row_cells c right previous left)
unfolding row_cells
row_cells-Above limit c [] previous left h t = tt
row_cells-Above limit c (r ∷ right) [] left h t = tt
row_cells-Above limit c (r ∷ right) (p ∷ []) left h t = tt
row_cells-Above limit c (r ∷ right) (p ∷ q ∷ previous) left h (x, (y, t)) =
    let v : limit < min (min (left + 1) (q + 1)) (if c == r then p else p + 1) =
      ground (arith, h, x, y) in
    (v, row_cells-Above limit c right (q ∷ previous) _ v (y, t))

-- What the end of the loop makes of the last cell.
abbrev within : ℕ → ℕ → Option ℕ
within limit n = if leb n limit then some n else none

within-Above : (limit n : ℕ) → limit < n → within limit n ≡ none
within-Above limit n h = rw (lt→not-leb n limit h) refl

head-Above : (limit : ℕ) (a right : Str) → Above limit (distances a [] right) → limit < length a
unfolding distances
head-Above limit a [] h = omega (arith, h.0, distance-nil a)
head-Above limit a (r ∷ right) h = omega (arith, h.0, distance-nil a)

last-Above :
    (limit : ℕ) (a b right : Str)
    → Above limit (distances a b right)
    → limit < distance a (onto right b)
unfolding distances onto
last-Above limit a b [] h = h.0
last-Above limit a b (r ∷ right) h = last-Above limit a (r ∷ b) right h.1

next_row :
    (c : ℕ) (a right : Str)
    → suc (length a) ∷ row_cells c right (distances a [] right) (suc (length a))
      ≡ distances (c ∷ a) [] right
unfolding distance
next_row c a right = sym (next_cells c a [] right)

-- The distances to the longer starts are above the limit too.
later-Above :
    (limit : ℕ) (left a right : Str)
    → Above limit (distances a [] right)
    → limit < distance (onto left a) (onto right [])
unfolding onto
later-Above limit [] a right h = last-Above limit a [] right h
later-Above limit (c ∷ left) a right h =
    let first : limit < suc (length a) = omega (arith, head-Above limit a right h) in
    later-Above limit left (c ∷ a) right (
      subst (Above limit) (next_row c a right)
        (first, row_cells-Above limit c right (distances a [] right) _ first h))

edit_rows_lem :
    (limit : ℕ) (left a right : Str)
    → edit_rows limit left right (suc (length a)) (distances a [] right)
      ≡ within limit (distance (onto left a) (onto right []))
unfolding edit_rows onto
edit_rows_lem limit [] a right = ap (within limit) (last_cell-distances a [] right)
edit_rows_lem limit (c ∷ left) a right =
    let cells = row_cells c right (distances a [] right) (suc (length a)) in
    elim (Bool-cases (ltb limit (row_min (suc (length a)) cells))) [
      | inl e ↦
          let above = row_min-Above limit (suc (length a)) cells (ltb→lt limit _ e) in
          rw (edit_rows, e)
            (sym (
              within-Above limit _ (
                later-Above limit left (c ∷ a) right
                  (subst (Above limit) (next_row c a right) above))))
      | inr e ↦
          rw (edit_rows, e)
            (ap (λ i. edit_rows limit left right i (suc (length a) ∷ cells)) (omega arith)
              ∙ ap (edit_rows limit left right (suc (suc (length a)))) (next_row c a right)
              ∙ edit_rows_lem limit left (c ∷ a) right)
    ]

edit_distance-distance :
    (left right : Str) (limit : ℕ)
    → edit_distance left right limit
      ≡ (if leb (distance left right) limit then some (distance left right) else none)
unfolding edit_distance
edit_distance-distance left right limit =
    elim (Bool-cases (lengths_differ (length left) (length right) limit)) [
      | inl e ↦
          let far = ltb→lt limit _ e in
          let (x, y) = length-Edits left right (distance left right) (distance-Edits left right) in
          rw (edit_distance, e) (sym (within-Above limit _ (omega (arith, far, x, y))))
      | inr e ↦
          rw (edit_distance, e)
            (ap (edit_rows limit left right 1) (ap (count_up 0) (omega arith) ∙ first_row [] right)
              ∙ edit_rows_lem limit left [] right
              ∙ ap (within limit) (distance-onto left right))
    ]

-- The least number of edits, where it is within the limit.
abbrev pub IsLeast : Str → Str → ℕ → Option ℕ → Type 0
IsLeast left right limit (some n) =
    (n ≤ limit) × Edits left right n × ((m : ℕ) → Edits left right m → n ≤ m)
IsLeast left right limit none = (m : ℕ) → Edits left right m → limit < m

-- The edit distance of two texts is the least number of insertions, deletions and replacements that
-- turn one into the other if this is within the limit; it is none only if any way takes more edits
-- than the limit: neither the test of the lengths nor the early end of the loop loses a distance.
pub edit_distance-IsLeast :
    (left right : Str) (limit : ℕ) → IsLeast left right limit (edit_distance left right limit)
edit_distance-IsLeast left right limit =
    let least = distance-least left right in
    elim (Bool-cases (leb (distance left right) limit)) [
      | inl e ↦
          rw (edit_distance-distance left right limit, e)
            (leb→le _ limit e, distance-Edits left right, least)
      | inr e ↦
          rw (edit_distance-distance left right limit, e)
            (λ m h. ground (arith, e, least m h, le→leb (distance left right) limit))
    ]
