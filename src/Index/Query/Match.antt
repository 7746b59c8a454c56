-- ===== src/Index/Query/Match.antt =====
-- `_best_match` of src/typesense_lite/index.py: the token of a field that answers a term of the query. A
-- strength is in hundredths.
pub mod Best
use typesense_python.Base.{
  ltb, if◌then◌else◌, ◌==◌, nat_eq, length, filter, Str, text_eq, ℕ, zero, suc, Bool, true, false,
  not, ◌&&◌, ◌||◌, Option, none, some, List, [], ◌∷◌,
}
use typesense_python.Base.Dict.{get}
use typesense_python.Schemas.{ℤ}
use typesense_python.Schemas.ℤ.{pos, negsuc}
use typesense_python.Index.{Counter, str_le}
use typesense_python.Index.Query.{edit_distance}

-- term.startswith(query_term)
unfoldable pub starts_with : Str → Str → Bool
starts_with term [] = true
starts_with [] (c ∷ query) = false
starts_with (d ∷ term) (c ∷ query) = d == c && starts_with term query

-- min(...): the first of the least.
unfoldable pub min_by {ℓ} : {A : Type ℓ} → (A → A → Bool) → A → List A → A
min_by less best [] = best
min_by less best (x ∷ xs) = min_by less (if less x best then x else best) xs

-- A token and how often it stands in the field: (len(term), -terms[term])
abbrev pub shorter : Str × ℕ → Str × ℕ → Bool
shorter (s, m) (t, n) = ltb (length s) (length t) || ((length s == length t) && ltb n m)

-- (distance, -terms[term], term)
abbrev pub nearer : ℕ × ℕ × Str → ℕ × ℕ × Str → Bool
nearer (d, m, s) (e, n, t) = ltb d e || ((d == e) && (ltb n m || ((m == n) && not (str_le t s))))

unfoldable pub candidates : Str → ℕ → Counter → List (ℕ × ℕ × Str)
candidates query limit [] = []
candidates query limit ((term, n) ∷ terms) =
    let rest = candidates query limit terms in
    elim (edit_distance query term limit) [
      | none ↦ rest
      | some distance ↦ (distance, n, term) ∷ rest
    ]

abbrev pub typo_match : List (ℕ × ℕ × Str) → Option (Str × ℕ)
typo_match [] = none
typo_match (c ∷ cs) =
    let (distance, n, term) = min_by nearer c cs in some (term, (if distance == 1 then 70 else 55))

abbrev pub typos : Str → Counter → ℤ → Option (Str × ℕ)
typos query terms (negsuc n) = none
typos query terms (pos zero) = none
typos query terms (pos (suc n)) = typo_match (candidates query (suc n) terms)

abbrev pub prefix_matches : Str → Counter → List (Str × ℕ)
prefix_matches query terms = filter (λ (e : Str × ℕ). starts_with (e.0) query) terms

abbrev pub prefix_or : List (Str × ℕ) → Option (Str × ℕ) → Option (Str × ℕ)
prefix_or [] other = other
prefix_or (m ∷ ms) other = some ((min_by shorter m ms).0, 85)

unfoldable pub best_match : Str → Counter → Bool → ℤ → Option (Str × ℕ)
best_match query terms prefix num_typos = elim (get terms query) [
  | some n ↦ some (query, 100)
  | none ↦ elim prefix [
    | true ↦ prefix_or (prefix_matches query terms) (typos query terms num_typos)
    | false ↦ typos query terms num_typos
  ]
]
