-- ===== src/Preprocess/Split.antt =====
-- src/typesense/preprocess.py: what a server that splits at the commas reads.
use typesense_python.Base.{
  ◌==◌, if◌then◌else◌, nat_eq, any, All, Str, text_eq, ℕ, ◌≡◌, refl, ap, ◌∙◌, false, List, [], ◌∷◌,
  ◌++◌, arith,
}
use typesense_python.Base.Result.{ok}
use typesense_python.Schemas.{Items}
use typesense_python.Preprocess.{stringify_items, join_commas, process_param_list}

abbrev cons_head : ℕ → List Str → List Str
cons_head c [] = (c ∷ []) ∷ []
cons_head c (p ∷ ps) = (c ∷ p) ∷ ps

-- s.split(",")
unfoldable pub split_commas : Str → List Str
split_commas [] = [] ∷ []
split_commas (c ∷ s) = let rest = split_commas s in if c == 44 then [] ∷ rest else cons_head c rest

abbrev pub NoComma : Str → Type 0
NoComma p = any (λ c. c == 44) p ≡ false

split_commas_last : (p : Str) → NoComma p → split_commas p ≡ p ∷ []
unfolding split_commas
split_commas_last [] h = refl
split_commas_last (c ∷ p) h = ground (arith, h, split_commas_last p)

split_commas_first : (p s : Str) → NoComma p → split_commas (p ++ 44 ∷ s) ≡ p ∷ split_commas s
unfolding split_commas
split_commas_first [] s h = refl
split_commas_first (c ∷ p) s h = ground (arith, h, split_commas_first p s)

split_commas-join_commas :
    (p : Str) (ps : List Str)
    → NoComma p
    → All NoComma ps
    → split_commas (join_commas (p ∷ ps)) ≡ p ∷ ps
unfolding join_commas
split_commas-join_commas p [] h a = split_commas_last p h
split_commas-join_commas p (q ∷ ps) h a =
    split_commas_first p (join_commas (q ∷ ps)) h
    ∙ ap (λ qs. p ∷ qs) (split_commas-join_commas q ps (a.0) (a.1))

-- When a list of parameters prints as texts without a comma, and there is at least one, the texts are
-- what the printed list gives when it is split at its commas.
pub process_param_list-split :
    (parameters : Items) (p : Str) (ps : List Str)
    → stringify_items parameters ≡ ok (p ∷ ps)
    → All NoComma (p ∷ ps)
    → (s : Str) × (process_param_list parameters ≡ ok s) × (split_commas s ≡ p ∷ ps)
unfolding process_param_list
process_param_list-split parameters p ps h a =
    (join_commas (p ∷ ps), rw h refl, split_commas-join_commas p ps (a.0) (a.1))
