-- ===== src/Index/Counter.antt =====
-- src/typesense_lite/index.py: `Counter` counts occurrences, and its keys are distinct.
use typesense_python.Base.{
  if◌then◌else◌, nat_eq, Str, str_eq, str_eq_iff, text_eq, ℕ, ◌+◌, ◌≡◌, List, [], ◌∷◌, arith,
}
use typesense_python.Base.Dict.{get, put, get-put, Unique, put-Unique}
use typesense_python.Index.{Counter, counter, count_from, get_count}

unfoldable pub occurrences : Str → List Str → ℕ
occurrences t [] = 0
occurrences t (u ∷ us) = (if str_eq u t then 1 else 0) + occurrences t us

pub count_from-Unique : (c : Counter) (ts : List Str) → Unique c → Unique (count_from c ts)
unfolding count_from
count_from-Unique c [] u = u
count_from-Unique c (t ∷ ts) u =
    count_from-Unique (put c t (get_count (get c t) + 1)) ts
      (put-Unique c t (get_count (get c t) + 1) u)

count_from_lem :
    (c : Counter) (ts : List Str) (t : Str)
    → get_count (get (count_from c ts) t) ≡ get_count (get c t) + occurrences t ts
unfolding count_from occurrences
count_from_lem c [] t = omega arith
count_from_lem c (u ∷ us) t = ground (
  arith,
  count_from_lem (put c u (get_count (get c u) + 1)) us t,
  get-put c u t (get_count (get c u) + 1),
  str_eq_iff u t,
)

-- A counter's entry is the number of occurrences.
pub counter-occurrences :
    (ts : List Str) (t : Str) → get_count (get (counter ts) t) ≡ occurrences t ts
unfolding counter get
counter-occurrences ts t = omega (arith, count_from_lem [] ts t)
