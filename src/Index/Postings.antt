-- ===== src/Index/Postings.antt =====
-- src/typesense_lite/index.py: the two loops over a document's terms, `add_postings` and
-- `remove_postings`, at every posting.
use typesense_python.Base.{
  if◌then◌else◌, Option-cases, nat_eq, Str, str_eq, str_eq_iff, text_eq, ℕ, ◌≡◌, refl, ◌∙◌, inl,
  inr, true, false, Option, none, some, [], ◌∷◌, arith,
}
use typesense_python.Base.Dict.{
  Dict, get, put, remove, get-put, get-remove, Unique, put-Unique, remove-Unique,
}
use mathlib.Core.Path.{subst}
use typesense_python.Index.{Counter, postings_of, add_postings, remove_posting, remove_postings}

-- self._index.get(term, {}).get(document_id)
unfoldable pub posting : Dict Str Counter → Str → Str → Option ℕ
posting index t d = get (postings_of (get index t)) d

posting-put :
    (index : Dict Str Counter) (t t' : Str) (p : Counter) (d : Str)
    → posting (put index t p) t' d ≡ (if str_eq t t' then get p d else posting index t' d)
unfolding posting
posting-put index t t' p d =
    rw (get-put index t t' p)
      (elim (str_eq t t')
        as (λ b.
          get (postings_of (if b then some p else get index t')) d
          ≡ (if b then get p d else get (postings_of (get index t')) d)) [
            | true ↦ refl
            | false ↦ refl
          ])

posting-remove :
    (index : Dict Str Counter) (t t' d : Str)
    → posting (remove index t) t' d ≡ (if str_eq t t' then none else posting index t' d)
unfolding posting get
posting-remove index t t' d =
    rw (get-remove index t t')
      (elim (str_eq t t')
        as (λ b.
          get (postings_of (if b then none else get index t')) d
          ≡ (if b then none else get (postings_of (get index t')) d)) [
            | true ↦ refl
            | false ↦ refl
          ])

add_one :
    (index : Dict Str Counter) (id t : Str) (n : ℕ) (t' d : Str)
    → posting (put index t (put (postings_of (get index t)) id n)) t' d ≡ (
        if str_eq t t'
        then (if str_eq id d then some n else posting index t' d)
        else posting index t' d)
unfolding posting
add_one index id t n t' d = ground (
  arith,
  posting-put index t t' (put (postings_of (get index t)) id n) d,
  get-put (postings_of (get index t)) id d n,
  str_eq_iff t t',
)

-- The posting that a document's terms give, or else the old one.
abbrev pub or_else : Option ℕ → Option ℕ → Option ℕ
or_else none o = o
or_else (some n) o = some n

pub posting-add_postings :
    (index : Dict Str Counter) (id : Str) (terms : Counter) (t d : Str)
    → Unique terms
    → posting (add_postings index id terms) t d
      ≡ (if str_eq id d then or_else (get terms t) (posting index t d) else posting index t d)
unfolding add_postings get
posting-add_postings index id [] t d u = ground arith
posting-add_postings index id ((u', n) ∷ terms) t d u =
    let rest =
      posting-add_postings (put index u' (put (postings_of (get index u')) id n)) id terms t d
        (u.1) in
    rest
    ∙ rw (add_one index id u' n t d)
        (ground (arith, u.0, str_eq_iff u' t, Option-cases (get terms t)))

-- What is left of the postings, stored back or dropped.
stored :
    (index : Dict Str Counter) (t : Str) (q : Counter) (t' d : Str)
    → posting (elim q [ [] ↦ remove index t | p ∷ ps ↦ put index t (p ∷ ps) ]) t' d
      ≡ (if str_eq t t' then get q d else posting index t' d)
unfolding get
stored index t [] t' d = posting-remove index t t' d
stored index t (p ∷ ps) t' d = posting-put index t t' (p ∷ ps) d

remove_one :
    (index : Dict Str Counter) (id t t' d : Str)
    → posting (remove_posting index id t) t' d ≡ (
        if str_eq t t'
        then (if str_eq id d then none else posting index t' d)
        else posting index t' d)
unfolding remove_posting posting get
remove_one index id t t' d = elim (Option-cases (get index t)) [
  | inl e ↦ rw (remove_posting, e) (ground (arith, e, str_eq_iff t t'))
  | inr (p, e) ↦
      rw (remove_posting, e)
        (stored index t (remove p id) t' d
          ∙ rw (get-remove p id d) (ground (arith, e, str_eq_iff t t')))
]

pub posting-remove_postings :
    (index : Dict Str Counter) (id : Str) (terms : Counter) (t d : Str)
    → posting (remove_postings index id terms) t d ≡ (
        if str_eq id d
        then elim (get terms t) [ none ↦ posting index t d | some n ↦ none ]
        else posting index t d)
unfolding remove_postings get
posting-remove_postings index id [] t d = ground arith
posting-remove_postings index id ((u', n) ∷ terms) t d =
    posting-remove_postings (remove_posting index id u') id terms t d
    ∙ ground (arith, remove_one index id u' t d, str_eq_iff u' t, Option-cases (get terms t))

-- No document stands twice in the postings of a term.
abbrev AllUnique : Dict Str Counter → Type 0
AllUnique index = (t : Str) → Unique (postings_of (get index t))

put-AllUnique :
    (index : Dict Str Counter) (t : Str) (p : Counter)
    → AllUnique index
    → Unique p
    → AllUnique (put index t p)
put-AllUnique index t p h u t' =
    rw (get-put index t t' p)
      (elim (str_eq t t') as (λ b. Unique (postings_of (if b then some p else get index t'))) [
        | true ↦ u
        | false ↦ h t'
      ])

remove-AllUnique :
    (index : Dict Str Counter) (t : Str) → AllUnique index → AllUnique (remove index t)
remove-AllUnique index t h t' =
    rw (get-remove index t t')
      (elim (str_eq t t') as (λ b. Unique (postings_of (if b then none else get index t'))) [
        | true ↦ tt
        | false ↦ h t'
      ])

pub add_postings-Unique :
    (index : Dict Str Counter) (id : Str) (terms : Counter) (t : Str)
    → AllUnique index
    → Unique (postings_of (get (add_postings index id terms) t))
unfolding add_postings
add_postings-Unique index id [] t h = h t
add_postings-Unique index id ((u, n) ∷ terms) t h =
    add_postings-Unique (put index u (put (postings_of (get index u)) id n)) id terms t (
      put-AllUnique index u (put (postings_of (get index u)) id n) h
        (put-Unique (postings_of (get index u)) id n (h u)))

remove_posting-AllUnique :
    (index : Dict Str Counter) (id t : Str)
    → AllUnique index
    → AllUnique (remove_posting index id t)
unfolding remove_posting
remove_posting-AllUnique index id t h = elim (Option-cases (get index t)) [
  | inl e ↦ rw (remove_posting, e) h
  | inr (p, e) ↦
      let u : Unique (remove p id) =
        remove-Unique p id (subst (λ o. Unique (postings_of o)) e (h t)) in
      rw (remove_posting, e) (stored_unique (remove p id) u)
]
  where
    stored_unique :
        (q : Counter)
        → Unique q
        → AllUnique (elim q [ [] ↦ remove index t | p ∷ ps ↦ put index t (p ∷ ps) ])
    stored_unique [] u = remove-AllUnique index t h
    stored_unique (p ∷ ps) u = put-AllUnique index t (p ∷ ps) h u

pub remove_postings-Unique :
    (index : Dict Str Counter) (id : Str) (terms : Counter) (t : Str)
    → AllUnique index
    → Unique (postings_of (get (remove_postings index id terms) t))
unfolding remove_postings
remove_postings-Unique index id [] t h = h t
remove_postings-Unique index id ((u, n) ∷ terms) t h =
    remove_postings-Unique (remove_posting index id u) id terms t
      (remove_posting-AllUnique index id u h)
