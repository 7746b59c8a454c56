-- ===== src/Index/Query/Match/Best.antt =====
-- `_best_match` of src/typesense_lite/index.py: no token answers a term of the query better than the one that
-- is returned.
use typesense_python.Base.{
  ◌==◌, if◌then◌else◌, Bool-cases, Option-cases, nat_eq, length, All, Str, text_eq, ℕ, zero, suc,
  ◌≤◌, ◌≡◌, refl, sym, ap, ◌∙◌, inl, inr, Bool, true, false, Option, none, some, List, [], ◌∷◌,
  arith,
}
use mathlib.Core.Path.{subst}
use typesense_python.Base.Dict.{get, Unique, All-get}
use typesense_python.Schemas.{ℤ}
use typesense_python.Schemas.ℤ.{pos, negsuc}
use typesense_python.Index.{Counter}
use typesense_python.Index.Query.{edit_distance}
use typesense_python.Index.Query.Edits.{Edits}
use typesense_python.Index.Query.Rows.{IsLeast, edit_distance-IsLeast}
use typesense_python.Index.Query.Match.{
  starts_with, min_by, shorter, nearer, candidates, typo_match, typos, prefix_matches, prefix_or,
  best_match,
}

module _ {A : Type 0} (less : A → A → Bool) where
  min_by-All : (P : A → Type 0) (x : A) (xs : List A) → P x → All P xs → P (min_by less x xs)
  unfolding min_by
  min_by-All P x [] p t = p
  min_by-All P x (y ∷ ys) p (q, t) = elim (Bool-cases (less y x)) [
    | inl e ↦ rw (min_by, e) (min_by-All P y ys q t)
    | inr e ↦ rw (min_by, e) (min_by-All P x ys p t)
  ]

  -- A measure that the order respects is least at the minimum.
  module _ (f : A → ℕ) (below : (x y : A) → less x y ≡ true → f x ≤ f y)
      (above : (x y : A) → less x y ≡ false → f y ≤ f x) where
    min_by_step :
        (x y : A) (ys : List A) (b : Bool)
        → less y x ≡ b
        → min_by less x (y ∷ ys) ≡ min_by less (if b then y else x) ys
    unfolding min_by
    min_by_step x y ys b e = ap (λ c. min_by less (if c then y else x) ys) e

    min_by_least :
        (k : ℕ) (x : A) (xs : List A) → k ≡ f (min_by less x xs) → All (λ y. k ≤ f y) (x ∷ xs)
    unfolding min_by
    min_by_least k x [] h = (omega (arith, h), tt)
    min_by_least k x (y ∷ ys) h = elim (Bool-cases (less y x)) [
      | inl e ↦
          let (a, t) = min_by_least k y ys (h ∙ ap f (min_by_step x y ys true e)) in
          (omega (arith, a, below y x e), (a, t))
      | inr e ↦
          let (a, t) = min_by_least k x ys (h ∙ ap f (min_by_step x y ys false e)) in
          (a, (omega (arith, a, above y x e), t))
    ]

shorter_below : (x y : Str × ℕ) → shorter x y ≡ true → length (x.0) ≤ length (y.0)
shorter_below (s, m) (t, n) h = ground (arith, h)

shorter_above : (x y : Str × ℕ) → shorter x y ≡ false → length (y.0) ≤ length (x.0)
shorter_above (s, m) (t, n) h = ground (arith, h)

nearer_below : (x y : ℕ × ℕ × Str) → nearer x y ≡ true → x.0 ≤ y.0
nearer_below (d, m, s) (e, n, t) h = ground (arith, h)

nearer_above : (x y : ℕ × ℕ × Str) → nearer x y ≡ false → y.0 ≤ x.0
nearer_above (d, m, s) (e, n, t) h = ground (arith, h)

module _ (query : Str) (limit : ℕ) where
  -- A candidate is a token at its distance.
  abbrev IsCandidate : Counter → ℕ × ℕ × Str → Type 0
  IsCandidate terms (d, n, t) = (get terms t ≡ some n) × (edit_distance query t limit ≡ some d)

  candidates-IsCandidate :
      (all_terms terms : Counter)
      → All (λ (e : Str × ℕ). get all_terms (e.0) ≡ some (e.1)) terms
      → All (IsCandidate all_terms) (candidates query limit terms)
  unfolding candidates
  candidates-IsCandidate all_terms [] t = tt
  candidates-IsCandidate all_terms ((term, n) ∷ terms) (p, t) =
      elim (Option-cases (edit_distance query term limit)) [
        | inl e ↦ rw (candidates, e) (candidates-IsCandidate all_terms terms t)
        | inr (d, e) ↦ rw (candidates, e) ((p, e), candidates-IsCandidate all_terms terms t)
      ]

  -- Every way to edit the query into the token takes so many edits at least.
  abbrev pub Farther : ℕ → Str × ℕ → Type 0
  Farther d e = (m : ℕ) → Edits query (e.0) m → d ≤ m

  not_nearer :
      (term : Str) (o : Option ℕ) (n : ℕ)
      → IsLeast query term limit o
      → o ≡ none
      → Farther (suc limit) (term, n)
  not_nearer term none n h e = λ m s. omega (arith, h m s)
  not_nearer term (some d) n h e = absurd (ground (arith, e))

  at_distance :
      (term : Str) (o : Option ℕ) (n d : ℕ)
      → IsLeast query term limit o
      → o ≡ some d
      → (d ≤ limit) × Edits query term d × Farther d (term, n)
  at_distance term none n d h e = absurd (ground (arith, e))
  at_distance term (some k) n d h e =
      subst (λ i. (i ≤ limit) × Edits query term i × Farther i (term, n))
        (ap (λ o. elim o [ some z ↦ z | none ↦ k ]) e) h

  candidates_skip :
      (term : Str) (n : ℕ) (terms : Counter)
      → edit_distance query term limit ≡ none
      → candidates query limit ((term, n) ∷ terms) ≡ candidates query limit terms
  unfolding candidates
  candidates_skip term n terms e = rw (candidates, e) refl

  candidates_take :
      (term : Str) (n k : ℕ) (terms : Counter)
      → edit_distance query term limit ≡ some k
      → candidates query limit ((term, n) ∷ terms) ≡ (k, n, term) ∷ candidates query limit terms
  unfolding candidates
  candidates_take term n k terms e = rw (candidates, e) refl

  abbrev AtLeast : ℕ → List (ℕ × ℕ × Str) → Type 0
  AtLeast d cs = All (λ (c : ℕ × ℕ × Str). d ≤ c.0) cs

  candidates-Farther :
      (d : ℕ) (terms : Counter)
      → d ≤ suc limit
      → AtLeast d (candidates query limit terms)
      → All (Farther d) terms
  candidates-Farther d [] b t = tt
  candidates-Farther d ((term, n) ∷ terms) b t =
      let least = edit_distance-IsLeast query term limit in
      elim (Option-cases (edit_distance query term limit)) [
        | inl e ↦ (
          λ m s. omega (arith, b, not_nearer term _ n least e m s),
          candidates-Farther d terms b (subst (AtLeast d) (candidates_skip term n terms e) t),
        )
        | inr (k, e) ↦
            let (p, q) : (d ≤ k) × AtLeast d (candidates query limit terms) =
              subst (AtLeast d) (candidates_take term n k terms e) t in
            (
              λ m s. omega (arith, p, (at_distance term _ n k least e).2 m s),
              candidates-Farther d terms b q,
            )
      ]

-- A term begins with the query.
abbrev pub Begins : Str → Str × ℕ → Type 0
Begins query e = starts_with (e.0) query ≡ true

-- Why a token is returned with a strength, or why none is.
pub data IsBest (query : Str) (terms : Counter) (prefix : Bool) (num_typos : ℤ)
    : Option (Str × ℕ) → Type 0 where
  exact :
      {n : ℕ} → get terms query ≡ some n → IsBest query terms prefix num_typos (some (query, 100))
  begun :
      {t : Str} {n : ℕ}
      → get terms query ≡ none
      → prefix ≡ true
      → get terms t ≡ some n
      → Begins query (t, n)
      → All (λ (e : Str × ℕ). Begins query e → length t ≤ length (e.0)) terms
      → IsBest query terms prefix num_typos (some (t, 85))
  misspelt :
      {t : Str} {n d limit : ℕ}
      → get terms query ≡ none
      → (prefix ≡ true → All (λ (e : Str × ℕ). starts_with (e.0) query ≡ false) terms)
      → num_typos ≡ pos limit
      → get terms t ≡ some n
      → d ≤ limit
      → Edits query t d
      → All (Farther query limit d) terms
      → IsBest query terms prefix num_typos (some (t, (if d == 1 then 70 else 55)))
  missing :
      get terms query ≡ none
      → (prefix ≡ true → All (λ (e : Str × ℕ). starts_with (e.0) query ≡ false) terms)
      → ((limit : ℕ)
          → num_typos ≡ pos (suc limit)
          → All (Farther query (suc limit) (suc (suc limit))) terms)
      → IsBest query terms prefix num_typos none

module _ (query : Str) where
  begun-All :
      (P : Str × ℕ → Type 0) (terms : Counter)
      → All P terms
      → All (λ (e : Str × ℕ). P e × Begins query e) (prefix_matches query terms)
  begun-All P [] t = tt
  begun-All P (e ∷ terms) (p, t) = elim (Bool-cases (starts_with (e.0) query)) [
    | inl q ↦ rw q ((p, q), begun-All P terms t)
    | inr q ↦ rw q (begun-All P terms t)
  ]

  begun_bound :
      (k : ℕ) (terms : Counter)
      → All (λ (e : Str × ℕ). k ≤ length (e.0)) (prefix_matches query terms)
      → All (λ (e : Str × ℕ). Begins query e → k ≤ length (e.0)) terms
  begun_bound k [] t = tt
  begun_bound k (e ∷ terms) t = elim (Bool-cases (starts_with (e.0) query)) [
    | inl q ↦
        let (a, u) : (k ≤ length (e.0))
            × All (λ (x : Str × ℕ). k ≤ length (x.0)) (prefix_matches query terms) =
          subst (All (λ (x : Str × ℕ). k ≤ length (x.0))) (filter_kept q) t in
        (λ b. a, begun_bound k terms u)
    | inr q ↦ (
      λ b. absurd (ground (arith, b, q)),
      begun_bound k terms (subst (All (λ (x : Str × ℕ). k ≤ length (x.0))) (filter_dropped q) t),
    )
  ]
    where
      filter_kept :
          starts_with (e.0) query ≡ true
          → prefix_matches query (e ∷ terms) ≡ e ∷ prefix_matches query terms
      filter_kept q = rw q refl

      filter_dropped :
          starts_with (e.0) query ≡ false
          → prefix_matches query (e ∷ terms) ≡ prefix_matches query terms
      filter_dropped q = rw q refl

  none_begins :
      (terms : Counter)
      → prefix_matches query terms ≡ []
      → All (λ (e : Str × ℕ). starts_with (e.0) query ≡ false) terms
  none_begins [] h = tt
  none_begins (e ∷ terms) h = elim (Bool-cases (starts_with (e.0) query)) [
    | inl q ↦ absurd (ground (arith, h, q))
    | inr q ↦ (q, none_begins terms (ground (arith, h, q)))
  ]

module _ (query : Str) (terms : Counter) (unique : Unique terms) (prefix : Bool)
    (num_typos : ℤ) where
  -- The tokens as they stand in the dictionary.
  entries : All (λ (e : Str × ℕ). get terms (e.0) ≡ some (e.1)) terms
  entries = All-get (λ t n. get terms t ≡ some n) terms unique (λ t n h. h)

  misspelt-IsBest :
      (limit : ℕ) (c : ℕ × ℕ × Str) (cs : List (ℕ × ℕ × Str))
      → get terms query ≡ none
      → (prefix ≡ true → All (λ (e : Str × ℕ). starts_with (e.0) query ≡ false) terms)
      → num_typos ≡ pos (suc limit)
      → candidates query (suc limit) terms ≡ c ∷ cs
      → IsBest query terms prefix num_typos (typo_match (c ∷ cs))
  misspelt-IsBest limit c cs absent no_prefix typed found =
      let best = min_by nearer c cs in
      let (p, ps) : IsCandidate query (suc limit) terms c
          × All (IsCandidate query (suc limit) terms) cs =
        subst (All (IsCandidate query (suc limit) terms)) found
          (candidates-IsCandidate query (suc limit) terms terms entries) in
      let (here, near) = min_by-All nearer (IsCandidate query (suc limit) terms) c cs p ps in
      let (le, edits, least) =
        at_distance query (suc limit) (best.2) _ (best.1) (best.0)
          (edit_distance-IsLeast query (best.2) (suc limit)) near in
      let far = min_by_least nearer (λ x. x.0) nearer_below nearer_above (best.0) c cs refl in
      misspelt absent no_prefix typed here le edits (
        candidates-Farther query (suc limit) (best.0) terms (omega (arith, le))
          (subst (AtLeast query (suc limit) (best.0)) (sym found) far))

  typos-IsBest :
      (k : ℤ)
      → num_typos ≡ k
      → get terms query ≡ none
      → (prefix ≡ true → All (λ (e : Str × ℕ). starts_with (e.0) query ≡ false) terms)
      → IsBest query terms prefix num_typos (typos query terms k)
  typos-IsBest (negsuc n) typed absent no_prefix =
      missing absent no_prefix (λ limit h. absurd (ground (arith, h, typed)))
  typos-IsBest (pos zero) typed absent no_prefix =
      missing absent no_prefix (λ limit h. absurd (ground (arith, h, typed)))
  typos-IsBest (pos (suc n)) typed absent no_prefix =
      elim (candidates query (suc n) terms)
          as (λ cs.
            candidates query (suc n) terms ≡ cs
            → IsBest query terms prefix num_typos (typo_match cs)) [
              | c ∷ cs ↦ λ h. misspelt-IsBest n c cs absent no_prefix typed h
              | [] ↦ λ h. missing absent no_prefix (λ limit q.
                  let same : suc n ≡ suc limit = ground (arith, typed, q) in
                  subst (λ l. All (Farther query l (suc l)) terms) same
                    (candidates-Farther query (suc n) (suc (suc n)) terms (omega arith)
                      (subst (AtLeast query (suc n) (suc (suc n))) (sym h) tt)))
            ]
        refl

  begun-IsBest :
      (m : Str × ℕ) (ms : List (Str × ℕ)) (other : Option (Str × ℕ))
      → get terms query ≡ none
      → prefix ≡ true
      → prefix_matches query terms ≡ m ∷ ms
      → IsBest query terms prefix num_typos (prefix_or (m ∷ ms) other)
  begun-IsBest m ms other absent on found =
      let P : Str × ℕ → Type 0 = λ e. (get terms (e.0) ≡ some (e.1)) × Begins query e in
      let (p, ps) : P m × All P ms =
        subst (All P) found (begun-All query (λ e. get terms (e.0) ≡ some (e.1)) terms entries) in
      let (here, begins) = min_by-All shorter P m ms p ps in
      let least =
        min_by_least shorter (λ e. length (e.0)) shorter_below shorter_above
          (length (min_by shorter m ms).0) m ms refl in
      begun absent on here begins (
        begun_bound query _ terms (
          subst (All (λ (e : Str × ℕ). length (min_by shorter m ms).0 ≤ length (e.0))) (sym found)
            least))

  -- Where no token stands twice: a term of the query that is a token is answered by itself. Otherwise,
  -- with prefixes allowed, it is answered by a token that it begins and than which no other such token
  -- is shorter. Otherwise it is answered by a token of the field that takes the fewest edits, which are
  -- within num_typos; and it has no answer only if there is no such token.
  pub best_match-IsBest :
      IsBest query terms prefix num_typos (best_match query terms prefix num_typos)
  unfolding best_match
  best_match-IsBest = elim (Option-cases (get terms query)) [
    | inr (n, e) ↦ rw (best_match, e) (exact e)
    | inl absent ↦
        rw (best_match, absent)
          (elim prefix
              as (λ b.
                prefix ≡ b
                → IsBest query terms prefix num_typos (elim b [
                  | true ↦ prefix_or (prefix_matches query terms) (typos query terms num_typos)
                  | false ↦ typos query terms num_typos
                ])) [
                  | false ↦ λ off.
                      typos-IsBest num_typos refl absent (λ on. absurd (ground (arith, on, off)))
                  | true ↦ λ on.
                      elim (prefix_matches query terms)
                          as (λ ms.
                            prefix_matches query terms ≡ ms
                            → IsBest query terms prefix num_typos
                                (prefix_or ms (typos query terms num_typos))) [
                                  | [] ↦ λ h.
                                      typos-IsBest num_typos refl absent
                                        (λ q. none_begins query terms h)
                                  | m ∷ ms ↦ λ h.
                                      begun-IsBest m ms (typos query terms num_typos) absent on h
                                ]
                        refl
                ]
            refl)
  ]
