-- ===== src/Index/Search/Ranked.antt =====
-- src/typesense_lite/index.py: what `search` finds, and with which score.
use typesense_python.Base.{
  Bool-cases, Option-cases, nat_eq, any, All, Str, str_eq, str_eq_iff, text_eq, ℕ, ◌+◌, ◌<◌, ◌≡◌,
  refl, ◌∙◌, ◌≢◌, inl, inr, Bool, true, Option, none, some, List, [], ◌∷◌, arith,
}
use typesense_python.Base.Dict.{Dict, get, put, get-put, Unique, put-Unique, All-get}
use typesense_python.Base.Order.{sort}
use typesense_python.Base.Result.{ok}
use typesense_python.Schemas.{Document, ℤ}
use typesense_python.Tokenizer.{tokenize}
use typesense_python.Index.{
  Counter, InvertedIndex, postings_of, get_count, get_document, terms_of, indexable_text,
}
use typesense_python.Index.Counter.{occurrences, counter-occurrences}
use typesense_python.Index.Postings.{posting}
use typesense_python.Index.Invariant.{IsIndexed, Built, Built-IsIndexed}
use typesense_python.Index.Search.{
  SearchHit, add_scores, score_terms, make_hits, hit_le, slice_to, search,
}

-- A document's score when one more term has been looked up.
abbrev plus_score : Option ℕ → Option ℕ → Option ℕ
plus_score s none = s
plus_score s (some f) = some (get_count s + f)

get-add_scores :
    (s : Dict Str ℕ) (ps : Counter) (d : Str)
    → Unique ps
    → get (add_scores s ps) d ≡ plus_score (get s d) (get ps d)
unfolding add_scores get
get-add_scores s [] d u = refl
get-add_scores s ((id, f) ∷ ps) d u =
    get-add_scores (put s id (get_count (get s id) + f)) ps d (u.1)
    ∙ ground (
      arith,
      u.0,
      get-put s id d (get_count (get s id) + f),
      str_eq_iff id d,
      Option-cases (get ps d),
    )

add_scores-Unique : (s : Dict Str ℕ) (ps : Counter) → Unique s → Unique (add_scores s ps)
unfolding add_scores
add_scores-Unique s [] u = u
add_scores-Unique s ((id, f) ∷ ps) u =
    add_scores-Unique (put s id (get_count (get s id) + f)) ps
      (put-Unique s id (get_count (get s id) + f) u)

score_terms-Unique :
    (ix : InvertedIndex) (s : Dict Str ℕ) (ts : List Str) → Unique s → Unique (score_terms ix s ts)
unfolding score_terms
score_terms-Unique ix s [] u = u
score_terms-Unique ix s (t ∷ ts) u =
    score_terms-Unique ix (add_scores s (postings_of (get ix.index t))) ts
      (add_scores-Unique s (postings_of (get ix.index t)) u)

-- How often the terms of the query occur in a list of words, each time they stand in the query.
unfoldable pub relevance : List Str → List Str → ℕ
relevance [] words = 0
relevance (t ∷ ts) words = occurrences t words + relevance ts words

abbrev pub words_of : Document → List Str
words_of doc = tokenize (indexable_text doc)

posting-absent :
    (ix : InvertedIndex) (t d : Str)
    → IsIndexed ix
    → get ix.documents d ≡ none
    → get (postings_of (get ix.index t)) d ≡ none
unfolding posting
posting-absent ix t d w e = ground (arith, e, w.frequencies t d)

posting-present :
    (ix : InvertedIndex) (t d : Str) (doc : Document)
    → IsIndexed ix
    → get ix.documents d ≡ some doc
    → get_count (get (postings_of (get ix.index t)) d) ≡ occurrences t (words_of doc)
unfolding posting terms_of
posting-present ix t d doc w e =
    ground (arith, e, w.frequencies t d, counter-occurrences (words_of doc) t)

score-absent :
    (ix : InvertedIndex) (s : Dict Str ℕ) (ts : List Str) (d : Str)
    → IsIndexed ix
    → get ix.documents d ≡ none
    → get s d ≡ none
    → get (score_terms ix s ts) d ≡ none
unfolding score_terms
score-absent ix s [] d w e h = h
score-absent ix s (t ∷ ts) d w e h =
    score-absent ix (add_scores s (postings_of (get ix.index t))) ts d w e (
      get-add_scores s (postings_of (get ix.index t)) d (w.distinct t)
      ∙ ground (arith, h, posting-absent ix t d w e))

score-present :
    (ix : InvertedIndex) (s : Dict Str ℕ) (ts : List Str) (d : Str) (doc : Document)
    → IsIndexed ix
    → get ix.documents d ≡ some doc
    → get_count (get (score_terms ix s ts) d) ≡ get_count (get s d) + relevance ts (words_of doc)
unfolding score_terms relevance
score-present ix s [] d doc w e = omega arith
score-present ix s (t ∷ ts) d doc w e = ground (
  arith,
  score-present ix (add_scores s (postings_of (get ix.index t))) ts d doc w e,
  get-add_scores s (postings_of (get ix.index t)) d (w.distinct t),
  posting-present ix t d doc w e,
  Option-cases (get (postings_of (get ix.index t)) d),
)

-- A hit that shows its document, with the score that the document has.
pub record IsHit (ix : InvertedIndex) (ts : List Str) (h : SearchHit) : Type 0 where
  pub shown : get ix.documents h.id ≡ some h.document
  pub scored : h.score ≡ relevance ts (words_of h.document)

-- An entry of the scores is that of a document, with its relevance.
abbrev IsScore : InvertedIndex → List Str → Str × ℕ → Type 0
IsScore ix ts e =
    (doc : Document) × (get ix.documents (e.0) ≡ some doc) × (e.1 ≡ relevance ts (words_of doc))

abbrev pub has_id : Str → SearchHit → Bool
has_id d h = str_eq h.id d

make_hits_lem :
    (ix : InvertedIndex) (ts : List Str) (s : Dict Str ℕ)
    → All (IsScore ix ts) s
    → (hs : List SearchHit) × (make_hits ix s ≡ ok hs)
      × All (IsHit ix ts) hs
      × ((d : Str) → get s d ≢ none → any (has_id d) hs ≡ true)
unfolding make_hits get get_document
make_hits_lem ix ts [] a = ([], refl, tt, λ d n. absurd (n refl))
make_hits_lem ix ts ((id, n) ∷ s) a =
    let (doc, e, r) = a.0 in
    let (hs, q, good, every) = make_hits_lem ix ts s (a.1) in
    (
      record { id = id; score = n; document = doc } ∷ hs,
      rw (make_hits, get_document, e, q) refl,
      (record { shown = e; scored = r }, good),
      λ d h. elim (Bool-cases (str_eq id d)) [
        | inl b ↦ rw b refl
        | inr b ↦ rw b (every d (λ z. h (rw b z)))
      ],
    )

score_terms-IsScore :
    (ix : InvertedIndex) (ts : List Str) → IsIndexed ix → All (IsScore ix ts) (score_terms ix [] ts)
unfolding get
score_terms-IsScore ix ts w =
    All-get (λ k v. IsScore ix ts (k, v)) (score_terms ix [] ts) (score_terms-Unique ix [] ts tt)
      (λ d n h. elim (Option-cases (get ix.documents d)) [
        | inl e ↦ absurd (ground (arith, h, score-absent ix [] ts d w e refl))
        | inr (doc, e) ↦ (doc, e, ground (arith, h, score-present ix [] ts d doc w e))
      ])

-- On an index that was built by adding and deleting documents, `search` does not raise: it returns, in
-- its order and cut at the limit, hits that show the documents as they are now, each with the number
-- of times its words are terms of the query, and every document for which this is positive has a hit.
pub search-IsHit :
    (ix : InvertedIndex) (query : Str) (limit : ℤ)
    → Built ix
    → (hs : List SearchHit) × (search ix query limit ≡ ok (slice_to limit (sort hit_le hs)))
      × All (IsHit ix (tokenize query)) hs
      × ((d : Str) (doc : Document)
          → get ix.documents d ≡ some doc
          → 0 < relevance (tokenize query) (words_of doc)
          → any (has_id d) hs ≡ true)
unfolding search get
search-IsHit ix query limit b =
    let w = Built-IsIndexed ix b in
    let (hs, q, good, every) =
      make_hits_lem ix (tokenize query) (score_terms ix [] (tokenize query))
        (score_terms-IsScore ix (tokenize query) w) in
    (
      hs,
      rw q refl,
      good,
      λ d doc e p.
          every d (λ z. ground (arith, z, p, score-present ix [] (tokenize query) d doc w e)),
    )
