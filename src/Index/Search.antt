-- ===== src/Index/Search.antt =====
-- src/typesense_lite/index.py: `search`, the ranking by term frequency. A score is a float that the
pub mod Ranked
-- program only adds whole numbers to, so it is a natural number here.
use typesense_python.Base.{
  ltb, ◌==◌, if◌then◌else◌, nat_eq, length, take, Str, text_eq, ℕ, suc, ◌+◌, ◌-◌, Bool, List, [],
  ◌∷◌,
}
use typesense_python.Base.Dict.{Dict, get, put}
use typesense_python.Base.Order.{sort}
use typesense_python.Base.Result.{Result, ok, ◌>>=◌}
use typesense_python.Schemas.{Document, ℤ}
use typesense_python.Schemas.ℤ.{pos, negsuc}
use typesense_python.Tokenizer.{tokenize}
use typesense_python.Index.{Counter, InvertedIndex, postings_of, get_count, str_le, get_document}

pub record SearchHit : Type 0 where
  pub id : Str
  pub score : ℕ
  pub document : Document

-- scores[document_id] += float(frequency), for the documents of one term.
unfoldable pub add_scores : Dict Str ℕ → Counter → Dict Str ℕ
add_scores scores [] = scores
add_scores scores ((id, frequency) ∷ ps) =
    add_scores (put scores id (get_count (get scores id) + frequency)) ps

unfoldable pub score_terms : InvertedIndex → Dict Str ℕ → List Str → Dict Str ℕ
score_terms ix scores [] = scores
score_terms ix scores (t ∷ ts) =
    score_terms ix (add_scores scores (postings_of (get ix.index t))) ts

unfoldable pub make_hits : InvertedIndex → Dict Str ℕ → Result (List SearchHit)
make_hits ix [] = ok []
make_hits ix ((id, score) ∷ scores) = get_document ix id >>= λ d.
    make_hits ix scores >>= λ hits. ok (record { id = id; score = score; document = d } ∷ hits)

-- (-score, id)
unfoldable pub hit_le : SearchHit → SearchHit → Bool
hit_le a b =
    let names = str_le a.id b.id in if a.score == b.score then names else ltb b.score a.score

-- xs[:limit]
unfoldable pub slice_to {ℓ} : {A : Type ℓ} → ℤ → List A → List A
slice_to (pos n) xs = take n xs
slice_to (negsuc n) xs = take (length xs - suc n) xs

unfoldable pub search : InvertedIndex → Str → ℤ → Result (List SearchHit)
search ix query limit = make_hits ix (score_terms ix [] (tokenize query)) >>= λ hits.
    ok (slice_to limit (sort hit_le hits))
