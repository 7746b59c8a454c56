-- ===== src/Index/Query/Pages.antt =====
-- src/typesense_lite/index.py: the pages of a result, one after the other.
use typesense_python.Base.{
  nat_eq, take, drop, text_eq, ℕ, zero, suc, ◌+◌, ◌-◌, ◌*◌, max, ◌≡◌, refl, sym, ap, ◌∙◌, some,
  List, [], ◌∷◌, ◌++◌, arith,
}
use typesense_python.Schemas.{ℤ}
use typesense_python.Schemas.ℤ.{pos}
use native.Mathlib.Nat.{suc-mul, zero-mul}
use typesense_python.Index.Query.{at_least_one, paginate}

module _ {ℓ} {A : Type ℓ} where
  take-nil : (n : ℕ) → take {A = A} n [] ≡ []
  take-nil zero = refl
  take-nil (suc n) = refl

  take-add : (m n : ℕ) (xs : List A) → take (m + n) xs ≡ take m xs ++ take n (drop m xs)
  take-add zero n xs = ap (λ k. take k xs) (omega arith)
  take-add (suc m) n [] = take-nil (suc m + n) ∙ sym (take-nil n)
  take-add (suc m) n (x ∷ xs) =
      let e : suc m + n ≡ suc (m + n) = omega arith in
      ap (λ k. take k (x ∷ xs)) e ∙ ap (λ ys. x ∷ ys) (take-add m n xs)

  -- The first n pages in a row.
  unfoldable pub pages : List A → ℕ → ℤ → List A
  pages hits zero per_page = []
  pages hits (suc n) per_page = pages hits n per_page ++ paginate hits (pos (suc n)) (some per_page)

  -- The first n pages are together the first hits, as many as n pages have room for: no hit stands on
  -- two pages or on none.
  pub pages-take :
      (hits : List A) (n : ℕ) (per_page : ℤ)
      → pages hits n per_page ≡ take (n * at_least_one per_page) hits
  unfolding pages paginate at_least_one
  pages-take hits zero per_page = ap (λ k. take k hits) (sym (zero-mul (at_least_one per_page)))
  pages-take hits (suc n) per_page =
      let p = at_least_one per_page in
      let start : (max (suc n) 1 - 1) * p ≡ n * p =
        (let e : max (suc n) 1 - 1 ≡ n = omega arith in ap (λ k. k * p) e) in
      let room : n * p + p ≡ suc n * p = sym (suc-mul n p) in
      rw (pages-take hits n per_page, start)
        (sym (take-add (n * p) p hits) ∙ ap (λ k. take k hits) room)
