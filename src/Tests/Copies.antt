-- ===== src/Tests/Copies.antt =====
-- The repair of a replica at a concrete input: nodes that keep one book.
use typesense_python.Base.{
  if◌then◌else◌, Bool-cases, nat_eq, Str, codes, str_eq, str_eq_refl, str_eq_iff, text_eq, ◌≡◌,
  refl, sym, ap, ◌∙◌, ◌⊎◌, inl, inr, Bool, true, false, ◌&&◌, ◌||◌, Option, none, some, List, [],
  ◌∷◌, arith,
}
use mathlib.Core.Path.{subst}
use typesense_python.Base.Dict.{get}
use typesense_python.Schemas.{Document, NodeInfo}
use typesense_python.Schemas.ℤ.{pos}
use typesense_python.Schemas.Value.{text}
use typesense_python.Index.{document_id}
use typesense_python.Cluster.{ClusterMap}
use typesense_python.Base.Order.{sort, insert}
use typesense_python.Repair.Converges.{is_held, copy_documents-difference}
use typesense_python.Repair.{distinct, difference, NodeApi, is_among, copy_documents, copy_document}
use typesense_python.Repair.Copies.{NodeLaws, Shared, Agrees, is_at, copy_documents-Repaired}
use typesense_python.Tests.Data.{a, b}

abbrev one : Str
one = codes "1"

abbrev book : Document
book = (codes "id", text one) ∷ []

is_book : Document → Bool
is_book ((k, text s) ∷ []) = str_eq k (codes "id") && str_eq s one
is_book _ = false

both : (x y : Bool) → (x && y) ≡ true → (x ≡ true) × (y ≡ true)
both true y h = (refl, h)
both false y h = absurd (ground (arith, h))

some-injective : {A : Type 0} (x y : A) → some x ≡ some y → x ≡ y
some-injective x y h = ap (λ o. elim o [ some z ↦ z | none ↦ x ]) h

is_book_lem : (d : Document) → is_book d ≡ true → d ≡ book
unfolding is_book
is_book_lem ((k, text s) ∷ []) h =
    let ks : str_eq k (codes "id") ≡ true = (both _ _ h).0 in
    let ss : str_eq s one ≡ true = (both _ _ h).1 in
    ap (λ x. (x, text s) ∷ []) ((str_eq_iff k (codes "id")).0 ks)
    ∙ ap (λ x. (codes "id", text x) ∷ []) ((str_eq_iff s one).0 ss)
is_book_lem d h = absurd (ground (arith, h))

-- A world says which nodes have the book.
abbrev World : Type 0
World = Str → Bool

abbrev held : World → Str → Str → Option Document
held w n d = if w n && str_eq one d then some book else none

store_book : World → Str → Document → World × Bool
store_book w n d = elim (is_book d) [ true ↦ (λ m. str_eq n m || w m, true) | false ↦ (w, false) ]

abbrev api : NodeApi World
api = record {
  document_ids = λ w n shard c. (w, some (if w n.id then one ∷ [] else []));
  fetch = λ w n shard c d. (w, held w n.id d);
  store = λ w n shard c d. store_book w n.id d;
}

named : (d : Document) (id : Str) → is_book d ≡ true → document_id d ≡ some id → one ≡ id
unfolding document_id get str_eq
named d id q h = some-injective one id (subst (λ x. document_id x ≡ some id) (is_book_lem d q) h)

held-some :
    (w : World) (n d : Str) (document : Document)
    → held w n d ≡ some document
    → (str_eq one d ≡ true) × (document ≡ book)
held-some w n d document h = elim (Bool-cases (w n && str_eq one d)) [
  | inl q ↦ ((both (w n) (str_eq one d) q).1, some-injective document book (sym h ∙ rw q refl))
  | inr q ↦ absurd (ground (arith, h, q))
]

held_identified :
    (w : World) (n d : Str) (document : Document)
    → held w n d ≡ some document
    → document_id document ≡ some d
unfolding document_id get str_eq
held_identified w n d document h =
    let (same, e) = held-some w n d document h in
    subst (λ x. document_id x ≡ some d) (sym e) (ap some ((str_eq_iff one d).0 same))

none_there : (x y : Bool) → y ≡ false → (if x && y then some book else none) ≡ none
none_there true y h = rw h refl
none_there false y h = refl

-- Giving the book to a node changes nothing else.
given_elsewhere :
    (w : World) (n m d : Str)
    → is_at n one m d ≡ false
    → held (λ k. str_eq n k || w k) m d ≡ held w m d
given_elsewhere w n m d h = elim (Bool-cases (str_eq n m)) [
  | inl q ↦
      let other : str_eq one d ≡ false = subst (λ x. (x && str_eq one d) ≡ false) q h in
      none_there (str_eq n m || w m) (str_eq one d) other
      ∙ sym (none_there (w m) (str_eq one d) other)
  | inr q ↦ rw q refl
]

given_here : (w : World) (n : Str) → held (λ k. str_eq n k || w k) n one ≡ some book
given_here w n = rw (str_eq_refl n, str_eq_refl one) refl

store_book_elsewhere :
    (w : World) (n id m d : Str) (document : Document)
    → document_id document ≡ some id
    → is_at n id m d ≡ false
    → held (store_book w n document).0 m d ≡ held w m d
unfolding store_book
store_book_elsewhere w n id m d document name apart = elim (Bool-cases (is_book document)) [
  | inl q ↦
      rw (store_book, q)
        (given_elsewhere w n m d
          (subst (λ i. is_at n i m d ≡ false) (sym (named document id q name)) apart))
  | inr q ↦ rw (store_book, q) refl
]

store_book_done :
    (w : World) (n id : Str) (document : Document)
    → document_id document ≡ some id
    → (store_book w n document).1 ≡ true
    → held (store_book w n document).0 n id ≡ some document
unfolding store_book
store_book_done w n id document name done = elim (Bool-cases (is_book document)) [
  | inl q ↦
      rw (store_book, q)
        (subst (λ i. held (λ k. str_eq n k || w k) n i ≡ some document) (named document id q name)
          (given_here w n ∙ ap some (sym (is_book_lem document q))))
  | inr q ↦ absurd (ground (arith, done, q))
]

store_book_failed :
    (w : World) (n id : Str) (document : Document)
    → document_id document ≡ some id
    → (held (store_book w n document).0 n id ≡ held w n id)
      ⊎ (held (store_book w n document).0 n id ≡ some document)
unfolding store_book
store_book_failed w n id document name = elim (Bool-cases (is_book document)) [
  | inl q ↦ inr (store_book_done w n id document name (rw (store_book, q) refl))
  | inr q ↦ inl (rw (store_book, q) refl)
]

laws : NodeLaws api (pos 0) (codes "books")
laws = record {
  held = held;
  identified = held_identified;
  fetch_keeps = λ w n id m d. refl;
  fetch_found = λ w n id document h. h;
  store_elsewhere =
      λ w n id m d document name apart. store_book_elsewhere w n.id id m d document name apart;
  store_done = λ w n id document name done. store_book_done w n.id id document name done;
  store_failed = λ w n id document name. store_book_failed w n.id id document name;
}

-- Node `a` has the book, node `b` lacks it.
abbrev only_a : World
only_a n = str_eq a n

abbrev node : Str → NodeInfo
node id = record { id = id; host = codes "localhost"; port = 8108 }

abbrev cluster : ClusterMap
cluster = record { coordinator = node (codes "c"); shard_count = pos 1; nodes = []; shards = [] }

apart : str_eq b a ≡ false
unfolding str_eq
apart = refl

abbrev repaired : World × List Str × List Str
repaired =
    copy_documents api cluster (codes "books") only_a (node a) (node b) (pos 0) (one ∷ []) [] []

found : repaired.1 ≡ one ∷ []
unfolding copy_documents copy_document str_eq is_book store_book
found = refl

copy_documents-Repaired_example :
    Shared (one ∷ []) (repaired.1) (repaired.2)
    × ((d : Str)
        → is_among d (repaired.1) ≡ true
        → Agrees api cluster (codes "books") (pos 0) laws (node a) (node b) apart (repaired.0) d)
    × ((d : Str)
        → Agrees api cluster (codes "books") (pos 0) laws (node a) (node b) apart only_a d
        → Agrees api cluster (codes "books") (pos 0) laws (node a) (node b) apart (repaired.0) d)
    × ((m d : Str)
        → (str_eq b m && is_among d (one ∷ [])) ≡ false
        → laws.held (repaired.0) m d ≡ laws.held only_a m d)
copy_documents-Repaired_example =
    copy_documents-Repaired api cluster (codes "books") (pos 0) laws (node a) (node b) apart only_a
      (one ∷ [])

abbrev synced : World × List Str × List Str
synced =
    copy_documents api cluster (codes "books") only_a (node a) (node b) (pos 0)
      (difference (one ∷ []) []) [] []

nothing_failed : synced.2 ≡ []
unfolding copy_documents copy_document str_eq is_book store_book difference distinct sort insert
nothing_failed = refl

listed :
    (w : World) (n : Str) → w n ≡ true → (d : Str) → is_among d (one ∷ []) ≡ is_held (held w n d)
listed w n h d = elim (Bool-cases (str_eq one d)) [
  | inl q ↦ rw (h, q) refl
  | inr q ↦ rw (h, q) refl
]

both_have : ((synced.0) a ≡ true) × ((synced.0) b ≡ true)
unfolding copy_documents copy_document str_eq is_book store_book difference distinct sort insert
both_have = (refl, refl)

b_lacks : (d : Str) → is_among d [] ≡ is_held (held only_a b d)
unfolding str_eq
b_lacks d = refl

copy_documents-difference_example : difference (one ∷ []) (one ∷ []) ≡ []
unfolding laws str_eq
copy_documents-difference_example =
    copy_documents-difference api cluster (codes "books") (pos 0) laws (node a) (node b) apart
      only_a (one ∷ []) [] (one ∷ []) (one ∷ []) (listed only_a a (str_eq_refl a)) b_lacks
      nothing_failed (listed (synced.0) a (both_have.0)) (listed (synced.0) b (both_have.1))
