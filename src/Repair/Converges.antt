-- ===== src/Repair/Converges.antt =====
-- src/typesense_lite/repair.py: what is found missing, and that a repair without failures leaves nothing
-- missing.
use typesense_python.Base.{
  Bool-cases, nat_eq, filter, Str, str_eq, str_eq_refl, str_eq_iff, text_eq, ◌≡◌, refl, sym, ap,
  ◌∙◌, inl, inr, Bool, true, false, not, ◌&&◌, ◌||◌, Option, none, some, List, [], ◌∷◌, arith,
}
use mathlib.Core.Path.{subst}
use typesense_python.Base.Order.{sort, insert}
use typesense_python.Schemas.{ℤ, Document, NodeInfo}
use typesense_python.Index.{str_le}
use typesense_python.Cluster.{ClusterMap}
use typesense_python.Repair.{NodeApi, is_among, distinct, difference, copy_documents}
use typesense_python.Repair.Copies.{NodeLaws, Shared, copy_documents-Repaired}
use typesense_python.Repair.Copies.Shared.{nothing, first, second}

or_swap : (a b c : Bool) → (a || (b || c)) ≡ (b || (a || c))
or_swap true true c = refl
or_swap true false c = refl
or_swap false b c = refl

is_among-insert :
    (d x : Str) (xs : List Str) → is_among d (insert str_le x xs) ≡ is_among d (x ∷ xs)
unfolding insert
is_among-insert d x [] = refl
is_among-insert d x (y ∷ ys) = elim (Bool-cases (str_le x y)) [
  | inl q ↦ rw q refl
  | inr q ↦ rw q (
      ap (λ b. str_eq y d || b) (is_among-insert d x ys)
      ∙ or_swap (str_eq y d) (str_eq x d) (is_among d ys))
]

is_among-sort : (d : Str) (xs : List Str) → is_among d (sort str_le xs) ≡ is_among d xs
unfolding sort
is_among-sort d [] = refl
is_among-sort d (x ∷ xs) =
    is_among-insert d x (sort str_le xs) ∙ ap (λ b. str_eq x d || b) (is_among-sort d xs)

-- A member that stands later is a member.
absorbed :
    (x d : Str) (xs : List Str)
    → is_among x xs ≡ true
    → is_among d xs ≡ (str_eq x d || is_among d xs)
absorbed x d xs h = elim (Bool-cases (str_eq x d)) [
  | inl q ↦ rw q (subst (λ i. is_among i xs ≡ true) ((str_eq_iff x d).0 q) h)
  | inr q ↦ rw q refl
]

is_among-distinct : (d : Str) (xs : List Str) → is_among d (distinct xs) ≡ is_among d xs
unfolding distinct
is_among-distinct d [] = refl
is_among-distinct d (x ∷ xs) = elim (Bool-cases (is_among x (distinct xs))) [
  | inl q ↦
      rw (distinct, q)
        (absorbed x d (distinct xs) q ∙ ap (λ b. str_eq x d || b) (is_among-distinct d xs))
  | inr q ↦ rw (distinct, q) (ap (λ b. str_eq x d || b) (is_among-distinct d xs))
]

and_off : (a b : Bool) → b ≡ false → (a && b) ≡ b
and_off true b h = refl
and_off false b h = sym h

is_among-filter :
    (d : Str) (p : Str → Bool) (xs : List Str) → is_among d (filter p xs) ≡ (is_among d xs && p d)
is_among-filter d p [] = refl
is_among-filter d p (x ∷ xs) = elim (Bool-cases (str_eq x d)) [
  | inl q ↦
      let same : p x ≡ p d = ap p ((str_eq_iff x d).0 q) in
      elim (Bool-cases (p x)) [
        | inl h ↦ rw (h, q) (sym (sym same ∙ h))
        | inr h ↦ rw (h, q) (is_among-filter d p xs ∙ and_off (is_among d xs) (p d) (sym same ∙ h))
      ]
  | inr q ↦ elim (Bool-cases (p x)) [
    | inl h ↦ rw (h, q) (is_among-filter d p xs)
    | inr h ↦ rw (h, q) (is_among-filter d p xs)
  ]
]

difference_lem :
    (left right : List Str) (d : Str)
    → is_among d (difference left right) ≡ (is_among d left && not (is_among d right))
unfolding difference
difference_lem left right d =
    is_among-sort d _
    ∙ is_among-filter d (λ x. not (is_among x right)) (distinct left)
    ∙ ap (λ b. b && not (is_among d right)) (is_among-distinct d left)

empty_lem : (xs : List Str) → ((d : Str) → is_among d xs ≡ false) → xs ≡ []
empty_lem [] h = refl
empty_lem (x ∷ xs) h = absurd (ground (arith, h x, str_eq_refl x))

all-Shared : (ids r f : List Str) → Shared ids r f → f ≡ [] → r ≡ ids
all-Shared _ _ _ nothing h = refl
all-Shared _ _ _ (first {ids} {r} {f} id s) h = ap (λ xs. id ∷ xs) (all-Shared ids r f s h)
all-Shared _ _ _ (second id s) h = absurd (ground (arith, h))

covered : (b c : Bool) → c ≡ true → (b && not c) ≡ false
covered true c h = rw h refl
covered false c h = refl

abbrev pub is_held : Option Document → Bool
is_held none = false
is_held (some d) = true

module _ {W : Type 0} (api : NodeApi W) (cluster : ClusterMap) (collection : Str) (shard : ℤ)
    (laws : NodeLaws api shard collection) (primary node : NodeInfo)
    (apart : str_eq node.id primary.id ≡ false) where
  -- The ids with which a node answers are those of the documents that it holds.
  abbrev pub Answers : W → NodeInfo → List Str → Type 0
  Answers w n ids = (d : Str) → is_among d ids ≡ is_held (laws.held w n.id d)

  -- The replica is not the primary, and the nodes keep their promises: they hold documents under
  -- their ids, fetching a document changes nothing and finds the one that is held, a store writes
  -- at most this document of this node, and one that succeeds has written it. If both nodes answer
  -- with the ids that they hold, before and after, and the copying of the documents that were
  -- found missing has had no failure, then the next comparison of the two finds nothing missing.
  pub copy_documents-difference :
      (w : W) (p r p' r' : List Str)
      → (let out =
            copy_documents api cluster collection w primary node shard (difference p r) [] [] in
          Answers w primary p
          → Answers w node r
          → out.2 ≡ []
          → Answers (out.0) primary p'
          → Answers (out.0) node r'
          → difference p' r' ≡ [])
  copy_documents-difference w p r p' r' ap_ ar none_failed ap' ar' =
      let out = copy_documents api cluster collection w primary node shard (difference p r) [] [] in
      let (shared, agree, stays, others) =
        copy_documents-Repaired api cluster collection shard laws primary node apart w
          (difference p r) in
      let all_repaired = all-Shared (difference p r) (out.1) (out.2) shared none_failed in
      let same : (d : Str) → is_among d p' ≡ is_among d p =
        λ d. ap' d ∙ ap is_held (others primary.id d (rw apart refl)) ∙ sym (ap_ d) in
      empty_lem (difference p' r') (λ d. difference_lem p' r' d ∙ elim (Bool-cases (is_among d p)) [
        | inr absent ↦ rw (same d, absent) refl
        | inl there ↦ covered (is_among d p') (is_among d r') (elim (Bool-cases (is_among d r)) [
          | inl had ↦
              let kept = others node.id d (
                rw (str_eq_refl node.id)
                  (difference_lem p r d ∙ covered (is_among d p) (is_among d r) had)) in
              ar' d ∙ ap is_held kept ∙ sym (ar d) ∙ had
          | inr lacked ↦
              let missing : is_among d (difference p r) ≡ true =
                difference_lem p r d ∙ rw (there, lacked) refl in
              let now = agree d (ap (is_among d) all_repaired ∙ missing) in
              ar' d ∙ ap is_held now ∙ sym (ap' d) ∙ same d ∙ there
        ])
      ])
