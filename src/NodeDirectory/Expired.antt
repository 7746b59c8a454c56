-- ===== src/NodeDirectory/Expired.antt =====
-- src/typesense_lite/node_directory.py: what a clean-up drops and what it reports.
use typesense_python.Base.{
  Bool-cases, nat_eq, any, Str, str_eq, str_eq_iff, text_eq, ℕ, ◌≡◌, refl, ◌∙◌, inl, inr, Bool,
  true, false, ◌||◌, Option, none, some, List, [], ◌∷◌, ◌++◌, arith,
}
use mathlib.Core.Path.{subst}
use typesense_python.Base.Dict.{Dict, get, remove, Unique}
use typesense_python.NodeDirectory.{
  NodeLiveness, NodeDirectory, is_expired, cleanup_items, cleanup_expired,
}
use typesense_python.NodeDirectory.Leases.{IsDirectory, lease, on_event-contact}
use typesense_python.NodeDirectory.Leases.Event.{cleans}

abbrev pub is_listed : Str → List Str → Bool
is_listed k names = any (λ j. str_eq j k) names

any-snoc :
    (k j : Str) (names : List Str)
    → is_listed k (names ++ (j ∷ [])) ≡ (is_listed k names || str_eq j k)
any-snoc k j [] = ground arith
any-snoc k j (x ∷ names) = ground (arith, any-snoc k j names)

-- There is an entry, and it has expired.
abbrev pub has_expired : ℕ → ℕ → Option NodeLiveness → Bool
has_expired timeout now none = false
has_expired timeout now (some entry) = is_expired timeout now entry

or_true : (a : Bool) → ((a || true) || false) ≡ (a || true)
or_true true = refl
or_true false = refl

or_false : (a b : Bool) → ((a || false) || b) ≡ (a || b)
or_false true b = refl
or_false false b = refl

module _ (timeout now : ℕ) where
  listed-cleanup_items :
      (items nodes : Dict Str NodeLiveness) (expired : List Str) (k : Str)
      → Unique items
      → is_listed k (cleanup_items timeout now items nodes expired).1
        ≡ (is_listed k expired || has_expired timeout now (get items k))
  unfolding cleanup_items get
  listed-cleanup_items [] nodes expired k u = ground arith
  listed-cleanup_items ((j, e) ∷ items) nodes expired k (fresh, u) =
      let dropped = listed-cleanup_items items (remove nodes j) (expired ++ (j ∷ [])) k u in
      let same = listed-cleanup_items items nodes expired k u in
      let there = any-snoc k j expired in
      elim (Bool-cases (str_eq j k)) [
        | inl q ↦
            let none_k : get items k ≡ none =
              subst (λ i. get items i ≡ none) ((str_eq_iff j k).0 q) fresh in
            elim (Bool-cases (is_expired timeout now e)) [
              | inl x ↦
                  rw (cleanup_items, q, x)
                    (dropped ∙ rw (there, none_k, q) (or_true (is_listed k expired)))
              | inr x ↦ rw (cleanup_items, q, x) (same ∙ rw none_k refl)
            ]
        | inr q ↦ elim (Bool-cases (is_expired timeout now e)) [
          | inl x ↦
              rw (cleanup_items, q, x)
                (dropped
                  ∙ rw (there, q)
                      (or_false (is_listed k expired) (has_expired timeout now (get items k))))
          | inr x ↦ rw (cleanup_items, q, x) same
        ]
      ]

-- A clean-up of a directory drops the nodes whose last contact is longer ago than the timeout, it names
-- these nodes and no other, and it leaves the entries of all others as they were.
pub cleanup_expired_lem :
    (dir : NodeDirectory) (now : ℕ) (id : Str)
    → IsDirectory dir
    → (get (cleanup_expired dir now).0.nodes id ≡ lease dir.alive_timeout now (get dir.nodes id))
      × (is_listed id (cleanup_expired dir now).1
          ≡ has_expired dir.alive_timeout now (get dir.nodes id))
unfolding cleanup_expired
cleanup_expired_lem dir now id u = (
  on_event-contact dir (cleans now) id u,
  listed-cleanup_items dir.alive_timeout now dir.nodes dir.nodes [] id u,
)
