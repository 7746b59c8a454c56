-- ===== src/NodeManager/Rotation.antt =====
-- src/typesense/node_manager.py: the rotation passes over no usable node.
use typesense_python.Base.{
  ◌==◌, ==_iff, Bool-cases, nat_eq, length, text_eq, ℕ, zero, suc, ◌+◌, ◌%◌, ◌≤◌, ◌<◌, ◌≡◌, refl,
  sym, ap, ◌⊎◌, inl, inr, true, false, Option, none, some, arith,
}
use native.Mathlib.Decide.{dec_lt}
use native.Mathlib.Nat.{mod-eq_of_lt, mod_self}
use mathlib.Core.Path.{subst}
use typesense_python.NodeManager.{
  NodeManager, usable_at, rotate, chosen, get_listed, get_node, nearest_usable,
}
use typesense_python.NodeManager.Choice.{listed}

-- The places that `r` rounds from `i` visit, of `n`.
abbrev Visited : ℕ → ℕ → ℕ → ℕ → Type 0
Visited n r i j = ((i ≤ j) × (j < i + r)) ⊎ (j + n < i + r)

next_place :
    (n i : ℕ) → i < n → (((i + 1) % n ≡ i + 1) × (i + 1 < n)) ⊎ (((i + 1) % n ≡ 0) × (i + 1 ≡ n))
next_place n i h = elim (dec_lt (i + 1) n) [
  | yes q ↦ inl (mod-eq_of_lt q, q)
  | no q ↦ let e : i + 1 ≡ n = omega arith in inr (subst (λ k. k % n ≡ 0) (sym e) (mod_self n), e)
]

rotate_lem :
    (m : NodeManager) (now r i : ℕ)
    → i < length m.nodes
    → r ≤ length m.nodes
    → ((j : ℕ) × ((rotate m now r i).1 ≡ some j) × (usable_at m now j ≡ true))
      ⊎ ((j : ℕ) → j < length m.nodes → Visited (length m.nodes) r i j → usable_at m now j ≡ false)
unfolding rotate
rotate_lem m now zero i h l = inr (λ j b v. absurd (ground arith))
rotate_lem m now (suc r) i h l = elim (Bool-cases (usable_at m now i)) [
  | inl u ↦ inl (i, rw (rotate, u) refl, u)
  | inr u ↦ elim (rotate_lem m now r ((i + 1) % length m.nodes) (omega arith) (omega arith)) [
    | inl (j, e, v) ↦ inl (j, rw (rotate, u) e, v)
    | inr none_found ↦ inr (λ j b v. step j b v u none_found)
  ]
]
  where
    step :
        (j : ℕ)
        → j < length m.nodes
        → Visited (length m.nodes) (suc r) i j
        → usable_at m now i ≡ false
        → ((k : ℕ)
            → k < length m.nodes
            → Visited (length m.nodes) r ((i + 1) % length m.nodes) k
            → usable_at m now k ≡ false)
        → usable_at m now j ≡ false
    step j b v u f = elim (Bool-cases (i == j)) [
      | inl e ↦ subst (λ x. usable_at m now x ≡ false) ((==_iff i j).0 e) u
      | inr ne ↦ f j b (elim (next_place (length m.nodes) i h) [
        | inl (e, q) ↦ rw e (ground arith)
        | inr (e, q) ↦ rw e (ground arith)
      ])
    ]

found_chosen : (r : ℕ × Option ℕ) (j : ℕ) → r.1 ≡ some j → chosen r ≡ j
found_chosen (i, none) j e = absurd (ground arith)
found_chosen (i, some k) j e = ground arith

-- When there is no nearest node, or it is neither healthy nor due for a check, and some listed node is healthy or due for a check, the node
-- that is returned is one that is healthy or due for a check.
pub get_node_usable :
    (m : NodeManager) (now i : ℕ)
    → m.node_index < length m.nodes
    → i < length m.nodes
    → usable_at m now i ≡ true
    → nearest_usable m now ≡ false
    → (j : ℕ) × ((get_node m now).1 ≡ listed j) × (usable_at m now j ≡ true)
unfolding get_node get_listed
get_node_usable m now i h b u near =
    elim (rotate_lem m now (length m.nodes) m.node_index h (omega arith)) [
      | inl (j, e, v) ↦ (
        j,
        rw (get_node, near)
            (ap listed (found_chosen (rotate m now (length m.nodes) m.node_index) j e)),
        v,
      )
      | inr f ↦ absurd (ground (arith, f i b (ground arith), u))
    ]
