-- ===== src/Base/Dict.antt =====
-- Python's `dict`: an association list in insertion order. Writing a key that is there keeps its
-- place, a new key goes to the end.
use typesense_python.Base.Tests.{Eq, if◌then◌else◌, Bool-cases}
use typesense_python.Base.Lists.{All, length}
use mathlib.Core.Logic.{inl, inr}
use Prim.Native.Nat.{◌+◌, ◌≤◌}
use mathlib.Core.Path.{◌≡◌, refl, ◌∙◌, subst}
use mathlib.Core.List.{List, [], ◌∷◌}
use mathlib.Core.Option.{Option, none, some}
use native.Mathlib.Omega.{arith}

abbrev pub Dict {ℓ κ} : Type ℓ → Type κ → Type (ℓ ⊔ κ)
Dict K V = List (K × V)

module _ {ℓ κ} {K : Type ℓ} {V : Type κ} ⦃e : Eq K⦄ where
  -- d.get(k)
  unfoldable pub get : Dict K V → K → Option V
  get [] k = none
  get ((j, v) ∷ d) k = if e.beq j k then some v else get d k

  -- d[k] = v
  unfoldable pub put : Dict K V → K → V → Dict K V
  put [] k v = (k, v) ∷ []
  put ((j, w) ∷ d) k v = if e.beq j k then (j, v) ∷ d else (j, w) ∷ put d k v

  -- d.pop(k, None)
  unfoldable pub remove : Dict K V → K → Dict K V
  remove [] k = []
  remove ((j, w) ∷ d) k = let rest = remove d k in if e.beq j k then rest else (j, w) ∷ rest

  pub get-put :
      (d : Dict K V) (k j : K) (v : V) → get (put d k v) j ≡ (if e.beq k j then some v else get d j)
  unfolding get put
  get-put [] k j v = refl
  get-put ((i, w) ∷ d) k j v =
      ground (arith, e.beq_iff i k, e.beq_iff i j, e.beq_iff k j, get-put d k j v)

  pub get-remove :
      (d : Dict K V) (k j : K) → get (remove d k) j ≡ (if e.beq k j then none else get d j)
  unfolding get remove
  get-remove [] k j = ground arith
  get-remove ((i, w) ∷ d) k j =
      ground (arith, e.beq_iff i k, e.beq_iff i j, e.beq_iff k j, get-remove d k j)

  pub get-put_self : (d : Dict K V) (k : K) (v : V) → get (put d k v) k ≡ some v
  get-put_self d k v = rw (get-put d k k v, (e.beq_iff k k).1 refl) refl

  -- No key stands twice.
  abbrev pub Unique : Dict K V → Type κ
  Unique [] = Unit
  Unique ((k, v) ∷ d) = (get d k ≡ none) × Unique d

  pub put-Unique : (d : Dict K V) (k : K) (v : V) → Unique d → Unique (put d k v)
  unfolding put get
  put-Unique [] k v u = (refl, tt)
  put-Unique ((j, w) ∷ d) k v u = elim (Bool-cases (e.beq j k)) [
    | inl q ↦ rw q u
    | inr q ↦ rw q (
      get-put d k j v ∙ ground (arith, e.beq_iff j k, e.beq_iff k j, u.0),
      put-Unique d k v (u.1),
    )
  ]

  pub remove-Unique : (d : Dict K V) (k : K) → Unique d → Unique (remove d k)
  unfolding remove get
  remove-Unique [] k u = tt
  remove-Unique ((j, w) ∷ d) k u = elim (Bool-cases (e.beq j k)) [
    | inl q ↦ rw q (remove-Unique d k (u.1))
    | inr q ↦ rw q (get-remove d k j ∙ ground (arith, u.0), remove-Unique d k (u.1))
  ]

  -- What holds of every key that is found holds of every entry.
  pub All-get {μ} :
      (P : K → V → Type μ) (d : Dict K V)
      → Unique d
      → ((k : K) (v : V) → get d k ≡ some v → P k v)
      → All (λ e. P (e.0) (e.1)) d
  unfolding get
  All-get P [] u f = tt
  All-get P ((j, w) ∷ d) u f = (
    f j w (rw ((e.beq_iff j j).1 refl) refl),
    All-get P d (u.1) (λ k v h. f k v (ground (arith, h, u.0, e.beq_iff j k))),
  )

  remove-absent : (d : Dict K V) (k : K) → get d k ≡ none → length (remove d k) ≡ length d
  unfolding remove get
  remove-absent [] k h = refl
  remove-absent ((j, w) ∷ d) k h = elim (Bool-cases (e.beq j k)) [
    | inl q ↦ absurd (ground (arith, h, q))
    | inr q ↦ rw q (omega (arith, remove-absent d k (ground (arith, h, q))))
  ]

  pub length-remove : (d : Dict K V) (k : K) → Unique d → length d ≤ length (remove d k) + 1
  unfolding remove
  length-remove [] k u = omega arith
  length-remove ((j, w) ∷ d) k u = elim (Bool-cases (e.beq j k)) [
    | inl q ↦
        rw q (
          omega
            (arith, remove-absent d k (subst (λ i. get d i ≡ none) ((e.beq_iff j k).0 q) (u.0))))
    | inr q ↦ rw q (omega (arith, length-remove d k (u.1)))
  ]

pub ruleset dict_laws = (get-put, get-remove)
