-- ===== src/Index/Query/Edits.antt =====
-- What `_edit_distance` of src/typesense_lite/index.py means: the fewest edits between two texts.
use typesense_python.Base.{
  ◌==◌, if◌then◌else◌, ==_iff, nat_eq, length, Str, text_eq, ℕ, suc, ◌+◌, ◌≤◌, min, ◌≡◌, refl, ap,
  ◌∙◌, Bool, true, false, [], ◌∷◌, ◌++◌, append-nil, arith,
}
use mathlib.Core.Path.{subst}
use native.Mathlib.Decide.{dec_le}

-- A way to turn one text into another, and its number of edits.
pub data Edits : Str → Str → ℕ → Type 0 where
  same : Edits [] [] 0
  keep : {a b : Str} {n : ℕ} (c : ℕ) → Edits a b n → Edits (c ∷ a) (c ∷ b) n
  replace : {a b : Str} {n : ℕ} (c d : ℕ) → Edits a b n → Edits (c ∷ a) (d ∷ b) (suc n)
  delete : {a b : Str} {n : ℕ} (c : ℕ) → Edits a b n → Edits (c ∷ a) b (suc n)
  insert : {a b : Str} {n : ℕ} (d : ℕ) → Edits a b n → Edits a (d ∷ b) (suc n)

-- The least number of edits.
unfoldable pub distance : Str → Str → ℕ
distance [] b = length b
distance (c ∷ a) [] = suc (length a)
distance (c ∷ a) (d ∷ b) =
    min (min (distance (c ∷ a) b + 1) (distance a (d ∷ b) + 1))
      (if c == d then distance a b else distance a b + 1)

pub distance-nil : (a : Str) → distance a [] ≡ length a
unfolding distance
distance-nil [] = refl
distance-nil (c ∷ a) = refl

insert_all : (b : Str) → Edits [] b (length b)
insert_all [] = same
insert_all (d ∷ b) = insert d (insert_all b)

delete_all : (a : Str) → Edits a [] (length a)
delete_all [] = same
delete_all (c ∷ a) = delete c (delete_all a)

Edits-min : (a b : Str) (m n : ℕ) → Edits a b m → Edits a b n → Edits a b (min m n)
Edits-min a b m n x y = elim (dec_le m n) [
  | yes le ↦ subst (Edits a b) (omega arith) x
  | no gt ↦ subst (Edits a b) (omega arith) y
]

Edits-suc : (a b : Str) (n : ℕ) → Edits a b (suc n) → Edits a b (n + 1)
Edits-suc a b n e = subst (Edits a b) (omega arith) e

keep_or_replace :
    (c d n : ℕ) (a b : Str) (k : Bool)
    → (c == d) ≡ k
    → Edits a b n
    → Edits (c ∷ a) (d ∷ b) (if k then n else n + 1)
keep_or_replace c d n a b true q e =
    subst (λ x. Edits (c ∷ a) (x ∷ b) n) ((==_iff c d).0 q) (keep c e)
keep_or_replace c d n a b false q e = Edits-suc (c ∷ a) (d ∷ b) n (replace c d e)

pub distance-Edits : (a b : Str) → Edits a b (distance a b)
unfolding distance
distance-Edits [] b = insert_all b
distance-Edits (c ∷ a) [] = delete_all (c ∷ a)
distance-Edits (c ∷ a) (d ∷ b) =
    Edits-min (c ∷ a) (d ∷ b) _ _
      (Edits-min (c ∷ a) (d ∷ b) _ _
        (Edits-suc (c ∷ a) (d ∷ b) (distance (c ∷ a) b) (insert d (distance-Edits (c ∷ a) b)))
        (Edits-suc (c ∷ a) (d ∷ b) (distance a (d ∷ b)) (delete c (distance-Edits a (d ∷ b)))))
      (keep_or_replace c d (distance a b) a b (c == d) refl (distance-Edits a b))

distance-delete : (c : ℕ) (a b : Str) → distance (c ∷ a) b ≤ suc (distance a b)
unfolding distance
distance-delete c a [] = omega (arith, distance-nil a)
distance-delete c a (d ∷ b) = ground arith

distance-insert : (d : ℕ) (a b : Str) → distance a (d ∷ b) ≤ suc (distance a b)
unfolding distance
distance-insert d [] b = omega arith
distance-insert d (c ∷ a) b = ground arith

distance-keep : (c : ℕ) (a b : Str) → distance (c ∷ a) (c ∷ b) ≤ distance a b
unfolding distance
distance-keep c a b = ground (arith, ==_iff c c)

distance-replace : (c d : ℕ) (a b : Str) → distance (c ∷ a) (d ∷ b) ≤ suc (distance a b)
unfolding distance
distance-replace c d a b = ground arith

pub distance-least : (a b : Str) (n : ℕ) → Edits a b n → distance a b ≤ n
unfolding distance
distance-least _ _ _ same = omega arith
distance-least _ _ _ (keep {a} {b} {n} c e) =
    omega (arith, distance-keep c a b, distance-least a b n e)
distance-least _ _ _ (replace {a} {b} {n} c d e) =
    omega (arith, distance-replace c d a b, distance-least a b n e)
distance-least _ _ _ (delete {a} {b} {n} c e) =
    omega (arith, distance-delete c a b, distance-least a b n e)
distance-least _ _ _ (insert {a} {b} {n} d e) =
    omega (arith, distance-insert d a b, distance-least a b n e)

-- A text read backwards, in front of another.
unfoldable pub onto : Str → Str → Str
onto [] b = b
onto (c ∷ a) b = onto a (c ∷ b)

onto-onto : (a b c : Str) → onto (onto a b) c ≡ onto b (a ++ c)
unfolding onto
onto-onto [] b c = refl
onto-onto (x ∷ a) b c = onto-onto a (x ∷ b) c

Edits-onto :
    (a b a' b' : Str) (n m : ℕ)
    → Edits a b n
    → Edits a' b' m
    → Edits (onto a a') (onto b b') (n + m)
unfolding onto
Edits-onto _ _ a' b' _ m same t = subst (Edits a' b') (omega arith) t
Edits-onto _ _ a' b' _ m (keep {a} {b} {n} c e) t =
    Edits-onto a b (c ∷ a') (c ∷ b') n m e (keep c t)
Edits-onto _ _ a' b' _ m (replace {a} {b} {n} c d e) t =
    subst (Edits (onto a (c ∷ a')) (onto b (d ∷ b'))) (omega arith)
      (Edits-onto a b (c ∷ a') (d ∷ b') n (suc m) e (replace c d t))
Edits-onto _ _ a' b' _ m (delete {a} {b} {n} c e) t =
    subst (Edits (onto a (c ∷ a')) (onto b b')) (omega arith)
      (Edits-onto a b (c ∷ a') b' n (suc m) e (delete c t))
Edits-onto _ _ a' b' _ m (insert {a} {b} {n} d e) t =
    subst (Edits (onto a a') (onto b (d ∷ b'))) (omega arith)
      (Edits-onto a b a' (d ∷ b') n (suc m) e (insert d t))

distance-onto_le : (a b : Str) → distance (onto a []) (onto b []) ≤ distance a b
distance-onto_le a b = omega (
  arith,
  distance-least (onto a []) (onto b []) (distance a b + 0)
      (Edits-onto a b [] [] (distance a b) 0 (distance-Edits a b) same),
)

onto_twice : (a : Str) → onto (onto a []) [] ≡ a
unfolding onto
onto_twice a = onto-onto a [] [] ∙ append-nil a

-- Reading both texts backwards keeps the distance.
pub distance-onto : (a b : Str) → distance (onto a []) (onto b []) ≡ distance a b
distance-onto a b =
    let back = distance-onto_le (onto a []) (onto b []) in
    omega (
      arith,
      distance-onto_le a b,
      back,
      ap (λ x. distance x (onto (onto b []) [])) (onto_twice a),
      ap (distance a) (onto_twice b),
    )

-- The texts differ in length by the number of edits at most.
pub length-Edits :
    (a b : Str) (n : ℕ) → Edits a b n → (length a ≤ length b + n) × (length b ≤ length a + n)
length-Edits _ _ _ same = (omega arith, omega arith)
length-Edits _ _ _ (keep {a} {b} {n} c e) =
    let (x, y) = length-Edits a b n e in (omega (arith, x), omega (arith, y))
length-Edits _ _ _ (replace {a} {b} {n} c d e) =
    let (x, y) = length-Edits a b n e in (omega (arith, x), omega (arith, y))
length-Edits _ _ _ (delete {a} {b} {n} c e) =
    let (x, y) = length-Edits a b n e in (omega (arith, x), omega (arith, y))
length-Edits _ _ _ (insert {a} {b} {n} d e) =
    let (x, y) = length-Edits a b n e in (omega (arith, x), omega (arith, y))
