-- ===== src/Coordinator/Writes/Report.antt =====
-- src/typesense_lite/coordinator.py: what an import reports, and what ends it without a report.
use typesense_python.Base.{
  if◌then◌else◌, Bool-cases, nat_eq, length, length-append, Str, text_eq, ℕ, suc, ◌+◌, ◌≤◌, ◌≡◌,
  refl, sym, ◌↔◌, inl, inr, Bool, true, false, Option, none, some, List, [], ◌∷◌, ◌++◌, arith,
}
use mathlib.Core.Path.{subst}
use typesense_python.Base.Count.{count}
use typesense_python.Schemas.{Document}
use typesense_python.Cluster.{ClusterMap}
use typesense_python.LeaderDirectory.{Ask, Leaders}
use typesense_python.Coordinator.{Post, SubmitError}
use typesense_python.Coordinator.Writes.{
  Written, ImportItem, ImportReport, Imported, Item, item_of, is_caught, add_document, import_loop,
  import_end, import_documents,
}
use typesense_python.Coordinator.Writes.Written.{written, invalid_id, write_failed}
use typesense_python.Coordinator.Writes.Imported.{reported, aborted}
use typesense_python.Coordinator.Writes.Item.{succeeds, fails, raises}

abbrev is_ok : ImportItem → Bool
is_ok i = i.ok

count-snoc :
    (xs : List ImportItem) (i : ImportItem)
    → count is_ok (xs ++ (i ∷ [])) ≡ count is_ok xs + (if i.ok then 1 else 0)
unfolding count
count-snoc [] i = omega arith
count-snoc (x ∷ xs) i = omega (arith, count-snoc xs i)

count-le-length : (xs : List ImportItem) → count is_ok xs ≤ length xs
unfolding count
count-le-length [] = omega arith
count-le-length (x ∷ xs) = ground (arith, count-le-length xs)

-- What the loop's variables say of the items.
record Counted (results : List ImportItem) (remaining : ℕ) (e : Option SubmitError)
    (rs : List ImportItem) (n : ℕ) : Type 0 where
  counted : n ≡ count is_ok rs
  length_of : e ≡ none → length rs ≡ length results + remaining
  uncaught : (x : SubmitError) → e ≡ some x → is_caught x ≡ false

-- A report that is true to its items: one for each document, and the counts are theirs.
pub record IsFaithful (documents : List Document) (r : ImportReport) : Type 0 where
  pub complete : length r.results ≡ length documents
  pub total : r.total ≡ length documents
  pub counted : r.succeeded ≡ count (λ i. i.ok) r.results
  pub summed : r.succeeded + r.failed ≡ r.total
  pub good : (r.ok ≡ true) ↔ (r.failed ≡ 0)

-- An item says whether its write succeeded.
abbrev Marked : Item → Type 0
Marked (succeeds i) = i.ok ≡ true
Marked (fails i) = i.ok ≡ false
Marked (raises e) = is_caught e ≡ false

item_of-Marked : (d : Document) (r : Written) → Marked (item_of d r)
unfolding item_of
item_of-Marked d (written r) = refl
item_of-Marked d invalid_id = refl
item_of-Marked d (write_failed e) = elim (Bool-cases (is_caught e)) [
  | inl q ↦ rw q refl
  | inr q ↦ rw q q
]

count-next :
    (rs : List ImportItem) (i : ImportItem) (b : Bool)
    → i.ok ≡ b
    → count is_ok rs + (if b then 1 else 0) ≡ count is_ok (rs ++ (i ∷ []))
count-next rs i b q =
    subst (λ k. count is_ok rs + (if k then 1 else 0) ≡ count is_ok (rs ++ (i ∷ []))) q
      (sym (count-snoc rs i))

Counted-shift :
    (rs : List ImportItem) (i : ImportItem) (k : ℕ) (e : Option SubmitError) (out : List ImportItem)
    (n : ℕ)
    → Counted (rs ++ (i ∷ [])) k e out n
    → Counted rs (suc k) e out n
Counted-shift rs i k e out n c = record {
  counted = c.counted;
  length_of = λ q. omega (arith, c.length_of q, length-append rs (i ∷ []));
  uncaught = c.uncaught;
}

-- A true report, or an error that is not caught.
abbrev pub Truthful : List Document → Imported → Type 0
Truthful documents (reported r) = IsFaithful documents r
Truthful documents (aborted e) = is_caught e ≡ false

import_end-Truthful :
    (documents : List Document) (out : Option SubmitError × List ImportItem × ℕ)
    → Counted [] (length documents) (out.0) (out.1) (out.2)
    → Truthful documents (import_end documents out)
import_end-Truthful documents (some e, rs, n) c = c.uncaught e refl
import_end-Truthful documents (none, rs, n) c =
    let len = c.length_of refl in
    let le = count-le-length rs in
    let q = c.counted in
    record {
      complete = omega (arith, len);
      total = refl;
      counted = q;
      summed = omega (arith, len, le, q);
      good = (λ e. ground (arith, e), λ e. ground (arith, e));
    }

module _ {W : Type 0} (ask : Ask W) (post : Post W) (cluster : ClusterMap) (digest : Str → ℕ) where
  -- How an import ends.
  abbrev Ends :
      W × Leaders × (Option SubmitError × List ImportItem × ℕ) → List ImportItem → ℕ → Type 0
  Ends out results remaining = Counted results remaining (out.2.0) (out.2.1) (out.2.2)

  import_loop-Counted :
      (w : W) (leaders : Leaders) (collection : Str) (documents : List Document)
      (results : List ImportItem) (succeeded : ℕ)
      → succeeded ≡ count is_ok results
      → Ends
          (import_loop ask post cluster digest w leaders collection documents results succeeded)
          results
          (length documents)
  unfolding import_loop
  import_loop-Counted w leaders collection [] results n c = record {
    counted = c;
    length_of = λ q. omega arith;
    uncaught = λ x q. absurd (ground arith);
  }
  import_loop-Counted w leaders collection (d ∷ ds) results n c =
      let out = add_document ask post cluster digest w leaders collection d in
      elim (item_of d (out.2))
          as (λ it.
            Marked it
            → Ends
                (elim it [
                  | succeeds i ↦
                      import_loop ask post cluster digest (out.0) (out.1) collection ds
                        (results ++ (i ∷ [])) (n + 1)
                  | fails i ↦
                      import_loop ask post cluster digest (out.0) (out.1) collection ds
                        (results ++ (i ∷ [])) n
                  | raises e ↦ (out.0, out.1, (some e, results, n))
                ])
                results (suc (length ds))) [
                  | succeeds i ↦ λ q. Counted-shift results i (length ds) _ _ _ (
                      import_loop-Counted (out.0) (out.1) collection ds (results ++ (i ∷ []))
                        (n + 1) (omega (arith, c, count-next results i true q)))
                  | fails i ↦ λ q. Counted-shift results i (length ds) _ _ _ (
                      import_loop-Counted (out.0) (out.1) collection ds (results ++ (i ∷ [])) n
                        (omega (arith, c, count-next results i false q)))
                  | raises e ↦ λ q. record {
                    counted = c;
                    length_of = λ z. absurd (ground (arith, z));
                    uncaught = λ x z. ground (arith, z, q);
                  }
                ]
        (item_of-Marked d (out.2))

  -- A report that an import returns holds as many items as there are documents, as
  -- many of them good as it says, and the rest are counted as failed; an error that ends an import is
  -- one that its handler does not catch.
  pub import_documents-Truthful :
      (w : W) (leaders : Leaders) (collection : Str) (documents : List Document)
      → Truthful documents
          (import_documents ask post cluster digest w leaders collection documents).2
  unfolding import_documents count
  import_documents-Truthful w leaders collection documents =
      let c = import_loop-Counted w leaders collection documents [] 0 refl in
      import_end-Truthful documents _ c
