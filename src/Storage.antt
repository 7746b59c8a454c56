-- ===== src/Storage.antt =====
-- src/typesense_lite/storage.py: the appends of one data node, as the records that it has passed to
-- `_append_record`, in order. The paths of the files and the lines of JSON in them are not modelled.
use typesense_python.Base.{
  ◌==◌, if◌then◌else◌, ==_iff, Bool-cases, Eq, nat_eq, Str, str_eq, str_eq_iff, text_eq, ℕ, ◌≡◌,
  refl, ap, ◌∙◌, ◌↔◌, inl, inr, Bool, true, ◌&&◌, List, [], ◌∷◌, ◌++◌, arith,
}
use typesense_python.Schemas.{Document}
use mathlib.Core.Path.{ap₂}

pub data StorageRecord : Type 0 where
  upsert : Document → StorageRecord
  delete : Str → StorageRecord

-- (shard_id, collection)
abbrev pub Key : Type 0
Key = ℕ × Str

abbrev pub key_beq : Key → Key → Bool
key_beq a b = (a.0 == b.0) && str_eq (a.1) (b.1)

pub key_beq_iff : (a b : Key) → (key_beq a b ≡ true) ↔ (a ≡ b)
key_beq_iff (s, c) (t, d) = (
  λ h. ap₂ (λ x y. (x, y)) ((==_iff s t).0 (ground arith)) ((str_eq_iff c d).0 (ground arith)),
  λ e. ground (
    arith,
    (==_iff s t).1 (ap (λ (k : Key). k.0) e),
    (str_eq_iff c d).1 (ap (λ (k : Key). k.1) e),
  ),
)

instance abbrev pub key_eq : Eq Key
key_eq = record { beq = key_beq; beq_iff = key_beq_iff }

-- The calls of `_append_record`, the last at the end.
abbrev pub Appends : Type 0
Appends = List (Key × StorageRecord)

unfoldable pub append_record : Appends → Key → StorageRecord → Appends
append_record appends k r = appends ++ ((k, r) ∷ [])

abbrev pub append_document : Appends → Key → Document → Appends
append_document appends k d = append_record appends k (upsert d)

abbrev pub append_delete : Appends → Key → Str → Appends
append_delete appends k id = append_record appends k (delete id)

-- The records of one shard and collection, in order.
unfoldable pub records_of : Appends → Key → List StorageRecord
records_of [] k = []
records_of ((j, r) ∷ appends) k =
    let rest = records_of appends k in if key_beq j k then r ∷ rest else rest

pub records_of-append_record :
    (appends : Appends) (j k : Key) (r : StorageRecord)
    → records_of (append_record appends j r) k
      ≡ (if key_beq j k then records_of appends k ++ (r ∷ []) else records_of appends k)
unfolding records_of append_record
records_of-append_record [] j k r = refl
records_of-append_record ((i, q) ∷ appends) j k r = elim (Bool-cases (key_beq i k)) [
  | inl e ↦ elim (Bool-cases (key_beq j k)) [
    | inl f ↦ rw (e, f) (ap (λ rs. q ∷ rs) (records_of-append_record appends j k r ∙ rw f refl))
    | inr f ↦ rw (e, f) (ap (λ rs. q ∷ rs) (records_of-append_record appends j k r ∙ rw f refl))
  ]
  | inr e ↦ rw e (records_of-append_record appends j k r)
]
