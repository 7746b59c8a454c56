-- ===== src/Schemas.antt =====
-- src/typesense_lite/schemas.py: documents (JSON objects), nodes and shard placements.
use typesense_python.Base.{
  ◌==◌, ==_iff, Eq, nat_eq, Str, text_eq, ℕ, ◌≡◌, refl, ap, ◌↔◌, Bool, true, false, List, arith,
}
use typesense_python.Base.Dict.{Dict}

-- `negsuc n` is -(n + 1).
pub data ℤ : Type 0 where
  pos : ℕ → ℤ
  negsuc : ℕ → ℤ

-- Equality of integers.
unfoldable pub int_beq : ℤ → ℤ → Bool
int_beq (pos m) (pos n) = m == n
int_beq (negsuc m) (negsuc n) = m == n
int_beq _ _ = false

int_beq→eq : (a b : ℤ) → int_beq a b ≡ true → a ≡ b
unfolding int_beq
int_beq→eq (pos m) (pos n) h = ap pos ((==_iff m n).0 h)
int_beq→eq (negsuc m) (negsuc n) h = ap negsuc ((==_iff m n).0 h)
int_beq→eq (pos m) (negsuc n) h = ground arith
int_beq→eq (negsuc m) (pos n) h = ground arith

int_beq_refl : (a : ℤ) → int_beq a a ≡ true
unfolding int_beq
int_beq_refl (pos n) = (==_iff n n).1 refl
int_beq_refl (negsuc n) = (==_iff n n).1 refl

pub int_beq_iff : (a b : ℤ) → (int_beq a b ≡ true) ↔ (a ≡ b)
int_beq_iff a b = (int_beq→eq a b, λ e. rw e (int_beq_refl b))

instance abbrev pub int_eq : Eq ℤ
int_eq = record { beq = int_beq; beq_iff = int_beq_iff }

-- What `json.loads` returns. A float is given by its 64 bits.
mutual
  pub data Value : Type 0 where
    null : Value
    boolean : Bool → Value
    integer : ℤ → Value
    real : ℕ → Value
    text : Str → Value
    array : Items → Value
    object : Fields → Value

  pub data Items : Type 0 where
    nil : Items
    cons : Value → Items → Items

  pub data Fields : Type 0 where
    end : Fields
    field : Str → Value → Fields → Fields

abbrev pub Document : Type 0
Document = Dict Str Value

pub record NodeInfo : Type 0 where
  pub id : Str
  pub host : Str
  pub port : ℕ

pub record ShardPlacement : Type 0 where
  pub shard_id : ℤ
  pub primary : Str
  pub replicas : List Str
