-- ===== src/Rebuild/Accepted.antt =====
-- src/typesense_lite/rebuild.py: which snapshots are accepted.
use typesense_python.Base.{
  ltb, Bool-cases, nat_eq, All, Str, codes, str_eq, str_eq_iff, str_eq_refl, text_eq, ℕ, ◌≤◌, ◌≡◌,
  ◌↔◌, refl, ap, ◌∙◌, inl, inr, ◌⊎◌, true, false, Option, none, some, List, [], ◌∷◌, ◌++◌, map,
  arith,
}
use typesense_python.Base.Dict.{get, put, get-put, Unique}
use typesense_python.Base.Result.{raise, ok}
use typesense_python.Base.Result.Error.{value_error}
use typesense_python.Schemas.{ℤ, int_beq_iff, Document}
use typesense_python.Schemas.ℤ.{pos}
use typesense_python.Raft.Types.{RaftLogEntry}
use typesense_python.Rebuild.{
  Collections, Manifest, Payload, Snapshot, Expected, has_changed, build_snapshot_payload,
  manifest_is_valid, has_text_id, normalize_documents, normalize, validate_snapshot_payload,
}

-- Every document has an id that is a string.
abbrev pub HasIds : List Document → Type 0
HasIds ds = All (λ d. has_text_id (get d (codes "id")) ≡ true) ds

normalize_documents_lem :
    (ds : List Document) → HasIds ds → normalize_documents (map some ds) ≡ ok ds
unfolding normalize_documents
normalize_documents_lem [] h = refl
normalize_documents_lem (d ∷ ds) h =
    rw (normalize_documents, h.0, normalize_documents_lem ds (h.1)) refl

abbrev built : Collections → List (Str × Option (List (Option Document)))
built cs = map (λ (c : Str × List Document). (c.0, some (map some (c.1)))) cs

-- No collection of the one is in the other.
abbrev Apart : Collections → Collections → Type 0
Apart done cs = All (λ (c : Str × List Document). get done (c.0) ≡ none) cs

put-absent :
    (done : Collections) (c : Str) (ds : List Document)
    → get done c ≡ none
    → put done c ds ≡ done ++ ((c, ds) ∷ [])
unfolding get put
put-absent [] c ds h = refl
put-absent ((k, v) ∷ done) c ds h = elim (Bool-cases (str_eq k c)) [
  | inl e ↦ absurd (ground (arith, e, h))
  | inr e ↦ rw e (ap (λ d. (k, v) ∷ d) (put-absent done c ds (ground (arith, e, h))))
]

Apart-put :
    (done cs : Collections) (c : Str) (ds : List Document)
    → get cs c ≡ none
    → Apart done cs
    → Apart (put done c ds) cs
unfolding get
Apart-put done [] c ds h a = tt
Apart-put done ((k, v) ∷ cs) c ds h a = (
  get-put done c k ds ∙ ground (arith, str_eq_iff k c, str_eq_iff c k, h, a.0),
  Apart-put done cs c ds (ground (arith, h)) (a.1),
)

append_assoc : (xs ys zs : Collections) → ((xs ++ ys) ++ zs) ≡ (xs ++ (ys ++ zs))
append_assoc [] ys zs = refl
append_assoc (x ∷ xs) ys zs = ap (λ d. x ∷ d) (append_assoc xs ys zs)

append_nil : (xs : Collections) → xs ≡ xs ++ []
append_nil [] = refl
append_nil (x ∷ xs) = ap (λ d. x ∷ d) (append_nil xs)

normalize-built :
    (done cs : Collections)
    → Unique cs
    → Apart done cs
    → All (λ (c : Str × List Document). HasIds (c.1)) cs
    → normalize done (built cs) ≡ ok (done ++ cs)
unfolding normalize
normalize-built done [] u a h = ap ok (append_nil done)
normalize-built done ((c, ds) ∷ cs) u a h =
    rw (normalize, normalize_documents_lem ds (h.0))
      (normalize-built (put done c ds) cs (u.1) (Apart-put done cs c ds (u.0) (a.1)) (h.1)
        ∙ ap ok
            (ap (λ d. d ++ cs) (put-absent done c ds (a.0)) ∙ append_assoc done ((c, ds) ∷ []) cs))

all_new : (cs : Collections) → Apart [] cs
unfolding get
all_new [] = tt
all_new (c ∷ cs) = (refl, all_new cs)

-- The number is what was expected, if anything was.
abbrev pub IsExpected : Option ℤ → ℤ → Type 0
IsExpected none actual = Unit
IsExpected (some n) actual = actual ≡ n

has_changed_iff : (o : Option ℤ) (n : ℤ) → (has_changed o n ≡ false) ↔ IsExpected o n
has_changed_iff none n = (λ h. tt, λ h. refl)
has_changed_iff (some m) n = ground (arith, int_beq_iff n m)

-- What was sent is what was expected: the shard, the source, the leader, an index that is committed, and
-- each number that was given.
pub record Fits (shard : ℕ) (source role : Str) (t i c : ℕ) (e : Expected) : Type 0 where
  pub shard_id : pos shard ≡ e.shard_id
  pub source_node_id : source ≡ e.source_node_id
  pub source_role : role ≡ codes "leader"
  pub committed : i ≤ c
  pub term : IsExpected e.term (pos t)
  pub snapshot_index : IsExpected e.snapshot_index (pos i)
  pub commit_index : IsExpected e.commit_index (pos c)

module _ (checksum : Collections → Str) (shard : ℕ) (source role : Str) (term index commit : ℕ)
    (collections : Collections) (entries : List RaftLogEntry) where
  abbrev payload : Payload
  payload = build_snapshot_payload checksum shard source role term index commit collections entries

  abbrev sent : Manifest
  sent = record {
    shard_id = some (pos shard);
    source_node_id = some source;
    source_role = some role;
    term = some (pos term);
    snapshot_index = some (pos index);
    commit_index = some (pos commit);
    checksum = some (checksum collections);
  }

  sent-valid :
      (e : Expected) → Fits shard source role term index commit e → manifest_is_valid sent e ≡ true
  unfolding manifest_is_valid
  sent-valid e f =
      let a = (int_beq_iff (pos shard) e.shard_id).1 f.shard_id in
      let b = (str_eq_iff source e.source_node_id).1 f.source_node_id in
      let c = (str_eq_iff role (codes "leader")).1 f.source_role in
      let d : ltb commit index ≡ false = ground (arith, f.committed) in
      rw
        (
          a,
          b,
          c,
          d,
          (has_changed_iff e.term (pos term)).1 f.term,
          (has_changed_iff e.snapshot_index (pos index)).1 f.snapshot_index,
          (has_changed_iff e.commit_index (pos commit)).1 f.commit_index,
        )
        refl

  valid-Fits :
      (e : Expected) → manifest_is_valid sent e ≡ true → Fits shard source role term index commit e
  unfolding manifest_is_valid
  valid-Fits e h = record {
    shard_id = (int_beq_iff (pos shard) e.shard_id).0 (ground (arith, h));
    source_node_id = (str_eq_iff source e.source_node_id).0 (ground (arith, h));
    source_role = (str_eq_iff role (codes "leader")).0 (ground (arith, h));
    committed = ground (arith, h);
    term = (has_changed_iff e.term (pos term)).0 (ground (arith, h));
    snapshot_index = (has_changed_iff e.snapshot_index (pos index)).0 (ground (arith, h));
    commit_index = (has_changed_iff e.commit_index (pos commit)).0 (ground (arith, h));
  }

  -- A snapshot is built from collections without a repeated name, whose documents all have a text for an
  -- id. Either its shard, its source and each number that was given are the expected ones, its source is
  -- the leader and its index is not ahead of its commit index, and then it is accepted, with the
  -- collections and the log entries that were put in; or one of these is not so, and then it is refused
  -- with a ValueError.
  pub validate_snapshot_payload-build_snapshot_payload :
      (e : Expected)
      → Unique collections
      → All (λ (c : Str × List Document). HasIds (c.1)) collections
      → (Fits shard source role term index commit e
          × ((s : Snapshot) × (validate_snapshot_payload checksum payload e ≡ ok s)
              × (s.collections ≡ collections)
              × (s.log_entries ≡ entries)))
        ⊎ ((¬ Fits shard source role term index commit e)
            × (validate_snapshot_payload checksum payload e ≡ raise value_error))
  unfolding validate_snapshot_payload build_snapshot_payload
  validate_snapshot_payload-build_snapshot_payload e unique ids =
      elim (Bool-cases (manifest_is_valid sent e)) [
        | inl v ↦ inl (
          valid-Fits e v,
          (
            record { manifest = sent; collections = collections; log_entries = entries },
            rw
                (
                  v,
                  normalize-built [] collections unique (all_new collections) ids,
                  str_eq_refl (checksum collections),
                )
                refl,
            refl,
            refl,
          ),
        )
        | inr v ↦ inr (λ f. ground (arith, v, sent-valid e f), rw v refl)
      ]
