-- ===== src/Rebuild.antt =====
-- src/typesense_lite/rebuild.py: the payload of a shard's snapshot. Its JSON is given with the fields
-- read: `none` stands for a key that is missing or a value of another type. `snapshot_checksum` is
-- the parameter `checksum`, since it prints JSON and hashes it.
pub mod Accepted
use typesense_python.Base.{
  ltb, if◌then◌else◌, nat_eq, Str, codes, str_eq, text_eq, ℕ, Bool, true, false, not, ◌&&◌, ◌||◌,
  Option, none, some, List, [], ◌∷◌, map,
}
use typesense_python.Base.Dict.{Dict, get, put}
use typesense_python.Base.Result.{Result, ok, raise, ◌>>=◌}
use typesense_python.Base.Result.Error.{value_error}
use typesense_python.Schemas.{ℤ, int_beq, Document, Value}
use typesense_python.Schemas.ℤ.{pos, negsuc}
use typesense_python.Schemas.Value.{text}
use typesense_python.Raft.Types.{RaftLogEntry}

abbrev pub Collections : Type 0
Collections = Dict Str (List Document)

pub record Manifest : Type 0 where
  pub shard_id : Option ℤ
  pub source_node_id : Option Str
  pub source_role : Option Str
  pub term : Option ℤ
  pub snapshot_index : Option ℤ
  pub commit_index : Option ℤ
  pub checksum : Option Str

pub record Payload : Type 0 where
  pub manifest : Option Manifest
  pub collections : Option (List (Str × Option (List (Option Document))))
  pub log_entries : List RaftLogEntry

pub record Snapshot : Type 0 where
  pub manifest : Manifest
  pub collections : Collections
  pub log_entries : List RaftLogEntry

pub record Expected : Type 0 where
  pub shard_id : ℤ
  pub source_node_id : Str
  pub term : Option ℤ
  pub snapshot_index : Option ℤ
  pub commit_index : Option ℤ

-- int(manifest.get(key, -1))
abbrev pub or_minus_one : Option ℤ → ℤ
or_minus_one none = negsuc 0
or_minus_one (some n) = n

abbrev pub is_text : Option Str → Str → Bool
is_text none s = false
is_text (some t) s = str_eq t s

abbrev pub is_negative : ℤ → Bool
is_negative (pos n) = false
is_negative (negsuc n) = true

-- a > b
abbrev pub is_ahead : ℤ → ℤ → Bool
is_ahead (pos a) (pos b) = ltb b a
is_ahead (pos a) (negsuc b) = true
is_ahead (negsuc a) (pos b) = false
is_ahead (negsuc a) (negsuc b) = ltb a b

-- expected is not None and actual != expected
abbrev pub has_changed : Option ℤ → ℤ → Bool
has_changed none actual = false
has_changed (some expected) actual = not (int_beq actual expected)

-- The tests of the manifest in their order.
unfoldable pub manifest_is_valid : Manifest → Expected → Bool
manifest_is_valid m e =
    let term = or_minus_one m.term in
    let snapshot_index = or_minus_one m.snapshot_index in
    let commit_index = or_minus_one m.commit_index in
    int_beq (or_minus_one m.shard_id) e.shard_id
    && (is_text m.source_node_id e.source_node_id
        && (is_text m.source_role (codes "leader")
            && (not (is_negative term || (is_negative snapshot_index || is_negative commit_index))
                && (not (is_ahead snapshot_index commit_index)
                    && (not (has_changed e.term term)
                        && (not (has_changed e.snapshot_index snapshot_index)
                            && not (has_changed e.commit_index commit_index)))))))

-- isinstance(document.get("id"), str)
abbrev pub has_text_id : Option Value → Bool
has_text_id (some (text s)) = true
has_text_id _ = false

unfoldable pub normalize_documents : List (Option Document) → Result (List Document)
normalize_documents [] = ok []
normalize_documents (none ∷ ds) = raise value_error
normalize_documents (some d ∷ ds) =
    if has_text_id (get d (codes "id"))
    then (normalize_documents ds >>= λ rest. ok (d ∷ rest))
    else raise value_error

unfoldable pub normalize :
    Collections → List (Str × Option (List (Option Document))) → Result Collections
normalize done [] = ok done
normalize done ((c, none) ∷ cs) = raise value_error
normalize done ((c, some ds) ∷ cs) =
    normalize_documents ds >>= λ documents. normalize (put done c documents) cs

module _ (checksum : Collections → Str) where
  unfoldable pub validate_snapshot_payload : Payload → Expected → Result Snapshot
  validate_snapshot_payload payload expected = elim payload.manifest [
    | none ↦ raise value_error
    | some manifest ↦ elim payload.collections [
      | none ↦ raise value_error
      | some collections ↦
          if manifest_is_valid manifest expected
          then (normalize [] collections >>= λ normalized.
              (if is_text manifest.checksum (checksum normalized)
                then ok (record {
                  manifest = manifest;
                  collections = normalized;
                  log_entries = payload.log_entries;
                })
                else raise value_error))
          else raise value_error
    ]
  ]

  -- What the leader sends; the counts and the time in its manifest are never read.
  unfoldable pub build_snapshot_payload :
      ℕ → Str → Str → ℕ → ℕ → ℕ → Collections → List RaftLogEntry → Payload
  build_snapshot_payload shard_id source role term snapshot_index commit_index collections entries =
      record {
        manifest = some (record {
          shard_id = some (pos shard_id);
          source_node_id = some source;
          source_role = some role;
          term = some (pos term);
          snapshot_index = some (pos snapshot_index);
          commit_index = some (pos commit_index);
          checksum = some (checksum collections);
        });
        collections =
            some (map (λ (c : Str × List Document). (c.0, some (map some (c.1)))) collections);
        log_entries = entries;
      }
