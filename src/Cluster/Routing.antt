-- ===== src/Cluster/Routing.antt =====
-- src/typesense_lite/cluster.py: a configuration that is accepted routes every document.
use typesense_python.Base.{
  Bool-cases, Option-cases, nat_eq, length, any, Str, text_eq, ℕ, zero, suc, ◌%◌, ◌≤◌, ◌<◌, ◌≡◌,
  refl, sym, ◌≢◌, inl, inr, true, false, none, some, List, [], ◌∷◌, map, arith,
}
use typesense_python.Base.Dict.{
  Dict, get, put, remove, get-remove, Unique, put-Unique, remove-Unique, length-remove,
}
use typesense_python.Base.Result.{ok, Result-cases}
use typesense_python.Schemas.{ℤ, int_eq, int_beq, int_beq_iff, NodeInfo, ShardPlacement}
use typesense_python.Schemas.ℤ.{pos, negsuc}
use mathlib.Core.Path.{subst, ap₂}
use typesense_python.Cluster.{
  ClusterConfig, ClusterMap, shards_by_id, out_of_range, is_unknown, validate_shards, counts,
  is_positive, cluster_of, from_dict, get_shard_id, get_nodes, get_shard_voters,
}

-- The keys of a dictionary are the shard ids below n.
abbrev Below : ℕ → Dict ℤ ShardPlacement → Type 0
Below n d = (k : ℤ) → get d k ≢ none → out_of_range k (pos n) ≡ false

below_pred :
    (n : ℕ) (k : ℤ)
    → out_of_range k (pos (suc n)) ≡ false
    → int_beq (pos n) k ≡ false
    → out_of_range k (pos n) ≡ false
unfolding out_of_range int_beq
below_pred n (pos m) h e = ground arith
below_pred n (negsuc m) h e = h

none_below : (k : ℤ) → out_of_range k (pos 0) ≢ false
unfolding out_of_range
none_below (pos m) h = ground arith
none_below (negsuc m) h = ground arith

get_first : (k : ℤ) (p : ShardPlacement) (d : Dict ℤ ShardPlacement) → get ((k, p) ∷ d) k ≢ none
unfolding get
get_first k p d = ground (arith, (int_beq_iff k k).1 refl)

-- n keys below n: no more fit.
length-Below : (n : ℕ) (d : Dict ℤ ShardPlacement) → Unique d → Below n d → length d ≤ n
length-Below zero [] u b = omega arith
length-Below zero ((k, p) ∷ d) u b = absurd (none_below k (b k (get_first k p d)))
length-Below (suc n) d u b = omega (
  arith,
  length-remove d (pos n) u,
  length-Below n (remove d (pos n)) (remove-Unique d (pos n) u) (λ k h.
      below_pred n k (b k (λ z. h (ground (arith, get-remove d (pos n) k, z))))
        (ground (arith, get-remove d (pos n) k, h, Bool-cases (int_beq (pos n) k)))),
)

-- So n keys below n are all of them.
Below-covers :
    (n m : ℕ) (d : Dict ℤ ShardPlacement)
    → Unique d
    → Below n d
    → length d ≡ n
    → m < n
    → get d (pos m) ≢ none
unfolding out_of_range get
Below-covers n m d u b l h z =
    let p : ShardPlacement = record { shard_id = pos m; primary = []; replicas = [] } in
    let fits : length ((pos m, p) ∷ d) ≤ n =
      length-Below n ((pos m, p) ∷ d) (z, u)
        (λ k q. elim (Bool-cases (int_beq (pos m) k)) [
          | inl e ↦
              subst (λ j. out_of_range j (pos n) ≡ false) ((int_beq_iff (pos m) k).0 e)
                (ground arith)
          | inr e ↦ b k (λ y. q (rw e y))
        ]) in
    omega arith

shards_by_id-Unique :
    (d : Dict ℤ ShardPlacement) (ps : List ShardPlacement) → Unique d → Unique (shards_by_id d ps)
unfolding shards_by_id
shards_by_id-Unique d [] u = u
shards_by_id-Unique d (p ∷ ps) u =
    shards_by_id-Unique (put d p.shard_id p) ps (put-Unique d p.shard_id p u)

-- A placement that was accepted, whose nodes are all known.
record IsPlaced (cluster : ClusterMap) (k : ℤ) (p : ShardPlacement) : Type 0 where
  in_range : out_of_range k cluster.shard_count ≡ false
  primary_known : is_unknown cluster.nodes p.primary ≡ false
  replicas_known : any (is_unknown cluster.nodes) p.replicas ≡ false

validate_shards-first :
    (cluster : ClusterMap) (d : Dict ℤ ShardPlacement) (k : ℤ) (p : ShardPlacement)
    → validate_shards cluster ((k, p) ∷ d) ≡ ok tt
    → IsPlaced cluster k p × (validate_shards cluster d ≡ ok tt)
unfolding validate_shards
validate_shards-first cluster d k p h = (
  record {
    in_range = ground (arith, h);
    primary_known = ground (arith, h);
    replicas_known = ground (arith, h);
  },
  ground (arith, h),
)

validate_shards-IsPlaced :
    (cluster : ClusterMap) (d : Dict ℤ ShardPlacement) (k : ℤ) (p : ShardPlacement)
    → validate_shards cluster d ≡ ok tt
    → get d k ≡ some p
    → IsPlaced cluster k p
unfolding get
validate_shards-IsPlaced cluster [] k p h e = absurd (ground arith)
validate_shards-IsPlaced cluster ((j, q) ∷ d) k p h e =
    let (placed, rest) = validate_shards-first cluster d j q h in
    elim (Bool-cases (int_beq j k)) [
      | inl b ↦
          subst (λ x. IsPlaced cluster k x) (ground (arith, e, b))
            (subst (λ i. IsPlaced cluster i q) ((int_beq_iff j k).0 b) placed)
      | inr b ↦ validate_shards-IsPlaced cluster d k p rest (ground (arith, e, b))
    ]

get_known :
    (cluster : ClusterMap) (id : Str)
    → is_unknown cluster.nodes id ≡ false
    → (n : NodeInfo) × (get cluster.nodes id ≡ some n)
get_known cluster id h = elim (Option-cases (get cluster.nodes id)) [
  | inl e ↦ absurd (ground (arith, e, h))
  | inr f ↦ f
]

get_nodes-known :
    (cluster : ClusterMap) (ids : List Str)
    → any (is_unknown cluster.nodes) ids ≡ false
    → (ns : List NodeInfo) × (get_nodes cluster ids ≡ ok ns)
      × (map some ns ≡ map (get cluster.nodes) ids)
unfolding get_nodes
get_nodes-known cluster [] h = ([], refl, refl)
get_nodes-known cluster (i ∷ ids) h =
    let (n, e) = get_known cluster i (ground (arith, h)) in
    let (ns, f, g) = get_nodes-known cluster ids (ground (arith, h)) in
    (n ∷ ns, rw (e, f) refl, rw (e, g) refl)

positive_count :
    (l : ℕ) (c : ℤ)
    → is_positive c ≡ true
    → counts l c ≡ true
    → (n : ℕ) × (c ≡ pos n) × (0 < n) × (l ≡ n)
unfolding is_positive counts
positive_count l (pos n) h g = (n, refl, ground arith, ground arith)
positive_count l (negsuc n) h g = absurd (ground arith)

from_dict-cases :
    (config : ClusterConfig) (cluster : ClusterMap)
    → from_dict config ≡ ok cluster
    → (cluster_of config ≡ cluster)
      × (is_positive config.count ≡ true)
      × (counts (length (cluster_of config).shards) config.count ≡ true)
      × (validate_shards (cluster_of config) (cluster_of config).shards ≡ ok tt)
unfolding from_dict
from_dict-cases config cluster h =
    elim (Result-cases (validate_shards (cluster_of config) (cluster_of config).shards)) [
      | inl (u, e) ↦ (ground (arith, h, e), ground (arith, h, e), ground (arith, h, e), e)
      | inr (x, e) ↦ absurd (ground (arith, h, e))
    ]

-- What an accepted map has: a positive count n, and n shards whose placements are valid.
abbrev Accepted : ClusterMap → Type 0
Accepted cluster =
    (n : ℕ) × (cluster.shard_count ≡ pos n)
    × (0 < n)
    × (length cluster.shards ≡ n)
    × (validate_shards cluster cluster.shards ≡ ok tt)
    × Unique cluster.shards

accepted :
    (config : ClusterConfig)
    → is_positive config.count ≡ true
    → counts (length (cluster_of config).shards) config.count ≡ true
    → validate_shards (cluster_of config) (cluster_of config).shards ≡ ok tt
    → Accepted (cluster_of config)
unfolding cluster_of
accepted config p c v =
    let (n, e, positive, l) =
      positive_count (length (shards_by_id [] config.shard_list)) config.count p c in
    (n, e, positive, l, v, shards_by_id-Unique [] config.shard_list tt)

from_dict-Accepted :
    (config : ClusterConfig) (cluster : ClusterMap)
    → from_dict config ≡ ok cluster
    → Accepted cluster
from_dict-Accepted config cluster h =
    let (same, p, c, v) = from_dict-cases config cluster h in
    subst Accepted same (accepted config p c v)

present :
    (d : Dict ℤ ShardPlacement) (k : ℤ) → get d k ≢ none → (p : ShardPlacement) × (get d k ≡ some p)
present d k h = elim (Option-cases (get d k)) [ inl e ↦ absurd (h e) | inr f ↦ f ]

get_shard_id-pos :
    (digest : Str → ℕ) (cluster : ClusterMap) (document_id : Str) (n : ℕ)
    → cluster.shard_count ≡ pos n
    → get_shard_id digest cluster document_id ≡ pos (digest document_id % n)
unfolding get_shard_id
get_shard_id-pos digest cluster document_id n c = rw c refl

-- The shard is placed, and its voters are the primary and the replicas.
abbrev HasVoters : ClusterMap → ℤ → Type 0
HasVoters cluster k =
    (p : ShardPlacement) × (voters : List NodeInfo) × (get cluster.shards k ≡ some p)
    × (get_shard_voters cluster k ≡ ok voters)
    × (map some voters ≡ map (get cluster.nodes) (p.primary ∷ p.replicas))

voters_of :
    (cluster : ClusterMap) (k : ℤ) (p : ShardPlacement) (primary : NodeInfo) (ns : List NodeInfo)
    → get cluster.shards k ≡ some p
    → get cluster.nodes p.primary ≡ some primary
    → get_nodes cluster p.replicas ≡ ok ns
    → get_shard_voters cluster k ≡ ok (primary ∷ ns)
unfolding get_shard_voters
voters_of cluster k p primary ns e f g = rw (e, f, g) refl

placed-HasVoters :
    (cluster : ClusterMap) (k : ℤ) (p : ShardPlacement)
    → get cluster.shards k ≡ some p
    → IsPlaced cluster k p
    → HasVoters cluster k
placed-HasVoters cluster k p e placed =
    let (primary, f) = get_known cluster p.primary placed.primary_known in
    let (ns, g, m) = get_nodes-known cluster p.replicas placed.replicas_known in
    (p, primary ∷ ns, e, voters_of cluster k p primary ns e f g, ap₂ ◌∷◌ (sym f) m)

Accepted-HasVoters :
    (cluster : ClusterMap) (n i : ℕ)
    → cluster.shard_count ≡ pos n
    → length cluster.shards ≡ n
    → validate_shards cluster cluster.shards ≡ ok tt
    → Unique cluster.shards
    → i < n
    → HasVoters cluster (pos i)
Accepted-HasVoters cluster n i c l v u h =
    let below : Below n cluster.shards = λ k q.
      let (p, e) = present cluster.shards k q in
      subst (λ z. out_of_range k z ≡ false) c
        (validate_shards-IsPlaced cluster cluster.shards k p v e).in_range in
    let (p, e) = present cluster.shards (pos i) (Below-covers n i cluster.shards u below l h) in
    placed-HasVoters cluster (pos i) p e
      (validate_shards-IsPlaced cluster cluster.shards (pos i) p v e)

-- A cluster map that was made from a configuration gives every document a shard that is placed, and
-- `get_shard_voters` of that shard does not raise: it returns the placement's primary and then its
-- replicas.
pub get_shard_voters-get_shard_id :
    (digest : Str → ℕ) (config : ClusterConfig) (cluster : ClusterMap) (document_id : Str)
    → from_dict config ≡ ok cluster
    → (p : ShardPlacement) × (voters : List NodeInfo) × (get cluster.shards
          (get_shard_id digest cluster document_id)
        ≡ some p)
      × (get_shard_voters cluster (get_shard_id digest cluster document_id) ≡ ok voters)
      × (map some voters ≡ map (get cluster.nodes) (p.primary ∷ p.replicas))
get_shard_voters-get_shard_id digest config cluster document_id h =
    let (n, c, positive, l, v, u) = from_dict-Accepted config cluster h in
    subst (HasVoters cluster) (sym (get_shard_id-pos digest cluster document_id n c))
      (Accepted-HasVoters cluster n (digest document_id % n) c l v u (omega arith))
