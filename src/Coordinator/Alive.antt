-- ===== src/Coordinator/Alive.antt =====
-- src/typesense_lite/coordinator.py with node_directory.py: whom `cluster_nodes` lists as alive.
use typesense_python.Base.{
  Bool-cases, nat_eq, All, Str, text_eq, ℕ, ◌+◌, ◌-◌, ◌≤◌, ◌≡◌, refl, sym, ◌∙◌, inl, inr, Option,
  none, some, List, [], ◌∷◌, map, arith,
}
use typesense_python.Base.Dict.{Dict, get, All-get}
use typesense_python.Base.Order.{sort, insert}
use typesense_python.Cluster.{ClusterMap}
use typesense_python.NodeDirectory.{
  NodeLiveness, NodeDirectory, cleanup_expired, snapshot, age_seconds,
}
use typesense_python.NodeDirectory.Leases.{IsDirectory, lease, on_event-IsDirectory}
use typesense_python.NodeDirectory.Leases.Event.{cleans}
use typesense_python.NodeDirectory.Expired.{cleanup_expired_lem}
use typesense_python.Coordinator.Nodes.{node_id_le, cluster_nodes}

abbrev Listed : Type 0
Listed = NodeLiveness × ℕ

All-insert :
    (P : Listed → Type 0) (x : Listed) (xs : List Listed)
    → P x
    → All P xs
    → All P (insert node_id_le x xs)
unfolding insert
All-insert P x [] p t = (p, tt)
All-insert P x (y ∷ ys) p (q, t) = elim (Bool-cases (node_id_le x y)) [
  | inl e ↦ rw e (p, (q, t))
  | inr e ↦ rw e (q, All-insert P x ys p t)
]

All-sort : (P : Listed → Type 0) (xs : List Listed) → All P xs → All P (sort node_id_le xs)
unfolding sort
All-sort P [] t = tt
All-sort P (x ∷ xs) (p, t) = All-insert P x (sort node_id_le xs) p (All-sort P xs t)

-- The entry was last heard of within the timeout when the clock was read first, and the age beside it is
-- the time since then when the clock was read again.
abbrev pub IsYoung : (ℕ → ℕ) → ℕ → ℕ → ℕ → Listed → Type 0
IsYoung rounded timeout now later (entry, age) =
    (now ≤ entry.last_seen + timeout) × (age ≡ rounded (later - entry.last_seen))

young :
    (timeout now : ℕ) (o : Option NodeLiveness) (entry : NodeLiveness)
    → lease timeout now o ≡ some entry
    → now ≤ entry.last_seen + timeout
young timeout now none entry h = absurd (ground arith)
young timeout now (some x) entry h = ground (arith, h)

All-listed :
    (rounded : ℕ → ℕ) (timeout now later : ℕ) (nodes : Dict Str NodeLiveness)
    → All (λ (e : Str × NodeLiveness). now ≤ (e.1).last_seen + timeout) nodes
    → All (IsYoung rounded timeout now later) (
        map
          (λ (e : Str × Listed). e.1)
          (map (λ (e : Str × NodeLiveness). (e.0, (e.1, rounded (age_seconds (e.1) later)))) nodes))
All-listed rounded timeout now later [] t = tt
All-listed rounded timeout now later (e ∷ nodes) (p, t) =
    ((p, refl), All-listed rounded timeout now later nodes t)

-- Where the directory has each node once: each node in the list of those that are alive was last heard
-- of no longer ago than the timeout at the time at which the clean-up read the clock, and the age beside
-- it is the rounded time from then to the second reading of the clock.
pub cluster_nodes-IsYoung :
    (rounded : ℕ → ℕ) (cluster : ClusterMap) (dir : NodeDirectory) (now later : ℕ)
    → IsDirectory dir
    → All
        (IsYoung rounded dir.alive_timeout now later)
        (cluster_nodes rounded cluster dir now later).1.alive
unfolding cluster_nodes snapshot
cluster_nodes-IsYoung rounded cluster dir now later u =
    All-sort (IsYoung rounded dir.alive_timeout now later) _ (
      All-listed rounded dir.alive_timeout now later (cleanup_expired dir now).0.nodes (
        All-get (λ k v. now ≤ v.last_seen + dir.alive_timeout) (cleanup_expired dir now).0.nodes
          (on_event-IsDirectory dir (cleans now) u)
          (λ k v h.
            young dir.alive_timeout now (get dir.nodes k) v
              (sym ((cleanup_expired_lem dir now k u).0) ∙ h))))
