-- ===== src/NodeManager.antt =====
-- src/typesense/node_manager.py: which node a client's next request goes to. A node is named by its
-- place in `nodes`, or it is the nearest one. The clock is the argument `now`.
pub mod Rotation
use typesense_python.Base.{
  ltb, length, Str, ℕ, zero, suc, ◌+◌, ◌%◌, Bool, true, false, ◌||◌, Option, none, some, List, [],
  ◌∷◌, map,
}

pub record Node : Type 0 where
  pub url : Str
  pub healthy : Bool
  pub last_access_ts : ℕ

pub record NodeManager : Type 0 where
  pub nearest_node : Option Node
  pub healthcheck_interval_seconds : ℕ
  pub nodes : List Node
  pub node_index : ℕ

pub data Choice : Type 0 where
  nearest : Choice
  listed : ℕ → Choice

-- (now - node.last_access_ts) > interval, where a clock that went back gives a negative difference
unfoldable pub is_due_for_health_check : NodeManager → ℕ → Node → Bool
is_due_for_health_check m now node = ltb (node.last_access_ts + m.healthcheck_interval_seconds) now

unfoldable pub is_usable : NodeManager → ℕ → Node → Bool
is_usable m now node = node.healthy || is_due_for_health_check m now node

-- self.nodes[i]
unfoldable pub node_at : List Node → ℕ → Option Node
node_at [] i = none
node_at (n ∷ ns) zero = some n
node_at (n ∷ ns) (suc i) = node_at ns i

unfoldable pub usable_at : NodeManager → ℕ → ℕ → Bool
usable_at m now i = elim (node_at m.nodes i) [ none ↦ false | some n ↦ is_usable m now n ]

-- The `while` loop with as many rounds left, from the place that `node_index` has: it ends with the new
-- place and the node to return, if a round found one.
unfoldable pub rotate : NodeManager → ℕ → ℕ → ℕ → ℕ × Option ℕ
rotate m now zero i = (i, none)
rotate m now (suc rounds) i =
    let next = (i + 1) % length m.nodes in
    elim (usable_at m now i) [ true ↦ (next, some i) | false ↦ rotate m now rounds next ]

-- The node that the loop found, or else the next one.
abbrev pub chosen : ℕ × Option ℕ → ℕ
chosen (i, none) = i
chosen (i, some j) = j

unfoldable pub get_listed : NodeManager → ℕ → NodeManager × Choice
get_listed m now =
    let r = rotate m now (length m.nodes) m.node_index in
    (record m { node_index = r.0 }, listed (chosen r))

-- There is a nearest node, and it is healthy or due.
unfoldable pub nearest_usable : NodeManager → ℕ → Bool
nearest_usable m now = elim m.nearest_node [ none ↦ false | some n ↦ is_usable m now n ]

unfoldable pub get_node : NodeManager → ℕ → NodeManager × Choice
get_node m now = elim (nearest_usable m now) [ true ↦ (m, nearest) | false ↦ get_listed m now ]

abbrev pub mark : Bool → ℕ → Node → Node
mark is_healthy now node = record node { healthy = is_healthy; last_access_ts = now }

unfoldable pub mark_at : Bool → ℕ → ℕ → List Node → List Node
mark_at h now i [] = []
mark_at h now zero (n ∷ ns) = mark h now n ∷ ns
mark_at h now (suc i) (n ∷ ns) = n ∷ mark_at h now i ns

unfoldable pub mark_nearest : Bool → ℕ → Option Node → Option Node
mark_nearest h now none = none
mark_nearest h now (some n) = some (mark h now n)

unfoldable pub set_node_health : NodeManager → ℕ → Choice → Bool → NodeManager
set_node_health m now nearest h = record m { nearest_node = mark_nearest h now m.nearest_node }
set_node_health m now (listed i) h = record m { nodes = mark_at h now i m.nodes }

-- NodeManager(config)
unfoldable pub new_manager : Option Node → ℕ → List Node → ℕ → NodeManager
new_manager nearest_node interval nodes now = record {
  nearest_node = mark_nearest true now nearest_node;
  healthcheck_interval_seconds = interval;
  nodes = map (mark true now) nodes;
  node_index = 0;
}
