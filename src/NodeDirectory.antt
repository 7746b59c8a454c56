-- ===== src/NodeDirectory.antt =====
-- src/typesense_lite/node_directory.py: the nodes that the coordinator has heard of. A time is the number
-- of ticks of the clock, a method takes the time that it reads.
pub mod Leases
pub mod Expired
use typesense_python.Base.{
  ltb, nat_eq, Str, text_eq, ℕ, zero, suc, ◌-◌, Bool, true, false, Option, none, some, List, [],
  ◌∷◌, ◌++◌, map,
}
use typesense_python.Base.Dict.{Dict, get, put, remove}
use typesense_python.Base.Result.{Result, ok, raise}
use typesense_python.Base.Result.Error.{value_error}

pub record NodeLiveness : Type 0 where
  pub node_id : Str
  pub host : Str
  pub port : ℕ
  pub role : Str
  pub last_seen : ℕ
  pub registered_at : ℕ

-- max(0.0, now - self.last_seen)
abbrev pub age_seconds : NodeLiveness → ℕ → ℕ
age_seconds entry now = now - entry.last_seen

pub record NodeDirectory : Type 0 where
  pub nodes : Dict Str NodeLiveness
  pub alive_timeout : ℕ

unfoldable pub new_directory : ℕ → Result NodeDirectory
new_directory zero = raise value_error
new_directory (suc t) = ok (record { nodes = []; alive_timeout = suc t })

abbrev pub Registration : Type 0
Registration = Str × ℕ × Str

-- existing.registered_at if existing else now
abbrev pub first_seen : Option NodeLiveness → ℕ → ℕ
first_seen none now = now
first_seen (some existing) now = existing.registered_at

abbrev pub entry_of : Str → Registration → ℕ → Option NodeLiveness → NodeLiveness
entry_of node_id (host, port, role) now existing = record {
  node_id = node_id;
  host = host;
  port = port;
  role = role;
  last_seen = now;
  registered_at = first_seen existing now;
}

abbrev pub set_node : NodeDirectory → Str → NodeLiveness → NodeDirectory
set_node dir id entry = record dir { nodes = put dir.nodes id entry }

unfoldable pub register :
    NodeDirectory → ℕ → Str → Registration → NodeDirectory × Result NodeLiveness
register dir now [] registration = (dir, raise value_error)
register dir now (c ∷ cs) registration =
    let entry = entry_of (c ∷ cs) registration now (get dir.nodes (c ∷ cs)) in
    (set_node dir (c ∷ cs) entry, ok entry)

unfoldable pub heartbeat : NodeDirectory → ℕ → Str → NodeDirectory × Option NodeLiveness
heartbeat dir now node_id = elim (get dir.nodes node_id) [
  | none ↦ (dir, none)
  | some existing ↦
      let updated = record existing { last_seen = now } in
      (set_node dir node_id updated, some updated)
]

-- entry.last_seen < cutoff; a cutoff before the start of the clock is as good as one at its start
abbrev pub is_expired : ℕ → ℕ → NodeLiveness → Bool
is_expired timeout now entry = ltb entry.last_seen (now - timeout)

-- The loop over the items as they were, with `self._nodes` and `expired`.
unfoldable pub cleanup_items :
    ℕ
    → ℕ
    → Dict Str NodeLiveness
    → Dict Str NodeLiveness
    → List Str
    → Dict Str NodeLiveness × List Str
cleanup_items timeout now [] nodes expired = (nodes, expired)
cleanup_items timeout now ((node_id, entry) ∷ items) nodes expired =
    elim (is_expired timeout now entry) [
      | true ↦ cleanup_items timeout now items (remove nodes node_id) (expired ++ (node_id ∷ []))
      | false ↦ cleanup_items timeout now items nodes expired
    ]

unfoldable pub cleanup_expired : NodeDirectory → ℕ → NodeDirectory × List Str
cleanup_expired dir now =
    let (nodes, expired) = cleanup_items dir.alive_timeout now dir.nodes dir.nodes [] in
    (record dir { nodes = nodes }, expired)

abbrev is_some : {A : Type 0} → Option A → Bool
is_some none = false
is_some (some a) = true

unfoldable pub remove_node : NodeDirectory → Str → NodeDirectory × Bool
remove_node dir node_id =
    (record dir { nodes = remove dir.nodes node_id }, is_some (get dir.nodes node_id))

-- The snapshot of a node is its entry and its age, which `rounded` takes to three places of a second.
unfoldable pub snapshot : (ℕ → ℕ) → NodeDirectory → ℕ → Dict Str (NodeLiveness × ℕ)
snapshot rounded dir now =
    map (λ (e : Str × NodeLiveness). (e.0, (e.1, rounded (age_seconds (e.1) now)))) dir.nodes

unfoldable pub alive_ids : NodeDirectory → List Str
alive_ids dir = map (λ (e : Str × NodeLiveness). e.0) dir.nodes
