-- ===== src/NodeDirectory/Leases.antt =====
-- src/typesense_lite/node_directory.py: what the directory knows of a node is what that node's own events
-- and the clean-ups make of it.
use typesense_python.Base.{
  if◌then◌else◌, Bool-cases, Option-cases, nat_eq, Str, str_eq, str_eq_iff, text_eq, ℕ, ◌≡◌, refl,
  ap, ◌∙◌, inl, inr, Bool, true, false, ◌&&◌, Option, none, some, List, [], ◌∷◌, ◌++◌,
}
use mathlib.Core.Path.{subst}
use typesense_python.Base.Dict.{
  Dict, get, put, remove, get-put, get-remove, Unique, put-Unique, remove-Unique,
}
use typesense_python.NodeDirectory.{
  NodeLiveness, NodeDirectory, Registration, entry_of, register, heartbeat, is_expired,
  cleanup_items, cleanup_expired, remove_node,
}

-- What a clean-up leaves of an entry.
abbrev pub lease : ℕ → ℕ → Option NodeLiveness → Option NodeLiveness
lease timeout now none = none
lease timeout now (some entry) = if is_expired timeout now entry then none else some entry

abbrev kept : ℕ → ℕ → Option NodeLiveness → Option NodeLiveness → Option NodeLiveness
kept timeout now none v = v
kept timeout now (some entry) v = if is_expired timeout now entry then none else v

module _ (timeout now : ℕ) where
  get-cleanup_items :
      (items nodes : Dict Str NodeLiveness) (expired : List Str) (k : Str)
      → Unique items
      → get (cleanup_items timeout now items nodes expired).0 k
        ≡ kept timeout now (get items k) (get nodes k)
  unfolding cleanup_items get
  get-cleanup_items [] nodes expired k u = refl
  get-cleanup_items ((j, e) ∷ items) nodes expired k (fresh, u) =
      let dropped = get-cleanup_items items (remove nodes j) (expired ++ (j ∷ [])) k u in
      let same = get-cleanup_items items nodes expired k u in
      let branch : Bool → Option NodeLiveness = λ b. if b then none else get nodes k in
      let there = get-remove nodes j k in
      elim (Bool-cases (str_eq j k)) [
        | inl q ↦
            let none_k : get items k ≡ none =
              subst (λ i. get items i ≡ none) ((str_eq_iff j k).0 q) fresh in
            elim (Bool-cases (is_expired timeout now e)) [
              | inl x ↦
                  rw (cleanup_items, q, x)
                    (dropped
                      ∙ ap (λ o. kept timeout now o (get (remove nodes j) k)) none_k
                      ∙ there
                      ∙ ap branch q)
              | inr x ↦
                  rw (cleanup_items, q, x)
                    (same ∙ ap (λ o. kept timeout now o (get nodes k)) none_k)
            ]
        | inr q ↦ elim (Bool-cases (is_expired timeout now e)) [
          | inl x ↦
              rw (cleanup_items, q, x)
                (dropped ∙ ap (kept timeout now (get items k)) (there ∙ ap branch q))
          | inr x ↦ rw (cleanup_items, q, x) same
        ]
      ]

  cleanup_items-Unique :
      (items nodes : Dict Str NodeLiveness) (expired : List Str)
      → Unique nodes
      → Unique (cleanup_items timeout now items nodes expired).0
  unfolding cleanup_items
  cleanup_items-Unique [] nodes expired u = u
  cleanup_items-Unique ((j, e) ∷ items) nodes expired u =
      elim (Bool-cases (is_expired timeout now e)) [
        | inl x ↦
            rw (cleanup_items, x)
              (cleanup_items-Unique items (remove nodes j) _ (remove-Unique nodes j u))
        | inr x ↦ rw (cleanup_items, x) (cleanup_items-Unique items nodes expired u)
      ]

-- What happens to a directory, with the times at which it happens.
pub data Event : Type 0 where
  registers : ℕ → Str → Registration → Event
  beats : ℕ → Str → Event
  cleans : ℕ → Event
  drops : Str → Event

abbrev pub on_event : NodeDirectory → Event → NodeDirectory
on_event dir (registers now id registration) = (register dir now id registration).0
on_event dir (beats now id) = (heartbeat dir now id).0
on_event dir (cleans now) = (cleanup_expired dir now).0
on_event dir (drops id) = (remove_node dir id).0

abbrev pub run : NodeDirectory → List Event → NodeDirectory
run dir [] = dir
run dir (e ∷ es) = run (on_event dir e) es

abbrev pub is_named : Str → Bool
is_named [] = false
is_named (c ∷ cs) = true

abbrev pub beaten : ℕ → Option NodeLiveness → Option NodeLiveness
beaten now none = none
beaten now (some entry) = some (record entry { last_seen = now })

-- What an event makes of the entry of one node.
abbrev pub contact : ℕ → Str → Option NodeLiveness → Event → Option NodeLiveness
contact timeout id o (registers now j registration) =
    if str_eq j id && is_named id then some (entry_of id registration now o) else o
contact timeout id o (beats now j) = if str_eq j id then beaten now o else o
contact timeout id o (cleans now) = lease timeout now o
contact timeout id o (drops j) = if str_eq j id then none else o

abbrev pub contacts : ℕ → Str → Option NodeLiveness → List Event → Option NodeLiveness
contacts timeout id o [] = o
contacts timeout id o (e ∷ es) = contacts timeout id (contact timeout id o e) es

-- The entries of a directory, each under one name.
abbrev pub IsDirectory : NodeDirectory → Type 0
IsDirectory dir = Unique dir.nodes

on_event-timeout :
    (dir : NodeDirectory) (e : Event) → (on_event dir e).alive_timeout ≡ dir.alive_timeout
unfolding register heartbeat cleanup_expired remove_node
on_event-timeout dir (registers now [] r) = refl
on_event-timeout dir (registers now (c ∷ cs) r) = refl
on_event-timeout dir (beats now id) = elim (Option-cases (get dir.nodes id)) [
  | inl e ↦ rw (on_event, heartbeat, e) refl
  | inr (x, e) ↦ rw (on_event, heartbeat, e) refl
]
on_event-timeout dir (cleans now) = refl
on_event-timeout dir (drops id) = refl

pub on_event-IsDirectory :
    (dir : NodeDirectory) (e : Event) → IsDirectory dir → IsDirectory (on_event dir e)
unfolding register heartbeat cleanup_expired remove_node
on_event-IsDirectory dir (registers now [] r) u = u
on_event-IsDirectory dir (registers now (c ∷ cs) r) u = put-Unique dir.nodes (c ∷ cs) _ u
on_event-IsDirectory dir (beats now id) u = elim (Option-cases (get dir.nodes id)) [
  | inl e ↦ rw (on_event, heartbeat, e) u
  | inr (x, e) ↦ rw (on_event, heartbeat, e) (put-Unique dir.nodes id _ u)
]
on_event-IsDirectory dir (cleans now) u =
    cleanup_items-Unique dir.alive_timeout now dir.nodes dir.nodes [] u
on_event-IsDirectory dir (drops id) u = remove-Unique dir.nodes id u

unnamed : (id : Str) → (str_eq [] id && is_named id) ≡ false
unfolding str_eq
unnamed [] = refl
unnamed (c ∷ cs) = refl

kept-lease :
    (timeout now : ℕ) (o : Option NodeLiveness) → kept timeout now o o ≡ lease timeout now o
kept-lease timeout now none = refl
kept-lease timeout now (some entry) = refl

-- The entry that a dictionary has under a name is changed in place.
beaten_in_place :
    (nodes : Dict Str NodeLiveness) (j id : Str) (now : ℕ) (x : NodeLiveness)
    → get nodes j ≡ some x
    → get (put nodes j (record x { last_seen = now })) id
      ≡ (if str_eq j id then beaten now (get nodes id) else get nodes id)
beaten_in_place nodes j id now x e = elim (Bool-cases (str_eq j id)) [
  | inl q ↦
      let found : get nodes id ≡ some x =
        subst (λ i. get nodes i ≡ some x) ((str_eq_iff j id).0 q) e in
      get-put nodes j id (record x { last_seen = now }) ∙ rw (q, found) refl
  | inr q ↦ get-put nodes j id (record x { last_seen = now }) ∙ rw q refl
]

absent_beaten :
    (nodes : Dict Str NodeLiveness) (j id : Str) (now : ℕ)
    → get nodes j ≡ none
    → get nodes id ≡ (if str_eq j id then beaten now (get nodes id) else get nodes id)
absent_beaten nodes j id now e = elim (Bool-cases (str_eq j id)) [
  | inl q ↦
      let found : get nodes id ≡ none = subst (λ i. get nodes i ≡ none) ((str_eq_iff j id).0 q) e in
      rw (q, found) refl
  | inr q ↦ rw q refl
]

get-put_entry :
    (nodes : Dict Str NodeLiveness) (c : ℕ) (cs id : Str) (now : ℕ) (r : Registration)
    → get (put nodes (c ∷ cs) (entry_of (c ∷ cs) r now (get nodes (c ∷ cs)))) id ≡ (
        if str_eq (c ∷ cs) id && is_named id
        then some (entry_of id r now (get nodes id))
        else get nodes id)
get-put_entry nodes c cs id now r = elim (Bool-cases (str_eq (c ∷ cs) id)) [
  | inl q ↦
      get-put nodes (c ∷ cs) id _
      ∙ rw q (
          subst
            (λ i.
              some (entry_of (c ∷ cs) r now (get nodes (c ∷ cs)))
              ≡ (if is_named i then some (entry_of i r now (get nodes i)) else get nodes i))
            ((str_eq_iff (c ∷ cs) id).0 q) refl)
  | inr q ↦ get-put nodes (c ∷ cs) id _ ∙ rw q refl
]

pub on_event-contact :
    (dir : NodeDirectory) (e : Event) (id : Str)
    → IsDirectory dir
    → get (on_event dir e).nodes id ≡ contact dir.alive_timeout id (get dir.nodes id) e
unfolding register heartbeat cleanup_expired remove_node
on_event-contact dir (registers now [] r) id u = rw (unnamed id) refl
on_event-contact dir (registers now (c ∷ cs) r) id u = get-put_entry dir.nodes c cs id now r
on_event-contact dir (beats now j) id u = elim (Option-cases (get dir.nodes j)) [
  | inl e ↦ rw (on_event, heartbeat, e) (absent_beaten dir.nodes j id now e)
  | inr (x, e) ↦ rw (on_event, heartbeat, e) (beaten_in_place dir.nodes j id now x e)
]
on_event-contact dir (cleans now) id u =
    get-cleanup_items dir.alive_timeout now dir.nodes dir.nodes [] id u
    ∙ kept-lease dir.alive_timeout now (get dir.nodes id)
on_event-contact dir (drops j) id u = get-remove dir.nodes j id

-- After any events what a directory knows of a node is what the events of this node and the clean-ups
-- make of what it knew, one after the other: no event of another node changes it.
pub run-contacts :
    (dir : NodeDirectory) (es : List Event) (id : Str)
    → IsDirectory dir
    → get (run dir es).nodes id ≡ contacts dir.alive_timeout id (get dir.nodes id) es
run-contacts dir [] id u = refl
run-contacts dir (e ∷ es) id u =
    run-contacts (on_event dir e) es id (on_event-IsDirectory dir e u)
    ∙ ap (λ t. contacts t id (get (on_event dir e).nodes id) es) (on_event-timeout dir e)
    ∙ ap (λ o. contacts dir.alive_timeout id o es) (on_event-contact dir e id u)
