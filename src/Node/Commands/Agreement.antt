-- ===== src/Node/Commands/Agreement.antt =====
-- src/typesense_lite/node.py: the commands that a node has applied describe the documents it holds.
use typesense_python.Base.{
  if◌then◌else◌, ==_iff, Bool-cases, Option-cases, nat_eq, Str, codes, str_eq, text_eq, ℕ, ◌≡◌,
  refl, sym, ◌∙◌, inl, inr, Option, some, List, [], ◌∷◌, arith,
}
use typesense_python.Base.Dict.{get, put, remove, get-put, get-remove}
use typesense_python.Base.Result.{Result, ok, ◌>>=◌, Result-cases, ok-injective, ok-bind}
use typesense_python.Schemas.{Document, Value}
use typesense_python.Schemas.Value.{text}
use typesense_python.Raft.Types.{RaftCommand}
use typesense_python.Storage.{Key, key_eq, key_beq}
use mathlib.Core.Path.{subst}
use typesense_python.Index.{document_id}
use typesense_python.Node.{
  SearchNode, index_for, updated_document, CommandType, type_of, collection_of, apply_add,
  apply_update, apply_delete, apply_typed, apply_raft_command,
}
use typesense_python.Node.CommandType.{adds, updates, deletes, unknown}
use typesense_python.Node.Replay.{empty_node}
use typesense_python.Node.Commands.Effects.{
  held, Changes, add_document-Changes, delete_document-Changes, update_document-Changes, id_of-text,
}
use typesense_python.Node.Commands.{
  Documents, Collections, documents_of, described, described_add, described_update,
  described_delete, describe_command, describe_commands,
}

-- The documents under a key are those of a dictionary.
abbrev Holds : SearchNode → Key → Documents → Type 0
Holds node k ds = (d : Str) → held node k d ≡ get ds d

other_collection :
    (shard a : ℕ) (s : Str) (x y : Option Document)
    → (if key_beq (shard, []) (shard, a ∷ s) then x else y) ≡ y
unfolding str_eq
other_collection shard a s x y = ground arith

this_collection :
    (node : SearchNode) (shard : ℕ) (cs : Collections) (ds : Documents) (c : ℕ) (t : Str) (a : ℕ)
    (s d : Str)
    → held node (shard, a ∷ s) d ≡ get (documents_of (get cs (a ∷ s))) d
    → (if key_beq (shard, c ∷ t) (shard, a ∷ s) then get ds d else held node (shard, a ∷ s) d)
      ≡ get (documents_of (get (put cs (c ∷ t) ds) (a ∷ s))) d
this_collection node shard cs ds c t a s d h =
    rw (get-put cs (c ∷ t) (a ∷ s) ds, (==_iff shard shard).1 refl)
      (elim (Bool-cases (str_eq (c ∷ t) (a ∷ s))) [ inl e ↦ rw e refl | inr e ↦ rw e h ])

module _ (str_of : Value → Str) (str_of-text : (s : Str) → str_of (text s) ≡ s) where
  -- The command succeeds by its description, and the node ends with the described documents.
  abbrev Described : CommandType → SearchNode → Key → Documents → RaftCommand → Type 0
  Described ty node k ds command =
      (ds' : Documents) × (described str_of ty ds command ≡ ok ds')
      × Changes node (apply_typed ty node k command).0 k (get ds')

  add-Described :
      (node : SearchNode) (k : Key) (ds : Documents) (command : RaftCommand) (r : Document)
      → Holds node k ds
      → (apply_typed adds node k command).1 ≡ ok r
      → Described adds node k ds command
  unfolding apply_typed apply_add described described_add document_id
  add-Described node k ds command r agree h = elim (Option-cases command.document) [
    | inl e ↦ absurd (ground (arith, e, h))
    | inr (doc, e) ↦
        let (id, f, changed) = add_document-Changes node k doc r (ground (arith, e, h)) in
        let g : get doc (codes "id") ≡ some (text id) = id_of-text (get doc (codes "id")) id f in
        (
          put ds id doc,
          (rw (described_add, e, g, str_of-text id) refl),
          λ j d. rw (e, get-put ds id d doc, sym (agree d)) (changed j d),
        )
  ]

  delete-Described :
      (node : SearchNode) (k : Key) (ds : Documents) (command : RaftCommand) (r : Document)
      → Holds node k ds
      → (apply_typed deletes node k command).1 ≡ ok r
      → Described deletes node k ds command
  unfolding apply_typed apply_delete described described_delete
  delete-Described node k ds command r agree h = elim (Option-cases command.document_id) [
    | inl e ↦ absurd (ground (arith, e, h))
    | inr (id, e) ↦ (
      remove ds id,
      rw e refl,
      λ j d.
          rw (e, get-remove ds id d, sym (agree d))
            (delete_document-Changes node k id r (ground (arith, e, h)) j d),
    )
  ]

  described_update-there :
      (ds : Documents) (id : Str) (current cs : Document) (oid : Option Str) (och : Option Document)
      → oid ≡ some id
      → och ≡ some cs
      → get ds id ≡ some current
      → described_update str_of ds oid och ≡ ok (put ds id (updated_document current cs id))
  unfolding described_update
  described_update-there ds id current cs oid och e f g = rw (e, f) (rw (described_update, g) refl)

  describe_named :
      (cs : Collections) (command : RaftCommand) (c : ℕ) (t : Str) (ds : Documents)
      → collection_of command ≡ c ∷ t
      → described str_of (type_of command.type) (documents_of (get cs (c ∷ t))) command ≡ ok ds
      → describe_command str_of cs command ≡ ok (put cs (c ∷ t) ds)
  unfolding describe_command
  describe_named cs command c t ds e f = rw (describe_command, e, f) refl

  update-Described :
      (node : SearchNode) (k : Key) (ds : Documents) (command : RaftCommand) (r : Document)
      → Holds node k ds
      → (apply_typed updates node k command).1 ≡ ok r
      → Described updates node k ds command
  unfolding apply_typed apply_update described described_update
  update-Described node k ds command r agree h = elim (Option-cases command.document_id) [
    | inl e ↦ absurd (ground (arith, e, h))
    | inr (id, e) ↦ elim (Option-cases command.changes) [
      | inl f ↦ absurd (ground (arith, e, f, h))
      | inr (cs, f) ↦
          let (current, g, changed) =
            update_document-Changes node k id cs r (ground (arith, e, f, h)) in
          let new = updated_document current cs id in
          let there : get ds id ≡ some current = sym (agree id) ∙ g in
          (
            put ds id new,
            described_update-there ds id current cs command.document_id command.changes e f there,
            λ j d. rw (e, f, get-put ds id d new, sym (agree d)) (changed j d),
          )
    ]
  ]

  apply_typed-Described :
      (ty : CommandType) (node : SearchNode) (k : Key) (ds : Documents) (command : RaftCommand)
      (r : Document)
      → Holds node k ds
      → (apply_typed ty node k command).1 ≡ ok r
      → Described ty node k ds command
  unfolding apply_typed
  apply_typed-Described adds node k ds command r agree h = add-Described node k ds command r agree h
  apply_typed-Described updates node k ds command r agree h =
      update-Described node k ds command r agree h
  apply_typed-Described deletes node k ds command r agree h =
      delete-Described node k ds command r agree h
  apply_typed-Described unknown node k ds command r agree h = absurd (ground arith)

  -- The collections with a name hold what is described.
  abbrev Agrees : SearchNode → ℕ → Collections → Type 0
  Agrees node shard cs =
      (a : ℕ) (s : Str) → Holds node (shard, a ∷ s) (documents_of (get cs (a ∷ s)))

  apply_typed-Agrees :
      (node : SearchNode) (shard : ℕ) (cs : Collections) (command : RaftCommand) (r : Document)
      (c : Str)
      → collection_of command ≡ c
      → Agrees node shard cs
      → (apply_typed (type_of command.type) node (shard, c) command).1 ≡ ok r
      → (cs' : Collections) × (describe_command str_of cs command ≡ ok cs')
        × Agrees (apply_typed (type_of command.type) node (shard, c) command).0 shard cs'
  unfolding describe_command
  apply_typed-Agrees node shard cs command r [] e agree h =
      let (ds, f, changed) =
        apply_typed-Described (type_of command.type) node (shard, [])
          (index_for node (shard, [])).documents command r (λ d. refl) h in
      (
        cs,
        rw (describe_command, e) refl,
        λ a s d.
            changed (shard, a ∷ s) d
            ∙ other_collection shard a s (get ds d) (held node (shard, a ∷ s) d)
            ∙ agree a s d,
      )
  apply_typed-Agrees node shard cs command r (c ∷ t) e agree h =
      let (ds, f, changed) =
        apply_typed-Described (type_of command.type) node (shard, c ∷ t)
          (documents_of (get cs (c ∷ t))) command r (agree c t) h in
      (
        put cs (c ∷ t) ds,
        describe_named cs command c t ds e f,
        λ a s d.
            changed (shard, a ∷ s) d ∙ this_collection node shard cs ds c t a s d (agree a s d),
      )

-- The commands in turn, up to the first that raises.
unfoldable pub apply_commands : SearchNode → ℕ → List RaftCommand → Result SearchNode
apply_commands node shard [] = ok node
apply_commands node shard (command ∷ commands) =
    let r = apply_raft_command node shard command in
    (r.1 >>= λ document. apply_commands (r.0) shard commands)

module _ (str_of : Value → Str) (str_of-text : (s : Str) → str_of (text s) ≡ s) where
  apply_commands-Agrees :
      (node node' : SearchNode) (shard : ℕ) (cs : Collections) (commands : List RaftCommand)
      → Agrees str_of str_of-text node shard cs
      → apply_commands node shard commands ≡ ok node'
      → (cs' : Collections) × (describe_commands str_of cs commands ≡ ok cs')
        × Agrees str_of str_of-text node' shard cs'
  unfolding apply_commands describe_commands apply_raft_command
  apply_commands-Agrees node node' shard cs [] agree h =
      (cs, refl, subst (λ n. Agrees str_of str_of-text n shard cs) (ok-injective h) agree)
  apply_commands-Agrees node node' shard cs (command ∷ commands) agree h =
      elim (Result-cases (apply_raft_command node shard command).1) [
        | inr (x, e) ↦ absurd (ground (arith, e, h))
        | inl (r, e) ↦
            let (cs1, f, agree1) =
              apply_typed-Agrees str_of str_of-text node shard cs command r (collection_of command)
                refl agree e in
            let (cs', g, agree') =
              apply_commands-Agrees (apply_raft_command node shard command).0 node' shard cs1
                commands agree1 (ground (arith, e, h)) in
            (
              cs',
              ok-bind (describe_command str_of cs command)
                  (λ cs2. describe_commands str_of cs2 commands) cs1 (ok cs') f g,
              agree',
            )
      ]

  -- When a node that started empty has applied commands for a shard without an exception,
  -- `_collections_from_commands` does not raise on them either, and describes for every collection with
  -- a name and every id the document that the node holds.
  pub apply_commands-describe_commands :
      (node : SearchNode) (shard : ℕ) (commands : List RaftCommand)
      → apply_commands empty_node shard commands ≡ ok node
      → (cs : Collections) × (describe_commands str_of [] commands ≡ ok cs)
        × ((a : ℕ) (s d : Str) → held node (shard, a ∷ s) d ≡ get (documents_of (get cs (a ∷ s))) d)
  unfolding get index_for
  apply_commands-describe_commands node shard commands h =
      apply_commands-Agrees empty_node node shard [] commands (λ a s d. refl) h
