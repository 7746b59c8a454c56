-- ===== src/Coordinator/Writes.antt =====
-- src/typesense_lite/coordinator.py: `add_document`, `update_document`, `delete_document` and
-- `import_documents`. `digest` is the SHA-256 that the cluster map takes.
pub mod Report
use typesense_python.Base.{
  ◌==◌, if◌then◌else◌, nat_eq, length, Str, codes, text_eq, ℕ, ◌+◌, ◌-◌, Bool, true, false, Option,
  none, some, List, [], ◌∷◌, ◌++◌,
}
use typesense_python.Base.Dict.{get}
use typesense_python.Base.Result.Error.{value_error}
use typesense_python.Schemas.{ℤ, Document, Value}
use typesense_python.Schemas.Value.{text}
use typesense_python.Raft.Types.{RaftCommand}
use typesense_python.Index.{document_id}
use typesense_python.Cluster.{ClusterMap, get_shard_id}
use typesense_python.LeaderDirectory.{Ask, Leaders}
use typesense_python.Coordinator.{CommandReply, Post, SubmitError, Submitted, submit_raft_command}
use typesense_python.Coordinator.SubmitError.{no_leader, connection, status, refused, other}
use typesense_python.Coordinator.Submitted.{delivered, failed}

pub record WriteReply : Type 0 where
  pub id : Str
  pub shard_id : ℤ
  pub leader : Str
  pub term : Option ℕ
  pub commit_index : Option ℕ
  pub document : Option Document

-- `invalid_id` is the ValueError of a document without a usable id.
pub data Written : Type 0 where
  written : WriteReply → Written
  invalid_id : Written
  write_failed : SubmitError → Written

abbrev pub add_command : Str → Document → RaftCommand
add_command collection document = record {
  type = some (codes "add_document");
  collection = some collection;
  document = some document;
  document_id = none;
  changes = none;
}

abbrev pub update_command : Str → Str → Document → RaftCommand
update_command collection id changes = record {
  type = some (codes "update_document");
  collection = some collection;
  document = none;
  document_id = some id;
  changes = some changes;
}

abbrev pub delete_command : Str → Str → RaftCommand
delete_command collection id = record {
  type = some (codes "delete_document");
  collection = some collection;
  document = none;
  document_id = some id;
  changes = none;
}

abbrev write_reply : Str → ℤ → Option Document → CommandReply → WriteReply
write_reply id shard document r = record {
  id = id;
  shard_id = shard;
  leader = r.leader;
  term = r.term;
  commit_index = r.commit_index;
  document = document;
}

abbrev added : Str → ℤ → Submitted → Written
added id shard (failed e) = write_failed e
added id shard (delivered r) = written (write_reply id shard none r)

abbrev changed : Str → ℤ → Submitted → Written
changed id shard (failed e) = write_failed e
changed id shard (delivered r) = written (write_reply id shard r.result r)

-- One result of an import, without the texts and the two lists that are always empty.
pub record ImportItem : Type 0 where
  pub id : Option Str
  pub ok : Bool
  pub shard_id : Option ℤ
  pub primary : Option Str

pub record ImportReport : Type 0 where
  pub ok : Bool
  pub total : ℕ
  pub succeeded : ℕ
  pub failed : ℕ
  pub results : List ImportItem

-- An import returns its report, or an exception ends it.
pub data Imported : Type 0 where
  reported : ImportReport → Imported
  aborted : SubmitError → Imported

-- What `except (ValueError, httpx.HTTPError)` catches.
abbrev pub is_caught : SubmitError → Bool
is_caught no_leader = false
is_caught connection = true
is_caught (status s) = true
is_caught refused = true
is_caught (other value_error) = true
is_caught (other e) = false

-- document_id if isinstance(document_id, str) else None
abbrev pub given_id : Option Value → Option Str
given_id (some (text s)) = some s
given_id _ = none

abbrev pub failed_item : Document → ImportItem
failed_item document = record {
  id = given_id (get document (codes "id"));
  ok = false;
  shard_id = none;
  primary = none;
}

-- What a write adds to the results, or the exception.
pub data Item : Type 0 where
  succeeds : ImportItem → Item
  fails : ImportItem → Item
  raises : SubmitError → Item

unfoldable pub item_of : Document → Written → Item
item_of document (written r) =
    succeeds
      (record { id = some r.id; ok = true; shard_id = some r.shard_id; primary = some r.leader })
item_of document invalid_id = fails (failed_item document)
item_of document (write_failed e) = if is_caught e then fails (failed_item document) else raises e

abbrev pub import_end : List Document → Option SubmitError × List ImportItem × ℕ → Imported
import_end documents (some e, results, succeeded) = aborted e
import_end documents (none, results, succeeded) =
    let failed = length documents - succeeded in
    reported (record {
      ok = failed == 0;
      total = length documents;
      succeeded = succeeded;
      failed = failed;
      results = results;
    })

module _ {W : Type 0} (ask : Ask W) (post : Post W) (cluster : ClusterMap) (digest : Str → ℕ) where
  unfoldable pub add_document : W → Leaders → Str → Document → W × Leaders × Written
  add_document w leaders collection document = elim (document_id document) [
    | none ↦ (w, leaders, invalid_id)
    | some id ↦
        let shard = get_shard_id digest cluster id in
        let (w', leaders', end) =
          submit_raft_command ask post cluster w leaders shard (add_command collection document) in
        (w', leaders', added id shard end)
  ]

  unfoldable pub update_document : W → Leaders → Str → Str → Document → W × Leaders × Written
  update_document w leaders collection id changes =
      let shard = get_shard_id digest cluster id in
      let (w', leaders', end) =
        submit_raft_command ask post cluster w leaders shard
          (update_command collection id changes) in
      (w', leaders', changed id shard end)

  unfoldable pub delete_document : W → Leaders → Str → Str → W × Leaders × Written
  delete_document w leaders collection id =
      let shard = get_shard_id digest cluster id in
      let (w', leaders', end) =
        submit_raft_command ask post cluster w leaders shard (delete_command collection id) in
      (w', leaders', changed id shard end)

  -- The loop, with `results` and `succeeded`.
  unfoldable pub import_loop :
      W
      → Leaders
      → Str
      → List Document
      → List ImportItem
      → ℕ
      → W × Leaders × (Option SubmitError × List ImportItem × ℕ)
  import_loop w leaders collection [] results succeeded = (w, leaders, (none, results, succeeded))
  import_loop w leaders collection (document ∷ documents) results succeeded =
      let (w', leaders', end) = add_document w leaders collection document in
      elim (item_of document end) [
        | succeeds i ↦
            import_loop w' leaders' collection documents (results ++ (i ∷ [])) (succeeded + 1)
        | fails i ↦ import_loop w' leaders' collection documents (results ++ (i ∷ [])) succeeded
        | raises e ↦ (w', leaders', (some e, results, succeeded))
      ]

  unfoldable pub import_documents : W → Leaders → Str → List Document → W × Leaders × Imported
  import_documents w leaders collection documents =
      let (w', leaders', end) = import_loop w leaders collection documents [] 0 in
      (w', leaders', import_end documents end)
