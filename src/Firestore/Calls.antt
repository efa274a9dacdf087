-- ===== src/Firestore/Calls.antt =====
-- internal/firestore/store.go: a history of the store, as the calls that may write, and the same
-- calls on what a client may rely on: the documents, and every change so far in its order.
use blitzy_localgcp.Base.{
  ℕ, ◌+◌, ◌%◌, ◌^◌, List, [], ◌∷◌, ◌++◌, length, Option, none, some, Str, Dict, lookup, has_key,
  insert, erase, if◌then◌else◌,
}
use blitzy_localgcp.Firestore.Data.{
  Value, StoredDocument, Document, ChangeType, change_added, change_modified, change_removed,
  ChangeEvent, Store,
}
use blitzy_localgcp.Firestore.Watch.{add_watcher, remove_watcher}
use blitzy_localgcp.Firestore.Persistence.{ProtoJson}
use blitzy_localgcp.Firestore.{
  document_of, create_document, updated_fields, update_document, delete_document,
}

pub data Call : Type 0 where
  create : ℕ → Str → Option (Dict Value) → Call
  update : ℕ → Str → Option (Dict Value) → List Str → Call
  delete : Str → Call
  watch : ℕ → Str → Str → Call
  unwatch : ℕ → Call

unfoldable pub step : ProtoJson → Store → Call → Store
unfolding create_document update_document delete_document add_watcher remove_watcher
step codec s (create now name fields) = (create_document codec now name fields s).1
step codec s (update now name fields mask) = (update_document codec now name fields mask s).1
step codec s (delete name) = (delete_document codec name s).1
step codec s (watch target_id prefix doc_name) = add_watcher target_id prefix doc_name s
step codec s (unwatch target_id) = remove_watcher target_id s

unfoldable pub run : ProtoJson → Store → List Call → Store
unfolding step
run codec s [] = s
run codec s (c ∷ cs) = run codec (step codec s c) cs

-- The n-th change has the number n.
pub record Feed : Type 0 where
  pub docs : Dict StoredDocument
  pub events : List ChangeEvent

unfoldable pub announce : Str → ChangeType → Option Document → Dict StoredDocument → Feed → Feed
announce name ct doc docs a =
    let evt : ChangeEvent = record {
      doc_name = name;
      change_type = ct;
      doc = doc;
      seq = (length a.events + 1) % 2 ^ 64;
    } in
    record { docs = docs; events = a.events ++ evt ∷ [] }

unfoldable pub put_document : Str → ChangeType → StoredDocument → Feed → Feed
unfolding announce document_of
put_document name ct sd a = announce name ct (some (document_of name sd)) (insert name sd a.docs) a

abbrev pub fresh : ℕ → Option (Dict Value) → StoredDocument
fresh now fields = record { fields = fields; create_time = some now; update_time = some now }

unfoldable pub follow : Feed → Call → Feed
unfolding announce put_document updated_fields
follow a (create now name fields) =
    if has_key name a.docs then a else put_document name change_added (fresh now fields) a
follow a (update now name fields mask) = elim (lookup name a.docs) [
  | none ↦ put_document name change_added (fresh now fields) a
  | some old ↦
      put_document name change_modified
        (record old { fields = updated_fields mask fields old.fields; update_time = some now }) a
]
follow a (delete name) =
    if has_key name a.docs then announce name change_removed none (erase name a.docs) a else a
follow a (watch target_id prefix doc_name) = a
follow a (unwatch target_id) = a

unfoldable pub feed : Feed → List Call → Feed
unfolding follow
feed a [] = a
feed a (c ∷ cs) = feed (follow a c) cs
