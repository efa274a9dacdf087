-- ===== src/Firestore.antt =====
-- internal/firestore/store.go: the store of the documents.
pub mod Data
pub mod Watch
pub mod Persistence
pub mod Calls
pub mod Ring
pub mod Held
pub mod Refine
mod Resume
mod Tokens
mod Masks
pub mod Compare
pub mod Query
mod Filters
pub mod Flips
mod Joins
mod Ordering
mod Examples
use blitzy_localgcp.Base.{
  ℕ, zero, suc, List, [], ◌∷◌, ◌++◌, Option, none, some, Bool, true, false, Str, bytes, str_eq,
  Dict, lookup, has_key, insert, erase, if◌then◌else◌, sort_by_name,
}
use blitzy_localgcp.Firestore.Data.{
  Value, StoredDocument, Document, change_added, change_modified, change_removed, PersistedDoc,
  Store,
}
use blitzy_localgcp.Firestore.Watch.{is_child, change_log_size, notify_watchers}
use blitzy_localgcp.Firestore.Persistence.{ProtoJson, persist, load}

unfoldable pub nils {ℓ} : {A : Type ℓ} → ℕ → List (Option A)
nils zero = []
nils (suc n) = none ∷ nils n

unfoldable pub new_store : ProtoJson → Str → Option (List PersistedDoc) → Store
unfolding load nils
new_store codec dir disk =
    let s : Store = record {
      docs = [];
      dir = dir;
      watchers = [];
      seq = 0;
      change_log = nils change_log_size;
      log_start = 0;
      log_len = 0;
      disk = disk;
    } in
    if str_eq dir [] then s else load codec s

unfoldable pub document_of : Str → StoredDocument → Document
document_of name sd = record {
  name = name;
  fields = sd.fields;
  create_time = sd.create_time;
  update_time = sd.update_time;
}

-- copyFields copies the map, so that the answer shares no map with the store.
unfoldable pub get_document : Str → Dict StoredDocument → Option Document
unfolding document_of
get_document name docs = elim (lookup name docs) [
  | none ↦ none
  | some sd ↦ some (document_of name sd)
]

unfoldable pub create_document :
    ProtoJson → ℕ → Str → Option (Dict Value) → Store → Option Document × Store
unfolding document_of notify_watchers persist
create_document codec now name fields s =
    if has_key name s.docs
    then (none, s)
    else let sd : StoredDocument = record {
      fields = fields;
      create_time = some now;
      update_time = some now;
    } in
      let doc = document_of name sd in
      (
        some doc,
        notify_watchers name change_added (some doc)
            (persist codec (record s { docs = insert name sd s.docs })),
      )

-- v, ok := fields[fp], of a map that may be nil
unfoldable pub field_of : Str → Option (Dict Value) → Option Value
field_of fp none = none
field_of fp (some fields) = lookup fp fields

-- A field of the mask that the input lacks is deleted.
unfoldable pub apply_mask : List Str → Option (Dict Value) → Dict Value → Dict Value
unfolding field_of
apply_mask [] fields existing = existing
apply_mask (fp ∷ mask) fields existing =
    apply_mask mask fields
      (elim (field_of fp fields) [ none ↦ erase fp existing | some v ↦ insert fp v existing ])

unfoldable pub or_empty : Option (Dict Value) → Dict Value
or_empty none = []
or_empty (some fields) = fields

unfoldable pub updated_fields :
    List Str → Option (Dict Value) → Option (Dict Value) → Option (Dict Value)
unfolding or_empty apply_mask
updated_fields [] fields existing = fields
updated_fields (fp ∷ mask) fields existing =
    some (apply_mask (fp ∷ mask) fields (or_empty existing))

unfoldable pub update_document :
    ProtoJson → ℕ → Str → Option (Dict Value) → List Str → Store → Document × Store
unfolding document_of notify_watchers persist updated_fields
update_document codec now name fields mask s = elim (lookup name s.docs) [
  | none ↦
      let sd : StoredDocument = record {
        fields = fields;
        create_time = some now;
        update_time = some now;
      } in
      let doc = document_of name sd in
      (
        doc,
        notify_watchers name change_added (some doc)
            (persist codec (record s { docs = insert name sd s.docs })),
      )
  | some existing ↦
      let sd = record existing {
        fields = updated_fields mask fields existing.fields;
        update_time = some now;
      } in
      let doc = document_of name sd in
      (
        doc,
        notify_watchers name change_modified (some doc)
            (persist codec (record s { docs = insert name sd s.docs })),
      )
]

unfoldable pub delete_document : ProtoJson → Str → Store → Bool × Store
unfolding notify_watchers persist
delete_document codec name s =
    if has_key name s.docs
    then (
      true,
      notify_watchers name change_removed none
          (persist codec (record s { docs = erase name s.docs })),
    )
    else (false, s)

-- The direct children of a collection, as `range` visits them.
unfoldable pub children : Str → Dict StoredDocument → List Document
unfolding document_of is_child
children prefix [] = []
children prefix ((name, sd) ∷ rest) =
    let docs = children prefix rest in
    if is_child prefix name then document_of name sd ∷ docs else docs

unfoldable pub list_documents : Str → Str → Dict StoredDocument → List Document
unfolding children
list_documents parent collection_id docs =
    sort_by_name (λ d. d.name) (children (parent ++ bytes "/" ++ collection_id ++ bytes "/") docs)

unfoldable pub snapshot_documents : Str → Str → Dict StoredDocument → List Document
unfolding get_document children
snapshot_documents prefix doc_name docs =
    if str_eq doc_name []
    then sort_by_name (λ d. d.name) (children prefix docs)
    else elim (get_document doc_name docs) [ none ↦ [] | some doc ↦ doc ∷ [] ]
