-- ===== src/Firestore/Masks.antt =====
-- internal/firestore/store.go: what an update leaves of a document.
use blitzy_localgcp.Base.{
  ℕ, ◌≡◌, refl, sym, ap, ◌∙◌, List, [], ◌∷◌, Option, none, some, arith, Bool-cases, Option-cases,
  inl, inr, Str, str_eq, str_eq_iff, str_eq_refl, str_eq-false, false→ne, ◌||◌, erase, Dict, lookup,
  insert, lookup-insert, lookup-erase, exists_in, if◌then◌else◌,
}
use blitzy_localgcp.Firestore.Data.{Value, StoredDocument, Document, ChangeType, Store}
use blitzy_localgcp.Firestore.Watch.{notify_watchers}
use blitzy_localgcp.Firestore.Held.{docs-append_event}
use blitzy_localgcp.Firestore.Persistence.{ProtoJson, persist}
use blitzy_localgcp.Firestore.{
  field_of, apply_mask, or_empty, updated_fields, document_of, update_document,
}

pub docs-notify :
    (name : Str) (ct : ChangeType) (doc : Option Document) (s : Store)
    → (notify_watchers name ct doc s).docs ≡ s.docs
unfolding notify_watchers
docs-notify name ct doc s = docs-append_event _ _

pub docs-persist : (codec : ProtoJson) (s : Store) → (persist codec s).docs ≡ s.docs
unfolding persist
docs-persist codec s = elim (Bool-cases (str_eq s.dir [])) [ inl e ↦ rw e refl | inr e ↦ rw e refl ]

lookup-apply_mask :
    (k : Str) (mask : List Str) (fields : Option (Dict Value)) (existing : Dict Value)
    → lookup k (apply_mask mask fields existing)
      ≡ (if exists_in (str_eq k) mask then field_of k fields else lookup k existing)
unfolding apply_mask exists_in
lookup-apply_mask k [] fields existing = refl
lookup-apply_mask k (fp ∷ mask) fields existing = elim (Option-cases (field_of fp fields)) [
  | inl e ↦
      rw (e, lookup-apply_mask k mask fields (erase fp existing), lookup-erase fp k existing)
        (one none e)
  | inr (v, e) ↦
      rw (e, lookup-apply_mask k mask fields (insert fp v existing), lookup-insert fp k v existing)
        (one (some v) e)
]
  where
    -- The first path of the mask, and then the rest.
    one :
        (o : Option Value)
        → field_of fp fields ≡ o
        → (if exists_in (str_eq k) mask
            then field_of k fields
            else (if str_eq fp k then o else lookup k existing))
          ≡ (if str_eq k fp || exists_in (str_eq k) mask
              then field_of k fields
              else lookup k existing)
    one o e = elim (Bool-cases (exists_in (str_eq k) mask)) [
      | inl f ↦ ground (arith, f)
      | inr f ↦ elim (Bool-cases (str_eq fp k)) [
        | inl g ↦
            let same : fp ≡ k = (str_eq_iff fp k).0 g in rw (f, g, ← same, str_eq_refl fp, e) refl
        | inr g ↦ rw (f, g, str_eq-false k fp (λ h. false→ne g ((str_eq_iff fp k).1 (sym h)))) refl
      ]
    ]

lookup-or_empty : (k : Str) (o : Option (Dict Value)) → lookup k (or_empty o) ≡ field_of k o
unfolding lookup field_of or_empty
lookup-or_empty k none = refl
lookup-or_empty k (some fields) = refl

-- An update with a mask keeps the time of the creation, takes the fields of the mask from the
-- input (one that the input lacks is gone) and the others from the old document; no other
-- document changes.
pub update_document_lem :
    (codec : ProtoJson) (now : ℕ) (name fp : Str) (fields : Option (Dict Value)) (mask : List Str)
    (s : Store) (old : StoredDocument)
    → lookup name s.docs ≡ some old
    → let (doc, t) = update_document codec now name fields (fp ∷ mask) s in
      ((k : Str)
        → field_of k doc.fields
          ≡ (if exists_in (str_eq k) (fp ∷ mask) then field_of k fields else field_of k old.fields))
      × ((other : Str)
          → lookup other t.docs ≡ (
              if str_eq name other
              then some (record {
                fields = doc.fields;
                create_time = old.create_time;
                update_time = some now;
              })
              else lookup other s.docs))
unfolding update_document document_of updated_fields
update_document_lem codec now name fp fields mask s old found =
    rw (update_document, found)
      (
        (λ k.
            lookup-apply_mask k (fp ∷ mask) fields (or_empty old.fields)
            ∙ ap (λ o. if exists_in (str_eq k) (fp ∷ mask) then field_of k fields else o)
                (lookup-or_empty k old.fields)),
        (λ other.
            let sd = record old {
              fields = some (apply_mask (fp ∷ mask) fields (or_empty old.fields));
              update_time = some now;
            } in
            ap (lookup other) (docs-notify name _ _ _ ∙ docs-persist codec _)
            ∙ lookup-insert name other sd s.docs),
      )
