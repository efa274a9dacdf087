-- ===== src/Firestore/Refine.antt =====
-- internal/firestore/store.go: the store refines the documents with the list of every change.
use blitzy_localgcp.Base.{
  ℕ, zero, suc, ◌+◌, ◌%◌, ◌^◌, ◌≡◌, refl, sym, subst, ap, ◌∙◌, List, [], ◌∷◌, length, Option, none,
  some, map, arith, Bool-cases, Option-cases, inl, inr, Str, str_eq, Dict, insert, lookup, has_key,
}
use native.Mathlib.Nat.{mod-add-mod}
use blitzy_localgcp.Firestore.Data.{
  Value, StoredDocument, Document, ChangeType, change_added, change_modified, change_removed,
  Watcher, ChangeEvent, PersistedDoc, Store,
}
use blitzy_localgcp.Firestore.Ring.{last_n}
use blitzy_localgcp.Firestore.Watch.{
  change_log_size, add_watcher, remove_watcher, append_event, notify_watchers, window,
}
use blitzy_localgcp.Firestore.Persistence.{ProtoJson, persist, persist_docs, load}
use blitzy_localgcp.Firestore.{
  document_of, nils, new_store, create_document, update_document, delete_document,
}
use blitzy_localgcp.Firestore.Calls.{
  Call, create, update, delete, watch, unwatch, step, run, Feed, announce, put_document, follow,
  feed,
}
use blitzy_localgcp.Firestore.Held.{
  Keeps, append_event-Keeps, docs-append_event, seq-append_event, Keeps-log, length-snoc,
}

pub record Refines (s : Store) (a : Feed) : Type 0 where
  pub same_docs : s.docs ≡ a.docs
  pub numbered : s.seq ≡ length a.events % 2 ^ 64
  pub keeps : Keeps s a.events

announced :
    (name : Str) (ct : ChangeType) (doc : Option Document) (s : Store) (a : Feed)
    → Refines s a
    → Refines (notify_watchers name ct doc s) (announce name ct doc s.docs a)
unfolding notify_watchers announce
announced name ct doc s a r =
    let n : (s.seq + 1) % 2 ^ 64 ≡ (length a.events + 1) % 2 ^ 64 =
      rw (r.numbered, mod-add-mod) refl in
    let evt : ChangeEvent = record {
      doc_name = name;
      change_type = ct;
      doc = doc;
      seq = (length a.events + 1) % 2 ^ 64;
    } in
    let t = record s { seq = (length a.events + 1) % 2 ^ 64 } in
    rw n (record {
      same_docs = docs-append_event evt t;
      numbered = seq-append_event evt t ∙ ap (λ i. i % 2 ^ 64) (sym (length-snoc a.events evt));
      keeps =
          Keeps-log (append_event evt t) _ _ refl refl refl
            (append_event-Keeps evt t a.events (Keeps-log s t a.events refl refl refl r.keeps));
    })

moved :
    (s t : Store) (a : Feed)
    → t.change_log ≡ s.change_log
    → t.log_start ≡ s.log_start
    → t.log_len ≡ s.log_len
    → t.seq ≡ s.seq
    → Refines s a
    → Refines t (record a { docs = t.docs })
moved s t a l b n q r = record {
  same_docs = refl;
  numbered = q ∙ r.numbered;
  keeps = Keeps-log s t a.events l b n r.keeps;
}

-- What every writing call does behind its own change of the documents.
notify-Refines :
    (codec : ProtoJson) (name : Str) (ct : ChangeType) (doc : Option Document)
    (docs : Dict StoredDocument) (s : Store) (a : Feed)
    → Refines s a
    → Refines
        (notify_watchers name ct doc (persist codec (record s { docs = docs })))
        (announce name ct doc docs a)
unfolding announce persist
notify-Refines codec name ct doc docs s a r = elim (Bool-cases (str_eq s.dir [])) [
  | inl e ↦
      let t = record s { docs = docs } in
      rw e (announced name ct doc t _ (moved s t a refl refl refl refl r))
  | inr e ↦
      let t = record s { docs = docs; disk = some (persist_docs codec docs) } in
      rw e (announced name ct doc t _ (moved s t a refl refl refl refl r))
]

module _ (codec : ProtoJson) (s : Store) (a : Feed) (r : Refines s a) where
  put-Refines :
      (name : Str) (ct : ChangeType) (sd : StoredDocument)
      → Refines
          (notify_watchers name ct
            (some (document_of name sd))
            (persist codec (record s { docs = insert name sd s.docs })))
          (put_document name ct sd a)
  unfolding put_document
  put-Refines name ct sd =
      let t =
        notify_watchers name ct (some (document_of name sd))
          (persist codec (record s { docs = insert name sd s.docs })) in
      subst
        (λ docs. Refines t (announce name ct (some (document_of name sd)) (insert name sd docs) a))
        r.same_docs (notify-Refines codec name ct _ _ s a r)

  create-Refines :
      (now : ℕ) (name : Str) (fields : Option (Dict Value))
      → Refines (create_document codec now name fields s).1 (follow a (create now name fields))
  unfolding create_document follow
  create-Refines now name fields = elim (Bool-cases (has_key name s.docs)) [
    | inl e ↦ rw (e, ap (has_key name) (sym r.same_docs), e) r
    | inr e ↦ rw (e, ap (has_key name) (sym r.same_docs), e) (put-Refines name change_added _)
  ]

  update-Refines :
      (now : ℕ) (name : Str) (fields : Option (Dict Value)) (mask : List Str)
      → Refines
          (update_document codec now name fields mask s).1
          (follow a (update now name fields mask))
  unfolding update_document follow
  update-Refines now name fields mask = elim (Option-cases (lookup name s.docs)) [
    | inl e ↦
        let f : lookup name a.docs ≡ none = ap (lookup name) (sym r.same_docs) ∙ e in
        rw (update_document, follow, e, f) (put-Refines name change_added _)
    | inr (old, e) ↦
        let f : lookup name a.docs ≡ some old = ap (lookup name) (sym r.same_docs) ∙ e in
        rw (update_document, follow, e, f) (put-Refines name change_modified _)
  ]

  delete-Refines : (name : Str) → Refines (delete_document codec name s).1 (follow a (delete name))
  unfolding delete_document follow
  delete-Refines name = elim (Bool-cases (has_key name s.docs)) [
    | inl e ↦ rw (← r.same_docs, e) (notify-Refines codec name change_removed none _ s a r)
    | inr e ↦ rw (← r.same_docs, e) (moved s s a refl refl refl refl r)
  ]

  -- A change of the watchers is none of the documents.
  watchers-Refines : (ws : List Watcher) → Refines (record s { watchers = ws }) a
  watchers-Refines ws = record {
    same_docs = r.same_docs;
    numbered = r.numbered;
    keeps = Keeps-log s _ a.events refl refl refl r.keeps;
  }

step-Refines :
    (codec : ProtoJson) (c : Call) (s : Store) (a : Feed)
    → Refines s a
    → Refines (step codec s c) (follow a c)
unfolding step add_watcher remove_watcher follow
step-Refines codec (create now name fields) s a r = create-Refines codec s a r now name fields
step-Refines codec (update now name fields mask) s a r =
    update-Refines codec s a r now name fields mask
step-Refines codec (delete name) s a r = delete-Refines codec s a r name
step-Refines codec (watch target_id prefix doc_name) s a r = watchers-Refines codec s a r _
step-Refines codec (unwatch target_id) s a r = watchers-Refines codec s a r _

run-Refines :
    (codec : ProtoJson) (cs : List Call) (s : Store) (a : Feed)
    → Refines s a
    → Refines (run codec s cs) (feed a cs)
unfolding run feed
run-Refines codec [] s a r = r
run-Refines codec (c ∷ cs) s a r =
    run-Refines codec cs (step codec s c) (follow a c) (step-Refines codec c s a r)

length-nils : (n : ℕ) → length (nils {A = ChangeEvent} n) ≡ n
unfolding nils
length-nils zero = refl
length-nils (suc n) = ap suc (length-nils n)

empty_log :
    (s : Store)
    → s.change_log ≡ nils change_log_size
    → s.log_start ≡ 0
    → s.log_len ≡ 0
    → s.seq ≡ 0
    → Refines s (record { docs = s.docs; events = [] })
unfolding window last_n
empty_log s l b n q = record {
  same_docs = refl;
  numbered = omega (arith, q);
  keeps = record {
    log_size = ap length l ∙ length-nils change_log_size;
    start_low = omega (arith, b);
    held = omega (arith, n);
    recent = rw (n, window) refl;
  };
}

new_store-Refines :
    (codec : ProtoJson) (dir : Str) (disk : Option (List PersistedDoc))
    → let s = new_store codec dir disk in Refines s (record { docs = s.docs; events = [] })
unfolding new_store load
new_store-Refines codec dir disk = elim (Bool-cases (str_eq dir [])) [
  | inl e ↦ rw e (empty_log _ refl refl refl refl)
  | inr e ↦ rw e (elim (Option-cases disk) [
    | inl f ↦ rw f (empty_log _ refl refl refl refl)
    | inr (state, f) ↦ rw f (empty_log _ refl refl refl refl)
  ])
]

-- The store that runs any calls keeps the documents that the calls describe, numbers the changes
-- by their count, and holds the last 1024 of them, in their order, in the ring.
pub run_refines :
    (codec : ProtoJson) (dir : Str) (disk : Option (List PersistedDoc)) (cs : List Call)
    → let s = new_store codec dir disk in
      let t = run codec s cs in
      let a = feed (record { docs = s.docs; events = [] }) cs in
      (t.docs ≡ a.docs)
      × (t.seq ≡ length a.events % 2 ^ 64)
      × (window change_log_size t.change_log t.log_start t.log_len
          ≡ map some (last_n change_log_size a.events))
run_refines codec dir disk cs =
    let r = run-Refines codec cs _ _ (new_store-Refines codec dir disk) in
    (r.same_docs, r.numbered, r.keeps.recent)
