-- ===== src/Firestore/Resume.antt =====
-- internal/firestore/store.go: what a client gets that resumes behind a change that it has seen.
use blitzy_localgcp.Base.{
  ℕ, zero, suc, ◌+◌, ◌-◌, ◌%◌, ◌^◌, ◌<◌, ◌≡◌, refl, subst, ap, ◌∙◌, List, [], ◌∷◌, ◌++◌, length,
  length-drop, drop, select, Option, none, some, map, arith, Bool, true, false, ◌&&◌, Bool-cases,
  Option-cases, inl, inr, Str, Dict, lookup, insert, erase, has_key, ltb, if◌then◌else◌, ok, err,
}
use native.Mathlib.Nat.{mod-eq_of_lt}
use blitzy_localgcp.Firestore.Data.{
  StoredDocument, Document, ChangeType, change_added, change_modified, change_removed, ChangeEvent,
  PersistedDoc,
}
use blitzy_localgcp.Firestore.Ring.{drop-nil, drop-drop, last_n}
use blitzy_localgcp.Firestore.Watch.{
  matches, change_log_size, changes_from, changes_of, changes_since, gap,
}
use blitzy_localgcp.Firestore.Persistence.{ProtoJson}
use blitzy_localgcp.Firestore.{document_of, new_store}
use blitzy_localgcp.Firestore.Calls.{
  Call, create, update, delete, watch, unwatch, run, Feed, announce, put_document, follow, feed,
}
use blitzy_localgcp.Firestore.Refine.{run_refines}

-- The numbers of the events go on from `base`.
abbrev Numbered : ℕ → List ChangeEvent → Type 0
Numbered base [] = Unit
Numbered base (e ∷ es) = (e.seq ≡ (base + 1) % 2 ^ 64) × Numbered (base + 1) es

Numbered-snoc :
    (base : ℕ) (es : List ChangeEvent) (e : ChangeEvent)
    → e.seq ≡ (base + length es + 1) % 2 ^ 64
    → Numbered base es
    → Numbered base (es ++ e ∷ [])
Numbered-snoc base [] e h n = (h ∙ ap (λ i. i % 2 ^ 64) (omega arith), tt)
Numbered-snoc base (f ∷ es) e h (first, n) =
    (first, Numbered-snoc (base + 1) es e (h ∙ ap (λ i. i % 2 ^ 64) (omega arith)) n)

Numbered-drop :
    (base k : ℕ) (es : List ChangeEvent) → Numbered base es → Numbered (base + k) (drop k es)
Numbered-drop base zero es n = subst (λ i. Numbered i es) (omega arith) n
Numbered-drop base (suc k) [] n = tt
Numbered-drop base (suc k) (e ∷ es) (first, n) =
    subst (λ i. Numbered i (drop k es)) (omega arith) (Numbered-drop (base + 1) k es n)

announce-Numbered :
    (name : Str) (ct : ChangeType) (doc : Option Document) (docs : Dict StoredDocument) (a : Feed)
    → Numbered 0 a.events
    → Numbered 0 (announce name ct doc docs a).events
unfolding announce
announce-Numbered name ct doc docs a n =
    Numbered-snoc 0 a.events _ (ap (λ i. i % 2 ^ 64) (omega arith)) n

put-Numbered :
    (name : Str) (ct : ChangeType) (sd : StoredDocument) (a : Feed)
    → Numbered 0 a.events
    → Numbered 0 (put_document name ct sd a).events
unfolding put_document
put-Numbered name ct sd a n =
    announce-Numbered name ct (some (document_of name sd)) (insert name sd a.docs) a n

follow-Numbered : (c : Call) (a : Feed) → Numbered 0 a.events → Numbered 0 (follow a c).events
unfolding follow
follow-Numbered (create now name fields) a n = elim (Bool-cases (has_key name a.docs)) [
  | inl e ↦ rw e n
  | inr e ↦ rw e (put-Numbered name change_added _ a n)
]
follow-Numbered (update now name fields mask) a n = elim (Option-cases (lookup name a.docs)) [
  | inl e ↦ rw (follow, e) (put-Numbered name change_added _ a n)
  | inr (old, e) ↦ rw (follow, e) (put-Numbered name change_modified _ a n)
]
follow-Numbered (delete name) a n = elim (Bool-cases (has_key name a.docs)) [
  | inl e ↦ rw e (announce-Numbered name change_removed none (erase name a.docs) a n)
  | inr e ↦ rw e n
]
follow-Numbered (watch target_id prefix doc_name) a n = n
follow-Numbered (unwatch target_id) a n = n

feed-Numbered : (cs : List Call) (a : Feed) → Numbered 0 a.events → Numbered 0 (feed a cs).events
unfolding feed
feed-Numbered [] a n = n
feed-Numbered (c ∷ cs) a n = feed-Numbered cs (follow a c) (follow-Numbered c a n)

-- The events with a number above `after` are those behind the first `after`.
select-after :
    (after base : ℕ) (m : ChangeEvent → Bool) (es : List ChangeEvent)
    → Numbered base es
    → base + length es < 2 ^ 64
    → select (λ e. ltb after e.seq && m e) es ≡ select m (drop (after - base) es)
unfolding select
select-after after base m [] n low = rw (drop-nil {A = ChangeEvent} (after - base)) refl
select-after after base m (e ∷ es) (first, n) low =
    let number : e.seq ≡ base + 1 = first ∙ mod-eq_of_lt (omega arith) in
    let rest = select-after after (base + 1) m es n (omega arith) in
    elim (Bool-cases (ltb after (base + 1))) [
      | inl g ↦
          let now : after - base ≡ 0 = ground arith in
          let later : after - (base + 1) ≡ 0 = ground arith in
          rw (ap (ltb after) number ∙ g, now, select)
            (ap (λ l. if m e then e ∷ l else l) (rest ∙ ap (λ k. select m (drop k es)) later))
      | inr g ↦
          let now : after - base ≡ suc (after - (base + 1)) = ground arith in
          rw (ap (ltb after) number ∙ g, now) rest
    ]

changes_from-map :
    (wanted : ChangeEvent → Bool) (es : List ChangeEvent)
    → changes_from wanted (map some es) ≡ some (select wanted es)
unfolding changes_from select
changes_from-map wanted [] = refl
changes_from-map wanted (e ∷ es) = rw (changes_from-map wanted es) refl

-- The answer of the log that holds `recent`, of events numbered from `base` on.
changes_of-Numbered :
    (after base : ℕ) (m : ChangeEvent → Bool) (es : List ChangeEvent)
    → Numbered base es
    → base + length es < 2 ^ 64
    → after + 1 < 2 ^ 64
    → (length es ≡ 0 → base ≡ 0)
    → changes_of after (λ e. ltb after e.seq && m e) (map some es)
      ≡ (if ltb after base then err gap else ok (select m (drop (after - base) es)))
unfolding changes_of select
changes_of-Numbered after base m [] n low room none_left =
    let start : base ≡ 0 = none_left refl in
    let early : ltb after 0 ≡ false = ground arith in
    rw (start, drop-nil {A = ChangeEvent} (after - 0), early) refl
changes_of-Numbered after base m (e ∷ es) n low room none_left =
    let number : e.seq ≡ base + 1 = n.0 ∙ mod-eq_of_lt (omega arith) in
    let next : (after + 1) % 2 ^ 64 ≡ after + 1 = mod-eq_of_lt room in
    let found = changes_from-map (λ x. ltb after x.seq && m x) (e ∷ es) in
    elim (Bool-cases (ltb after base)) [
      | inl g ↦
          let late : ltb (after + 1) (base + 1) ≡ true = ground arith in
          rw (ap (ltb _) number, next, late, g) refl
      | inr g ↦
          let kept : ltb (after + 1) (base + 1) ≡ false = ground arith in
          rw (ap (ltb _) number, next, kept, g, found)
            (ap ok (select-after after base m (e ∷ es) n low))
    ]

-- While fewer than 2 ^ 64 changes came, a client that has seen the first `after` changes, a number
-- below 2 ^ 64 - 1, gets exactly the later ones that match, in their order; or it is told of a gap,
-- just when more than 1024 changes came since.
pub changes_since-run :
    (codec : ProtoJson) (dir : Str) (disk : Option (List PersistedDoc)) (cs : List Call) (after : ℕ)
    (prefix doc_name : Str)
    → let s = new_store codec dir disk in
      let events = (feed (record { docs = s.docs; events = [] }) cs).events in
      length events < 2 ^ 64
      → after + 1 < 2 ^ 64
      → changes_since after prefix doc_name (run codec s cs) ≡ (
          if ltb (after + change_log_size) (length events)
          then err gap
          else ok (select (λ e. matches prefix doc_name e.doc_name) (drop after events)))
unfolding changes_since last_n
changes_since-run codec dir disk cs after prefix doc_name low room =
    let s = new_store codec dir disk in
    let events = (feed (record { docs = s.docs; events = [] }) cs).events in
    let base = length events - change_log_size in
    let m : ChangeEvent → Bool = λ e. matches prefix doc_name e.doc_name in
    let numbers = feed-Numbered cs (record { docs = s.docs; events = [] }) tt in
    let recent = (run_refines codec dir disk cs).2 in
    ap (changes_of after (λ e. ltb after e.seq && m e)) recent
    ∙ changes_of-Numbered after base m (drop base events)
        (subst (λ i. Numbered i (drop base events)) (omega arith)
          (Numbered-drop 0 base events numbers))
        (omega (arith, length-drop base events)) room (omega (arith, length-drop base events))
    ∙ elim (Bool-cases (ltb after base)) [
      | inl g ↦
          let late : ltb (after + change_log_size) (length events) ≡ true = ground arith in
          rw (g, late) refl
      | inr g ↦
          let kept : ltb (after + change_log_size) (length events) ≡ false = ground arith in
          let whole : base + (after - base) ≡ after = ground arith in
          rw (g, kept)
            (ap (λ l. ok (select m l))
              (drop-drop (after - base) base events ∙ ap (λ k. drop k events) whole))
    ]
