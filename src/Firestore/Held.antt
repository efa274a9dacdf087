-- ===== src/Firestore/Held.antt =====
-- internal/firestore/store.go: the log holds the last events, and an append keeps it so.
use Prim.Native.Nat.{min}
use blitzy_localgcp.Base.{
  suc, ◌+◌, ◌%◌, ◌≤◌, ◌<◌, ◌≡◌, refl, sym, ap, ◌∙◌, List, [], ◌∷◌, ◌++◌, length, length-append,
  drop, Option, some, map, arith, Bool-cases, inl, inr, ltb, ltb→lt,
}
use blitzy_localgcp.Firestore.Data.{ChangeEvent, Store}
use blitzy_localgcp.Firestore.Ring.{
  length-write_at, round-lt, window-write_at, window-full, last_n, last_n-room, last_n-full,
  map-drop, map-snoc,
}
use blitzy_localgcp.Firestore.Watch.{change_log_size, append_event, window, write_at}

-- The log is a ring that holds the last of `events`.
pub record Keeps (s : Store) (events : List ChangeEvent) : Type 0 where
  pub log_size : length s.change_log ≡ change_log_size
  pub start_low : s.log_start < change_log_size
  pub held : s.log_len ≡ min change_log_size (length events)
  pub recent :
      window change_log_size s.change_log s.log_start s.log_len
      ≡ map some (last_n change_log_size events)

pub length-snoc {ℓ} : {A : Type ℓ} (xs : List A) (x : A) → length (xs ++ x ∷ []) ≡ length xs + 1
length-snoc xs x = omega (arith, length-append xs (x ∷ []))

module _ (evt : ChangeEvent) (s : Store) (events : List ChangeEvent) (k : Keeps s events) where
  abbrev written : List (Option ChangeEvent)
  written = write_at ((s.log_start + s.log_len) % change_log_size) (some evt) s.change_log

  recent_room :
      s.log_len < change_log_size
      → window change_log_size written s.log_start (s.log_len + 1)
        ≡ map some (last_n change_log_size (events ++ evt ∷ []))
  recent_room room =
      let few : length events < change_log_size = omega (arith, k.held, room) in
      let next : s.log_len + 1 ≡ suc s.log_len = omega arith in
      ap (window change_log_size written s.log_start) next
      ∙ window-write_at change_log_size s.log_start s.log_len _ evt s.change_log k.log_size
          k.start_low room refl
      ∙ ap (λ l. l ++ some evt ∷ []) k.recent
      ∙ sym (map-snoc some (last_n change_log_size events) evt)
      ∙ ap (map some) (sym (last_n-room change_log_size events evt few))

  recent_full :
      s.log_len ≡ change_log_size
      → window change_log_size written ((s.log_start + 1) % change_log_size) s.log_len
        ≡ map some (last_n change_log_size (events ++ evt ∷ []))
  recent_full full =
      let many : change_log_size ≤ length events = omega (arith, k.held, full) in
      let last : window change_log_size s.change_log s.log_start change_log_size
          ≡ map some (last_n change_log_size events) =
        ap (window change_log_size s.change_log s.log_start) (sym full) ∙ k.recent in
      ap (window change_log_size written ((s.log_start + 1) % change_log_size)) full
      ∙ window-full change_log_size s.log_start 1023 _ evt s.change_log k.log_size k.start_low refl
          (ap (λ n. (s.log_start + n) % change_log_size) full)
      ∙ ap (λ l. drop 1 l ++ some evt ∷ []) last
      ∙ ap (λ l. l ++ some evt ∷ []) (sym (map-drop some 1 (last_n change_log_size events)))
      ∙ sym (map-snoc some (drop 1 (last_n change_log_size events)) evt)
      ∙ ap (map some) (sym (last_n-full change_log_size events evt (omega arith) many))

  pub append_event-Keeps : Keeps (append_event evt s) (events ++ evt ∷ [])
  unfolding append_event
  append_event-Keeps = elim (Bool-cases (ltb s.log_len change_log_size)) [
    | inl e ↦
        let room : s.log_len < change_log_size = ltb→lt _ _ e in
        rw e (record {
          log_size = length-write_at _ (some evt) s.change_log ∙ k.log_size;
          start_low = k.start_low;
          held = omega (arith, k.held, room, length-snoc events evt);
          recent = recent_room room;
        })
    | inr e ↦
        let full : s.log_len ≡ change_log_size = ground (arith, k.held) in
        rw e (record {
          log_size = length-write_at _ (some evt) s.change_log ∙ k.log_size;
          start_low = round-lt change_log_size (s.log_start + 1) (omega arith);
          held = omega (arith, k.held, full, length-snoc events evt);
          recent = recent_full full;
        })
  ]

pub docs-append_event : (evt : ChangeEvent) (s : Store) → (append_event evt s).docs ≡ s.docs
unfolding append_event
docs-append_event evt s = elim (Bool-cases (ltb s.log_len change_log_size)) [
  | inl e ↦ rw e refl
  | inr e ↦ rw e refl
]

pub seq-append_event : (evt : ChangeEvent) (s : Store) → (append_event evt s).seq ≡ s.seq
unfolding append_event
seq-append_event evt s = elim (Bool-cases (ltb s.log_len change_log_size)) [
  | inl e ↦ rw e refl
  | inr e ↦ rw e refl
]

-- `Keeps` reads the log alone.
pub Keeps-log :
    (s t : Store) (events : List ChangeEvent)
    → t.change_log ≡ s.change_log
    → t.log_start ≡ s.log_start
    → t.log_len ≡ s.log_len
    → Keeps s events
    → Keeps t events
Keeps-log s t events l b n k = record {
  log_size = ap length l ∙ k.log_size;
  start_low = rw b k.start_low;
  held = n ∙ k.held;
  recent = rw (l, b, n) k.recent;
}
