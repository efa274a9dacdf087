-- ===== src/Firestore/Watch.antt =====
-- internal/firestore/store.go: the watchers, the log of the changes, and the resume tokens.
use blitzy_localgcp.Base.{
  ℕ, zero, suc, ◌+◌, ◌*◌, ◌/◌, ◌%◌, ◌^◌, List, [], ◌∷◌, ◌++◌, length, drop, get_elem?, Option, none,
  some, Bool, false, not, ◌&&◌, Str, str_eq, has_prefix, contains_byte, ltb, ◌==◌, if◌then◌else◌,
  Result, ok, err,
}
use blitzy_localgcp.Firestore.Data.{ChangeType, ChangeEvent, Document, Watcher, Store}

-- A document is a direct child if no "/" is left of its name behind the prefix.
unfoldable pub is_child : Str → Str → Bool
is_child prefix name =
    if has_prefix name prefix then not (contains_byte 47 (drop (length prefix) name)) else false

unfoldable pub matches : Str → Str → Str → Bool
unfolding is_child
matches prefix doc_name name =
    if str_eq doc_name []
    then (if str_eq prefix [] then false else is_child prefix name)
    else str_eq name doc_name

abbrev pub change_log_size : ℕ
change_log_size = 1024

abbrev pub channel_size : ℕ
channel_size = 64

unfoldable pub without_watcher : ℕ → List Watcher → List Watcher
without_watcher target_id [] = []
without_watcher target_id (w ∷ ws) =
    let rest = without_watcher target_id ws in if w.target_id == target_id then rest else w ∷ rest

unfoldable pub add_watcher : ℕ → Str → Str → Store → Store
unfolding without_watcher
add_watcher target_id prefix doc_name s = record s {
  watchers =
      (record { target_id = target_id; prefix = prefix; doc_name = doc_name; ch = [] })
      ∷ without_watcher target_id s.watchers;
}

unfoldable pub remove_watcher : ℕ → Store → Store
unfolding without_watcher
remove_watcher target_id s = record s { watchers = without_watcher target_id s.watchers }

-- The send that drops the event if the channel is full.
unfoldable pub offer : ChangeEvent → Watcher → Watcher
unfolding matches
offer evt w =
    if matches w.prefix w.doc_name evt.doc_name && ltb (length w.ch) channel_size
    then record w { ch = w.ch ++ evt ∷ [] }
    else w

unfoldable pub offer_all : ChangeEvent → List Watcher → List Watcher
unfolding offer
offer_all evt [] = []
offer_all evt (w ∷ ws) = offer evt w ∷ offer_all evt ws

abbrev pub write_at {ℓ} : {A : Type ℓ} → ℕ → A → List A → List A
write_at i v [] = []
write_at zero v (x ∷ xs) = v ∷ xs
write_at (suc i) v (x ∷ xs) = x ∷ write_at i v xs

-- The event goes behind the last one; if the log was full, it takes the place of the oldest.
unfoldable pub append_event : ChangeEvent → Store → Store
append_event evt s =
    let log = write_at ((s.log_start + s.log_len) % change_log_size) (some evt) s.change_log in
    if ltb s.log_len change_log_size
    then record s { change_log = log; log_len = s.log_len + 1 }
    else record s { change_log = log; log_start = (s.log_start + 1) % change_log_size }

unfoldable pub notify_watchers : Str → ChangeType → Option Document → Store → Store
unfolding append_event offer_all
notify_watchers name ct doc s =
    let seq = (s.seq + 1) % 2 ^ 64 in
    let evt : ChangeEvent = record { doc_name = name; change_type = ct; doc = doc; seq = seq } in
    let t = append_event evt (record s { seq = seq }) in
    record t { watchers = offer_all evt t.watchers }

unfoldable pub current_seq : Store → ℕ
current_seq s = s.seq

-- binary.BigEndian: `n` bytes, the largest first
unfoldable pub put_uint : ℕ → ℕ → List ℕ
put_uint zero x = []
put_uint (suc n) x = (x / 256 ^ n) % 256 ∷ put_uint n x

unfoldable pub get_uint : ℕ → List ℕ → ℕ
get_uint acc [] = acc
get_uint acc (b ∷ bs) = get_uint (acc * 256 + b) bs

unfoldable pub encode_resume_token : ℕ → List ℕ
unfolding put_uint
encode_resume_token seq = put_uint 8 seq

unfoldable pub decode_resume_token : List ℕ → Option ℕ
unfolding get_uint
decode_resume_token token = if length token == 8 then some (get_uint 0 token) else none

-- The event in a place of the log, if there is one.
abbrev pub slot {ℓ} : {A : Type ℓ} → Option (Option A) → Option A
slot none = none
slot (some evt) = evt

-- The `n` places of the log from `start` on, going round at its end.
unfoldable pub window {ℓ} : {A : Type ℓ} → ℕ → List (Option A) → ℕ → ℕ → List (Option A)
window cap log start zero = []
window cap log start (suc n) = slot (get_elem? log start) ∷ window cap log ((start + 1) % cap) n

-- A nil in the window is the panic of the code that reads it.
unfoldable pub changes_from :
    (ChangeEvent → Bool) → List (Option ChangeEvent) → Option (List ChangeEvent)
changes_from wanted [] = some []
changes_from wanted (none ∷ rest) = none
changes_from wanted (some evt ∷ rest) = elim (changes_from wanted rest) [
  | none ↦ none
  | some events ↦ some (if wanted evt then evt ∷ events else events)
]

-- `gap`: events were evicted, and the caller has to send everything; `nil_event`: a nil read.
pub data LogError : Type 0 where
  gap : LogError
  nil_event : LogError

unfoldable pub changes_of :
    ℕ → (ChangeEvent → Bool) → List (Option ChangeEvent) → Result LogError (List ChangeEvent)
unfolding changes_from
changes_of after wanted [] = ok []
changes_of after wanted (none ∷ rest) = err nil_event
changes_of after wanted (some oldest ∷ rest) =
    if ltb ((after + 1) % 2 ^ 64) oldest.seq
    then err gap
    else elim (changes_from wanted (some oldest ∷ rest)) [
      | none ↦ err nil_event
      | some events ↦ ok events
    ]

unfoldable pub changes_since : ℕ → Str → Str → Store → Result LogError (List ChangeEvent)
unfolding matches window changes_of
changes_since after prefix doc_name s =
    changes_of after (λ evt. ltb after evt.seq && matches prefix doc_name evt.doc_name)
      (window change_log_size s.change_log s.log_start s.log_len)
