-- ===== src/Logging.antt =====
-- internal/logging/store.go: the operations of the store.
pub mod Data
pub mod Filters
pub mod Entries
pub mod Service
pub mod Examples
use blitzy_localgcp.Base.{
  ℕ, zero, suc, ◌+◌, ◌-◌, List, [], ◌∷◌, ◌++◌, drop, length, Bool, true, not, ◌||◌, ◌&&◌, Str,
  bytes, str_eq, has_prefix, leb, ltb, Dict, insert, keys, select, sort_by_name, if◌then◌else◌, ℤ,
  pos, negsuc, int_leb, int_ltb,
}
use blitzy_localgcp.Logging.Data.{LogEntry, Store}
use blitzy_localgcp.Logging.Filters.{matches_filter, matches_resources}

abbrev pub max_entries : ℕ
max_entries = 10000

-- A negative length does not occur: the slice is cut only if it is longer than `max_entries`.
pub write : Store → List LogEntry → Store
write s entries =
    let all = s.entries ++ entries in
    if ltb max_entries (length all)
    then record { entries = drop (length all - max_entries) all }
    else record { entries = all }

pub page_of : ℤ → ℕ
page_of (pos n) = if leb n 0 || ltb 1000 n then 1000 else n
page_of (negsuc n) = 1000

pub wanted : List Str → Str → LogEntry → Bool
wanted resource_names filter entry =
    matches_resources entry resource_names && (str_eq filter [] || matches_filter entry filter)

-- The loop of `List`, with `n` entries collected.
pub list_from : (LogEntry → Bool) → ℕ → ℕ → List LogEntry → List LogEntry
list_from p page n [] = []
list_from p page n (entry ∷ entries) =
    let more = list_from p page (n + 1) entries in
    let next = list_from p page n entries in
    if p entry then (if leb page (n + 1) then entry ∷ [] else entry ∷ more) else next

pub list : Store → List Str → Str → ℤ → List LogEntry
unfolding page_of wanted list_from
list s resource_names filter page_size =
    list_from (wanted resource_names filter) (page_of page_size) 0 s.entries

pub seen_from : Str → List LogEntry → Dict Bool → Dict Bool
seen_from parent [] seen = seen
seen_from parent (entry ∷ entries) seen = seen_from parent entries (
    if has_prefix entry.log_name (parent ++ bytes "/") || str_eq parent []
    then insert entry.log_name true seen
    else seen)

pub list_logs : Store → Str → List Str
unfolding seen_from
list_logs s parent = sort_by_name (λ name. name) (keys (seen_from parent s.entries []))

pub delete_log : Store → Str → Store
delete_log s log_name = record {
  entries = select (λ entry. not (str_eq entry.log_name log_name)) s.entries;
}
