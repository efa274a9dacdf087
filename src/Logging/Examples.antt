-- ===== src/Logging/Examples.antt =====
-- internal/logging: a store with entries of two logs, for the theorems of the store.
use blitzy_localgcp.Logging.Filters.{matches_filter, matches_resources}
use blitzy_localgcp.Base.{
  ◌⊎◌, int_leb, int_ltb, ◌&&◌, ◌||◌, true, ℕ, ◌≡◌, none, List, [], ◌∷◌, bytes, str_eq, select, refl,
  Str, pos, length, ◌+◌, ◌++◌, has_prefix, contains_byte, lookup, contains,
}
use blitzy_localgcp.Base.{◌≤◌, take}
use Prim.Native.Nat.{min}
use blitzy_localgcp.Logging.Entries.{write_lem, list_lem}
use blitzy_localgcp.Logging.Data.{LogEntry, Store}
use blitzy_localgcp.Logging.{write, list, max_entries}

abbrev entry_of : Str → Str → LogEntry
entry_of log_name severity = record {
  log_name = log_name;
  severity = severity;
  text_payload = bytes "started";
  resource = none;
  labels = [];
}

abbrev the_store : Store
the_store = record {
  entries =
      entry_of (bytes "projects/p/logs/a") (bytes "INFO")
      ∷ entry_of (bytes "projects/p/logs/b") (bytes "ERROR")
      ∷ entry_of (bytes "projects/p/logs/a") (bytes "ERROR")
      ∷ [];
}

-- Two of the three entries have the severity that the filter asks for, and the page holds one.
listed_test :
    list the_store (bytes "p" ∷ []) (bytes "severity>=WARNING textPayload:\"start\"") (pos 1)
    ≡ entry_of (bytes "projects/p/logs/b") (bytes "ERROR") ∷ []
unfolding list matches_resources has_prefix bytes str_eq matches_filter lookup contains_byte
    contains
listed_test = refl

write_lem_example :
    (length (write the_store the_store.entries).entries ≡ min max_entries (3 + 3))
    × ((dropped : List LogEntry) × (dropped ++ (write the_store the_store.entries).entries
          ≡ the_store.entries ++ the_store.entries))
write_lem_example = write_lem the_store the_store.entries

list_lem_example :
    (page : ℕ) × (((pos 2 ≡ pos page) × (1 ≤ page) × (page ≤ 1000))
      ⊎ ((page ≡ 1000) × ((int_leb (pos 2) (pos 0) ≡ true) ⊎ (int_ltb (pos 1000) (pos 2) ≡ true))))
    × (list the_store (bytes "p" ∷ []) (bytes "severity>=WARNING") (pos 2)
        ≡ take page (
            select
              (λ entry.
                matches_resources entry (bytes "p" ∷ [])
                && (str_eq (bytes "severity>=WARNING") []
                    || matches_filter entry (bytes "severity>=WARNING")))
              the_store.entries))
list_lem_example = list_lem the_store (bytes "p" ∷ []) (bytes "severity>=WARNING") (pos 2)
