-- ===== src/Logging/Entries.antt =====
-- internal/logging/store.go: which entries stay, and which are listed.
use blitzy_localgcp.Logging.Filters.{matches_resources, matches_filter}
use Prim.Native.Nat.{min}
use blitzy_localgcp.Base.{
  ◌⊎◌, int_leb, int_ltb, ◌&&◌, ◌||◌, ℕ, zero, suc, ◌+◌, ◌-◌, ◌≤◌, ◌≡◌, refl, ap, List, [], ◌∷◌,
  ◌++◌, take, drop, length, length-drop, length-append, Bool, true, false, Bool-cases, inl, inr,
  arith, Str, str_eq, str_eq_iff, not, select, leb, ltb, if◌then◌else◌, ℤ, pos, negsuc,
}
use blitzy_localgcp.Logging.Data.{LogEntry, Store}
use blitzy_localgcp.Logging.{max_entries, write, page_of, wanted, list_from, list, delete_log}

take-drop : (n : ℕ) (xs : List LogEntry) → take n xs ++ drop n xs ≡ xs
take-drop zero xs = refl
take-drop (suc n) [] = refl
take-drop (suc n) (x ∷ xs) = ap (λ l. x ∷ l) (take-drop n xs)

-- After a write the store has the last entries, the new ones last, in their order: all of them
-- while there are at most 10000, and the last 10000 otherwise.
pub write_lem :
    (s : Store) (entries : List LogEntry)
    → (length (write s entries).entries ≡ min max_entries (length s.entries + length entries))
      × ((dropped : List LogEntry) × (dropped ++ (write s entries).entries ≡ s.entries ++ entries))
unfolding write
write_lem s entries =
    let all = s.entries ++ entries in
    elim (Bool-cases (ltb max_entries (length all))) [
      | inl e ↦ rw e (
        omega (arith, length-drop (length all - max_entries) all, length-append s.entries entries),
        (take (length all - max_entries) all, take-drop (length all - max_entries) all),
      )
      | inr e ↦ rw e (ground (arith, length-append s.entries entries), ([], refl))
    ]

take-nil : (n : ℕ) → take {A = LogEntry} n [] ≡ []
take-nil zero = refl
take-nil (suc n) = refl

-- The loop with `n` entries collected stops after `k` more.
list_from-take :
    (p : LogEntry → Bool) (page n k : ℕ) (entries : List LogEntry)
    → page ≡ n + suc k
    → list_from p page n entries ≡ take (suc k) (select p entries)
unfolding list_from select
list_from-take p page n k [] h = refl
list_from-take p page n k (entry ∷ entries) h = elim (Bool-cases (p entry)) [
  | inl e ↦
      rw (e, list_from, select) (collected k h (λ j g. list_from-take p page (n + 1) j entries g))
  | inr e ↦ rw (e, list_from, select) (list_from-take p page n k entries h)
]
  where
    full : page ≡ n + 1 → leb page (n + 1) ≡ true
    full g = ground arith

    room : (j : ℕ) → page ≡ n + suc (suc j) → leb page (n + 1) ≡ false
    room j g = ground arith

    collected :
        (j : ℕ)
        → page ≡ n + suc j
        → ((i : ℕ)
            → page ≡ n + 1 + suc i
            → list_from p page (n + 1) entries ≡ take (suc i) (select p entries))
        → (if leb page (n + 1) then entry ∷ [] else entry ∷ list_from p page (n + 1) entries)
          ≡ entry ∷ take j (select p entries)
    collected zero g later = rw (full g) refl
    collected (suc j) g later = rw (room j g) (ap (λ l. entry ∷ l) (later j (omega (arith, g))))

page_of-cases :
    (x : ℤ)
    → (page : ℕ) × (page_of x ≡ page)
      × (1 ≤ page)
      × (((x ≡ pos page) × (1 ≤ page) × (page ≤ 1000))
          ⊎ ((page ≡ 1000) × ((int_leb x (pos 0) ≡ true) ⊎ (int_ltb (pos 1000) x ≡ true))))
unfolding page_of
page_of-cases (negsuc n) = (1000, refl, omega arith, inr (refl, inl refl))
page_of-cases (pos n) = elim (Bool-cases (leb n 0)) [
  | inl e ↦ (1000, rw e refl, omega arith, inr (refl, inl e))
  | inr e ↦ elim (Bool-cases (ltb 1000 n)) [
    | inl f ↦ (1000, rw (e, f) refl, omega arith, inr (refl, inr f))
    | inr f ↦ (n, rw (e, f) refl, ground arith, inl (refl, ground arith, ground arith))
  ]
]

-- A listing has the first entries whose resource names and filter match, in the order of the store:
-- as many as the size of the page, which is the one that is asked for if it is from 1 to 1000, and
-- 1000 otherwise. An empty filter matches every entry.
pub list_lem :
    (s : Store) (resource_names : List Str) (filter : Str) (page_size : ℤ)
    → (page : ℕ) × (((page_size ≡ pos page) × (1 ≤ page) × (page ≤ 1000))
        ⊎ ((page ≡ 1000)
            × ((int_leb page_size (pos 0) ≡ true) ⊎ (int_ltb (pos 1000) page_size ≡ true))))
      × (list s resource_names filter page_size
          ≡ take page (
              select
                (λ entry.
                  matches_resources entry resource_names
                  && (str_eq filter [] || matches_filter entry filter))
                s.entries))
unfolding list wanted
list_lem s resource_names filter page_size =
    let (page, same, low, which) = page_of-cases page_size in
    (page, which, rw same (some_page page low))
  where
    some_page :
        (page : ℕ)
        → 1 ≤ page
        → list_from (wanted resource_names filter) page 0 s.entries
          ≡ take page (select (wanted resource_names filter) s.entries)
    some_page zero low = absurd (omega (arith, low))
    some_page (suc k) low =
        list_from-take (wanted resource_names filter) (suc k) 0 k s.entries (omega arith)

abbrev pub in_log : Str → LogEntry → Bool
in_log name entry = str_eq entry.log_name name

select-select_none :
    (name : Str) (entries : List LogEntry)
    → select (in_log name) (select (λ entry. not (str_eq entry.log_name name)) entries) ≡ []
unfolding select
select-select_none name [] = refl
select-select_none name (entry ∷ entries) = elim (Bool-cases (str_eq entry.log_name name)) [
  | inl e ↦ rw (e, select) (select-select_none name entries)
  | inr e ↦ rw (e, select, e) (select-select_none name entries)
]

select-select_other :
    (name other : Str) (entries : List LogEntry)
    → str_eq name other ≡ false
    → select (in_log other) (select (λ entry. not (str_eq entry.log_name name)) entries)
      ≡ select (in_log other) entries
unfolding select
select-select_other name other [] h = refl
select-select_other name other (entry ∷ entries) h =
    elim (Bool-cases (str_eq entry.log_name name)) [
      | inl e ↦
          let differs : str_eq entry.log_name other ≡ false =
            rw ((str_eq_iff entry.log_name name).0 e) h in
          rw (e, select, differs) (select-select_other name other entries h)
      | inr e ↦ (elim (Bool-cases (str_eq entry.log_name other)) [
        | inl f ↦ rw (e, select, f) (ap (λ l. entry ∷ l) (select-select_other name other entries h))
        | inr f ↦ rw (e, select, f) (select-select_other name other entries h)
      ])
    ]

-- After a log is deleted it has no entries, and every other log has its entries, in their order.
pub delete_log_lem :
    (s : Store) (name : Str)
    → (select (in_log name) (delete_log s name).entries ≡ [])
      × ((other : Str)
          → str_eq name other ≡ false
          → select (in_log other) (delete_log s name).entries ≡ select (in_log other) s.entries)
unfolding delete_log
delete_log_lem s name =
    (select-select_none name s.entries, λ other h. select-select_other name other s.entries h)
