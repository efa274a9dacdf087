-- ===== src/Logging/Filters.antt =====
-- internal/logging/store.go: which entries a request asks for. A filter is ASCII text.
use blitzy_localgcp.Base.{
  ℕ, List, [], ◌∷◌, ◌++◌, drop, none, some, Bool, true, false, ◌&&◌, ◌||◌, Str, bytes, str_eq,
  has_prefix, contains, contains_byte, leb, ◌==◌, Dict, lookup, if◌then◌else◌,
}
use blitzy_localgcp.Logging.Data.{LogEntry}

-- strings.Fields
is_space : ℕ → Bool
is_space c = c == b' ' || (leb 9 c && leb c 13)

word_before : List Str → Str → List Str
word_before words [] = words
word_before words (c ∷ w) = (c ∷ w) ∷ words

-- The first word of the text, and the words after it.
fields_from : Str → Str × List Str
unfolding is_space word_before
fields_from [] = ([], [])
fields_from (c ∷ s) =
    let (word, words) = fields_from s in
    if is_space c then ([], word_before words word) else (c ∷ word, words)

fields : Str → List Str
unfolding fields_from
fields s = let (word, words) = fields_from s in word_before words word

-- strings.SplitN(s, c, 2), for a text that has the byte
cut : ℕ → Str → Str × Str
cut c [] = ([], [])
cut c (x ∷ s) = let (before, after) = cut c s in if x == c then ([], s) else (x ∷ before, after)

trim_left : Str → Str
trim_left [] = []
trim_left (c ∷ s) = if c == b'"' then trim_left s else c ∷ s

trim_right : Str → Str
trim_right [] = []
trim_right (c ∷ s) = drop_quote c (trim_right s)
  where
    drop_quote : ℕ → Str → Str
    drop_quote x [] = if x == b'"' then [] else x ∷ []
    drop_quote x (y ∷ ys) = x ∷ y ∷ ys

-- strings.Trim(s, "\"")
trim_quotes : Str → Str
unfolding trim_left trim_right
trim_quotes s = trim_right (trim_left s)

severity_order : Dict ℕ
severity_order =
    (bytes "DEFAULT", 0)
    ∷ (bytes "DEBUG", 100)
    ∷ (bytes "INFO", 200)
    ∷ (bytes "NOTICE", 300)
    ∷ (bytes "WARNING", 400)
    ∷ (bytes "ERROR", 500)
    ∷ (bytes "CRITICAL", 600)
    ∷ (bytes "ALERT", 700)
    ∷ (bytes "EMERGENCY", 800)
    ∷ []

-- A map gives 0 for a key that it lacks.
order_of : Str → ℕ
unfolding severity_order
order_of name = elim (lookup name severity_order) [ none ↦ 0 | some n ↦ n ]

unfoldable pub severity_gte : Str → Str → Bool
unfolding order_of
severity_gte entry_severity filter_severity =
    leb (order_of filter_severity) (order_of entry_severity)

-- One part of a filter; a part of another form lets every entry pass.
matches_part : LogEntry → Str → Bool
unfolding cut trim_quotes severity_gte
matches_part entry part =
    let (key, value) = cut b':' part in
    let (name, given) = cut b'=' part in
    if has_prefix part (bytes "severity>=")
    then severity_gte entry.severity (drop 10 part)
    else if contains_byte b':' part
    then (if str_eq key (bytes "textPayload")
        then contains entry.text_payload (trim_quotes value)
        else true)
    else if contains_byte b'=' part
    then (if str_eq name (bytes "logName") then str_eq entry.log_name (trim_quotes given) else true)
    else true

matches_parts : LogEntry → List Str → Bool
unfolding matches_part
matches_parts entry [] = true
matches_parts entry (part ∷ parts) =
    let rest = matches_parts entry parts in if matches_part entry part then rest else false

unfoldable pub matches_filter : LogEntry → Str → Bool
unfolding matches_parts fields
matches_filter entry filter = matches_parts entry (fields filter)

any_resource : Str → List Str → Bool
any_resource log_name [] = false
any_resource log_name (rn ∷ rns) =
    has_prefix log_name (rn ++ bytes "/")
    || has_prefix log_name (bytes "projects/" ++ rn ++ bytes "/")
    || any_resource log_name rns

unfoldable pub matches_resources : LogEntry → List Str → Bool
unfolding any_resource
matches_resources entry [] = true
matches_resources entry (rn ∷ rns) = any_resource entry.log_name (rn ∷ rns)
