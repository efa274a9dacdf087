-- ===== src/Gcs.antt =====
-- internal/gcs/store.go: the buckets and their objects.
pub mod Data
pub mod Persistence
pub mod Answers
pub mod Uploads
pub mod Service
pub mod Resumable
pub mod Listing
mod Examples
use blitzy_localgcp.Base.{
  ℕ, zero, suc, ◌+◌, ◌/◌, ◌%◌, ◌^◌, List, [], ◌∷◌, ◌++◌, map, length, take, drop, Option, none,
  some, Bool, true, false, not, ◌&&◌, ◌||◌, ltb, Str, bytes, str_eq, has_prefix, text_before, Dict,
  lookup, has_key, insert, erase, alter, values, keys, if◌then◌else◌, Result, ok, err,
  format_decimal, sort_by_name, base64_encode, ℤ, pos, negsuc, int_ltb,
}
use blitzy_localgcp.Gcs.Data.{Bucket, Object, StoredObject, Store}
use blitzy_localgcp.Gcs.Persistence.{persist}

pub data Error : Type 0 where
  bucket_exists bucket_not_found bucket_not_empty : Str → Error
  object_not_found : Str → Str → Error

abbrev pub Outcome : Type 0 → Type 0
Outcome A = Result Error A × Store

unfoldable pub generate_etag : Store → Str × Store
generate_etag s =
    let n = (s.etag_counter + 1) % 2 ^ 64 in
    (bytes "CL" ++ format_decimal n ++ bytes "=", record s { etag_counter = n })

unfoldable pub create_bucket : Store → Str → Str → Outcome Bucket
unfolding generate_etag persist
create_bucket s now name =
    if has_key name s.buckets
    then (err (bucket_exists name), s)
    else let (etag, t) = generate_etag s in
      let b : Bucket = record {
        kind = bytes "storage#bucket";
        id = name;
        name = name;
        location = bytes "US";
        storage_class = bytes "STANDARD";
        time_created = now;
        updated = now;
        etag = etag;
      } in
      (
        ok b,
        persist
            (record t { buckets = insert name b t.buckets; objects = insert name [] t.objects }),
      )

unfoldable pub get_bucket : Store → Str → Option Bucket
get_bucket s name = lookup name s.buckets

unfoldable pub list_buckets : Store → List Bucket
list_buckets s = sort_by_name (λ b. b.name) (values s.buckets)

unfoldable pub is_filled : Option (Dict StoredObject) → Bool
is_filled none = false
is_filled (some []) = false
is_filled (some (o ∷ os)) = true

unfoldable pub delete_bucket : Store → Str → Outcome (Unit {0})
unfolding is_filled persist
delete_bucket s name =
    if has_key name s.buckets
    then (if is_filled (lookup name s.objects) then (err (bucket_not_empty name), s) else (
      ok tt,
      persist (record s { buckets = erase name s.buckets; objects = erase name s.objects }),
    ))
    else (err (bucket_not_found name), s)

-- The path of an object, "<bucket>/<name>".
unfoldable pub object_id : Str → Str → Str
object_id bucket name = bucket ++ bytes "/" ++ name

-- The digests are the standard library's.
pub record Digests : Type 0 where
  pub md5 : List ℕ → List ℕ
  pub sha256 : List ℕ → List ℕ

unfoldable pub hex_digit : ℕ → ℕ
hex_digit d = if ltb d 10 then 48 + d else 87 + d

-- hex.EncodeToString
unfoldable pub hex : List ℕ → Str
unfolding hex_digit
hex [] = []
hex (b ∷ bs) = hex_digit (b / 16) ∷ hex_digit (b % 16) ∷ hex bs

unfoldable pub new_object : Digests → Str → Str → Str → Str → List ℕ → Object
unfolding object_id hex
new_object digests now bucket name content_type content = record {
  kind = bytes "storage#object";
  id = object_id bucket name;
  name = name;
  bucket = bucket;
  size = format_decimal (length content);
  content_type = if str_eq content_type [] then bytes "application/octet-stream" else content_type;
  time_created = now;
  updated = now;
  md5_hash = base64_encode (digests.md5 content);
  crc32c = bytes "AAAAAA==";
  etag = hex (take 8 (digests.sha256 content));
  content_encoding = [];
}

-- A write to the map of a bucket that has none is a fault of Go, which `alter` does not show.
unfoldable pub put_object : Digests → Store → Str → Str → Str → Str → List ℕ → Outcome Object
unfolding new_object persist
put_object digests s now bucket name content_type content =
    let obj = new_object digests now bucket name content_type content in
    let stored : StoredObject = record { meta = obj; content = content } in
    if has_key bucket s.buckets
    then (ok obj, persist (record s { objects = alter bucket (insert name stored) s.objects }))
    else (err (bucket_not_found bucket), s)

unfoldable pub get_object : Store → Str → Str → Option StoredObject
get_object s bucket name = elim (lookup bucket s.objects) [
  | none ↦ none
  | some objs ↦ lookup name objs
]

unfoldable pub delete_object : Store → Str → Str → Outcome (Unit {0})
unfolding persist
delete_object s bucket name = elim (lookup bucket s.objects) [
  | none ↦ (err (bucket_not_found bucket), s)
  | some objs ↦
      if has_key name objs
      then (ok tt, persist (record s { objects = alter bucket (erase name) s.objects }))
      else (err (object_not_found name bucket), s)
]

unfoldable pub copy_object : Store → Str → Str → Str → Str → Str → Outcome Object
unfolding object_id persist
copy_object s now src_bucket src_name dst_bucket dst_name =
    if has_key dst_bucket s.buckets
    then elim (lookup src_bucket s.objects) [
      | none ↦ (err (bucket_not_found src_bucket), s)
      | some objs ↦ elim (lookup src_name objs) [
        | none ↦ (err (object_not_found src_name src_bucket), s)
        | some src ↦
            let obj : Object = record (src.meta) {
              id = object_id dst_bucket dst_name;
              name = dst_name;
              bucket = dst_bucket;
              time_created = now;
              updated = now;
            } in
            let stored : StoredObject = record { meta = obj; content = src.content } in
            (
              ok obj,
              persist (record s { objects = alter dst_bucket (insert dst_name stored) s.objects }),
            )
      ]
    ]
    else (err (bucket_not_found dst_bucket), s)

-- What a listing makes of a name: nothing, an item, or the pseudo-directory that it is in.
pub data Place : Type 0 where
  outside : Place
  item : Place
  inside : Str → Place

unfoldable pub place_of : Str → Str → Str → Place
place_of prefix delimiter name =
    if not (str_eq prefix []) && not (has_prefix name prefix)
    then outside
    else (if str_eq delimiter []
        then item
        else elim (text_before delimiter (drop (length prefix) name)) [
          | none ↦ item
          | some w ↦ inside (prefix ++ w ++ delimiter)
        ])

unfoldable pub items_of : Str → Str → Dict StoredObject → List Object
unfolding place_of
items_of prefix delimiter [] = []
items_of prefix delimiter ((name, so) ∷ rest) =
    let items = items_of prefix delimiter rest in
    elim (place_of prefix delimiter name) [
      | outside ↦ items
      | item ↦ so.meta ∷ items
      | inside p ↦ items
    ]

-- The set of the pseudo-directories.
unfoldable pub prefixes_of : Str → Str → Dict StoredObject → Dict (Unit {0})
unfolding place_of
prefixes_of prefix delimiter [] = []
prefixes_of prefix delimiter ((name, so) ∷ rest) =
    let prefixes = prefixes_of prefix delimiter rest in
    elim (place_of prefix delimiter name) [
      | outside ↦ prefixes
      | item ↦ prefixes
      | inside p ↦ insert p tt prefixes
    ]

unfoldable pub first_items : ℤ → List Object → List Object
first_items (negsuc n) items = items
first_items (pos n) items = if ltb 0 n && ltb n (length items) then take n items else items

unfoldable pub list_objects : Store → Str → Str → Str → ℤ → List Object × List Str
unfolding items_of prefixes_of first_items
list_objects s bucket prefix delimiter max_results = elim (lookup bucket s.objects) [
  | none ↦ ([], [])
  | some objs ↦ (
    first_items max_results (sort_by_name (λ o. o.name) (items_of prefix delimiter objs)),
    sort_by_name (λ p. p) (keys (prefixes_of prefix delimiter objs)),
  )
]
