-- ===== src/Gcs/Service.antt =====
-- internal/gcs/service.go: the handlers and the routes.
use blitzy_localgcp.Base.{
  ℕ, zero, suc, List, [], ◌++◌, Option, none, some, ◌||◌, Str, bytes, str_eq, contains, has_prefix,
  if◌then◌else◌, ok, err, ℤ, pos, negsuc, format_decimal,
}
use blitzy_localgcp.Gcs.Data.{Object}
use blitzy_localgcp.Gcs.{
  Digests, Outcome, create_bucket, get_bucket, list_buckets, delete_bucket, get_object,
  delete_object, copy_object, list_objects,
}
use blitzy_localgcp.Gcs.Answers.{
  SignRequest, Request, Answer, no_content, bucket_answer, buckets_answer, object_answer,
  objects_answer, media, media_range, media_head, signed_url, account, Service, Reply,
  write_not_found, write_conflict, write_bad_request, not_allowed, internal_error, cut_at,
  trim_prefix, trim_suffix, has_suffix, error_text,
}
use blitzy_localgcp.Gcs.Uploads.{handle_upload}

unfoldable pub no_bucket : Str → Answer
unfolding write_not_found
no_bucket name = write_not_found (bytes "The specified bucket does not exist: " ++ name)

unfoldable pub no_object : Str → Str → Answer
unfolding write_not_found
no_object bucket name = write_not_found (bytes "No such object: " ++ bucket ++ bytes "/" ++ name)

unfoldable pub handle_get_bucket : Service → Str → Reply
unfolding get_bucket no_bucket
handle_get_bucket s name = elim (get_bucket s.store name) [
  | none ↦ (no_bucket name, s)
  | some b ↦ (bucket_answer b, s)
]

unfoldable pub handle_list_buckets : Service → Reply
unfolding list_buckets
handle_list_buckets s = (buckets_answer (list_buckets s.store), s)

unfoldable pub handle_get_object : Service → Request → Str → Str → Reply
unfolding get_object no_object
handle_get_object s r bucket name = elim (get_object s.store bucket name) [
  | none ↦ (no_object bucket name, s)
  | some so ↦
      if str_eq (r.query (bytes "alt")) (bytes "media")
      then (media so.meta so.content, s)
      else (object_answer so.meta, s)
]

unfoldable pub handle_list_objects : Service → Request → Str → Reply
unfolding get_bucket list_objects no_bucket
handle_list_objects s r bucket = elim (get_bucket s.store bucket) [
  | none ↦ (no_bucket bucket, s)
  | some b ↦
      let (items, prefixes) =
        list_objects s.store bucket (r.query (bytes "prefix")) (r.query (bytes "delimiter"))
          (pos 0) in
      (objects_answer items prefixes, s)
]

unfoldable pub handle_download : Service → Request → Reply
unfolding get_object cut_at trim_prefix no_object not_allowed write_not_found
handle_download s r =
    if str_eq r.method (bytes "GET")
    then elim (cut_at (bytes "/o/") (trim_prefix (bytes "/download/storage/v1/b/") r.path)) [
      | none ↦ (write_not_found (bytes "Invalid download path"), s)
      | some (bucket, name) ↦ elim (get_object s.store bucket name) [
        | none ↦ (no_object bucket name, s)
        | some so ↦ (media so.meta so.content, s)
      ]
    ]
    else (not_allowed, s)

unfoldable pub expires_or_default : ℤ → ℕ
expires_or_default (pos zero) = 3600
expires_or_default (pos (suc n)) = suc n
expires_or_default (negsuc n) = 3600

unfoldable pub signed_answer : Str → SignRequest → Answer
unfolding expires_or_default write_bad_request
signed_answer host req =
    if str_eq req.bucket [] || str_eq req.object []
    then write_bad_request (bytes "bucket and object are required")
    else signed_url (
        bytes "http://"
        ++ host
        ++ bytes "/"
        ++ req.bucket
        ++ bytes "/"
        ++ req.object
        ++ bytes "?X-Goog-Signature=localgcp&X-Goog-Expires="
        ++ format_decimal (expires_or_default req.expires))

unfoldable pub handle_sign : Service → Request → Reply
unfolding signed_answer write_bad_request not_allowed
handle_sign s r =
    if str_eq r.method (bytes "POST")
    then elim r.sign [
      | none ↦ (write_bad_request (bytes "Invalid JSON body"), s)
      | some req ↦ (signed_answer r.host req, s)
    ]
    else (not_allowed, s)

-- An object that is asked for as "/<bucket>/<object>".
unfoldable pub plain_object : Service → Str → Option (Object × List ℕ)
unfolding get_bucket get_object cut_at trim_prefix
plain_object s path = elim (cut_at (bytes "/") (trim_prefix (bytes "/") path)) [
  | none ↦ none
  | some (bucket, name) ↦
      if str_eq bucket [] || str_eq name [] then none else elim (get_bucket s.store bucket) [
        | none ↦ none
        | some b ↦ elim (get_object s.store bucket name) [
          | none ↦ none
          | some so ↦ some (so.meta, so.content)
        ]
      ]
]

unfoldable pub path_not_found : Str → Answer
unfolding write_not_found
path_not_found path = write_not_found (bytes "Path not found: " ++ path)

unfoldable pub handle_default : Service → Request → Reply
unfolding plain_object path_not_found
handle_default s r =
    if str_eq r.path (bytes "/")
    then (account, s)
    else (if str_eq r.method (bytes "GET") || str_eq r.method (bytes "HEAD")
        then elim (plain_object s r.path) [
          | none ↦ (path_not_found r.path, s)
          | some (meta, content) ↦
              if str_eq r.method (bytes "HEAD")
              then (media_head meta, s)
              else (media_range meta content, s)
        ]
        else (path_not_found r.path, s))

-- The answer by what the text of an error holds.
unfoldable pub create_error : Str → Str → Answer
unfolding write_conflict internal_error
create_error name text =
    if contains text (bytes "conflict")
    then write_conflict (bytes "You already own this bucket: " ++ name)
    else internal_error text

unfoldable pub delete_error : Str → Str → Answer
unfolding no_bucket write_conflict internal_error
delete_error name text =
    if contains text (bytes "not found")
    then no_bucket name
    else (if contains text (bytes "not empty")
        then write_conflict (bytes "The bucket you tried to delete is not empty.")
        else internal_error text)

unfoldable pub object_error : Answer → Str → Answer
unfolding internal_error
object_error missing text =
    if contains text (bytes "not found") then missing else internal_error text

module _ (digests : Digests) (quote : Str → Str) (now : Str) where
  -- The answer to what a method of the store gives, and the store after it.
  abbrev pub answer : {A : Type 0} → (A → Answer) → (Str → Answer) → Service → Outcome A → Reply
  answer success failure s (ok a, store) = (success a, record s { store = store })
  answer success failure s (err e, store) =
      (failure (error_text quote e), record s { store = store })

  unfoldable pub handle_create_bucket : Service → Request → Reply
  unfolding create_bucket create_error error_text write_bad_request
  handle_create_bucket s r = elim r.metadata [
    | none ↦ (write_bad_request (bytes "Bucket name is required"), s)
    | some meta ↦
        if str_eq meta.name []
        then (write_bad_request (bytes "Bucket name is required"), s)
        else answer bucket_answer (create_error meta.name) s (create_bucket s.store now meta.name)
  ]

  unfoldable pub handle_delete_bucket : Service → Str → Reply
  unfolding delete_bucket delete_error error_text
  handle_delete_bucket s name =
      answer (λ _. no_content) (delete_error name) s (delete_bucket s.store name)

  unfoldable pub handle_delete_object : Service → Str → Str → Reply
  unfolding delete_object object_error no_object error_text
  handle_delete_object s bucket name =
      answer (λ _. no_content) (object_error (no_object bucket name)) s
        (delete_object s.store bucket name)

  unfoldable pub copy_to : Service → Str → Str → Str → Reply
  unfolding cut_at copy_object object_error error_text write_bad_request write_not_found
  copy_to s bucket name path = elim (cut_at (bytes "/o/") path) [
    | none ↦ (write_bad_request (bytes "Invalid copy destination path"), s)
    | some (dst_bucket, dst_name) ↦
        answer object_answer (λ text. object_error (write_not_found text) text) s
          (copy_object s.store now bucket name dst_bucket dst_name)
  ]

  unfoldable pub handle_copy_object : Service → Str → Reply
  unfolding cut_at copy_to write_bad_request
  handle_copy_object s path = elim (cut_at (bytes "/o/") path) [
    | none ↦ (write_bad_request (bytes "Invalid copy path"), s)
    | some (bucket, rest) ↦ elim (cut_at (bytes "/copyTo/b/") rest) [
      | none ↦ (write_bad_request (bytes "Invalid copy path"), s)
      | some (name, destination) ↦ copy_to s bucket name destination
    ]
  ]

  -- The routes below "/storage/v1/b": one of the buckets, of an object, of a list, of a bucket.
  unfoldable pub route_buckets : Service → Request → Reply
  unfolding handle_list_buckets handle_create_bucket not_allowed
  route_buckets s r =
      if str_eq r.method (bytes "GET")
      then handle_list_buckets s
      else (if str_eq r.method (bytes "POST") then handle_create_bucket s r else (not_allowed, s))

  unfoldable pub route_object : Service → Request → Str → Str → Reply
  unfolding handle_get_object handle_delete_object not_allowed
  route_object s r bucket name =
      if str_eq r.method (bytes "GET")
      then handle_get_object s r bucket name
      else (if str_eq r.method (bytes "DELETE")
          then handle_delete_object s bucket name
          else (not_allowed, s))

  unfoldable pub route_bucket : Service → Request → Str → Reply
  unfolding handle_get_bucket handle_delete_bucket not_allowed
  route_bucket s r bucket =
      if str_eq r.method (bytes "GET")
      then handle_get_bucket s bucket
      else (if str_eq r.method (bytes "DELETE")
          then handle_delete_bucket s bucket
          else (not_allowed, s))

  unfoldable pub route_rest : Service → Request → Str → Reply
  unfolding handle_copy_object cut_at route_object handle_list_objects route_bucket has_suffix
      trim_suffix not_allowed
  route_rest s r rest =
      if contains rest (bytes "/copyTo/b/")
      then (if str_eq r.method (bytes "POST") then handle_copy_object s rest else (not_allowed, s))
      else elim (cut_at (bytes "/o/") rest) [
        | some (bucket, name) ↦ route_object s r bucket name
        | none ↦
            if has_suffix rest (bytes "/o")
            then (if str_eq r.method (bytes "GET")
                then handle_list_objects s r (trim_suffix (bytes "/o") rest)
                else (not_allowed, s))
            else route_bucket s r rest
      ]

  unfoldable pub route : Service → Request → Reply
  unfolding route_buckets route_rest trim_prefix
  route s r =
      if str_eq r.path (bytes "/storage/v1/b") || str_eq r.path (bytes "/storage/v1/b/")
      then route_buckets s r
      else route_rest s r (trim_prefix (bytes "/storage/v1/b/") r.path)

  -- The table of the routes: the longest pattern that the path has as a prefix.
  unfoldable pub register_routes : Service → Request → Reply
  unfolding route handle_upload handle_download handle_sign handle_default
  register_routes s r =
      if str_eq r.path (bytes "/storage/v1/b") || has_prefix r.path (bytes "/storage/v1/b/")
      then route s r
      else (if has_prefix r.path (bytes "/upload/storage/v1/b/")
          then handle_upload digests quote now s r
          else (if has_prefix r.path (bytes "/download/storage/v1/b/")
              then handle_download s r
              else (if str_eq r.path (bytes "/_localgcp/sign")
                  then handle_sign s r
                  else handle_default s r)))
