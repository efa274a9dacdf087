-- ===== src/Gcs/Answers.antt =====
-- internal/gcs/service.go, internal/gcs/errors.go: the requests, the answers and the paths.
use blitzy_localgcp.Base.{
  ℕ, List, ◌++◌, ◌+◌, ◌-◌, drop, take, length, Option, none, some, Bool, Str, bytes, has_prefix,
  str_eq, text_before, Dict, if◌then◌else◌, ℤ,
}
use blitzy_localgcp.Gcs.Data.{Bucket, Object, Store}
use blitzy_localgcp.Gcs.{Error, bucket_exists, bucket_not_found, bucket_not_empty, object_not_found}

-- What the JSON of a body or of a part gives; a name that is left out is empty.
pub record Metadata : Type 0 where
  pub name : Str
  pub content_type : Str

-- What `mime` and `multipart` read; `none` is an error, of a part or of what it holds.
pub record Multipart : Type 0 where
  pub media_type : Option Str
  pub meta_part : Option (Option Metadata)
  pub data_part : Option (Option (List ℕ))

pub record SignRequest : Type 0 where
  pub bucket : Str
  pub object : Str
  pub expires : ℤ

-- `body` is `none` if it cannot be read; the fields below it are what the decoders make of it.
pub record Request : Type 0 where
  pub method : Str
  pub host : Str
  pub path : Str
  pub query : Str → Str
  pub header : Str → Str
  pub body : Option (List ℕ)
  pub metadata : Option Metadata
  pub multipart : Multipart
  pub sign : Option SignRequest

-- What a handler writes: the status code and the value that is encoded, or the content of an
-- object with the headers of its metadata.
pub data Answer : Type 0 where
  fails : ℕ → Str → Str → Answer
  no_content : Answer
  bucket_answer : Bucket → Answer
  buckets_answer : List Bucket → Answer
  object_answer : Object → Answer
  objects_answer : List Object → List Str → Answer
  media : Object → List ℕ → Answer
  media_range : Object → List ℕ → Answer
  media_head : Object → Answer
  location : Str → Answer
  signed_url : Str → Answer
  account : Answer

pub record Upload : Type 0 where
  pub bucket : Str
  pub name : Str
  pub content_type : Str
  pub received : List ℕ

pub record Service : Type 0 where
  pub store : Store
  pub resumables : Dict Upload

abbrev pub Reply : Type 0
Reply = Answer × Service

unfoldable pub write_error : ℕ → Str → Str → Answer
write_error code reason message = fails code reason message

unfoldable pub write_not_found : Str → Answer
unfolding write_error
write_not_found message = write_error 404 (bytes "notFound") message

unfoldable pub write_conflict : Str → Answer
unfolding write_error
write_conflict message = write_error 409 (bytes "conflict") message

unfoldable pub write_bad_request : Str → Answer
unfolding write_error
write_bad_request message = write_error 400 (bytes "invalid") message

unfoldable pub not_allowed : Answer
unfolding write_error
not_allowed = write_error 405 (bytes "methodNotAllowed") (bytes "Method not allowed")

unfoldable pub internal_error : Str → Answer
unfolding write_error
internal_error message = write_error 500 (bytes "internalError") message

-- strings.Index with the text before and behind the place that it finds.
unfoldable pub cut_at : Str → Str → Option (Str × Str)
cut_at sep s = elim (text_before sep s) [
  | none ↦ none
  | some w ↦ some (w, drop (length w + length sep) s)
]

unfoldable pub trim_prefix : Str → Str → Str
trim_prefix p s = if has_prefix s p then drop (length p) s else s

unfoldable pub has_suffix : Str → Str → Bool
has_suffix s p = str_eq (drop (length s - length p) s) p

unfoldable pub trim_suffix : Str → Str → Str
trim_suffix p s = if has_suffix s p then take (length s - length p) s else s

-- `quote` is the verb %q of fmt.
module _ (quote : Str → Str) where
  unfoldable pub error_text : Error → Str
  error_text (bucket_exists name) =
      bytes "conflict: bucket " ++ quote name ++ bytes " already exists"
  error_text (bucket_not_found name) = bytes "not found: bucket " ++ quote name
  error_text (bucket_not_empty name) =
      bytes "conflict: bucket " ++ quote name ++ bytes " is not empty"
  error_text (object_not_found name bucket) =
      bytes "not found: object " ++ quote name ++ bytes " in bucket " ++ quote bucket
