-- ===== src/Gcs/Uploads.antt =====
-- internal/gcs/service.go: the uploads.
use blitzy_localgcp.Base.{
  ℕ, List, [], ◌++◌, Option, none, some, Str, bytes, str_eq, has_prefix, lookup, insert, erase,
  if◌then◌else◌, ok, err,
}
use blitzy_localgcp.Gcs.{Digests, generate_etag, get_bucket, put_object}
use blitzy_localgcp.Gcs.Answers.{
  Metadata, Request, object_answer, location, Upload, Service, Reply, write_not_found,
  write_bad_request, not_allowed, internal_error, trim_prefix, trim_suffix, error_text,
}

-- The bucket of "<bucket>/o" or of a shorter path.
unfoldable pub upload_bucket : Str → Str
unfolding trim_prefix trim_suffix
upload_bucket path = trim_suffix (bytes "/o") (trim_prefix (bytes "/upload/storage/v1/b/") path)

unfoldable pub name_in_body : Option Metadata → Str
name_in_body none = []
name_in_body (some meta) = meta.name

unfoldable pub upload_name : Request → Str
unfolding name_in_body
upload_name r =
    if str_eq (r.query (bytes "name")) [] then name_in_body r.metadata else r.query (bytes "name")

-- An upload that has received nothing yet.
unfoldable pub begun : Request → Str → Upload
unfolding upload_name
begun r bucket = record {
  bucket = bucket;
  name = upload_name r;
  content_type = r.header (bytes "X-Upload-Content-Type");
  received = [];
}

unfoldable pub handle_resumable_init : Service → Request → Str → Reply
unfolding generate_etag upload_name begun write_bad_request
handle_resumable_init s r bucket =
    let name = upload_name r in
    if str_eq name []
    then (write_bad_request (bytes "Object name is required"), s)
    else let (upload_id, store) = generate_etag s.store in
      (
        location (r.path ++ bytes "?uploadType=resumable&upload_id=" ++ upload_id),
        record { store = store; resumables = insert upload_id (begun r bucket) s.resumables },
      )

-- The upload is taken out of the table when its object is stored, and only then.
unfoldable pub finish_upload : Str → Reply → Reply
finish_upload upload_id (object_answer obj, s) =
    (object_answer obj, record s { resumables = erase upload_id s.resumables })
finish_upload upload_id (other, s) = (other, s)

-- The media type that the object of an upload gets.
unfoldable pub type_of : Upload → Request → Str
type_of ru r =
    if str_eq ru.content_type [] then r.header (bytes "Content-Type") else ru.content_type

module _ (digests : Digests) (quote : Str → Str) (now : Str) where
  -- PutObject, with the answers to its results.
  unfoldable pub answer_put : Service → Str → Str → Str → List ℕ → Reply
  unfolding put_object internal_error error_text
  answer_put s bucket name content_type content =
      let (result, store) = put_object digests s.store now bucket name content_type content in
      elim result [
        | ok obj ↦ (object_answer obj, record s { store = store })
        | err e ↦ (internal_error (error_text quote e), record s { store = store })
      ]

  unfoldable pub handle_simple_upload : Service → Request → Str → Reply
  unfolding answer_put write_bad_request internal_error
  handle_simple_upload s r bucket =
      if str_eq (r.query (bytes "name")) []
      then (write_bad_request (bytes "Object name is required (query param 'name')"), s)
      else elim r.body [
        | none ↦ (internal_error (bytes "Failed to read body"), s)
        | some content ↦
            answer_put s bucket (r.query (bytes "name")) (r.header (bytes "Content-Type")) content
      ]

  -- The second part of a multipart upload, behind the metadata.
  unfoldable pub data_part : Service → Request → Str → Metadata → Reply
  unfolding answer_put write_bad_request internal_error
  data_part s r bucket meta =
      if str_eq meta.name []
      then (write_bad_request (bytes "Object name is required in metadata"), s)
      else elim r.multipart.data_part [
        | none ↦ (write_bad_request (bytes "Failed to read data part"), s)
        | some none ↦ (internal_error (bytes "Failed to read data"), s)
        | some (some content) ↦ answer_put s bucket meta.name meta.content_type content
      ]

  unfoldable pub meta_part : Service → Request → Str → Reply
  unfolding data_part write_bad_request
  meta_part s r bucket = elim r.multipart.meta_part [
    | none ↦ (write_bad_request (bytes "Failed to read metadata part"), s)
    | some none ↦ (write_bad_request (bytes "Invalid JSON metadata"), s)
    | some (some meta) ↦ data_part s r bucket meta
  ]

  unfoldable pub handle_multipart_upload : Service → Request → Str → Reply
  unfolding meta_part write_bad_request
  handle_multipart_upload s r bucket = elim r.multipart.media_type [
    | none ↦ (write_bad_request (bytes "Content-Type must be multipart/related"), s)
    | some media_type ↦
        if has_prefix media_type (bytes "multipart/")
        then meta_part s r bucket
        else (write_bad_request (bytes "Content-Type must be multipart/related"), s)
  ]

  -- Every chunk ends the upload.
  unfoldable pub store_chunk : Service → Request → Str → Upload → List ℕ → Reply
  unfolding answer_put finish_upload type_of
  store_chunk s r upload_id ru chunk =
      let grown : Upload = record ru { received = ru.received ++ chunk } in
      finish_upload upload_id (
        answer_put (record s { resumables = insert upload_id grown s.resumables }) ru.bucket ru.name
          (type_of ru r) grown.received)

  unfoldable pub handle_resumable_chunk : Service → Request → Reply
  unfolding store_chunk write_bad_request write_not_found internal_error
  handle_resumable_chunk s r =
      let upload_id = r.query (bytes "upload_id") in
      if str_eq upload_id []
      then (write_bad_request (bytes "upload_id is required"), s)
      else elim (lookup upload_id s.resumables) [
        | none ↦ (write_not_found (bytes "Upload session not found"), s)
        | some ru ↦ elim r.body [
          | none ↦ (internal_error (bytes "Failed to read body"), s)
          | some chunk ↦ store_chunk s r upload_id ru chunk
        ]
      ]

  unfoldable pub resumable_upload : Service → Request → Str → Reply
  unfolding handle_resumable_init handle_resumable_chunk not_allowed
  resumable_upload s r bucket =
      if str_eq r.method (bytes "POST")
      then handle_resumable_init s r bucket
      else (if str_eq r.method (bytes "PUT") then handle_resumable_chunk s r else (not_allowed, s))

  unfoldable pub handle_upload : Service → Request → Reply
  unfolding get_bucket upload_bucket handle_simple_upload handle_multipart_upload resumable_upload
      write_bad_request write_not_found
  handle_upload s r =
      let bucket = upload_bucket r.path in
      let upload_type = r.query (bytes "uploadType") in
      elim (get_bucket s.store bucket) [
        | none ↦ (write_not_found (bytes "The specified bucket does not exist: " ++ bucket), s)
        | some b ↦
            if str_eq upload_type (bytes "media")
            then handle_simple_upload s r bucket
            else (if str_eq upload_type (bytes "multipart")
                then handle_multipart_upload s r bucket
                else (if str_eq upload_type (bytes "resumable")
                    then resumable_upload s r bucket
                    else (
                      write_bad_request (bytes "uploadType must be media, multipart, or resumable"),
                      s,
                    )))
      ]
