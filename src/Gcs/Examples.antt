-- ===== src/Gcs/Examples.antt =====
-- internal/gcs: a bucket with three objects and an upload, for the theorems on GCS.
use blitzy_localgcp.Base.{
  ◌++◌, str_eq_refl, ◌≡◌, refl, ℕ, List, false, if◌then◌else◌, [], ◌∷◌, none, some, bytes, Str,
  str_eq, Dict, lookup, exists_in, ◌&&◌, pos,
}
use blitzy_localgcp.Gcs.Data.{Bucket, StoredObject, Store}
use blitzy_localgcp.Gcs.{list_objects, Digests, generate_etag, get_bucket, get_object, new_object}
use blitzy_localgcp.Gcs.Answers.{write_not_found, Request, object_answer, media, Upload, Service}
use blitzy_localgcp.Gcs.Uploads.{
  handle_upload, upload_name, begun, handle_resumable_init, type_of, handle_resumable_chunk,
}
use blitzy_localgcp.Gcs.Service.{handle_get_object}
use blitzy_localgcp.Gcs.Resumable.{handle_resumable_chunk-init, upload_path, handle_upload_recovers}
use blitzy_localgcp.Gcs.Listing.{is_listed, directory_of, holds, list_objects_lem}

abbrev stored : Str → StoredObject
stored name = record {
  meta = record {
    kind = bytes "storage#object";
    id = name;
    name = name;
    bucket = bytes "b";
    size = bytes "1";
    content_type = bytes "text/plain";
    time_created = bytes "t";
    updated = bytes "t";
    md5_hash = [];
    crc32c = bytes "AAAAAA==";
    etag = [];
    content_encoding = [];
  };
  content = 1 ∷ [];
}

abbrev three_objects : Dict StoredObject
three_objects =
    (bytes "a/x", stored (bytes "a/x"))
    ∷ (bytes "a/d/y", stored (bytes "a/d/y"))
    ∷ (bytes "c", stored (bytes "c"))
    ∷ []

abbrev one_bucket : Store
one_bucket = record {
  buckets = [];
  objects = (bytes "b", three_objects) ∷ [];
  data_dir = [];
  etag_counter = 0;
  disk = none;
}

the_objects : lookup (bytes "b") one_bucket.objects ≡ some three_objects
unfolding lookup str_eq bytes
the_objects = refl

list_objects_lem_example :
    let (items, prefixes) = list_objects one_bucket (bytes "b") (bytes "a/") (bytes "/") (pos 0) in
    (exists_in (λ o. str_eq o.name (bytes "a/x")) items
      ≡ exists_in
          (λ e. is_listed (bytes "a/") (bytes "/") e.0 && str_eq e.1.meta.name (bytes "a/x"))
          three_objects)
    × (exists_in (λ w. str_eq w (bytes "a/d/")) prefixes
        ≡ exists_in
            (λ e. holds (λ w. str_eq w (bytes "a/d/")) (directory_of (bytes "a/") (bytes "/") e.0))
            three_objects)
list_objects_lem_example =
    list_objects_lem one_bucket (bytes "b") (bytes "a/") (bytes "/") three_objects
      (λ o. str_eq o.name (bytes "a/x")) (λ w. str_eq w (bytes "a/d/")) the_objects

abbrev some_bucket : Bucket
some_bucket = record {
  kind = bytes "storage#bucket";
  id = bytes "b";
  name = bytes "b";
  location = bytes "US";
  storage_class = bytes "STANDARD";
  time_created = bytes "t";
  updated = bytes "t";
  etag = [];
}

abbrev full_store : Store
full_store = record one_bucket { buckets = (bytes "b", some_bucket) ∷ [] }

abbrev service : Service
service = record { store = full_store; resumables = [] }

abbrev the_digests : Digests
the_digests = record { md5 = λ c. c; sha256 = λ c. c }

-- A request whose parameters all have one value.
abbrev request_of : Str → Str → List ℕ → Request
request_of method value content = record {
  method = method;
  host = bytes "localhost";
  path = bytes "/upload/storage/v1/b/b/o";
  query = λ k. value;
  header = λ k. bytes "text/plain";
  body = some content;
  metadata = none;
  multipart = record { media_type = none; meta_part = none; data_part = none };
  sign = none;
}

the_bucket : get_bucket full_store (bytes "b") ≡ some some_bucket
unfolding get_bucket lookup str_eq bytes
the_bucket = refl

has_name : str_eq (upload_name (request_of (bytes "POST") (bytes "new") [])) [] ≡ false
unfolding upload_name str_eq bytes
has_name = refl

handle_resumable_chunk-init_example :
    let first = request_of (bytes "POST") (bytes "new") [] in
    let second = request_of (bytes "PUT") (generate_etag full_store).0 (1 ∷ 2 ∷ []) in
    let t = (handle_resumable_init service first (bytes "b")).1 in
    let (answer, u) = handle_resumable_chunk the_digests (λ w. w) (bytes "t") t second in
    let meta =
      new_object the_digests
        (bytes "t")
        (bytes "b")
        (upload_name first)
        (type_of (begun first (bytes "b")) second)
        (1 ∷ 2 ∷ []) in
    (answer ≡ object_answer meta)
    × ((handle_get_object u
          (request_of (bytes "GET") (bytes "media") [])
          (bytes "b")
          (upload_name first)).0
        ≡ media meta (1 ∷ 2 ∷ []))
    × ((j : Str)
        → lookup j u.resumables
          ≡ (if str_eq (generate_etag full_store).0 j then none else lookup j []))
handle_resumable_chunk-init_example =
    handle_resumable_chunk-init the_digests (λ w. w) (bytes "t") service
      (request_of (bytes "POST") (bytes "new") [])
      (request_of (bytes "PUT") (generate_etag full_store).0 (1 ∷ 2 ∷ []))
      (request_of (bytes "GET") (bytes "media") []) (bytes "b") some_bucket three_objects
      (1 ∷ 2 ∷ []) the_bucket the_objects has_name refl refl refl

abbrev half_done : Upload
half_done = record { bucket = bytes "b"; name = bytes "new"; content_type = []; received = [] }

abbrev without_bucket : Service
without_bucket = record {
  store = record full_store { buckets = []; objects = [] };
  resumables = (bytes "u", half_done) ∷ [];
}

-- The parameters of a PUT of that upload.
abbrev upload_query : Str → Str
upload_query k = if str_eq k (bytes "uploadType") then bytes "resumable" else bytes "u"

abbrev the_put : Request
the_put = record (request_of (bytes "PUT") [] (1 ∷ 2 ∷ [])) {
  path = upload_path (bytes "b");
  query = upload_query;
}

query_type : upload_query (bytes "uploadType") ≡ bytes "resumable"
query_type = rw (str_eq_refl (bytes "uploadType")) refl

query_id : upload_query (bytes "upload_id") ≡ bytes "u"
unfolding str_eq bytes
query_id = refl

found_upload : lookup (upload_query (bytes "upload_id")) without_bucket.resumables ≡ some half_done
unfolding lookup str_eq bytes
found_upload = refl

no_bucket_left : get_bucket without_bucket.store (bytes "b") ≡ none
unfolding get_bucket lookup
no_bucket_left = refl

an_id : str_eq (upload_query (bytes "upload_id")) [] ≡ false
unfolding str_eq bytes
an_id = refl

handle_upload_recovers_example :
    let (answer, t) = handle_upload the_digests (λ w. w) (bytes "t") without_bucket the_put in
    let (last, u) =
      handle_upload the_digests (λ w. w) (bytes "t") (record t { store = full_store }) the_put in
    let meta =
      new_object the_digests
        (bytes "t")
        (bytes "b")
        (bytes "new")
        (type_of half_done the_put)
        (1 ∷ 2 ∷ []) in
    (answer ≡ write_not_found (bytes "The specified bucket does not exist: " ++ bytes "b"))
    × (t ≡ without_bucket)
    × (last ≡ object_answer meta)
    × (get_object u.store (bytes "b") (bytes "new")
        ≡ some (record { meta = meta; content = 1 ∷ 2 ∷ [] }))
    × ((j : Str)
        → lookup j u.resumables ≡ (
            if str_eq (upload_query (bytes "upload_id")) j
            then none
            else lookup j without_bucket.resumables))
handle_upload_recovers_example =
    handle_upload_recovers the_digests (λ w. w) (bytes "t") without_bucket the_put half_done
      (1 ∷ 2 ∷ []) full_store some_bucket three_objects refl refl query_type an_id found_upload refl
      no_bucket_left the_bucket the_objects
