-- ===== src/Gcs/Resumable.antt =====
-- internal/gcs/service.go: what becomes of a resumable upload.
use blitzy_localgcp.Base.{
  ◌∷◌, ◌∙◌, has_prefix-append, drop, take, length, length-append, ◌-◌, arith, ◌≡◌, refl, ap, ℕ,
  List, [], ◌++◌, none, some, Bool, true, false, Bool-cases, inl, inr, Str, bytes, str_eq,
  str_eq_refl, Dict, lookup, has_key, insert, alter, lookup-insert_self, lookup-alter,
  lookup-insert, lookup-erase, has_key-some, if◌then◌else◌, ok,
}
use blitzy_localgcp.Gcs.Data.{Bucket, StoredObject, Store}
use blitzy_localgcp.Gcs.Persistence.{persist}
use blitzy_localgcp.Gcs.{Digests, generate_etag, get_bucket, new_object, put_object, get_object}
use blitzy_localgcp.Gcs.Answers.{
  trim_prefix, trim_suffix, has_suffix, write_not_found, Request, object_answer, media, Upload,
  Service,
}
use blitzy_localgcp.Gcs.Uploads.{
  upload_bucket, handle_upload, resumable_upload, upload_name, begun, handle_resumable_init,
  answer_put, finish_upload, type_of, store_chunk, handle_resumable_chunk,
}
use blitzy_localgcp.Gcs.Service.{handle_get_object}

if_twice :
    {A : Type 0} (c : Bool) (x y z : A)
    → (if c then x else (if c then y else z)) ≡ (if c then x else z)
if_twice true x y z = refl
if_twice false x y z = refl

persist-objects : (s : Store) → (persist s).objects ≡ s.objects
unfolding persist
persist-objects s = elim (Bool-cases (str_eq s.data_dir [])) [
  | inl e ↦ rw e refl
  | inr e ↦ rw e refl
]

module _ (digests : Digests) (now : Str) where
  abbrev pub object_of : Str → Str → Str → List ℕ → StoredObject
  object_of bucket name content_type content = record {
    meta = new_object digests now bucket name content_type content;
    content = content;
  }

  put_object-result :
      (s : Store) (bucket name content_type : Str) (content : List ℕ)
      → has_key bucket s.buckets ≡ true
      → (put_object digests s now bucket name content_type content).0
        ≡ ok (new_object digests now bucket name content_type content)
  unfolding put_object
  put_object-result s bucket name content_type content e = rw (put_object, e) refl

  put_object-objects :
      (s : Store) (bucket name content_type : Str) (content : List ℕ)
      → has_key bucket s.buckets ≡ true
      → (put_object digests s now bucket name content_type content).1.objects
        ≡ alter bucket (insert name (object_of bucket name content_type content)) s.objects
  unfolding put_object
  put_object-objects s bucket name content_type content e = rw (put_object, e) (persist-objects _)

  get_object-put_object :
      (s : Store) (bucket name content_type : Str) (content : List ℕ) (objs : Dict StoredObject)
      → has_key bucket s.buckets ≡ true
      → lookup bucket s.objects ≡ some objs
      → get_object (put_object digests s now bucket name content_type content).1 bucket name
        ≡ some (object_of bucket name content_type content)
  unfolding get_object
  get_object-put_object s bucket name content_type content objs e f =
      let stored = object_of bucket name content_type content in
      rw
        (
          get_object,
          put_object-objects s bucket name content_type content e,
          lookup-alter bucket bucket (insert name stored) s.objects,
          str_eq_refl bucket,
          f,
        )
        (lookup-insert_self name stored objs)

module _ (digests : Digests) (quote : Str → Str) (now : Str) (s : Service) (r : Request)
    (ru : Upload) (chunk : List ℕ) (upload_id : Str) where
  abbrev grown : Upload
  grown = record ru { received = ru.received ++ chunk }

  chunk_put :
      r.query (bytes "upload_id") ≡ upload_id
      → str_eq upload_id [] ≡ false
      → lookup upload_id s.resumables ≡ some ru
      → r.body ≡ some chunk
      → handle_resumable_chunk digests quote now s r
        ≡ store_chunk digests quote now s r upload_id ru chunk
  unfolding handle_resumable_chunk
  chunk_put id filled found read =
      rw (handle_resumable_chunk, id, filled, found, read)
        (ap (λ u. store_chunk digests quote now s r u ru chunk) id)

  -- A chunk of an upload whose bucket is there.
  chunk_stored :
      (objs : Dict StoredObject)
      → r.query (bytes "upload_id") ≡ upload_id
      → str_eq upload_id [] ≡ false
      → lookup upload_id s.resumables ≡ some ru
      → r.body ≡ some chunk
      → has_key ru.bucket s.store.buckets ≡ true
      → lookup ru.bucket s.store.objects ≡ some objs
      → let (answer, t) = handle_resumable_chunk digests quote now s r in
        let stored =
          object_of digests now ru.bucket ru.name (type_of ru r) (ru.received ++ chunk) in
        (answer ≡ object_answer stored.meta)
        × (get_object t.store ru.bucket ru.name ≡ some stored)
        × ((j : Str)
            → lookup j t.resumables ≡ (if str_eq upload_id j then none else lookup j s.resumables))
  unfolding store_chunk answer_put finish_upload
  chunk_stored objs id filled found read held listed =
      rw
        (
          chunk_put id filled found read,
          store_chunk,
          answer_put,
          put_object-result digests now s.store ru.bucket ru.name (type_of ru r)
              (ru.received ++ chunk) held,
          finish_upload,
        )
        (
          refl,
          get_object-put_object digests now s.store ru.bucket ru.name (type_of ru r)
              (ru.received ++ chunk) objs held listed,
          λ j.
              rw
                (
                  lookup-erase upload_id j (insert upload_id grown s.resumables),
                  lookup-insert upload_id j grown s.resumables,
                )
                (if_twice (str_eq upload_id j) none (some grown) (lookup j s.resumables)),
        )

upload_id_filled : (s : Store) → str_eq (generate_etag s).0 [] ≡ false
unfolding generate_etag bytes str_eq
upload_id_filled s = refl

init_resumables :
    (s : Service) (r : Request) (bucket : Str)
    → str_eq (upload_name r) [] ≡ false
    → (handle_resumable_init s r bucket).1 ≡ record {
      store = (generate_etag s.store).1;
      resumables = insert (generate_etag s.store).0 (begun r bucket) s.resumables;
    }
unfolding handle_resumable_init
init_resumables s r bucket named = rw (handle_resumable_init, named) refl

-- An upload that is begun for a named object of a bucket, and gets its content by a PUT with the
-- identifier that the beginning gave: the answer is the metadata of the object, a download of the
-- object gives this metadata and exactly the content, the identifier is free again, and every other
-- upload is as it was.
pub handle_resumable_chunk-init :
    (digests : Digests) (quote : Str → Str) (now : Str) (s : Service) (first second third : Request)
    (bucket : Str) (b : Bucket) (objs : Dict StoredObject) (content : List ℕ)
    → get_bucket s.store bucket ≡ some b
    → lookup bucket s.store.objects ≡ some objs
    → str_eq (upload_name first) [] ≡ false
    → second.query (bytes "upload_id") ≡ (generate_etag s.store).0
    → second.body ≡ some content
    → third.query (bytes "alt") ≡ bytes "media"
    → let t = (handle_resumable_init s first bucket).1 in
      let (answer, u) = handle_resumable_chunk digests quote now t second in
      let meta =
        new_object digests now bucket
          (upload_name first)
          (type_of (begun first bucket) second)
          content in
      (answer ≡ object_answer meta)
      × ((handle_get_object u third bucket (upload_name first)).0 ≡ media meta content)
      × ((j : Str)
          → lookup j u.resumables
            ≡ (if str_eq (generate_etag s.store).0 j then none else lookup j s.resumables))
unfolding generate_etag get_bucket begun handle_get_object
handle_resumable_chunk-init digests quote now s first second third bucket b objs content held listed
      named id read alt =
    let t : Service = record {
      store = (generate_etag s.store).1;
      resumables = insert (generate_etag s.store).0 (begun first bucket) s.resumables;
    } in
    let (answered, stored, others) =
      chunk_stored digests quote now t second (begun first bucket) content (generate_etag s.store).0
        objs id (upload_id_filled s.store)
        (lookup-insert_self (generate_etag s.store).0 (begun first bucket) s.resumables) read
        (has_key-some bucket s.store.buckets b held) listed in
    rw (init_resumables s first bucket named) (
      answered,
      rw (handle_get_object, stored, alt, str_eq_refl (bytes "media")) refl,
      λ j.
          rw (others j, lookup-insert (generate_etag s.store).0 j (begun first bucket) s.resumables)
            (if_twice (str_eq (generate_etag s.store).0 j) none (some (begun first bucket))
              (lookup j s.resumables)),
    )

drop-whole : (xs ys : Str) → drop (length xs) (xs ++ ys) ≡ ys
drop-whole [] ys = refl
drop-whole (x ∷ xs) ys = drop-whole xs ys

take-whole : (xs ys : Str) → take (length xs) (xs ++ ys) ≡ xs
take-whole [] ys = refl
take-whole (x ∷ xs) ys = ap (λ l. x ∷ l) (take-whole xs ys)

trim_prefix-append : (p w : Str) → trim_prefix p (p ++ w) ≡ w
unfolding trim_prefix
trim_prefix-append p w = rw (has_prefix-append p w) (drop-whole p w)

trim_suffix-append : (p w : Str) → trim_suffix p (w ++ p) ≡ w
unfolding trim_suffix has_suffix
trim_suffix-append p w =
    let rest : length (w ++ p) - length p ≡ length w = omega (arith, length-append w p) in
    rw (rest, drop-whole w p, str_eq_refl p) (take-whole w p)

-- The path of the uploads to a bucket.
abbrev pub upload_path : Str → Str
upload_path bucket = bytes "/upload/storage/v1/b/" ++ bucket ++ bytes "/o"

upload_bucket-upload_path : (bucket : Str) → upload_bucket (upload_path bucket) ≡ bucket
unfolding upload_bucket bytes
upload_bucket-upload_path bucket =
    ap (trim_suffix (bytes "/o"))
      (trim_prefix-append (bytes "/upload/storage/v1/b/") (bucket ++ bytes "/o"))
    ∙ trim_suffix-append (bytes "/o") bucket

literals :
    (str_eq (bytes "resumable") (bytes "media") ≡ false)
    × (str_eq (bytes "resumable") (bytes "multipart") ≡ false)
    × (str_eq (bytes "PUT") (bytes "POST") ≡ false)
unfolding str_eq bytes
literals = (refl, refl, refl)

module _ (digests : Digests) (quote : Str → Str) (now : Str) (s : Service) (r : Request)
    (bucket : Str) where
  upload_gone :
      r.path ≡ upload_path bucket
      → get_bucket s.store bucket ≡ none
      → handle_upload digests quote now s r
        ≡ (write_not_found (bytes "The specified bucket does not exist: " ++ bucket), s)
  unfolding handle_upload
  upload_gone path gone =
      let at : upload_bucket r.path ≡ bucket =
        ap upload_bucket path ∙ upload_bucket-upload_path bucket in
      rw (handle_upload, at, gone, at) refl

  upload_reached :
      (b : Bucket)
      → r.path ≡ upload_path bucket
      → r.method ≡ bytes "PUT"
      → r.query (bytes "uploadType") ≡ bytes "resumable"
      → get_bucket s.store bucket ≡ some b
      → handle_upload digests quote now s r ≡ handle_resumable_chunk digests quote now s r
  unfolding handle_upload resumable_upload
  upload_reached b path put kind held =
      let at : upload_bucket r.path ≡ bucket =
        ap upload_bucket path ∙ upload_bucket-upload_path bucket in
      let (no_media, no_multipart, no_post) = literals in
      let kind_is : (w : Str)
          → str_eq (r.query (bytes "uploadType")) w ≡ str_eq (bytes "resumable") w =
        λ w. ap (λ k. str_eq k w) kind in
      let method_is : (w : Str) → str_eq r.method w ≡ str_eq (bytes "PUT") w =
        λ w. ap (λ k. str_eq k w) put in
      rw
        (
          handle_upload,
          at,
          held,
          kind_is (bytes "media") ∙ no_media,
          kind_is (bytes "multipart") ∙ no_multipart,
          kind_is (bytes "resumable") ∙ str_eq_refl (bytes "resumable"),
          resumable_upload,
          method_is (bytes "POST") ∙ no_post,
          method_is (bytes "PUT") ∙ str_eq_refl (bytes "PUT"),
        )
        refl

-- A PUT of an upload to the path of its bucket is answered with 404 while the bucket is gone, and
-- changes nothing; if the bucket is there again, the same PUT stores what was received and sent,
-- once, and ends the upload and no other.
pub handle_upload_recovers :
    (digests : Digests) (quote : Str → Str) (now : Str) (s : Service) (r : Request) (ru : Upload)
    (chunk : List ℕ) (later : Store) (b : Bucket) (objs : Dict StoredObject)
    → r.path ≡ upload_path ru.bucket
    → r.method ≡ bytes "PUT"
    → r.query (bytes "uploadType") ≡ bytes "resumable"
    → str_eq (r.query (bytes "upload_id")) [] ≡ false
    → lookup (r.query (bytes "upload_id")) s.resumables ≡ some ru
    → r.body ≡ some chunk
    → get_bucket s.store ru.bucket ≡ none
    → get_bucket later ru.bucket ≡ some b
    → lookup ru.bucket later.objects ≡ some objs
    → let (answer, t) = handle_upload digests quote now s r in
      let (last, u) = handle_upload digests quote now (record t { store = later }) r in
      let meta = new_object digests now ru.bucket ru.name (type_of ru r) (ru.received ++ chunk) in
      (answer ≡ write_not_found (bytes "The specified bucket does not exist: " ++ ru.bucket))
      × (t ≡ s)
      × (last ≡ object_answer meta)
      × (get_object u.store ru.bucket ru.name
          ≡ some (record { meta = meta; content = ru.received ++ chunk }))
      × ((j : Str)
          → lookup j u.resumables
            ≡ (if str_eq (r.query (bytes "upload_id")) j then none else lookup j s.resumables))
handle_upload_recovers digests quote now s r ru chunk later b objs path put kind filled found read
      gone held listed =
    let again : Service = record s { store = later } in
    let stored =
      chunk_stored digests quote now again r ru chunk (r.query (bytes "upload_id")) objs refl filled
        found read (unfold get_bucket in has_key-some ru.bucket later.buckets b held) listed in
    rw
      (
        upload_gone digests quote now s r ru.bucket path gone,
        upload_reached digests quote now again r ru.bucket b path put kind held,
      )
      (refl, refl, stored.0, stored.1, stored.2)
