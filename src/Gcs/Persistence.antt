-- ===== src/Gcs/Persistence.antt =====
-- internal/gcs/store.go: `persist` and `load`. The JSON text of the file stands for the value that it
-- encodes; base64 is modelled.
use blitzy_localgcp.Base.{
  ℕ, List, [], ◌∷◌, Option, none, some, Str, str_eq, Dict, has_key, insert, alter, values,
  if◌then◌else◌, base64_encode, base64_decode,
}
use blitzy_localgcp.Gcs.Data.{Bucket, StoredObject, PersistedObj, PersistedState, Store}

unfoldable pub persist_objects : Dict StoredObject → List PersistedObj
persist_objects [] = []
persist_objects ((name, so) ∷ rest) =
    (record { meta = so.meta; content = base64_encode so.content }) ∷ persist_objects rest

unfoldable pub persist_buckets : Dict (Dict StoredObject) → Dict (List PersistedObj)
unfolding persist_objects
persist_buckets [] = []
persist_buckets ((bucket, objs) ∷ rest) = (bucket, persist_objects objs) ∷ persist_buckets rest

unfoldable pub persist : Store → Store
unfolding persist_buckets
persist s = if str_eq s.data_dir [] then s else record s {
  disk = some (record { buckets = values s.buckets; objects = persist_buckets s.objects });
}

unfoldable pub ensure : Str → Dict (Dict StoredObject) → Dict (Dict StoredObject)
ensure bucket objects = if has_key bucket objects then objects else insert bucket [] objects

unfoldable pub load_buckets : List Bucket → Store → Store
unfolding ensure
load_buckets [] s = s
load_buckets (b ∷ bs) s =
    load_buckets bs
      (record s { buckets = insert b.name b s.buckets; objects = ensure b.name s.objects })

-- An object whose content is not base64 is left out.
unfoldable pub load_objects : List PersistedObj → Dict StoredObject → Dict StoredObject
load_objects [] objs = objs
load_objects (po ∷ rest) objs = load_objects rest (elim (base64_decode po.content) [
  | none ↦ objs
  | some content ↦ insert po.meta.name (record { meta = po.meta; content = content }) objs
])

unfoldable pub load_all :
    Dict (List PersistedObj) → Dict (Dict StoredObject) → Dict (Dict StoredObject)
unfolding ensure load_objects
load_all [] objects = objects
load_all ((bucket, objs) ∷ rest) objects =
    load_all rest (alter bucket (load_objects objs) (ensure bucket objects))

unfoldable pub load : Store → Store
unfolding load_buckets load_all
load s = elim s.disk [
  | none ↦ s
  | some state ↦
      let t = load_buckets state.buckets s in
      record t { objects = load_all state.objects t.objects }
]

unfoldable pub new_store : Str → Option PersistedState → ℕ → Store
unfolding load
new_store data_dir disk etag_counter =
    let s : Store = record {
      buckets = [];
      objects = [];
      data_dir = data_dir;
      etag_counter = etag_counter;
      disk = disk;
    } in
    if str_eq data_dir [] then s else load s
