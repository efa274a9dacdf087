-- ===== src/Firestore/Persistence.antt =====
-- internal/firestore/store.go: `persist` and `load`. The JSON text of a document is protojson's,
-- given by two functions: the text of its "fields", if it has any, and the fields of a text.
use blitzy_localgcp.Base.{
  List, [], ◌∷◌, ◌++◌, Option, none, some, Str, bytes, str_eq, Dict, insert, if◌then◌else◌, Result,
  ok, err,
}
use blitzy_localgcp.Firestore.Data.{Value, StoredDocument, PersistedDoc, Store}

-- `marshal` gives the text of the "fields" of the JSON of a document, if that has the key.
pub record ProtoJson : Type 0 where
  pub marshal : Option (Dict Value) → Result Str (Option Str)
  pub unmarshal : Str → Result Str (Option (Dict Value))

module _ (codec : ProtoJson) where
  unfoldable pub marshal_fields : Option (Dict Value) → Str
  marshal_fields fields = elim (codec.marshal fields) [
    | err e ↦ []
    | ok none ↦ bytes "{}"
    | ok (some text) ↦ text
  ]

  unfoldable pub unmarshal_fields : Str → Result Str (Option (Dict Value))
  unmarshal_fields [] = ok none
  unmarshal_fields (b ∷ text) = codec.unmarshal (bytes "{\"fields\":" ++ (b ∷ text) ++ bytes "}")

  unfoldable pub persist_docs : Dict StoredDocument → List PersistedDoc
  unfolding marshal_fields
  persist_docs [] = []
  persist_docs ((name, sd) ∷ rest) =
      (record {
        name = name;
        fields = marshal_fields sd.fields;
        create_time = sd.create_time;
        update_time = sd.update_time;
      })
      ∷ persist_docs rest

  unfoldable pub persist : Store → Store
  unfolding persist_docs
  persist s = if str_eq s.dir [] then s else record s { disk = some (persist_docs s.docs) }

  -- A document whose fields do not parse is left out.
  unfoldable pub load_docs : List PersistedDoc → Dict StoredDocument → Dict StoredDocument
  unfolding unmarshal_fields
  load_docs [] docs = docs
  load_docs (pd ∷ rest) docs = load_docs rest (elim (unmarshal_fields pd.fields) [
    | err e ↦ docs
    | ok fields ↦
        let sd : StoredDocument = record {
          fields = fields;
          create_time = pd.create_time;
          update_time = pd.update_time;
        } in
        insert pd.name sd docs
  ])

  unfoldable pub load : Store → Store
  unfolding load_docs
  load s = elim s.disk [ none ↦ s | some state ↦ record s { docs = load_docs state s.docs } ]
