-- ===== src/PubSub/Persistence.antt =====
-- internal/pubsub/store.go: `persist` and `load`. The JSON text of the file stands for the value
-- that it encodes; base64 is modelled.
use blitzy_localgcp.Base.{
  ℕ, List, [], ◌∷◌, Option, none, some, Str, bytes, str_eq, Dict, insert, has_key, alter, values,
  if◌then◌else◌, base64_encode, base64_decode, pos,
}
use blitzy_localgcp.PubSub.Data.{
  Topic, Subscription, Message, PersistedMessage, PersistedState, Store,
}

persist_message : Message → PersistedMessage
persist_message m = record {
  id = m.id;
  payload = base64_encode m.payload;
  attributes = m.attributes;
  publish_time = m.publish_time;
  ack_deadline = m.ack_deadline;
  ack_id = m.ack_id;
  delivered = m.delivered;
  ordering_key = m.ordering_key;
}

persist_queue : Dict Message → List PersistedMessage
unfolding persist_message
persist_queue [] = []
persist_queue ((k, m) ∷ rest) = persist_message m ∷ persist_queue rest

persist_queues : Dict (Dict Message) → Dict (List PersistedMessage)
unfolding persist_queue
persist_queues [] = []
persist_queues ((k, q) ∷ rest) = (k, persist_queue q) ∷ persist_queues rest

unfoldable pub persist : Store → Store
unfolding persist_queues
persist s = if str_eq s.data_dir [] then s else record s {
  disk = some (record {
    topics = values s.topics;
    subscriptions = values s.subscriptions;
    messages = persist_queues s.messages;
    msg_counter = s.msg_counter;
  });
}

-- A key that the map lacks gets an empty map.
unfoldable pub ensure {ℓ} : {V : Type ℓ} → Str → Dict (Dict V) → Dict (Dict V)
ensure k m = if has_key k m then m else insert k [] m

load_topics : List Topic → Store → Store
unfolding ensure
load_topics [] s = s
load_topics (t ∷ ts) s =
    load_topics ts
      (record s { topics = insert t.name t s.topics; topic_subs = ensure t.name s.topic_subs })

-- The subscriptions of a deleted topic stay out of the index.
indexed : Subscription → Dict (Dict (Unit {0})) → Dict (Dict (Unit {0}))
unfolding ensure
indexed sub subs =
    if str_eq sub.topic (bytes "_deleted-topic_")
    then subs
    else alter sub.topic (insert sub.name tt) (ensure sub.topic subs)

load_subscriptions : List Subscription → Store → Store
unfolding indexed
load_subscriptions [] s = s
load_subscriptions (sub ∷ subs) s = load_subscriptions subs (record s {
  subscriptions = insert sub.name sub s.subscriptions;
  topic_subs = indexed sub s.topic_subs;
  messages = ensure sub.name s.messages;
})

load_message : PersistedMessage → List ℕ → Message
load_message pm payload = record {
  id = pm.id;
  payload = payload;
  attributes = pm.attributes;
  publish_time = pm.publish_time;
  ack_deadline = pm.ack_deadline;
  ack_id = pm.ack_id;
  delivered = pm.delivered;
  ordering_key = pm.ordering_key;
  delivery_attempt = pos 0;
}

-- A payload that cannot be decoded is skipped.
load_queue : List PersistedMessage → Dict Message → Dict Message
unfolding load_message
load_queue [] q = q
load_queue (pm ∷ pms) q = load_queue pms (elim (base64_decode pm.payload) [
  | none ↦ q
  | some payload ↦ insert pm.ack_id (load_message pm payload) q
])

load_queues : Dict (List PersistedMessage) → Dict (Dict Message) → Dict (Dict Message)
unfolding load_queue ensure
load_queues [] m = m
load_queues ((k, pms) ∷ rest) m = load_queues rest (alter k (load_queue pms) (ensure k m))

unfoldable pub load : Store → Store
unfolding load_topics load_subscriptions load_queues
load s = elim s.disk [
  | none ↦ s
  | some state ↦
      let counted : Store = record s { msg_counter = state.msg_counter } in
      let t = load_subscriptions state.subscriptions (load_topics state.topics counted) in
      record t { messages = load_queues state.messages t.messages }
]

-- The store of a process that starts on a directory, with the file that it finds there.
unfoldable pub new_store : Str → Option PersistedState → Store
unfolding load
new_store data_dir disk =
    let s : Store = record {
      topics = [];
      subscriptions = [];
      topic_subs = [];
      messages = [];
      msg_counter = 0;
      data_dir = data_dir;
      disk = disk;
    } in
    if str_eq data_dir [] then s else load s
