-- ===== src/PubSub/Examples.antt =====
-- internal/pubsub: a subscription with two messages, for the theorems of the store.
use blitzy_localgcp.PubSub.Persistence.{persist}
use blitzy_localgcp.Base.{
  ◌++◌, ◌+◌, ◌%◌, ◌^◌, ◌≤◌, ◌≡◌, ◌≢◌, refl, List, [], ◌∷◌, length, none, some, ok, Str, bytes, Dict,
  lookup, insert, has_key, str_eq, add_duration, seconds, pos, true, false, arith, IsMap,
  Everywhere-insert, Everywhere-nil, format_int64, str_ltb, sort_by_name, alter,
}
use blitzy_localgcp.PubSub.Data.{Subscription, Message, MessageInput, Store}
use blitzy_localgcp.PubSub.Messages.{
  ack_id_of, leased, changed, at_most, by_id, candidates, write_back,
}
use blitzy_localgcp.PubSub.Leases.{Among, IsKeyed, pull_twice}
use blitzy_localgcp.PubSub.Acknowledging.{IsListed, acknowledge_lem}
use blitzy_localgcp.PubSub.Calls.{
  Call, subscribe, publish_on, pull_from, redeadline_in, dead_letter, acknowledge_in, drop_topic,
  run,
}
use blitzy_localgcp.PubSub.Histories.{HasQueues, run-HasQueues}
use blitzy_localgcp.Base.{ℕ, err}
use blitzy_localgcp.PubSub.Orphans.{orphaned, delete_topic_lem}
use blitzy_localgcp.PubSub.{get_subscription, delete_topic, topic_not_found}
use blitzy_localgcp.PubSub.Publishing.{message_at, publish_reaches}
use blitzy_localgcp.PubSub.{publish, pull, acknowledge}

abbrev the_sub : Subscription
the_sub = record {
  name = bytes "s";
  topic = bytes "t";
  ack_deadline_seconds = pos 10;
  push_endpoint = [];
  dead_letter_topic = [];
  max_delivery_attempts = pos 0;
}

abbrev message_of : Str → Str → Message
message_of id ack_id = record {
  id = id;
  payload = 1 ∷ [];
  attributes = [];
  publish_time = 5;
  ack_deadline = 0;
  ack_id = ack_id;
  delivered = false;
  ordering_key = [];
  delivery_attempt = pos 0;
}

abbrev two_messages : Dict Message
two_messages =
    insert (bytes "s:1") (message_of (bytes "1") (bytes "s:1"))
      (insert (bytes "s:2") (message_of (bytes "2") (bytes "s:2")) [])

abbrev the_store : Store
the_store = record {
  topics = (bytes "t", (record { name = bytes "t"; labels = [] })) ∷ [];
  subscriptions = (bytes "s", the_sub) ∷ [];
  topic_subs = (bytes "t", (bytes "s", tt) ∷ []) ∷ [];
  messages = (bytes "s", two_messages) ∷ [];
  msg_counter = 2;
  data_dir = [];
  disk = none;
}

the_topic : has_key (bytes "t") the_store.topics ≡ true
unfolding has_key str_eq bytes
the_topic = refl

abbrev the_members : Dict (Unit {0})
the_members = (bytes "s", tt) ∷ []

the_index : lookup (bytes "t") the_store.topic_subs ≡ some the_members
unfolding lookup str_eq bytes
the_index = refl

the_member : has_key (bytes "s") the_members ≡ true
unfolding has_key str_eq bytes
the_member = refl

the_live : has_key (bytes "s") the_store.subscriptions ≡ true
unfolding has_key str_eq bytes
the_live = refl

the_queued : lookup (bytes "s") the_store.messages ≡ some two_messages
unfolding lookup str_eq bytes
the_queued = refl

the_subscribed : lookup (bytes "s") the_store.subscriptions ≡ some the_sub
unfolding lookup str_eq bytes
the_subscribed = refl

two_messages-IsMap : IsMap two_messages
unfolding insert lookup str_eq bytes
two_messages-IsMap = (refl, (refl, tt))

two_messages-IsKeyed : IsKeyed two_messages
two_messages-IsKeyed =
    Everywhere-insert (bytes "s:1") (message_of (bytes "1") (bytes "s:1"))
      (insert (bytes "s:2") (message_of (bytes "2") (bytes "s:2")) []) refl
      (Everywhere-insert (bytes "s:2") (message_of (bytes "2") (bytes "s:2")) [] refl
        Everywhere-nil)

abbrev first_lease : List Message
first_lease = leased 20 the_sub (message_of (bytes "1") (bytes "s:1")) ∷ []

abbrev second_lease : List Message
second_lease = leased 30 the_sub (message_of (bytes "2") (bytes "s:2")) ∷ []

abbrev after_first : Store
after_first = (pull the_store 20 (bytes "s") (pos 1)).1

first_pull : pull the_store 20 (bytes "s") (pos 1) ≡ (ok first_lease, after_first)
unfolding pull lookup str_eq bytes changed at_most by_id sort_by_name candidates insert str_ltb
first_pull = refl

second_pull :
    pull after_first 30 (bytes "s") (pos 5)
    ≡ (ok second_lease, (pull after_first 30 (bytes "s") (pos 5)).1)
unfolding pull lookup str_eq bytes persist alter changed at_most by_id sort_by_name candidates
    write_back insert str_ltb leased add_duration seconds
second_pull = refl

early : 30 ≤ add_duration 20 (seconds (pos 10))
unfolding add_duration seconds
early = omega arith

pull_twice_example :
    (length first_lease ≤ 1)
    × ((m n : Message) → Among m first_lease → Among n second_lease → m.ack_id ≢ n.ack_id)
pull_twice_example =
    pull_twice the_store after_first (pull after_first 30 (bytes "s") (pos 5)).1 (bytes "s") the_sub
      two_messages 20 30 1 (pos 5) first_lease second_lease the_subscribed the_queued
      two_messages-IsMap two_messages-IsKeyed first_pull second_pull early

abbrev the_input : MessageInput
the_input = record { payload = 4 ∷ []; attributes = []; ordering_key = [] }

publish_reaches_example :
    let id = format_int64 ((2 + 1) % 2 ^ 64) in
    let (answer, t) = publish the_store 40 (bytes "t") (the_input ∷ []) in
    (answer ≡ ok (id ∷ []))
    × (message_at t.messages (bytes "s") (ack_id_of (bytes "s") id)
        ≡ some (record {
          id = id;
          payload = 4 ∷ [];
          attributes = [];
          publish_time = 40;
          ack_deadline = 0;
          ack_id = bytes "s" ++ bytes ":" ++ id;
          delivered = false;
          ordering_key = [];
          delivery_attempt = pos 0;
        }))
    × ((j k : Str)
        → ack_id_of j id ≢ k
        → message_at t.messages j k ≡ message_at the_store.messages j k)
publish_reaches_example =
    publish_reaches the_store 40 (bytes "t") (bytes "s") the_input the_members the_topic the_index
      the_member the_live

acknowledge_lem_example :
    let (answer, t) = acknowledge the_store (bytes "s") (bytes "s:1" ∷ []) in
    (answer ≡ ok tt)
    × ((k : Str) → IsListed k (bytes "s:1" ∷ []) → message_at t.messages (bytes "s") k ≡ none)
    × ((k : Str)
        → (IsListed k (bytes "s:1" ∷ []) → ⊥)
        → message_at t.messages (bytes "s") k ≡ message_at the_store.messages (bytes "s") k)
    × ((j k : Str)
        → str_eq (bytes "s") j ≡ false
        → message_at t.messages j k ≡ message_at the_store.messages j k)
acknowledge_lem_example =
    acknowledge_lem the_store (bytes "s") (bytes "s:1" ∷ []) two_messages the_live the_queued

the_store-HasQueues : HasQueues the_store
unfolding insert
the_store-HasQueues =
    Everywhere-insert (bytes "s") two_messages []
      (record { distinct = two_messages-IsMap; keyed = two_messages-IsKeyed }) Everywhere-nil

-- A second subscription, a message to both, a lease, a message given back, and a topic that goes.
abbrev the_calls : List Call
the_calls =
    subscribe (record {
      name = bytes "r";
      topic = bytes "t";
      ack_deadline_seconds = pos 0;
      push_endpoint = [];
      dead_letter_topic = bytes "t";
      max_delivery_attempts = pos 5;
    })
    ∷ publish_on 50 (bytes "t") (the_input ∷ [])
    ∷ pull_from 60 (bytes "r") (pos 1)
    ∷ redeadline_in 65 (bytes "r") (bytes "r:3" ∷ []) (pos 0)
    ∷ dead_letter 70 (bytes "r") (bytes "r:3")
    ∷ acknowledge_in (bytes "s") (bytes "s:1" ∷ [])
    ∷ drop_topic (bytes "t")
    ∷ []

run-HasQueues_example : HasQueues (run the_store the_calls)
run-HasQueues_example = run-HasQueues the_store the_calls the_store-HasQueues

delete_topic_lem_example :
    ((k : Str) (sub : Subscription)
      → has_key k the_members ≡ true
      → get_subscription the_store k ≡ some sub
      → get_subscription (delete_topic the_store (bytes "t")).1 k ≡ some (orphaned sub))
    × ((k : Str)
        → has_key k the_members ≡ false
        → get_subscription (delete_topic the_store (bytes "t")).1 k ≡ get_subscription the_store k)
    × ((delete_topic the_store (bytes "t")).1.messages ≡ the_store.messages)
    × ((now : ℕ) (inputs : List MessageInput)
        → publish (delete_topic the_store (bytes "t")).1 now (bytes "t") inputs
          ≡ (err (topic_not_found (bytes "t")), (delete_topic the_store (bytes "t")).1))
delete_topic_lem_example = delete_topic_lem the_store (bytes "t") the_members the_topic the_index
