-- ===== src/PubSub.antt =====
-- internal/pubsub/store.go: the operations of the store.
pub mod Data
pub mod Persistence
pub mod Messages
pub mod Delivery
pub mod Leases
pub mod Calls
pub mod Keys
pub mod Histories
pub mod Orphans
pub mod Publishing
pub mod Acknowledging
pub mod Push
pub mod Service
pub mod Pushing
mod DeadLetters
pub mod Examples
use blitzy_localgcp.Base.{
  ℕ, ◌+◌, ◌%◌, ◌^◌, List, [], ◌∷◌, ◌++◌, Option, none, some, Bool, true, false, Str, bytes, str_eq,
  has_prefix, Dict, lookup, insert, erase, alter, has_key, values, if◌then◌else◌, Result, ok, err,
  format_int64, sort_by_name, select, ℤ, pos, int_leb, not,
}
use blitzy_localgcp.PubSub.Data.{
  Topic, Subscription, SubscriptionConfig, Message, MessageInput, Store,
}
use blitzy_localgcp.PubSub.Persistence.{persist, ensure}
use blitzy_localgcp.PubSub.Messages.{
  fan_out, candidates, by_id, leased, pushed, at_most, changed, write_back, acknowledge_all,
  redeadline_all,
}

-- The text of the error is left out: a handler reads in it only which of these it is.
pub data Error : Type 0 where
  topic_exists topic_not_found subscription_exists subscription_not_found : Str → Error

abbrev pub Outcome : Type 0 → Type 0
Outcome A = Result Error A × Store

pub deleted_topic : Str
deleted_topic = bytes "_deleted-topic_"

pub create_topic : Store → Str → Dict Str → Outcome Topic
create_topic s name labels =
    let t : Topic = record { name = name; labels = labels } in
    if has_key name s.topics then (err (topic_exists name), s) else (
      ok t,
      persist (record s { topics = insert name t s.topics; topic_subs = ensure name s.topic_subs }),
    )

pub get_topic : Store → Str → Option Topic
get_topic s name = lookup name s.topics

pub list_topics : Store → Str → List Topic
list_topics s project =
    let prefix = bytes "projects/" ++ project ++ bytes "/topics/" in
    sort_by_name (λ t. t.name) (select (λ t. has_prefix t.name prefix) (values s.topics))

-- The subscriptions of the set lose their topic.
pub orphan : Dict (Unit {0}) → Dict Subscription → Dict Subscription
orphan [] m = m
orphan ((sub_name, _) ∷ rest) m =
    orphan rest (alter sub_name (λ sub. record sub { topic = deleted_topic }) m)

pub delete_topic : Store → Str → Outcome (Unit {0})
unfolding orphan
delete_topic s name =
    let t : Store = record s { topics = erase name s.topics } in
    let u : Store = elim (lookup name s.topic_subs) [
      | none ↦ t
      | some subs ↦ record t {
        subscriptions = orphan subs t.subscriptions;
        topic_subs = erase name t.topic_subs;
      }
    ] in
    if has_key name s.topics then (ok tt, persist u) else (err (topic_not_found name), s)

pub new_subscription : SubscriptionConfig → Subscription
new_subscription cfg = record {
  name = cfg.name;
  topic = cfg.topic;
  ack_deadline_seconds =
      if int_leb cfg.ack_deadline_seconds (pos 0) then pos 10 else cfg.ack_deadline_seconds;
  push_endpoint = cfg.push_endpoint;
  dead_letter_topic = cfg.dead_letter_topic;
  max_delivery_attempts = cfg.max_delivery_attempts;
}

pub create_subscription : Store → SubscriptionConfig → Outcome Subscription
unfolding new_subscription
create_subscription s cfg =
    let sub = new_subscription cfg in
    if has_key cfg.name s.subscriptions
    then (err (subscription_exists cfg.name), s)
    else if has_key cfg.topic s.topics
    then (
      ok sub,
      persist (record s {
        subscriptions = insert cfg.name sub s.subscriptions;
        messages = insert cfg.name [] s.messages;
        topic_subs = alter cfg.topic (insert cfg.name tt) (ensure cfg.topic s.topic_subs);
      }),
    )
    else (err (topic_not_found cfg.topic), s)

pub get_subscription : Store → Str → Option Subscription
get_subscription s name = lookup name s.subscriptions

pub list_subscriptions : Store → Str → List Subscription
list_subscriptions s project =
    let prefix = bytes "projects/" ++ project ++ bytes "/subscriptions/" in
    sort_by_name (λ sub. sub.name)
      (select (λ sub. has_prefix sub.name prefix) (values s.subscriptions))

pub delete_subscription : Store → Str → Outcome (Unit {0})
delete_subscription s name = elim (lookup name s.subscriptions) [
  | none ↦ (err (subscription_not_found name), s)
  | some sub ↦ (
    ok tt,
    persist (record s {
      topic_subs = alter sub.topic (erase name) s.topic_subs;
      subscriptions = erase name s.subscriptions;
      messages = erase name s.messages;
    }),
  )
]

-- One message of a call of Publish: the next identifier, and the message to every subscription of
-- the topic.
pub publish_one : ℕ → Str → MessageInput → Store → Str × Store
publish_one now topic_name input s =
    let n = (s.msg_counter + 1) % 2 ^ 64 in
    let id = format_int64 n in
    let counted : Store = record s { msg_counter = n } in
    elim (lookup topic_name s.topic_subs) [
      | none ↦ (id, counted)
      | some subs ↦
          (id, record counted { messages = fan_out now id input s.subscriptions subs s.messages })
    ]

pub publish_all : ℕ → Str → List MessageInput → Store → List Str × Store
unfolding publish_one
publish_all now topic_name [] s = ([], s)
publish_all now topic_name (input ∷ rest) s =
    let (id, t) = publish_one now topic_name input s in
    let (ids, u) = publish_all now topic_name rest t in (id ∷ ids, u)

pub publish : Store → ℕ → Str → List MessageInput → Outcome (List Str)
unfolding publish_all
publish s now topic_name msgs =
    let (ids, t) = publish_all now topic_name msgs s in
    if has_key topic_name s.topics
    then (ok ids, persist t)
    else (err (topic_not_found topic_name), s)

pub pull : Store → ℕ → Str → ℤ → Outcome (List Message)
pull s now sub_name max_messages = elim (lookup sub_name s.subscriptions) [
  | none ↦ (err (subscription_not_found sub_name), s)
  | some sub ↦ (elim (lookup sub_name s.messages) [
    | none ↦ (ok [], s)
    | some msgs ↦
        let taken = at_most max_messages 0 (by_id (candidates now msgs)) in
        (
          ok (changed (leased now sub) taken),
          persist (record s {
            messages = alter sub_name (write_back (leased now sub) taken) s.messages;
          }),
        )
  ])
]

-- A change of the messages of a subscription that exists and has messages.
pub on_messages : Store → Str → (Dict Message → Dict Message) → Outcome (Unit {0})
on_messages s sub_name change =
    if has_key sub_name s.subscriptions
    then (if has_key sub_name s.messages
        then (ok tt, persist (record s { messages = alter sub_name change s.messages }))
        else (ok tt, s))
    else (err (subscription_not_found sub_name), s)

pub acknowledge : Store → Str → List Str → Outcome (Unit {0})
unfolding on_messages
acknowledge s sub_name ack_ids = on_messages s sub_name (acknowledge_all ack_ids)

pub modify_ack_deadline : Store → ℕ → Str → List Str → ℤ → Outcome (Unit {0})
unfolding on_messages
modify_ack_deadline s now sub_name ack_ids secs =
    on_messages s sub_name (redeadline_all now secs ack_ids)

pub push_subscriptions : Store → List Subscription
push_subscriptions s = select (λ sub. not (str_eq sub.push_endpoint [])) (values s.subscriptions)

-- The store is not saved.
pub pull_all_undelivered : Store → ℕ → Str → List Message × Store
pull_all_undelivered s now sub_name = elim (lookup sub_name s.subscriptions) [
  | none ↦ ([], s)
  | some sub ↦ (elim (lookup sub_name s.messages) [
    | none ↦ ([], s)
    | some msgs ↦
        let taken = by_id (candidates now msgs) in
        (
          changed (pushed now sub) taken,
          record s { messages = alter sub_name (write_back (pushed now sub) taken) s.messages },
        )
  ])
]

pub as_input : Message → MessageInput
as_input m = record {
  payload = m.payload;
  attributes = m.attributes;
  ordering_key = m.ordering_key;
}

-- The message goes to the subscriptions of the dead letter topic, and leaves its own.
pub forward : Store → ℕ → Str → Subscription → Message → Store
unfolding as_input
forward s now sub_name sub m =
    let n = (s.msg_counter + 1) % 2 ^ 64 in
    let all : Dict (Dict Message) = elim (lookup sub.dead_letter_topic s.topic_subs) [
      | none ↦ s.messages
      | some subs ↦ fan_out now (format_int64 n) (as_input m) s.subscriptions subs s.messages
    ] in
    persist (record s { msg_counter = n; messages = alter sub_name (erase m.ack_id) all })

pub forward_to_dead_letter : Store → ℕ → Str → Str → Bool × Store
unfolding forward
forward_to_dead_letter s now sub_name ack_id = elim (lookup sub_name s.subscriptions) [
  | none ↦ (false, s)
  | some sub ↦
      if str_eq sub.dead_letter_topic [] then (false, s) else (elim (lookup sub_name s.messages) [
        | none ↦ (false, s)
        | some msgs ↦ (elim (lookup ack_id msgs) [
          | none ↦ (false, s)
          | some m ↦
              if has_key sub.dead_letter_topic s.topics
              then (true, forward s now sub_name sub m)
              else (false, s)
        ])
      ])
]
