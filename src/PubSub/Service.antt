-- ===== src/PubSub/Service.antt =====
-- internal/pubsub/service.go: the handlers of the publisher and of the subscriber. An empty text
-- stands for a field that the request leaves out.
use blitzy_localgcp.Base.{
  ℕ, List, [], ◌∷◌, ◌++◌, map, drop, length, Option, none, some, Str, bytes, str_eq, has_prefix,
  contains, Dict, if◌then◌else◌, Result, ok, err, ℤ, pos, int_leb,
}
use blitzy_localgcp.Base.Status.{
  Code, Status, invalid_argument, not_found, already_exists, internal, unimplemented, reject,
}
use blitzy_localgcp.PubSub.Data.{
  Topic, Subscription, SubscriptionConfig, Message, MessageInput, Store,
}
use blitzy_localgcp.PubSub.Push.{Received}
use blitzy_localgcp.PubSub
use blitzy_localgcp.PubSub.{
  Error, topic_exists, topic_not_found, subscription_exists, subscription_not_found,
}

abbrev pub Reply : Type 0 → Type 0
Reply A = Result Status A × Store

pub record DeadLetterPolicy : Type 0 where
  pub dead_letter_topic : Str
  pub max_delivery_attempts : ℤ

-- `push_config` is the endpoint.
pub record SubscriptionMessage : Type 0 where
  pub name : Str
  pub topic : Str
  pub ack_deadline_seconds : ℤ
  pub push_config : Option Str
  pub dead_letter_policy : Option DeadLetterPolicy

unfoldable pub subscription_to_proto : Subscription → SubscriptionMessage
subscription_to_proto sub = record {
  name = sub.name;
  topic = sub.topic;
  ack_deadline_seconds = sub.ack_deadline_seconds;
  push_config = if str_eq sub.push_endpoint [] then none else some sub.push_endpoint;
  dead_letter_policy =
      if str_eq sub.dead_letter_topic []
      then none
      else some (record {
        dead_letter_topic = sub.dead_letter_topic;
        max_delivery_attempts = sub.max_delivery_attempts;
      });
}

unfoldable pub config_of : SubscriptionMessage → SubscriptionConfig
config_of req = record {
  name = req.name;
  topic = req.topic;
  ack_deadline_seconds = req.ack_deadline_seconds;
  push_endpoint = elim req.push_config [ none ↦ [] | some endpoint ↦ endpoint ];
  dead_letter_topic = elim req.dead_letter_policy [ none ↦ [] | some p ↦ p.dead_letter_topic ];
  max_delivery_attempts = elim req.dead_letter_policy [
    | none ↦ pos 0
    | some p ↦ p.max_delivery_attempts
  ];
}

-- strings.TrimPrefix(project, "projects/")
unfoldable pub project_id : Str → Str
project_id project =
    if has_prefix project (bytes "projects/")
    then drop (length (bytes "projects/")) project
    else project

unfoldable pub received : Message → Received
received m = record {
  ack_id = m.ack_id;
  message_id = m.id;
  payload = m.payload;
  attributes = m.attributes;
  publish_time = m.publish_time;
  ordering_key = some m.ordering_key;
}

unfoldable pub unsupported : {A : Type 0} → Str → Result Status A
unsupported call = reject unimplemented (bytes "localgcp: " ++ call ++ bytes " not yet supported")

-- `quote` is the verb %q of fmt.
module _ (quote : Str → Str) where
  unfoldable pub error_text : Error → Str
  error_text (topic_exists name) = bytes "already exists: topic " ++ quote name
  error_text (topic_not_found name) = bytes "not found: topic " ++ quote name
  error_text (subscription_exists name) = bytes "already exists: subscription " ++ quote name
  error_text (subscription_not_found name) = bytes "not found: subscription " ++ quote name

  abbrev pub answer : {A B : Type 0} → (Str → Status) → (A → B) → Result Error A × Store → Reply B
  answer status f (ok a, s) = (ok (f a), s)
  answer status f (err e, s) = (err (status (error_text e)), s)

  -- The status of an error whose text has `part`, and of any other.
  unfoldable pub status_if : Str → Code → Str → Str → Status
  status_if part code message text =
      if contains text part
      then record { code = code; message = message }
      else record { code = internal; message = text }

  unfoldable pub missing : Str → Str → Str → Status
  unfolding status_if
  missing kind name text = status_if (bytes "not found") not_found (kind ++ name) text

  unfoldable pub subscription_error : Str → Str → Str → Status
  unfolding missing
  subscription_error name topic text =
      if contains text (bytes "already exists")
      then record { code = already_exists; message = bytes "Subscription already exists: " ++ name }
      else missing (bytes "Topic not found: ") topic text

  -- A guard on a field, and then the call.
  abbrev pub guarded : {A : Type 0} → Store → Str → Str → Reply A → Reply A
  guarded s field message reply =
      if str_eq field [] then (reject invalid_argument message, s) else reply

  unfoldable pub create_topic : Store → Str → Dict Str → Reply Topic
  unfolding status_if
  create_topic s name labels = guarded s name (bytes "topic name is required") (
      answer
        (status_if (bytes "already exists") already_exists (bytes "Topic already exists: " ++ name))
        (λ t. t) (PubSub.create_topic s name labels))

  unfoldable pub get_topic : Store → Str → Reply Topic
  get_topic s name =
      guarded s name (bytes "topic name is required") (elim (PubSub.get_topic s name) [
        | none ↦ (reject not_found (bytes "Topic not found: " ++ name), s)
        | some t ↦ (ok t, s)
      ])

  unfoldable pub list_topics : Store → Str → Reply (List Topic)
  unfolding project_id
  list_topics s project =
      guarded s project (bytes "project is required")
        (ok (PubSub.list_topics s (project_id project)), s)

  unfoldable pub delete_topic : Store → Str → Reply (Unit {0})
  unfolding missing
  delete_topic s name =
      guarded s name (bytes "topic name is required")
        (answer (missing (bytes "Topic not found: ") name) (λ u. u) (PubSub.delete_topic s name))

  unfoldable pub publish : Store → ℕ → Str → List MessageInput → Reply (List Str)
  unfolding missing
  publish s now topic messages = guarded s topic (bytes "topic is required") (elim messages [
    | [] ↦ (reject invalid_argument (bytes "messages are required"), s)
    | m ∷ ms ↦
        answer (missing (bytes "Topic not found: ") topic) (λ ids. ids)
          (PubSub.publish s now topic (m ∷ ms))
  ])

  unfoldable pub create_subscription : Store → SubscriptionMessage → Reply SubscriptionMessage
  unfolding subscription_error config_of subscription_to_proto
  create_subscription s req = guarded s req.name (bytes "subscription name is required") (
      guarded s req.topic (bytes "topic is required") (
        answer (subscription_error req.name req.topic) subscription_to_proto
          (PubSub.create_subscription s (config_of req))))

  unfoldable pub get_subscription : Store → Str → Reply SubscriptionMessage
  unfolding subscription_to_proto
  get_subscription s name =
      guarded s name (bytes "subscription name is required")
        (elim (PubSub.get_subscription s name) [
          | none ↦ (reject not_found (bytes "Subscription not found: " ++ name), s)
          | some sub ↦ (ok (subscription_to_proto sub), s)
        ])

  unfoldable pub list_subscriptions : Store → Str → Reply (List SubscriptionMessage)
  unfolding project_id subscription_to_proto
  list_subscriptions s project =
      guarded s project (bytes "project is required")
        (ok (map subscription_to_proto (PubSub.list_subscriptions s (project_id project))), s)

  unfoldable pub delete_subscription : Store → Str → Reply (Unit {0})
  unfolding missing
  delete_subscription s name = guarded s name (bytes "subscription name is required") (
      answer (missing (bytes "Subscription not found: ") name) (λ u. u)
        (PubSub.delete_subscription s name))

  unfoldable pub pull : Store → ℕ → Str → ℤ → Reply (List Received)
  unfolding missing received
  pull s now name max_messages = guarded s name (bytes "subscription is required") (
      answer (missing (bytes "Subscription not found: ") name) (map received)
        (PubSub.pull s now name (if int_leb max_messages (pos 0) then pos 100 else max_messages)))

  unfoldable pub acknowledge : Store → Str → List Str → Reply (Unit {0})
  unfolding missing
  acknowledge s name ack_ids = guarded s name (bytes "subscription is required") (
      answer (missing (bytes "Subscription not found: ") name) (λ u. u)
        (PubSub.acknowledge s name ack_ids))

  unfoldable pub modify_ack_deadline : Store → ℕ → Str → List Str → ℤ → Reply (Unit {0})
  unfolding missing
  modify_ack_deadline s now name ack_ids deadline =
      guarded s name (bytes "subscription is required") (
        answer (missing (bytes "Subscription not found: ") name) (λ u. u)
          (PubSub.modify_ack_deadline s now name ack_ids deadline))
