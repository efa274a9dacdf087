-- ===== src/PubSub/Data.antt =====
-- internal/pubsub/store.go: the records of the store and of its file. An int32 is given by its
-- value, a time in nanoseconds from the zero time of Go.
use blitzy_localgcp.Base.{ℕ, ℤ, List, Option, Bool, Str, Dict}

pub record Topic : Type 0 where
  pub name : Str
  pub labels : Dict Str

pub record Subscription : Type 0 where
  pub name : Str
  pub topic : Str
  pub ack_deadline_seconds : ℤ
  pub push_endpoint : Str
  pub dead_letter_topic : Str
  pub max_delivery_attempts : ℤ

-- The fields of SubscriptionConfig are those of a subscription.
pub record SubscriptionConfig : Type 0 where
  pub name : Str
  pub topic : Str
  pub ack_deadline_seconds : ℤ
  pub push_endpoint : Str
  pub dead_letter_topic : Str
  pub max_delivery_attempts : ℤ

pub record Message : Type 0 where
  pub id : Str
  pub payload : List ℕ
  pub attributes : Dict Str
  pub publish_time : ℕ
  pub ack_deadline : ℕ
  pub ack_id : Str
  pub delivered : Bool
  pub ordering_key : Str
  pub delivery_attempt : ℤ

pub record MessageInput : Type 0 where
  pub payload : List ℕ
  pub attributes : Dict Str
  pub ordering_key : Str

-- The file keeps no count of the attempts.
pub record PersistedMessage : Type 0 where
  pub id : Str
  pub payload : Str
  pub attributes : Dict Str
  pub publish_time : ℕ
  pub ack_deadline : ℕ
  pub ack_id : Str
  pub delivered : Bool
  pub ordering_key : Str

pub record PersistedState : Type 0 where
  pub topics : List Topic
  pub subscriptions : List Subscription
  pub messages : Dict (List PersistedMessage)
  pub msg_counter : ℕ

-- A set of names is a map to the unit type. The counter is the pattern of an int64.
pub record Store : Type 0 where
  pub topics : Dict Topic
  pub subscriptions : Dict Subscription
  pub topic_subs : Dict (Dict (Unit {0}))
  pub messages : Dict (Dict Message)
  pub msg_counter : ℕ
  pub data_dir : Str
  pub disk : Option PersistedState
