-- ===== src/PubSub/DeadLetters.antt =====
-- internal/pubsub: a pushed message in its last attempt, and the subscription of its dead letters.
use blitzy_localgcp.Base.{ℕ, zero, suc, [], ◌∷◌, none, true, false, bytes, Str, Dict, pos}
use blitzy_localgcp.Dispatch.{Environment, Response, no_answer, answered}
use blitzy_localgcp.PubSub.Data.{Subscription, Message, Store}
use blitzy_localgcp.PubSub.Push.{PushMessage}

abbrev pushed_sub : Subscription
pushed_sub = record {
  name = bytes "s";
  topic = bytes "t";
  ack_deadline_seconds = pos 10;
  push_endpoint = bytes "http://localhost/";
  dead_letter_topic = bytes "d";
  max_delivery_attempts = pos 1;
}

abbrev last_try : Message
last_try = record {
  id = bytes "1";
  payload = 1 ∷ [];
  attributes = [];
  publish_time = 5;
  ack_deadline = 50;
  ack_id = bytes "s:1";
  delivered = true;
  ordering_key = [];
  delivery_attempt = pos 1;
}

abbrev waiting : Dict Message
waiting = (bytes "s:1", last_try) ∷ []

abbrev dead_members : Dict (Unit {0})
dead_members = (bytes "e", tt) ∷ []

abbrev dead_store : Store
dead_store = record {
  topics =
      (bytes "t", (record { name = bytes "t"; labels = [] }))
      ∷ (bytes "d", (record { name = bytes "d"; labels = [] }))
      ∷ [];
  subscriptions =
      (bytes "s", pushed_sub)
      ∷ (
        bytes "e",
        (record pushed_sub { name = bytes "e"; topic = bytes "d"; dead_letter_topic = [] }),
      )
      ∷ [];
  topic_subs = (bytes "t", (bytes "s", tt) ∷ []) ∷ (bytes "d", dead_members) ∷ [];
  messages = (bytes "s", waiting) ∷ [];
  msg_counter = 1;
  data_dir = [];
  disk = none;
}

-- A server that takes no message.
abbrev refusing : ℕ → Response
refusing zero = no_answer
refusing (suc n) = answered 500

abbrev refusing_server : Str → PushMessage → Environment
refusing_server endpoint body = record { builds = true; cancelled = λ n. false; post = refusing }
