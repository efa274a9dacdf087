-- ===== src/PubSub/Push.antt =====
-- internal/pubsub/service.go: the push of the messages, and the streaming pull.
use blitzy_localgcp.Base.{
  ℕ, List, [], ◌∷◌, ◌++◌, map, Option, none, some, Bool, not, ◌&&◌, Str, bytes, str_eq, Dict,
  if◌then◌else◌, ℤ, pos, int_ltb, int_leb, base64_encode, Result, ok, err,
}
use blitzy_localgcp.Base.Status.{Status, invalid_argument, not_found, failed_precondition, reject}
use blitzy_localgcp.PubSub.Data.{Subscription, Message, Store}
use blitzy_localgcp.PubSub.{
  get_subscription, pull, acknowledge, modify_ack_deadline, push_subscriptions,
  pull_all_undelivered, forward_to_dead_letter,
}
use blitzy_localgcp.Dispatch.{Config, Environment, Result as Dispatched, dispatch}

-- The body of the POST; `publish_time` is written as RFC 3339.
pub record PushMessage : Type 0 where
  pub payload : Str
  pub message_id : Str
  pub attributes : Dict Str
  pub publish_time : ℕ
  pub subscription : Str

unfoldable pub push_body : Subscription → Message → PushMessage
push_body sub m = record {
  payload = base64_encode m.payload;
  message_id = m.id;
  attributes = m.attributes;
  publish_time = m.publish_time;
  subscription = sub.name;
}

-- A message goes to the dead letters after a failed push of its last attempt.
unfoldable pub is_dead : Subscription → Message → Bool
is_dead sub m =
    not (str_eq sub.dead_letter_topic [])
    && int_ltb (pos 0) sub.max_delivery_attempts
    && int_leb sub.max_delivery_attempts m.delivery_attempt

unfoldable pub after_push : Store → ℕ → Subscription → Message → Option Dispatched → Option Store
unfolding is_dead
after_push s now sub m none = none
after_push s now sub m (some result) = elim result.failure [
  | none ↦ some (acknowledge s sub.name (m.ack_id ∷ [])).1
  | some failure ↦
      if is_dead sub m then some (forward_to_dead_letter s now sub.name m.ack_id).1 else some s
]

-- Three retries, from 1 second on, doubled up to 10 seconds.
abbrev pub push_config : (ℤ → ℤ) → Config
push_config next_backoff = record {
  max_retries = pos 3;
  initial_backoff = pos 1000000000;
  next_backoff = next_backoff;
}

-- `server` is the endpoint that gets the body of a POST.
module _ (next_backoff : ℤ → ℤ) (server : Str → PushMessage → Environment) where
  unfoldable pub push_message : Store → ℕ → Subscription → Message → Option Store
  unfolding after_push push_body
  push_message s now sub m =
      after_push s now sub m
        (dispatch (push_config next_backoff) (server sub.push_endpoint (push_body sub m)))

  unfoldable pub push_messages : Store → ℕ → Subscription → List Message → Option Store
  unfolding push_message
  push_messages s now sub [] = some s
  push_messages s now sub (m ∷ ms) = elim (push_message s now sub m) [
    | none ↦ none
    | some t ↦ push_messages t now sub ms
  ]

  unfoldable pub push_all : Store → ℕ → List Subscription → Option Store
  unfolding push_messages
  push_all s now [] = some s
  push_all s now (sub ∷ subs) =
      let (msgs, t) = pull_all_undelivered s now sub.name in
      elim (push_messages t now sub msgs) [ none ↦ none | some u ↦ push_all u now subs ]

  -- One tick of the loop.
  unfoldable pub push_tick : Store → ℕ → Option Store
  unfolding push_all
  push_tick s now = push_all s now (push_subscriptions s)

-- The part of StreamingPull before its loops: a status if the stream is refused.
unfoldable pub open_stream : Store → Str → Result Status (Unit {0})
open_stream s sub_name =
    if str_eq sub_name []
    then reject invalid_argument (bytes "subscription is required")
    else elim (get_subscription s sub_name) [
      | none ↦ reject not_found (bytes "Subscription not found: " ++ sub_name)
      | some sub ↦
          if str_eq sub.push_endpoint []
          then ok tt
          else reject failed_precondition (
              bytes "Subscription "
              ++ sub_name
              ++ bytes " has a push endpoint configured; cannot use StreamingPull")
    ]

pub record StreamRequest : Type 0 where
  pub ack_ids : List Str
  pub modify_deadline_ack_ids : List Str
  pub modify_deadline_seconds : List ℤ

-- A missing number of seconds is 0.
unfoldable pub modify_each : Store → ℕ → Str → List Str → List ℤ → Store
modify_each s now sub_name [] seconds = s
modify_each s now sub_name (ack_id ∷ ids) [] =
    modify_each (modify_ack_deadline s now sub_name (ack_id ∷ []) (pos 0)).1 now sub_name ids []
modify_each s now sub_name (ack_id ∷ ids) (deadline ∷ seconds) =
    modify_each (modify_ack_deadline s now sub_name (ack_id ∷ []) deadline).1 now sub_name ids
      seconds

unfoldable pub stream_request : Store → ℕ → Str → StreamRequest → Store
unfolding modify_each
stream_request s now sub_name request =
    let t : Store = elim request.ack_ids [
      | [] ↦ s
      | ack_id ∷ ids ↦ (acknowledge s sub_name (ack_id ∷ ids)).1
    ] in
    modify_each t now sub_name request.modify_deadline_ack_ids request.modify_deadline_seconds

-- A received message of the stream has no ordering key.
pub record Received : Type 0 where
  pub ack_id : Str
  pub message_id : Str
  pub payload : List ℕ
  pub attributes : Dict Str
  pub publish_time : ℕ
  pub ordering_key : Option Str

unfoldable pub streamed : Message → Received
streamed m = record {
  ack_id = m.ack_id;
  message_id = m.id;
  payload = m.payload;
  attributes = m.attributes;
  publish_time = m.publish_time;
  ordering_key = none;
}

-- What a tick of the stream sends.
unfoldable pub stream_tick : Store → ℕ → Str → List Received × Store
unfolding streamed
stream_tick s now sub_name =
    let (answer, t) = pull s now sub_name (pos 100) in
    elim answer [ ok msgs ↦ (map streamed msgs, t) | err e ↦ ([], t) ]
