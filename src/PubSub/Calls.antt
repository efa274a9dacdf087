-- ===== src/PubSub/Calls.antt =====
-- internal/pubsub/store.go: a history of the store, as the calls that may write.
use blitzy_localgcp.Base.{ℕ, List, [], ◌∷◌, Str, Dict, ℤ}
use blitzy_localgcp.PubSub.Data.{SubscriptionConfig, MessageInput, Store}
use blitzy_localgcp.PubSub.{
  create_topic, delete_topic, create_subscription, delete_subscription, publish, pull, acknowledge,
  modify_ack_deadline, pull_all_undelivered, forward_to_dead_letter,
}

-- A call of the store that may write.
pub data Call : Type 0 where
  add_topic : Str → Dict Str → Call
  drop_topic : Str → Call
  subscribe : SubscriptionConfig → Call
  unsubscribe : Str → Call
  publish_on : ℕ → Str → List MessageInput → Call
  pull_from : ℕ → Str → ℤ → Call
  acknowledge_in : Str → List Str → Call
  redeadline_in : ℕ → Str → List Str → ℤ → Call
  push_from : ℕ → Str → Call
  dead_letter : ℕ → Str → Str → Call

abbrev pub step : Store → Call → Store
step s (add_topic name labels) = (create_topic s name labels).1
step s (drop_topic name) = (delete_topic s name).1
step s (subscribe cfg) = (create_subscription s cfg).1
step s (unsubscribe name) = (delete_subscription s name).1
step s (publish_on now topic_name inputs) = (publish s now topic_name inputs).1
step s (pull_from now sub_name count) = (pull s now sub_name count).1
step s (acknowledge_in sub_name ids) = (acknowledge s sub_name ids).1
step s (redeadline_in now sub_name ids secs) = (modify_ack_deadline s now sub_name ids secs).1
step s (push_from now sub_name) = (pull_all_undelivered s now sub_name).1
step s (dead_letter now sub_name ack_id) = (forward_to_dead_letter s now sub_name ack_id).1

abbrev pub run : Store → List Call → Store
run s [] = s
run s (c ∷ cs) = run (step s c) cs
