-- ===== src/PubSub/Histories.antt =====
-- internal/pubsub/store.go: the histories of the store.
use blitzy_localgcp.Base.{
  ℕ, ◌+◌, ◌%◌, ◌^◌, refl, List, [], ◌∷◌, Option-cases, Bool-cases, inl, inr, Str, str_eq, Dict,
  lookup, erase, has_key, Everywhere-insert, Everywhere-erase, Everywhere-alter, ℤ, format_int64,
}
use blitzy_localgcp.PubSub.Data.{Subscription, SubscriptionConfig, Message, MessageInput, Store}
use blitzy_localgcp.PubSub.Messages.{
  leased, pushed, write_back, acknowledge_all, redeadline_all, at_most, by_id, candidates,
}
use blitzy_localgcp.PubSub.Persistence.{persist}
use blitzy_localgcp.PubSub.Leases.{messages-persist}
use blitzy_localgcp.PubSub.Calls.{
  Call, add_topic, drop_topic, subscribe, unsubscribe, publish_on, pull_from, acknowledge_in,
  redeadline_in, push_from, dead_letter, step, run,
}
use blitzy_localgcp.PubSub.{
  create_topic, delete_topic, create_subscription, delete_subscription, publish_one, publish_all,
  publish, pull, on_messages, acknowledge, modify_ack_deadline, pull_all_undelivered, forward,
  forward_to_dead_letter, as_input,
}
use blitzy_localgcp.PubSub.Keys.{
  IsQueue, AllQueues, empty-IsQueue, erase-IsQueue, write_back-IsQueue, acknowledge_all-IsQueue,
  redeadline_all-IsQueue, fan_out-AllQueues,
}

-- Every queue of the store has distinct keys, and each message stands under its own identifier.
abbrev pub HasQueues : Store → Type 0
HasQueues s = AllQueues s.messages

saved : (s : Store) → HasQueues s → HasQueues (persist s)
saved s h = rw (messages-persist s) h

create_topic-HasQueues :
    (s : Store) (name : Str) (labels : Dict Str)
    → HasQueues s
    → HasQueues (create_topic s name labels).1
unfolding create_topic
create_topic-HasQueues s name labels h = elim (Bool-cases (has_key name s.topics)) [
  | inl e ↦ rw e h
  | inr e ↦ rw e (saved _ h)
]

delete_topic-HasQueues : (s : Store) (name : Str) → HasQueues s → HasQueues (delete_topic s name).1
unfolding delete_topic
delete_topic-HasQueues s name h = elim (Bool-cases (has_key name s.topics)) [
  | inl e ↦ (elim (Option-cases (lookup name s.topic_subs)) [
    | inl f ↦ rw (e, delete_topic, f) (saved _ h)
    | inr (subs, f) ↦ rw (e, delete_topic, f) (saved _ h)
  ])
  | inr e ↦ rw e h
]

create_subscription-HasQueues :
    (s : Store) (cfg : SubscriptionConfig) → HasQueues s → HasQueues (create_subscription s cfg).1
unfolding create_subscription
create_subscription-HasQueues s cfg h = elim (Bool-cases (has_key cfg.name s.subscriptions)) [
  | inl e ↦ rw e h
  | inr e ↦ (elim (Bool-cases (has_key cfg.topic s.topics)) [
    | inl f ↦
        rw (e, f) (saved _ (Everywhere-insert cfg.name [] s.messages (empty-IsQueue cfg.name) h))
    | inr f ↦ rw (e, f) h
  ])
]

delete_subscription-HasQueues :
    (s : Store) (name : Str) → HasQueues s → HasQueues (delete_subscription s name).1
unfolding delete_subscription
delete_subscription-HasQueues s name h = elim (Option-cases (lookup name s.subscriptions)) [
  | inl e ↦ rw (e, delete_subscription) h
  | inr (sub, e) ↦ rw (e, delete_subscription) (saved _ (Everywhere-erase name s.messages h))
]

publish_one-HasQueues :
    (now : ℕ) (topic_name : Str) (input : MessageInput) (s : Store)
    → HasQueues s
    → HasQueues (publish_one now topic_name input s).1
unfolding publish_one
publish_one-HasQueues now topic_name input s h =
    elim (Option-cases (lookup topic_name s.topic_subs)) [
      | inl e ↦ rw (e, publish_one) h
      | inr (subs, e) ↦
          rw (e, publish_one)
            (fan_out-AllQueues now (format_int64 ((s.msg_counter + 1) % 2 ^ 64)) input
              s.subscriptions subs s.messages h)
    ]

publish_all-HasQueues :
    (now : ℕ) (topic_name : Str) (inputs : List MessageInput) (s : Store)
    → HasQueues s
    → HasQueues (publish_all now topic_name inputs s).1
unfolding publish_all
publish_all-HasQueues now topic_name [] s h = h
publish_all-HasQueues now topic_name (input ∷ inputs) s h =
    publish_all-HasQueues now topic_name inputs (publish_one now topic_name input s).1
      (publish_one-HasQueues now topic_name input s h)

publish-HasQueues :
    (s : Store) (now : ℕ) (topic_name : Str) (inputs : List MessageInput)
    → HasQueues s
    → HasQueues (publish s now topic_name inputs).1
unfolding publish
publish-HasQueues s now topic_name inputs h = elim (Bool-cases (has_key topic_name s.topics)) [
  | inl e ↦ rw e (saved _ (publish_all-HasQueues now topic_name inputs s h))
  | inr e ↦ rw e h
]

pull-HasQueues :
    (s : Store) (now : ℕ) (sub_name : Str) (count : ℤ)
    → HasQueues s
    → HasQueues (pull s now sub_name count).1
unfolding pull
pull-HasQueues s now sub_name count h = elim (Option-cases (lookup sub_name s.subscriptions)) [
  | inl e ↦ rw (e, pull) h
  | inr (sub, e) ↦ (elim (Option-cases (lookup sub_name s.messages)) [
    | inl f ↦ rw (e, pull, f) h
    | inr (q, f) ↦
        rw (e, pull, f)
          (saved _ (
            Everywhere-alter sub_name
              (write_back (leased now sub) (at_most count 0 (by_id (candidates now q)))) s.messages
              (λ m _ g.
                write_back-IsQueue sub_name (leased now sub)
                  (at_most count 0 (by_id (candidates now q))) m (λ x. unfold leased in refl) g)
              h))
  ])
]

pull_all_undelivered-HasQueues :
    (s : Store) (now : ℕ) (sub_name : Str)
    → HasQueues s
    → HasQueues (pull_all_undelivered s now sub_name).1
unfolding pull_all_undelivered
pull_all_undelivered-HasQueues s now sub_name h =
    elim (Option-cases (lookup sub_name s.subscriptions)) [
      | inl e ↦ rw (e, pull_all_undelivered) h
      | inr (sub, e) ↦ (elim (Option-cases (lookup sub_name s.messages)) [
        | inl f ↦ rw (e, pull_all_undelivered, f) h
        | inr (q, f) ↦
            rw (e, pull_all_undelivered, f)
              (Everywhere-alter sub_name (write_back (pushed now sub) (by_id (candidates now q)))
                s.messages
                (λ m _ g.
                  write_back-IsQueue sub_name (pushed now sub) (by_id (candidates now q)) m
                    (λ x. unfold pushed in refl) g)
                h)
      ])
    ]

on_messages-HasQueues :
    (s : Store) (sub_name : Str) (change : Dict Message → Dict Message)
    → ((q : Dict Message) → IsQueue sub_name q → IsQueue sub_name (change q))
    → HasQueues s
    → HasQueues (on_messages s sub_name change).1
unfolding on_messages
on_messages-HasQueues s sub_name change f h = elim (Bool-cases (has_key sub_name s.subscriptions)) [
  | inl e ↦ (elim (Bool-cases (has_key sub_name s.messages)) [
    | inl g ↦ rw (e, g) (saved _ (Everywhere-alter sub_name change s.messages (λ q _ k. f q k) h))
    | inr g ↦ rw (e, g) h
  ])
  | inr e ↦ rw e h
]

forward-HasQueues :
    (s : Store) (now : ℕ) (sub_name : Str) (sub : Subscription) (m : Message)
    → HasQueues s
    → HasQueues (forward s now sub_name sub m)
unfolding forward
forward-HasQueues s now sub_name sub m h =
    elim (Option-cases (lookup sub.dead_letter_topic s.topic_subs)) [
      | inl e ↦
          rw (e, forward)
            (saved _ (
              Everywhere-alter sub_name (erase m.ack_id) s.messages
                (λ q _ k. erase-IsQueue sub_name m.ack_id q k) h))
      | inr (subs, e) ↦
          rw (e, forward)
            (saved _ (
              Everywhere-alter sub_name (erase m.ack_id) _
                (λ q _ k. erase-IsQueue sub_name m.ack_id q k)
                (fan_out-AllQueues now (format_int64 ((s.msg_counter + 1) % 2 ^ 64)) (as_input m)
                  s.subscriptions subs s.messages h)))
    ]

forward_to_dead_letter-HasQueues :
    (s : Store) (now : ℕ) (sub_name ack_id : Str)
    → HasQueues s
    → HasQueues (forward_to_dead_letter s now sub_name ack_id).1
unfolding forward_to_dead_letter
forward_to_dead_letter-HasQueues s now sub_name ack_id h =
    elim (Option-cases (lookup sub_name s.subscriptions)) [
      | inl e ↦ rw (e, forward_to_dead_letter) h
      | inr (sub, e) ↦ (elim (Bool-cases (str_eq sub.dead_letter_topic [])) [
        | inl f ↦ rw (e, forward_to_dead_letter, f) h
        | inr f ↦ (elim (Option-cases (lookup sub_name s.messages)) [
          | inl g ↦ rw (e, forward_to_dead_letter, f, g) h
          | inr (q, g) ↦ (elim (Option-cases (lookup ack_id q)) [
            | inl k ↦ rw (e, forward_to_dead_letter, f, g, k) h
            | inr (m, k) ↦ (elim (Bool-cases (has_key sub.dead_letter_topic s.topics)) [
              | inl l ↦
                  rw (e, forward_to_dead_letter, f, g, k, l)
                    (forward-HasQueues s now sub_name sub m h)
              | inr l ↦ rw (e, forward_to_dead_letter, f, g, k, l) h
            ])
          ])
        ])
      ])
    ]

step-HasQueues : (s : Store) (c : Call) → HasQueues s → HasQueues (step s c)
unfolding acknowledge modify_ack_deadline
step-HasQueues s (add_topic name labels) h = create_topic-HasQueues s name labels h
step-HasQueues s (drop_topic name) h = delete_topic-HasQueues s name h
step-HasQueues s (subscribe cfg) h = create_subscription-HasQueues s cfg h
step-HasQueues s (unsubscribe name) h = delete_subscription-HasQueues s name h
step-HasQueues s (publish_on now topic_name inputs) h = publish-HasQueues s now topic_name inputs h
step-HasQueues s (pull_from now sub_name count) h = pull-HasQueues s now sub_name count h
step-HasQueues s (acknowledge_in sub_name ids) h =
    on_messages-HasQueues s sub_name (acknowledge_all ids) (acknowledge_all-IsQueue sub_name ids) h
step-HasQueues s (redeadline_in now sub_name ids secs) h =
    on_messages-HasQueues s sub_name (redeadline_all now secs ids)
      (redeadline_all-IsQueue now secs sub_name ids) h
step-HasQueues s (push_from now sub_name) h = pull_all_undelivered-HasQueues s now sub_name h
step-HasQueues s (dead_letter now sub_name ack_id) h =
    forward_to_dead_letter-HasQueues s now sub_name ack_id h

-- Any calls on a store in which each subscription has its messages under distinct keys, each
-- message under its own acknowledgement identifier, leave a store of that kind.
pub run-HasQueues : (s : Store) (cs : List Call) → HasQueues s → HasQueues (run s cs)
run-HasQueues s [] h = h
run-HasQueues s (c ∷ cs) h = run-HasQueues (step s c) cs (step-HasQueues s c h)
