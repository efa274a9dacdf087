-- ===== src/PubSub/Pushing.antt =====
-- internal/pubsub/service.go: what a push does to its message.
use blitzy_localgcp.PubSub.Messages.{ack_id_of}
use blitzy_localgcp.Base.{
  not, Bool, ◌+◌, ◌%◌, ◌^◌, bytes, format_int64, ◌++◌, int_ltb, int_leb, pos, ◌⊎◌, false, ℕ, ◌≡◌,
  [], none, some, true, Str, str_eq, ◌&&◌, if◌then◌else◌, lookup, has_key,
}
use blitzy_localgcp.Dispatch.{is_success}
use blitzy_localgcp.PubSub.Data.{Subscription, Message, Store}
use blitzy_localgcp.PubSub.Publishing.{message_at}

-- The message of the push is gone, and every other one is as it was.
abbrev pub Acknowledged : Store → Subscription → Message → Store → Type 0
Acknowledged s sub m t =
    (j k : Str)
    → message_at t.messages j k
      ≡ (if str_eq sub.name j && str_eq m.ack_id k then none else message_at s.messages j k)

-- The message is in its last attempt: the subscription has a dead letter topic and a positive
-- number of attempts, which the message has had.
abbrev pub LastAttempt : Subscription → Message → Type 0
LastAttempt sub m =
    (str_eq sub.dead_letter_topic [] ≡ false)
    × (int_ltb (pos 0) sub.max_delivery_attempts ≡ true)
    × (int_leb sub.max_delivery_attempts m.delivery_attempt ≡ true)

-- There is an attempt left, or no dead letter topic or number of attempts.
abbrev pub Retriable : Subscription → Message → Type 0
Retriable sub m =
    (str_eq sub.dead_letter_topic [] ≡ true)
    ⊎ ((int_ltb (pos 0) sub.max_delivery_attempts ≡ false)
        ⊎ (int_leb sub.max_delivery_attempts m.delivery_attempt ≡ false))

-- The number that the next message of the store gets.
abbrev pub next_id : Store → Str
next_id s = format_int64 ((s.msg_counter + 1) % 2 ^ 64)

-- Whether a subscription gets the dead letters of another one.
abbrev pub receives : Store → Subscription → Str → Bool
receives s sub j = elim (lookup sub.dead_letter_topic s.topic_subs) [
  | none ↦ false
  | some subs ↦ has_key j subs && has_key j s.subscriptions && not (str_eq sub.name j)
]

-- A message as it stands among the dead letters of a subscription.
abbrev pub dead_letter : ℕ → Str → Str → Message → Message
dead_letter now id j m = record {
  id = id;
  payload = m.payload;
  attributes = m.attributes;
  publish_time = now;
  ack_deadline = 0;
  ack_id = j ++ bytes ":" ++ id;
  delivered = false;
  ordering_key = m.ordering_key;
  delivery_attempt = pos 0;
}

-- What a push leaves, by the status that it ended with.
abbrev pub Pushed : Store → ℕ → Subscription → Message → ℕ → Store → Type 0
Pushed s now sub m code t =
    ((is_success code ≡ true) × Acknowledged s sub m t)
    ⊎ ((is_success code ≡ false)
        × ((Retriable sub m × (t ≡ s))
            ⊎ (LastAttempt sub m
                × (((has_key sub.dead_letter_topic s.topics ≡ false) × (t ≡ s))
                    ⊎ ((has_key sub.dead_letter_topic s.topics ≡ true)
                        × (message_at t.messages sub.name m.ack_id ≡ none)
                        × ((j : Str)
                            → (receives s sub j ≡ false)
                              ⊎ (message_at t.messages j (ack_id_of j (next_id s))
                                  ≡ some (dead_letter now (next_id s) j m))))))))
