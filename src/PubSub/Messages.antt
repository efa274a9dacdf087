-- ===== src/PubSub/Messages.antt =====
-- internal/pubsub/store.go: the messages of one subscription.
use blitzy_localgcp.Base.{
  ℕ, zero, ◌+◌, List, [], ◌∷◌, ◌++◌, Bool, true, false, not, ◌||◌, Str, bytes, ltb, Dict, insert,
  erase, alter, has_key, if◌then◌else◌, ℤ, pos, int_leb, inc_int32, seconds, add_duration,
  sort_by_name,
}
use blitzy_localgcp.PubSub.Data.{Subscription, Message, MessageInput}

unfoldable pub ack_id_of : Str → Str → Str
ack_id_of sub_name id = sub_name ++ bytes ":" ++ id

unfoldable pub new_message : ℕ → Str → Str → MessageInput → Message
unfolding ack_id_of
new_message now sub_name id input = record {
  id = id;
  payload = input.payload;
  attributes = input.attributes;
  publish_time = now;
  ack_deadline = 0;
  ack_id = ack_id_of sub_name id;
  delivered = false;
  ordering_key = input.ordering_key;
  delivery_attempt = pos 0;
}

-- s.messages[sub_name][ack_id] = m, after the map of the subscription is made if it is missing
unfoldable pub put_message : Str → Message → Dict (Dict Message) → Dict (Dict Message)
put_message sub_name m all =
    if has_key sub_name all
    then alter sub_name (insert m.ack_id m) all
    else insert sub_name ((m.ack_id, m) ∷ []) all

-- One message to every subscription of the list that still exists.
unfoldable pub fan_out :
    ℕ
    → Str
    → MessageInput
    → Dict Subscription
    → Dict (Unit {0})
    → Dict (Dict Message)
    → Dict (Dict Message)
unfolding put_message new_message
fan_out now id input subscriptions [] all = all
fan_out now id input subscriptions ((sub_name, _) ∷ rest) all =
    fan_out now id input subscriptions rest (
      if has_key sub_name subscriptions
      then put_message sub_name (new_message now sub_name id input) all
      else all)

unfoldable pub available : ℕ → Message → Bool
available now m = not m.delivered || ltb m.ack_deadline now

unfoldable pub candidates : ℕ → Dict Message → Dict Message
unfolding available
candidates now [] = []
candidates now ((k, m) ∷ rest) =
    let others = candidates now rest in if available now m then (k, m) ∷ others else others

-- Sorted by the text of the identifier.
unfoldable pub by_id : Dict Message → Dict Message
by_id = sort_by_name (λ (e : Str × Message). e.1.id)

unfoldable pub leased : ℕ → Subscription → Message → Message
leased now sub m = record m {
  delivered = true;
  ack_deadline = add_duration now (seconds sub.ack_deadline_seconds);
}

unfoldable pub pushed : ℕ → Subscription → Message → Message
unfolding leased
pushed now sub m = record (leased now sub m) { delivery_attempt = inc_int32 m.delivery_attempt }

-- The candidates that one call delivers, while fewer than `max_messages` are taken.
unfoldable pub at_most : ℤ → ℕ → Dict Message → Dict Message
at_most max_messages n [] = []
at_most max_messages n (e ∷ rest) =
    let others = at_most max_messages (n + 1) rest in
    if int_leb max_messages (pos n) then [] else e ∷ others

-- The messages as they are after a change, in the order of the list.
unfoldable pub changed : (Message → Message) → Dict Message → List Message
changed f [] = []
changed f ((k, m) ∷ rest) = f m ∷ changed f rest

-- The change, written to each of them in the map of the subscription.
unfoldable pub write_back : (Message → Message) → Dict Message → Dict Message → Dict Message
write_back f [] q = q
write_back f ((k, m) ∷ rest) q = write_back f rest (alter k f q)

unfoldable pub acknowledge_all : List Str → Dict Message → Dict Message
acknowledge_all [] q = q
acknowledge_all (ack_id ∷ rest) q = acknowledge_all rest (erase ack_id q)

unfoldable pub redeadline : ℕ → ℤ → Message → Message
redeadline now (pos zero) m = record m { ack_deadline = 0; delivered = false }
redeadline now secs m = record m { ack_deadline = add_duration now (seconds secs) }

unfoldable pub redeadline_all : ℕ → ℤ → List Str → Dict Message → Dict Message
unfolding redeadline
redeadline_all now secs [] q = q
redeadline_all now secs (ack_id ∷ rest) q =
    redeadline_all now secs rest (alter ack_id (redeadline now secs) q)
