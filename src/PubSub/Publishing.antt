-- ===== src/PubSub/Publishing.antt =====
-- internal/pubsub/store.go: where `Publish` puts a message.
use blitzy_localgcp.Base.{
  ◌++◌, bytes, pos, ℕ, ◌+◌, ◌%◌, ◌^◌, ◌≡◌, ◌≢◌, refl, sym, subst, ◌∙◌, [], ◌∷◌, Option, none, some,
  true, false, Bool-cases, inl, inr, Str, str_eq, str_eq_iff, str_eq_refl, str_eq-false, Dict,
  lookup, insert, lookup-insert, lookup-alter, has_key, has_key-lookup, has_key-false,
  if◌then◌else◌, ok, format_int64,
}
use blitzy_localgcp.PubSub.Data.{Subscription, Message, MessageInput, Store}
use blitzy_localgcp.PubSub.Messages.{ack_id_of, new_message, put_message, fan_out}
use blitzy_localgcp.PubSub.Leases.{messages-persist}
use blitzy_localgcp.PubSub.{publish, publish_all, publish_one}

unfoldable pub within : Option (Dict Message) → Str → Option Message
within none k = none
within (some q) k = lookup k q

-- The message of a subscription under an acknowledgement identifier.
unfoldable pub message_at : Dict (Dict Message) → Str → Str → Option Message
unfolding within
message_at all sub_name k = within (lookup sub_name all) k

message_at-put_message :
    (sub_name k : Str) (m : Message) (all : Dict (Dict Message))
    → message_at (put_message sub_name m all) sub_name k
      ≡ (if str_eq m.ack_id k then some m else message_at all sub_name k)
unfolding message_at within put_message lookup
message_at-put_message sub_name k m all = elim (Bool-cases (has_key sub_name all)) [
  | inl e ↦
      let (q, found) = has_key-lookup sub_name all e in
      rw
        (
          e,
          lookup-alter sub_name sub_name (insert m.ack_id m) all,
          str_eq_refl sub_name,
          found,
          within,
        )
        (lookup-insert m.ack_id k m q)
  | inr e ↦
      rw
        (
          e,
          lookup-insert sub_name sub_name ((m.ack_id, m) ∷ []) all,
          str_eq_refl sub_name,
          has_key-false sub_name all e,
          within,
        )
        refl
]

message_at-put_other :
    (sub_name j k : Str) (m : Message) (all : Dict (Dict Message))
    → str_eq sub_name j ≡ false
    → message_at (put_message sub_name m all) j k ≡ message_at all j k
unfolding message_at put_message
message_at-put_other sub_name j k m all other = elim (Bool-cases (has_key sub_name all)) [
  | inl e ↦ rw (e, lookup-alter sub_name j (insert m.ack_id m) all, other) refl
  | inr e ↦ rw (e, lookup-insert sub_name j ((m.ack_id, m) ∷ []) all, other) refl
]

module _ (now : ℕ) (id : Str) (input : MessageInput) (subscriptions : Dict Subscription) where
  step_self :
      (j k : Str) (all : Dict (Dict Message))
      → ack_id_of j id ≢ k
      → message_at (put_message j (new_message now j id input) all) j k ≡ message_at all j k
  unfolding new_message
  step_self j k all ne =
      rw
        (
          message_at-put_message j k (new_message now j id input) all,
          str_eq-false (ack_id_of j id) k ne,
        )
        refl

  -- What one turn of the loop does to one key.
  step_other :
      (sub_name j k : Str) (all : Dict (Dict Message))
      → ack_id_of j id ≢ k
      → message_at (put_message sub_name (new_message now sub_name id input) all) j k
        ≡ message_at all j k
  unfolding new_message
  step_other sub_name j k all ne = elim (Bool-cases (str_eq sub_name j)) [
    | inl e ↦
        subst
          (λ x.
            message_at (put_message x (new_message now x id input) all) j k ≡ message_at all j k)
          (sym ((str_eq_iff sub_name j).0 e)) (step_self j k all ne)
    | inr e ↦ message_at-put_other sub_name j k (new_message now sub_name id input) all e
  ]

  pub fan_out_other :
      (j k : Str) (subs : Dict (Unit {0})) (all : Dict (Dict Message))
      → ack_id_of j id ≢ k
      → message_at (fan_out now id input subscriptions subs all) j k ≡ message_at all j k
  unfolding fan_out
  fan_out_other j k [] all ne = refl
  fan_out_other j k ((sub_name, _) ∷ subs) all ne =
      elim (Bool-cases (has_key sub_name subscriptions)) [
        | inl e ↦ rw e (fan_out_other j k subs _ ne ∙ step_other sub_name j k all ne)
        | inr e ↦ rw e (fan_out_other j k subs all ne)
      ]

  abbrev fresh_message : Str → Message
  fresh_message j = new_message now j id input

  put_fresh :
      (j : Str) (all : Dict (Dict Message))
      → message_at (put_message j (fresh_message j) all) j (ack_id_of j id) ≡ some (fresh_message j)
  unfolding new_message
  put_fresh j all =
      rw
        (
          message_at-put_message j (ack_id_of j id) (fresh_message j) all,
          str_eq_refl (ack_id_of j id),
        )
        refl

  -- Once there, it stays.
  fan_out_kept :
      (j : Str) (subs : Dict (Unit {0})) (all : Dict (Dict Message))
      → message_at all j (ack_id_of j id) ≡ some (fresh_message j)
      → message_at (fan_out now id input subscriptions subs all) j (ack_id_of j id)
        ≡ some (fresh_message j)
  unfolding fan_out
  fan_out_kept j [] all h = h
  fan_out_kept j ((sub_name, _) ∷ subs) all h = elim (Bool-cases (has_key sub_name subscriptions)) [
    | inl e ↦ rw e (
        fan_out_kept j subs _ (elim (Bool-cases (str_eq sub_name j)) [
          | inl f ↦
              subst
                (λ x.
                  message_at (put_message x (fresh_message x) all) j (ack_id_of j id)
                  ≡ some (fresh_message j))
                (sym ((str_eq_iff sub_name j).0 f)) (put_fresh j all)
          | inr f ↦
              message_at-put_other sub_name j (ack_id_of j id) (fresh_message sub_name) all f ∙ h
        ]))
    | inr e ↦ rw e (fan_out_kept j subs all h)
  ]

  pub fan_out_reaches :
      (j : Str) (subs : Dict (Unit {0})) (all : Dict (Dict Message))
      → has_key j subscriptions ≡ true
      → has_key j subs ≡ true
      → message_at (fan_out now id input subscriptions subs all) j (ack_id_of j id)
        ≡ some (fresh_message j)
  unfolding fan_out has_key
  fan_out_reaches j [] all live h = cc h
  fan_out_reaches j ((sub_name, _) ∷ subs) all live h = elim (Bool-cases (str_eq sub_name j)) [
    | inl f ↦ rw ((str_eq_iff sub_name j).0 f, live) (fan_out_kept j subs _ (put_fresh j all))
    | inr f ↦ fan_out_reaches j subs _ live (rw f at h)
  ]

-- Publish of one message on a topic that exists: the answer is the next number of the counter; each
-- subscription of the topic that exists has the message with its content, its time and no delivery
-- or attempt yet, under the identifier made of the subscription's name and that number; and under every other
-- identifier each subscription has what it had.
pub publish_reaches :
    (s : Store) (now : ℕ) (topic_name sub_name : Str) (input : MessageInput)
    (subs : Dict (Unit {0}))
    → has_key topic_name s.topics ≡ true
    → lookup topic_name s.topic_subs ≡ some subs
    → has_key sub_name subs ≡ true
    → has_key sub_name s.subscriptions ≡ true
    → let id = format_int64 ((s.msg_counter + 1) % 2 ^ 64) in
      let (answer, t) = publish s now topic_name (input ∷ []) in
      (answer ≡ ok (id ∷ []))
      × (message_at t.messages sub_name (ack_id_of sub_name id)
          ≡ some (record {
            id = id;
            payload = input.payload;
            attributes = input.attributes;
            publish_time = now;
            ack_deadline = 0;
            ack_id = sub_name ++ bytes ":" ++ id;
            delivered = false;
            ordering_key = input.ordering_key;
            delivery_attempt = pos 0;
          }))
      × ((j k : Str) → ack_id_of j id ≢ k → message_at t.messages j k ≡ message_at s.messages j k)
unfolding publish publish_all publish_one new_message ack_id_of
publish_reaches s now topic_name sub_name input subs exists indexed member live =
    let id = format_int64 ((s.msg_counter + 1) % 2 ^ 64) in
    rw (exists, publish_all, publish_one, indexed, messages-persist _)
      (
        refl,
        fan_out_reaches now id input s.subscriptions sub_name subs s.messages live member,
        λ j k ne. fan_out_other now id input s.subscriptions j k subs s.messages ne,
      )
