-- ===== src/PubSub/Orphans.antt =====
-- internal/pubsub/store.go: what `DeleteTopic` leaves of the subscriptions.
use blitzy_localgcp.Base.{
  ℕ, ◌≡◌, refl, ◌∙◌, List, [], ◌∷◌, some, true, false, Bool-cases, inl, inr, Str, str_eq, Dict,
  lookup, erase, alter, has_key, has_key-none, lookup-alter, lookup-erase_self, err,
}
use blitzy_localgcp.PubSub.Data.{Subscription, MessageInput, Store}
use blitzy_localgcp.PubSub.Persistence.{persist}
use blitzy_localgcp.PubSub.Leases.{messages-persist, subscriptions-persist}
use blitzy_localgcp.PubSub.{
  topic_not_found, deleted_topic, orphan, delete_topic, get_subscription, publish,
}

abbrev pub orphaned : Subscription → Subscription
orphaned sub = record sub { topic = deleted_topic }

-- Once it is orphaned, a subscription stays so.
orphan_again :
    (subs : Dict (Unit {0})) (m : Dict Subscription) (k : Str) (sub : Subscription)
    → lookup k m ≡ some (orphaned sub)
    → lookup k (orphan subs m) ≡ some (orphaned sub)
unfolding orphan
orphan_again [] m k sub h = h
orphan_again ((j, _) ∷ subs) m k sub h =
    orphan_again subs (alter j orphaned m) k sub (elim (Bool-cases (str_eq j k)) [
      | inl e ↦ rw (lookup-alter j k orphaned m, e, h) refl
      | inr e ↦ rw (lookup-alter j k orphaned m, e) h
    ])

orphan_member :
    (subs : Dict (Unit {0})) (m : Dict Subscription) (k : Str) (sub : Subscription)
    → lookup k m ≡ some sub
    → has_key k subs ≡ true
    → lookup k (orphan subs m) ≡ some (orphaned sub)
unfolding orphan has_key
orphan_member [] m k sub h member = cc member
orphan_member ((j, _) ∷ subs) m k sub h member = elim (Bool-cases (str_eq j k)) [
  | inl e ↦
      orphan_again subs (alter j orphaned m) k sub (rw (lookup-alter j k orphaned m, e, h) refl)
  | inr e ↦
      orphan_member subs (alter j orphaned m) k sub (rw (lookup-alter j k orphaned m, e) h)
        (rw e at member)
]

orphan_other :
    (subs : Dict (Unit {0})) (m : Dict Subscription) (k : Str)
    → has_key k subs ≡ false
    → lookup k (orphan subs m) ≡ lookup k m
unfolding orphan has_key
orphan_other [] m k h = refl
orphan_other ((j, _) ∷ subs) m k h = elim (Bool-cases (str_eq j k)) [
  | inl e ↦ let differs : true ≡ false = rw e at h in absurd (cc differs)
  | inr e ↦
      orphan_other subs (alter j orphaned m) k (rw e at h)
      ∙ rw (lookup-alter j k orphaned m, e) refl
]

topics-persist : (s : Store) → (persist s).topics ≡ s.topics
unfolding persist
topics-persist s = elim (Bool-cases (str_eq s.data_dir [])) [
  | inl e ↦ rw e refl
  | inr e ↦ rw e refl
]

-- Deleting a topic that exists: a subscription of the topic stays, as one of the deleted topic; any
-- other is as it was; every message stays; and publishing on the topic is refused.
pub delete_topic_lem :
    (s : Store) (name : Str) (subs : Dict (Unit {0}))
    → has_key name s.topics ≡ true
    → lookup name s.topic_subs ≡ some subs
    → ((k : Str) (sub : Subscription)
        → has_key k subs ≡ true
        → get_subscription s k ≡ some sub
        → get_subscription (delete_topic s name).1 k ≡ some (orphaned sub))
      × ((k : Str)
          → has_key k subs ≡ false
          → get_subscription (delete_topic s name).1 k ≡ get_subscription s k)
      × ((delete_topic s name).1.messages ≡ s.messages)
      × ((now : ℕ) (inputs : List MessageInput)
          → publish (delete_topic s name).1 now name inputs
            ≡ (err (topic_not_found name), (delete_topic s name).1))
unfolding delete_topic get_subscription publish
delete_topic_lem s name subs exists indexed =
    rw (exists, delete_topic, indexed)
      (
        (λ k sub member found.
            rw (subscriptions-persist _) (orphan_member subs s.subscriptions k sub found member)),
        (λ k other. rw (subscriptions-persist _) (orphan_other subs s.subscriptions k other)),
        messages-persist _,
        (λ now inputs.
            rw
              (
                topics-persist _,
                has_key-none name (erase name s.topics) (lookup-erase_self name s.topics),
              )
              refl),
      )
