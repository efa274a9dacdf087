-- ===== src/PubSub/Leases.antt =====
-- internal/pubsub/store.go: the messages of a subscription after `Pull`, and the next `Pull`.
use mathlib.Core.Option.{some-injective}
use blitzy_localgcp.Base.{
  ℕ, ◌≤◌, ◌≡◌, ◌≢◌, refl, sym, ap, ◌∙◌, List, [], ◌∷◌, some, true, false, Bool-cases, ◌⊎◌, inl, inr,
  arith, Str, str_eq, str_eq_refl, Dict, lookup, alter, lookup-alter, IsMap, alter-IsMap, ℤ, pos,
  seconds, add_duration, length, Everywhere, Everywhere-alter, ok, ok-injective,
}
use blitzy_localgcp.PubSub.Data.{Subscription, Message, Store}
use blitzy_localgcp.PubSub.Messages.{available, leased, changed, write_back}
use blitzy_localgcp.PubSub.Delivery.{HasEntry, taken_by, available-taken_by, length-taken}
use blitzy_localgcp.PubSub.Persistence.{persist}
use blitzy_localgcp.PubSub.{Outcome, pull}

abbrev pub Among : Message → List Message → Type 0
Among m [] = ⊥
Among m (x ∷ xs) = (m ≡ x) ⊎ Among m xs

-- The identifier of an acknowledgement is the key of the message.
abbrev pub HasOwnKey : Str → Message → Type 0
HasOwnKey k m = m.ack_id ≡ k

abbrev pub IsKeyed : Dict Message → Type 0
IsKeyed q = Everywhere HasOwnKey q

module _ (now : ℕ) (sub : Subscription) where
  Among-changed :
      (m : Message) (l : Dict Message)
      → Among m (changed (leased now sub) l)
      → (k : Str) × (x : Message) × HasEntry k x l × (m ≡ leased now sub x)
  unfolding changed
  Among-changed m [] h = absurd h
  Among-changed m ((k, x) ∷ l) (inl e) = (k, x, inl (refl, refl), e)
  Among-changed m ((k, x) ∷ l) (inr h) =
      let (j, y, there, e) = Among-changed m l h in (j, y, inr there, e)

  write_back_again :
      (k : Str) (x : Message) (l q : Dict Message)
      → lookup k q ≡ some (leased now sub x)
      → lookup k (write_back (leased now sub) l q) ≡ some (leased now sub x)
  unfolding write_back leased
  write_back_again k x [] q h = h
  write_back_again k x ((j, y) ∷ l) q h =
      write_back_again k x l (alter j (leased now sub) q) (elim (Bool-cases (str_eq j k)) [
        | inl e ↦ rw (lookup-alter j k (leased now sub) q, e, h) refl
        | inr e ↦ rw (lookup-alter j k (leased now sub) q, e) h
      ])

  pub write_back_entry :
      (k : Str) (m x : Message) (l q : Dict Message)
      → HasEntry k m l
      → lookup k q ≡ some x
      → lookup k (write_back (leased now sub) l q) ≡ some (leased now sub x)
  unfolding write_back
  write_back_entry k m x [] q h found = absurd h
  write_back_entry k m x ((j, y) ∷ l) q h found = elim (Bool-cases (str_eq j k)) [
    | inl e ↦
        write_back_again k x l (alter j (leased now sub) q)
          (rw (lookup-alter j k (leased now sub) q, e, found) refl)
    | inr e ↦ (elim h [
      | inl here ↦
          let differs : true ≡ false = rw (here.0, str_eq_refl j) at e in absurd (cc differs)
      | inr there ↦
          write_back_entry k m x l (alter j (leased now sub) q) there
            (rw (lookup-alter j k (leased now sub) q, e) found)
    ])
  ]

  pub write_back-IsMap : (l q : Dict Message) → IsMap q → IsMap (write_back (leased now sub) l q)
  unfolding write_back
  write_back-IsMap [] q d = d
  write_back-IsMap ((j, y) ∷ l) q d =
      write_back-IsMap l (alter j (leased now sub) q) (alter-IsMap j (leased now sub) q d)

  pub write_back-IsKeyed :
      (l q : Dict Message) → IsKeyed q → IsKeyed (write_back (leased now sub) l q)
  unfolding write_back leased
  write_back-IsKeyed [] q d = d
  write_back-IsKeyed ((j, y) ∷ l) q d =
      write_back-IsKeyed l (alter j (leased now sub) q)
        (Everywhere-alter j (leased now sub) q (λ v _ own. own) d)

pub messages-persist : (s : Store) → (persist s).messages ≡ s.messages
unfolding persist
messages-persist s = elim (Bool-cases (str_eq s.data_dir [])) [
  | inl e ↦ rw e refl
  | inr e ↦ rw e refl
]

pub subscriptions-persist : (s : Store) → (persist s).subscriptions ≡ s.subscriptions
unfolding persist
subscriptions-persist s = elim (Bool-cases (str_eq s.data_dir [])) [
  | inl e ↦ rw e refl
  | inr e ↦ rw e refl
]

module _ (s : Store) (sub_name : Str) (sub : Subscription) (q : Dict Message)
    (subscribed : lookup sub_name s.subscriptions ≡ some sub)
    (queued : lookup sub_name s.messages ≡ some q) where
  abbrev pulled : ℤ → ℕ → Dict Message
  pulled max now = write_back (leased now sub) (taken_by max now q) q

  pull_lem :
      (now : ℕ) (max : ℤ)
      → (pull s now sub_name max).0 ≡ ok (changed (leased now sub) (taken_by max now q))
  unfolding pull
  pull_lem now max = rw (subscribed, pull, queued) refl

  pull_messages :
      (now : ℕ) (max : ℤ)
      → lookup sub_name (pull s now sub_name max).1.messages ≡ some (pulled max now)
  unfolding pull
  pull_messages now max =
      rw
        (
          subscribed,
          pull,
          queued,
          messages-persist _,
          lookup-alter sub_name sub_name (write_back (leased now sub) (taken_by max now q))
              s.messages,
          str_eq_refl sub_name,
          queued,
        )
        refl

  pull_subscriptions :
      (now : ℕ) (max : ℤ) → (pull s now sub_name max).1.subscriptions ≡ s.subscriptions
  unfolding pull
  pull_subscriptions now max = rw (subscribed, pull, queued) (subscriptions-persist _)

  -- A message that a call returns is stored as it was returned, is leased, and was available.
  pub pull-stored :
      IsMap q
      → IsKeyed q
      → (now : ℕ) (max : ℤ) (m : Message) → Among m (changed (leased now sub) (taken_by max now q))
      → (lookup m.ack_id (pulled max now) ≡ some m)
        × (m.delivered ≡ true)
        × (m.ack_deadline ≡ add_duration now (seconds sub.ack_deadline_seconds))
        × ((x : Message) × (lookup m.ack_id q ≡ some x) × (available now x ≡ true))
  unfolding leased
  pull-stored distinct keyed now max m h =
      let (k, x, entry, e) = Among-changed now sub m (taken_by max now q) h in
      let (found, free) = available-taken_by max now k x q distinct entry in
      let own : m.ack_id ≡ k = ap (λ (y : Message). y.ack_id) e ∙ keyed.at_key k x found in
      (
        ap (λ i. lookup i (pulled max now)) own
            ∙ write_back_entry now sub k x x (taken_by max now q) q entry found
            ∙ ap some (sym e),
        ap (λ (y : Message). y.delivered) e,
        ap (λ (y : Message). y.ack_deadline) e,
        (x, ap (λ i. lookup i q) own ∙ found, free),
      )

leased_unavailable :
    (later : ℕ) (m : Message)
    → m.delivered ≡ true
    → later ≤ m.ack_deadline
    → available later m ≡ false
unfolding available
leased_unavailable later m d early = ground arith

-- In a store where the messages of the subscription stand under their own acknowledgement
-- identifiers: what a call of Pull returns is no longer than the positive number that it is asked
-- for, and a second call at a time that is not after the end of the lease (the first call's time
-- and the subscription's seconds) returns none of these messages again.
pub pull_twice :
    (s t u : Store) (sub_name : Str) (sub : Subscription) (q : Dict Message) (now later count : ℕ)
    (again : ℤ) (first second : List Message)
    → lookup sub_name s.subscriptions ≡ some sub
    → lookup sub_name s.messages ≡ some q
    → IsMap q
    → IsKeyed q
    → pull s now sub_name (pos count) ≡ (ok first, t)
    → pull t later sub_name again ≡ (ok second, u)
    → later ≤ add_duration now (seconds sub.ack_deadline_seconds)
    → (length first ≤ count)
      × ((m n : Message) → Among m first → Among n second → m.ack_id ≢ n.ack_id)
pull_twice s t u sub_name sub q now later count again first second sub_at q_at distinct keyed p1 p2
      early =
    (rw first_is (length-taken count now sub q), apart)
  where
    q2 : Dict Message
    q2 = pulled s sub_name sub q sub_at q_at (pos count) now

    first_is : first ≡ changed (leased now sub) (taken_by (pos count) now q)
    first_is = ok-injective (
        sym (ap (λ (o : Outcome (List Message)). o.0) p1)
        ∙ pull_lem s sub_name sub q sub_at q_at now (pos count))

    sub_at2 : lookup sub_name t.subscriptions ≡ some sub
    sub_at2 =
        ap (λ (o : Outcome (List Message)). lookup sub_name o.1.subscriptions) (sym p1)
        ∙ ap (lookup sub_name) (pull_subscriptions s sub_name sub q sub_at q_at now (pos count))
        ∙ sub_at

    q_at2 : lookup sub_name t.messages ≡ some q2
    q_at2 =
        ap (λ (o : Outcome (List Message)). lookup sub_name o.1.messages) (sym p1)
        ∙ pull_messages s sub_name sub q sub_at q_at now (pos count)

    second_is : second ≡ changed (leased later sub) (taken_by again later q2)
    second_is = ok-injective (
        sym (ap (λ (o : Outcome (List Message)). o.0) p2)
        ∙ pull_lem t sub_name sub q2 sub_at2 q_at2 later again)

    apart : (m n : Message) → Among m first → Among n second → m.ack_id ≢ n.ack_id
    apart m n h k e =
        let (kept, delivered, until, _) =
          pull-stored s sub_name sub q sub_at q_at distinct keyed now (pos count) m
            (rw first_is at h) in
        let (_, _, _, (x, found, free)) =
          pull-stored t sub_name sub q2 sub_at2 q_at2
            (write_back-IsMap now sub (taken_by (pos count) now q) q distinct)
            (write_back-IsKeyed now sub (taken_by (pos count) now q) q keyed) later again n
            (rw second_is at k) in
        let same : m ≡ x = some-injective _ _ (sym kept ∙ rw e found) in
        let held : available later m ≡ false =
          leased_unavailable later m delivered (rw until early) in
        cc (held, free, same)
