-- ===== src/PubSub/Acknowledging.antt =====
-- internal/pubsub/store.go: what `Acknowledge` takes away.
use blitzy_localgcp.Base.{
  ◌≡◌, refl, sym, ◌∙◌, List, [], ◌∷◌, none, some, true, false, Bool-cases, ◌⊎◌, inl, inr, Str,
  str_eq, str_eq_refl, str_eq-false, Dict, lookup, erase, lookup-erase, lookup-alter, has_key,
  has_key-some, ok,
}
use blitzy_localgcp.PubSub.Data.{Message, Store}
use blitzy_localgcp.PubSub.Messages.{acknowledge_all}
use blitzy_localgcp.PubSub.Leases.{messages-persist}
use blitzy_localgcp.PubSub.{acknowledge, on_messages}
use blitzy_localgcp.PubSub.Publishing.{message_at, within}

abbrev pub IsListed : Str → List Str → Type 0
IsListed k [] = ⊥
IsListed k (j ∷ js) = (k ≡ j) ⊎ IsListed k js

lookup-acknowledge_none :
    (k : Str) (ids : List Str) (q : Dict Message)
    → lookup k q ≡ none
    → lookup k (acknowledge_all ids q) ≡ none
unfolding acknowledge_all
lookup-acknowledge_none k [] q h = h
lookup-acknowledge_none k (j ∷ ids) q h =
    lookup-acknowledge_none k ids (erase j q) (elim (Bool-cases (str_eq j k)) [
      | inl e ↦ rw (lookup-erase j k q, e) refl
      | inr e ↦ rw (lookup-erase j k q, e) h
    ])

lookup-acknowledge_all :
    (k : Str) (ids : List Str) (q : Dict Message)
    → IsListed k ids
    → lookup k (acknowledge_all ids q) ≡ none
unfolding acknowledge_all
lookup-acknowledge_all k [] q h = absurd h
lookup-acknowledge_all k (j ∷ ids) q (inl e) =
    lookup-acknowledge_none k ids (erase j q) (rw (lookup-erase j k q, e, str_eq_refl j) refl)
lookup-acknowledge_all k (j ∷ ids) q (inr h) = lookup-acknowledge_all k ids (erase j q) h

lookup-acknowledge_other :
    (k : Str) (ids : List Str) (q : Dict Message)
    → (IsListed k ids → ⊥)
    → lookup k (acknowledge_all ids q) ≡ lookup k q
unfolding acknowledge_all
lookup-acknowledge_other k [] q h = refl
lookup-acknowledge_other k (j ∷ ids) q h =
    lookup-acknowledge_other k ids (erase j q) (λ m. h (inr m))
    ∙ rw (lookup-erase j k q, str_eq-false j k (λ e. h (inl (sym e)))) refl

-- Acknowledge on a subscription that exists and has messages: no message is left under an
-- identifier of the call, every other message of the subscription is as it was, and so is every
-- message of the other subscriptions.
pub acknowledge_lem :
    (s : Store) (sub_name : Str) (ids : List Str) (q : Dict Message)
    → has_key sub_name s.subscriptions ≡ true
    → lookup sub_name s.messages ≡ some q
    → let (answer, t) = acknowledge s sub_name ids in
      (answer ≡ ok tt)
      × ((k : Str) → IsListed k ids → message_at t.messages sub_name k ≡ none)
      × ((k : Str)
          → (IsListed k ids → ⊥)
          → message_at t.messages sub_name k ≡ message_at s.messages sub_name k)
      × ((j k : Str)
          → str_eq sub_name j ≡ false
          → message_at t.messages j k ≡ message_at s.messages j k)
unfolding acknowledge on_messages message_at within
acknowledge_lem s sub_name ids q live queued =
    rw (live, has_key-some sub_name s.messages q queued, messages-persist _)
      (
        refl,
        (λ k h.
            rw
              (
                lookup-alter sub_name sub_name (acknowledge_all ids) s.messages,
                str_eq_refl sub_name,
                queued,
                within,
              )
              (lookup-acknowledge_all k ids q h)),
        (λ k h.
            rw
              (
                lookup-alter sub_name sub_name (acknowledge_all ids) s.messages,
                str_eq_refl sub_name,
                queued,
                within,
              )
              (lookup-acknowledge_other k ids q h)),
        (λ j k h. rw (lookup-alter sub_name j (acknowledge_all ids) s.messages, h) refl),
      )
