-- ===== src/PubSub/Keys.antt =====
-- internal/pubsub/store.go: the keys of the messages of a subscription.
use blitzy_localgcp.Base.{
  ℕ, zero, suc, ◌≡◌, refl, ◌∙◌, List, [], ◌∷◌, Bool-cases, inl, inr, Str, Dict, insert, erase,
  alter, has_key, IsMap, insert-IsMap, erase-IsMap, alter-IsMap, Everywhere, Everywhere-nil,
  Everywhere-insert, Everywhere-erase, Everywhere-alter, ℤ, pos, negsuc,
}
use blitzy_localgcp.PubSub.Data.{Subscription, Message, MessageInput}
use blitzy_localgcp.PubSub.Messages.{
  new_message, put_message, fan_out, write_back, acknowledge_all, redeadline, redeadline_all,
}
use blitzy_localgcp.PubSub.Leases.{IsKeyed}

-- The messages of one subscription: distinct keys, each the identifier of its message.
pub record IsQueue (name : Str) (q : Dict Message) : Type 0 where
  pub distinct : IsMap q
  pub keyed : IsKeyed q

abbrev pub AllQueues : Dict (Dict Message) → Type 0
AllQueues all = Everywhere IsQueue all

pub empty-IsQueue : (name : Str) → IsQueue name []
empty-IsQueue name = record { distinct = tt; keyed = Everywhere-nil }

insert-IsQueue :
    (name : Str) (m : Message) (q : Dict Message)
    → IsQueue name q
    → IsQueue name (insert m.ack_id m q)
insert-IsQueue name m q h = record {
  distinct = insert-IsMap m.ack_id m q h.distinct;
  keyed = Everywhere-insert m.ack_id m q refl h.keyed;
}

pub erase-IsQueue : (name k : Str) (q : Dict Message) → IsQueue name q → IsQueue name (erase k q)
erase-IsQueue name k q h = record {
  distinct = erase-IsMap k q h.distinct;
  keyed = Everywhere-erase k q h.keyed;
}

alter-IsQueue :
    (name k : Str) (f : Message → Message) (q : Dict Message)
    → ((m : Message) → (f m).ack_id ≡ m.ack_id)
    → IsQueue name q
    → IsQueue name (alter k f q)
alter-IsQueue name k f q same h = record {
  distinct = alter-IsMap k f q h.distinct;
  keyed = Everywhere-alter k f q (λ m _ own. same m ∙ own) h.keyed;
}

pub write_back-IsQueue :
    (name : Str) (f : Message → Message) (l q : Dict Message)
    → ((m : Message) → (f m).ack_id ≡ m.ack_id)
    → IsQueue name q
    → IsQueue name (write_back f l q)
unfolding write_back
write_back-IsQueue name f [] q same h = h
write_back-IsQueue name f ((k, m) ∷ l) q same h =
    write_back-IsQueue name f l (alter k f q) same (alter-IsQueue name k f q same h)

pub acknowledge_all-IsQueue :
    (name : Str) (ids : List Str) (q : Dict Message)
    → IsQueue name q
    → IsQueue name (acknowledge_all ids q)
unfolding acknowledge_all
acknowledge_all-IsQueue name [] q h = h
acknowledge_all-IsQueue name (k ∷ ids) q h =
    acknowledge_all-IsQueue name ids (erase k q) (erase-IsQueue name k q h)

ack_id-redeadline : (now : ℕ) (secs : ℤ) (m : Message) → (redeadline now secs m).ack_id ≡ m.ack_id
unfolding redeadline
ack_id-redeadline now (pos zero) m = refl
ack_id-redeadline now (pos (suc n)) m = refl
ack_id-redeadline now (negsuc n) m = refl

pub redeadline_all-IsQueue :
    (now : ℕ) (secs : ℤ) (name : Str) (ids : List Str) (q : Dict Message)
    → IsQueue name q
    → IsQueue name (redeadline_all now secs ids q)
unfolding redeadline_all
redeadline_all-IsQueue now secs name [] q h = h
redeadline_all-IsQueue now secs name (k ∷ ids) q h =
    redeadline_all-IsQueue now secs name ids (alter k (redeadline now secs) q)
      (alter-IsQueue name k (redeadline now secs) q (ack_id-redeadline now secs) h)

put_message-AllQueues :
    (sub_name : Str) (m : Message) (all : Dict (Dict Message))
    → AllQueues all
    → AllQueues (put_message sub_name m all)
unfolding put_message
put_message-AllQueues sub_name m all h = elim (Bool-cases (has_key sub_name all)) [
  | inl e ↦
      rw e (
        Everywhere-alter sub_name (insert m.ack_id m) all (λ q _ g. insert-IsQueue sub_name m q g)
          h)
  | inr e ↦ rw e (Everywhere-insert sub_name ((m.ack_id, m) ∷ []) all (one_message sub_name m) h)
]
  where
    one_message : (name : Str) (x : Message) → IsQueue name ((x.ack_id, x) ∷ [])
    one_message name x = unfold insert in insert-IsQueue name x [] (empty-IsQueue name)

pub fan_out-AllQueues :
    (now : ℕ) (id : Str) (input : MessageInput) (subscriptions : Dict Subscription)
    (subs : Dict (Unit {0})) (all : Dict (Dict Message))
    → AllQueues all
    → AllQueues (fan_out now id input subscriptions subs all)
unfolding fan_out
fan_out-AllQueues now id input subscriptions [] all h = h
fan_out-AllQueues now id input subscriptions ((sub_name, _) ∷ subs) all h =
    elim (Bool-cases (has_key sub_name subscriptions)) [
      | inl e ↦ rw e (
          fan_out-AllQueues now id input subscriptions subs _
            (put_message-AllQueues sub_name (new_message now sub_name id input) all h))
      | inr e ↦ rw e (fan_out-AllQueues now id input subscriptions subs all h)
    ]
