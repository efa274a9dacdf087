-- ===== src/PubSub/Delivery.antt =====
-- internal/pubsub/store.go: what `Pull` hands out, and for how long.
use blitzy_localgcp.Base.{
  ℕ, ◌+◌, ◌≤◌, ◌≡◌, refl, sym, ◌∙◌, [], ◌∷◌, none, some, true, Bool-cases, ◌⊎◌, inl, inr, arith,
  Str, str_eq, str_eq_iff, str_eq_refl, str_ltb, Dict, lookup, IsMap, ℤ, pos, int_leb, length,
  insert_sorted, sort_by_name,
}
use blitzy_localgcp.PubSub.Data.{Subscription, Message}
use blitzy_localgcp.PubSub.Messages.{available, candidates, by_id, leased, at_most, changed}

-- The list has the entry.
abbrev pub HasEntry : Str → Message → Dict Message → Type 0
HasEntry k m [] = ⊥
HasEntry k m ((j, x) ∷ xs) = ((k ≡ j) × (m ≡ x)) ⊎ HasEntry k m xs

HasEntry-insert_sorted :
    (k j : Str) (m x : Message) (xs : Dict Message)
    → HasEntry k m (insert_sorted (λ (e : Str × Message). e.1.id) (j, x) xs)
    → HasEntry k m ((j, x) ∷ xs)
unfolding insert_sorted
HasEntry-insert_sorted k j m x [] h = h
HasEntry-insert_sorted k j m x ((i, y) ∷ xs) h = elim (Bool-cases (str_ltb y.id x.id)) [
  | inl e ↦ (elim (rw e at h) [
    | inl here ↦ inr (inl here)
    | inr more ↦ (elim (HasEntry-insert_sorted k j m x xs more) [
      | inl here ↦ inl here
      | inr there ↦ inr (inr there)
    ])
  ])
  | inr e ↦ rw e at h
]

HasEntry-by_id :
    (k : Str) (m : Message) (q : Dict Message) → HasEntry k m (by_id q) → HasEntry k m q
unfolding by_id sort_by_name
HasEntry-by_id k m [] h = h
HasEntry-by_id k m ((j, x) ∷ q) h = elim (HasEntry-insert_sorted k j m x (by_id q) h) [
  | inl here ↦ inl here
  | inr there ↦ inr (HasEntry-by_id k m q there)
]

HasEntry-at_most :
    (k : Str) (m : Message) (max : ℤ) (n : ℕ) (q : Dict Message)
    → HasEntry k m (at_most max n q)
    → HasEntry k m q
unfolding at_most
HasEntry-at_most k m max n [] h = h
HasEntry-at_most k m max n ((j, x) ∷ q) h = elim (Bool-cases (int_leb max (pos n))) [
  | inl e ↦ absurd (rw e at h)
  | inr e ↦ elim (rw e at h) [
    | inl here ↦ inl here
    | inr there ↦ inr (HasEntry-at_most k m max (n + 1) q there)
  ]
]

behind :
    (now : ℕ) (k j : Str) (m x : Message) (q : Dict Message)
    → lookup j q ≡ none
    → (lookup k q ≡ some m) × (available now m ≡ true)
    → (lookup k ((j, x) ∷ q) ≡ some m) × (available now m ≡ true)
unfolding lookup
behind now k j m x q fresh (found, free) = elim (Bool-cases (str_eq j k)) [
  | inl e ↦ let gone : none ≡ some m = sym fresh ∙ rw ((str_eq_iff j k).0 e) found in cc gone
  | inr e ↦ rw e (found, free)
]

-- A message that is a candidate is in the map, under its key, and available.
HasEntry-candidates :
    (now : ℕ) (k : Str) (m : Message) (q : Dict Message)
    → IsMap q
    → HasEntry k m (candidates now q)
    → (lookup k q ≡ some m) × (available now m ≡ true)
unfolding candidates lookup
HasEntry-candidates now k m [] d h = absurd h
HasEntry-candidates now k m ((j, x) ∷ q) d h = elim (Bool-cases (available now x)) [
  | inl e ↦ elim (rw e at h) [
    | inl (same, is) ↦ rw (same, is, str_eq_refl j) (refl, e)
    | inr there ↦ behind now k j m x q d.0 (HasEntry-candidates now k m q d.1 there)
  ]
  | inr e ↦ behind now k j m x q d.0 (HasEntry-candidates now k m q d.1 (rw e at h))
]

-- What a call takes, from the map of the subscription.
abbrev pub taken_by : ℤ → ℕ → Dict Message → Dict Message
taken_by max now q = at_most max 0 (by_id (candidates now q))

pub available-taken_by :
    (max : ℤ) (now : ℕ) (k : Str) (m : Message) (q : Dict Message)
    → IsMap q
    → HasEntry k m (taken_by max now q)
    → (lookup k q ≡ some m) × (available now m ≡ true)
available-taken_by max now k m q d h = HasEntry-candidates now k m q d (
    HasEntry-by_id k m (candidates now q) (HasEntry-at_most k m max 0 (by_id (candidates now q)) h))

-- At most as many as the call asks for.
length-at_most :
    (max n : ℕ) (sub : Subscription) (now : ℕ) (q : Dict Message)
    → n ≤ max
    → length (changed (leased now sub) (at_most (pos max) n q)) + n ≤ max
unfolding at_most changed
length-at_most max n sub now [] h = omega arith
length-at_most max n sub now ((k, m) ∷ q) h = elim (Bool-cases (int_leb (pos max) (pos n))) [
  | inl e ↦ rw e (omega arith)
  | inr e ↦ rw (e, changed) (ground (arith, length-at_most max (n + 1) sub now q))
]

pub length-taken :
    (max now : ℕ) (sub : Subscription) (q : Dict Message)
    → length (changed (leased now sub) (taken_by (pos max) now q)) ≤ max
length-taken max now sub q = omega (arith, length-at_most max 0 sub now (by_id (candidates now q)))
