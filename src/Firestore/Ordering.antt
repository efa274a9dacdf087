-- ===== src/Firestore/Ordering.antt =====
-- internal/firestore/query.go: the order of the values, and what sorting by it gives.
use blitzy_localgcp.Firestore.Joins.{OrdersFloats, before-behind}
use blitzy_localgcp.Base.{
  ◌≡◌, refl, ◌∙◌, List, [], ◌∷◌, select, Bool, true, false, Bool-cases, inl, inr, false→ne,
}
use blitzy_localgcp.Firestore.Data.{Document}
use blitzy_localgcp.Firestore.Compare.{Floats}
use blitzy_localgcp.Firestore.Query.{Order, before, insert_stable, apply_order_by}
use blitzy_localgcp.Firestore.Flips.{before-asym}

module _ (floats : Floats) (orders : List Order) where
  -- No document of the list is in front of this one.
  abbrev pub NoneBefore : Document → List Document → Type 0
  NoneBefore d [] = Unit
  NoneBefore d (e ∷ ds) = (before floats orders e d ≡ false) × NoneBefore d ds

  -- Of any two documents, the one that stands behind does not belong in front.
  abbrev pub InOrder : List Document → Type 0
  InOrder [] = Unit
  InOrder (d ∷ ds) = NoneBefore d ds × InOrder ds

  module _ (order : OrdersFloats floats) where
    NoneBefore-behind :
        (d x : Document) (ds : List Document)
        → before floats orders x d ≡ false
        → NoneBefore x ds
        → NoneBefore d ds
    NoneBefore-behind d x [] h n = tt
    NoneBefore-behind d x (e ∷ ds) h (n, ns) =
        (before-behind floats order orders e x d n h, NoneBefore-behind d x ds h ns)

    NoneBefore-insert_stable :
        (x d : Document) (ds : List Document)
        → before floats orders d x ≡ false
        → NoneBefore x ds
        → NoneBefore x (insert_stable floats orders d ds)
    unfolding insert_stable
    NoneBefore-insert_stable x d [] h n = (h, tt)
    NoneBefore-insert_stable x d (e ∷ ds) h (n, ns) = elim (Bool-cases (before floats orders e d)) [
      | inl f ↦ rw f (n, NoneBefore-insert_stable x d ds h ns)
      | inr f ↦ rw f (h, (n, ns))
    ]

    insert_stable-InOrder :
        (d : Document) (ds : List Document)
        → InOrder ds
        → InOrder (insert_stable floats orders d ds)
    unfolding insert_stable
    insert_stable-InOrder d [] h = (tt, tt)
    insert_stable-InOrder d (x ∷ ds) (n, h) = elim (Bool-cases (before floats orders x d)) [
      | inl e ↦ rw e (
        NoneBefore-insert_stable x d ds (before-asym floats order.asym orders x d e) n,
        insert_stable-InOrder d ds h,
      )
      | inr e ↦ rw e ((e, NoneBefore-behind d x ds e n), (n, h))
    ]

    apply_order_by-InOrder : (ds : List Document) → InOrder (apply_order_by floats orders ds)
    unfolding apply_order_by
    apply_order_by-InOrder [] = tt
    apply_order_by-InOrder (d ∷ ds) =
        insert_stable-InOrder d (apply_order_by floats orders ds) (apply_order_by-InOrder ds)

  select-insert_stable :
      (p : Document → Bool) (d : Document) (ds : List Document)
      → ((a b : Document) → p a ≡ true → p b ≡ true → before floats orders a b ≡ false)
      → select p (insert_stable floats orders d ds) ≡ select p (d ∷ ds)
  unfolding insert_stable select
  select-insert_stable p d [] level = refl
  select-insert_stable p d (x ∷ ds) level = elim (Bool-cases (before floats orders x d)) [
    | inl e ↦ rw e (elim (Bool-cases (p x)) [
      | inl f ↦ elim (Bool-cases (p d)) [
        | inl g ↦ false→ne (level x d f g) e
        | inr g ↦ rw (f, select-insert_stable p d ds level, g) refl
      ]
      | inr f ↦ rw (f, select-insert_stable p d ds level) refl
    ])
    | inr e ↦ rw e refl
  ]

  select-apply_order_by :
      (p : Document → Bool) (ds : List Document)
      → ((a b : Document) → p a ≡ true → p b ≡ true → before floats orders a b ≡ false)
      → select p (apply_order_by floats orders ds) ≡ select p ds
  unfolding apply_order_by select
  select-apply_order_by p [] level = refl
  select-apply_order_by p (d ∷ ds) level =
      select-insert_stable p d (apply_order_by floats orders ds) level
      ∙ rw (select-apply_order_by p ds level) refl

-- Sorting leaves no document anywhere behind one that it belongs in front of; and of any documents
-- that are level with each other it leaves each as often as before, in their old order. Asked: that
-- of two floats at most one is less, and that a float that is not less than a number, which is not
-- less than a third float, is not less than that one.
pub apply_order_by_lem :
    (floats : Floats) (orders : List Order) (ds : List Document) (p : Document → Bool)
    → OrdersFloats floats
    → ((a b : Document) → p a ≡ true → p b ≡ true → before floats orders a b ≡ false)
    → InOrder floats orders (apply_order_by floats orders ds)
      × (select p (apply_order_by floats orders ds) ≡ select p ds)
apply_order_by_lem floats orders ds p order level =
    (apply_order_by-InOrder floats orders order ds, select-apply_order_by floats orders p ds level)
