-- ===== src/Gcs/Listing.antt =====
-- internal/gcs/store.go: what a listing of a bucket has.
use blitzy_localgcp.Base.{
  ◌≡◌, refl, ap, ◌∙◌, List, [], ◌∷◌, ◌++◌, length, drop, Option, none, some, Bool, true, false, not,
  ◌&&◌, ◌||◌, ◌⊎◌, Bool-cases, Option-cases, inl, inr, arith, exists_in, Str, str_eq, str_eq_iff,
  has_prefix, contains, text_before, Dict, lookup, insert, keys, insert_sorted, sort_by_name,
  if◌then◌else◌, pos,
}
use blitzy_localgcp.Gcs.Data.{Object, StoredObject, Store}
use blitzy_localgcp.Gcs.{
  Place, outside, item, inside, place_of, items_of, prefixes_of, first_items, list_objects,
}

-- An object is listed if its name has the prefix and no delimiter behind it.
unfoldable pub is_listed : Str → Str → Str → Bool
is_listed prefix delimiter name =
    has_prefix name prefix
    && (str_eq delimiter [] || not (contains (drop (length prefix) name) delimiter))

-- The pseudo-directory of a name that has the delimiter behind the prefix.
unfoldable pub directory_of : Str → Str → Str → Option Str
directory_of prefix delimiter name =
    if has_prefix name prefix && not (str_eq delimiter [])
    then elim (text_before delimiter (drop (length prefix) name)) [
      | none ↦ none
      | some w ↦ some (prefix ++ w ++ delimiter)
    ]
    else none

abbrev pub holds : (Str → Bool) → Option Str → Bool
holds p none = false
holds p (some w) = p w

module _ {ℓ} {A : Type ℓ} (name : A → Str) (p : A → Bool) where
  exists_in-insert_sorted :
      (a : A) (xs : List A) → exists_in p (insert_sorted name a xs) ≡ (p a || exists_in p xs)
  unfolding insert_sorted exists_in
  exists_in-insert_sorted a [] = refl
  exists_in-insert_sorted a (x ∷ xs) = ground (arith, exists_in-insert_sorted a xs)

  exists_in-sort_by_name : (xs : List A) → exists_in p (sort_by_name name xs) ≡ exists_in p xs
  unfolding sort_by_name exists_in
  exists_in-sort_by_name [] = refl
  exists_in-sort_by_name (x ∷ xs) =
      exists_in-insert_sorted x (sort_by_name name xs)
      ∙ ap (λ b. p x || b) (exists_in-sort_by_name xs)

exists_in-insert :
    (p : Str → Bool) (k : Str) (m : Dict (Unit {0}))
    → exists_in p (keys (insert k tt m)) ≡ (p k || exists_in p (keys m))
unfolding insert keys exists_in
exists_in-insert p k [] = refl
exists_in-insert p k ((j, v) ∷ m) = elim (Bool-cases (str_eq j k)) [
  | inl e ↦ let same : p j ≡ p k = ap p ((str_eq_iff j k).0 e) in rw e (ground (arith, same))
  | inr e ↦ rw e (ground (arith, exists_in-insert p k m))
]

abbrev is_some : Option Str → Bool
is_some none = false
is_some (some w) = true

text_before-contains : (sep s : Str) → is_some (text_before sep s) ≡ contains s sep
unfolding text_before contains
text_before-contains sep [] = ground arith
text_before-contains sep (x ∷ s) = elim (Bool-cases (has_prefix (x ∷ s) sep)) [
  | inl e ↦ rw e refl
  | inr e ↦
      rw (e, ← text_before-contains sep s)
        (elim (Option-cases (text_before sep s)) [ inl f ↦ rw f refl | inr (w, f) ↦ rw f refl ])
]

-- The test of the code lets every name pass if there is no prefix, and so does the prefix test.
no_prefix :
    (prefix name : Str)
    → (not (str_eq prefix []) && not (has_prefix name prefix)) ≡ not (has_prefix name prefix)
unfolding has_prefix str_eq
no_prefix [] name = refl
no_prefix (x ∷ prefix) name = refl

abbrev is_item : Place → Bool
is_item outside = false
is_item item = true
is_item (inside w) = false

abbrev is_inside : (Str → Bool) → Place → Bool
is_inside p outside = false
is_inside p item = false
is_inside p (inside w) = p w

module _ (prefix delimiter name : Str) where
  -- The three places, by the tests that lead to them.
  place_of-item : is_item (place_of prefix delimiter name) ≡ is_listed prefix delimiter name
  unfolding place_of is_listed
  place_of-item = rw (no_prefix prefix name) (elim (Bool-cases (has_prefix name prefix)) [
    | inr e ↦ rw e refl
    | inl e ↦ elim (Bool-cases (str_eq delimiter [])) [
      | inl f ↦ rw (e, f) refl
      | inr f ↦
          rw (e, f, ← text_before-contains delimiter (drop (length prefix) name))
            (elim (Option-cases (text_before delimiter (drop (length prefix) name))) [
              | inl g ↦ rw g refl
              | inr (w, g) ↦ rw g refl
            ])
    ]
  ])

  place_of-inside :
      (p : Str → Bool)
      → is_inside p (place_of prefix delimiter name) ≡ holds p (directory_of prefix delimiter name)
  unfolding place_of directory_of
  place_of-inside p = rw (no_prefix prefix name) (elim (Bool-cases (has_prefix name prefix)) [
    | inr e ↦ rw e refl
    | inl e ↦ elim (Bool-cases (str_eq delimiter [])) [
      | inl f ↦ rw (e, f) refl
      | inr f ↦ elim (Option-cases (text_before delimiter (drop (length prefix) name))) [
        | inl g ↦ rw (e, f, g) refl
        | inr (w, g) ↦ rw (e, f, g) refl
      ]
    ]
  ])

Place-cases : (l : Place) → (l ≡ outside) ⊎ ((l ≡ item) ⊎ ((w : Str) × (l ≡ inside w)))
Place-cases outside = inl refl
Place-cases item = inr (inl refl)
Place-cases (inside w) = inr (inr (w, refl))

module _ (prefix delimiter : Str) where
  exists_in-items_of :
      (p : Object → Bool) (objs : Dict StoredObject)
      → exists_in p (items_of prefix delimiter objs)
        ≡ exists_in (λ e. is_listed prefix delimiter e.0 && p e.1.meta) objs
  unfolding items_of exists_in
  exists_in-items_of p [] = refl
  exists_in-items_of p ((name, so) ∷ objs) =
      rw (← place_of-item prefix delimiter name, ← exists_in-items_of p objs)
        (elim (Place-cases (place_of prefix delimiter name)) [
          | inl e ↦ rw (items_of, e) refl
          | inr (inl e) ↦ rw (items_of, e) refl
          | inr (inr (w, e)) ↦ rw (items_of, e) refl
        ])

  exists_in-prefixes_of :
      (p : Str → Bool) (objs : Dict StoredObject)
      → exists_in p (keys (prefixes_of prefix delimiter objs))
        ≡ exists_in (λ e. holds p (directory_of prefix delimiter e.0)) objs
  unfolding prefixes_of exists_in
  exists_in-prefixes_of p [] = unfold keys in refl
  exists_in-prefixes_of p ((name, so) ∷ objs) =
      rw (← place_of-inside prefix delimiter name p, ← exists_in-prefixes_of p objs)
        (elim (Place-cases (place_of prefix delimiter name)) [
          | inl e ↦ rw (prefixes_of, e) refl
          | inr (inl e) ↦ rw (prefixes_of, e) refl
          | inr (inr (w, e)) ↦
              rw (prefixes_of, e) (exists_in-insert p w (prefixes_of prefix delimiter objs))
        ])

-- A listing without a limit has, as sets, the objects whose names have the prefix and no delimiter
-- behind it, and the pseudo-directories of the other names that have the prefix: the name up to
-- and with the first delimiter behind the prefix.
pub list_objects_lem :
    (s : Store) (bucket prefix delimiter : Str) (objs : Dict StoredObject) (p : Object → Bool)
    (q : Str → Bool)
    → lookup bucket s.objects ≡ some objs
    → let (items, prefixes) = list_objects s bucket prefix delimiter (pos 0) in
      (exists_in p items ≡ exists_in (λ e. is_listed prefix delimiter e.0 && p e.1.meta) objs)
      × (exists_in q prefixes ≡ exists_in (λ e. holds q (directory_of prefix delimiter e.0)) objs)
unfolding list_objects first_items
list_objects_lem s bucket prefix delimiter objs p q found =
    rw (list_objects, found, first_items)
      (
        exists_in-sort_by_name (λ o. o.name) p (items_of prefix delimiter objs)
            ∙ exists_in-items_of prefix delimiter p objs,
        exists_in-sort_by_name (λ w. w) q (keys (prefixes_of prefix delimiter objs))
            ∙ exists_in-prefixes_of prefix delimiter q objs,
      )
