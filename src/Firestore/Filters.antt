-- ===== src/Firestore/Filters.antt =====
-- internal/firestore/query.go: which documents pass a filter.
use blitzy_localgcp.Base.{
  ◌≡◌, refl, sym, ap, ◌∙◌, List, [], ◌∷◌, ◌++◌, exists_in, select, Bool, true, false, ◌||◌, ◌&&◌,
  Bool-cases, inl, inr, Str, str_eq, str_eq_iff, arith,
}
use blitzy_localgcp.Firestore.Data.{Document}
use blitzy_localgcp.Firestore.Compare.{Floats}
use blitzy_localgcp.Firestore.Query.{
  Filter, Filters, field_filter, composite_filter, other_filter, no_filters, filter_then, and_op,
  or_op, other_composite, field_matches, apply_field_filter, add_unseen, apply_filter, apply_all,
  apply_any,
}

-- What a filter says of one document.
module _ (floats : Floats) where
  unfoldable mutual
    pub satisfies : Filter → Document → Bool
    satisfies (field_filter path op target) d = field_matches floats path op target d
    satisfies (composite_filter and_op fs) d = satisfies_all fs d
    satisfies (composite_filter or_op fs) d = satisfies_any fs d
    satisfies (composite_filter other_composite fs) d = true
    satisfies other_filter d = true

    pub satisfies_all : Filters → Document → Bool
    satisfies_all no_filters d = true
    satisfies_all (filter_then f fs) d = satisfies f d && satisfies_all fs d

    pub satisfies_any : Filters → Document → Bool
    satisfies_any no_filters d = false
    satisfies_any (filter_then f fs) d = satisfies f d || satisfies_any fs d

-- Every document of the list is the one that `by_name` has under its name.
abbrev pub IsNamed : (Str → Document) → List Document → Type 0
IsNamed by_name [] = Unit
IsNamed by_name (d ∷ ds) = (by_name d.name ≡ d) × IsNamed by_name ds

module _ {ℓ} {A : Type ℓ} where
  exists_in-append :
      (p : A → Bool) (xs ys : List A) → exists_in p (xs ++ ys) ≡ (exists_in p xs || exists_in p ys)
  unfolding exists_in
  exists_in-append p [] ys = refl
  exists_in-append p (x ∷ xs) ys = ground (arith, exists_in-append p xs ys)

  exists_in-select :
      (m p : A → Bool) (xs : List A) → exists_in p (select m xs) ≡ exists_in (λ x. m x && p x) xs
  unfolding exists_in select
  exists_in-select m p [] = refl
  exists_in-select m p (x ∷ xs) = elim (Bool-cases (m x)) [
    | inl e ↦ rw e (ap (λ b. p x || b) (exists_in-select m p xs))
    | inr e ↦ rw e (exists_in-select m p xs)
  ]

  exists_in-or :
      (p q : A → Bool) (xs : List A)
      → (exists_in p xs || exists_in q xs) ≡ exists_in (λ x. p x || q x) xs
  unfolding exists_in
  exists_in-or p q [] = refl
  exists_in-or p q (x ∷ xs) = ground (arith, exists_in-or p q xs)

  exists_in-same :
      (p q : A → Bool) (xs : List A) → ((x : A) → p x ≡ q x) → exists_in p xs ≡ exists_in q xs
  unfolding exists_in
  exists_in-same p q [] h = refl
  exists_in-same p q (x ∷ xs) h = rw (h x, exists_in-same p q xs h) refl

  exists_in-never : (xs : List A) → exists_in (λ x. false) xs ≡ false
  unfolding exists_in
  exists_in-never [] = refl
  exists_in-never (x ∷ xs) = exists_in-never xs

select-IsNamed :
    (by_name : Str → Document) (m : Document → Bool) (ds : List Document)
    → IsNamed by_name ds
    → IsNamed by_name (select m ds)
unfolding select
select-IsNamed by_name m [] h = tt
select-IsNamed by_name m (d ∷ ds) h = elim (Bool-cases (m d)) [
  | inl e ↦ rw e (h.0, select-IsNamed by_name m ds h.1)
  | inr e ↦ rw e (select-IsNamed by_name m ds h.1)
]

snoc-IsNamed :
    (by_name : Str → Document) (ds : List Document) (d : Document)
    → IsNamed by_name ds
    → by_name d.name ≡ d
    → IsNamed by_name (ds ++ d ∷ [])
snoc-IsNamed by_name [] d h e = (e, tt)
snoc-IsNamed by_name (x ∷ ds) d h e = (h.0, snoc-IsNamed by_name ds d h.1 e)

-- `seen` has the names of the result.
record Tracks (by_name : Str → Document) (state : List Str × List Document) : Type 0 where
  named : IsNamed by_name state.1
  names : (n : Str) → exists_in (str_eq n) state.0 ≡ exists_in (λ d. str_eq n d.name) state.1

named_seen :
    (by_name : Str → Document) (p : Document → Bool) (d : Document) (result : List Document)
    → IsNamed by_name result
    → by_name d.name ≡ d
    → exists_in (λ x. str_eq d.name x.name) result ≡ true
    → p d ≡ true
    → exists_in p result ≡ true
unfolding exists_in
named_seen by_name p d [] h e seen passes = cc seen
named_seen by_name p d (x ∷ result) h e seen passes = elim (Bool-cases (str_eq d.name x.name)) [
  | inl f ↦
      let same : d ≡ x = sym e ∙ ap by_name ((str_eq_iff d.name x.name).0 f) ∙ h.0 in
      rw (ap p (sym same) ∙ passes) refl
  | inr f ↦
      let later = named_seen by_name p d result h.1 e (rw f at seen) passes in ground (arith, later)
]

module _ (by_name : Str → Document) (p : Document → Bool) where
  add_unseen-Tracks :
      (ds : List Document) (state : List Str × List Document)
      → IsNamed by_name ds
      → Tracks by_name state
      → Tracks by_name (add_unseen ds state)
        × (exists_in p (add_unseen ds state).1 ≡ (exists_in p state.1 || exists_in p ds))
  unfolding add_unseen exists_in
  add_unseen-Tracks [] state h t = (t, ground arith)
  add_unseen-Tracks (d ∷ ds) (seen, result) h t =
      elim (Bool-cases (exists_in (str_eq d.name) seen)) [
        | inl e ↦
            let (t', later) = add_unseen-Tracks ds (seen, result) h.1 t in
            rw e (t', later ∙ known (exists_in p ds) e)
        | inr e ↦
            let (t', later) =
              add_unseen-Tracks ds (d.name ∷ seen, result ++ d ∷ []) h.1 (grown e) in
            rw e (t', later ∙ added)
      ]
    where
      -- A document whose name is seen is in the result.
      known :
          (b : Bool)
          → exists_in (str_eq d.name) seen ≡ true
          → (exists_in p result || b) ≡ (exists_in p result || (p d || b))
      known b e = elim (Bool-cases (p d)) [
        | inl f ↦
            let there = named_seen by_name p d result t.named h.0 (sym (t.names d.name) ∙ e) f in
            ground (arith, there, f)
        | inr f ↦ ground (arith, f)
      ]

      grown :
          exists_in (str_eq d.name) seen ≡ false → Tracks by_name (d.name ∷ seen, result ++ d ∷ [])
      grown e = record {
        named = snoc-IsNamed by_name result d t.named h.0;
        names = λ n.
            sym
              (exists_in-append (λ x. str_eq n x.name) result (d ∷ []) ∙ ground (arith, t.names n));
      }

      added :
          (exists_in p (result ++ d ∷ []) || exists_in p ds)
          ≡ (exists_in p result || (p d || exists_in p ds))
      added = ground (arith, exists_in-append p result (d ∷ []))

regroup : (m a b c q u : Bool) → m ≡ (a || b) → b ≡ q → (q || c) ≡ u → (m || c) ≡ (a || u)
regroup m a b c q u h g e = ground (arith, h, g, e)

module _ (floats : Floats) (by_name : Str → Document) where
  mutual
    unfolding apply_filter apply_field_filter satisfies exists_in

    applied :
        (f : Filter) (p : Document → Bool) (docs : List Document)
        → IsNamed by_name docs
        → IsNamed by_name (apply_filter floats f docs)
          × (exists_in p (apply_filter floats f docs)
              ≡ exists_in (λ d. satisfies floats f d && p d) docs)
    applied (field_filter path op target) p docs h = (
      select-IsNamed by_name (field_matches floats path op target) docs h,
      exists_in-select (field_matches floats path op target) p docs,
    )
    applied (composite_filter and_op fs) p docs h = applied_all fs p docs h
    applied (composite_filter or_op fs) p docs h =
        let (t, found) =
          applied_any fs p docs ([], []) h (record { named = tt; names = λ n. refl }) in
        (t.named, found)
    applied (composite_filter other_composite fs) p docs h = (h, refl)
    applied other_filter p docs h = (h, refl)

    applied_all :
        (fs : Filters) (p : Document → Bool) (docs : List Document)
        → IsNamed by_name docs
        → IsNamed by_name (apply_all floats fs docs)
          × (exists_in p (apply_all floats fs docs)
              ≡ exists_in (λ d. satisfies_all floats fs d && p d) docs)
    applied_all no_filters p docs h = (h, refl)
    applied_all (filter_then f fs) p docs h =
        let q : Document → Bool = λ d. satisfies_all floats fs d && p d in
        let (first, one) = applied f q docs h in
        let (last, rest) = applied_all fs p (apply_filter floats f docs) first in
        (last, rest ∙ one ∙ exists_in-same _ _ docs (λ d. ground arith))

    applied_any :
        (fs : Filters) (p : Document → Bool) (docs : List Document)
        (state : List Str × List Document)
        → IsNamed by_name docs
        → Tracks by_name state
        → Tracks by_name (apply_any floats fs docs state)
          × (exists_in p (apply_any floats fs docs state).1
              ≡ (exists_in p state.1 || exists_in (λ d. satisfies_any floats fs d && p d) docs))
    applied_any no_filters p docs state h t = (t, rw (exists_in-never docs) (ground arith))
    applied_any (filter_then f fs) p docs state h t =
        let (first, one) = applied f p docs h in
        let matched = apply_filter floats f docs in
        let (t', added) = add_unseen-Tracks by_name p matched state first t in
        let (last, rest) = applied_any fs p docs (add_unseen matched state) h t' in
        let q : Document → Bool = λ d. satisfies floats f d && p d in
        let r : Document → Bool = λ d. satisfies_any floats fs d && p d in
        let u : Document → Bool = λ d. satisfies_any floats (filter_then f fs) d && p d in
        let both : (exists_in q docs || exists_in r docs) ≡ exists_in u docs =
          exists_in-or q r docs ∙ exists_in-same _ u docs (λ d. ground arith) in
        (last, rest ∙ regroup _ _ _ _ _ _ added one both)

-- The documents that a filter leaves are, as a set, those of the list that it is true of, for any
-- nesting of AND and OR, where the names of the documents tell them apart.
pub apply_filter_lem :
    (floats : Floats) (by_name : Str → Document) (f : Filter) (docs : List Document)
    → IsNamed by_name docs
    → (p : Document → Bool)
    → exists_in p (apply_filter floats f docs) ≡ exists_in (λ d. satisfies floats f d && p d) docs
apply_filter_lem floats by_name f docs h p = (applied floats by_name f p docs h).1
