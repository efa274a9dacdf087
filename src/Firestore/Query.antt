-- ===== src/Firestore/Query.antt =====
-- internal/firestore/query.go: the filters, the order and the page of a query.
use blitzy_localgcp.Base.{
  zero, suc, List, [], ◌∷◌, ◌++◌, length, take, drop, exists_in, select, Option, none, some, Bool,
  true, false, not, Str, bytes, str_eq, split, Dict, lookup, leb, ltb, if◌then◌else◌, ℤ, pos,
  negsuc, int_ltb, int_leb,
}
use blitzy_localgcp.Firestore.Data.{
  Value, elements, entries, array_value, map_value, string_value, Document, StoredDocument,
}
use blitzy_localgcp.Firestore.Compare.{Floats, compare_values}
use blitzy_localgcp.Firestore.{list_documents}

pub data Operator : Type 0 where
  equal : Operator
  not_equal : Operator
  less_than : Operator
  less_than_or_equal : Operator
  greater_than : Operator
  greater_than_or_equal : Operator
  in_array : Operator
  not_in_array : Operator
  array_contains_op : Operator
  array_contains_any_op : Operator
  other_operator : Operator

pub data CompositeOperator : Type 0 where
  and_op : CompositeOperator
  or_op : CompositeOperator
  other_composite : CompositeOperator

mutual
  pub data Filter : Type 0 where
    field_filter : Str → Operator → Option Value → Filter
    composite_filter : CompositeOperator → Filters → Filter
    other_filter : Filter

  pub data Filters : Type 0 where
    no_filters : Filters
    filter_then : Filter → Filters → Filters

pub record Order : Type 0 where
  pub field_path : Str
  pub descending : Bool

-- A selector is the name of its collection.
pub record StructuredQuery : Type 0 where
  pub from : List Str
  pub where_filter : Option Filter
  pub order_by : List Order
  pub offset : ℤ
  pub limit : Option ℤ

unfoldable pub get_path : List Str → Dict Value → Option Value
unfolding entries
get_path [] fields = none
get_path (p ∷ []) fields = lookup p fields
get_path (p ∷ q ∷ ps) fields = elim (lookup p fields) [
  | some (map_value inner) ↦ get_path (q ∷ ps) (entries inner)
  | _ ↦ none
]

-- The path is split at its dots.
unfoldable pub get_field_value : Option (Dict Value) → Str → Option Value
unfolding get_path
get_field_value none path = none
get_field_value (some fields) path = get_path (split 46 path) fields

-- GetArrayValue
unfoldable pub get_array : Option Value → Option (List Value)
unfolding elements
get_array (some (array_value vs)) = some (elements vs)
get_array v = none

unfoldable pub is_zero : ℤ → Bool
is_zero (pos zero) = true
is_zero (pos (suc n)) = false
is_zero (negsuc n) = false

-- The names that are seen, and the documents so far.
unfoldable pub add_unseen : List Document → List Str × List Document → List Str × List Document
add_unseen [] state = state
add_unseen (d ∷ ds) (seen, result) =
    if exists_in (str_eq d.name) seen
    then add_unseen ds (seen, result)
    else add_unseen ds (d.name ∷ seen, result ++ d ∷ [])

module _ (floats : Floats) where
  unfoldable pub value_in_array : Option Value → Option Value → Bool
  unfolding get_array is_zero
  value_in_array doc_val target = elim (get_array target) [
    | none ↦ false
    | some vs ↦ exists_in (λ v. is_zero (compare_values floats doc_val (some v))) vs
  ]

  unfoldable pub array_contains : Option Value → Option Value → Bool
  unfolding get_array is_zero
  array_contains doc_val target = elim (get_array doc_val) [
    | none ↦ false
    | some vs ↦ exists_in (λ v. is_zero (compare_values floats (some v) target)) vs
  ]

  unfoldable pub array_contains_any : Option Value → Option Value → Bool
  unfolding get_array is_zero
  array_contains_any doc_val target = elim (get_array doc_val) [
    | none ↦ false
    | some dvs ↦ elim (get_array target) [
      | none ↦ false
      | some tvs ↦
          exists_in
            (λ tv. exists_in (λ dv. is_zero (compare_values floats (some dv) (some tv))) dvs) tvs
    ]
  ]

  unfoldable pub matches_op : Option Value → Option Value → Operator → Bool
  unfolding is_zero value_in_array array_contains array_contains_any
  matches_op doc_val target equal = is_zero (compare_values floats doc_val target)
  matches_op doc_val target not_equal = not (is_zero (compare_values floats doc_val target))
  matches_op doc_val target less_than = int_ltb (compare_values floats doc_val target) (pos 0)
  matches_op doc_val target less_than_or_equal =
      int_leb (compare_values floats doc_val target) (pos 0)
  matches_op doc_val target greater_than = int_ltb (pos 0) (compare_values floats doc_val target)
  matches_op doc_val target greater_than_or_equal =
      int_leb (pos 0) (compare_values floats doc_val target)
  matches_op doc_val target in_array = value_in_array doc_val target
  matches_op doc_val target not_in_array = not (value_in_array doc_val target)
  matches_op doc_val target array_contains_op = array_contains doc_val target
  matches_op doc_val target array_contains_any_op = array_contains_any doc_val target
  matches_op doc_val target other_operator = false

  unfoldable pub field_matches : Str → Operator → Option Value → Document → Bool
  unfolding get_field_value matches_op
  field_matches path op target doc = matches_op (get_field_value doc.fields path) target op

  unfoldable pub apply_field_filter : Str → Operator → Option Value → List Document → List Document
  unfolding field_matches
  apply_field_filter path op target docs = select (field_matches path op target) docs

  unfoldable mutual
    unfolding apply_field_filter add_unseen

    pub apply_filter : Filter → List Document → List Document
    apply_filter (field_filter path op target) docs = apply_field_filter path op target docs
    apply_filter (composite_filter and_op fs) docs = apply_all fs docs
    apply_filter (composite_filter or_op fs) docs = (apply_any fs docs ([], [])).1
    apply_filter (composite_filter other_composite fs) docs = docs
    apply_filter other_filter docs = docs

    pub apply_all : Filters → List Document → List Document
    apply_all no_filters docs = docs
    apply_all (filter_then f fs) docs = apply_all fs (apply_filter f docs)

    pub apply_any : Filters → List Document → List Str × List Document → List Str × List Document
    apply_any no_filters docs state = state
    apply_any (filter_then f fs) docs state =
        apply_any fs docs (add_unseen (apply_filter f docs) state)

  unfoldable pub order_value : Str → Document → Option Value
  unfolding get_field_value
  order_value path doc =
      if str_eq path (bytes "__name__")
      then some (string_value doc.name)
      else get_field_value doc.fields path

  unfoldable pub before : List Order → Document → Document → Bool
  unfolding is_zero order_value
  before [] a b = false
  before (o ∷ orders) a b =
      let cmp = compare_values floats (order_value o.field_path a) (order_value o.field_path b) in
      let rest = before orders a b in
      if is_zero cmp
      then rest
      else (if o.descending then int_ltb (pos 0) cmp else int_ltb cmp (pos 0))

  -- sort.SliceStable, whose result does not depend on its steps for an order like `before`: a
  -- document goes in front of those that it is not behind of.
  unfoldable pub insert_stable : List Order → Document → List Document → List Document
  unfolding before
  insert_stable orders d [] = d ∷ []
  insert_stable orders d (x ∷ xs) =
      if before orders x d then x ∷ insert_stable orders d xs else d ∷ x ∷ xs

  unfoldable pub apply_order_by : List Order → List Document → List Document
  unfolding insert_stable
  apply_order_by orders [] = []
  apply_order_by orders (d ∷ ds) = insert_stable orders d (apply_order_by orders ds)

unfoldable pub collect_from_sources : Dict StoredDocument → Str → List Str → List Document
collect_from_sources docs parent [] = []
collect_from_sources docs parent (col ∷ cols) =
    let rest = collect_from_sources docs parent cols in
    if str_eq col [] then rest else list_documents parent col docs ++ rest

unfoldable pub apply_offset : ℤ → List Document → List Document
apply_offset (negsuc n) docs = docs
apply_offset (pos n) docs =
    if ltb 0 n then (if leb (length docs) n then [] else drop n docs) else docs

-- docs[:lim] with a negative `lim` is a panic.
unfoldable pub apply_limit : Option ℤ → List Document → Option (List Document)
apply_limit none docs = some docs
apply_limit (some (negsuc n)) docs = none
apply_limit (some (pos n)) docs = some (if ltb n (length docs) then take n docs else docs)

unfoldable pub execute_query :
    Floats → Dict StoredDocument → Str → StructuredQuery → Option (List Document)
unfolding collect_from_sources apply_filter apply_order_by apply_offset apply_limit
execute_query floats docs parent q =
    let found = collect_from_sources docs parent q.from in
    let kept : List Document = elim q.where_filter [
      | none ↦ found
      | some f ↦ apply_filter floats f found
    ] in
    let sorted : List Document = elim q.order_by [
      | [] ↦ kept
      | o ∷ os ↦ apply_order_by floats (o ∷ os) kept
    ] in
    apply_limit q.limit (apply_offset q.offset sorted)
