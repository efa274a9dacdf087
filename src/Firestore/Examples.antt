-- ===== src/Firestore/Examples.antt =====
-- Concrete stores, values and queries that the theorems on Firestore are applied to.
use blitzy_localgcp.Firestore.Joins.{OrdersFloats}
use blitzy_localgcp.Base.{
  ℕ, ◌+◌, ◌%◌, ◌^◌, ◌≡◌, refl, List, [], ◌∷◌, length, map, drop, select, exists_in, Option, none,
  some, ok, err, bytes, Str, str_eq, Dict, lookup, has_key, insert, Bool, true, false, ◌&&◌, ltb,
  if◌then◌else◌, pos, arith,
}
use blitzy_localgcp.Firestore.Data.{
  Value, string_value, integer_value, array_value, element, no_elements, Document, StoredDocument,
  Store,
}
use blitzy_localgcp.Firestore.Watch.{
  matches, change_log_size, window, gap, changes_since, encode_resume_token, decode_resume_token,
}
use blitzy_localgcp.Firestore.Persistence.{ProtoJson}
use blitzy_localgcp.Firestore.{new_store, field_of, update_document}
use blitzy_localgcp.Firestore.Ring.{last_n}
use blitzy_localgcp.Firestore.Calls.{Call, create, update, delete, watch, run, Feed, feed, fresh}
use blitzy_localgcp.Firestore.Refine.{run_refines}
use blitzy_localgcp.Firestore.Resume.{changes_since-run}
use blitzy_localgcp.Firestore.Tokens.{decode_resume_token-encode}
use blitzy_localgcp.Firestore.Masks.{update_document_lem}
use blitzy_localgcp.Firestore.Compare.{Floats, type_order, compare_present, compare_values}
use blitzy_localgcp.Firestore.Query.{is_zero, order_value}
use blitzy_localgcp.Firestore.Query.{
  Filter, field_filter, composite_filter, filter_then, no_filters, or_op, and_op, equal,
  greater_than, array_contains_op, Order, before, apply_filter, apply_order_by,
}
use blitzy_localgcp.Firestore.Filters.{satisfies, apply_filter_lem}
use blitzy_localgcp.Firestore.Ordering.{InOrder, apply_order_by_lem}

abbrev plain_json : ProtoJson
plain_json = record { marshal = λ fields. ok none; unmarshal = λ text. ok none }

abbrev some_calls : List Call
some_calls =
    create 7 (bytes "c/a") (some ((bytes "n", integer_value (pos 1)) ∷ []))
    ∷ watch 1 (bytes "c/") []
    ∷ update 8 (bytes "c/a") (some ((bytes "n", integer_value (pos 2)) ∷ [])) (bytes "n" ∷ [])
    ∷ create 9 (bytes "d/b") none
    ∷ delete (bytes "c/a")
    ∷ []

abbrev first_store : Store
first_store = new_store plain_json [] none

abbrev last_store : Store
last_store = run plain_json first_store some_calls

abbrev told : Feed
told = feed (record { docs = first_store.docs; events = [] }) some_calls

run_refines_example :
    (last_store.docs ≡ told.docs)
    × (last_store.seq ≡ length told.events % 2 ^ 64)
    × (window change_log_size last_store.change_log last_store.log_start last_store.log_len
        ≡ map some (last_n change_log_size told.events))
run_refines_example = run_refines plain_json [] none some_calls

told_few : length told.events ≡ 4
unfolding feed new_store lookup has_key str_eq bytes insert
told_few = refl

changes_since-run_example : changes_since 1 (bytes "c/") [] last_store ≡ (
    if ltb (1 + change_log_size) (length told.events)
    then err gap
    else ok (select (λ e. matches (bytes "c/") [] e.doc_name) (drop 1 told.events)))
changes_since-run_example =
    changes_since-run plain_json [] none some_calls 1 (bytes "c/") [] (omega (arith, told_few))
      (omega arith)

decode_resume_token-encode_example : decode_resume_token (encode_resume_token 258) ≡ some 258
decode_resume_token-encode_example = decode_resume_token-encode 258 (omega arith)

abbrev old_document : StoredDocument
old_document =
    fresh 7 (some ((bytes "n", integer_value (pos 1)) ∷ (bytes "m", integer_value (pos 5)) ∷ []))

abbrev held_store : Store
held_store = record first_store { docs = (bytes "c/a", old_document) ∷ [] }

abbrev new_fields : Option (Dict Value)
new_fields = some ((bytes "n", integer_value (pos 2)) ∷ [])

held : lookup (bytes "c/a") held_store.docs ≡ some old_document
unfolding lookup bytes str_eq
held = refl

update_document_lem_example :
    let (doc, t) =
      update_document plain_json 9
        (bytes "c/a")
        new_fields
        (bytes "n" ∷ bytes "x" ∷ [])
        held_store in
    ((k : Str)
      → field_of k doc.fields ≡ (
          if exists_in (str_eq k) (bytes "n" ∷ bytes "x" ∷ [])
          then field_of k new_fields
          else field_of k old_document.fields))
    × ((other : Str)
        → lookup other t.docs ≡ (
            if str_eq (bytes "c/a") other
            then some (record { fields = doc.fields; create_time = some 7; update_time = some 9 })
            else lookup other held_store.docs))
update_document_lem_example =
    update_document_lem plain_json 9 (bytes "c/a") (bytes "n") new_fields (bytes "x" ∷ [])
      held_store old_document held

-- Patterns ordered as numbers, none of them not a number.
abbrev plain_floats : Floats
plain_floats = record {
  of_int = λ n. elim n [ pos m ↦ m | _ ↦ 0 ];
  is_nan = λ x. false;
  less = λ x y. ltb x y;
}

abbrev tagged : Str → ℕ → Document
tagged name n = record {
  name = name;
  fields = some (
      (bytes "n", integer_value (pos n))
      ∷ (bytes "t", array_value (element (string_value (bytes "go")) no_elements))
      ∷ []);
  create_time = some 1;
  update_time = some 1;
}

abbrev two_documents : List Document
two_documents = tagged (bytes "c/a") 3 ∷ tagged (bytes "c/b") 1 ∷ []

abbrev by_name : Str → Document
by_name name = if str_eq name (bytes "c/a") then tagged name 3 else tagged name 1

abbrev nested_filter : Filter
nested_filter = composite_filter and_op (
    filter_then
      (composite_filter or_op (
        filter_then (field_filter (bytes "n") equal (some (integer_value (pos 1)))) (
          filter_then (field_filter (bytes "n") greater_than (some (integer_value (pos 2))))
            no_filters)))
      (filter_then (field_filter (bytes "t") array_contains_op (some (string_value (bytes "go"))))
        no_filters))

apply_filter_lem_example :
    exists_in
      (λ d. str_eq d.name (bytes "c/b"))
      (apply_filter plain_floats nested_filter two_documents)
    ≡ exists_in
        (λ d. satisfies plain_floats nested_filter d && str_eq d.name (bytes "c/b"))
        two_documents
apply_filter_lem_example =
    apply_filter_lem plain_floats by_name nested_filter two_documents
      (unfold str_eq bytes in (refl, (refl, tt))) (λ d. str_eq d.name (bytes "c/b"))

abbrev by_number : List Order
by_number = (record { field_path = bytes "n"; descending = false }) ∷ []

less_asym : (x y : ℕ) → ltb x y ≡ true → ltb y x ≡ false
less_asym x y h = ground arith

abbrev is_none : Option Value → Bool
is_none none = true
is_none (some v) = false

-- The documents without the field of the order are level.
abbrev lacks_number : Document → Bool
lacks_number d = is_none (order_value plain_floats (bytes "n") d)

none_of : (o : Option Value) → is_none o ≡ true → o ≡ none
none_of none h = refl
none_of (some v) h = cc h

lacking_level :
    (a b : Document)
    → lacks_number a ≡ true
    → lacks_number b ≡ true
    → before plain_floats by_number a b ≡ false
unfolding before compare_values type_order is_zero compare_present
lacking_level a b h g = rw (none_of _ h, none_of _ g) refl

less_behind : (x y z : ℕ) → false ≡ false → ltb x y ≡ false → ltb y z ≡ false → ltb x z ≡ false
less_behind x y z n h k = ground arith

plain_floats-OrdersFloats : OrdersFloats plain_floats
plain_floats-OrdersFloats = record { asym = less_asym; behind = less_behind }

abbrev bare : Str → Document
bare name = record { name = name; fields = some []; create_time = some 1; update_time = some 1 }

abbrev four_documents : List Document
four_documents =
    bare (bytes "c/z") ∷ tagged (bytes "c/a") 3 ∷ bare (bytes "c/y") ∷ tagged (bytes "c/b") 1 ∷ []

apply_order_by_lem_example :
    InOrder plain_floats by_number (apply_order_by plain_floats by_number four_documents)
    × (select lacks_number (apply_order_by plain_floats by_number four_documents)
        ≡ select lacks_number four_documents)
apply_order_by_lem_example =
    apply_order_by_lem plain_floats by_number four_documents lacks_number plain_floats-OrdersFloats
      lacking_level
