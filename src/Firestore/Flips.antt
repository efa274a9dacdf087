-- ===== src/Firestore/Flips.antt =====
-- internal/firestore/query.go: two values compared the other way round.
use blitzy_localgcp.Base.{
  ℕ, zero, suc, ◌≡◌, refl, sym, ap, List, [], ◌∷◌, length, Option, none, some, Bool, true, false,
  Bool-cases, inl, inr, Str, str_ltb, arith, if◌then◌else◌, leb→le, subst, ℤ, pos, negsuc, int_ltb,
  int_leb,
}
use blitzy_localgcp.Firestore.Data.{
  Value, Document, null_value, boolean_value, integer_value, double_value, timestamp_value,
  string_value, bytes_value, reference_value, geo_point_value, array_value, map_value, no_value,
}
use blitzy_localgcp.Firestore.Compare.{
  Floats, type_order, bool_to_int, cmp_int, cmp_int64, cmp_int32, compare_strings, compare_from,
  compare_bytes, cmp_float, to_float64, compare_timestamps, compare_same, compare_present,
  compare_values, get_boolean, get_seconds, get_nanos, get_string, get_bytes, get_reference,
}
use blitzy_localgcp.Firestore.Query.{Order, is_zero, order_value, before}

-- The answer to the swapped question.
unfoldable pub flip : ℤ → ℤ
flip (pos zero) = pos 0
flip (pos (suc n)) = negsuc 0
flip (negsuc n) = pos 1

pub int_ltb-asym : (a b : ℤ) → int_ltb a b ≡ true → int_ltb b a ≡ false
int_ltb-asym (pos a) (pos b) h = ground arith
int_ltb-asym (pos a) (negsuc b) h = cc h
int_ltb-asym (negsuc a) (pos b) h = refl
int_ltb-asym (negsuc a) (negsuc b) h = ground arith

int_leb-antisym : (a b : ℤ) → int_leb a b ≡ true → int_leb b a ≡ true → a ≡ b
int_leb-antisym (pos a) (pos b) h g = ap pos (omega (arith, leb→le a b h, leb→le b a g))
int_leb-antisym (pos a) (negsuc b) h g = cc h
int_leb-antisym (negsuc a) (pos b) h g = cc g
int_leb-antisym (negsuc a) (negsuc b) h g = ap negsuc (omega (arith, leb→le b a h, leb→le a b g))

-- One turn of the comparison of two documents, and the same with them swapped.
swapped :
    (c : ℤ) (r q d : Bool)
    → (r ≡ true → q ≡ false)
    → (if is_zero c then r else (if d then int_ltb (pos 0) c else int_ltb c (pos 0))) ≡ true
    → (if is_zero (flip c)
        then q
        else (if d then int_ltb (pos 0) (flip c) else int_ltb (flip c) (pos 0)))
      ≡ false
unfolding flip is_zero
swapped (pos zero) r q d h g = h g
swapped (pos (suc n)) r q true h g = refl
swapped (pos (suc n)) r q false h g = ground (arith, g)
swapped (negsuc n) r q true h g = cc g
swapped (negsuc n) r q false h g = refl

-- The shape of every comparison: one test for less, one for greater.
flip-tests :
    (x y : Bool)
    → (x ≡ true → y ≡ false)
    → (if y then negsuc 0 else (if x then pos 1 else pos 0))
      ≡ flip (if x then negsuc 0 else (if y then pos 1 else pos 0))
unfolding flip
flip-tests true true h = cc (h refl)
flip-tests true false h = refl
flip-tests false true h = refl
flip-tests false false h = refl

pub str_ltb-asym : (s t : Str) → str_ltb s t ≡ true → str_ltb t s ≡ false
unfolding str_ltb
str_ltb-asym s [] h = cc h
str_ltb-asym [] (y ∷ t) h = refl
str_ltb-asym (x ∷ s) (y ∷ t) h = ground (arith, str_ltb-asym s t)

cmp_int-flip : (a b : ℤ) → cmp_int b a ≡ flip (cmp_int a b)
unfolding cmp_int
cmp_int-flip a b = flip-tests (int_ltb a b) (int_ltb b a) (int_ltb-asym a b)

compare_strings-flip : (s t : Str) → compare_strings t s ≡ flip (compare_strings s t)
unfolding compare_strings
compare_strings-flip s t = flip-tests (str_ltb s t) (str_ltb t s) (str_ltb-asym s t)

compare_from-flip :
    (la lb : ℤ) (a b : List ℕ) → compare_from lb la b a ≡ flip (compare_from la lb a b)
unfolding compare_from flip
compare_from-flip la lb [] [] = cmp_int-flip la lb
compare_from-flip la lb [] (y ∷ b) = cmp_int-flip la lb
compare_from-flip la lb (x ∷ a) [] = cmp_int-flip la lb
compare_from-flip la lb (x ∷ a) (y ∷ b) = ground (arith, compare_from-flip la lb a b)

compare_timestamps-flip :
    (floats : Floats) (s n t m : ℤ)
    → compare_timestamps floats t m s n ≡ flip (compare_timestamps floats s n t m)
unfolding compare_timestamps cmp_int64 cmp_int32
compare_timestamps-flip floats s n t m = elim (Bool-cases (int_leb s t)) [
  | inl e ↦ elim (Bool-cases (int_leb t s)) [
    | inl f ↦ rw (e, f) (flip-tests (int_ltb n m) (int_ltb m n) (int_ltb-asym n m))
    | inr f ↦ rw (e, f) (flip-tests (int_ltb s t) (int_ltb t s) (int_ltb-asym s t))
  ]
  | inr e ↦ elim (Bool-cases (int_leb t s)) [
    | inl f ↦ rw (e, f) (flip-tests (int_ltb s t) (int_ltb t s) (int_ltb-asym s t))
    | inr f ↦ rw (e, f) (flip-tests (int_ltb s t) (int_ltb t s) (int_ltb-asym s t))
  ]
]

module _ (floats : Floats)
    (asym : (x y : ℕ) → floats.less x y ≡ true → floats.less y x ≡ false) where
  cmp_float-flip : (x y : ℕ) → cmp_float floats y x ≡ flip (cmp_float floats x y)
  unfolding cmp_float flip
  cmp_float-flip x y = elim (Bool-cases (floats.is_nan x)) [
    | inl e ↦ elim (Bool-cases (floats.is_nan y)) [
      | inl f ↦ rw (e, f) refl
      | inr f ↦ rw (e, f) refl
    ]
    | inr e ↦ elim (Bool-cases (floats.is_nan y)) [
      | inl f ↦ rw (e, f) refl
      | inr f ↦ rw (e, f) (flip-tests (floats.less x y) (floats.less y x) (asym x y))
    ]
  ]

  -- Values of one rank.
  SameRank : Value → Value → Type 0
  SameRank a b = type_order (some a) ≡ type_order (some b)

  compare_same-flip :
      (a b : Value) → SameRank a b → compare_same floats b a ≡ flip (compare_same floats a b)
  unfolding SameRank compare_same type_order flip to_float64 compare_bytes get_boolean get_seconds
      get_nanos get_string get_bytes get_reference
  compare_same-flip null_value null_value h = refl
  compare_same-flip (boolean_value a) (boolean_value b) h =
      cmp_int-flip (bool_to_int a) (bool_to_int b)
  compare_same-flip (integer_value a) (integer_value b) h = cmp_float-flip _ _
  compare_same-flip (integer_value a) (double_value b) h = cmp_float-flip _ _
  compare_same-flip (double_value a) (integer_value b) h = cmp_float-flip _ _
  compare_same-flip (double_value a) (double_value b) h = cmp_float-flip _ _
  compare_same-flip (timestamp_value s n) (timestamp_value t m) h =
      compare_timestamps-flip floats s n t m
  compare_same-flip (string_value s) (string_value t) h = compare_strings-flip s t
  compare_same-flip (bytes_value s) (bytes_value t) h =
      compare_from-flip (pos (length s)) (pos (length t)) s t
  compare_same-flip (reference_value s) (reference_value t) h = compare_strings-flip s t
  compare_same-flip (geo_point_value x y) (geo_point_value z w) h = refl
  compare_same-flip (array_value x) (array_value y) h = refl
  compare_same-flip (map_value x) (map_value y) h = refl
  compare_same-flip no_value no_value h = refl
  compare_same-flip a b h = cc

  compare_present-flip :
      (a b : Option Value)
      → type_order a ≡ type_order b
      → compare_present floats b a ≡ flip (compare_present floats a b)
  unfolding compare_present SameRank flip
  compare_present-flip none none h = refl
  compare_present-flip none (some b) h = refl
  compare_present-flip (some a) none h = refl
  compare_present-flip (some a) (some b) h = compare_same-flip a b h

  -- The order of two values, asked the other way round, is the opposite one.
  pub compare_values-flip :
      (a b : Option Value) → compare_values floats b a ≡ flip (compare_values floats a b)
  unfolding compare_values
  compare_values-flip a b =
      let ta = type_order a in
      let tb = type_order b in
      elim (Bool-cases (int_leb ta tb)) [
        | inl e ↦ elim (Bool-cases (int_leb tb ta)) [
          | inl f ↦ rw (e, f) (compare_present-flip a b (int_leb-antisym ta tb e f))
          | inr f ↦ rw (e, f) (cmp_int-flip ta tb)
        ]
        | inr e ↦ elim (Bool-cases (int_leb tb ta)) [
          | inl f ↦ rw (e, f) (cmp_int-flip ta tb)
          | inr f ↦ rw (e, f) (cmp_int-flip ta tb)
        ]
      ]

  pub before-asym :
      (orders : List Order) (a b : Document)
      → before floats orders a b ≡ true
      → before floats orders b a ≡ false
  unfolding before
  before-asym [] a b h = refl
  before-asym (o ∷ orders) a b h =
      let va = order_value floats o.field_path a in
      let vb = order_value floats o.field_path b in
      subst
        (λ c.
          (if is_zero c
            then before floats orders b a
            else (if o.descending then int_ltb (pos 0) c else int_ltb c (pos 0)))
          ≡ false)
        (sym (compare_values-flip va vb))
        (swapped (compare_values floats va vb) _ _ o.descending (before-asym orders a b) h)
