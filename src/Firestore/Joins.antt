-- ===== src/Firestore/Joins.antt =====
-- internal/firestore/query.go: three values compared with each other.
use blitzy_localgcp.Firestore.Flips.{int_ltb-asym, str_ltb-asym}
use blitzy_localgcp.Firestore.Compare.{
  bool_to_int, type_order, compare_same, compare_present, compare_values, to_float64, get_boolean,
  get_seconds, get_nanos, get_string, get_bytes, get_reference, Floats, cmp_int, cmp_int64,
  cmp_int32, compare_strings, compare_timestamps, compare_from, compare_bytes, cmp_float,
}
use blitzy_localgcp.Base.{
  sym, false→ne, ℕ, zero, suc, ◌+◌, ◌≡◌, refl, ap, List, [], ◌∷◌, length, Option, none, some, Bool,
  true, false, not, ◌&&◌, Bool-cases, inl, inr, Str, str_ltb, arith, if◌then◌else◌, ℤ, pos, negsuc,
  int_ltb, int_leb,
}
use blitzy_localgcp.Firestore.Data.{
  Document, Value, null_value, boolean_value, integer_value, double_value, timestamp_value,
  string_value, bytes_value, reference_value, geo_point_value, array_value, map_value, no_value,
}
use blitzy_localgcp.Firestore.Query.{Order, before, order_value, is_zero}

-- The sign of the first and the last is that of the other two.
pub record Joins (c d e : ℤ) : Type 0 where
  pub left_zero : is_zero c ≡ true → e ≡ d
  pub right_zero : is_zero d ≡ true → e ≡ c
  pub both_less : int_ltb c (pos 0) ≡ true → int_ltb d (pos 0) ≡ true → int_ltb e (pos 0) ≡ true
  pub both_greater : int_ltb (pos 0) c ≡ true → int_ltb (pos 0) d ≡ true → int_ltb (pos 0) e ≡ true

abbrev pub tests : Bool → Bool → ℤ
tests x y = if x then negsuc 0 else (if y then pos 1 else pos 0)

-- A strict weak order, by its test.
module _ {A : Type 0} (lt : A → A → Bool) (asym : (a b : A) → lt a b ≡ true → lt b a ≡ false)
    (behind : (a b c : A) → lt a b ≡ false → lt b c ≡ false → lt a c ≡ false) where
  pub tests-Joins :
      (a b c : A)
      → Joins (tests (lt a b) (lt b a)) (tests (lt b c) (lt c b)) (tests (lt a c) (lt c a))
  unfolding is_zero
  tests-Joins a b c = record {
    left_zero = ground (
      arith,
      asym a b,
      asym b c,
      asym a c,
      behind a b c,
      behind c b a,
      behind b a c,
      behind c a b,
      behind a c b,
      behind b c a,
    );
    right_zero = ground (
      arith,
      asym a b,
      asym b c,
      asym a c,
      behind a b c,
      behind c b a,
      behind b a c,
      behind c a b,
      behind a c b,
      behind b c a,
    );
    both_less = ground (
      arith,
      asym a b,
      asym b c,
      asym a c,
      behind a b c,
      behind c b a,
      behind b a c,
      behind c a b,
      behind a c b,
      behind b c a,
    );
    both_greater = ground (
      arith,
      asym a b,
      asym b c,
      asym a c,
      behind a b c,
      behind c b a,
      behind b a c,
      behind c a b,
      behind a c b,
      behind b c a,
    );
  }

abbrev pub first_of : ℤ → ℤ → ℤ
first_of c r = if is_zero c then r else c

is_zero-less : (c : ℤ) → int_ltb c (pos 0) ≡ true → is_zero c ≡ false
unfolding is_zero
is_zero-less (pos n) h = ground (arith, h)
is_zero-less (negsuc n) h = refl

is_zero-greater : (c : ℤ) → int_ltb (pos 0) c ≡ true → is_zero c ≡ false
unfolding is_zero
is_zero-greater (pos zero) h = cc h
is_zero-greater (pos (suc n)) h = refl
is_zero-greater (negsuc n) h = refl

pub first_of-Joins :
    (c d e x y z : ℤ)
    → Joins c d e
    → (is_zero c ≡ true → is_zero d ≡ true → Joins x y z)
    → Joins (first_of c x) (first_of d y) (first_of e z)
first_of-Joins c d e x y z j rest = elim (Bool-cases (is_zero c)) [
  | inl f ↦ elim (Bool-cases (is_zero d)) [
    | inl g ↦ rw (j.left_zero f, f, g) (rest f g)
    | inr g ↦
        rw (j.left_zero f, f, g)
          (record {
            left_zero = λ h. refl;
            right_zero = λ h. false→ne g h;
            both_less = λ h k. k;
            both_greater = λ h k. k;
          })
  ]
  | inr f ↦ elim (Bool-cases (is_zero d)) [
    | inl g ↦
        rw (j.right_zero g, f, g)
          (record {
            left_zero = λ h. false→ne f h;
            right_zero = λ h. refl;
            both_less = λ h k. h;
            both_greater = λ h k. h;
          })
    | inr g ↦ elim (Bool-cases (is_zero e)) [
      | inr h ↦ rw (f, g, h) j
      | inl h ↦
          rw (f, g, h)
            (record {
              left_zero = λ k. false→ne f k;
              right_zero = λ k. false→ne g k;
              both_less = λ k l. false→ne (is_zero-less e (j.both_less k l)) h;
              both_greater = λ k l. false→ne (is_zero-greater e (j.both_greater k l)) h;
            })
    ]
  ]
]

-- The comparisons without parts.
int_ltb-behind : (a b c : ℤ) → int_ltb a b ≡ false → int_ltb b c ≡ false → int_ltb a c ≡ false
int_ltb-behind (pos a) (pos b) (pos c) h k = ground arith
int_ltb-behind (pos a) b (negsuc c) h k = refl
int_ltb-behind (pos a) (negsuc b) (pos c) h k = cc k
int_ltb-behind (negsuc a) (pos b) c h k = cc h
int_ltb-behind (negsuc a) (negsuc b) (pos c) h k = cc k
int_ltb-behind (negsuc a) (negsuc b) (negsuc c) h k = ground arith

str_ltb-behind : (s t u : Str) → str_ltb s t ≡ false → str_ltb t u ≡ false → str_ltb s u ≡ false
unfolding str_ltb
str_ltb-behind s t [] h k = refl
str_ltb-behind s [] (z ∷ u) h k = cc k
str_ltb-behind [] (y ∷ t) (z ∷ u) h k = cc h
str_ltb-behind (x ∷ s) (y ∷ t) (z ∷ u) h k = ground (arith, str_ltb-behind s t u)

pub cmp_int-Joins : (a b c : ℤ) → Joins (cmp_int a b) (cmp_int b c) (cmp_int a c)
unfolding cmp_int
cmp_int-Joins = tests-Joins int_ltb int_ltb-asym int_ltb-behind

pub compare_strings-Joins :
    (s t u : Str) → Joins (compare_strings s t) (compare_strings t u) (compare_strings s u)
unfolding compare_strings
compare_strings-Joins = tests-Joins str_ltb str_ltb-asym str_ltb-behind

-- Two ranks are the same if neither comparison fails.
pub same-first :
    (a b r : ℤ) → (if int_leb a b && int_leb b a then r else cmp_int a b) ≡ first_of (cmp_int a b) r
unfolding cmp_int is_zero
same-first (pos a) (pos b) r = ground arith
same-first (pos a) (negsuc b) r = refl
same-first (negsuc a) (pos b) r = refl
same-first (negsuc a) (negsuc b) r = ground arith

cmp_int-zero : (a b : ℤ) → is_zero (cmp_int a b) ≡ true → a ≡ b
unfolding cmp_int is_zero
cmp_int-zero (pos a) (pos b) h = ap pos (ground arith)
cmp_int-zero (pos a) (negsuc b) h = cc h
cmp_int-zero (negsuc a) (pos b) h = cc h
cmp_int-zero (negsuc a) (negsuc b) h = ap negsuc (ground arith)

compare_timestamps-Joins :
    (floats : Floats) (s n t m u l : ℤ)
    → Joins
        (compare_timestamps floats s n t m)
        (compare_timestamps floats t m u l)
        (compare_timestamps floats s n u l)
unfolding compare_timestamps cmp_int64 cmp_int32 cmp_int
compare_timestamps-Joins floats s n t m u l =
    rw (same-first s t (cmp_int n m), same-first t u (cmp_int m l), same-first s u (cmp_int n l))
      (first_of-Joins (cmp_int s t) (cmp_int t u) (cmp_int s u) _ _ _ (cmp_int-Joins s t u)
        (λ f g. cmp_int-Joins n m l))

-- Bytes are compared as strings are.
compare_from-strings :
    (la lb : ℕ) (a b : List ℕ)
    → la + length b ≡ lb + length a
    → compare_from (pos la) (pos lb) a b ≡ compare_strings a b
unfolding compare_from cmp_int compare_strings str_ltb
compare_from-strings la lb [] [] h = ground arith
compare_from-strings la lb [] (y ∷ b) h = ground arith
compare_from-strings la lb (x ∷ a) [] h = ground arith
compare_from-strings la lb (x ∷ a) (y ∷ b) h =
    ground (arith, compare_from-strings la lb a b (omega (arith, h)))

compare_bytes-Joins :
    (a b c : List ℕ) → Joins (compare_bytes a b) (compare_bytes b c) (compare_bytes a c)
unfolding compare_bytes
compare_bytes-Joins a b c =
    rw
      (
        compare_from-strings (length a) (length b) a b (omega arith),
        compare_from-strings (length b) (length c) b c (omega arith),
        compare_from-strings (length a) (length c) a c (omega arith),
      )
      (compare_strings-Joins a b c)

-- Of two floats at most one is less; and a float that is a number carries on what is not less.
pub record OrdersFloats (floats : Floats) : Type 0 where
  pub asym : (x y : ℕ) → floats.less x y ≡ true → floats.less y x ≡ false
  pub behind :
      (x y z : ℕ)
      → floats.is_nan y ≡ false
      → floats.less x y ≡ false
      → floats.less y z ≡ false
      → floats.less x z ≡ false

some_rank : (a : Value) → type_order (some a) ≡ type_order none → ⊥
unfolding type_order
some_rank null_value h = cc h
some_rank (boolean_value b) h = cc h
some_rank (integer_value n) h = cc h
some_rank (double_value x) h = cc h
some_rank (timestamp_value s n) h = cc h
some_rank (string_value s) h = cc h
some_rank (bytes_value bs) h = cc h
some_rank (reference_value s) h = cc h
some_rank (geo_point_value x y) h = cc h
some_rank (array_value vs) h = cc h
some_rank (map_value fs) h = cc h
some_rank no_value h = cc h

module _ (floats : Floats) (order : OrdersFloats floats) where
  -- Less in the order that puts NaN first.
  float_ltb : ℕ → ℕ → Bool
  float_ltb x y =
      if floats.is_nan x
      then not (floats.is_nan y)
      else (if floats.is_nan y then false else floats.less x y)

  float_ltb-asym : (x y : ℕ) → float_ltb x y ≡ true → float_ltb y x ≡ false
  unfolding float_ltb
  float_ltb-asym x y h = ground (arith, h, order.asym x y)

  float_ltb-behind :
      (x y z : ℕ) → float_ltb x y ≡ false → float_ltb y z ≡ false → float_ltb x z ≡ false
  unfolding float_ltb
  float_ltb-behind x y z h k = ground (arith, h, k, order.behind x y z)

  cmp_float-tests : (x y : ℕ) → cmp_float floats x y ≡ tests (float_ltb x y) (float_ltb y x)
  unfolding cmp_float float_ltb
  cmp_float-tests x y = ground arith

  cmp_float-Joins :
      (x y z : ℕ) → Joins (cmp_float floats x y) (cmp_float floats y z) (cmp_float floats x z)
  cmp_float-Joins x y z =
      rw (cmp_float-tests x y, cmp_float-tests y z, cmp_float-tests x z)
        (tests-Joins float_ltb float_ltb-asym float_ltb-behind x y z)

  level : Joins (pos 0) (pos 0) (pos 0)
  level = record {
    left_zero = λ h. refl;
    right_zero = λ h. refl;
    both_less = λ h k. h;
    both_greater = λ h k. h;
  }

  compare_same-Joins :
      (a b c : Value)
      → type_order (some a) ≡ type_order (some b)
      → Joins (compare_same floats a b) (compare_same floats b c) (compare_same floats a c)
  unfolding compare_same type_order to_float64 get_boolean get_seconds get_nanos get_string
      get_bytes get_reference
  compare_same-Joins null_value null_value c h = level
  compare_same-Joins (boolean_value a) (boolean_value b) c h =
      cmp_int-Joins (bool_to_int a) (bool_to_int b) (bool_to_int (get_boolean c))
  compare_same-Joins (integer_value a) (integer_value b) c h =
      cmp_float-Joins (floats.of_int a) (floats.of_int b) (to_float64 floats c)
  compare_same-Joins (integer_value a) (double_value b) c h =
      cmp_float-Joins (floats.of_int a) b (to_float64 floats c)
  compare_same-Joins (double_value a) (integer_value b) c h =
      cmp_float-Joins a (floats.of_int b) (to_float64 floats c)
  compare_same-Joins (double_value a) (double_value b) c h =
      cmp_float-Joins a b (to_float64 floats c)
  compare_same-Joins (timestamp_value s n) (timestamp_value t m) c h =
      compare_timestamps-Joins floats s n t m (get_seconds c) (get_nanos c)
  compare_same-Joins (string_value s) (string_value t) c h =
      compare_strings-Joins s t (get_string c)
  compare_same-Joins (bytes_value s) (bytes_value t) c h = compare_bytes-Joins s t (get_bytes c)
  compare_same-Joins (reference_value s) (reference_value t) c h =
      compare_strings-Joins s t (get_reference c)
  compare_same-Joins (geo_point_value x y) (geo_point_value z w) c h = level
  compare_same-Joins (array_value x) (array_value y) c h = level
  compare_same-Joins (map_value x) (map_value y) c h = level
  compare_same-Joins no_value no_value c h = level
  compare_same-Joins a b c h = cc

  compare_present-Joins :
      (a b c : Option Value)
      → type_order a ≡ type_order b
      → type_order b ≡ type_order c
      → Joins (compare_present floats a b) (compare_present floats b c) (compare_present floats a c)
  unfolding compare_present
  compare_present-Joins none none none h k = level
  compare_present-Joins none none (some c) h k = level
  compare_present-Joins (some a) (some b) (some c) h k = compare_same-Joins a b c h
  compare_present-Joins (some a) none c h k = absurd (some_rank a h)
  compare_present-Joins none (some b) c h k = absurd (some_rank b (sym h))
  compare_present-Joins (some a) (some b) none h k = absurd (some_rank b k)

  pub compare_values-Joins :
      (a b c : Option Value)
      → Joins (compare_values floats a b) (compare_values floats b c) (compare_values floats a c)
  unfolding compare_values
  compare_values-Joins a b c =
      let ta = type_order a in
      let tb = type_order b in
      let tc = type_order c in
      rw
        (
          same-first ta tb (compare_present floats a b),
          same-first tb tc (compare_present floats b c),
          same-first ta tc (compare_present floats a c),
        )
        (first_of-Joins (cmp_int ta tb) (cmp_int tb tc) (cmp_int ta tc) _ _ _
          (cmp_int-Joins ta tb tc)
          (λ f g. compare_present-Joins a b c (cmp_int-zero ta tb f) (cmp_int-zero tb tc g)))

not_less : (c : ℤ) → is_zero c ≡ false → int_ltb c (pos 0) ≡ false → int_ltb (pos 0) c ≡ true
unfolding is_zero
not_less (pos zero) f h = cc f
not_less (pos (suc n)) f h = ground arith
not_less (negsuc n) f h = cc h

not_greater : (c : ℤ) → is_zero c ≡ false → int_ltb (pos 0) c ≡ false → int_ltb c (pos 0) ≡ true
unfolding is_zero
not_greater (pos zero) f h = cc f
not_greater (pos (suc n)) f h = ground (arith, h)
not_greater (negsuc n) f h = refl

-- One order of two documents does not put the first in front of the second.
turn : Bool → ℤ → Bool → Bool
turn descending c rest =
    if is_zero c then rest else (if descending then int_ltb (pos 0) c else int_ltb c (pos 0))

turn-both :
    (descending : Bool) (c d e : ℤ) (z : Bool)
    → Joins c d e
    → is_zero c ≡ false
    → is_zero d ≡ false
    → (if descending then int_ltb (pos 0) c else int_ltb c (pos 0)) ≡ false
    → (if descending then int_ltb (pos 0) d else int_ltb d (pos 0)) ≡ false
    → turn descending e z ≡ false
unfolding turn
turn-both true c d e z j f g h k =
    let less = j.both_less (not_greater c f h) (not_greater d g k) in
    rw (is_zero-less e less) (int_ltb-asym e (pos 0) less)
turn-both false c d e z j f g h k =
    let greater = j.both_greater (not_less c f h) (not_less d g k) in
    rw (is_zero-greater e greater) (int_ltb-asym (pos 0) e greater)

turn-behind :
    (descending : Bool) (c d e : ℤ) (x y z : Bool)
    → Joins c d e
    → (x ≡ false → y ≡ false → z ≡ false)
    → turn descending c x ≡ false
    → turn descending d y ≡ false
    → turn descending e z ≡ false
unfolding turn
turn-behind descending c d e x y z j rest h k = elim (Bool-cases (is_zero c)) [
  | inl f ↦ elim (Bool-cases (is_zero d)) [
    | inl g ↦ rw (j.left_zero f, g) (rest (rw f at h) (rw g at k))
    | inr g ↦ rw (j.left_zero f, g) (rw g at k)
  ]
  | inr f ↦ elim (Bool-cases (is_zero d)) [
    | inl g ↦ rw (j.right_zero g, f) (rw f at h)
    | inr g ↦ turn-both descending c d e z j f g (rw f at h) (rw g at k)
  ]
]

-- A document that is not in front of a second one, which is not in front of a third, is not in front
-- of the third.
pub before-behind :
    (floats : Floats) (order : OrdersFloats floats) (orders : List Order) (a b c : Document)
    → before floats orders a b ≡ false
    → before floats orders b c ≡ false
    → before floats orders a c ≡ false
unfolding before turn
before-behind floats order [] a b c h k = refl
before-behind floats order (o ∷ orders) a b c h k =
    let va = order_value floats o.field_path a in
    let vb = order_value floats o.field_path b in
    let vc = order_value floats o.field_path c in
    turn-behind o.descending (compare_values floats va vb) (compare_values floats vb vc)
      (compare_values floats va vc) (before floats orders a b) (before floats orders b c)
      (before floats orders a c) (compare_values-Joins floats order va vb vc)
      (before-behind floats order orders a b c) h k
