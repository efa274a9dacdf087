-- ===== src/Firestore/Compare.antt =====
-- internal/firestore/query.go: the order of the values. -1, 0 and 1 are `negsuc 0`, `pos 0` and
-- `pos 1`.
use blitzy_localgcp.Base.{
  ℕ, List, [], ◌∷◌, length, Option, none, some, Bool, true, false, ◌&&◌, Str, str_ltb, ltb,
  if◌then◌else◌, ℤ, pos, negsuc, int_ltb, int_leb,
}
use blitzy_localgcp.Firestore.Data.{
  Value, null_value, boolean_value, integer_value, double_value, timestamp_value, string_value,
  bytes_value, reference_value, geo_point_value, array_value, map_value, no_value,
}

-- The operations of a float64 on its pattern: float64(n), math.IsNaN(x) and x < y.
pub record Floats : Type 0 where
  pub of_int : ℤ → ℕ
  pub is_nan : ℕ → Bool
  pub less : ℕ → ℕ → Bool

unfoldable pub type_order : Option Value → ℤ
type_order none = negsuc 0
type_order (some null_value) = pos 0
type_order (some (boolean_value b)) = pos 1
type_order (some (integer_value n)) = pos 2
type_order (some (double_value x)) = pos 2
type_order (some (timestamp_value s n)) = pos 3
type_order (some (string_value s)) = pos 4
type_order (some (bytes_value bs)) = pos 5
type_order (some (reference_value s)) = pos 6
type_order (some (geo_point_value x y)) = pos 7
type_order (some (array_value vs)) = pos 8
type_order (some (map_value fs)) = pos 9
type_order (some no_value) = pos 10

unfoldable pub bool_to_int : Bool → ℤ
bool_to_int true = pos 1
bool_to_int false = pos 0

unfoldable pub cmp_int : ℤ → ℤ → ℤ
cmp_int a b = if int_ltb a b then negsuc 0 else (if int_ltb b a then pos 1 else pos 0)

unfoldable pub cmp_int64 : ℤ → ℤ → ℤ
cmp_int64 a b = if int_ltb a b then negsuc 0 else (if int_ltb b a then pos 1 else pos 0)

unfoldable pub cmp_int32 : ℤ → ℤ → ℤ
cmp_int32 a b = if int_ltb a b then negsuc 0 else (if int_ltb b a then pos 1 else pos 0)

-- strings.Compare
unfoldable pub compare_strings : Str → Str → ℤ
compare_strings s t = if str_ltb s t then negsuc 0 else (if str_ltb t s then pos 1 else pos 0)

-- The bytes that both have, and then the lengths.
unfoldable pub compare_from : ℤ → ℤ → List ℕ → List ℕ → ℤ
unfolding cmp_int
compare_from la lb [] b = cmp_int la lb
compare_from la lb (x ∷ a) [] = cmp_int la lb
compare_from la lb (x ∷ a) (y ∷ b) =
    let rest = compare_from la lb a b in
    if ltb x y then negsuc 0 else (if ltb y x then pos 1 else rest)

unfoldable pub compare_bytes : List ℕ → List ℕ → ℤ
unfolding compare_from
compare_bytes a b = compare_from (pos (length a)) (pos (length b)) a b

-- The getters of a value give the zero value for another type.
unfoldable pub get_boolean : Value → Bool
get_boolean (boolean_value b) = b
get_boolean v = false

unfoldable pub get_seconds : Value → ℤ
get_seconds (timestamp_value s n) = s
get_seconds v = pos 0

unfoldable pub get_nanos : Value → ℤ
get_nanos (timestamp_value s n) = n
get_nanos v = pos 0

unfoldable pub get_string : Value → Str
get_string (string_value s) = s
get_string v = []

unfoldable pub get_bytes : Value → List ℕ
get_bytes (bytes_value bs) = bs
get_bytes v = []

unfoldable pub get_reference : Value → Str
get_reference (reference_value s) = s
get_reference v = []

module _ (floats : Floats) where
  -- The double of zero has the pattern 0.
  unfoldable pub to_float64 : Value → ℕ
  to_float64 (integer_value n) = floats.of_int n
  to_float64 (double_value x) = x
  to_float64 v = 0

  unfoldable pub cmp_float : ℕ → ℕ → ℤ
  cmp_float a b =
      if floats.is_nan a && floats.is_nan b
      then pos 0
      else (if floats.is_nan a
          then negsuc 0
          else (if floats.is_nan b
              then pos 1
              else (if floats.less a b
                  then negsuc 0
                  else (if floats.less b a then pos 1 else pos 0))))

  unfoldable pub compare_timestamps : ℤ → ℤ → ℤ → ℤ → ℤ
  unfolding cmp_int64 cmp_int32
  compare_timestamps s n t m = if int_leb s t && int_leb t s then cmp_int32 n m else cmp_int64 s t

  -- The switch on the type that both values have.
  unfoldable pub compare_same : Value → Value → ℤ
  unfolding cmp_int bool_to_int to_float64 cmp_float compare_timestamps compare_strings
      compare_bytes get_boolean get_seconds get_nanos get_string get_bytes get_reference
  compare_same (boolean_value a) b = cmp_int (bool_to_int a) (bool_to_int (get_boolean b))
  compare_same (integer_value n) b = cmp_float (floats.of_int n) (to_float64 b)
  compare_same (double_value x) b = cmp_float x (to_float64 b)
  compare_same (timestamp_value s n) b = compare_timestamps s n (get_seconds b) (get_nanos b)
  compare_same (string_value s) b = compare_strings s (get_string b)
  compare_same (bytes_value bs) b = compare_bytes bs (get_bytes b)
  compare_same (reference_value s) b = compare_strings s (get_reference b)
  compare_same a b = pos 0

  unfoldable pub compare_present : Option Value → Option Value → ℤ
  unfolding compare_same
  compare_present (some a) (some b) = compare_same a b
  compare_present a b = pos 0

  unfoldable pub compare_values : Option Value → Option Value → ℤ
  unfolding type_order cmp_int compare_present
  compare_values a b =
      let ta = type_order a in
      let tb = type_order b in
      if int_leb ta tb && int_leb tb ta then compare_present a b else cmp_int ta tb
