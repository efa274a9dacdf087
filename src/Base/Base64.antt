-- ===== src/Base/Base64.antt =====
-- The standard encoding of the package encoding/base64, with padding.
use Prim.Native.Nat.{ℕ, zero, suc, ◌+◌, ◌-◌, ◌*◌, ◌/◌, ◌%◌, ◌<◌}
pub mod RoundTrip
use mathlib.Core.Path.{◌≡◌, refl, ap}
use mathlib.Core.Bool.{Bool, true, false, ◌&&◌}
use mathlib.Core.List.{List, [], ◌∷◌}
use mathlib.Core.Option
use mathlib.Core.Option.{Option, none, some}
use native.Mathlib.Omega.{arith}
use blitzy_localgcp.Base.Tests.{ltb, leb, ◌==◌, if◌then◌else◌}
use blitzy_localgcp.Base.Text.{Str}

-- The character of a value below 64.
encode_char : ℕ → ℕ
encode_char n =
    if ltb n 26
    then 65 + n
    else if ltb n 52
    then 71 + n
    else if ltb n 62
    then n - 4
    else if n == 62
    then 43
    else 47

-- The value of a character; 64 stands for a character outside the alphabet.
decode_char : ℕ → ℕ
decode_char c =
    if leb 65 c && leb c 90
    then c - 65
    else if leb 97 c && leb c 122
    then c - 71
    else if leb 48 c && leb c 57
    then c + 4
    else if c == 43
    then 62
    else if c == 47
    then 63
    else 64

-- EncodeToString
unfoldable pub encode : List ℕ → Str
unfolding encode_char
encode [] = []
encode (a ∷ []) = encode_char (a / 4) ∷ encode_char (a % 4 * 16) ∷ 61 ∷ 61 ∷ []
encode (a ∷ b ∷ []) =
    encode_char (a / 4) ∷ encode_char (a % 4 * 16 + b / 16) ∷ encode_char (b % 16 * 4) ∷ 61 ∷ []
encode (a ∷ b ∷ c ∷ rest) =
    encode_char (a / 4)
    ∷ encode_char (a % 4 * 16 + b / 16)
    ∷ encode_char (b % 16 * 4 + c / 64)
    ∷ encode_char (c % 64)
    ∷ encode rest

-- Three bytes from four values, and the bytes of a padded last group.
three_bytes : ℕ → ℕ → ℕ → ℕ → List ℕ
three_bytes w x y z = (w * 4 + x / 16) ∷ (x % 16 * 16 + y / 4) ∷ (y % 4 * 64 + z) ∷ []

two_bytes : ℕ → ℕ → ℕ → List ℕ
two_bytes w x y = (w * 4 + x / 16) ∷ (x % 16 * 16 + y / 4) ∷ []

one_byte : ℕ → ℕ → List ℕ
one_byte w x = (w * 4 + x / 16) ∷ []

-- The values of a group whose first two characters are in the alphabet. A trailing `=` pads the
-- last group.
decode_values : Bool → ℕ → ℕ → ℕ → ℕ → ℕ → ℕ → Option (List ℕ)
decode_values is_last w x y z r s =
    if ltb y 64 && ltb z 64
    then some (three_bytes w x y z)
    else if is_last && s == 61 && ltb y 64
    then some (two_bytes w x y)
    else if is_last && s == 61 && r == 61
    then some (one_byte w x)
    else none

-- One group of four characters, the last of the text if `is_last`.
decode_group : Bool → ℕ → ℕ → ℕ → ℕ → Option (List ℕ)
decode_group is_last p q r s =
    if ltb (decode_char p) 64 && ltb (decode_char q) 64
    then decode_values is_last (decode_char p) (decode_char q) (decode_char r) (decode_char s) r s
    else none

append_group : Option (List ℕ) → Option (List ℕ) → Option (List ℕ)
append_group (some (a ∷ b ∷ c ∷ [])) (some rest) = some (a ∷ b ∷ c ∷ rest)
append_group _ _ = none

-- DecodeString, on a text without line breaks; `none` is the error.
unfoldable pub decode : Str → Option (List ℕ)
unfolding decode_group append_group decode_char decode_values three_bytes two_bytes one_byte
decode [] = some []
decode (p ∷ []) = none
decode (p ∷ q ∷ []) = none
decode (p ∷ q ∷ r ∷ []) = none
decode (p ∷ q ∷ r ∷ s ∷ []) = decode_group true p q r s
decode (p ∷ q ∷ r ∷ s ∷ t ∷ rest) = append_group (decode_group false p q r s) (decode (t ∷ rest))

decode_char-encode_char : (n : ℕ) → n < 64 → decode_char (encode_char n) ≡ n
unfolding encode_char decode_char
decode_char-encode_char n h = ground arith

abbrev pub AllBytes : List ℕ → Type 0
AllBytes [] = Unit {0}
AllBytes (b ∷ bs) = (b < 256) × AllBytes bs
