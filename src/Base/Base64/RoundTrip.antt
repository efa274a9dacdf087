-- ===== src/Base/Base64/RoundTrip.antt =====
-- Decoding what was encoded.
use Prim.Native.Nat.{ℕ, ◌+◌, ◌*◌, ◌/◌, ◌%◌, ◌<◌}
use mathlib.Core.Path.{◌≡◌, refl, ap, ap₂, ◌∙◌}
use mathlib.Core.Bool.{Bool, true, false}
use mathlib.Core.List.{List, [], ◌∷◌}
use mathlib.Core.Option.{some}
use native.Mathlib.Omega.{arith}
use blitzy_localgcp.Base.Text.{str_eq}
use blitzy_localgcp.Base.Base64.{
  encode, decode, encode_char, decode_char, decode_group, append_group, AllBytes, three_bytes,
  two_bytes, one_byte, decode_values, decode_char-encode_char,
}

decode_char_pad : decode_char 61 ≡ 64
unfolding decode_char
decode_char_pad = refl

three_bytes_lem :
    (a b c : ℕ)
    → a < 256
    → b < 256
    → c < 256
    → three_bytes (a / 4) (a % 4 * 16 + b / 16) (b % 16 * 4 + c / 64) (c % 64) ≡ a ∷ b ∷ c ∷ []
unfolding three_bytes
three_bytes_lem a b c ha hb hc =
    ap₂ (λ x l. x ∷ l) (omega arith) (ap₂ (λ x y. x ∷ y ∷ []) (omega arith) (omega arith))

two_bytes_lem :
    (a b : ℕ)
    → a < 256
    → b < 256
    → two_bytes (a / 4) (a % 4 * 16 + b / 16) (b % 16 * 4) ≡ a ∷ b ∷ []
unfolding two_bytes
two_bytes_lem a b ha hb = ap₂ (λ x y. x ∷ y ∷ []) (omega arith) (omega arith)

-- A group of characters that stand for four values.
decode_group_values :
    (l : Bool) (w x y z : ℕ)
    → w < 64
    → x < 64
    → y < 64
    → z < 64
    → decode_group l (encode_char w) (encode_char x) (encode_char y) (encode_char z)
      ≡ some (three_bytes w x y z)
unfolding decode_group decode_values
decode_group_values l w x y z hw hx hy hz = ground (
  arith,
  decode_char-encode_char w,
  decode_char-encode_char x,
  decode_char-encode_char y,
  decode_char-encode_char z,
)

decode_group_pad :
    (w x y : ℕ)
    → w < 64
    → x < 64
    → y < 64
    → decode_group true (encode_char w) (encode_char x) (encode_char y) 61 ≡ some (two_bytes w x y)
unfolding decode_group decode_values
decode_group_pad w x y hw hx hy = ground (
  arith,
  decode_char_pad,
  decode_char-encode_char w,
  decode_char-encode_char x,
  decode_char-encode_char y,
)

decode_group_pads :
    (w x : ℕ)
    → w < 64
    → x < 64
    → decode_group true (encode_char w) (encode_char x) 61 61 ≡ some (one_byte w x)
unfolding decode_group decode_values
decode_group_pads w x hw hx =
    ground (arith, decode_char_pad, decode_char-encode_char w, decode_char-encode_char x)

decode_group_three :
    (l : Bool) (a b c : ℕ)
    → a < 256
    → b < 256
    → c < 256
    → decode_group l
        (encode_char (a / 4))
        (encode_char (a % 4 * 16 + b / 16))
        (encode_char (b % 16 * 4 + c / 64))
        (encode_char (c % 64))
      ≡ some (a ∷ b ∷ c ∷ [])
decode_group_three l a b c ha hb hc =
    decode_group_values l (a / 4) (a % 4 * 16 + b / 16) (b % 16 * 4 + c / 64) (c % 64) (omega arith)
      (omega arith) (omega arith) (omega arith)
    ∙ ap some (three_bytes_lem a b c ha hb hc)

decode_group_two :
    (a b : ℕ)
    → a < 256
    → b < 256
    → decode_group true
        (encode_char (a / 4))
        (encode_char (a % 4 * 16 + b / 16))
        (encode_char (b % 16 * 4))
        61
      ≡ some (a ∷ b ∷ [])
decode_group_two a b ha hb =
    decode_group_pad (a / 4) (a % 4 * 16 + b / 16) (b % 16 * 4) (omega arith) (omega arith)
      (omega arith)
    ∙ ap some (two_bytes_lem a b ha hb)

decode_group_one :
    (a : ℕ)
    → a < 256
    → decode_group true (encode_char (a / 4)) (encode_char (a % 4 * 16)) 61 61 ≡ some (a ∷ [])
unfolding one_byte
decode_group_one a ha =
    decode_group_pads (a / 4) (a % 4 * 16) (omega arith) (omega arith)
    ∙ ap (λ x. some (x ∷ [])) (omega arith)

-- Any bytes are decoded to themselves.
pub decode-encode : (bs : List ℕ) → AllBytes bs → decode (encode bs) ≡ some bs
unfolding encode decode
decode-encode [] h = refl
decode-encode (a ∷ []) h = decode_group_one a h.0
decode-encode (a ∷ b ∷ []) h = decode_group_two a b h.0 h.1.0
decode-encode (a ∷ b ∷ c ∷ []) h = decode_group_three true a b c h.0 h.1.0 h.1.1.0
decode-encode (a ∷ b ∷ c ∷ d ∷ []) h =
    ap₂ append_group (decode_group_three false a b c h.0 h.1.0 h.1.1.0)
      (decode-encode (d ∷ []) h.1.1.1)
decode-encode (a ∷ b ∷ c ∷ d ∷ e ∷ []) h =
    ap₂ append_group (decode_group_three false a b c h.0 h.1.0 h.1.1.0)
      (decode-encode (d ∷ e ∷ []) h.1.1.1)
decode-encode (a ∷ b ∷ c ∷ d ∷ e ∷ f ∷ rest) h =
    ap₂ append_group (decode_group_three false a b c h.0 h.1.0 h.1.1.0)
      (decode-encode (d ∷ e ∷ f ∷ rest) h.1.1.1)

-- The text of a byte or more is not empty.
pub encode-ne-nil : (b : ℕ) (bs : List ℕ) → str_eq (encode (b ∷ bs)) [] ≡ false
unfolding encode str_eq
encode-ne-nil b [] = refl
encode-ne-nil b (c ∷ []) = refl
encode-ne-nil b (c ∷ d ∷ rest) = refl
