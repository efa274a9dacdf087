-- ===== src/Firestore/Tokens.antt =====
-- internal/firestore/store.go: the resume tokens.
use blitzy_localgcp.Base.{ℕ, ◌^◌, ◌<◌, ◌≡◌, ap, some, arith}
use blitzy_localgcp.Firestore.Watch.{put_uint, get_uint, encode_resume_token, decode_resume_token}

-- The token of a number below 2 ^ 64 is decoded to that number.
pub decode_resume_token-encode :
    (seq : ℕ) → seq < 2 ^ 64 → decode_resume_token (encode_resume_token seq) ≡ some seq
unfolding decode_resume_token encode_resume_token get_uint put_uint
decode_resume_token-encode seq h = ap some (omega arith)
