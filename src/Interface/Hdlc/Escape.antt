-- ===== src/Interface/Hdlc/Escape.antt =====
-- The escaped form of a payload: it holds no flag, and its length is bounded.
use rsticulum.Prelude.{
  ℕ, ◌+◌, ◌*◌, ◌≤◌, ◌≢◌, [], ◌∷◌, Bytes, All, All-append, length, length-append, arith,
}
use rsticulum.Interface.Hdlc.{flag, escape_byte, escape, encode}

escape_byte-ne-flag : (b : ℕ) → All (λ c. c ≢ flag) (escape_byte b)
unfolding escape_byte
escape_byte-ne-flag b = ground arith

-- Between its two flags an encoded payload holds no further flag, so no payload can end its own
-- frame early.
pub escape-ne-flag : (bs : Bytes) → All (λ c. c ≢ flag) (escape bs)
unfolding escape
escape-ne-flag [] = tt
escape-ne-flag (b ∷ bs) =
    All-append _ (escape_byte b) (escape bs) (escape_byte-ne-flag b) (escape-ne-flag bs)

length-escape_byte : (b : ℕ) → (1 ≤ length (escape_byte b)) × (length (escape_byte b) ≤ 2)
unfolding escape_byte
length-escape_byte b = ground arith

length-escape :
    (bs : Bytes) → (length bs ≤ length (escape bs)) × (length (escape bs) ≤ 2 * length bs)
unfolding escape
length-escape [] = omega arith
length-escape (b ∷ bs) =
    omega (arith, length-escape_byte b, length-escape bs, length-append (escape_byte b) (escape bs))

-- An encoded payload of n bytes takes n + 2 bytes at least and 2 n + 2 bytes at most.
pub length-encode :
    (bs : Bytes) → (length bs + 2 ≤ length (encode bs)) × (length (encode bs) ≤ 2 * length bs + 2)
unfolding encode
length-encode bs = omega (arith, length-escape bs, length-append (escape bs) (flag ∷ []))
