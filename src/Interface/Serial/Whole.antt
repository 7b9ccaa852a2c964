-- ===== src/Interface/Serial/Whole.antt =====
-- `hdlc_decode` after `hdlc_encode`.
use rsticulum.Prelude.{
  ℕ, ◌+◌, ◌-◌, some, [], ◌∷◌, ◌++◌, Bytes, ◌≡◌, ◌≢◌, refl, ◌∙◌, arith, ap, length, length-append,
  take-append, ltb_of_le,
}
use rsticulum.Interface.Serial.{
  flag, esc, escape_byte, escape, hdlc_encode, unescape, last?, hdlc_decode,
}

unescape-cons : (b : ℕ) (bs : Bytes) → b ≢ esc → unescape (b ∷ bs) ≡ b ∷ unescape bs
unfolding unescape
unescape-cons b [] h = refl
unescape-cons b (c ∷ bs) h = ground arith

unescape-escape_byte : (b : ℕ) (bs : Bytes) → unescape (escape_byte b ++ bs) ≡ b ∷ unescape bs
unfolding escape_byte unescape
unescape-escape_byte b bs = ground (arith, unescape-cons b bs)

unescape-escape : (bs : Bytes) → unescape (escape bs) ≡ bs
unfolding escape
unescape-escape [] = unfold unescape in refl
unescape-escape (b ∷ bs) = unescape-escape_byte b (escape bs) ∙ ap (◌∷◌ b) (unescape-escape bs)

last?-append : (bs : Bytes) (b : ℕ) → last? (bs ++ b ∷ []) ≡ some b
unfolding last?
last?-append [] b = refl
last?-append (c ∷ []) b = refl
last?-append (c ∷ d ∷ bs) b = last?-append (d ∷ bs) b

hdlc_decode_between : (bs : Bytes) → hdlc_decode (flag ∷ (bs ++ flag ∷ [])) ≡ some (unescape bs)
unfolding hdlc_decode
hdlc_decode_between bs =
    let n : length (flag ∷ (bs ++ flag ∷ [])) ≡ length bs + 2 =
      omega (arith, length-append bs (flag ∷ [])) in
    rw (
      last?-append (flag ∷ bs) flag,
      n,
      ltb_of_le (length bs + 2) 2 (omega arith),
      ltb_of_le (length bs + 2 - 1) 1 (omega arith),
      take-append bs (flag ∷ []) (length bs + 2 - 1 - 1) (omega arith),
    )

-- A whole encoded frame is decoded to its payload, whatever bytes the payload holds.
pub hdlc_decode-hdlc_encode : (bs : Bytes) → hdlc_decode (hdlc_encode bs) ≡ some bs
unfolding hdlc_encode
hdlc_decode-hdlc_encode bs = hdlc_decode_between (escape bs) ∙ ap some (unescape-escape bs)
