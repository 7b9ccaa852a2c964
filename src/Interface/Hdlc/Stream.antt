-- ===== src/Interface/Hdlc/Stream.antt =====
-- What the HDLC decoder makes of encoded frames, one after the other.
use mathlib.Core.List.{append_assoc, append-nil}
use rsticulum.Prelude.{
  ℕ, true, false, [], ◌∷◌, ◌++◌, Bytes, List, ◌≡◌, refl, ◌∙◌, arith, sym, ap, Bool-cases, inl, inr,
}
use rsticulum.Interface.Framing.{feed_all}
use rsticulum.Interface.Hdlc.{flag, escape_byte, escape, encode, Decoder, new, feed, decode}

decode-escape_byte :
    (b : ℕ) (d : Decoder) (rest : Bytes)
    → d.in_frame ≡ true
    → d.escape ≡ false
    → decode d (escape_byte b ++ rest)
      ≡ decode (record d { data_buffer = d.data_buffer ++ b ∷ [] }) rest
unfolding feed_all feed escape_byte
decode-escape_byte b d rest h k = ground arith

decode-escape :
    (bs : Bytes) (d : Decoder) (rest : Bytes)
    → d.in_frame ≡ true
    → d.escape ≡ false
    → decode d (escape bs ++ rest) ≡ decode (record d { data_buffer = d.data_buffer ++ bs }) rest
unfolding escape
decode-escape [] d rest h k = rw append-nil
decode-escape (b ∷ bs) d rest h k =
    ap (decode d) (append_assoc (escape_byte b) (escape bs) rest)
    ∙ decode-escape_byte b d (escape bs ++ rest) h k
    ∙ decode-escape bs _ rest h k
    ∙ rw append_assoc

-- Behind a flag: inside a frame, with nothing read yet.
abbrev pub at_flag : Decoder
at_flag = record { in_frame = true; escape = false; data_buffer = [] }

decode-flag :
    (d : Decoder) (rest : Bytes)
    → d.in_frame ≡ true
    → d.escape ≡ false
    → decode d (flag ∷ rest) ≡ ((decode at_flag rest).0, d.data_buffer ∷ (decode at_flag rest).1)
unfolding feed_all feed
decode-flag d rest h k = ground arith

-- A frame that is read to its end, from anywhere outside an escape sequence: the decoder returns
-- what it held, then the payload, and stands at the flag, ready for more.
decode-encode_in_frame :
    (bs rest : Bytes) (d : Decoder)
    → d.in_frame ≡ true
    → d.escape ≡ false
    → decode d (encode bs ++ rest)
      ≡ ((decode at_flag rest).0, d.data_buffer ∷ bs ∷ (decode at_flag rest).1)
unfolding encode
decode-encode_in_frame bs rest d h k =
    decode-flag d _ h k
    ∙ rw
        (
          append_assoc (escape bs) (flag ∷ []) rest,
          decode-escape bs at_flag (flag ∷ rest) refl refl,
        )
        (rw (decode-flag (record at_flag { data_buffer = bs }) rest refl refl))

decode-encode_outside :
    (bs rest : Bytes) (d : Decoder)
    → d.in_frame ≡ false
    → decode d (encode bs ++ rest) ≡ ((decode at_flag rest).0, bs ∷ (decode at_flag rest).1)
unfolding encode feed_all feed
decode-encode_outside bs rest d h =
    opening
    ∙ rw
        (
          append_assoc (escape bs) (flag ∷ []) rest,
          decode-escape bs at_flag (flag ∷ rest) refl refl,
        )
        (rw (decode-flag (record at_flag { data_buffer = bs }) rest refl refl))
  where
    opening : decode d (encode bs ++ rest) ≡ decode at_flag ((escape bs ++ flag ∷ []) ++ rest)
    opening = ground arith

-- The encoded payloads, one after the other.
abbrev pub encode_all : List Bytes → Bytes
encode_all [] = []
encode_all (p ∷ ps) = encode p ++ encode_all ps

-- Behind the first frame, an empty one before every payload: the flag that closes a frame and the
-- flag that opens the next one stand with nothing between them.
abbrev pub spaced : List Bytes → List Bytes
spaced [] = []
spaced (p ∷ ps) = [] ∷ p ∷ spaced ps

decode_all-spaced : (ps : List Bytes) → decode at_flag (encode_all ps) ≡ (at_flag, spaced ps)
decode_all-spaced [] = unfold feed_all in refl
decode_all-spaced (p ∷ ps) =
    decode-encode_in_frame p (encode_all ps) at_flag refl refl ∙ rw (decode_all-spaced ps)

abbrev pub nonempty : List Bytes → List Bytes
nonempty [] = []
nonempty ([] ∷ ps) = nonempty ps
nonempty ((b ∷ bs) ∷ ps) = (b ∷ bs) ∷ nonempty ps

nonempty-spaced : (ps : List Bytes) → nonempty (spaced ps) ≡ nonempty ps
nonempty-spaced [] = refl
nonempty-spaced ([] ∷ ps) = nonempty-spaced ps
nonempty-spaced ((b ∷ bs) ∷ ps) = ap (◌∷◌ (b ∷ bs)) (nonempty-spaced ps)

-- A new decoder that is fed one or more encoded payloads in a row returns the first payload, then
-- an empty frame before each later one; without its empty frames the result is the list of
-- payloads without the empty ones, in order.
pub decode-encode_all :
    (p : Bytes) (ps : List Bytes)
    → ((decode new (encode_all (p ∷ ps))).1 ≡ p ∷ spaced ps)
      × (nonempty (decode new (encode_all (p ∷ ps))).1 ≡ nonempty (p ∷ ps))
decode-encode_all p ps = (frames, rw frames (spaced_again p))
  where
    frames : (decode new (encode_all (p ∷ ps))).1 ≡ p ∷ spaced ps
    frames = rw (decode-encode_outside p (encode_all ps) new refl, decode_all-spaced ps)

    spaced_again : (q : Bytes) → nonempty (q ∷ spaced ps) ≡ nonempty (q ∷ ps)
    spaced_again [] = nonempty-spaced ps
    spaced_again (b ∷ bs) = ap (◌∷◌ (b ∷ bs)) (nonempty-spaced ps)

-- In an escape sequence the opening flag is taken for an escaped byte.
decode-encode_escaped :
    (bs rest : Bytes) (d : Decoder)
    → d.in_frame ≡ true
    → d.escape ≡ true
    → decode d (encode bs ++ rest)
      ≡ ((decode at_flag rest).0, ((d.data_buffer ++ 0x5E ∷ []) ++ bs) ∷ (decode at_flag rest).1)
unfolding encode feed_all feed
decode-encode_escaped bs rest d h k =
    swallowed
    ∙ rw (append_assoc (escape bs) (flag ∷ []) rest, decode-escape bs broken (flag ∷ rest) h refl)
        (rw (decode-flag (record broken { data_buffer = broken.data_buffer ++ bs }) rest h refl))
  where
    broken : Decoder
    broken = record d { escape = false; data_buffer = d.data_buffer ++ 0x5E ∷ [] }

    swallowed : decode d (encode bs ++ rest) ≡ decode broken ((escape bs ++ flag ∷ []) ++ rest)
    swallowed = ground arith

-- One encoded payload brings the decoder to the flag, whatever state it was in: it may be lost
-- itself, or follow a broken frame.
decode-encode_any :
    (bs rest : Bytes) (d : Decoder)
    → (junk : List Bytes) × (decode d (encode bs ++ rest)
        ≡ ((decode at_flag rest).0, junk ++ (decode at_flag rest).1))
decode-encode_any bs rest d = elim (Bool-cases d.in_frame) [
  | inr outside ↦ (bs ∷ [], decode-encode_outside bs rest d outside)
  | inl inside ↦ elim (Bool-cases d.escape) [
    | inr plain ↦ (d.data_buffer ∷ bs ∷ [], decode-encode_in_frame bs rest d inside plain)
    | inl escaped ↦
        (((d.data_buffer ++ 0x5E ∷ []) ++ bs) ∷ [], decode-encode_escaped bs rest d inside escaped)
  ]
]

-- Resynchronisation: from any state of the decoder, within a frame or an escape sequence or not,
-- the second of two encoded payloads is returned, as the last frame, whatever came before it; the
-- decoder is then at the flag with nothing buffered.
pub decode_resync :
    (d : Decoder) (a b : Bytes)
    → (junk : List Bytes) × (decode d (encode a ++ encode b) ≡ (at_flag, junk ++ b ∷ []))
decode_resync d a b =
    let (junk, first) = decode-encode_any a (encode b) d in
    (junk ++ [] ∷ [], first ∙ rw (last_frame, append_assoc))
  where
    last_frame : decode at_flag (encode b) ≡ (at_flag, [] ∷ b ∷ [])
    last_frame = ap (decode at_flag) (sym (append-nil (encode b))) ∙ decode_all-spaced (b ∷ [])
