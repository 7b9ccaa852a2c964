-- ===== src/Interface/Kiss/Desync.antt =====
-- What the KISS decoder does when it is one delimiter off, and with command bytes that the encoder
-- should have escaped.
use mathlib.Core.List.{append_assoc}
use rsticulum.Prelude.{
  ℕ, true, false, none, List, [], ◌∷◌, ◌++◌, Bytes, ◌≡◌, ◌≢◌, refl, ◌∙◌, arith, ap, All, All-append,
  length, replicate,
}
use rsticulum.Interface.Framing.{feed_all}
use rsticulum.Interface.Kiss.{
  fend, cmd_data, Frame, escape_byte, escape, encode_cmd, Decoder, new, feed, decode, encode_all,
}

escape_byte-ne-fend : (b : ℕ) → All (λ c. c ≢ fend) (escape_byte b)
unfolding escape_byte
escape_byte-ne-fend b = ground arith

-- An escaped payload holds no FEND, so no payload can end its own frame.
pub escape-ne-fend : (bs : Bytes) → All (λ c. c ≢ fend) (escape bs)
unfolding escape
escape-ne-fend [] = tt
escape-ne-fend (b ∷ bs) =
    All-append _ (escape_byte b) (escape bs) (escape_byte-ne-fend b) (escape-ne-fend bs)

decode_skip :
    (bs rest : Bytes) (d : Decoder)
    → d.in_frame ≡ false
    → All (λ c. c ≢ fend) bs
    → decode d (bs ++ rest) ≡ decode d rest
unfolding feed_all feed
decode_skip [] rest d h k = refl
decode_skip (b ∷ bs) rest d h k = ground (arith, decode_skip bs rest d h k.1)

-- Behind one FEND, with nothing read.
abbrev pub opened : Decoder
opened = record { in_frame = true; escape = false; data_buffer = []; command = none }

abbrev pub empty_frame : Frame
empty_frame = record { command = cmd_data; payload = [] }

-- Outside a frame the decoder skips a frame up to its closing FEND, and takes that to open one.
decode_skip_frame :
    (cmd : ℕ) (bs rest : Bytes)
    → cmd ≢ fend
    → decode new (cmd ∷ ((escape bs ++ fend ∷ []) ++ rest)) ≡ decode opened rest
unfolding feed_all feed
decode_skip_frame cmd bs rest h =
    rw (append_assoc (escape bs) (fend ∷ []) rest)
      (decode_skip (cmd ∷ escape bs) (fend ∷ rest) new refl (h, escape-ne-fend bs))

decode-encode_opened :
    (cmd : ℕ) (bs rest : Bytes)
    → cmd ≢ fend
    → decode opened (encode_cmd cmd bs ++ rest)
      ≡ ((decode opened rest).0, empty_frame ∷ (decode opened rest).1)
unfolding encode_cmd feed_all feed
decode-encode_opened cmd bs rest h =
    ap (λ (r : Decoder × List Frame). (r.0, empty_frame ∷ r.1)) (decode_skip_frame cmd bs rest h)

decode-opened :
    (fs : List Frame)
    → All (λ (f : Frame). f.command ≢ fend) fs
    → decode opened (encode_all fs) ≡ (opened, replicate (length fs) empty_frame)
unfolding feed_all
decode-opened [] h = refl
decode-opened (f ∷ fs) h =
    decode-encode_opened f.command f.payload (encode_all fs) h.0 ∙ rw (decode-opened fs h.1)

-- A decoder that has seen one stray FEND never recovers: of any number of frames that follow, none
-- of whose commands is FEND, it returns an empty frame for each and none of the payloads, and is
-- as far off afterwards as before.
pub decode_desync :
    (fs : List Frame)
    → All (λ (f : Frame). f.command ≢ fend) fs
    → decode new (fend ∷ encode_all fs) ≡ (opened, replicate (length fs) empty_frame)
unfolding feed_all feed
decode_desync fs h = decode-opened fs h

-- `encode_cmd` does not escape the command byte. With FEND for the command the payload is lost,
-- whatever it is: the decoder returns an empty data frame, and is left one delimiter off.
pub encode_cmd-fend_lost :
    (bs : Bytes) → decode new (encode_cmd fend bs) ≡ (opened, empty_frame ∷ [])
unfolding encode_cmd feed_all feed
encode_cmd-fend_lost bs =
    ap (λ (r : Decoder × List Frame). (r.0, empty_frame ∷ r.1))
      (decode_skip (escape bs) (fend ∷ []) new refl (escape-ne-fend bs))
