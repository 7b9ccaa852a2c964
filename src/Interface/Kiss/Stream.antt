-- ===== src/Interface/Kiss/Stream.antt =====
-- What a KISS decoder that stands between two frames makes of encoded frames.
use mathlib.Core.List.{append_assoc, append-nil}
use rsticulum.Prelude.{
  ℕ, true, false, some, List, [], ◌∷◌, ◌++◌, Bytes, ◌≡◌, ◌≢◌, refl, ◌∙◌, arith, sym, ap, All,
}
use rsticulum.Interface.Framing.{feed_all}
use rsticulum.Interface.Kiss.{
  fend, fesc, cmd_data, Frame, escape_byte, escape, encode_cmd, encode, Decoder, new, feed, decode,
  encode_all,
}

-- Inside a frame, behind its command byte and outside an escape sequence.
abbrev pub IsReading : ℕ → Decoder → Type 0
IsReading cmd d = (d.in_frame ≡ true) × (d.escape ≡ false) × (d.command ≡ some cmd)

decode-escape_byte :
    (b : ℕ) {cmd : ℕ} (d : Decoder) (rest : Bytes)
    → IsReading cmd d
    → decode d (escape_byte b ++ rest)
      ≡ decode (record d { data_buffer = d.data_buffer ++ b ∷ [] }) rest
unfolding feed_all feed escape_byte
decode-escape_byte b d rest h = ground arith

decode-escape :
    (bs : Bytes) {cmd : ℕ} (d : Decoder) (rest : Bytes)
    → IsReading cmd d
    → decode d (escape bs ++ rest) ≡ decode (record d { data_buffer = d.data_buffer ++ bs }) rest
unfolding escape
decode-escape [] d rest h = rw append-nil
decode-escape (b ∷ bs) d rest h =
    ap (decode d) (append_assoc (escape_byte b) (escape bs) rest)
    ∙ decode-escape_byte b d (escape bs ++ rest) h
    ∙ decode-escape bs _ rest h
    ∙ rw append_assoc

decode-fend :
    {cmd : ℕ} (d : Decoder) (rest : Bytes)
    → IsReading cmd d
    → decode d (fend ∷ rest) ≡ (
      (decode new rest).0,
      record { command = cmd; payload = d.data_buffer } ∷ (decode new rest).1,
    )
unfolding feed_all feed
decode-fend d rest h = ground arith

-- A command byte that the encoder writes as it is and the decoder takes for the command.
abbrev pub IsPlain : ℕ → Type 0
IsPlain cmd = (cmd ≢ fend) × (cmd ≢ fesc)

decode-encode_cmd :
    (cmd : ℕ) (bs rest : Bytes) (d : Decoder)
    → IsPlain cmd
    → d.in_frame ≡ false
    → decode d (encode_cmd cmd bs ++ rest)
      ≡ ((decode new rest).0, record { command = cmd; payload = bs } ∷ (decode new rest).1)
unfolding encode_cmd feed_all feed
decode-encode_cmd cmd bs rest d plain h =
    opening
    ∙ rw
        (
          append_assoc (escape bs) (fend ∷ []) rest,
          decode-escape bs reading (fend ∷ rest) is_reading,
        )
        (decode-fend (record reading { data_buffer = bs }) rest is_reading)
  where
    reading : Decoder
    reading = record { in_frame = true; escape = false; data_buffer = []; command = some cmd }

    is_reading : IsReading cmd reading
    is_reading = (refl, refl, refl)

    opening :
        decode d (encode_cmd cmd bs ++ rest) ≡ decode reading ((escape bs ++ fend ∷ []) ++ rest)
    opening = ground arith

-- A new decoder that is fed encoded frames in a row, whose command bytes are neither FEND nor
-- FESC, returns exactly these frames in order, and is new again.
pub frames_read_back :
    (fs : List Frame)
    → All (λ (f : Frame). IsPlain f.command) fs
    → decode new (encode_all fs) ≡ (new, fs)
frames_read_back [] plain = unfold feed_all in refl
frames_read_back (f ∷ fs) plain =
    decode-encode_cmd f.command f.payload (encode_all fs) new plain.0 refl
    ∙ rw (frames_read_back fs plain.1)

-- `encode` is `encode_cmd` at CMD_DATA, so every payload is read back, whatever bytes it holds, and
-- the decoder is new again.
pub decode-encode :
    (bs : Bytes) → decode new (encode bs) ≡ (new, record { command = cmd_data; payload = bs } ∷ [])
unfolding encode
decode-encode bs =
    unfold encode_cmd in
    (sym (ap (decode new) (append-nil (encode_cmd cmd_data bs)))
      ∙ frames_read_back (record { command = cmd_data; payload = bs } ∷ [])
          ((omega arith, omega arith), tt))
