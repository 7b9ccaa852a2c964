-- ===== src/Interface/Tests.antt =====
-- Tests of the framings, and their theorems at concrete frames.
use rsticulum.Prelude.{◌≡◌, refl, arith, true, List, [], ◌∷◌, ◌++◌, replicate, Bytes, some}
use rsticulum.Interface.Hdlc
use rsticulum.Interface.Hdlc.Stream.{
  at_flag, encode_all, spaced, nonempty, decode-encode_all, decode_resync,
}
use rsticulum.Interface.Kiss
use rsticulum.Interface.Kiss.{Frame}
use rsticulum.Interface.Kiss.Stream.{frames_read_back}
use rsticulum.Interface.Kiss.Desync.{opened, empty_frame, decode_desync}
use rsticulum.Interface.Serial
use rsticulum.Interface.Serial.{Event, byte, timed_out, in_frame, read_loop}

abbrev payload : Bytes
payload = 0x41 ∷ 0x7E ∷ 0x7D ∷ 0x42 ∷ []

hdlc_escapes : Hdlc.encode payload ≡ 0x7E ∷ 0x41 ∷ 0x7D ∷ 0x5E ∷ 0x7D ∷ 0x5D ∷ 0x42 ∷ 0x7E ∷ []
unfolding Hdlc.encode
hdlc_escapes = refl

kiss_escapes :
    Kiss.encode (0x41 ∷ 0xC0 ∷ 0xDB ∷ []) ≡ 0xC0 ∷ 0 ∷ 0x41 ∷ 0xDB ∷ 0xDC ∷ 0xDB ∷ 0xDD ∷ 0xC0 ∷ []
unfolding Kiss.encode
kiss_escapes = refl

serial_escapes : Serial.hdlc_encode payload ≡ Hdlc.encode payload
unfolding Serial.hdlc_encode Hdlc.encode
serial_escapes = refl

serial_decodes :
    Serial.hdlc_decode (0x41 ∷ 0x7D ∷ 0x5E ∷ 0x7D ∷ []) ≡ some (0x41 ∷ 0x7E ∷ 0x7D ∷ [])
unfolding Serial.hdlc_decode
serial_decodes = refl

abbrev payloads : List Bytes
payloads = payload ∷ [] ∷ (1 ∷ []) ∷ []

decode-encode_all_example :
    ((Hdlc.decode Hdlc.new (encode_all payloads)).1 ≡ payload ∷ spaced ([] ∷ (1 ∷ []) ∷ []))
    × (nonempty (Hdlc.decode Hdlc.new (encode_all payloads)).1 ≡ nonempty payloads)
decode-encode_all_example = decode-encode_all payload ([] ∷ (1 ∷ []) ∷ [])

abbrev broken : Hdlc.Decoder
broken = record { in_frame = true; escape = true; data_buffer = 9 ∷ [] }

decode_resync_example :
    (junk : List Bytes) × (Hdlc.decode broken (Hdlc.encode payload ++ Hdlc.encode (1 ∷ []))
      ≡ (at_flag, junk ++ (1 ∷ []) ∷ []))
decode_resync_example = decode_resync broken payload (1 ∷ [])

abbrev frames : List Frame
frames =
    record { command = 0; payload = 0xC0 ∷ 0xDB ∷ [] } ∷ record { command = 1; payload = [] } ∷ []

frames_read_back_example : Kiss.decode Kiss.new (Kiss.encode_all frames) ≡ (Kiss.new, frames)
frames_read_back_example = frames_read_back frames (omega arith)

decode_desync_example :
    Kiss.decode Kiss.new (Kiss.fend ∷ Kiss.encode_all frames) ≡ (opened, replicate 2 empty_frame)
decode_desync_example = decode_desync frames (omega arith)

abbrev interrupted : Serial.Decoder
interrupted = record { buf = 1 ∷ 2 ∷ []; state = in_frame }
