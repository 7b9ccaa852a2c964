-- ===== src/Interface/Hdlc.antt =====
-- crates/interface/src/hdlc.rs: the HDLC frame encoder and the byte-at-a-time decoder.
pub mod Escape
pub mod Stream
use rsticulum.Prelude.{
  ℕ, Bool, true, false, Option, none, some, [], ◌∷◌, ◌++◌, bit_xor, Bytes, ◌==◌, if◌then◌else◌, not,
  List,
}
use rsticulum.Interface.Framing.{feed_all}

abbrev pub flag : ℕ
flag = 0x7E

abbrev pub esc : ℕ
esc = 0x7D

abbrev pub esc_mask : ℕ
esc_mask = 0x20

-- What `escape` pushes for one byte.
unfoldable pub escape_byte : ℕ → Bytes
escape_byte b =
    if b == esc
    then esc ∷ bit_xor esc esc_mask ∷ []
    else if b == flag
    then esc ∷ bit_xor flag esc_mask ∷ []
    else b ∷ []

unfoldable pub escape : Bytes → Bytes
unfolding escape_byte
escape [] = []
escape (b ∷ bs) = escape_byte b ++ escape bs

unfoldable pub encode : Bytes → Bytes
unfolding escape
encode bs = flag ∷ (escape bs ++ flag ∷ [])

pub record Decoder : Type 0 where
  pub in_frame : Bool
  pub escape : Bool
  pub data_buffer : Bytes

abbrev pub new : Decoder
new = record { in_frame = false; escape = false; data_buffer = [] }

unfoldable pub reset : Decoder → Decoder
reset d = record d { in_frame = false; escape = false; data_buffer = [] }

unfoldable pub feed : Decoder → ℕ → Decoder × Option Bytes
feed d byte =
    if not d.in_frame
    then (if byte == flag
        then (record d { in_frame = true; escape = false; data_buffer = [] }, none)
        else (d, none))
    else if d.escape
    then (
      record d { escape = false; data_buffer = d.data_buffer ++ bit_xor byte esc_mask ∷ [] },
      none,
    )
    else if byte == esc
    then (record d { escape = true }, none)
    else if byte == flag
    then (record d { in_frame = true; data_buffer = [] }, some d.data_buffer)
    else (record d { data_buffer = d.data_buffer ++ byte ∷ [] }, none)

abbrev pub decode : Decoder → Bytes → Decoder × List Bytes
decode = feed_all feed
