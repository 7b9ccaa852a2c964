-- ===== src/Interface/Serial.antt =====
-- crates/interface/src/serial.rs: the framing of the serial interface, which has its own HDLC
-- encoder, a decoder of whole frames, and a byte-at-a-time decoder with three states.
pub mod Whole
pub mod Stream
use rsticulum.Prelude.{
  ℕ, ◌+◌, ◌-◌, Bool, true, false, Option, none, some, List, [], ◌∷◌, ◌++◌, Bytes, ◌==◌, ltb,
  if◌then◌else◌, ◌||◌, length, take, drop, bit_xor,
}
use rsticulum.Interface.Framing.{emit}

abbrev pub flag : ℕ
flag = 0x7E

abbrev pub esc : ℕ
esc = 0x7D

abbrev pub esc_mask : ℕ
esc_mask = 0x20

-- What the loop of `hdlc_encode` pushes for one byte.
unfoldable pub escape_byte : ℕ → Bytes
escape_byte byte =
    if byte == flag || byte == esc then esc ∷ bit_xor byte esc_mask ∷ [] else byte ∷ []

unfoldable pub escape : Bytes → Bytes
unfolding escape_byte
escape [] = []
escape (b ∷ bs) = escape_byte b ++ escape bs

unfoldable pub hdlc_encode : Bytes → Bytes
unfolding escape
hdlc_encode bs = flag ∷ (escape bs ++ flag ∷ [])

-- The loop of `hdlc_decode`, on what is left of `inner`.
unfoldable pub unescape : Bytes → Bytes
unescape [] = []
unescape (b ∷ []) = b ∷ []
unescape (b ∷ c ∷ rest) = elim (b == esc) [
  | true ↦ bit_xor c esc_mask ∷ unescape rest
  | false ↦ b ∷ unescape (c ∷ rest)
]

-- `frame.last()`
unfoldable pub last? : Bytes → Option ℕ
last? [] = none
last? (b ∷ []) = some b
last? (b ∷ c ∷ rest) = last? (c ∷ rest)

abbrev pub is_flag : Option ℕ → Bool
is_flag none = false
is_flag (some b) = b == flag

abbrev pub first? : Bytes → Option ℕ
first? [] = none
first? (b ∷ _) = some b

unfoldable pub hdlc_decode : Bytes → Option Bytes
unfolding last? unescape
hdlc_decode frame =
    if ltb (length frame) 2
    then none
    else let start = if is_flag (first? frame) then 1 else 0 in
      let end = if is_flag (last? frame) then length frame - 1 else length frame in
      if ltb end start then none else some (unescape (take (end - start) (drop start frame)))

pub data HdlcState : Type 0 where
  wait_flag in_frame escape_next : HdlcState

pub record Decoder : Type 0 where
  pub buf : Bytes
  pub state : HdlcState

abbrev pub new : Decoder
new = record { buf = []; state = wait_flag }

unfoldable pub reset : Decoder → Decoder
reset d = record d { state = wait_flag; buf = [] }

-- A frame that is closed: an empty one is not returned.
unfoldable pub close : Bytes → Option Bytes
close [] = none
close (b ∷ bs) = some (b ∷ bs)

unfoldable pub feed_in : HdlcState → Decoder → ℕ → Decoder × Option Bytes
unfolding close
feed_in wait_flag d byte =
    if byte == flag then (record d { state = in_frame; buf = [] }, none) else (d, none)
feed_in in_frame d byte =
    if byte == flag
    then (record d { state = wait_flag; buf = [] }, close d.buf)
    else if byte == esc
    then (record d { state = escape_next }, none)
    else (record d { buf = d.buf ++ byte ∷ [] }, none)
feed_in escape_next d byte =
    (record d { buf = d.buf ++ bit_xor byte esc_mask ∷ []; state = in_frame }, none)

abbrev pub feed : Decoder → ℕ → Decoder × Option Bytes
feed d = feed_in d.state d

-- What `port.read_exact` gives the read loop: a byte, or a timeout. (An error ends the inner loop,
-- and the decoder is kept.)
pub data Event : Type 0 where
  byte : ℕ → Event
  timed_out : Event

-- The inner loop of `spawn_read_loop`: the frames that it sends to the channel, which has room.
unfoldable pub read_loop : Decoder → List Event → Decoder × List Bytes
unfolding feed_in reset
read_loop d [] = (d, [])
read_loop d (byte b ∷ events) =
    let (d', out) = feed d b in let (last, frames) = read_loop d' events in (last, emit out frames)
read_loop d (timed_out ∷ events) = read_loop (reset d) events
