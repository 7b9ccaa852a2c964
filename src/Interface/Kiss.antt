-- ===== src/Interface/Kiss.antt =====
-- crates/interface/src/kiss.rs: the KISS frame encoder and the byte-at-a-time decoder.
pub mod Stream
pub mod Desync
use rsticulum.Prelude.{
  ℕ, Bool, true, false, Option, none, some, List, [], ◌∷◌, ◌++◌, Bytes, ◌==◌, if◌then◌else◌, not,
}
use rsticulum.Interface.Framing.{feed_all}

abbrev pub fend : ℕ
fend = 0xC0

abbrev pub fesc : ℕ
fesc = 0xDB

abbrev pub tfend : ℕ
tfend = 0xDC

abbrev pub tfesc : ℕ
tfesc = 0xDD

abbrev pub cmd_data : ℕ
cmd_data = 0x00

-- `KissFrameResult`
pub record Frame : Type 0 where
  pub command : ℕ
  pub payload : Bytes

-- What `escape` pushes for one byte.
unfoldable pub escape_byte : ℕ → Bytes
escape_byte b =
    if b == fesc then fesc ∷ tfesc ∷ [] else if b == fend then fesc ∷ tfend ∷ [] else b ∷ []

unfoldable pub escape : Bytes → Bytes
unfolding escape_byte
escape [] = []
escape (b ∷ bs) = escape_byte b ++ escape bs

unfoldable pub encode_cmd : ℕ → Bytes → Bytes
unfolding escape
encode_cmd cmd bs = fend ∷ cmd ∷ (escape bs ++ fend ∷ [])

unfoldable pub encode : Bytes → Bytes
unfolding escape
encode bs = fend ∷ cmd_data ∷ (escape bs ++ fend ∷ [])

unfoldable pub encode_cmd_value : ℕ → ℕ → Bytes
unfolding encode_cmd
encode_cmd_value cmd value = encode_cmd cmd (value ∷ [])

pub record Decoder : Type 0 where
  pub in_frame : Bool
  pub escape : Bool
  pub data_buffer : Bytes
  pub command : Option ℕ

abbrev pub new : Decoder
new = record { in_frame = false; escape = false; data_buffer = []; command = none }

unfoldable pub reset : Decoder → Decoder
reset d = record d { in_frame = false; escape = false; data_buffer = []; command = none }

-- The `match byte` of the escape branch.
unfoldable pub unescape : ℕ → ℕ
unescape byte = if byte == tfesc then fesc else if byte == tfend then fend else byte

-- `self.command.unwrap_or(CMD_DATA)`
abbrev pub command_or_data : Option ℕ → ℕ
command_or_data none = cmd_data
command_or_data (some c) = c

-- A byte that is neither escaped nor special: the first one is the command.
unfoldable pub plain_byte : Option ℕ → Decoder → ℕ → Decoder
plain_byte none d byte = record d { command = some byte }
plain_byte (some _) d byte = record d { data_buffer = d.data_buffer ++ byte ∷ [] }

unfoldable pub feed : Decoder → ℕ → Decoder × Option Frame
unfolding unescape plain_byte
feed d byte =
    if not d.in_frame
    then (if byte == fend
        then (record d { in_frame = true; escape = false; data_buffer = []; command = none }, none)
        else (d, none))
    else if d.escape
    then (record d { escape = false; data_buffer = d.data_buffer ++ unescape byte ∷ [] }, none)
    else if byte == fesc
    then (record d { escape = true }, none)
    else if byte == fend
    then (
      record d { in_frame = false; data_buffer = []; command = none },
      some (record { command = command_or_data d.command; payload = d.data_buffer }),
    )
    else (plain_byte d.command d byte, none)

abbrev pub decode : Decoder → Bytes → Decoder × List Frame
decode = feed_all feed

-- The encoded frames, one after the other.
abbrev pub encode_all : List Frame → Bytes
encode_all [] = []
encode_all (f ∷ fs) = encode_cmd f.command f.payload ++ encode_all fs
