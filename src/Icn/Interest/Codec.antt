-- ===== src/Icn/Interest/Codec.antt =====
-- Interests on the wire: what is written is read back but for the lifetime, and a length that
-- overflows the position stops the reader.
use rsticulum.Prelude.{
  ℕ, ◌+◌, ◌*◌, ◌^◌, ◌<◌, ◌≤◌, ◌≡◌, refl, arith, Bool, true, false, Option, none, some, ◌∷◌, ◌++◌,
  Bytes, length, drop-append, leb_of_le, leb_of_lt, to_be_bytes, from-to_be_bytes,
  length-to_be_bytes, ok, panic,
}
use rsticulum.Icn.Name.{Name, write_components, write_hash}
use rsticulum.Icn.Name as NameModule
use rsticulum.Icn.Name.Codec as NameCodec
use rsticulum.Icn.Name.Codec.{from_bytes-to_bytes_name, length-to_bytes_name}
use rsticulum.Icn.Varint.{write_varint, read_varint-write_varint, length-write_varint}
use rsticulum.Icn.Selector.{
  InterestError, InterestSelector, read_fixed-append, read_from-write_to, has, with_flag, is_some,
}
use rsticulum.Icn.Selector as SelectorModule
use rsticulum.Icn.Interest.{
  Interest, millis_u32, ns_per_ms, to_bytes, from_bytes, read_length, read_counted, read_flags,
  read_selector, write_selector,
}

abbrev SelectorFits : Option InterestSelector → Type 0
SelectorFits none = Unit
SelectorFits (some s) = SelectorModule.IsValid s

-- A valid name, a nonce of 8 bytes and a valid selector.
pub record IsValid (i : Interest) : Type 0 where
  pub name_valid : NameCodec.IsValid i.name
  pub nonce_length : length i.nonce ≡ 8
  pub selector_fits : SelectorFits i.selector

read-write_selector :
    (selector : Option InterestSelector)
    → SelectorFits selector
    → read_selector (is_some selector) (write_selector selector) ≡ ok selector
unfolding read_selector write_selector
read-write_selector none v = refl
read-write_selector (some s) v = rw (read_from-write_to s v)

flags_lem :
    (a b : Bool)
    → (has (with_flag (with_flag 0 a 0x01) b 0x02) 0x01 ≡ a)
      × (has (with_flag (with_flag 0 a 0x01) b 0x02) 0x02 ≡ b)
flags_lem true true = (refl, refl)
flags_lem true false = (refl, refl)
flags_lem false true = (refl, refl)
flags_lem false false = (refl, refl)

read_counted-append :
    (pos n : ℕ) (bs rest : Bytes)
    → length bs ≡ n
    → pos + n < 2 ^ 64
    → read_counted pos n (bs ++ rest) ≡ ok (bs, rest)
unfolding read_counted
read_counted-append pos n bs rest h within =
    rw (leb_of_lt (2 ^ 64) (pos + n) within, read_fixed-append n bs rest h)

-- A valid interest is read back from its wire form, with its lifetime cut to whole milliseconds
-- and their number taken modulo 2^32.
pub from_bytes-to_bytes_interest :
    (i : Interest)
    → IsValid i
    → from_bytes (to_bytes i) ≡ ok (record i { lifetime = millis_u32 i.lifetime * ns_per_ms })
unfolding from_bytes to_bytes read_length read_flags
from_bytes-to_bytes_interest i v =
    let name_bytes = NameModule.to_bytes i.name in
    let short = length-to_bytes_name i.name v.name_valid in
    let used = length-write_varint (length name_bytes) in
    let small : length name_bytes < 2 ^ 64 = omega (arith, short) in
    let within : length (write_varint (length name_bytes)) + length name_bytes < 2 ^ 64 =
      omega (arith, short, used) in
    let flags = flags_lem i.can_be_prefix (is_some i.selector) in
    let tail =
      to_be_bytes 4 (millis_u32 i.lifetime)
      ++ (with_flag (with_flag 0 i.can_be_prefix 0x01) (is_some i.selector) 0x02
          ∷ write_selector i.selector) in
    rw (
      read_varint-write_varint (length name_bytes) (name_bytes ++ (i.nonce ++ tail)) small,
      drop-append (write_varint (length name_bytes)) (name_bytes ++ (i.nonce ++ tail))
          (length (write_varint (length name_bytes))) refl,
      read_counted-append (length (write_varint (length name_bytes))) (length name_bytes) name_bytes
          (i.nonce ++ tail) refl within,
      from_bytes-to_bytes_name i.name v.name_valid,
      read_fixed-append 8 i.nonce tail v.nonce_length,
      read_fixed-append 4 (to_be_bytes 4 (millis_u32 i.lifetime)) _
          (length-to_be_bytes 4 (millis_u32 i.lifetime)),
      flags.0,
      flags.1,
      read-write_selector i.selector v.selector_fits,
      from-to_be_bytes 4 (millis_u32 i.lifetime) (omega arith),
    )

-- A length field of 64 bits that, with the bytes it takes itself, is beyond a 64-bit position
-- makes the reader panic, whatever follows.
pub from_bytes-overflow :
    (n : ℕ) (rest : Bytes)
    → n < 2 ^ 64
    → 2 ^ 64 ≤ length (write_varint n) + n
    → from_bytes (write_varint n ++ rest) ≡ panic
unfolding from_bytes read_length read_counted
from_bytes-overflow n rest small beyond =
    rw (
      read_varint-write_varint n rest small,
      leb_of_le (2 ^ 64) (length (write_varint n) + n) beyond,
    )
