-- ===== src/Icn/Interest.antt =====
-- crates/icn/src/interest.rs: interests and their wire form. A `Duration` is its nanoseconds.
pub mod Codec
use rsticulum.Prelude.{
  ℕ, ◌+◌, ◌*◌, ◌/◌, ◌%◌, ◌^◌, Bool, true, false, Option, none, some, [], ◌∷◌, ◌++◌, Bytes, length,
  take, drop, ltb, leb, if◌then◌else◌, to_be_bytes, of_be_bytes, from_be_bytes, Result, ok, err,
  panic, map_err, ◌>>=◌,
}
use rsticulum.Icn.Name.{Name}
use rsticulum.Icn.Name as NameModule
use rsticulum.Icn.Varint.{write_varint, read_varint}
use rsticulum.Icn.Selector.{
  InterestError, buffer_too_short, invalid_name, InterestSelector, read_fixed, read_from, write_to,
  has, with_flag, is_some,
}

pub record Interest : Type 0 where
  pub name : Name
  pub nonce : Bytes
  pub lifetime : ℕ
  pub can_be_prefix : Bool
  pub selector : Option InterestSelector

abbrev pub ns_per_ms : ℕ
ns_per_ms = 1000000

-- The nonce is random.
unfoldable pub new : Name → Bytes → Interest
new name nonce = record {
  name = name;
  nonce = nonce;
  lifetime = 4000 * ns_per_ms;
  can_be_prefix = false;
  selector = none;
}

unfoldable pub with_lifetime : Interest → ℕ → Interest
with_lifetime i lifetime = record i { lifetime = lifetime }

unfoldable pub with_can_be_prefix : Interest → Interest
with_can_be_prefix i = record i { can_be_prefix = true }

unfoldable pub with_selector : Interest → InterestSelector → Interest
with_selector i selector = record i { selector = some selector }

abbrev or_default : Option InterestSelector → InterestSelector
or_default none = record { min_sequence = none; exclude_hashes = []; must_be_fresh = false }
or_default (some s) = s

unfoldable pub with_must_be_fresh : Interest → Interest
with_must_be_fresh i = record i {
  selector = some (record (or_default i.selector) { must_be_fresh = true });
}

-- `as_millis() as u32`; the `min` with `u32::MAX` that follows changes nothing.
abbrev pub millis_u32 : ℕ → ℕ
millis_u32 lifetime = lifetime / ns_per_ms % 2 ^ 32

unfoldable pub write_selector : Option InterestSelector → Bytes
write_selector none = []
write_selector (some s) = write_to s

unfoldable pub to_bytes : Interest → Bytes
unfolding write_selector
to_bytes i =
    let name_bytes = NameModule.to_bytes i.name in
    write_varint (length name_bytes)
    ++ (name_bytes
        ++ (i.nonce
            ++ (to_be_bytes 4 (millis_u32 i.lifetime)
                ++ (with_flag (with_flag 0 i.can_be_prefix 0x01) (is_some i.selector) 0x02
                    ∷ write_selector i.selector))))

-- `.ok_or(InterestError::BufferTooShort)?`
unfoldable pub read_length : Option (ℕ × ℕ) → Result InterestError (ℕ × ℕ)
read_length none = err buffer_too_short
read_length (some pair) = ok pair

-- `n` bytes from a position on; `pos + n` on a `usize`, with overflow checks.
unfoldable pub read_counted : ℕ → ℕ → Bytes → Result InterestError (Bytes × Bytes)
unfolding read_fixed
read_counted pos n bs = if leb (2 ^ 64) (pos + n) then panic else read_fixed n bs

unfoldable pub read_selector : Bool → Bytes → Result InterestError (Option InterestSelector)
read_selector false bs = ok none
read_selector true bs = do s ← read_from bs; ok (some s)

-- From the flags byte on.
unfoldable pub read_flags : Name → Bytes → Bytes → Bytes → Result InterestError Interest
unfolding read_selector
read_flags name nonce millis [] = err buffer_too_short
read_flags name nonce millis (flags ∷ bs) = do
  selector ← read_selector (has flags 0x02) bs
  ok (record {
    name = name;
    nonce = nonce;
    lifetime = from_be_bytes millis * ns_per_ms;
    can_be_prefix = has flags 0x01;
    selector = selector;
  })

unfoldable pub from_bytes : Bytes → Result InterestError Interest
unfolding read_length read_counted read_flags
from_bytes bs = do
  (name_len, used) ← read_length (read_varint bs)
  (name_bytes, after_name) ← read_counted used name_len (drop used bs)
  name ← map_err (λ _. invalid_name) (NameModule.from_bytes name_bytes)
  (nonce, after_nonce) ← read_fixed 8 after_name
  (millis, after_millis) ← read_fixed 4 after_nonce
  read_flags name nonce millis after_millis
