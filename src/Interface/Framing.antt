-- ===== src/Interface/Framing.antt =====
-- What the framings share: a decoder is fed byte by byte, and its caller collects the frames, as
-- the read loops of crates/interface/src/tcp.rs and serial.rs do.
use rsticulum.Prelude.{◌≡◌, refl, Option, none, some, List, [], ◌∷◌, ◌++◌, Bytes, ℕ}

abbrev pub emit {ℓ} : {F : Type ℓ} → Option F → List F → List F
emit none fs = fs
emit (some f) fs = f ∷ fs

emit-append {ℓ} :
    {F : Type ℓ} (out : Option F) (xs ys : List F) → emit out (xs ++ ys) ≡ emit out xs ++ ys
emit-append none xs ys = refl
emit-append (some f) xs ys = refl

module _ {D F : Type 0} where
  -- `for &byte in bytes { if let Some(frame) = decoder.feed(byte) { … } }`
  unfoldable pub feed_all : (D → ℕ → D × Option F) → D → Bytes → D × List F
  feed_all feed d [] = (d, [])
  feed_all feed d (b ∷ bs) =
      let (d', out) = feed d b in
      let (last, frames) = feed_all feed d' bs in (last, emit out frames)

  -- A read that is cut in two gives the same frames: a decoder keeps what it needs between reads.
  pub feed_all-append :
      (feed : D → ℕ → D × Option F) (d : D) (xs ys : Bytes)
      → feed_all feed d (xs ++ ys) ≡ (
        (feed_all feed (feed_all feed d xs).0 ys).0,
        (feed_all feed d xs).1 ++ (feed_all feed (feed_all feed d xs).0 ys).1,
      )
  unfolding feed_all
  feed_all-append feed d [] ys = refl
  feed_all-append feed d (x ∷ xs) ys =
      rw (feed_all-append feed (feed d x).0 xs ys, emit-append (feed d x).1)
