-- ===== src/Interface/Serial/Stream.antt =====
-- The read loop of the serial interface on encoded frames.
use mathlib.Core.List.{append_assoc, append-nil}
use rsticulum.Prelude.{
  ℕ, List, [], ◌∷◌, ◌++◌, Bytes, ◌≡◌, ◌≢◌, refl, ◌∙◌, arith, ap, All, All-append,
}
use rsticulum.Interface.Framing.{emit}
use rsticulum.Interface.Hdlc.Stream.{nonempty}
use rsticulum.Interface.Serial.{
  flag, escape_byte, escape, hdlc_encode, Decoder, in_frame, new, close, Event, byte, timed_out,
  read_loop,
}

-- The bytes of encoded payloads, arriving with no timeout between them, and what follows them.
abbrev arriving : Bytes → List Event → List Event
arriving [] rest = rest
arriving (b ∷ bs) rest = byte b ∷ arriving bs rest

abbrev pub encoded : List Bytes → List Event
encoded [] = []
encoded (p ∷ ps) = arriving (hdlc_encode p) (encoded ps)

arriving-append :
    (xs ys : Bytes) (rest : List Event) → arriving (xs ++ ys) rest ≡ arriving xs (arriving ys rest)
arriving-append [] ys rest = refl
arriving-append (x ∷ xs) ys rest = ap (◌∷◌ (byte x)) (arriving-append xs ys rest)

read-escape_byte :
    (b : ℕ) (buf : Bytes) (rest : List Event)
    → read_loop (record { buf = buf; state = in_frame }) (arriving (escape_byte b) rest)
      ≡ read_loop (record { buf = buf ++ b ∷ []; state = in_frame }) rest
unfolding read_loop escape_byte
read-escape_byte b buf rest = ground arith

read-escape :
    (bs buf : Bytes) (rest : List Event)
    → read_loop (record { buf = buf; state = in_frame }) (arriving (escape bs) rest)
      ≡ read_loop (record { buf = buf ++ bs; state = in_frame }) rest
unfolding escape
read-escape [] buf rest = rw append-nil
read-escape (b ∷ bs) buf rest = rw (arriving-append (escape_byte b) (escape bs) rest) (
    read-escape_byte b buf (arriving (escape bs) rest)
    ∙ read-escape bs (buf ++ b ∷ []) rest
    ∙ rw append_assoc)

read-hdlc_encode :
    (p : Bytes) (rest : List Event)
    → read_loop new (arriving (hdlc_encode p) rest)
      ≡ ((read_loop new rest).0, emit (close p) (read_loop new rest).1)
unfolding hdlc_encode read_loop
read-hdlc_encode p rest =
    rw (arriving-append (escape p) (flag ∷ []) rest, read-escape p [] (byte flag ∷ rest))

emit-close : (p : Bytes) (ps : List Bytes) → emit (close p) (nonempty ps) ≡ nonempty (p ∷ ps)
unfolding close
emit-close [] ps = refl
emit-close (b ∷ bs) ps = refl

read-encoded : (ps : List Bytes) → read_loop new (encoded ps) ≡ (new, nonempty ps)
read-encoded [] = unfold read_loop in refl
read-encoded (p ∷ ps) =
    read-hdlc_encode p (encoded ps) ∙ rw (read-encoded ps) (ap (λ fs. (new, fs)) (emit-close p ps))

-- After a timeout, whatever the decoder held before, encoded payloads that arrive in a row are
-- returned in order, without the empty ones.
pub read_loop_after_timeout :
    (d : Decoder) (ps : List Bytes) → read_loop d (timed_out ∷ encoded ps) ≡ (new, nonempty ps)
unfolding read_loop
read_loop_after_timeout d ps = read-encoded ps

-- Behind one stray flag, with nothing read.
abbrev pub opened : Decoder
opened = record { buf = []; state = in_frame }

escape_byte-ne-flag : (b : ℕ) → All (λ c. c ≢ flag) (escape_byte b)
unfolding escape_byte
escape_byte-ne-flag b = ground arith

escape-ne-flag : (bs : Bytes) → All (λ c. c ≢ flag) (escape bs)
unfolding escape
escape-ne-flag [] = tt
escape-ne-flag (b ∷ bs) =
    All-append _ (escape_byte b) (escape bs) (escape_byte-ne-flag b) (escape-ne-flag bs)

read_skip :
    (bs : Bytes) (rest : List Event)
    → All (λ c. c ≢ flag) bs
    → read_loop new (arriving bs rest) ≡ read_loop new rest
unfolding read_loop
read_skip [] rest h = refl
read_skip (b ∷ bs) rest h = ground (arith, read_skip bs rest h.1)

read-hdlc_encode-opened :
    (p : Bytes) (rest : List Event)
    → read_loop opened (arriving (hdlc_encode p) rest) ≡ read_loop opened rest
unfolding hdlc_encode read_loop
read-hdlc_encode-opened p rest =
    rw (arriving-append (escape p) (flag ∷ []) rest)
      (read_skip (escape p) (byte flag ∷ rest) (escape-ne-flag p))

read-encoded-opened : (ps : List Bytes) → read_loop opened (encoded ps) ≡ (opened, [])
read-encoded-opened [] = unfold read_loop in refl
read-encoded-opened (p ∷ ps) = read-hdlc_encode-opened p (encoded ps) ∙ read-encoded-opened ps

-- One stray flag before a run of encoded payloads with no timeout in it loses every one of them,
-- however many follow: the loop returns no frame and is as far off at the end as at the start.
pub read_loop_stray_flag : (ps : List Bytes) → read_loop new (byte flag ∷ encoded ps) ≡ (opened, [])
unfolding read_loop
read_loop_stray_flag ps = read-encoded-opened ps
