-- ===== src/Buffer/Streaming.antt =====
-- The chunks of a stream, the reader's handler on them, and what calls of `read` return.
use mathlib.Core.List.{append_assoc, append-nil}
use rsticulum.Prelude.{
  ℕ, ◌^◌, ◌<◌, ◌≤◌, ◌≡◌, refl, ap, ◌∙◌, arith, min, List, [], ◌∷◌, ◌++◌, Bytes, length, length-take,
  length-drop, take, drop, take-append-drop, ltb, ltb→lt, ==_self, inl, inr, Bool-cases,
}
use rsticulum.Buffer.Message.{pack, unpack-pack_stream}
use rsticulum.Buffer.{
  RawChannelReader, on_message, take_message, read, ReadResult, bytes, end_of_stream, wait,
  chunk_of, data_message,
}

-- Calls of `read` with the given sizes: what they return, one behind the other, and the reader.
unfoldable pub returned : ReadResult → Bytes
returned (bytes bs) = bs
returned end_of_stream = []
returned wait = []

unfoldable pub read_all : RawChannelReader → List ℕ → Bytes × RawChannelReader
unfolding returned
read_all r [] = ([], r)
read_all r (size ∷ sizes) =
    let (result, r') = read r size in
    let (more, last) = read_all r' sizes in (returned result ++ more, last)

pub on_message-data :
    (r : RawChannelReader) (chunk : Bytes)
    → r.stream_id < 2 ^ 14
    → on_message r (pack (data_message r.stream_id chunk)) ≡ record r { buffer = r.buffer ++ chunk }
unfolding on_message take_message
on_message-data r chunk h =
    rw (unpack-pack_stream (data_message r.stream_id chunk) h, ==_self r.stream_id)

pub chunk-rest :
    (most : ℕ) (bs : Bytes) → chunk_of most bs ++ drop (length (chunk_of most bs)) bs ≡ bs
chunk-rest most bs = elim (Bool-cases (ltb most (length bs))) [
  | inl long ↦
      let cut : length (take most bs) ≡ most =
        omega (arith, length-take most bs, ltb→lt most (length bs) long) in
      rw (long, cut, take-append-drop most bs)
  | inr short ↦ rw (short, drop_whole bs) (append-nil bs)
]
  where
    drop_whole : (bs : Bytes) → drop (length bs) bs ≡ []
    drop_whole [] = refl
    drop_whole (b ∷ bs) = drop_whole bs

pub chunk_some : (most b : ℕ) (bs : Bytes) → 0 < most → 1 ≤ length (chunk_of most (b ∷ bs))
chunk_some most b bs h = elim (Bool-cases (ltb most (length (b ∷ bs)))) [
  | inl long ↦
      rw long (omega (arith, length-take most (b ∷ bs), ltb→lt most (length (b ∷ bs)) long))
  | inr short ↦ rw short (omega arith)
]

pub length-chunk_of : (most : ℕ) (bs : Bytes) → length (chunk_of most bs) ≡ min most (length bs)
length-chunk_of most bs = ground (arith, length-take most bs)

pub rest-shorter :
    (most : ℕ) (b : ℕ) (bs : Bytes)
    → 0 < most
    → length (drop (length (chunk_of most (b ∷ bs))) (b ∷ bs)) ≤ length bs
rest-shorter most b bs h =
    omega (arith, length-drop (length (chunk_of most (b ∷ bs))) (b ∷ bs), chunk_some most b bs h)

read-conserves :
    (r : RawChannelReader) (size : ℕ)
    → returned (read r size).0 ++ (read r size).1.buffer ≡ r.buffer
unfolding read returned
read-conserves r size = elim (Bool-cases (ltb 0 (length r.buffer))) [
  | inl some_bytes ↦ rw some_bytes (take-append-drop (min (length r.buffer) size) r.buffer)
  | inr none_left ↦ elim (Bool-cases r.eof) [
    | inl ended ↦ rw (none_left, ended) refl
    | inr open_still ↦ rw (none_left, open_still) refl
  ]
]

-- Whatever the sizes asked for, the calls of `read` return the buffer from its front on, nothing
-- twice and nothing left out.
pub read_all-conserves :
    (r : RawChannelReader) (sizes : List ℕ)
    → (read_all r sizes).0 ++ (read_all r sizes).1.buffer ≡ r.buffer
unfolding read_all read
read_all-conserves r [] = refl
read_all-conserves r (size ∷ sizes) =
    append_assoc (returned (read r size).0) (read_all (read r size).1 sizes).0
      (read_all (read r size).1 sizes).1.buffer
    ∙ ap (λ (t : Bytes). returned (read r size).0 ++ t) (read_all-conserves (read r size).1 sizes)
    ∙ read-conserves r size
