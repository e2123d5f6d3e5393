-- ===== src/Codec/LengthField/RoundTrip.antt =====
-- What `LengthFieldPrepender` and the decoder's own encoder write is read back by the decoder.
use rs_netty.Common.{
  ℕ, ◌+◌, ◌/◌, ◌^◌, ◌≤◌, ◌<◌, ◌≡◌, refl, ap, some, [], ◌++◌, length, take, drop, get_or, arith,
  length-append, take-length_append, drop-length_append, append_assoc, take-append_both,
  drop-append_both,
}
use rs_netty.Common.Bytes.{
  Bytes, from_be_bytes-to_be_bytes, from_le_bytes-to_le_bytes, length-to_be_bytes,
  length-to_le_bytes,
}
use rs_netty.Error.{ok}
use rs_netty.Codec.{IsErr}
use rs_netty.Codec.LengthField.{
  ByteOrder, big_endian, little_endian, read_frame_length, frame_end_of, decode, new,
  set_byte_order, to_bytes, from_bytes, from_24, prepend, write_length, put_24, new_prepender,
  set_prepender_order, encode, write_frame_length,
}

-- The supported widths of a length field.
pub data Width : Type 0 where
  one two three four eight : Width

abbrev pub size : Width → ℕ
size one = 1
size two = 2
size three = 3
size four = 4
size eight = 8

length-to_bytes : (order : ByteOrder) (n v : ℕ) → length (to_bytes order n v) ≡ n
length-to_bytes big_endian n v = length-to_be_bytes n v
length-to_bytes little_endian n v = length-to_le_bytes n v

from_bytes-to_bytes :
    (order : ByteOrder) (n v : ℕ) → v < 256 ^ n → from_bytes order (to_bytes order n v) ≡ v
from_bytes-to_bytes big_endian n v h = from_be_bytes-to_be_bytes n v h
from_bytes-to_bytes little_endian n v h = from_le_bytes-to_le_bytes n v h

take-to_bytes :
    (order : ByteOrder) (n v : ℕ) (rest : Bytes)
    → take n (to_bytes order n v ++ rest) ≡ to_bytes order n v
take-to_bytes order n v rest =
    rw (length-to_bytes order n v) at (take-length_append (to_bytes order n v) rest)

put_24-eq :
    (order : ByteOrder) (len : ℕ) (dst : Bytes) → put_24 order len dst ≡ dst ++ to_bytes order 3 len
put_24-eq big_endian len dst = let e : len / 2 ^ 16 ≡ len / 256 / 256 = omega arith in rw e
put_24-eq little_endian len dst = let e : len / 2 ^ 16 ≡ len / 256 / 256 = omega arith in rw e

-- The bytes that are written are those of the length, in the width of the field.
pub write_length_lem :
    (w : Width) (len : ℕ) (order : ByteOrder) (dst : Bytes)
    → len < 256 ^ size w
    → write_length len (size w) order dst ≡ (ok tt, dst ++ to_bytes order (size w) len)
unfolding write_length
write_length_lem one len order dst h = ground arith
write_length_lem two len order dst h = ground arith
write_length_lem three len order dst h = ground (arith, put_24-eq order len dst)
write_length_lem four len order dst h = ground arith
write_length_lem eight len order dst h = ground arith

read_frame_length_lem :
    (w : Width) (len max : ℕ) (order : ByteOrder) (rest : Bytes)
    → len < 256 ^ size w
    → read_frame_length
        (set_byte_order (new max 0 (size w)) order)
        (to_bytes order (size w) len ++ rest)
      ≡ ok len
unfolding read_frame_length
read_frame_length_lem one len max order rest h = ap ok (one_byte order)
  where
    one_byte : (o : ByteOrder) → get_or (take 1 (to_bytes o 1 len ++ rest)) 0 0 ≡ len
    one_byte big_endian = omega arith
    one_byte little_endian = omega arith
read_frame_length_lem two len max order rest h =
    rw (take-to_bytes order 2 len rest) (ap ok (from_bytes-to_bytes order 2 len h))
read_frame_length_lem three len max order rest h = ap ok (three_bytes order)
  where
    three_bytes : (o : ByteOrder) → from_24 o (take 3 (to_bytes o 3 len ++ rest)) ≡ len
    three_bytes big_endian = omega arith
    three_bytes little_endian = omega arith
read_frame_length_lem four len max order rest h =
    rw (take-to_bytes order 4 len rest) (ap ok (from_bytes-to_bytes order 4 len h))
read_frame_length_lem eight len max order rest h =
    rw (take-to_bytes order 8 len rest) (ap ok (from_bytes-to_bytes order 8 len h))

frame_end_of_lem :
    (w : Width) (item rest : Bytes) (max : ℕ) (order : ByteOrder)
    → length item < 256 ^ size w
    → size w + length item ≤ max
    → max < 2 ^ 64
    → frame_end_of
        (set_byte_order (new max 0 (size w)) order)
        (to_bytes order (size w) (length item) ++ (item ++ rest))
      ≡ ok (size w + length item)
unfolding frame_end_of
frame_end_of_lem w item rest max order h fits word =
    rw (read_frame_length_lem w (length item) max order (item ++ rest) h) (ground arith)

module _ (w : Width) (item rest : Bytes) (order : ByteOrder) where
  header : Bytes
  header = to_bytes order (size w) (length item)

  length-header : length header ≡ size w
  unfolding header
  length-header = length-to_bytes order (size w) (length item)

  take-frame : take (size w + length item) (header ++ (item ++ rest)) ≡ header ++ item
  take-frame = rw length-header at (take-append_both header item rest)

  drop-frame : drop (size w + length item) (header ++ (item ++ rest)) ≡ rest
  drop-frame = rw length-header at (drop-append_both header item rest)

  drop-header : drop (0 + size w) (header ++ item) ≡ item
  drop-header =
      let e : 0 + size w ≡ length header = omega (arith, length-header) in
      rw e (drop-length_append header item)

  frame-end :
      (max : ℕ)
      → length item < 256 ^ size w
      → size w + length item ≤ max
      → max < 2 ^ 64
      → frame_end_of (set_byte_order (new max 0 (size w)) order) (header ++ (item ++ rest))
        ≡ ok (size w + length item)
  unfolding header
  frame-end max h fits word = frame_end_of_lem w item rest max order h fits word

  -- The decoder of the prepended format, on one frame with any bytes behind it.
  decode_lem :
      (max : ℕ)
      → length item < 256 ^ size w
      → size w + length item ≤ max
      → max < 2 ^ 64
      → decode (set_byte_order (new max 0 (size w)) order) (header ++ (item ++ rest))
        ≡ (ok (some item), set_byte_order (new max 0 (size w)) order, rest)
  unfolding decode
  decode_lem max h fits word = ground (
    arith,
    frame-end max h fits word,
    length-header,
    length-append header (item ++ rest),
    length-append item rest,
    take-frame,
    drop-frame,
    drop-header,
  )

-- What `LengthFieldPrepender` writes for an item is decoded to the item by the decoder of the same
-- width and byte order, with any bytes behind it. The length has to fit its field, the frame the
-- decoder's limit, and the limit 64 bits.
pub length_frame_round_trip :
    (w : Width) (order : ByteOrder) (max : ℕ) (item rest : Bytes)
    → length item < 256 ^ size w
    → size w + length item ≤ max
    → max < 2 ^ 64
    → ((prepend (set_prepender_order (new_prepender (size w)) order) item []).0 ≡ ok tt)
      × (decode
            (set_byte_order (new max 0 (size w)) order)
            ((prepend (set_prepender_order (new_prepender (size w)) order) item []).1 ++ rest)
          ≡ (ok (some item), set_byte_order (new max 0 (size w)) order, rest))
unfolding prepend header
length_frame_round_trip w order max item rest h fits word =
    rw (write_length_lem w (length item) order [] h) (
      refl,
      rw (append_assoc (to_bytes order (size w) (length item)) item rest)
          (decode_lem w item rest order max h fits word),
    )

-- On the decoder's own `encode`, at offset 0 and without adjustment: it writes what the prepender
-- of the same width and byte order writes.
pub encode-eq-prepend :
    (max n : ℕ) (order : ByteOrder) (item dst : Bytes)
    → encode (set_byte_order (new max 0 n) order) item dst
      ≡ prepend (set_prepender_order (new_prepender n) order) item dst
unfolding encode prepend write_frame_length
encode-eq-prepend max n order item dst = refl

-- An item whose length does not fit a field of 1, 2, 3, 4 or 8 bytes is refused by the prepender, and
-- nothing is written.
pub length_too_long :
    (w : Width) (order : ByteOrder) (item dst : Bytes)
    → 256 ^ size w ≤ length item
    → IsErr (prepend (set_prepender_order (new_prepender (size w)) order) item dst).0
      × ((prepend (set_prepender_order (new_prepender (size w)) order) item dst).1 ≡ dst)
unfolding prepend write_length
length_too_long one order item dst h = ground arith
length_too_long two order item dst h = ground arith
length_too_long three order item dst h = ground arith
length_too_long four order item dst h = ground arith
length_too_long eight order item dst h = ground arith
