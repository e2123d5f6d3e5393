-- ===== src/Codec/LengthField.antt =====
-- src/codec/length_field_based_frame.rs: frames that carry their length.
pub mod Laws
pub mod RoundTrip
use rs_netty.Common.{
  ℕ, ◌+◌, ◌-◌, ◌*◌, ◌/◌, ◌%◌, ◌^◌, ◌||◌, none, some, List, [], ◌∷◌, ◌++◌, length, take, drop,
  get_or, ltb, ◌==◌, ◌!=◌, if◌then◌else◌, Bool, false, not,
}
use rs_netty.Common.Bytes.{Bytes, to_be_bytes, to_le_bytes, from_be_bytes, from_le_bytes}
use rs_netty.Common.Words.{IsUsize, ℤ, pos, negsuc, checked_add, checked_add_signed}
use rs_netty.Error.{Result, ok, err, Error, fmt, ◌>>=◌, ok_or}
use rs_netty.Codec.{Poll}

pub data ByteOrder : Type 0 where
  big_endian little_endian : ByteOrder

pub record LengthFieldBasedFrameDecoder : Type 0 where
  pub max_frame_length : ℕ
  pub length_field_offset : ℕ
  pub length_field_length : ℕ
  pub length_adjustment : ℤ
  pub initial_bytes_to_strip : ℕ
  pub byte_order : ByteOrder

-- The end of the length field is a `usize`. Otherwise the plain sum `length_field_offset +
-- length_field_length`, which `new`, `read_frame_length` and `decode` compute, overflows, and the model
-- of these functions does not apply.
abbrev pub IsConfigured : LengthFieldBasedFrameDecoder → Type 0
IsConfigured self = IsUsize (self.length_field_offset + self.length_field_length)

abbrev pub new : ℕ → ℕ → ℕ → LengthFieldBasedFrameDecoder
new max_frame_length length_field_offset length_field_length = record {
  max_frame_length = max_frame_length;
  length_field_offset = length_field_offset;
  length_field_length = length_field_length;
  length_adjustment = pos 0;
  initial_bytes_to_strip = length_field_offset + length_field_length;
  byte_order = big_endian;
}

abbrev pub with_adjustment : ℕ → ℕ → ℕ → ℤ → ℕ → LengthFieldBasedFrameDecoder
with_adjustment max_frame_length length_field_offset length_field_length length_adjustment
      initial_bytes_to_strip =
    record {
      max_frame_length = max_frame_length;
      length_field_offset = length_field_offset;
      length_field_length = length_field_length;
      length_adjustment = length_adjustment;
      initial_bytes_to_strip = initial_bytes_to_strip;
      byte_order = big_endian;
    }

abbrev pub set_byte_order : LengthFieldBasedFrameDecoder → ByteOrder → LengthFieldBasedFrameDecoder
set_byte_order self byte_order = record self { byte_order = byte_order }

abbrev pub default : LengthFieldBasedFrameDecoder
default = new (8 * 1024 * 1024) 0 4

abbrev pub from_bytes : ByteOrder → Bytes → ℕ
from_bytes big_endian bytes = from_be_bytes bytes
from_bytes little_endian bytes = from_le_bytes bytes

-- The 24-bit case; its three shifted bytes do not overlap, so `|` is `+`.
abbrev pub from_24 : ByteOrder → Bytes → ℕ
from_24 big_endian bytes = get_or bytes 0 0 * 2 ^ 16 + get_or bytes 1 0 * 2 ^ 8 + get_or bytes 2 0
from_24 little_endian bytes =
    get_or bytes 2 0 * 2 ^ 16 + get_or bytes 1 0 * 2 ^ 8 + get_or bytes 0 0

-- The value is below 2 ^ 64, so `usize::try_from` does not fail.
unfoldable pub read_frame_length : LengthFieldBasedFrameDecoder → Bytes → Result ℕ
read_frame_length self src =
    let bytes = take self.length_field_length (drop self.length_field_offset src) in
    let n = self.length_field_length in
    if n == 1
    then ok (get_or bytes 0 0)
    else if n == 2
    then ok (from_bytes self.byte_order bytes)
    else if n == 3
    then ok (from_24 self.byte_order bytes)
    else if n == 4
    then ok (from_bytes self.byte_order bytes)
    else if n == 8
    then ok (from_bytes self.byte_order bytes)
    else err (Error.decode (fmt "unsupported length field length: {}" (n ∷ [])))

-- Where the frame ends, from the length field of a buffer that holds it.
unfoldable pub frame_end_of : LengthFieldBasedFrameDecoder → Bytes → Result ℕ
frame_end_of self src = do
  frame_length ← read_frame_length self src
  adjusted ←
      ok_or (checked_add_signed frame_length self.length_adjustment)
        (Error.decode (fmt "negative adjusted frame length" []))
  frame_end ←
      ok_or (checked_add (self.length_field_offset + self.length_field_length) adjusted)
        (Error.decode (fmt "frame length overflow" []))
  if ltb self.max_frame_length frame_end
      then err (Error.frame_too_large frame_end self.max_frame_length)
      else ok frame_end

abbrev pub split :
    LengthFieldBasedFrameDecoder → Bytes → Result ℕ → Poll LengthFieldBasedFrameDecoder Bytes
split self src (err e) = (err e, self, src)
split self src (ok frame_end) =
    if ltb (length src) frame_end
    then (ok none, self, src)
    else if ltb frame_end self.initial_bytes_to_strip
    then (
      err (
          Error.decode (
            fmt "initial_bytes_to_strip={} exceeds frame length={frame_end}"
              (self.initial_bytes_to_strip ∷ frame_end ∷ []))),
      self,
      src,
    )
    else (
      ok (some (drop self.initial_bytes_to_strip (take frame_end src))),
      self,
      drop frame_end src,
    )

unfoldable pub decode :
    LengthFieldBasedFrameDecoder → Bytes → Poll LengthFieldBasedFrameDecoder Bytes
decode self src =
    if ltb (length src) (self.length_field_offset + self.length_field_length)
    then (ok none, self, src)
    else split self src (frame_end_of self src)

abbrev pub to_bytes : ByteOrder → ℕ → ℕ → Bytes
to_bytes big_endian n v = to_be_bytes n v
to_bytes little_endian n v = to_le_bytes n v

-- `uN::try_from(len)?` and `dst.put_uN(len)`, for `n` bytes.
abbrev pub put_checked : ByteOrder → ℕ → ℕ → Bytes → Result (Unit {0}) × Bytes
put_checked order n len dst =
    if ltb len (256 ^ n)
    then (ok tt, dst ++ to_bytes order n len)
    else (err (Error.encode (fmt "{err}" [])), dst)

abbrev pub put_24 : ByteOrder → ℕ → Bytes → Bytes
put_24 big_endian len dst = dst ++ ((len / 2 ^ 16) % 256 ∷ (len / 2 ^ 8) % 256 ∷ len % 256 ∷ [])
put_24 little_endian len dst = dst ++ (len % 256 ∷ (len / 2 ^ 8) % 256 ∷ (len / 2 ^ 16) % 256 ∷ [])

unfoldable pub write_length : ℕ → ℕ → ByteOrder → Bytes → Result (Unit {0}) × Bytes
write_length len n order dst =
    if n == 1
    then put_checked order 1 len dst
    else if n == 2
    then put_checked order 2 len dst
    else if n == 3
    then (if ltb 0x00ffffff len
        then (err (Error.encode (fmt "length {len} exceeds 24-bit field" (len ∷ []))), dst)
        else (ok tt, put_24 order len dst))
    else if n == 4
    then put_checked order 4 len dst
    else if n == 8
    then put_checked order 8 len dst
    else (
      err (Error.encode (fmt "unsupported length field length: {length_field_length}" (n ∷ []))),
      dst,
    )

-- `write_..(..)?; dst.extend_from_slice(&item); Ok(())`
abbrev pub then_extend : Result (Unit {0}) × Bytes → Bytes → Result (Unit {0}) × Bytes
then_extend (err e, dst) item = (err e, dst)
then_extend (ok u, dst) item = (ok tt, dst ++ item)

abbrev is_zero : ℤ → Bool
is_zero (pos n) = n == 0
is_zero (negsuc n) = false

unfoldable pub write_frame_length :
    LengthFieldBasedFrameDecoder → ℕ → Bytes → Result (Unit {0}) × Bytes
write_frame_length self item_len dst =
    if self.length_field_offset != 0 || not (is_zero self.length_adjustment)
    then (
      err (
          Error.encode (
            fmt "LengthFieldBasedFrameDecoder encoder supports zero offset and zero adjustment only"
              [])),
      dst,
    )
    else write_length item_len self.length_field_length self.byte_order dst

unfoldable pub encode : LengthFieldBasedFrameDecoder → Bytes → Bytes → Result (Unit {0}) × Bytes
encode self item dst = then_extend (write_frame_length self (length item) dst) item

pub record LengthFieldPrepender : Type 0 where
  pub length_field_length : ℕ
  pub byte_order : ByteOrder

abbrev pub new_prepender : ℕ → LengthFieldPrepender
new_prepender length_field_length = record {
  length_field_length = length_field_length;
  byte_order = big_endian;
}

abbrev pub set_prepender_order : LengthFieldPrepender → ByteOrder → LengthFieldPrepender
set_prepender_order self byte_order = record self { byte_order = byte_order }

unfoldable pub prepend : LengthFieldPrepender → Bytes → Bytes → Result (Unit {0}) × Bytes
prepend self item dst =
    then_extend (write_length (length item) self.length_field_length self.byte_order dst) item
