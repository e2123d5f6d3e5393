-- ===== src/Codec/Http.antt =====
-- src/codec/http.rs: the chunked transfer coding of a request's body. A `&str` is its bytes.
pub mod Laws
pub mod Bounds
use rs_netty.Common.{
  ℕ, zero, suc, ◌+◌, ◌-◌, ◌*◌, ◌^◌, Bool, true, false, ◌&&◌, Option, none, some, List, [], ◌∷◌,
  ◌++◌, length, take, drop, ltb, leb, ◌==◌, if◌then◌else◌,
}
use rs_netty.Common.Bytes.{Bytes}
use rs_netty.Common.Words.{checked_add}
use rs_netty.Error.{Result, Error, fmt, no_fuel, ok, err, map_ok, ◌>>=◌}
use rs_netty.Utf8.{from_utf8}
use rs_netty.Codec.Delimiter.{starts_with, position_of}
use mathlib.Core.Option

abbrev pub crlf : Bytes
crlf = 13 ∷ 10 ∷ []

-- `&src[from..to]`
abbrev pub slice : Bytes → ℕ → ℕ → Bytes
slice src from to = take (to - from) (drop from src)

-- The characters of `char::is_whitespace`, in UTF-8.
abbrev white_space : List Bytes
white_space =
    (9 ∷ [])
    ∷ (10 ∷ [])
    ∷ (11 ∷ [])
    ∷ (12 ∷ [])
    ∷ (13 ∷ [])
    ∷ (32 ∷ [])
    ∷ (0xc2 ∷ 0x85 ∷ [])
    ∷ (0xc2 ∷ 0xa0 ∷ [])
    ∷ (0xe1 ∷ 0x9a ∷ 0x80 ∷ [])
    ∷ (0xe2 ∷ 0x80 ∷ 0x80 ∷ [])
    ∷ (0xe2 ∷ 0x80 ∷ 0x81 ∷ [])
    ∷ (0xe2 ∷ 0x80 ∷ 0x82 ∷ [])
    ∷ (0xe2 ∷ 0x80 ∷ 0x83 ∷ [])
    ∷ (0xe2 ∷ 0x80 ∷ 0x84 ∷ [])
    ∷ (0xe2 ∷ 0x80 ∷ 0x85 ∷ [])
    ∷ (0xe2 ∷ 0x80 ∷ 0x86 ∷ [])
    ∷ (0xe2 ∷ 0x80 ∷ 0x87 ∷ [])
    ∷ (0xe2 ∷ 0x80 ∷ 0x88 ∷ [])
    ∷ (0xe2 ∷ 0x80 ∷ 0x89 ∷ [])
    ∷ (0xe2 ∷ 0x80 ∷ 0x8a ∷ [])
    ∷ (0xe2 ∷ 0x80 ∷ 0xa8 ∷ [])
    ∷ (0xe2 ∷ 0x80 ∷ 0xa9 ∷ [])
    ∷ (0xe2 ∷ 0x80 ∷ 0xaf ∷ [])
    ∷ (0xe2 ∷ 0x81 ∷ 0x9f ∷ [])
    ∷ (0xe3 ∷ 0x80 ∷ 0x80 ∷ [])
    ∷ []

abbrev reverse_onto : {A : Type 0} → List A → List A → List A
reverse_onto acc [] = acc
reverse_onto acc (x ∷ xs) = reverse_onto (x ∷ acc) xs

abbrev reverse : {A : Type 0} → List A → List A
reverse xs = reverse_onto [] xs

-- The length of the first of these texts that `src` starts with, or 0.
abbrev prefix_len : List Bytes → Bytes → ℕ
prefix_len [] src = 0
prefix_len (p ∷ ps) src = if starts_with p src then length p else prefix_len ps src

abbrev trim_with : List Bytes → ℕ → Bytes → Bytes
trim_with ps zero src = src
trim_with ps (suc fuel) src = trim_with ps fuel (drop (prefix_len ps src) src)

abbrev reverse_all : List Bytes → List Bytes
reverse_all [] = []
reverse_all (p ∷ ps) = reverse p ∷ reverse_all ps

-- `src.trim()`: each character that is taken away has a byte at least.
unfoldable pub trim : Bytes → Bytes
trim src =
    let front = trim_with white_space (length src) src in
    reverse (trim_with (reverse_all white_space) (length front) (reverse front))

-- `src.split(separator)`: each piece takes the bytes of the separator at least.
abbrev pieces : ℕ → Bytes → (Bytes → List Bytes) → Option ℕ → List Bytes
pieces len src rest none = src ∷ []
pieces len src rest (some n) = take n src ∷ rest (drop (n + len) src)

unfoldable pub split_from : ℕ → Bytes → Bytes → List Bytes
unfolding position_of
split_from zero separator src = src ∷ []
split_from (suc fuel) separator src =
    pieces (length separator) src (split_from fuel separator) (position_of separator src)

abbrev hex_digit : ℕ → Option ℕ
hex_digit b =
    if leb 48 b && leb b 57
    then some (b - 48)
    else if leb 65 b && leb b 70
    then some (b - 55)
    else if leb 97 b && leb b 102
    then some (b - 87)
    else none

abbrev with_digit : ℕ → Option ℕ → Option ℕ
with_digit acc none = none
with_digit acc (some d) = if ltb (acc * 16 + d) (2 ^ 64) then some (acc * 16 + d) else none

abbrev then_digits : (ℕ → Option ℕ) → Option ℕ → Option ℕ
then_digits rest none = none
then_digits rest (some acc) = rest acc

abbrev hex_digits : ℕ → Bytes → Option ℕ
hex_digits acc [] = some acc
hex_digits acc (b ∷ bs) = then_digits (λ acc'. hex_digits acc' bs) (with_digit acc (hex_digit b))

abbrev some_digits : Bytes → Option ℕ
some_digits [] = none
some_digits (b ∷ bs) = hex_digits 0 (b ∷ bs)

-- `usize::from_str_radix(src, 16)`, which accepts a `+` in front.
abbrev from_str_radix : Bytes → Option ℕ
from_str_radix [] = none
from_str_radix (b ∷ bs) = if b == 43 then some_digits bs else some_digits (b ∷ bs)

-- `line.split(separator).next()`, for one byte
abbrev before : ℕ → Bytes → Bytes
before separator [] = []
before separator (b ∷ bs) = if b == separator then [] else b ∷ before separator bs

abbrev size_of : Option ℕ → Result ℕ
size_of none = err (Error.decode (fmt "invalid chunk size: {err}" []))
size_of (some n) = ok n

abbrev chunk_size : Bytes → Result ℕ
chunk_size [] = err (Error.decode (fmt "missing chunk size" []))
chunk_size (b ∷ bs) = size_of (from_str_radix (b ∷ bs))

unfoldable pub parse_chunk_size : Bytes → Result ℕ
unfolding trim
parse_chunk_size line = chunk_size (trim (before 59 line))

-- A field, a name and a value.
abbrev pub Field : Type 0
Field = Bytes × Bytes

unfoldable pub field : Bytes → Option ℕ → Result Field
unfolding trim
field line none = err (Error.decode (fmt "invalid http header: {line}" []))
field line (some n) = ok (trim (take n line), trim (drop (n + 1) line))

unfoldable pub parse_header_fields : List Bytes → Result (List Field)
unfolding position_of field
parse_header_fields [] = ok []
parse_header_fields ([] ∷ lines) = parse_header_fields lines
parse_header_fields ((b ∷ bs) ∷ lines) = field (b ∷ bs) (position_of (58 ∷ []) (b ∷ bs)) >>= λ f.
    map_ok (λ fs. f ∷ fs) (parse_header_fields lines)

abbrev pub kept : Bool → List Field → List Field
kept preserve fields = if preserve then fields else []

unfoldable pub parse_trailers : Bytes → Bool → Result (List Field)
unfolding from_utf8 split_from parse_header_fields
parse_trailers [] preserve = ok []
parse_trailers (b ∷ bs) preserve =
    from_utf8 Error.decode "http trailers are not utf-8: {err}" (b ∷ bs) >>= λ trailers.
    map_ok (kept preserve) (parse_header_fields (split_from (length trailers) crlf trailers))

abbrev pub add_offset : ℕ → Option ℕ → Option ℕ
add_offset start found = Option.map (λ offset. start + offset) found

unfoldable pub find_crlf : Bytes → ℕ → Option ℕ
unfolding position_of
find_crlf src start = add_offset start (position_of crlf (drop start src))

unfoldable pub find_http_header_end_from : Bytes → ℕ → Option ℕ
unfolding position_of
find_http_header_end_from src start = add_offset start (position_of (crlf ++ crlf) (drop start src))

abbrev pub saturating_add : ℕ → ℕ → ℕ
saturating_add a b = if ltb (a + b) (2 ^ 64) then a + b else 2 ^ 64 - 1

-- The end of the body in the buffer, the body and the trailers.
abbrev pub Chunked : Type 0
Chunked = Result (Option (ℕ × Bytes × List Field))

-- A turn of the loop returns, or goes on at a position with a body.
pub data Turn : Type 0 where
  finished : Chunked → Turn
  again : ℕ → Bytes → Turn

module _ (src : Bytes) (max_body_len : ℕ) (preserve_trailers : Bool) where
  unfoldable pub with_trailers : ℕ → Bytes → Option ℕ → Chunked
  unfolding parse_trailers
  with_trailers pos body none = ok none
  with_trailers pos body (some trailer_end) =
      map_ok (λ trailers. some (trailer_end + 4, body, trailers))
        (parse_trailers (slice src pos trailer_end) preserve_trailers)

  unfoldable pub last_chunk : ℕ → Bytes → Chunked
  unfolding find_http_header_end_from with_trailers
  last_chunk pos body =
      if leb (pos + 2) (length src) && starts_with crlf (drop pos src)
      then ok (some (pos + 2, body, []))
      else with_trailers pos body (find_http_header_end_from src pos)

  abbrev pub chunk_data : ℕ → Bytes → ℕ → ℕ → Turn
  chunk_data pos body chunk_end crlf_end =
      if ltb (length src) crlf_end
      then finished (ok none)
      else if starts_with crlf (drop chunk_end src)
      then again crlf_end (body ++ slice src pos chunk_end)
      else finished (err (Error.decode (fmt "chunk data is not followed by CRLF" [])))

  abbrev pub overflow : Turn
  overflow = finished (err (Error.decode (fmt "chunk length overflow" [])))

  abbrev pub line_end : ℕ → Bytes → ℕ → Option ℕ → Turn
  line_end pos body chunk_end none = overflow
  line_end pos body chunk_end (some crlf_end) = chunk_data pos body chunk_end crlf_end

  abbrev pub chunk_ends : ℕ → Bytes → Option ℕ → Turn
  chunk_ends pos body none = overflow
  chunk_ends pos body (some chunk_end) = line_end pos body chunk_end (checked_add chunk_end 2)

  unfoldable pub after_size : ℕ → Bytes → Result ℕ → Turn
  unfolding last_chunk
  after_size pos body (err e) = finished (err e)
  after_size pos body (ok zero) = finished (last_chunk pos body)
  after_size pos body (ok (suc n)) =
      if ltb max_body_len (saturating_add (length body) (suc n))
      then finished
          (err (Error.frame_too_large (saturating_add (length body) (suc n)) max_body_len))
      else chunk_ends pos body (checked_add pos (suc n))

  unfoldable pub size_line : ℕ → Bytes → Option ℕ → Turn
  unfolding from_utf8 parse_chunk_size after_size
  size_line pos body none = finished (ok none)
  size_line pos body (some size_line_end) = after_size (size_line_end + 2) body (
      from_utf8 Error.decode "chunk size line is not utf-8: {err}" (slice src pos size_line_end)
      >>= parse_chunk_size)

  unfoldable pub turn : ℕ → Bytes → Turn
  unfolding find_crlf size_line
  turn pos body = size_line pos body (find_crlf src pos)

  abbrev pub on_turn : (ℕ → Bytes → Chunked) → Turn → Chunked
  on_turn rest (finished result) = result
  on_turn rest (again pos body) = rest pos body

  unfoldable pub turns : ℕ → ℕ → Bytes → Chunked
  unfolding turn
  turns zero pos body = err no_fuel
  turns (suc fuel) pos body = on_turn (turns fuel) (turn pos body)

  -- Each turn moves on by four bytes at least.
  unfoldable pub decode_chunked_body : ℕ → Chunked
  unfolding turns
  decode_chunked_body body_start = turns (suc (length src)) body_start []
