-- ===== src/Mqtt/VarInt.antt =====
-- Variable byte integers: the Remaining Length of a packet, and the writer.
pub mod RoundTrip
pub mod Canonical
use rs_netty.Common.{
  ℕ, zero, suc, ◌+◌, ◌*◌, ◌/◌, ◌%◌, Option, none, some, [], ◌∷◌, ◌++◌, length, ltb, leb, ◌==◌, ◌!=◌,
  if◌then◌else◌, bit_and, bit_or, List,
}
use rs_netty.Common.Bytes.{Bytes}
use rs_netty.Error.{Result, ok, err, Error, fmt, ◌>>=◌, ◌>>◌, map_ok}
use rs_netty.Mqtt.Types.{max_remaining_length}

-- `while value >= 128 { value /= 128; len += 1 }`; 10 rounds are enough below 128 ^ 10 = 2 ^ 70.
abbrev length_loop : ℕ → ℕ → ℕ → ℕ
length_loop zero value len = len
length_loop (suc rounds) value len =
    let more = length_loop rounds (value / 128) (len + 1) in if leb 128 value then more else len

unfoldable pub remaining_length_len : ℕ → ℕ
remaining_length_len value = length_loop 10 value 1

unfoldable pub validate_variable_integer_encoding : ℕ → ℕ → Result (Unit {0})
unfolding remaining_length_len
validate_variable_integer_encoding value encoded_len =
    if remaining_length_len value != encoded_len
    then err (Error.decode (fmt "MQTT variable byte integer is not minimally encoded" []))
    else ok tt

-- The `for` loop over at most four bytes; `none` is its end without a return.
unfoldable pub prefix_loop : ℕ → ℕ → ℕ → ℕ → Bytes → Option (Result (ℕ × ℕ))
unfolding validate_variable_integer_encoding
prefix_loop zero index value multiplier src = none
prefix_loop (suc rounds) index value multiplier [] = none
prefix_loop (suc rounds) index value multiplier (encoded ∷ src) =
    let value' = value + bit_and encoded 0x7f * multiplier in
    let more = prefix_loop rounds (index + 1) value' (multiplier * 128) src in
    if bit_and encoded 0x80 == 0
    then some (do validate_variable_integer_encoding value' (index + 1); ok (value', index + 1))
    else more

-- What follows the loop, at a buffer of `len` bytes.
abbrev after_loop : ℕ → Option (Result (ℕ × ℕ)) → Result (Option (ℕ × ℕ))
after_loop len (some result) = map_ok some result
after_loop len none =
    if leb 4 len then err (Error.decode (fmt "malformed MQTT Remaining Length" [])) else ok none

unfoldable pub decode_remaining_length_prefix : Bytes → Result (Option (ℕ × ℕ))
decode_remaining_length_prefix src = after_loop (length src) (prefix_loop 4 0 0 1 src)

-- The `loop` of `write_variable_integer`; a `u32` is below 128 ^ 5, so 5 rounds are enough.
unfoldable pub write_loop : ℕ → ℕ → Bytes → Bytes
write_loop zero value dst = dst
write_loop (suc rounds) value dst =
    let encoded = value % 128 in
    let value' = value / 128 in
    let encoded' = if ltb 0 value' then bit_or encoded 0x80 else encoded in
    let dst' = dst ++ encoded' ∷ [] in
    let more = write_loop rounds value' dst' in if value' == 0 then dst' else more

-- On an error nothing was written.
unfoldable pub write_variable_integer : ℕ → Bytes → Result Bytes
unfolding write_loop
write_variable_integer value dst =
    if ltb max_remaining_length value
    then err (Error.encode (fmt "MQTT variable integer too large: {value}" (value ∷ [])))
    else ok (write_loop 5 value dst)
