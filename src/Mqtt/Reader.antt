-- ===== src/Mqtt/Reader.antt =====
-- `Reader` of src/codec/mqtt.rs: a slice, a position in it and the reads that move it. A method that
-- takes `&mut self` and may fail is an action of `M`.
pub mod Reads
pub mod Integer
pub mod Many
pub mod Fuel
use rs_netty.Common.{
  ℕ, zero, suc, ◌+◌, ◌-◌, ◌*◌, Bool, true, false, String, List, [], ◌∷◌, length, take, drop, get_or,
  ltb, ◌==◌, if◌then◌else◌, bit_and,
}
use rs_netty.Common.Bytes.{Bytes, from_be_bytes}
use rs_netty.Error.{Result, ok, err, Error, Message, fmt, no_fuel}
use rs_netty.Utf8.{from_utf8}
use rs_netty.Mqtt.VarInt.{validate_variable_integer_encoding}

pub record Reader : Type 0 where
  pub src : Bytes
  pub pos : ℕ

abbrev pub M : Type 0 → Type 0
M A = Reader → Result (A × Reader)

module _ {A B : Type 0} where
  abbrev pub continue : Result (A × Reader) → (A → M B) → Result (B × Reader)
  continue (ok (a, r)) f = f a r
  continue (err e) f = err e

  infixl 5 ◌>>=◌
  abbrev pub ◌>>=◌ : M A → (A → M B) → M B
  ◌>>=◌ m f r = continue (m r) f

infixl 5 ◌>>◌
abbrev pub ◌>>◌ : {B : Type 0} → M (Unit {0}) → M B → M B
m >> k = m >>= λ _. k

module _ {A : Type 0} where
  abbrev pub pure : A → M A
  pure a r = ok (a, r)

  abbrev pub fail : Error → M A
  fail e r = err e

  abbrev with_reader : Result A → Reader → Result (A × Reader)
  with_reader (ok a) r = ok (a, r)
  with_reader (err e) r = err e

  -- A fallible call that does not touch the reader.
  abbrev pub lift : Result A → M A
  lift result r = with_reader result r

-- `if test { return Err(Error::Decode(..)) }`
abbrev pub refuse_if : Bool → String → M (Unit {0})
refuse_if true text r = err (Error.decode (fmt text []))
refuse_if false text r = ok (tt, r)

abbrev pub new : Bytes → Reader
new src = record { src = src; pos = 0 }

-- `saturating_sub`
abbrev pub remaining : Reader → ℕ
remaining self = length self.src - self.pos

-- `self.remaining()` in a block of reads.
abbrev pub left : M ℕ
left self = ok (remaining self, self)

unfoldable pub read_exact : ℕ → M Bytes
read_exact len self =
    if ltb (remaining self) len
    then err (
        Error.decode (
          fmt "unexpected end of MQTT packet: need {len}, remaining {}"
            (len ∷ remaining self ∷ [])))
    else ok (take len (drop self.pos self.src), record self { pos = self.pos + len })

unfoldable pub read_u8 : M ℕ
read_u8 = do bytes ← read_exact 1; pure (get_or bytes 0 0)

unfoldable pub read_u16 : M ℕ
read_u16 = do bytes ← read_exact 2; pure (from_be_bytes bytes)

unfoldable pub read_u32 : M ℕ
read_u32 = do bytes ← read_exact 4; pure (from_be_bytes bytes)

unfoldable pub read_utf8_string : M Bytes
read_utf8_string = do
  len ← read_u16
  bytes ← read_exact len
  lift (from_utf8 Error.decode "{err}" bytes)

unfoldable pub read_binary_data : M Bytes
read_binary_data = do len ← read_u16; read_exact len

-- The `for` loop over `encoded_len`; the value stays below 2 ^ 28, so a `u32` does not overflow.
unfoldable pub integer_loop : ℕ → ℕ → ℕ → ℕ → M ℕ
integer_loop zero encoded_len value multiplier =
    fail (Error.decode (fmt "malformed MQTT variable integer" []))
integer_loop (suc rounds) encoded_len value multiplier = do
  encoded ← read_u8
  let value' = value + bit_and encoded 0x7f * multiplier
  if bit_and encoded 0x80 == 0
      then (do lift (validate_variable_integer_encoding value' encoded_len); pure value')
      else integer_loop rounds (encoded_len + 1) value' (multiplier * 128)

unfoldable pub read_variable_integer : M ℕ
read_variable_integer = integer_loop 4 1 0 1

unfoldable pub read_remaining_bytes : M Bytes
read_remaining_bytes self = ok (drop self.pos self.src, record self { pos = length self.src })

-- `while reader.remaining() > 0 { items.push(item(reader)?) }`, on fuel.
module _ {A : Type 0} (item : M A) where
  unfoldable pub read_many : ℕ → M (List A)
  read_many zero self = if remaining self == 0 then ok ([], self) else err no_fuel
  read_many (suc fuel) self =
      let more = continue (item self) (λ x. read_many fuel >>= λ xs. pure (x ∷ xs)) in
      if remaining self == 0 then ok ([], self) else more

  -- A call of the item's reader that returns takes a byte at least, so this fuel is enough.
  unfoldable pub read_while_remaining : M (List A)
  read_while_remaining self = read_many (remaining self) self
