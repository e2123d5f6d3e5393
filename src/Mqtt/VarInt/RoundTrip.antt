-- ===== src/Mqtt/VarInt/RoundTrip.antt =====
-- The bytes of a variable byte integer, in plain arithmetic, and its round trip.
use rs_netty.Common.{
  ℕ, zero, suc, ◌^◌, append_assoc, bit_and, ap, ap₂, ◌∙◌, Bool-cases, ltb→lt, inl, inr, ◌+◌, ◌*◌,
  ◌/◌, ◌%◌, ◌≤◌, ◌<◌, ◌≡◌, some, [], ◌∷◌, ◌++◌, length, ltb, if◌then◌else◌, arith,
}
use native.Mathlib.Nat.{div-add-mod}
use rs_netty.Common.Bits.{and_7f, and_80, or_80}
use rs_netty.Common.Bytes.{Bytes}
use rs_netty.Error.{ok, Result, ◌>>◌}
use rs_netty.Mqtt.Types.{max_remaining_length}
use rs_netty.Mqtt.VarInt.{
  validate_variable_integer_encoding, prefix_loop, decode_remaining_length_prefix, write_loop,
  write_variable_integer,
}

-- The groups of seven bits, lowest first, of a value below 128 ^ (k + 1).
unfoldable pub encoding : ℕ → ℕ → Bytes
encoding zero v = v ∷ []
encoding (suc k) v =
    let rest = encoding k (v / 128) in if ltb v 128 then v ∷ [] else (v % 128 + 128) ∷ rest

unfoldable pub varint_bytes : ℕ → Bytes
unfolding encoding
varint_bytes v = encoding 3 v

write_loop-encoding :
    (k v : ℕ) (dst : Bytes) → v < 128 ^ suc k → write_loop (suc (suc k)) v dst ≡ dst ++ encoding k v
unfolding write_loop encoding
write_loop-encoding zero v dst h = ground arith
write_loop-encoding (suc k) v dst h = ground (
  arith,
  or_80 (v % 128),
  write_loop-encoding k (v / 128) (dst ++ (v % 128 + 128) ∷ []),
  append_assoc dst ((v % 128 + 128) ∷ []) (encoding k (v / 128)),
)

pub write_variable_integer_lem :
    (v : ℕ) (dst : Bytes)
    → v ≤ max_remaining_length
    → write_variable_integer v dst ≡ ok (dst ++ varint_bytes v)
unfolding write_variable_integer varint_bytes
write_variable_integer_lem v dst h = ground (arith, write_loop-encoding 3 v dst)

pub length-varint_bytes : (v : ℕ) → (1 ≤ length (varint_bytes v)) × (length (varint_bytes v) ≤ 4)
unfolding varint_bytes
length-varint_bytes v = ground arith

-- The writer's form is the shortest: it has the length that the reader insists on.
pub validate-varint_bytes :
    (v : ℕ)
    → v ≤ max_remaining_length
    → validate_variable_integer_encoding v (length (varint_bytes v)) ≡ ok tt
unfolding validate_variable_integer_encoding varint_bytes
validate-varint_bytes v h = ground arith

abbrev checked : ℕ → ℕ → Result (ℕ × ℕ)
checked v n = do validate_variable_integer_encoding v n; ok (v, n)

last_byte :
    (k b index value multiplier : ℕ) (rest : Bytes)
    → b < 128
    → prefix_loop (suc k) index value multiplier (b ∷ rest)
      ≡ some (checked (value + b * multiplier) (index + 1))
unfolding prefix_loop
last_byte k b index value multiplier rest h =
    let low : bit_and b 0x7f ≡ b = and_7f b (omega arith) ∙ omega arith in
    let top : bit_and b 0x80 ≡ 0 = and_80 b (omega arith) ∙ omega arith in rw (low, top)

inner_byte :
    (k g index value multiplier : ℕ) (rest : Bytes)
    → g < 128
    → prefix_loop (suc k) index value multiplier ((g + 128) ∷ rest)
      ≡ prefix_loop k (index + 1) (value + g * multiplier) (multiplier * 128) rest
unfolding prefix_loop
inner_byte k g index value multiplier rest h =
    let low : bit_and (g + 128) 0x7f ≡ g = and_7f (g + 128) (omega arith) ∙ omega arith in
    let top : bit_and (g + 128) 0x80 ≡ 128 = and_80 (g + 128) (omega arith) ∙ omega arith in
    rw (low, top)

-- The lowest group of `v` and the others, both times `m`.
pub split_group : (a v m : ℕ) → a + v % 128 * m + v / 128 * (m * 128) ≡ a + v * m
split_group a v m = omega (arith, ap (λ (t : ℕ). t * m) (div-add-mod v 128))

prefix_loop-encoding :
    (k v index value multiplier : ℕ) (rest : Bytes)
    → v < 128 ^ suc k
    → prefix_loop (suc k) index value multiplier (encoding k v ++ rest)
      ≡ some (checked (value + v * multiplier) (index + length (encoding k v)))
unfolding prefix_loop encoding
prefix_loop-encoding zero v index value multiplier rest h =
    last_byte zero v index value multiplier rest (omega arith)
prefix_loop-encoding (suc k) v index value multiplier rest h = elim (Bool-cases (ltb v 128)) [
  | inl short ↦ rw short (last_byte (suc k) v index value multiplier rest (ltb→lt v 128 short))
  | inr long ↦ rw long (
      inner_byte (suc k) (v % 128) index value multiplier (encoding k (v / 128) ++ rest)
        (omega arith)
      ∙ prefix_loop-encoding k (v / 128) (index + 1) (value + v % 128 * multiplier)
          (multiplier * 128) rest (omega arith)
      ∙ ap₂ (λ a n. some (checked a n)) (split_group value v multiplier) (omega arith))
]

checked-varint_bytes :
    (v : ℕ)
    → v ≤ max_remaining_length
    → checked (0 + v * 1) (0 + length (varint_bytes v)) ≡ ok (v, length (varint_bytes v))
checked-varint_bytes v h = rw (value-same, index-same, validate-varint_bytes v h)
  where
    value-same : 0 + v * 1 ≡ v
    value-same = omega arith

    index-same : 0 + length (varint_bytes v) ≡ length (varint_bytes v)
    index-same = omega arith

prefix_loop-varint_bytes :
    (v : ℕ) (rest : Bytes)
    → v ≤ max_remaining_length
    → prefix_loop 4 0 0 1 (varint_bytes v ++ rest) ≡ some (ok (v, length (varint_bytes v)))
prefix_loop-varint_bytes v rest h = whole ∙ ap some (checked-varint_bytes v h)
  where
    whole :
        prefix_loop 4 0 0 1 (varint_bytes v ++ rest)
        ≡ some (checked (0 + v * 1) (0 + length (varint_bytes v)))
    whole = unfold varint_bytes in prefix_loop-encoding 3 v 0 0 1 rest (omega arith)

-- The Remaining Length that was written is read back, with its own length.
pub decode_remaining_length_prefix_lem :
    (v : ℕ) (rest : Bytes)
    → v ≤ max_remaining_length
    → decode_remaining_length_prefix (varint_bytes v ++ rest)
      ≡ ok (some (v, length (varint_bytes v)))
unfolding decode_remaining_length_prefix
decode_remaining_length_prefix_lem v rest h = rw (prefix_loop-varint_bytes v rest h)

-- An integer of at most 268 435 455 is written, as one to four bytes, and the length prefix of a buffer
-- that starts with these bytes is read as the integer and their number.
pub length_prefix_round_trip :
    (v : ℕ) (dst rest : Bytes)
    → v ≤ max_remaining_length
    → (write_variable_integer v dst ≡ ok (dst ++ varint_bytes v))
      × (decode_remaining_length_prefix (varint_bytes v ++ rest)
          ≡ ok (some (v, length (varint_bytes v))))
      × (1 ≤ length (varint_bytes v))
      × (length (varint_bytes v) ≤ 4)
length_prefix_round_trip v dst rest h = (
  write_variable_integer_lem v dst h,
  decode_remaining_length_prefix_lem v rest h,
  (length-varint_bytes v).0,
  (length-varint_bytes v).1,
)
