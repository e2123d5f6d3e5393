-- ===== src/Mqtt/Reader/Integer.antt =====
-- `read_variable_integer` on what `write_variable_integer` wrote.
use rs_netty.Common.{
  ℕ, zero, suc, ◌+◌, ◌*◌, ◌/◌, ◌%◌, ◌^◌, ◌≤◌, ◌<◌, ◌≡◌, sym, ◌∙◌, [], ◌∷◌, length, ltb, ltb→lt,
  Bool-cases, inl, inr, bit_and, arith,
}
use rs_netty.Common.Bits.{and_7f, and_80}
use rs_netty.Common.Bytes.{Bytes}
use rs_netty.Error.{ok}
use rs_netty.Mqtt.Types.{max_remaining_length}
use rs_netty.Mqtt.VarInt.{validate_variable_integer_encoding}
use rs_netty.Mqtt.VarInt.RoundTrip.{encoding, varint_bytes, validate-varint_bytes, split_group}
use rs_netty.Mqtt.Reader.{integer_loop, read_variable_integer}
use rs_netty.Mqtt.Reader.Reads.{Reads, Reads-bind, Reads-read_u8}

last_byte :
    (k b encoded_len value multiplier : ℕ)
    → b < 128
    → validate_variable_integer_encoding (value + b * multiplier) encoded_len ≡ ok tt
    → Reads (integer_loop (suc k) encoded_len value multiplier) (b ∷ []) (value + b * multiplier)
unfolding integer_loop
last_byte k b encoded_len value multiplier h valid =
    let low : bit_and b 0x7f ≡ b = and_7f b (omega arith) ∙ omega arith in
    let top : bit_and b 0x80 ≡ 0 = and_80 b (omega arith) ∙ omega arith in
    Reads-bind _ (Reads-read_u8 b) (
      rw (low, top)
        (record {
          run = λ src rest pos u e. let same : pos ≡ pos + 0 = omega arith in rw (valid, ← same);
        }))

inner_byte :
    (k g encoded_len value multiplier x : ℕ) (bs : Bytes)
    → g < 128
    → Reads (integer_loop k (encoded_len + 1) (value + g * multiplier) (multiplier * 128)) bs x
    → Reads (integer_loop (suc k) encoded_len value multiplier) ((g + 128) ∷ bs) x
unfolding integer_loop
inner_byte k g encoded_len value multiplier x bs h r =
    let low : bit_and (g + 128) 0x7f ≡ g = and_7f (g + 128) (omega arith) ∙ omega arith in
    let top : bit_and (g + 128) 0x80 ≡ 128 = and_80 (g + 128) (omega arith) ∙ omega arith in
    Reads-bind _ (Reads-read_u8 (g + 128)) (rw (low, top) r)

integer_loop-encoding :
    (k v encoded_len value multiplier n x : ℕ)
    → v < 128 ^ suc k
    → x ≡ value + v * multiplier
    → encoded_len + length (encoding k v) ≡ suc n
    → validate_variable_integer_encoding x n ≡ ok tt
    → Reads (integer_loop (suc k) encoded_len value multiplier) (encoding k v) x
unfolding encoding
integer_loop-encoding zero v encoded_len value multiplier n x h ex en valid =
    let same : n ≡ encoded_len = omega arith in
    rw ex (last_byte zero v encoded_len value multiplier (omega arith) (rw (← ex, ← same) valid))
integer_loop-encoding (suc k) v encoded_len value multiplier n x h ex en valid =
    elim (Bool-cases (ltb v 128)) [
      | inl short ↦
          let same : n ≡ encoded_len = ground arith in
          rw (short, ex)
            (last_byte (suc k) v encoded_len value multiplier (ltb→lt v 128 short)
              (rw (← ex, ← same) valid))
      | inr long ↦ rw long (
          inner_byte (suc k) (v % 128) encoded_len value multiplier x (encoding k (v / 128))
            (omega arith)
            (integer_loop-encoding k (v / 128) (encoded_len + 1) (value + v % 128 * multiplier)
              (multiplier * 128) n x (omega arith) (ex ∙ sym (split_group value v multiplier))
              (ground arith) valid))
    ]

-- An integer that was written is read back.
pub Reads-read_variable_integer :
    (v : ℕ) → v ≤ max_remaining_length → Reads read_variable_integer (varint_bytes v) v
unfolding read_variable_integer varint_bytes
Reads-read_variable_integer v h =
    integer_loop-encoding 3 v 1 0 1 (length (encoding 3 v)) v (omega arith) (omega arith)
      (omega arith) (validate-varint_bytes v h)
