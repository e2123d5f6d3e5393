-- ===== src/Mqtt/Codec/Bounds.antt =====
-- How many bytes `MqttCodec::decode` takes from the buffer.
use rs_netty.Common.{
  ℕ, zero, suc, ◌+◌, ◌*◌, ◌≤◌, ◌<◌, ◌≡◌, none, some, Option-cases, inl, inr, [], ◌∷◌, length, drop,
  bit_and, arith, length-drop,
}
use rs_netty.Common.Bytes.{Bytes}
use rs_netty.Error.{ok, Result-cases}
use rs_netty.Mqtt.Types.{MqttPacket}
use rs_netty.Mqtt.VarInt.{prefix_loop, decode_remaining_length_prefix}
use rs_netty.Mqtt.Codec.{MqttCodec, decode}

prefix_loop-rounds :
    (rounds index value multiplier : ℕ) (src : Bytes) {v n : ℕ}
    → prefix_loop rounds index value multiplier src ≡ some (ok (v, n))
    → n ≤ index + rounds
unfolding prefix_loop
prefix_loop-rounds zero index value multiplier src h = cc
prefix_loop-rounds (suc rounds) index value multiplier [] h = cc
prefix_loop-rounds (suc rounds) index value multiplier (b ∷ src) {v} {n} h = ground (
  arith,
  prefix_loop-rounds rounds (index + 1) (value + bit_and b 0x7f * multiplier) (multiplier * 128) src
      {v = v} {n = n},
)

prefix_le_4 :
    (src : Bytes) {v n : ℕ} → decode_remaining_length_prefix src ≡ ok (some (v, n)) → n ≤ 4
unfolding decode_remaining_length_prefix
prefix_le_4 src {v} {n} h = elim (Option-cases (prefix_loop 4 0 0 1 src)) [
  | inl absent ↦ ground (arith, absent)
  | inr (r, at) ↦ ground (arith, at, prefix_loop-rounds 4 0 0 1 src {v = v} {n = n})
]

prefix_loop-above :
    (rounds index value multiplier : ℕ) (src : Bytes) {v n : ℕ}
    → prefix_loop rounds index value multiplier src ≡ some (ok (v, n))
    → index < n
unfolding prefix_loop
prefix_loop-above zero index value multiplier src h = cc
prefix_loop-above (suc rounds) index value multiplier [] h = cc
prefix_loop-above (suc rounds) index value multiplier (b ∷ src) {v} {n} h = ground (
  arith,
  prefix_loop-above rounds (index + 1) (value + bit_and b 0x7f * multiplier) (multiplier * 128) src
      {v = v} {n = n},
)

prefix_ge_1 :
    (src : Bytes) {v n : ℕ} → decode_remaining_length_prefix src ≡ ok (some (v, n)) → 1 ≤ n
unfolding decode_remaining_length_prefix
prefix_ge_1 src {v} {n} h = elim (Option-cases (prefix_loop 4 0 0 1 src)) [
  | inl absent ↦ ground (arith, absent)
  | inr (r, at) ↦ ground (arith, at, prefix_loop-above 4 0 0 1 src {v = v} {n = n})
]

-- A decoded packet took at least two bytes from the buffer, and at most five more than the codec's
-- limit.
pub packet_bounds :
    (codec : MqttCodec) (buf : Bytes) {p : MqttPacket} {codec' : MqttCodec} {rest : Bytes}
    → decode codec buf ≡ (ok (some p), codec', rest)
    → (length rest + 2 ≤ length buf) × (length buf ≤ length rest + 5 + codec.max_packet_size)
unfolding decode
packet_bounds codec buf {p} e = elim (Result-cases (decode_remaining_length_prefix (drop 1 buf))) [
  | inl (none, at) ↦ ground (arith, at)
  | inl (some (v, n), at) ↦ ground (
    arith,
    at,
    prefix_le_4 (drop 1 buf) at,
    prefix_ge_1 (drop 1 buf) at,
    length-drop (1 + n + v) buf,
  )
  | inr (x, at) ↦ ground (arith, at)
]
