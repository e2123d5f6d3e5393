-- ===== src/Mqtt/Codec.antt =====
-- `MqttCodec` of src/codec/mqtt.rs: the framing by Remaining Length around the packets.
pub mod Bounds
pub mod Laws
pub mod RoundTrip
use rs_netty.Common.{
  ℕ, ◌+◌, ◌*◌, ◌/◌, ◌%◌, ◌^◌, Option, none, some, List, [], ◌∷◌, ◌++◌, length, take, drop, get_or,
  ltb, ◌==◌, ◌!=◌, if◌then◌else◌, bit_and, bit_or,
}
use rs_netty.Common.Bytes.{Bytes}
use rs_netty.Common.Words.{checked_add}
use rs_netty.Error.{Result, ok, err, Error, fmt}
use rs_netty.Codec.{Poll}
use rs_netty.Mqtt.Types.{MqttPacket, max_remaining_length}
use rs_netty.Mqtt.VarInt.{decode_remaining_length_prefix, write_variable_integer}
use rs_netty.Mqtt.Reader
use rs_netty.Mqtt.Reader.{Reader, remaining}
use rs_netty.Mqtt.Packet.{decode_packet, encode_packet}

pub record MqttCodec : Type 0 where
  pub max_packet_size : ℕ

abbrev pub new : MqttCodec
new = record { max_packet_size = max_remaining_length }

abbrev pub with_max_packet_size : ℕ → MqttCodec
with_max_packet_size max_packet_size = record { max_packet_size = max_packet_size }

-- The check for trailing bytes, then `Ok(Some(decoded))`.
abbrev finish : Result (MqttPacket × Reader) → Result (Option MqttPacket)
finish (err e) = err e
finish (ok (decoded, reader)) =
    if remaining reader != 0
    then err (Error.decode (fmt "MQTT packet has {} trailing bytes" (remaining reader ∷ [])))
    else ok (some decoded)

-- A whole packet: its first byte, and what follows its header.
unfoldable pub decode_body : ℕ → Bytes → Result (Option MqttPacket)
decode_body fixed_header body =
    finish (decode_packet (fixed_header / 2 ^ 4) (bit_and fixed_header 0x0f) (Reader.new body))

abbrev with_packet_len : MqttCodec → Bytes → ℕ → Option ℕ → Poll MqttCodec MqttPacket
with_packet_len self src header_len none =
    (err (Error.decode (fmt "MQTT packet length overflow" [])), self, src)
with_packet_len self src header_len (some packet_len) =
    if ltb (length src) packet_len then (ok none, self, src) else (
      decode_body (get_or src 0 0) (drop header_len (take packet_len src)),
      self,
      drop packet_len src,
    )

abbrev with_prefix : MqttCodec → Bytes → Result (Option (ℕ × ℕ)) → Poll MqttCodec MqttPacket
with_prefix self src (err e) = (err e, self, src)
with_prefix self src (ok none) = (ok none, self, src)
with_prefix self src (ok (some (remaining_len, remaining_len_bytes))) =
    if ltb self.max_packet_size remaining_len
    then (err (Error.frame_too_large remaining_len self.max_packet_size), self, src)
    else with_packet_len self src (1 + remaining_len_bytes)
        (checked_add (1 + remaining_len_bytes) remaining_len)

unfoldable pub decode : MqttCodec → Bytes → Poll MqttCodec MqttPacket
decode self src =
    if ltb (length src) 2
    then (ok none, self, src)
    else with_prefix self src (decode_remaining_length_prefix (drop 1 src))

-- `write_variable_integer(..)?; dst.extend_from_slice(&body)`, behind the first byte.
abbrev with_integer : Result Bytes → Bytes → Bytes → Result (Unit {0}) × Bytes
with_integer (err e) dst body = (err e, dst)
with_integer (ok dst') dst body = (ok tt, dst' ++ body)

abbrev with_parts : MqttCodec → Result (ℕ × ℕ × Bytes) → Bytes → Result (Unit {0}) × Bytes
with_parts self (err e) dst = (err e, dst)
with_parts self (ok (packet_type, flags, body)) dst =
    if ltb self.max_packet_size (length body)
    then (err (Error.frame_too_large (length body) self.max_packet_size), dst)
    else let dst' = dst ++ bit_or (packet_type * 2 ^ 4) flags ∷ [] in
      with_integer (write_variable_integer (length body % 2 ^ 32) dst') dst' body

unfoldable pub encode : MqttCodec → MqttPacket → Bytes → Result (Unit {0}) × Bytes
encode self item dst = with_parts self (encode_packet item) dst
