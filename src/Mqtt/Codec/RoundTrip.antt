-- ===== src/Mqtt/Codec/RoundTrip.antt =====
-- What `MqttCodec` sends for a packet, it reads back.
use rs_netty.Common.{
  ℕ, ◌+◌, ◌*◌, ◌/◌, ◌%◌, ◌^◌, ◌≤◌, ◌<◌, ◌≡◌, refl, ap, ◌∙◌, none, some, All, List, [], ◌∷◌, ◌++◌,
  length, take, drop, le→ltb, lt→ltb, bit_and, bit_or, arith, length-append, append_assoc,
  take-length_append, drop-length_append,
}
use rs_netty.Common.Bytes.{Bytes}
use rs_netty.Common.Bits.{and_0f, or_halves}
use rs_netty.Error.{ok}
use rs_netty.Codec.{IsErr}
use rs_netty.Codec.Framing.{reads, read_all, concat}
use rs_netty.Codec.Framing.Sent.{encode_all, sent, reads-sent}
use rs_netty.Mqtt.Codec.Laws.{decode-IsFraming}
use rs_netty.Mqtt.Types.{MqttPacket, max_remaining_length}
use rs_netty.Mqtt.VarInt.{decode_remaining_length_prefix, write_variable_integer}
use rs_netty.Mqtt.VarInt.RoundTrip.{
  varint_bytes, write_variable_integer_lem, length-varint_bytes, decode_remaining_length_prefix_lem,
}
use rs_netty.Mqtt.Packet.{parts}
use rs_netty.Mqtt.Packet.RoundTrip.{
  IsPacket, packet_body, parts-lt, ReadsAll-decode_packet, encode_packet_lem,
}
use rs_netty.Mqtt.Codec.{MqttCodec, decode_body, decode, encode}

abbrev pub first_byte : MqttPacket → ℕ
first_byte p = bit_or ((parts p).0 * 2 ^ 4) (parts p).1

-- A packet on the wire.
abbrev pub packet_bytes : MqttPacket → Bytes
packet_bytes p = (first_byte p ∷ varint_bytes (length (packet_body p))) ++ packet_body p

first_byte-halves :
    (p : MqttPacket)
    → (first_byte p / 2 ^ 4 ≡ (parts p).0) × (bit_and (first_byte p) 0x0f ≡ (parts p).1)
first_byte-halves p =
    let (t, f) = parts-lt p in
    let e : first_byte p ≡ (parts p).0 * 16 + (parts p).1 = or_halves (parts p).0 (parts p).1 t f in
    (rw e (omega arith), and_0f (first_byte p) (omega (arith, e)) ∙ rw e (omega arith))

decode_body_lem :
    (p : MqttPacket)
    → IsPacket p
    → length (packet_body p) ≤ max_remaining_length
    → decode_body (first_byte p) (packet_body p) ≡ ok (some p)
unfolding decode_body
decode_body_lem p h fits =
    let (t, f) = first_byte-halves p in
    let (r, read, none_left) =
      (ReadsAll-decode_packet p h).run (packet_body p) 0 (omega arith) refl in
    rw (t, f) (rw read (rw none_left))

-- The body fits the Remaining Length field, and the codec's limit.
abbrev pub IsSendable : MqttCodec → MqttPacket → Type 0
IsSendable codec p =
    IsPacket p
    × (length (packet_body p) ≤ max_remaining_length)
    × (length (packet_body p) ≤ codec.max_packet_size)

module _ (codec : MqttCodec) (p : MqttPacket) (h : IsPacket p)
    (fits : length (packet_body p) ≤ max_remaining_length)
    (allowed : length (packet_body p) ≤ codec.max_packet_size) where
  encode_lem : (dst : Bytes) → encode codec p dst ≡ (ok tt, dst ++ packet_bytes p)
  unfolding encode
  encode_lem dst =
      let n = length (packet_body p) in
      let small : n % 2 ^ 32 ≡ n = omega arith in
      rw (encode_packet_lem p h, le→ltb codec.max_packet_size n allowed, small)
        (rw (write_variable_integer_lem n (dst ++ first_byte p ∷ []) fits)
          (rw (append_assoc, append_assoc)))

  decode_lem : (rest : Bytes) → decode codec (packet_bytes p ++ rest) ≡ (ok (some p), codec, rest)
  unfolding decode
  decode_lem rest =
      let n = length (packet_body p) in
      let k = length (varint_bytes n) in
      let all = packet_bytes p in
      let header = first_byte p ∷ varint_bytes n in
      let len : length all ≡ 1 + k + n = omega (arith, length-append header (packet_body p)) in
      let prefix : decode_remaining_length_prefix (drop 1 (all ++ rest)) ≡ ok (some (n, k)) =
        rw (append_assoc (varint_bytes n) (packet_body p) rest)
          (decode_remaining_length_prefix_lem n (packet_body p ++ rest) fits) in
      let taken : take (1 + k + n) (all ++ rest) ≡ all = rw (← len) (take-length_append all rest) in
      let body : drop (1 + k) all ≡ packet_body p =
        let e : 1 + k ≡ length header = omega arith in
        rw e (drop-length_append header (packet_body p)) in
      let left : drop (1 + k + n) (all ++ rest) ≡ rest = rw (← len) (drop-length_append all rest) in
      ground (
        arith,
        len,
        prefix,
        taken,
        body,
        left,
        length-append all rest,
        length-varint_bytes n,
        decode_body_lem p h fits,
      )

-- A packet whose fields are in their ranges, and whose body fits the Remaining Length field and the
-- codec's limit, is appended to the buffer; and what was appended is decoded, with any bytes behind
-- it, to the same packet, leaving those bytes.
pub packet_round_trip :
    (codec : MqttCodec) (p : MqttPacket) (dst rest : Bytes)
    → IsSendable codec p
    → (encode codec p dst ≡ (ok tt, dst ++ packet_bytes p))
      × (decode codec (packet_bytes p ++ rest) ≡ (ok (some p), codec, rest))
packet_round_trip codec p dst rest h =
    (encode_lem codec p h.0 h.1 h.2 dst, decode_lem codec p h.0 h.1 h.2 rest)

decode-nothing : (codec : MqttCodec) → decode codec [] ≡ (ok none, codec, [])
unfolding decode
decode-nothing codec = refl

-- Packets whose fields are in their ranges, and whose bodies fit the Remaining Length field and the
-- codec's limit, are encoded one after the other into a buffer. When its bytes arrive in any chunks,
-- they are decoded to the same packets in the same order, with nothing left over.
pub packets_arrive :
    (codec : MqttCodec) (ps : List MqttPacket) (chunks : List Bytes)
    → All (IsSendable codec) ps
    → concat chunks ≡ encode_all encode codec ps []
    → reads decode (read_all decode codec []) chunks ≡ sent codec ps
packets_arrive codec ps chunks h e =
    reads-sent decode (λ s. Unit) decode-IsFraming codec tt encode packet_bytes (IsSendable codec)
      (λ p rest k. (packet_round_trip codec p [] rest k).1)
      (λ p dst k. ap (λ r. r.1) (packet_round_trip codec p dst [] k).0) (decode-nothing codec) ps
      chunks h e

-- A packet whose fields are in their ranges, and whose body does not fit the Remaining Length field but
-- is within the codec's limit and below 2 ^ 32 bytes, is refused, and its first byte stays in the
-- buffer.
pub oversized_leaves_byte :
    (codec : MqttCodec) (p : MqttPacket) (dst : Bytes)
    → IsPacket p
    → max_remaining_length < length (packet_body p)
    → length (packet_body p) ≤ codec.max_packet_size
    → length (packet_body p) < 2 ^ 32
    → IsErr (encode codec p dst).0 × ((encode codec p dst).1 ≡ dst ++ first_byte p ∷ [])
unfolding encode write_variable_integer
oversized_leaves_byte codec p dst h big allowed word =
    let n = length (packet_body p) in
    let small : n % 2 ^ 32 ≡ n = omega arith in
    rw (encode_packet_lem p h, le→ltb codec.max_packet_size n allowed, small)
      (ground (arith, lt→ltb max_remaining_length n big))
