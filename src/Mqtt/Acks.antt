-- ===== src/Mqtt/Acks.antt =====
-- CONNACK, the four acknowledgements, SUBACK, UNSUBACK, DISCONNECT and AUTH of src/codec/mqtt.rs.
pub mod RoundTrip
use rs_netty.Common.{
  ℕ, Bool, true, false, not, ◌&&◌, ◌||◌, List, [], ◌∷◌, ◌==◌, ◌!=◌, if◌then◌else◌, bit_and,
}
use rs_netty.Common.Bytes.{Bytes}
use rs_netty.Mqtt.Types.{
  MqttProperty, ConnAckPacket, AckPacket, new_ack, SubAckPacket, UnsubAckPacket, DisconnectPacket,
  AuthPacket,
}
use rs_netty.Mqtt.Reader
use rs_netty.Mqtt.Reader.{M, ◌>>=◌, ◌>>◌, pure, left, read_u8, read_remaining_bytes}
use rs_netty.Mqtt.Property.{read_properties, write_properties}
use rs_netty.Mqtt.Writer
use rs_netty.Mqtt.Writer.{Put, ◌⨾◌, done, extend, write_u8, write_u16}
use rs_netty.Mqtt.Connect.{has}
use rs_netty.Mqtt.Publish.{read_packet_id, ensure_nonzero_packet_id_encode}

abbrev pub is_empty {ℓ} : {A : Type ℓ} → List A → Bool
is_empty [] = true
is_empty (x ∷ xs) = false

-- `if test { body }` among writes.
abbrev pub write_if : Bool → Put → Put
write_if true m = m
write_if false m = done

-- `u8::from(bool)`
abbrev pub bit : Bool → ℕ
bit true = 1
bit false = 0

-- `flags & !0x01` keeps the upper seven bits.
unfoldable pub decode_connack : M ConnAckPacket
decode_connack = do
  flags ← read_u8
  Reader.refuse_if (has flags 0xfe) "invalid MQTT CONNACK flags"
  reason_code ← read_u8
  properties ← read_properties
  pure (record {
    session_present = has flags 0x01;
    reason_code = reason_code;
    properties = properties;
  })

unfoldable pub encode_connack : ConnAckPacket → Put
encode_connack packet =
    write_u8 (bit packet.session_present)
    ⨾ write_u8 packet.reason_code
    ⨾ write_properties packet.properties

-- Properties that may be missing at the end of a packet.
abbrev pub properties_unless : Bool → M (List MqttProperty)
properties_unless true = pure []
properties_unless false = read_properties

abbrev pub read_optional_properties : M (List MqttProperty)
read_optional_properties = left >>= λ n. properties_unless (n == 0)

-- A reason code and properties, of which the end may be missing: the properties, or both.
abbrev pub reason_unless : Bool → M (ℕ × List MqttProperty)
reason_unless true = pure (0, [])
reason_unless false = do
  reason_code ← read_u8
  properties ← read_optional_properties
  pure (reason_code, properties)

unfoldable pub read_reason : M (ℕ × List MqttProperty)
read_reason = left >>= λ n. reason_unless (n == 0)

unfoldable pub decode_ack : M AckPacket
unfolding read_reason
decode_ack = do
  packet_id ← read_packet_id
  reason ← read_reason
  pure (record { packet_id = packet_id; reason_code = reason.0; properties = reason.1 })

-- The tail that `encode_ack`, `encode_disconnect` and `encode_auth` write.
unfoldable pub write_reason : ℕ → List MqttProperty → Put
write_reason reason_code properties =
    write_if (reason_code != 0 || not (is_empty properties)) (write_u8 reason_code)
    ⨾ write_if (not (is_empty properties)) (write_properties properties)

unfoldable pub encode_ack : AckPacket → Put
unfolding write_reason
encode_ack packet =
    ensure_nonzero_packet_id_encode packet.packet_id
    ⨾ write_u16 packet.packet_id
    ⨾ write_reason packet.reason_code packet.properties

unfoldable pub decode_suback : M SubAckPacket
decode_suback = do
  packet_id ← read_packet_id
  properties ← read_properties
  reason_codes ← read_remaining_bytes
  Reader.refuse_if (is_empty reason_codes) "MQTT SUBACK must include at least one reason code"
  pure (record { packet_id = packet_id; properties = properties; reason_codes = reason_codes })

unfoldable pub encode_suback : SubAckPacket → Put
encode_suback packet =
    ensure_nonzero_packet_id_encode packet.packet_id
    ⨾ Writer.refuse_if (is_empty packet.reason_codes)
        "MQTT SUBACK must include at least one reason code"
    ⨾ write_u16 packet.packet_id
    ⨾ write_properties packet.properties
    ⨾ extend packet.reason_codes

unfoldable pub decode_unsuback : M UnsubAckPacket
decode_unsuback = do
  packet_id ← read_packet_id
  properties ← read_properties
  reason_codes ← read_remaining_bytes
  Reader.refuse_if (is_empty reason_codes) "MQTT UNSUBACK must include at least one reason code"
  pure (record { packet_id = packet_id; properties = properties; reason_codes = reason_codes })

unfoldable pub encode_unsuback : UnsubAckPacket → Put
encode_unsuback packet =
    ensure_nonzero_packet_id_encode packet.packet_id
    ⨾ Writer.refuse_if (is_empty packet.reason_codes)
        "MQTT UNSUBACK must include at least one reason code"
    ⨾ write_u16 packet.packet_id
    ⨾ write_properties packet.properties
    ⨾ extend packet.reason_codes

unfoldable pub decode_disconnect : M DisconnectPacket
unfolding read_reason
decode_disconnect = do
  reason ← read_reason
  pure (record { reason_code = reason.0; properties = reason.1 })

unfoldable pub encode_disconnect : DisconnectPacket → Put
unfolding write_reason
encode_disconnect packet = write_reason packet.reason_code packet.properties

unfoldable pub decode_auth : M AuthPacket
unfolding read_reason
decode_auth = do
  reason ← read_reason
  pure (record { reason_code = reason.0; properties = reason.1 })

unfoldable pub encode_auth : AuthPacket → Put
unfolding write_reason
encode_auth packet = write_reason packet.reason_code packet.properties
