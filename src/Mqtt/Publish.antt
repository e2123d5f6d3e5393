-- ===== src/Mqtt/Publish.antt =====
-- PUBLISH: `decode_publish` and `encode_publish` of src/codec/mqtt.rs.
pub mod RoundTrip
use rs_netty.Common.{
  ℕ, ◌/◌, ◌*◌, ◌^◌, ◌&&◌, Bool, true, false, not, Option, none, some, ◌==◌, ◌!=◌, bit_and, bit_or,
}
use rs_netty.Common.Bytes.{Bytes}
use rs_netty.Mqtt.Types.{QoS, from_u8, as_u8, PublishPacket}
use rs_netty.Mqtt.Reader
use rs_netty.Mqtt.Reader.{
  M, ◌>>=◌, ◌>>◌, pure, lift, read_u16, read_utf8_string, read_remaining_bytes,
}
use rs_netty.Mqtt.Property.{read_properties, write_properties}
use rs_netty.Mqtt.Writer
use rs_netty.Mqtt.Writer.{Put, ◌⨾◌, done, extend, write_u16, write_utf8_string}
use rs_netty.Mqtt.Connect.{is_at_most_once, has, set_if, is_some}

-- `reader.read_u16()?; ensure_nonzero_packet_id_decode(packet_id)?`
unfoldable pub read_packet_id : M ℕ
read_packet_id = do
  packet_id ← read_u16
  Reader.refuse_if (packet_id == 0) "MQTT packet identifier must be non-zero"
  pure packet_id

-- `ensure_nonzero_packet_id_encode(packet_id)?`
abbrev pub ensure_nonzero_packet_id_encode : ℕ → Put
ensure_nonzero_packet_id_encode packet_id =
    Writer.refuse_if (packet_id == 0) "MQTT packet identifier must be non-zero"

-- The identifier is there for QoS 1 and 2 only.
abbrev pub read_optional_id : Bool → M (Option ℕ)
read_optional_id true = pure none
read_optional_id false = do packet_id ← read_packet_id; pure (some packet_id)

unfoldable pub decode_publish : ℕ → M PublishPacket
decode_publish flags = do
  let dup = has flags 0x08
  qos ← lift (from_u8 (bit_and (flags / 2 ^ 1) 0x03))
  Reader.refuse_if (bit_and (flags / 2 ^ 1) 0x03 == 3) "invalid MQTT PUBLISH QoS bits"
  let retain = has flags 0x01
  topic_name ← read_utf8_string
  packet_id ← read_optional_id (is_at_most_once qos)
  properties ← read_properties
  payload ← read_remaining_bytes
  pure (record {
    dup = dup;
    qos = qos;
    retain = retain;
    topic_name = topic_name;
    packet_id = packet_id;
    properties = properties;
    payload = payload;
  })

unfoldable pub publish_flags : PublishPacket → ℕ
publish_flags packet = set_if packet.retain 0x01 (set_if packet.dup 0x08 (as_u8 packet.qos * 2 ^ 1))

abbrev pub check_id : Option ℕ → Put
check_id none = done
check_id (some packet_id) = ensure_nonzero_packet_id_encode packet_id

abbrev pub write_id : Option ℕ → Put
write_id none = done
write_id (some packet_id) = write_u16 packet_id

-- The flags that it returns are `publish_flags packet`.
unfoldable pub encode_publish : PublishPacket → Put
encode_publish packet =
    Writer.refuse_if (is_at_most_once packet.qos && is_some packet.packet_id)
      "QoS 0 MQTT PUBLISH must not include packet_id"
    ⨾ Writer.refuse_if (not (is_at_most_once packet.qos) && not (is_some packet.packet_id))
        "QoS 1/2 MQTT PUBLISH must include packet_id"
    ⨾ check_id packet.packet_id
    ⨾ write_utf8_string packet.topic_name
    ⨾ write_id packet.packet_id
    ⨾ write_properties packet.properties
    ⨾ extend packet.payload
