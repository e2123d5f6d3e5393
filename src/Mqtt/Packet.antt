-- ===== src/Mqtt/Packet.antt =====
-- `decode_packet` and `encode_packet` of src/codec/mqtt.rs.
pub mod RoundTrip
use rs_netty.Common.{ℕ, String, List, [], ◌∷◌, ◌!=◌, ◌==◌, if◌then◌else◌}
use rs_netty.Common.Bytes.{Bytes}
use rs_netty.Error.{Result, ok, err, Error, fmt}
use rs_netty.Mqtt.Types.{
  MqttPacket, connect, conn_ack, publish, pub_ack, pub_rec, pub_rel, pub_comp, subscribe, sub_ack,
  unsubscribe, unsub_ack, ping_req, ping_resp, disconnect, auth,
}
use rs_netty.Mqtt.Reader
use rs_netty.Mqtt.Reader.{M, ◌>>=◌, ◌>>◌, pure, fail, left}
use rs_netty.Mqtt.Writer.{Put, done}
use rs_netty.Mqtt.Connect.{decode_connect, encode_connect}
use rs_netty.Mqtt.Publish.{decode_publish, encode_publish, publish_flags}
use rs_netty.Mqtt.Acks.{
  decode_connack, encode_connack, decode_ack, encode_ack, decode_suback, encode_suback,
  decode_unsuback, encode_unsuback, decode_disconnect, encode_disconnect, decode_auth, encode_auth,
}
use rs_netty.Mqtt.Subscribe.{
  decode_subscribe, encode_subscribe, decode_unsubscribe, encode_unsubscribe,
}

-- `decode(reader).map(make)`
abbrev pub read_as : {A : Type 0} → (A → MqttPacket) → M A → M MqttPacket
read_as make m = m >>= λ x. pure (make x)

-- `expect_flags(packet_type, flags, expected)?` before a body.
abbrev pub with_flags : ℕ → ℕ → M MqttPacket → M MqttPacket
with_flags flags expected m = do
  Reader.refuse_if (flags != expected)
      "invalid MQTT flags for packet type {packet_type}: actual={actual:#x}, expected={expected:#x}"
  m

-- `expect_empty(reader)?; Ok(packet)`
abbrev pub empty_body : MqttPacket → M MqttPacket
empty_body packet = do
  n ← left
  Reader.refuse_if (n != 0) "MQTT packet body must be empty, got {} bytes"
  pure packet

unfoldable pub decode_packet : ℕ → ℕ → M MqttPacket
decode_packet packet_type flags =
    if packet_type == 1
    then with_flags flags 0 (read_as connect decode_connect)
    else if packet_type == 2
    then with_flags flags 0 (read_as conn_ack decode_connack)
    else if packet_type == 3
    then read_as publish (decode_publish flags)
    else if packet_type == 4
    then with_flags flags 0 (read_as pub_ack decode_ack)
    else if packet_type == 5
    then with_flags flags 0 (read_as pub_rec decode_ack)
    else if packet_type == 6
    then with_flags flags 2 (read_as pub_rel decode_ack)
    else if packet_type == 7
    then with_flags flags 0 (read_as pub_comp decode_ack)
    else if packet_type == 8
    then with_flags flags 2 (read_as subscribe decode_subscribe)
    else if packet_type == 9
    then with_flags flags 0 (read_as sub_ack decode_suback)
    else if packet_type == 10
    then with_flags flags 2 (read_as unsubscribe decode_unsubscribe)
    else if packet_type == 11
    then with_flags flags 0 (read_as unsub_ack decode_unsuback)
    else if packet_type == 12
    then with_flags flags 0 (empty_body ping_req)
    else if packet_type == 13
    then with_flags flags 0 (empty_body ping_resp)
    else if packet_type == 14
    then with_flags flags 0 (read_as disconnect decode_disconnect)
    else if packet_type == 15
    then with_flags flags 0 (read_as auth decode_auth)
    else fail (Error.decode (fmt "invalid MQTT packet type: {packet_type}" (packet_type ∷ [])))

-- The packet type, the flags and the writes of the body.
abbrev pub parts : MqttPacket → ℕ × ℕ × Put
parts (connect packet) = (1, 0, encode_connect packet)
parts (conn_ack packet) = (2, 0, encode_connack packet)
parts (publish packet) = (3, publish_flags packet, encode_publish packet)
parts (pub_ack packet) = (4, 0, encode_ack packet)
parts (pub_rec packet) = (5, 0, encode_ack packet)
parts (pub_rel packet) = (6, 2, encode_ack packet)
parts (pub_comp packet) = (7, 0, encode_ack packet)
parts (subscribe packet) = (8, 2, encode_subscribe packet)
parts (sub_ack packet) = (9, 0, encode_suback packet)
parts (unsubscribe packet) = (10, 2, encode_unsubscribe packet)
parts (unsub_ack packet) = (11, 0, encode_unsuback packet)
parts ping_req = (12, 0, done)
parts ping_resp = (13, 0, done)
parts (disconnect packet) = (14, 0, encode_disconnect packet)
parts (auth packet) = (15, 0, encode_auth packet)

abbrev with_body : ℕ → ℕ → Result Bytes → Result (ℕ × ℕ × Bytes)
with_body packet_type flags (ok body) = ok (packet_type, flags, body)
with_body packet_type flags (err e) = err e

unfoldable pub encode_packet : MqttPacket → Result (ℕ × ℕ × Bytes)
encode_packet packet =
    let (packet_type, flags, write) = parts packet in with_body packet_type flags (write [])
