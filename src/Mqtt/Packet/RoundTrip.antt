-- ===== src/Mqtt/Packet/RoundTrip.antt =====
-- Every packet that was written is read back from its type, its flags and its body.
use rs_netty.Common.{◌≡◌, ◌<◌, refl, [], ◌!=◌, arith}
use rs_netty.Common.Bytes.{Bytes}
use rs_netty.Error.{ok}
use rs_netty.Mqtt.Types.{
  MqttPacket, connect, conn_ack, publish, pub_ack, pub_rec, pub_rel, pub_comp, subscribe, sub_ack,
  unsubscribe, unsub_ack, ping_req, ping_resp, disconnect, auth,
}
use rs_netty.Mqtt.Reader
use rs_netty.Mqtt.Reader.{M, ◌>>◌, pure}
use rs_netty.Mqtt.Reader.Reads.{ReadsAll, ReadsAll-end, ReadsAll-left, Reads-pure, Reads-ReadsAll}
use rs_netty.Mqtt.Writer.{Writes, Writes-done}
use rs_netty.Mqtt.Property.RoundTrip.{AllFit}
use rs_netty.Mqtt.Connect.RoundTrip.{
  IsConnect, connect_bytes, ReadsAll-decode_connect, Writes-encode_connect,
}
use rs_netty.Mqtt.Publish.RoundTrip.{
  IsPublish, publish_bytes, publish_flags-lt, ReadsAll-decode_publish, Writes-encode_publish,
}
use rs_netty.Mqtt.Acks.RoundTrip.{
  IsAck, ack_bytes, ReadsAll-decode_ack, Writes-encode_ack, disconnect_bytes,
  ReadsAll-decode_disconnect, Writes-encode_disconnect, ReadsAll-decode_auth, Writes-encode_auth,
  connack_bytes, ReadsAll-decode_connack, Writes-encode_connack, IsSubAck, codes_bytes,
  ReadsAll-decode_suback, Writes-encode_suback, ReadsAll-decode_unsuback, Writes-encode_unsuback,
}
use rs_netty.Mqtt.Subscribe.RoundTrip.{
  IsSubscribe, subscribe_bytes, ReadsAll-decode_subscribe, Writes-encode_subscribe, IsUnsubscribe,
  unsubscribe_bytes, ReadsAll-decode_unsubscribe, Writes-encode_unsubscribe,
}
use rs_netty.Mqtt.Packet.{decode_packet, encode_packet, parts, read_as, empty_body}

-- A packet whose fields are in the ranges that MQTT gives them.
abbrev pub IsPacket : MqttPacket → Type 0
IsPacket (connect packet) = IsConnect packet
IsPacket (conn_ack packet) = AllFit packet.properties
IsPacket (publish packet) = IsPublish packet
IsPacket (pub_ack packet) = IsAck packet
IsPacket (pub_rec packet) = IsAck packet
IsPacket (pub_rel packet) = IsAck packet
IsPacket (pub_comp packet) = IsAck packet
IsPacket (subscribe packet) = IsSubscribe packet
IsPacket (sub_ack packet) = IsSubAck packet.packet_id packet.properties packet.reason_codes
IsPacket (unsubscribe packet) = IsUnsubscribe packet
IsPacket (unsub_ack packet) = IsSubAck packet.packet_id packet.properties packet.reason_codes
IsPacket ping_req = Unit
IsPacket ping_resp = Unit
IsPacket (disconnect packet) = AllFit packet.properties
IsPacket (auth packet) = AllFit packet.properties

-- The body of a packet.
abbrev pub packet_body : MqttPacket → Bytes
packet_body (connect packet) = connect_bytes packet
packet_body (conn_ack packet) = connack_bytes packet
packet_body (publish packet) = publish_bytes packet
packet_body (pub_ack packet) = ack_bytes packet
packet_body (pub_rec packet) = ack_bytes packet
packet_body (pub_rel packet) = ack_bytes packet
packet_body (pub_comp packet) = ack_bytes packet
packet_body (subscribe packet) = subscribe_bytes packet
packet_body (sub_ack packet) = codes_bytes packet.packet_id packet.properties packet.reason_codes
packet_body (unsubscribe packet) = unsubscribe_bytes packet
packet_body (unsub_ack packet) = codes_bytes packet.packet_id packet.properties packet.reason_codes
packet_body ping_req = []
packet_body ping_resp = []
packet_body (disconnect packet) = disconnect_bytes packet.reason_code packet.properties
packet_body (auth packet) = disconnect_bytes packet.reason_code packet.properties

Writes-parts : (p : MqttPacket) → IsPacket p → Writes (parts p).2 (packet_body p)
Writes-parts (connect packet) h = Writes-encode_connect packet h
Writes-parts (conn_ack packet) h = Writes-encode_connack packet h
Writes-parts (publish packet) h = Writes-encode_publish packet h
Writes-parts (pub_ack packet) h = Writes-encode_ack packet h
Writes-parts (pub_rec packet) h = Writes-encode_ack packet h
Writes-parts (pub_rel packet) h = Writes-encode_ack packet h
Writes-parts (pub_comp packet) h = Writes-encode_ack packet h
Writes-parts (subscribe packet) h = Writes-encode_subscribe packet h
Writes-parts (sub_ack packet) h = Writes-encode_suback packet h
Writes-parts (unsubscribe packet) h = Writes-encode_unsubscribe packet h
Writes-parts (unsub_ack packet) h = Writes-encode_unsuback packet h
Writes-parts ping_req h = Writes-done
Writes-parts ping_resp h = Writes-done
Writes-parts (disconnect packet) h = Writes-encode_disconnect packet h
Writes-parts (auth packet) h = Writes-encode_auth packet h

-- The type and the flags fit the two halves of the first byte.
pub parts-lt : (p : MqttPacket) → ((parts p).0 < 16) × ((parts p).1 < 16)
parts-lt (publish packet) = (omega arith, publish_flags-lt packet)
parts-lt (connect packet) = omega arith
parts-lt (conn_ack packet) = omega arith
parts-lt (pub_ack packet) = omega arith
parts-lt (pub_rec packet) = omega arith
parts-lt (pub_rel packet) = omega arith
parts-lt (pub_comp packet) = omega arith
parts-lt (subscribe packet) = omega arith
parts-lt (sub_ack packet) = omega arith
parts-lt (unsubscribe packet) = omega arith
parts-lt (unsub_ack packet) = omega arith
parts-lt ping_req = omega arith
parts-lt ping_resp = omega arith
parts-lt (disconnect packet) = omega arith
parts-lt (auth packet) = omega arith

ReadsAll-read_as :
    {A : Type 0} (make : A → MqttPacket) {m : M A} {bs : Bytes} {x : A}
    → ReadsAll m bs x
    → ReadsAll (read_as make m) bs (make x)
ReadsAll-read_as make r = ReadsAll-end _ r (λ r'. refl)

ReadsAll-empty_body : (p : MqttPacket) → ReadsAll (empty_body p) [] p
ReadsAll-empty_body p =
    ReadsAll-left
      (λ n. Reader.refuse_if (n != 0) "MQTT packet body must be empty, got {} bytes" >> pure p)
      (Reads-ReadsAll (Reads-pure p))

pub ReadsAll-decode_packet :
    (p : MqttPacket)
    → IsPacket p
    → ReadsAll (decode_packet (parts p).0 (parts p).1) (packet_body p) p
unfolding decode_packet
ReadsAll-decode_packet (connect packet) h =
    ReadsAll-read_as connect (ReadsAll-decode_connect packet h)
ReadsAll-decode_packet (conn_ack packet) h =
    ReadsAll-read_as conn_ack (ReadsAll-decode_connack packet h)
ReadsAll-decode_packet (publish packet) h =
    ReadsAll-read_as publish (ReadsAll-decode_publish packet h)
ReadsAll-decode_packet (pub_ack packet) h = ReadsAll-read_as pub_ack (ReadsAll-decode_ack packet h)
ReadsAll-decode_packet (pub_rec packet) h = ReadsAll-read_as pub_rec (ReadsAll-decode_ack packet h)
ReadsAll-decode_packet (pub_rel packet) h = ReadsAll-read_as pub_rel (ReadsAll-decode_ack packet h)
ReadsAll-decode_packet (pub_comp packet) h =
    ReadsAll-read_as pub_comp (ReadsAll-decode_ack packet h)
ReadsAll-decode_packet (subscribe packet) h =
    ReadsAll-read_as subscribe (ReadsAll-decode_subscribe packet h)
ReadsAll-decode_packet (sub_ack packet) h =
    ReadsAll-read_as sub_ack (ReadsAll-decode_suback packet h)
ReadsAll-decode_packet (unsubscribe packet) h =
    ReadsAll-read_as unsubscribe (ReadsAll-decode_unsubscribe packet h)
ReadsAll-decode_packet (unsub_ack packet) h =
    ReadsAll-read_as unsub_ack (ReadsAll-decode_unsuback packet h)
ReadsAll-decode_packet ping_req h = ReadsAll-empty_body ping_req
ReadsAll-decode_packet ping_resp h = ReadsAll-empty_body ping_resp
ReadsAll-decode_packet (disconnect packet) h =
    ReadsAll-read_as disconnect (ReadsAll-decode_disconnect packet h)
ReadsAll-decode_packet (auth packet) h = ReadsAll-read_as auth (ReadsAll-decode_auth packet h)

-- A packet in its ranges is encoded, and its body is `packet_body`.
pub encode_packet_lem :
    (p : MqttPacket) → IsPacket p → encode_packet p ≡ ok ((parts p).0, (parts p).1, packet_body p)
unfolding encode_packet
encode_packet_lem p h = rw ((Writes-parts p h).run [])
