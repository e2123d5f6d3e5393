-- ===== src/Mqtt/Acks/RoundTrip.antt =====
-- CONNACK, the acknowledgements, SUBACK, UNSUBACK, DISCONNECT and AUTH packets are read back.
use rs_netty.Common.{
  ℕ, ◌≡◌, ◌≢◌, refl, Bool, true, false, List, [], ◌∷◌, ◌++◌, length, ◌==◌, ◌!=◌, arith,
  length-append, zero, suc,
}
use rs_netty.Common.Bytes.{Bytes, to_be_bytes}
use rs_netty.Mqtt.Types.{
  MqttProperty, ConnAckPacket, AckPacket, SubAckPacket, UnsubAckPacket, DisconnectPacket,
  AuthPacket,
}
use rs_netty.Mqtt.VarInt.RoundTrip.{varint_bytes, length-varint_bytes}
use rs_netty.Mqtt.Reader.Reads.{
  ReadsAll, Reads-ReadsAll, Reads-pure, ReadsAll-bind, ReadsAll-end, ReadsAll-left,
  ReadsAll-refuse_if, Reads-read_u8, ReadsAll-read_remaining_bytes,
}
use rs_netty.Mqtt.Writer.{
  Writes, Writes-then, Writes-done, Writes-extend, Writes-refuse_if, Writes-write_u8,
  Writes-write_u16,
}
use rs_netty.Mqtt.Property.RoundTrip.{
  AllFit, section_bytes, properties_bytes, Reads-read_properties, Writes-write_properties,
}
use rs_netty.Mqtt.Connect.{has}
use rs_netty.Mqtt.Publish.RoundTrip.{IsId, Reads-read_packet_id, Writes-ensure_nonzero}
use rs_netty.Mqtt.Acks.{
  is_empty, bit, properties_unless, reason_unless, decode_connack, encode_connack,
  read_optional_properties, read_reason, write_reason, decode_ack, encode_ack, decode_suback,
  encode_suback, decode_unsuback, encode_unsuback, decode_disconnect, encode_disconnect,
  decode_auth, encode_auth,
}

-- The tail with a reason code: as short as its values allow.
reason_bytes : ℕ → List MqttProperty → Bytes
reason_bytes zero [] = []
reason_bytes (suc n) [] = suc n ∷ []
reason_bytes n (p ∷ ps) = n ∷ section_bytes (p ∷ ps)

Writes-write_reason :
    (n : ℕ) (ps : List MqttProperty) → AllFit ps → Writes (write_reason n ps) (reason_bytes n ps)
unfolding write_reason reason_bytes
Writes-write_reason zero [] h = Writes-then Writes-done Writes-done
Writes-write_reason (suc n) [] h =
    let e : (suc n != 0) ≡ true = ground arith in
    rw e (Writes-then (Writes-write_u8 (suc n)) Writes-done)
Writes-write_reason zero (p ∷ ps) h =
    Writes-then (Writes-write_u8 zero) (Writes-write_properties (p ∷ ps) h)
Writes-write_reason (suc n) (p ∷ ps) h =
    let e : (suc n != 0) ≡ true = ground arith in
    rw e (Writes-then (Writes-write_u8 (suc n)) (Writes-write_properties (p ∷ ps) h))

section-nonempty : (ps : List MqttProperty) → (length (section_bytes ps) == 0) ≡ false
section-nonempty ps = ground (
  arith,
  length-varint_bytes (length (properties_bytes ps)),
  length-append (varint_bytes (length (properties_bytes ps))) (properties_bytes ps),
)

ReadsAll-read_optional_properties :
    (ps : List MqttProperty) → AllFit ps → ReadsAll read_optional_properties (section_bytes ps) ps
ReadsAll-read_optional_properties ps h =
    ReadsAll-left (λ n. properties_unless (n == 0)) {bs = section_bytes ps}
      (rw (section-nonempty ps) (Reads-ReadsAll (Reads-read_properties ps h)))

ReadsAll-reason :
    (n : ℕ) (ps : List MqttProperty) {bs : Bytes}
    → ReadsAll read_optional_properties bs ps
    → ReadsAll (reason_unless false) (n ∷ bs) (n, ps)
ReadsAll-reason n ps r = ReadsAll-bind _ (Reads-read_u8 n) (ReadsAll-end _ r (λ r'. refl))

ReadsAll-read_reason :
    (n : ℕ) (ps : List MqttProperty) → AllFit ps → ReadsAll read_reason (reason_bytes n ps) (n, ps)
unfolding read_reason reason_bytes
ReadsAll-read_reason zero [] h =
    ReadsAll-left (λ n. reason_unless (n == 0)) {bs = []} (Reads-ReadsAll (Reads-pure (0, [])))
ReadsAll-read_reason (suc n) [] h =
    ReadsAll-left (λ n. reason_unless (n == 0)) {bs = suc n ∷ []}
      (ReadsAll-reason (suc n) [] (
        ReadsAll-left (λ n. properties_unless (n == 0)) {bs = []} (Reads-ReadsAll (Reads-pure []))))
ReadsAll-read_reason n (p ∷ ps) h =
    let e : (length (n ∷ section_bytes (p ∷ ps)) == 0) ≡ false = ground arith in
    ReadsAll-left (λ n. reason_unless (n == 0)) {bs = n ∷ section_bytes (p ∷ ps)}
      (rw e (ReadsAll-reason n (p ∷ ps) (ReadsAll-read_optional_properties (p ∷ ps) h)))

pub ack_bytes : AckPacket → Bytes
ack_bytes packet =
    to_be_bytes 2 packet.packet_id ++ reason_bytes packet.reason_code packet.properties

pub record IsAck (packet : AckPacket) : Type 0 where
  pub id : IsId packet.packet_id
  pub fit : AllFit packet.properties

pub ReadsAll-decode_ack :
    (packet : AckPacket) → IsAck packet → ReadsAll decode_ack (ack_bytes packet) packet
unfolding decode_ack ack_bytes
ReadsAll-decode_ack packet h =
    ReadsAll-bind _ (Reads-read_packet_id packet.packet_id h.id)
      (ReadsAll-end _ (ReadsAll-read_reason packet.reason_code packet.properties h.fit) (λ r. refl))

pub Writes-encode_ack :
    (packet : AckPacket) → IsAck packet → Writes (encode_ack packet) (ack_bytes packet)
unfolding encode_ack ack_bytes
Writes-encode_ack packet h = Writes-then (Writes-ensure_nonzero packet.packet_id h.id) (
    Writes-then (Writes-write_u16 packet.packet_id)
      (Writes-write_reason packet.reason_code packet.properties h.fit))

-- DISCONNECT and AUTH are their reason.
pub disconnect_bytes : ℕ → List MqttProperty → Bytes
disconnect_bytes = reason_bytes

pub ReadsAll-decode_disconnect :
    (packet : DisconnectPacket)
    → AllFit packet.properties
    → ReadsAll decode_disconnect (disconnect_bytes packet.reason_code packet.properties) packet
unfolding decode_disconnect disconnect_bytes
ReadsAll-decode_disconnect packet h =
    ReadsAll-end _ (ReadsAll-read_reason packet.reason_code packet.properties h) (λ r. refl)

pub Writes-encode_disconnect :
    (packet : DisconnectPacket)
    → AllFit packet.properties
    → Writes (encode_disconnect packet) (disconnect_bytes packet.reason_code packet.properties)
unfolding encode_disconnect disconnect_bytes
Writes-encode_disconnect packet h = Writes-write_reason packet.reason_code packet.properties h

pub ReadsAll-decode_auth :
    (packet : AuthPacket)
    → AllFit packet.properties
    → ReadsAll decode_auth (disconnect_bytes packet.reason_code packet.properties) packet
unfolding decode_auth disconnect_bytes
ReadsAll-decode_auth packet h =
    ReadsAll-end _ (ReadsAll-read_reason packet.reason_code packet.properties h) (λ r. refl)

pub Writes-encode_auth :
    (packet : AuthPacket)
    → AllFit packet.properties
    → Writes (encode_auth packet) (disconnect_bytes packet.reason_code packet.properties)
unfolding encode_auth disconnect_bytes
Writes-encode_auth packet h = Writes-write_reason packet.reason_code packet.properties h

bit-flags : (b : Bool) → (has (bit b) 0xfe ≡ false) × (has (bit b) 0x01 ≡ b)
bit-flags true = (refl, refl)
bit-flags false = (refl, refl)

unfoldable pub connack_bytes : ConnAckPacket → Bytes
connack_bytes packet =
    bit packet.session_present ∷ packet.reason_code ∷ section_bytes packet.properties

pub ReadsAll-decode_connack :
    (packet : ConnAckPacket)
    → AllFit packet.properties
    → ReadsAll decode_connack (connack_bytes packet) packet
unfolding decode_connack connack_bytes
ReadsAll-decode_connack packet h =
    let (reserved, present) = bit-flags packet.session_present in
    ReadsAll-bind _ (Reads-read_u8 (bit packet.session_present)) (
      ReadsAll-refuse_if _ _ reserved (
        ReadsAll-bind _ (Reads-read_u8 packet.reason_code) (
          ReadsAll-end _ (Reads-ReadsAll (Reads-read_properties packet.properties h))
            (λ r. rw present))))

pub Writes-encode_connack :
    (packet : ConnAckPacket)
    → AllFit packet.properties
    → Writes (encode_connack packet) (connack_bytes packet)
unfolding encode_connack connack_bytes
Writes-encode_connack packet h =
    Writes-then (Writes-write_u8 (bit packet.session_present)) (
      Writes-then (Writes-write_u8 packet.reason_code)
        (Writes-write_properties packet.properties h))

-- SUBACK and UNSUBACK: an identifier, properties and a reason code at least.
unfoldable pub codes_bytes : ℕ → List MqttProperty → Bytes → Bytes
codes_bytes id ps codes = to_be_bytes 2 id ++ (section_bytes ps ++ codes)

not_empty : (codes : Bytes) → codes ≢ [] → is_empty codes ≡ false
not_empty [] h = absurd (h refl)
not_empty (c ∷ codes) h = refl

pub record IsSubAck (id : ℕ) (ps : List MqttProperty) (codes : Bytes) : Type 0 where
  pub id_fits : IsId id
  pub fit : AllFit ps
  pub some_code : codes ≢ []

pub ReadsAll-decode_suback :
    (packet : SubAckPacket)
    → IsSubAck packet.packet_id packet.properties packet.reason_codes
    → ReadsAll decode_suback
        (codes_bytes packet.packet_id packet.properties packet.reason_codes)
        packet
unfolding decode_suback codes_bytes
ReadsAll-decode_suback packet h =
    ReadsAll-bind _ (Reads-read_packet_id packet.packet_id h.id_fits) (
      ReadsAll-bind _ (Reads-read_properties packet.properties h.fit) (
        ReadsAll-end _ (ReadsAll-read_remaining_bytes packet.reason_codes)
          (λ r. rw (not_empty packet.reason_codes h.some_code))))

pub Writes-encode_suback :
    (packet : SubAckPacket)
    → IsSubAck packet.packet_id packet.properties packet.reason_codes
    → Writes
        (encode_suback packet)
        (codes_bytes packet.packet_id packet.properties packet.reason_codes)
unfolding encode_suback codes_bytes
Writes-encode_suback packet h = Writes-then (Writes-ensure_nonzero packet.packet_id h.id_fits) (
    Writes-then (Writes-refuse_if _ _ (not_empty packet.reason_codes h.some_code)) (
      Writes-then (Writes-write_u16 packet.packet_id) (
        Writes-then (Writes-write_properties packet.properties h.fit)
          (Writes-extend packet.reason_codes))))

pub ReadsAll-decode_unsuback :
    (packet : UnsubAckPacket)
    → IsSubAck packet.packet_id packet.properties packet.reason_codes
    → ReadsAll decode_unsuback
        (codes_bytes packet.packet_id packet.properties packet.reason_codes)
        packet
unfolding decode_unsuback codes_bytes
ReadsAll-decode_unsuback packet h =
    ReadsAll-bind _ (Reads-read_packet_id packet.packet_id h.id_fits) (
      ReadsAll-bind _ (Reads-read_properties packet.properties h.fit) (
        ReadsAll-end _ (ReadsAll-read_remaining_bytes packet.reason_codes)
          (λ r. rw (not_empty packet.reason_codes h.some_code))))

pub Writes-encode_unsuback :
    (packet : UnsubAckPacket)
    → IsSubAck packet.packet_id packet.properties packet.reason_codes
    → Writes
        (encode_unsuback packet)
        (codes_bytes packet.packet_id packet.properties packet.reason_codes)
unfolding encode_unsuback codes_bytes
Writes-encode_unsuback packet h = Writes-then (Writes-ensure_nonzero packet.packet_id h.id_fits) (
    Writes-then (Writes-refuse_if _ _ (not_empty packet.reason_codes h.some_code)) (
      Writes-then (Writes-write_u16 packet.packet_id) (
        Writes-then (Writes-write_properties packet.properties h.fit)
          (Writes-extend packet.reason_codes))))
