-- ===== src/Mqtt/Publish/RoundTrip.antt =====
-- A PUBLISH packet that was written is read back.
use rs_netty.Common.{
  ℕ, ◌/◌, ◌*◌, ◌^◌, ◌<◌, ◌≡◌, refl, Bool, true, false, not, ◌&&◌, Option, none, some, [], ◌++◌,
  ◌==◌, bit_and, arith,
}
use rs_netty.Common.Bytes.{Bytes, to_be_bytes}
use rs_netty.Error.{ok}
use rs_netty.Mqtt.Types.{
  QoS, at_most_once, at_least_once, exactly_once, from_u8, as_u8, PublishPacket,
}
use rs_netty.Mqtt.Reader.Reads.{
  Reads, ReadsAll, Reads-end, Reads-map, Reads-pure, ReadsAll-bind, ReadsAll-end, Reads-refuse_if,
  ReadsAll-refuse_if, ReadsAll-lift, Reads-read_u16, Reads-read_utf8_string,
  ReadsAll-read_remaining_bytes, prefixed,
}
use rs_netty.Mqtt.Writer.{
  Writes, Writes-then, Writes-done, Writes-extend, Writes-refuse_if, Writes-write_u16,
  Writes-write_utf8_string,
}
use rs_netty.Mqtt.Property.Wire.{IsText}
use rs_netty.Mqtt.Property.RoundTrip.{
  AllFit, section_bytes, Reads-read_properties, Writes-write_properties,
}
use rs_netty.Mqtt.Connect.{is_at_most_once, has, set_if, is_some}
use rs_netty.Mqtt.Publish.{
  read_packet_id, read_optional_id, ensure_nonzero_packet_id_encode, check_id, write_id,
  decode_publish, publish_flags, encode_publish,
}

-- A packet identifier is a `u16` other than 0.
abbrev pub IsId : ℕ → Type 0
IsId v = (0 < v) × (v < 2 ^ 16)

nonzero : (v : ℕ) → 0 < v → (v == 0) ≡ false
nonzero v h = ground arith

pub Reads-read_packet_id : (v : ℕ) → IsId v → Reads read_packet_id (to_be_bytes 2 v) v
unfolding read_packet_id
Reads-read_packet_id v h =
    Reads-end _ (Reads-read_u16 v h.1) (Reads-refuse_if (v == 0) _ (nonzero v h.0) (Reads-pure v))

pub Writes-ensure_nonzero : (v : ℕ) → IsId v → Writes (ensure_nonzero_packet_id_encode v) []
Writes-ensure_nonzero v h = Writes-refuse_if (v == 0) _ (nonzero v h.0)

-- QoS 0 goes without an identifier, the others with one.
abbrev pub IdFits : QoS → Option ℕ → Type 0
IdFits at_most_once none = Unit
IdFits at_most_once (some v) = ⊥
IdFits _ (some v) = IsId v
IdFits _ none = ⊥

abbrev id_bytes : Option ℕ → Bytes
id_bytes none = []
id_bytes (some v) = to_be_bytes 2 v

Reads-read_optional_id :
    (qos : QoS) (id : Option ℕ)
    → IdFits qos id
    → Reads (read_optional_id (is_at_most_once qos)) (id_bytes id) id
Reads-read_optional_id at_most_once none h = Reads-pure none
Reads-read_optional_id at_most_once (some v) h = absurd h
Reads-read_optional_id at_least_once (some v) h = Reads-map some (Reads-read_packet_id v h)
Reads-read_optional_id at_least_once none h = absurd h
Reads-read_optional_id exactly_once (some v) h = Reads-map some (Reads-read_packet_id v h)
Reads-read_optional_id exactly_once none h = absurd h

pub record IsPublish (packet : PublishPacket) : Type 0 where
  pub topic : IsText packet.topic_name
  pub id : IdFits packet.qos packet.packet_id
  pub fit : AllFit packet.properties

abbrev flag_bits : QoS → Bool → Bool → ℕ
flag_bits qos dup retain = set_if retain 0x01 (set_if dup 0x08 (as_u8 qos * 2 ^ 1))

record BitsRead (qos : QoS) (dup retain : Bool) : Type 0 where
  dup_bit : has (flag_bits qos dup retain) 0x08 ≡ dup
  retain_bit : has (flag_bits qos dup retain) 0x01 ≡ retain
  qos_bits : bit_and (flag_bits qos dup retain / 2 ^ 1) 0x03 ≡ as_u8 qos
  small : flag_bits qos dup retain < 16

bits_read : (qos : QoS) (dup retain : Bool) → BitsRead qos dup retain
bits_read at_most_once true true = record {
  dup_bit = refl;
  retain_bit = refl;
  qos_bits = refl;
  small = omega arith;
}
bits_read _ true true = record {
  dup_bit = refl;
  retain_bit = refl;
  qos_bits = refl;
  small = omega arith;
}
bits_read at_most_once true false = record {
  dup_bit = refl;
  retain_bit = refl;
  qos_bits = refl;
  small = omega arith;
}
bits_read _ true false = record {
  dup_bit = refl;
  retain_bit = refl;
  qos_bits = refl;
  small = omega arith;
}
bits_read at_most_once false true = record {
  dup_bit = refl;
  retain_bit = refl;
  qos_bits = refl;
  small = omega arith;
}
bits_read _ false true = record {
  dup_bit = refl;
  retain_bit = refl;
  qos_bits = refl;
  small = omega arith;
}
bits_read at_most_once false false = record {
  dup_bit = refl;
  retain_bit = refl;
  qos_bits = refl;
  small = omega arith;
}
bits_read _ false false = record {
  dup_bit = refl;
  retain_bit = refl;
  qos_bits = refl;
  small = omega arith;
}

pub from_u8-as_u8 : (qos : QoS) → from_u8 (as_u8 qos) ≡ ok qos
unfolding from_u8
from_u8-as_u8 at_most_once = refl
from_u8-as_u8 at_least_once = refl
from_u8-as_u8 exactly_once = refl

qos_not_3 : (qos : QoS) → (as_u8 qos == 3) ≡ false
qos_not_3 at_most_once = refl
qos_not_3 at_least_once = refl
qos_not_3 exactly_once = refl

unfoldable pub publish_bytes : PublishPacket → Bytes
publish_bytes packet =
    prefixed packet.topic_name
    ++ (id_bytes packet.packet_id ++ (section_bytes packet.properties ++ packet.payload))

pub publish_flags-lt : (packet : PublishPacket) → publish_flags packet < 16
unfolding publish_flags
publish_flags-lt packet = (bits_read packet.qos packet.dup packet.retain).small

pub ReadsAll-decode_publish :
    (packet : PublishPacket)
    → IsPublish packet
    → ReadsAll (decode_publish (publish_flags packet)) (publish_bytes packet) packet
unfolding decode_publish publish_flags publish_bytes
ReadsAll-decode_publish packet h =
    let bits = bits_read packet.qos packet.dup packet.retain in
    rw (bits.dup_bit, bits.retain_bit, bits.qos_bits)
      (ReadsAll-lift (from_u8 (as_u8 packet.qos)) _ (from_u8-as_u8 packet.qos) (
        ReadsAll-refuse_if (as_u8 packet.qos == 3) _ (qos_not_3 packet.qos) (
          ReadsAll-bind _ (Reads-read_utf8_string packet.topic_name h.topic.0 h.topic.1) (
            ReadsAll-bind _ (Reads-read_optional_id packet.qos packet.packet_id h.id) (
              ReadsAll-bind _ (Reads-read_properties packet.properties h.fit)
                (ReadsAll-end _ (ReadsAll-read_remaining_bytes packet.payload) (λ r. refl)))))))

Writes-check_id : (qos : QoS) (id : Option ℕ) → IdFits qos id → Writes (check_id id) []
Writes-check_id at_most_once none h = Writes-done
Writes-check_id at_least_once (some v) h = Writes-ensure_nonzero v h
Writes-check_id exactly_once (some v) h = Writes-ensure_nonzero v h
Writes-check_id _ none h = Writes-done
Writes-check_id at_most_once (some v) h = absurd h

Writes-write_id : (id : Option ℕ) → Writes (write_id id) (id_bytes id)
Writes-write_id none = Writes-done
Writes-write_id (some v) = Writes-write_u16 v

no_id_at_0 :
    (qos : QoS) (id : Option ℕ) → IdFits qos id → (is_at_most_once qos && is_some id) ≡ false
no_id_at_0 at_most_once none h = refl
no_id_at_0 at_most_once (some v) h = absurd h
no_id_at_0 at_least_once id h = refl
no_id_at_0 exactly_once id h = refl

id_above_0 :
    (qos : QoS) (id : Option ℕ)
    → IdFits qos id
    → (not (is_at_most_once qos) && not (is_some id)) ≡ false
id_above_0 at_most_once id h = refl
id_above_0 at_least_once (some v) h = refl
id_above_0 at_least_once none h = absurd h
id_above_0 exactly_once (some v) h = refl
id_above_0 exactly_once none h = absurd h

pub Writes-encode_publish :
    (packet : PublishPacket)
    → IsPublish packet
    → Writes (encode_publish packet) (publish_bytes packet)
unfolding encode_publish publish_bytes
Writes-encode_publish packet h =
    Writes-then (Writes-refuse_if _ _ (no_id_at_0 packet.qos packet.packet_id h.id)) (
      Writes-then (Writes-refuse_if _ _ (id_above_0 packet.qos packet.packet_id h.id)) (
        Writes-then (Writes-check_id packet.qos packet.packet_id h.id) (
          Writes-then (Writes-write_utf8_string packet.topic_name h.topic.0) (
            Writes-then (Writes-write_id packet.packet_id) (
              Writes-then (Writes-write_properties packet.properties h.fit)
                (Writes-extend packet.payload))))))
