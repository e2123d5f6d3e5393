-- ===== src/Examples/Packets.antt =====
-- MQTT packets and integers at concrete inputs.
use rs_netty.Mqtt.VarInt.Canonical.{length_prefix_canonical}
use rs_netty.Mqtt.Fuel.{HasFuel, loops_have_fuel}
use rs_netty.Mqtt.Reader.{read_utf8_string}
use rs_netty.Mqtt.Subscribe.{decode_subscription}
use rs_netty.Mqtt.Property.{decode_property}
use rs_netty.Common.{
  take, ℕ, zero, suc, ap, ◌-◌, ◌+◌, ◌≤◌, ◌<◌, ◌^◌, ◌≡◌, refl, true, false, none, some, List, [],
  ◌∷◌, ◌++◌, length, arith,
}
use rs_netty.Common.Bytes.{Bytes}
use rs_netty.Error.{ok}
use rs_netty.Utf8.{is_utf8}
use rs_netty.Codec.Framing.{Agree, IsSettled, reads, read_all, concat}
use rs_netty.Codec.Framing.Sent.{encode_all, sent}
use rs_netty.Mqtt.Types.{
  at_least_once, PublishPacket, ConnectPacket, MqttPacket, MqttProperty, publish, connect, ping_req,
  receive_maximum, content_type,
}
use rs_netty.Mqtt.VarInt.{decode_remaining_length_prefix, write_variable_integer, write_loop}
use rs_netty.Mqtt.VarInt.RoundTrip.{varint_bytes, length_prefix_round_trip}
use rs_netty.Mqtt.Reader.Reads.{at_pos}
use rs_netty.Mqtt.Writer.{write_u16, write_utf8_string}
use rs_netty.Mqtt.Property.{read_properties, write_properties, encode_properties}
use rs_netty.Mqtt.Property.Wire.{property_bytes}
use rs_netty.Mqtt.Property.RoundTrip.{AllFit, section_bytes, properties_round_trip}
use rs_netty.Mqtt.Connect.RoundTrip.{connect_bytes}
use rs_netty.Mqtt.Publish.{encode_publish, publish_flags}
use rs_netty.Mqtt.Publish.RoundTrip.{publish_bytes}
use rs_netty.Mqtt.Packet.{encode_packet}
use rs_netty.Mqtt.Codec.{MqttCodec, new, decode, encode}
use rs_netty.Mqtt.Codec.Laws.{packets_stable}
use rs_netty.Mqtt.Codec.Bounds.{packet_bounds}
use rs_netty.Codec.{IsErr}
use rs_netty.Mqtt.Packet.RoundTrip.{IsPacket, packet_body}
use rs_netty.Mqtt.Codec.RoundTrip.{
  oversized_leaves_byte, first_byte, IsSendable, packet_bytes, packet_round_trip, packets_arrive,
}

abbrev greeting : PublishPacket
greeting = record {
  dup = false;
  qos = at_least_once;
  retain = true;
  topic_name = 116 ∷ [];
  packet_id = some 7;
  properties = [];
  payload = 104 ∷ 105 ∷ [];
}

abbrev client : ConnectPacket
client = record {
  clean_start = true;
  keep_alive = 60;
  properties = [];
  client_id = 99 ∷ [];
  will = none;
  username = some (117 ∷ []);
  password = some (112 ∷ []);
}

no_properties : AllFit []
no_properties = (tt, omega arith)

greeting-IsSendable : IsSendable new (publish greeting)
unfolding is_utf8 publish_bytes varint_bytes
greeting-IsSendable = (
  record { topic = (omega arith, refl); id = omega arith; fit = no_properties },
  omega arith,
  omega arith,
)

client-IsSendable : IsSendable new (connect client)
unfolding is_utf8 connect_bytes varint_bytes
client-IsSendable = (
  record {
    fit = no_properties;
    client = (omega arith, refl);
    alive = omega arith;
    will = tt;
    user = (omega arith, refl);
    pass = omega arith;
    named = refl;
  },
  omega arith,
  omega arith,
)

packet_round_trip_example :
    (encode new (connect client) (1 ∷ []) ≡ (ok tt, 1 ∷ [] ++ packet_bytes (connect client)))
    × (decode new (packet_bytes (connect client) ++ 192 ∷ [])
        ≡ (ok (some (connect client)), new, 192 ∷ []))
packet_round_trip_example =
    packet_round_trip new (connect client) (1 ∷ []) (192 ∷ []) client-IsSendable

abbrev greetings : List MqttPacket
greetings = publish greeting ∷ ping_req ∷ []

abbrev greeting_chunks : List Bytes
greeting_chunks = (51 ∷ 8 ∷ 0 ∷ []) ∷ (1 ∷ 116 ∷ 0 ∷ 7 ∷ 0 ∷ 104 ∷ 105 ∷ 192 ∷ []) ∷ (0 ∷ []) ∷ []

greetings_sent : concat greeting_chunks ≡ encode_all encode new greetings []
unfolding encode encode_packet encode_publish publish_flags write_utf8_string write_u16
    write_properties encode_properties write_variable_integer write_loop
greetings_sent = refl

packets_arrive_example : reads decode (read_all decode new []) greeting_chunks ≡ sent new greetings
packets_arrive_example =
    packets_arrive new greetings greeting_chunks
      (greeting-IsSendable, ((tt, omega arith, omega arith), tt)) greetings_sent

packets_stable_example :
    Agree
      (reads decode (read_all decode new []) greeting_chunks)
      (read_all decode new (concat greeting_chunks))
    × IsSettled (read_all decode new (concat greeting_chunks))
packets_stable_example = packets_stable new greeting_chunks

abbrev two_pings : Bytes
two_pings = 192 ∷ 0 ∷ 192 ∷ []

abbrev ping_left : Bytes
ping_left = 192 ∷ []

ping_read : decode new two_pings ≡ (ok (some ping_req), new, ping_left)
unfolding varint_bytes
ping_read = (packet_round_trip new ping_req [] (192 ∷ []) (tt, omega arith, omega arith)).1

packet_bounds_example :
    (length ping_left + 2 ≤ length two_pings)
    × (length two_pings ≤ length ping_left + 5 + new.max_packet_size)
packet_bounds_example = packet_bounds new two_pings ping_read

length_prefix_round_trip_example :
    (write_variable_integer 321 (48 ∷ []) ≡ ok (48 ∷ [] ++ varint_bytes 321))
    × (decode_remaining_length_prefix (varint_bytes 321 ++ 5 ∷ [])
        ≡ ok (some (321, length (varint_bytes 321))))
    × (1 ≤ length (varint_bytes 321))
    × (length (varint_bytes 321) ≤ 4)
length_prefix_round_trip_example = length_prefix_round_trip 321 (48 ∷ []) (5 ∷ []) (omega arith)

prefix_read : decode_remaining_length_prefix (193 ∷ 2 ∷ 5 ∷ []) ≡ ok (some (321, 2))
unfolding varint_bytes
prefix_read = (length_prefix_round_trip 321 [] (5 ∷ []) (omega arith)).1

length_prefix_canonical_example :
    write_variable_integer 321 (48 ∷ []) ≡ ok (48 ∷ [] ++ take 2 (193 ∷ 2 ∷ 5 ∷ []))
length_prefix_canonical_example =
    length_prefix_canonical (193 ∷ 2 ∷ 5 ∷ []) (48 ∷ [])
      (omega arith, (omega arith, (omega arith, tt))) prefix_read

abbrev limits : List MqttProperty
limits = receive_maximum 20 ∷ content_type (116 ∷ []) ∷ []

limits-AllFit : AllFit limits
unfolding is_utf8 property_bytes
limits-AllFit = ((omega arith, ((omega arith, refl), tt)), omega arith)

limits_word : length (section_bytes limits ++ 9 ∷ []) < 2 ^ 64
unfolding property_bytes varint_bytes
limits_word = omega arith

properties_round_trip_example :
    (write_properties limits [] ≡ ok ([] ++ section_bytes limits))
    × (read_properties (at_pos (section_bytes limits ++ 9 ∷ []) 0)
        ≡ ok (limits, at_pos (section_bytes limits ++ 9 ∷ []) (0 + length (section_bytes limits))))
properties_round_trip_example = properties_round_trip limits [] (9 ∷ []) limits-AllFit limits_word

zeros : ℕ → Bytes
zeros zero = []
zeros (suc n) = 0 ∷ zeros n

length-zeros : (n : ℕ) → length (zeros n) ≡ n
unfolding zeros
length-zeros zero = refl
length-zeros (suc n) = ap suc (length-zeros n)

abbrev filled : Bytes → PublishPacket
filled payload = record greeting { payload = payload }

filled-length :
    (payload : Bytes) → length (packet_body (publish (filled payload))) ≡ 8 - 2 + length payload
unfolding publish_bytes varint_bytes
filled-length payload = omega arith

filled-IsPacket : (payload : Bytes) → IsPacket (publish (filled payload))
filled-IsPacket payload = record {
  topic = greeting-IsSendable.0.topic;
  id = greeting-IsSendable.0.id;
  fit = greeting-IsSendable.0.fit;
}

abbrev wide : MqttCodec
wide = record { max_packet_size = 2 ^ 30 }

huge : Bytes
huge = zeros 268_435_456

length-huge : length huge ≡ 268_435_456
unfolding huge
length-huge = length-zeros 268_435_456

oversized_leaves_byte_example :
    IsErr (encode wide (publish (filled huge)) []).0
    × ((encode wide (publish (filled huge)) []).1 ≡ [] ++ first_byte (publish (filled huge)) ∷ [])
oversized_leaves_byte_example =
    oversized_leaves_byte wide (publish (filled huge)) [] (filled-IsPacket huge)
      (omega (arith, filled-length huge, length-huge))
      (omega (arith, filled-length huge, length-huge))
      (omega (arith, filled-length huge, length-huge))

loops_have_fuel_example :
    HasFuel decode_property 7 (at_pos (1 ∷ 1 ∷ []) 0)
    × HasFuel decode_subscription 7 (at_pos (1 ∷ 1 ∷ []) 0)
    × HasFuel read_utf8_string 7 (at_pos (1 ∷ 1 ∷ []) 0)
loops_have_fuel_example = loops_have_fuel 7 (at_pos (1 ∷ 1 ∷ []) 0) (omega arith)
