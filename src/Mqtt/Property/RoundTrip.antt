-- ===== src/Mqtt/Property/RoundTrip.antt =====
-- Properties that were written are read back.
use rs_netty.Common.{
  ℕ, ◌+◌, ◌%◌, ◌^◌, ◌≤◌, ◌<◌, ◌≡◌, refl, ap, subst, ◌∙◌, true, List, [], ◌∷◌, ◌++◌, length, take,
  drop, false, take-length_append, ltb, All, arith,
}
use rs_netty.Common.Bytes.{Bytes}
use rs_netty.Error.{ok}
use rs_netty.Mqtt.Types.{
  max_remaining_length, MqttProperty, payload_format_indicator, message_expiry_interval,
  content_type, response_topic, correlation_data, subscription_identifier, session_expiry_interval,
  assigned_client_identifier, server_keep_alive, authentication_method, authentication_data,
  request_problem_information, will_delay_interval, request_response_information,
  response_information, server_reference, reason_string, receive_maximum, topic_alias_maximum,
  topic_alias, maximum_qos, retain_available, user_property, maximum_packet_size,
  wildcard_subscription_available, subscription_identifier_available, shared_subscription_available,
}
use rs_netty.Mqtt.VarInt.{write_variable_integer}
use rs_netty.Mqtt.VarInt.RoundTrip.{varint_bytes}
use rs_netty.Mqtt.Reader.{read_variable_integer}
use rs_netty.Common.Words.{IsUsize}
use rs_netty.Mqtt.Reader.Reads.{
  at_pos, Reads, Reads-bind, Reads-map, Reads-read_u8, Reads-read_u16, Reads-read_u32,
  Reads-read_binary_data, Reads-read_utf8_string, InSlice-past,
}
use rs_netty.Mqtt.Reader.Many.{bytes_of_all, ReadsAll-read_while_remaining}
use rs_netty.Mqtt.Reader.Integer.{Reads-read_variable_integer}
use rs_netty.Mqtt.Writer.{
  Put, ◌⨾◌, Writes, Writes-then, Writes-done, Writes-extend, Writes-write_u8, Writes-write_u16,
  Writes-write_u32, Writes-write_utf8_string, Writes-write_binary_data,
  Writes-write_variable_integer,
}
use rs_netty.Mqtt.Property.{
  decode_value, decode_property, encode_property, encode_properties, read_section, read_properties,
  write_properties,
}
use rs_netty.Mqtt.Property.Wire.{Fits, property_bytes}

varint_bytes-small : (id : ℕ) → id < 128 → varint_bytes id ≡ id ∷ []
unfolding varint_bytes
varint_bytes-small id h = ground arith

Reads-id :
    (id : ℕ) {bs : Bytes} {x : MqttProperty}
    → id < 128
    → Reads (decode_value id) bs x
    → Reads decode_property (id ∷ bs) x
unfolding decode_property
Reads-id id {bs} {x} h r =
    let same : id % 2 ^ 8 ≡ id = omega arith in
    Reads-bind _
      (subst (λ b. Reads read_variable_integer b id) (varint_bytes-small id h)
        (Reads-read_variable_integer id (omega arith)))
      (rw same r)

Writes-id :
    (id : ℕ) {m : Put} {bs : Bytes}
    → id < 128
    → Writes m bs
    → Writes (write_variable_integer id ⨾ m) (id ∷ bs)
Writes-id id {m} {bs} h w =
    Writes-then
      (subst (λ b. Writes (write_variable_integer id) b) (varint_bytes-small id h)
        (Writes-write_variable_integer id (omega arith)))
      w

Reads-decode_property : (p : MqttProperty) → Fits p → Reads decode_property (property_bytes p) p
unfolding decode_value property_bytes
Reads-decode_property (payload_format_indicator value) h =
    Reads-id 0x01 (omega arith) (Reads-map payload_format_indicator (Reads-read_u8 value))
Reads-decode_property (message_expiry_interval value) h =
    Reads-id 0x02 (omega arith) (Reads-map message_expiry_interval (Reads-read_u32 value h))
Reads-decode_property (content_type value) h =
    Reads-id 0x03 (omega arith) (Reads-map content_type (Reads-read_utf8_string value h.0 h.1))
Reads-decode_property (response_topic value) h =
    Reads-id 0x08 (omega arith) (Reads-map response_topic (Reads-read_utf8_string value h.0 h.1))
Reads-decode_property (correlation_data value) h =
    Reads-id 0x09 (omega arith) (Reads-map correlation_data (Reads-read_binary_data value h))
Reads-decode_property (subscription_identifier value) h =
    Reads-id 0x0b (omega arith)
      (Reads-map subscription_identifier (Reads-read_variable_integer value h))
Reads-decode_property (session_expiry_interval value) h =
    Reads-id 0x11 (omega arith) (Reads-map session_expiry_interval (Reads-read_u32 value h))
Reads-decode_property (assigned_client_identifier value) h =
    Reads-id 0x12 (omega arith)
      (Reads-map assigned_client_identifier (Reads-read_utf8_string value h.0 h.1))
Reads-decode_property (server_keep_alive value) h =
    Reads-id 0x13 (omega arith) (Reads-map server_keep_alive (Reads-read_u16 value h))
Reads-decode_property (authentication_method value) h =
    Reads-id 0x15 (omega arith)
      (Reads-map authentication_method (Reads-read_utf8_string value h.0 h.1))
Reads-decode_property (authentication_data value) h =
    Reads-id 0x16 (omega arith) (Reads-map authentication_data (Reads-read_binary_data value h))
Reads-decode_property (request_problem_information value) h =
    Reads-id 0x17 (omega arith) (Reads-map request_problem_information (Reads-read_u8 value))
Reads-decode_property (will_delay_interval value) h =
    Reads-id 0x18 (omega arith) (Reads-map will_delay_interval (Reads-read_u32 value h))
Reads-decode_property (request_response_information value) h =
    Reads-id 0x19 (omega arith) (Reads-map request_response_information (Reads-read_u8 value))
Reads-decode_property (response_information value) h =
    Reads-id 0x1a (omega arith)
      (Reads-map response_information (Reads-read_utf8_string value h.0 h.1))
Reads-decode_property (server_reference value) h =
    Reads-id 0x1c (omega arith) (Reads-map server_reference (Reads-read_utf8_string value h.0 h.1))
Reads-decode_property (reason_string value) h =
    Reads-id 0x1f (omega arith) (Reads-map reason_string (Reads-read_utf8_string value h.0 h.1))
Reads-decode_property (receive_maximum value) h =
    Reads-id 0x21 (omega arith) (Reads-map receive_maximum (Reads-read_u16 value h))
Reads-decode_property (topic_alias_maximum value) h =
    Reads-id 0x22 (omega arith) (Reads-map topic_alias_maximum (Reads-read_u16 value h))
Reads-decode_property (topic_alias value) h =
    Reads-id 0x23 (omega arith) (Reads-map topic_alias (Reads-read_u16 value h))
Reads-decode_property (maximum_qos value) h =
    Reads-id 0x24 (omega arith) (Reads-map maximum_qos (Reads-read_u8 value))
Reads-decode_property (retain_available value) h =
    Reads-id 0x25 (omega arith) (Reads-map retain_available (Reads-read_u8 value))
Reads-decode_property (user_property key value) h = Reads-id 0x26 (omega arith) (
    Reads-bind _ (Reads-read_utf8_string key h.0.0 h.0.1)
      (Reads-map (user_property key) (Reads-read_utf8_string value h.1.0 h.1.1)))
Reads-decode_property (maximum_packet_size value) h =
    Reads-id 0x27 (omega arith) (Reads-map maximum_packet_size (Reads-read_u32 value h))
Reads-decode_property (wildcard_subscription_available value) h =
    Reads-id 0x28 (omega arith) (Reads-map wildcard_subscription_available (Reads-read_u8 value))
Reads-decode_property (subscription_identifier_available value) h =
    Reads-id 0x29 (omega arith) (Reads-map subscription_identifier_available (Reads-read_u8 value))
Reads-decode_property (shared_subscription_available value) h =
    Reads-id 0x2a (omega arith) (Reads-map shared_subscription_available (Reads-read_u8 value))

Writes-encode_property : (p : MqttProperty) → Fits p → Writes (encode_property p) (property_bytes p)
unfolding encode_property property_bytes
Writes-encode_property (payload_format_indicator value) h =
    Writes-id 0x01 (omega arith) (Writes-write_u8 value)
Writes-encode_property (message_expiry_interval value) h =
    Writes-id 0x02 (omega arith) (Writes-write_u32 value)
Writes-encode_property (content_type value) h =
    Writes-id 0x03 (omega arith) (Writes-write_utf8_string value h.0)
Writes-encode_property (response_topic value) h =
    Writes-id 0x08 (omega arith) (Writes-write_utf8_string value h.0)
Writes-encode_property (correlation_data value) h =
    Writes-id 0x09 (omega arith) (Writes-write_binary_data value h)
Writes-encode_property (subscription_identifier value) h =
    Writes-id 0x0b (omega arith) (Writes-write_variable_integer value h)
Writes-encode_property (session_expiry_interval value) h =
    Writes-id 0x11 (omega arith) (Writes-write_u32 value)
Writes-encode_property (assigned_client_identifier value) h =
    Writes-id 0x12 (omega arith) (Writes-write_utf8_string value h.0)
Writes-encode_property (server_keep_alive value) h =
    Writes-id 0x13 (omega arith) (Writes-write_u16 value)
Writes-encode_property (authentication_method value) h =
    Writes-id 0x15 (omega arith) (Writes-write_utf8_string value h.0)
Writes-encode_property (authentication_data value) h =
    Writes-id 0x16 (omega arith) (Writes-write_binary_data value h)
Writes-encode_property (request_problem_information value) h =
    Writes-id 0x17 (omega arith) (Writes-write_u8 value)
Writes-encode_property (will_delay_interval value) h =
    Writes-id 0x18 (omega arith) (Writes-write_u32 value)
Writes-encode_property (request_response_information value) h =
    Writes-id 0x19 (omega arith) (Writes-write_u8 value)
Writes-encode_property (response_information value) h =
    Writes-id 0x1a (omega arith) (Writes-write_utf8_string value h.0)
Writes-encode_property (server_reference value) h =
    Writes-id 0x1c (omega arith) (Writes-write_utf8_string value h.0)
Writes-encode_property (reason_string value) h =
    Writes-id 0x1f (omega arith) (Writes-write_utf8_string value h.0)
Writes-encode_property (receive_maximum value) h =
    Writes-id 0x21 (omega arith) (Writes-write_u16 value)
Writes-encode_property (topic_alias_maximum value) h =
    Writes-id 0x22 (omega arith) (Writes-write_u16 value)
Writes-encode_property (topic_alias value) h = Writes-id 0x23 (omega arith) (Writes-write_u16 value)
Writes-encode_property (maximum_qos value) h = Writes-id 0x24 (omega arith) (Writes-write_u8 value)
Writes-encode_property (retain_available value) h =
    Writes-id 0x25 (omega arith) (Writes-write_u8 value)
Writes-encode_property (user_property key value) h =
    Writes-id 0x26 (omega arith)
      (Writes-then (Writes-write_utf8_string key h.0.0) (Writes-write_utf8_string value h.1.0))
Writes-encode_property (maximum_packet_size value) h =
    Writes-id 0x27 (omega arith) (Writes-write_u32 value)
Writes-encode_property (wildcard_subscription_available value) h =
    Writes-id 0x28 (omega arith) (Writes-write_u8 value)
Writes-encode_property (subscription_identifier_available value) h =
    Writes-id 0x29 (omega arith) (Writes-write_u8 value)
Writes-encode_property (shared_subscription_available value) h =
    Writes-id 0x2a (omega arith) (Writes-write_u8 value)

abbrev pub properties_bytes : List MqttProperty → Bytes
properties_bytes = bytes_of_all property_bytes

-- Every property fits, and so do all of them in one section.
abbrev pub AllFit : List MqttProperty → Type 0
AllFit ps = All Fits ps × (length (properties_bytes ps) ≤ max_remaining_length)

-- The length of the section, then the properties.
abbrev pub section_bytes : List MqttProperty → Bytes
section_bytes ps = varint_bytes (length (properties_bytes ps)) ++ properties_bytes ps

Writes-encode_properties :
    (ps : List MqttProperty) → All Fits ps → Writes (encode_properties ps) (properties_bytes ps)
unfolding encode_properties
Writes-encode_properties [] h = Writes-done
Writes-encode_properties (p ∷ ps) h =
    Writes-then (Writes-encode_property p h.0) (Writes-encode_properties ps h.1)

pub Writes-write_properties :
    (ps : List MqttProperty) → AllFit ps → Writes (write_properties ps) (section_bytes ps)
unfolding write_properties
Writes-write_properties ps (fit, small) = record {
  run = λ dst.
      let bytes : Bytes = properties_bytes ps in
      let same : length bytes % 2 ^ 32 ≡ length bytes = omega arith in
      rw ((Writes-encode_properties ps fit).run [], same)
        ((Writes-then (Writes-write_variable_integer (length bytes) small)
            (Writes-extend bytes)).run
          dst);
}

property_bytes-nonempty : (p : MqttProperty) → Fits p → 0 < length (property_bytes p)
unfolding property_bytes
property_bytes-nonempty (payload_format_indicator value) h = omega arith
property_bytes-nonempty _ h = omega arith

Reads-read_section :
    (ps : List MqttProperty)
    → AllFit ps
    → Reads (read_section (length (properties_bytes ps))) (properties_bytes ps) ps
unfolding read_section
Reads-read_section ps (fit, small) = record {
  run = λ src rest pos u e.
      let bytes : Bytes = properties_bytes ps in
      let (r', read, _) =
        (ReadsAll-read_while_remaining decode_property property_bytes Fits Reads-decode_property
            property_bytes-nonempty ps fit).run
          bytes 0 (omega arith) refl in
      let ahead : take (length bytes) (drop pos src) ≡ bytes =
        ap (λ (xs : Bytes). take (length bytes) xs) e ∙ take-length_append bytes rest in
      let (inside, word) = InSlice-past pos src bytes rest u e in
      let no_overflow : ltb (pos + length bytes) (2 ^ 64) ≡ true = ground arith in
      let within : ltb (length src) (pos + length bytes) ≡ false = ground arith in
      rw (no_overflow, within, ahead, read);
}

-- A section of properties that was written is read back.
pub Reads-read_properties :
    (ps : List MqttProperty) → AllFit ps → Reads read_properties (section_bytes ps) ps
unfolding read_properties
Reads-read_properties ps h =
    Reads-bind _ (Reads-read_variable_integer (length (properties_bytes ps)) h.1)
      (Reads-read_section ps h)

-- Properties whose values are in their ranges, and whose section fits, are written, and a reader that
-- stands before the written section returns the same properties in the same order and stops behind
-- it. The slice of the reader has a `usize` as its length.
pub properties_round_trip :
    (ps : List MqttProperty) (dst rest : Bytes)
    → AllFit ps
    → IsUsize (length (section_bytes ps ++ rest))
    → (write_properties ps dst ≡ ok (dst ++ section_bytes ps))
      × (read_properties (at_pos (section_bytes ps ++ rest) 0)
          ≡ ok (ps, at_pos (section_bytes ps ++ rest) (0 + length (section_bytes ps))))
properties_round_trip ps dst rest h word = (
  (Writes-write_properties ps h).run dst,
  (Reads-read_properties ps h).run (section_bytes ps ++ rest) rest 0 (omega arith, word) refl,
)
