-- ===== src/Mqtt/Property.antt =====
-- MQTT 5 properties: `decode_property`, `encode_property`, `Reader::read_properties` and
-- `write_properties` of src/codec/mqtt.rs.
pub mod Wire
pub mod RoundTrip
use rs_netty.Common.{
  ℕ, ◌+◌, ◌%◌, ◌^◌, Option, none, some, List, [], ◌∷◌, ◌++◌, length, take, drop, ltb, ◌==◌,
  if◌then◌else◌,
}
use rs_netty.Common.Bytes.{Bytes}
use rs_netty.Common.Words.{checked_add}
use rs_netty.Error.{Result, ok, err, Error, fmt}
use rs_netty.Mqtt.Types.{
  MqttProperty, payload_format_indicator, message_expiry_interval, content_type, response_topic,
  correlation_data, subscription_identifier, session_expiry_interval, assigned_client_identifier,
  server_keep_alive, authentication_method, authentication_data, request_problem_information,
  will_delay_interval, request_response_information, response_information, server_reference,
  reason_string, receive_maximum, topic_alias_maximum, topic_alias, maximum_qos, retain_available,
  user_property, maximum_packet_size, wildcard_subscription_available,
  subscription_identifier_available, shared_subscription_available,
}
use rs_netty.Mqtt.VarInt.{write_variable_integer}
use rs_netty.Mqtt.Reader.{
  Reader, M, pure, fail, continue, ◌>>=◌, new, read_u8, read_u16, read_u32, read_utf8_string,
  read_binary_data, read_variable_integer, read_while_remaining,
}
use rs_netty.Mqtt.Writer.{
  Put, ◌⨾◌, after, done, extend, write_u8, write_u16, write_u32, write_utf8_string,
  write_binary_data,
}

-- The value behind the identifier `id`.
unfoldable pub decode_value : ℕ → M MqttProperty
decode_value id =
    if id == 0x01
    then (do value ← read_u8; pure (payload_format_indicator value))
    else if id == 0x02
    then (do value ← read_u32; pure (message_expiry_interval value))
    else if id == 0x03
    then (do value ← read_utf8_string; pure (content_type value))
    else if id == 0x08
    then (do value ← read_utf8_string; pure (response_topic value))
    else if id == 0x09
    then (do value ← read_binary_data; pure (correlation_data value))
    else if id == 0x0b
    then (do value ← read_variable_integer; pure (subscription_identifier value))
    else if id == 0x11
    then (do value ← read_u32; pure (session_expiry_interval value))
    else if id == 0x12
    then (do value ← read_utf8_string; pure (assigned_client_identifier value))
    else if id == 0x13
    then (do value ← read_u16; pure (server_keep_alive value))
    else if id == 0x15
    then (do value ← read_utf8_string; pure (authentication_method value))
    else if id == 0x16
    then (do value ← read_binary_data; pure (authentication_data value))
    else if id == 0x17
    then (do value ← read_u8; pure (request_problem_information value))
    else if id == 0x18
    then (do value ← read_u32; pure (will_delay_interval value))
    else if id == 0x19
    then (do value ← read_u8; pure (request_response_information value))
    else if id == 0x1a
    then (do value ← read_utf8_string; pure (response_information value))
    else if id == 0x1c
    then (do value ← read_utf8_string; pure (server_reference value))
    else if id == 0x1f
    then (do value ← read_utf8_string; pure (reason_string value))
    else if id == 0x21
    then (do value ← read_u16; pure (receive_maximum value))
    else if id == 0x22
    then (do value ← read_u16; pure (topic_alias_maximum value))
    else if id == 0x23
    then (do value ← read_u16; pure (topic_alias value))
    else if id == 0x24
    then (do value ← read_u8; pure (maximum_qos value))
    else if id == 0x25
    then (do value ← read_u8; pure (retain_available value))
    else if id == 0x26
    then (do key ← read_utf8_string; value ← read_utf8_string; pure (user_property key value))
    else if id == 0x27
    then (do value ← read_u32; pure (maximum_packet_size value))
    else if id == 0x28
    then (do value ← read_u8; pure (wildcard_subscription_available value))
    else if id == 0x29
    then (do value ← read_u8; pure (subscription_identifier_available value))
    else if id == 0x2a
    then (do value ← read_u8; pure (shared_subscription_available value))
    else fail (Error.decode (fmt "unknown MQTT v5 property id: {id}" (id ∷ [])))

-- `reader.read_variable_integer()? as u8`: the cast keeps the low byte.
unfoldable pub decode_property : M MqttProperty
decode_property = do id ← read_variable_integer; decode_value (id % 2 ^ 8)

unfoldable pub encode_property : MqttProperty → Put
encode_property (payload_format_indicator value) = write_variable_integer 0x01 ⨾ write_u8 value
encode_property (message_expiry_interval value) = write_variable_integer 0x02 ⨾ write_u32 value
encode_property (content_type value) = write_variable_integer 0x03 ⨾ write_utf8_string value
encode_property (response_topic value) = write_variable_integer 0x08 ⨾ write_utf8_string value
encode_property (correlation_data value) = write_variable_integer 0x09 ⨾ write_binary_data value
encode_property (subscription_identifier value) =
    write_variable_integer 0x0b ⨾ write_variable_integer value
encode_property (session_expiry_interval value) = write_variable_integer 0x11 ⨾ write_u32 value
encode_property (assigned_client_identifier value) =
    write_variable_integer 0x12 ⨾ write_utf8_string value
encode_property (server_keep_alive value) = write_variable_integer 0x13 ⨾ write_u16 value
encode_property (authentication_method value) =
    write_variable_integer 0x15 ⨾ write_utf8_string value
encode_property (authentication_data value) = write_variable_integer 0x16 ⨾ write_binary_data value
encode_property (request_problem_information value) = write_variable_integer 0x17 ⨾ write_u8 value
encode_property (will_delay_interval value) = write_variable_integer 0x18 ⨾ write_u32 value
encode_property (request_response_information value) = write_variable_integer 0x19 ⨾ write_u8 value
encode_property (response_information value) = write_variable_integer 0x1a ⨾ write_utf8_string value
encode_property (server_reference value) = write_variable_integer 0x1c ⨾ write_utf8_string value
encode_property (reason_string value) = write_variable_integer 0x1f ⨾ write_utf8_string value
encode_property (receive_maximum value) = write_variable_integer 0x21 ⨾ write_u16 value
encode_property (topic_alias_maximum value) = write_variable_integer 0x22 ⨾ write_u16 value
encode_property (topic_alias value) = write_variable_integer 0x23 ⨾ write_u16 value
encode_property (maximum_qos value) = write_variable_integer 0x24 ⨾ write_u8 value
encode_property (retain_available value) = write_variable_integer 0x25 ⨾ write_u8 value
encode_property (user_property key value) =
    write_variable_integer 0x26 ⨾ write_utf8_string key ⨾ write_utf8_string value
encode_property (maximum_packet_size value) = write_variable_integer 0x27 ⨾ write_u32 value
encode_property (wildcard_subscription_available value) =
    write_variable_integer 0x28 ⨾ write_u8 value
encode_property (subscription_identifier_available value) =
    write_variable_integer 0x29 ⨾ write_u8 value
encode_property (shared_subscription_available value) = write_variable_integer 0x2a ⨾ write_u8 value

unfoldable pub encode_properties : List MqttProperty → Put
encode_properties [] = done
encode_properties (property ∷ properties) = encode_property property ⨾ encode_properties properties

-- The properties of `len` bytes, up to `end`, from a reader of their own; `self` moves to `end`.
abbrev section_to : ℕ → Option ℕ → M (List MqttProperty)
section_to len none self = err (Error.decode (fmt "MQTT properties length overflow" []))
section_to len (some end) self =
    if ltb (length self.src) end
    then err (
        Error.decode (
          fmt "MQTT properties length exceeds packet: end={end}, len={}"
            (end ∷ length self.src ∷ [])))
    else continue (read_while_remaining decode_property (new (take len (drop self.pos self.src))))
        (λ properties r. ok (properties, record self { pos = end }))

unfoldable pub read_section : ℕ → M (List MqttProperty)
read_section len self = section_to len (checked_add self.pos len) self

unfoldable pub read_properties : M (List MqttProperty)
read_properties = do len ← read_variable_integer; read_section len

-- `properties_buf.len() as u32`
abbrev write_section : Bytes → Put
write_section properties_buf =
    write_variable_integer (length properties_buf % 2 ^ 32) ⨾ extend properties_buf

abbrev with_section : Result Bytes → Put
with_section (ok properties_buf) dst = write_section properties_buf dst
with_section (err e) dst = err e

unfoldable pub write_properties : List MqttProperty → Put
write_properties properties = with_section (encode_properties properties [])
