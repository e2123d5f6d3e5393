-- ===== src/Mqtt/Property/Wire.antt =====
-- The properties of src/codec/mqtt.rs on the wire, as MQTT 5 has them.
use rs_netty.Common.{◌^◌, ◌≤◌, ◌<◌, ◌≡◌, true, [], ◌∷◌, ◌++◌, length}
use rs_netty.Common.Bytes.{Bytes, to_be_bytes}
use rs_netty.Utf8.{is_utf8}
use rs_netty.Mqtt.Types.{
  max_remaining_length, MqttProperty, payload_format_indicator, message_expiry_interval,
  content_type, response_topic, correlation_data, subscription_identifier, session_expiry_interval,
  assigned_client_identifier, server_keep_alive, authentication_method, authentication_data,
  request_problem_information, will_delay_interval, request_response_information,
  response_information, server_reference, reason_string, receive_maximum, topic_alias_maximum,
  topic_alias, maximum_qos, retain_available, user_property, maximum_packet_size,
  wildcard_subscription_available, subscription_identifier_available, shared_subscription_available,
}
use rs_netty.Mqtt.VarInt.RoundTrip.{varint_bytes}
use rs_netty.Mqtt.Reader.Reads.{prefixed}

-- A text that a length prefix of two bytes can carry.
abbrev pub IsText : Bytes → Type 0
IsText bs = (length bs < 2 ^ 16) × (is_utf8 bs ≡ true)

-- The property's value fits its type and its form on the wire.
abbrev pub Fits : MqttProperty → Type 0
Fits (payload_format_indicator value) = value < 2 ^ 8
Fits (message_expiry_interval value) = value < 2 ^ 32
Fits (content_type value) = IsText value
Fits (response_topic value) = IsText value
Fits (correlation_data value) = length value < 2 ^ 16
Fits (subscription_identifier value) = value ≤ max_remaining_length
Fits (session_expiry_interval value) = value < 2 ^ 32
Fits (assigned_client_identifier value) = IsText value
Fits (server_keep_alive value) = value < 2 ^ 16
Fits (authentication_method value) = IsText value
Fits (authentication_data value) = length value < 2 ^ 16
Fits (request_problem_information value) = value < 2 ^ 8
Fits (will_delay_interval value) = value < 2 ^ 32
Fits (request_response_information value) = value < 2 ^ 8
Fits (response_information value) = IsText value
Fits (server_reference value) = IsText value
Fits (reason_string value) = IsText value
Fits (receive_maximum value) = value < 2 ^ 16
Fits (topic_alias_maximum value) = value < 2 ^ 16
Fits (topic_alias value) = value < 2 ^ 16
Fits (maximum_qos value) = value < 2 ^ 8
Fits (retain_available value) = value < 2 ^ 8
Fits (user_property key value) = IsText key × IsText value
Fits (maximum_packet_size value) = value < 2 ^ 32
Fits (wildcard_subscription_available value) = value < 2 ^ 8
Fits (subscription_identifier_available value) = value < 2 ^ 8
Fits (shared_subscription_available value) = value < 2 ^ 8

-- The identifier, then the value.
unfoldable pub property_bytes : MqttProperty → Bytes
property_bytes (payload_format_indicator value) = 0x01 ∷ value ∷ []
property_bytes (message_expiry_interval value) = 0x02 ∷ to_be_bytes 4 value
property_bytes (content_type value) = 0x03 ∷ prefixed value
property_bytes (response_topic value) = 0x08 ∷ prefixed value
property_bytes (correlation_data value) = 0x09 ∷ prefixed value
property_bytes (subscription_identifier value) = 0x0b ∷ varint_bytes value
property_bytes (session_expiry_interval value) = 0x11 ∷ to_be_bytes 4 value
property_bytes (assigned_client_identifier value) = 0x12 ∷ prefixed value
property_bytes (server_keep_alive value) = 0x13 ∷ to_be_bytes 2 value
property_bytes (authentication_method value) = 0x15 ∷ prefixed value
property_bytes (authentication_data value) = 0x16 ∷ prefixed value
property_bytes (request_problem_information value) = 0x17 ∷ value ∷ []
property_bytes (will_delay_interval value) = 0x18 ∷ to_be_bytes 4 value
property_bytes (request_response_information value) = 0x19 ∷ value ∷ []
property_bytes (response_information value) = 0x1a ∷ prefixed value
property_bytes (server_reference value) = 0x1c ∷ prefixed value
property_bytes (reason_string value) = 0x1f ∷ prefixed value
property_bytes (receive_maximum value) = 0x21 ∷ to_be_bytes 2 value
property_bytes (topic_alias_maximum value) = 0x22 ∷ to_be_bytes 2 value
property_bytes (topic_alias value) = 0x23 ∷ to_be_bytes 2 value
property_bytes (maximum_qos value) = 0x24 ∷ value ∷ []
property_bytes (retain_available value) = 0x25 ∷ value ∷ []
property_bytes (user_property key value) = 0x26 ∷ (prefixed key ++ prefixed value)
property_bytes (maximum_packet_size value) = 0x27 ∷ to_be_bytes 4 value
property_bytes (wildcard_subscription_available value) = 0x28 ∷ value ∷ []
property_bytes (subscription_identifier_available value) = 0x29 ∷ value ∷ []
property_bytes (shared_subscription_available value) = 0x2a ∷ value ∷ []
