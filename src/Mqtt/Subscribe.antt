-- ===== src/Mqtt/Subscribe.antt =====
-- SUBSCRIBE and UNSUBSCRIBE of src/codec/mqtt.rs.
pub mod RoundTrip
use rs_netty.Common.{ℕ, ◌/◌, ◌*◌, ◌^◌, ◌||◌, List, [], ◌∷◌, ltb, ◌==◌, ◌!=◌, bit_and, bit_or}
use rs_netty.Common.Bytes.{Bytes}
use rs_netty.Mqtt.Types.{
  from_u8, as_u8, Subscription, SubscriptionOptions, SubscribePacket, UnsubscribePacket,
}
use rs_netty.Mqtt.Reader
use rs_netty.Mqtt.Reader.{
  M, ◌>>=◌, ◌>>◌, pure, lift, read_u8, read_utf8_string, read_while_remaining,
}
use rs_netty.Mqtt.Property.{read_properties, write_properties}
use rs_netty.Mqtt.Writer
use rs_netty.Mqtt.Writer.{Put, ◌⨾◌, done, write_u8, write_u16, write_utf8_string}
use rs_netty.Mqtt.Connect.{has}
use rs_netty.Mqtt.Publish.{read_packet_id, ensure_nonzero_packet_id_encode}
use rs_netty.Mqtt.Acks.{is_empty, bit}

-- The options byte of one subscription.
unfoldable pub decode_options : ℕ → M SubscriptionOptions
decode_options options = do
  let retain_handling = bit_and (options / 2 ^ 4) 0x03
  Reader.refuse_if (has options 0xc0 || retain_handling == 3) "invalid MQTT SUBSCRIBE options"
  maximum_qos ← lift (from_u8 (bit_and options 0x03))
  pure (record {
    maximum_qos = maximum_qos;
    no_local = has options 0x04;
    retain_as_published = has options 0x08;
    retain_handling = retain_handling;
  })

-- A round of the loop of `decode_subscribe`.
unfoldable pub decode_subscription : M Subscription
decode_subscription = do
  topic_filter ← read_utf8_string
  byte ← read_u8
  options ← decode_options byte
  pure (record { topic_filter = topic_filter; options = options })

unfoldable pub decode_subscribe : M SubscribePacket
decode_subscribe = do
  packet_id ← read_packet_id
  properties ← read_properties
  subscriptions ← read_while_remaining decode_subscription
  Reader.refuse_if (is_empty subscriptions) "MQTT SUBSCRIBE must include at least one subscription"
  pure (record { packet_id = packet_id; properties = properties; subscriptions = subscriptions })

unfoldable pub encode_options : SubscriptionOptions → ℕ
encode_options options =
    bit_or
      (bit_or (bit_or (as_u8 options.maximum_qos) (bit options.no_local * 2 ^ 2))
        (bit options.retain_as_published * 2 ^ 3))
      (options.retain_handling * 2 ^ 4)

-- A round of the loop of `encode_subscribe`.
unfoldable pub encode_subscription : Subscription → Put
encode_subscription subscription =
    Writer.refuse_if (ltb 2 subscription.options.retain_handling)
      "invalid MQTT SUBSCRIBE retain handling option"
    ⨾ write_utf8_string subscription.topic_filter
    ⨾ write_u8 (encode_options subscription.options)

-- `for item in items { write(item)? }`
abbrev pub write_all : {A : Type 0} → (A → Put) → List A → Put
write_all write [] = done
write_all write (x ∷ xs) = write x ⨾ write_all write xs

unfoldable pub encode_subscribe : SubscribePacket → Put
encode_subscribe packet =
    Writer.refuse_if (is_empty packet.subscriptions)
      "MQTT SUBSCRIBE must include at least one subscription"
    ⨾ ensure_nonzero_packet_id_encode packet.packet_id
    ⨾ write_u16 packet.packet_id
    ⨾ write_properties packet.properties
    ⨾ write_all encode_subscription packet.subscriptions

unfoldable pub decode_unsubscribe : M UnsubscribePacket
decode_unsubscribe = do
  packet_id ← read_packet_id
  properties ← read_properties
  topic_filters ← read_while_remaining read_utf8_string
  Reader.refuse_if (is_empty topic_filters)
      "MQTT UNSUBSCRIBE must include at least one topic filter"
  pure (record { packet_id = packet_id; properties = properties; topic_filters = topic_filters })

unfoldable pub encode_unsubscribe : UnsubscribePacket → Put
encode_unsubscribe packet =
    Writer.refuse_if (is_empty packet.topic_filters)
      "MQTT UNSUBSCRIBE must include at least one topic filter"
    ⨾ ensure_nonzero_packet_id_encode packet.packet_id
    ⨾ write_u16 packet.packet_id
    ⨾ write_properties packet.properties
    ⨾ write_all write_utf8_string packet.topic_filters
