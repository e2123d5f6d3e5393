-- ===== src/Mqtt/Types.antt =====
-- The packets of src/codec/mqtt.rs.
use rs_netty.Common.{ℕ, Bool, false, ◌==◌, if◌then◌else◌, Option, List, [], ◌∷◌}
use rs_netty.Common.Bytes.{Bytes}
use rs_netty.Error.{Result, ok, err, Error, fmt}

abbrev pub mqtt_level_5 : ℕ
mqtt_level_5 = 5

abbrev pub max_remaining_length : ℕ
max_remaining_length = 268_435_455

pub data QoS : Type 0 where
  at_most_once at_least_once exactly_once : QoS

unfoldable pub from_u8 : ℕ → Result QoS
from_u8 value =
    if value == 0
    then ok at_most_once
    else if value == 1
    then ok at_least_once
    else if value == 2
    then ok exactly_once
    else err (Error.decode (fmt "invalid MQTT QoS: {value}" (value ∷ [])))

abbrev pub as_u8 : QoS → ℕ
as_u8 at_most_once = 0
as_u8 at_least_once = 1
as_u8 exactly_once = 2

pub data MqttProperty : Type 0 where
  payload_format_indicator message_expiry_interval : ℕ → MqttProperty
  content_type response_topic : Bytes → MqttProperty
  correlation_data : Bytes → MqttProperty
  subscription_identifier session_expiry_interval : ℕ → MqttProperty
  assigned_client_identifier : Bytes → MqttProperty
  server_keep_alive : ℕ → MqttProperty
  authentication_method authentication_data : Bytes → MqttProperty
  request_problem_information will_delay_interval request_response_information : ℕ → MqttProperty
  response_information server_reference reason_string : Bytes → MqttProperty
  receive_maximum topic_alias_maximum topic_alias maximum_qos retain_available : ℕ → MqttProperty
  user_property : Bytes → Bytes → MqttProperty
  maximum_packet_size wildcard_subscription_available : ℕ → MqttProperty
  subscription_identifier_available shared_subscription_available : ℕ → MqttProperty

pub record Will : Type 0 where
  pub qos : QoS
  pub retain : Bool
  pub properties : List MqttProperty
  pub topic : Bytes
  pub payload : Bytes

pub record ConnectPacket : Type 0 where
  pub clean_start : Bool
  pub keep_alive : ℕ
  pub properties : List MqttProperty
  pub client_id : Bytes
  pub will : Option Will
  pub username : Option Bytes
  pub password : Option Bytes

pub record ConnAckPacket : Type 0 where
  pub session_present : Bool
  pub reason_code : ℕ
  pub properties : List MqttProperty

pub record PublishPacket : Type 0 where
  pub dup : Bool
  pub qos : QoS
  pub retain : Bool
  pub topic_name : Bytes
  pub packet_id : Option ℕ
  pub properties : List MqttProperty
  pub payload : Bytes

pub record AckPacket : Type 0 where
  pub packet_id : ℕ
  pub reason_code : ℕ
  pub properties : List MqttProperty

abbrev pub new_ack : ℕ → ℕ → AckPacket
new_ack packet_id reason_code = record {
  packet_id = packet_id;
  reason_code = reason_code;
  properties = [];
}

pub record SubscriptionOptions : Type 0 where
  pub maximum_qos : QoS
  pub no_local : Bool
  pub retain_as_published : Bool
  pub retain_handling : ℕ

abbrev pub default_options : SubscriptionOptions
default_options = record {
  maximum_qos = at_most_once;
  no_local = false;
  retain_as_published = false;
  retain_handling = 0;
}

pub record Subscription : Type 0 where
  pub topic_filter : Bytes
  pub options : SubscriptionOptions

pub record SubscribePacket : Type 0 where
  pub packet_id : ℕ
  pub properties : List MqttProperty
  pub subscriptions : List Subscription

-- `SubAckPacket` and `UnsubAckPacket` have the same fields, and so do `DisconnectPacket` and
-- `AuthPacket`.
pub record SubAckPacket : Type 0 where
  pub packet_id : ℕ
  pub properties : List MqttProperty
  pub reason_codes : Bytes

pub record UnsubscribePacket : Type 0 where
  pub packet_id : ℕ
  pub properties : List MqttProperty
  pub topic_filters : List Bytes

pub record UnsubAckPacket : Type 0 where
  pub packet_id : ℕ
  pub properties : List MqttProperty
  pub reason_codes : Bytes

pub record DisconnectPacket : Type 0 where
  pub reason_code : ℕ
  pub properties : List MqttProperty

pub record AuthPacket : Type 0 where
  pub reason_code : ℕ
  pub properties : List MqttProperty

pub data MqttPacket : Type 0 where
  connect : ConnectPacket → MqttPacket
  conn_ack : ConnAckPacket → MqttPacket
  publish : PublishPacket → MqttPacket
  pub_ack pub_rec pub_rel pub_comp : AckPacket → MqttPacket
  subscribe : SubscribePacket → MqttPacket
  sub_ack : SubAckPacket → MqttPacket
  unsubscribe : UnsubscribePacket → MqttPacket
  unsub_ack : UnsubAckPacket → MqttPacket
  ping_req ping_resp : MqttPacket
  disconnect : DisconnectPacket → MqttPacket
  auth : AuthPacket → MqttPacket
