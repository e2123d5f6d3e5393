-- ===== src/Mqtt/Connect.antt =====
-- CONNECT: `decode_connect` and `encode_connect` of src/codec/mqtt.rs.
pub mod Flags
pub mod RoundTrip
use rs_netty.Common.{
  ℕ, ◌/◌, ◌*◌, ◌^◌, Bool, true, false, not, ◌&&◌, ◌||◌, Option, none, some, List, [], ◌∷◌, ◌==◌,
  ◌!=◌, if◌then◌else◌, bit_and, bit_or,
}
use rs_netty.Common.Bytes.{Bytes}
use rs_netty.Mqtt.Types.{
  QoS, at_most_once, at_least_once, exactly_once, from_u8, as_u8, mqtt_level_5, Will, ConnectPacket,
  MqttProperty,
}
use rs_netty.Mqtt.Reader
use rs_netty.Mqtt.Reader.{
  M, ◌>>=◌, ◌>>◌, pure, lift, read_u8, read_u16, read_utf8_string, read_binary_data,
}
use rs_netty.Mqtt.Property.{read_properties, write_properties}
use rs_netty.Mqtt.Writer
use rs_netty.Mqtt.Writer.{Put, ◌⨾◌, done, write_u8, write_u16, write_utf8_string, write_binary_data}

abbrev pub bytes_eq : Bytes → Bytes → Bool
bytes_eq [] [] = true
bytes_eq (x ∷ xs) (y ∷ ys) = x == y && bytes_eq xs ys
bytes_eq _ _ = false

-- "MQTT"
abbrev pub protocol_name : Bytes
protocol_name = 0x4d ∷ 0x51 ∷ 0x54 ∷ 0x54 ∷ []

abbrev pub is_at_most_once : QoS → Bool
is_at_most_once at_most_once = true
is_at_most_once _ = false

-- `flags & mask != 0`
abbrev pub has : ℕ → ℕ → Bool
has flags mask = bit_and flags mask != 0

-- `if test { Some(read()?) } else { None }`
abbrev pub when : {A : Type 0} → Bool → M A → M (Option A)
when true m = m >>= λ x. pure (some x)
when false m = pure none

unfoldable pub read_will : QoS → Bool → M Will
read_will qos retain = do
  properties ← read_properties
  topic ← read_utf8_string
  payload ← read_binary_data
  pure (record {
    qos = qos;
    retain = retain;
    properties = properties;
    topic = topic;
    payload = payload;
  })

-- What follows the flags: the variable header and the payload.
unfoldable pub decode_connect_fields : ℕ → QoS → M ConnectPacket
unfolding read_will
decode_connect_fields flags will_qos = do
  let username_flag = has flags 0x80
  let password_flag = has flags 0x40
  let will_retain = has flags 0x20
  let will_flag = has flags 0x04
  let clean_start = has flags 0x02
  Reader.refuse_if (not will_flag && (will_retain || not (is_at_most_once will_qos)))
      "MQTT CONNECT will flags set without will flag"
  Reader.refuse_if (password_flag && not username_flag)
      "MQTT CONNECT password flag set without username flag"
  keep_alive ← read_u16
  properties ← read_properties
  client_id ← read_utf8_string
  will ← when will_flag (read_will will_qos will_retain)
  username ← when username_flag read_utf8_string
  password ← when password_flag read_binary_data
  pure (record {
    clean_start = clean_start;
    keep_alive = keep_alive;
    properties = properties;
    client_id = client_id;
    will = will;
    username = username;
    password = password;
  })

unfoldable pub decode_connect : M ConnectPacket
decode_connect = do
  name ← read_utf8_string
  Reader.refuse_if (not (bytes_eq name protocol_name)) "invalid MQTT protocol name: {protocol_name}"
  protocol_level ← read_u8
  Reader.refuse_if (protocol_level != mqtt_level_5)
      "unsupported MQTT protocol level: {protocol_level}"
  flags ← read_u8
  Reader.refuse_if (has flags 0x01) "MQTT CONNECT reserved flag must be zero"
  will_qos ← lift (from_u8 (bit_and (flags / 2 ^ 3) 0x03))
  decode_connect_fields flags will_qos

-- `if test { flags |= mask }`
abbrev pub set_if : Bool → ℕ → ℕ → ℕ
set_if true mask flags = bit_or flags mask
set_if false mask flags = flags

abbrev pub is_some {ℓ} : {A : Type ℓ} → Option A → Bool
is_some none = false
is_some (some a) = true

abbrev pub will_flags : Option Will → ℕ → ℕ
will_flags none flags = flags
will_flags (some will) flags =
    set_if will.retain 0x20 (bit_or (bit_or flags 0x04) (as_u8 will.qos * 2 ^ 3))

unfoldable pub connect_flags : ConnectPacket → ℕ
connect_flags packet = set_if packet.clean_start 0x02 (
    will_flags packet.will
      (set_if (is_some packet.password) 0x40 (set_if (is_some packet.username) 0x80 0)))

unfoldable pub write_will : Option Will → Put
write_will none = done
write_will (some will) =
    write_properties will.properties ⨾ write_utf8_string will.topic ⨾ write_binary_data will.payload

-- `if let Some(value) = option { write(value)? }`
abbrev pub write_some : (Bytes → Put) → Option Bytes → Put
write_some write none = done
write_some write (some value) = write value

unfoldable pub encode_connect : ConnectPacket → Put
encode_connect packet =
    Writer.refuse_if (is_some packet.password && not (is_some packet.username))
      "MQTT CONNECT password requires username"
    ⨾ write_utf8_string protocol_name
    ⨾ write_u8 mqtt_level_5
    ⨾ write_u8 (connect_flags packet)
    ⨾ write_u16 packet.keep_alive
    ⨾ write_properties packet.properties
    ⨾ write_utf8_string packet.client_id
    ⨾ write_will packet.will
    ⨾ write_some write_utf8_string packet.username
    ⨾ write_some write_binary_data packet.password
