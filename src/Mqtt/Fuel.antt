-- ===== src/Mqtt/Fuel.antt =====
-- The loops of src/codec/mqtt.rs over properties, subscriptions and topic filters do not run out of fuel.
use rs_netty.Mqtt.Connect.{has}
use rs_netty.Common.{◌||◌, ◌/◌, ◌^◌, bit_and, ℕ, ◌≤◌, ◌<◌, ◌≡◌, ◌≢◌, ◌==◌, refl, ap, ◌∙◌, arith}
use rs_netty.Common.Bytes.{Bytes}
use rs_netty.Error.{Result, no_fuel, ok, err}
use rs_netty.Mqtt.Types.{
  from_u8, MqttProperty, payload_format_indicator, message_expiry_interval, content_type,
  response_topic, correlation_data, subscription_identifier, session_expiry_interval,
  assigned_client_identifier, server_keep_alive, authentication_method, authentication_data,
  request_problem_information, will_delay_interval, request_response_information,
  response_information, server_reference, reason_string, receive_maximum, topic_alias_maximum,
  topic_alias, maximum_qos, retain_available, user_property, maximum_packet_size,
  wildcard_subscription_available, subscription_identifier_available, shared_subscription_available,
}
use rs_netty.Mqtt.Reader.{
  Reader, M, ◌>>=◌, pure, lift, refuse_if, remaining, read_u8, read_u16, read_u32, read_utf8_string,
  read_binary_data, read_variable_integer, read_many, read_while_remaining,
}
use rs_netty.Mqtt.Reader.Fuel.{
  Takes, Takes-bind, Takes-pure, Takes-fail, Takes-lift, Takes-less, Takes-one, Takes-if,
  Takes-refuse_if, Takes-read_u8, Takes-read_u16, Takes-read_u32, Takes-read_utf8_string,
  Takes-read_binary_data, Takes-read_variable_integer, read_many_fuel, read_many-answers,
}
use rs_netty.Mqtt.Property.{decode_value, decode_property}
use rs_netty.Mqtt.Subscribe.{decode_options, decode_subscription}

module _ {A : Type 0} where
  one : {B : Type 0} {k : ℕ} (m : M A) (f : A → B) → Takes k m → Takes 0 (m >>= λ v. pure (f v))
  one {k = k} m f t = Takes-bind m _ (Takes-less k m t) (λ v. Takes-pure _)

one-u8 : (f : ℕ → MqttProperty) → Takes 0 (read_u8 >>= λ v. pure (f v))
one-u8 f = one read_u8 f Takes-read_u8

one-u16 : (f : ℕ → MqttProperty) → Takes 0 (read_u16 >>= λ v. pure (f v))
one-u16 f = one read_u16 f Takes-read_u16

one-u32 : (f : ℕ → MqttProperty) → Takes 0 (read_u32 >>= λ v. pure (f v))
one-u32 f = one read_u32 f Takes-read_u32

one-utf8_string : (f : Bytes → MqttProperty) → Takes 0 (read_utf8_string >>= λ v. pure (f v))
one-utf8_string f = one read_utf8_string f Takes-read_utf8_string

one-binary_data : (f : Bytes → MqttProperty) → Takes 0 (read_binary_data >>= λ v. pure (f v))
one-binary_data f = one read_binary_data f Takes-read_binary_data

one-variable_integer : (f : ℕ → MqttProperty) → Takes 0 (read_variable_integer >>= λ v. pure (f v))
one-variable_integer f = one read_variable_integer f Takes-read_variable_integer

Takes-decode_value : (id : ℕ) → Takes 0 (decode_value id)
unfolding decode_value
Takes-decode_value id =
    (Takes-if 0 (id == 0x01) _ _ (one-u8 payload_format_indicator) (
      Takes-if 0 (id == 0x02) _ _ (one-u32 message_expiry_interval) (
        Takes-if 0 (id == 0x03) _ _ (one-utf8_string content_type) (
          Takes-if 0 (id == 0x08) _ _ (one-utf8_string response_topic) (
            Takes-if 0 (id == 0x09) _ _ (one-binary_data correlation_data) (
              Takes-if 0 (id == 0x0b) _ _ (one-variable_integer subscription_identifier) (
                Takes-if 0 (id == 0x11) _ _ (one-u32 session_expiry_interval) (
                  Takes-if 0 (id == 0x12) _ _ (one-utf8_string assigned_client_identifier) (
                    Takes-if 0 (id == 0x13) _ _ (one-u16 server_keep_alive) (
                      Takes-if 0 (id == 0x15) _ _ (one-utf8_string authentication_method) (
                        Takes-if 0 (id == 0x16) _ _ (one-binary_data authentication_data) (
                          Takes-if 0 (id == 0x17) _ _ (one-u8 request_problem_information) (
                            Takes-if 0 (id == 0x18) _ _ (one-u32 will_delay_interval) (
                              Takes-if 0 (id == 0x19) _ _ (one-u8 request_response_information) (
                                Takes-if 0 (id == 0x1a) _ _ (one-utf8_string response_information) (
                                  Takes-if 0 (id == 0x1c) _ _ (one-utf8_string server_reference) (
                                    Takes-if 0 (id == 0x1f) _ _ (one-utf8_string reason_string) (
                                      Takes-if 0 (id == 0x21) _ _ (one-u16 receive_maximum) (
                                        Takes-if 0 (id == 0x22) _ _ (one-u16 topic_alias_maximum) (
                                          Takes-if 0 (id == 0x23) _ _ (one-u16 topic_alias) (
                                            Takes-if 0 (id == 0x24) _ _ (one-u8 maximum_qos) (
                                              Takes-if 0 (id == 0x25) _ _ (one-u8 retain_available)
                                                (Takes-if 0 (id == 0x26) _ _
                                                  (Takes-bind _ _
                                                    (Takes-less 2 _ Takes-read_utf8_string)
                                                    (λ k. one-utf8_string (user_property k)))
                                                  (Takes-if 0 (id == 0x27) _ _
                                                    (one-u32 maximum_packet_size)
                                                    (Takes-if 0 (id == 0x28) _ _
                                                      (one-u8 wildcard_subscription_available)
                                                      (Takes-if 0 (id == 0x29) _ _
                                                        (one-u8 subscription_identifier_available)
                                                        (Takes-if 0 (id == 0x2a) _ _
                                                          (one-u8 shared_subscription_available)
                                                          (Takes-fail 0 _ (λ e.
                                                            ground
                                                            arith)))))))))))))))))))))))))))))

Takes-decode_property : Takes 1 decode_property
unfolding decode_property
Takes-decode_property = Takes-bind _ _ Takes-read_variable_integer (λ id. Takes-decode_value _)

qos-answers : (value : ℕ) → from_u8 value ≢ err no_fuel
unfolding from_u8
qos-answers value = λ e. ground arith

Takes-decode_options : (byte : ℕ) → Takes 0 (decode_options byte)
unfolding decode_options
Takes-decode_options byte =
    Takes-bind
      (refuse_if (has byte 0xc0 || (bit_and (byte / 2 ^ 4) 0x03 == 3))
        "invalid MQTT SUBSCRIBE options")
      _ (Takes-refuse_if _ _)
      (λ u.
        Takes-bind (lift (from_u8 (bit_and byte 0x03))) _ (Takes-lift _ (qos-answers _))
          (λ qos. Takes-pure _))

Takes-decode_subscription : Takes 1 decode_subscription
unfolding decode_subscription
Takes-decode_subscription = Takes-one _ (
    Takes-bind _ _ Takes-read_utf8_string (λ topic.
      Takes-bind _ _ (Takes-less 1 _ Takes-read_u8)
        (λ byte. Takes-bind _ _ (Takes-decode_options byte) (λ o. Takes-pure _))))

-- The read of an item takes a byte at least, or fails with an error of the program.
abbrev pub TakesByte : {A : Type 0} → Reader → Result (A × Reader) → Type 0
TakesByte self (ok (x, r)) = remaining r < remaining self
TakesByte self (err e) = e ≢ no_fuel

-- The item takes a byte; the loop over such items, whose fuel is the bytes that remain, does not run out
-- of it, and gives the same with more.
abbrev pub HasFuel : {A : Type 0} → M A → ℕ → Reader → Type 0
HasFuel item fuel self =
    TakesByte self (item self)
    × (read_while_remaining item self ≢ err no_fuel)
    × (read_while_remaining item self ≡ read_many item fuel self)

module _ {A : Type 0} (item : M A) (takes : Takes 1 item) where
  takes_byte : (self : Reader) → TakesByte self (item self)
  takes_byte self = go (item self) refl
    where
      go : (d : Result (A × Reader)) → item self ≡ d → TakesByte self d
      go (ok (x, r)) e = omega (arith, takes.least self e)
      go (err x) e = λ same. takes.answers self (e ∙ ap err same)

  has_fuel : (fuel : ℕ) (self : Reader) → remaining self ≤ fuel → HasFuel item fuel self
  unfolding read_while_remaining
  has_fuel fuel self h = (
    takes_byte self,
    read_many-answers item takes (remaining self) self (omega arith),
    read_many_fuel item takes (remaining self) fuel self (omega arith) h,
  )

-- At any reader, the read of a property, of a subscription and of a topic filter takes a byte or fails with
-- an error of the program. So the loops over the properties of a section, the subscriptions of SUBSCRIBE and
-- the topic filters of UNSUBSCRIBE never stop for want of fuel, and give the same with more.
pub loops_have_fuel :
    (fuel : ℕ) (self : Reader)
    → remaining self ≤ fuel
    → HasFuel decode_property fuel self
      × HasFuel decode_subscription fuel self
      × HasFuel read_utf8_string fuel self
loops_have_fuel fuel self h = (
  has_fuel decode_property Takes-decode_property fuel self h,
  has_fuel decode_subscription Takes-decode_subscription fuel self h,
  has_fuel read_utf8_string (Takes-one _ Takes-read_utf8_string) fuel self h,
)
