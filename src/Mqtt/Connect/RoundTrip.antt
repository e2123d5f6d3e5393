-- ===== src/Mqtt/Connect/RoundTrip.antt =====
-- A CONNECT packet that was written is read back.
use rs_netty.Common.{
  ◌/◌, ◌^◌, ◌<◌, ◌≡◌, refl, ap, Bool, false, not, ◌&&◌, ◌||◌, Option, none, some, [], ◌∷◌, ◌++◌,
  length, bit_and, arith,
}
use rs_netty.Common.Bytes.{Bytes, to_be_bytes}
use rs_netty.Utf8.{is_utf8}
use rs_netty.Mqtt.Types.{QoS, at_most_once, from_u8, as_u8, mqtt_level_5, Will, ConnectPacket}
use rs_netty.Mqtt.Reader.{read_utf8_string, read_binary_data}
use rs_netty.Mqtt.Reader.Reads.{
  Reads, ReadsAll, Reads-ReadsAll, Reads-bind, Reads-map, Reads-pure, Reads-refuse_if, Reads-lift,
  Reads-read_u8, Reads-read_u16, Reads-read_utf8_string, Reads-read_binary_data, prefixed,
}
use rs_netty.Mqtt.Writer.{
  Writes, Writes-then, Writes-done, Writes-refuse_if, Writes-write_u8, Writes-write_u16,
  Writes-write_utf8_string, Writes-write_binary_data, write_utf8_string, write_binary_data,
}
use rs_netty.Mqtt.Property.Wire.{IsText}
use rs_netty.Mqtt.Property.RoundTrip.{
  AllFit, section_bytes, Reads-read_properties, Writes-write_properties,
}
use rs_netty.Mqtt.Publish.RoundTrip.{from_u8-as_u8}
use rs_netty.Mqtt.Connect.{
  protocol_name, is_at_most_once, when, read_will, decode_connect_fields, decode_connect, set_if,
  is_some, will_flags, connect_flags, write_will, write_some, encode_connect,
}
use rs_netty.Mqtt.Connect.Flags.{flag_view, low_flags, no_will, with_will}

abbrev WillFits : Option Will → Type 0
WillFits none = Unit
WillFits (some w) = AllFit w.properties × IsText w.topic × (length w.payload < 2 ^ 16)

abbrev TextFits : Option Bytes → Type 0
TextFits none = Unit
TextFits (some bs) = IsText bs

abbrev DataFits : Option Bytes → Type 0
DataFits none = Unit
DataFits (some bs) = length bs < 2 ^ 16

pub record IsConnect (packet : ConnectPacket) : Type 0 where
  pub fit : AllFit packet.properties
  pub client : IsText packet.client_id
  pub alive : packet.keep_alive < 2 ^ 16
  pub will : WillFits packet.will
  pub user : TextFits packet.username
  pub pass : DataFits packet.password
  pub named : (is_some packet.password && not (is_some packet.username)) ≡ false

abbrev qos_of : Option Will → QoS
qos_of none = at_most_once
qos_of (some w) = w.qos

abbrev retain_of : Option Will → Bool
retain_of none = false
retain_of (some w) = w.retain

flags_read :
    (packet : ConnectPacket)
    → flag_view (connect_flags packet) ≡ (
      is_some packet.username,
      is_some packet.password,
      is_some packet.will,
      retain_of packet.will,
      packet.clean_start,
      false,
      as_u8 (qos_of packet.will),
    )
unfolding connect_flags
flags_read packet =
    flags_of packet.will (is_some packet.username) (is_some packet.password) packet.clean_start
  where
    flags_of :
        (w : Option Will) (u p c : Bool)
        → flag_view (set_if c 0x02 (will_flags w (low_flags u p)))
          ≡ (u, p, is_some w, retain_of w, c, false, as_u8 (qos_of w))
    flags_of none u p c = no_will u p c
    flags_of (some w) u p c = with_will w.qos u p c w.retain

abbrev option_bytes : Option Bytes → Bytes
option_bytes none = []
option_bytes (some bs) = prefixed bs

abbrev will_bytes : Option Will → Bytes
will_bytes none = []
will_bytes (some w) = section_bytes w.properties ++ (prefixed w.topic ++ prefixed w.payload)

Reads-read_will :
    (w : Option Will)
    → WillFits w
    → Reads (when (is_some w) (read_will (qos_of w) (retain_of w))) (will_bytes w) w
unfolding read_will
Reads-read_will none h = Reads-pure none
Reads-read_will (some w) h = Reads-map some (
    Reads-bind _ (Reads-read_properties w.properties h.0) (
      Reads-bind _ (Reads-read_utf8_string w.topic h.1.0 h.1.1) (
        Reads-map
          (λ payload. record {
            qos = w.qos;
            retain = w.retain;
            properties = w.properties;
            topic = w.topic;
            payload = payload;
          })
          (Reads-read_binary_data w.payload h.2))))

Reads-text :
    (text : Option Bytes)
    → TextFits text
    → Reads (when (is_some text) read_utf8_string) (option_bytes text) text
Reads-text none h = Reads-pure none
Reads-text (some bs) h = Reads-map some (Reads-read_utf8_string bs h.0 h.1)

Reads-data :
    (payload : Option Bytes)
    → DataFits payload
    → Reads (when (is_some payload) read_binary_data) (option_bytes payload) payload
Reads-data none h = Reads-pure none
Reads-data (some bs) h = Reads-map some (Reads-read_binary_data bs h)

abbrev fields_bytes : ConnectPacket → Bytes
fields_bytes packet =
    to_be_bytes 2 packet.keep_alive
    ++ (section_bytes packet.properties
        ++ (prefixed packet.client_id
            ++ (will_bytes packet.will
                ++ (option_bytes packet.username ++ option_bytes packet.password))))

unfoldable pub connect_bytes : ConnectPacket → Bytes
connect_bytes packet =
    prefixed protocol_name ++ (mqtt_level_5 ∷ connect_flags packet ∷ fields_bytes packet)

will_flags_set :
    (w : Option Will)
    → (not (is_some w) && (retain_of w || not (is_at_most_once (qos_of w)))) ≡ false
will_flags_set none = refl
will_flags_set (some w) = refl

Reads-decode_connect_fields :
    (packet : ConnectPacket)
    → IsConnect packet
    → Reads
        (decode_connect_fields (connect_flags packet) (qos_of packet.will))
        (fields_bytes packet)
        packet
unfolding decode_connect_fields
Reads-decode_connect_fields packet h =
    let e = flags_read packet in
    rw (ap (λ v. v.0) e, ap (λ v. v.1) e, ap (λ v. v.2) e, ap (λ v. v.3) e, ap (λ v. v.4) e)
      (Reads-refuse_if _ _ (will_flags_set packet.will) (
        Reads-refuse_if _ _ h.named (
          Reads-bind _ (Reads-read_u16 packet.keep_alive h.alive) (
            Reads-bind _ (Reads-read_properties packet.properties h.fit) (
              Reads-bind _ (Reads-read_utf8_string packet.client_id h.client.0 h.client.1) (
                Reads-bind _ (Reads-read_will packet.will h.will) (
                  Reads-bind _ (Reads-text packet.username h.user) (
                    Reads-map
                      (λ password. record {
                        clean_start = packet.clean_start;
                        keep_alive = packet.keep_alive;
                        properties = packet.properties;
                        client_id = packet.client_id;
                        will = packet.will;
                        username = packet.username;
                        password = password;
                      })
                      (Reads-data packet.password h.pass)))))))))

pub ReadsAll-decode_connect :
    (packet : ConnectPacket)
    → IsConnect packet
    → ReadsAll decode_connect (connect_bytes packet) packet
unfolding decode_connect connect_bytes
ReadsAll-decode_connect packet h =
    let e = flags_read packet in
    Reads-ReadsAll (
      Reads-bind _ (Reads-read_utf8_string protocol_name (omega arith) (unfold is_utf8 in refl)) (
        Reads-bind _ (Reads-read_u8 mqtt_level_5) (
          Reads-bind _ (Reads-read_u8 (connect_flags packet)) (
            Reads-refuse_if _ _ (ap (λ v. v.5) e) (
              Reads-lift (from_u8 (bit_and (connect_flags packet / 2 ^ 3) 0x03)) _
                {x = qos_of packet.will} (rw (ap (λ v. v.6) e) (from_u8-as_u8 (qos_of packet.will)))
                (Reads-decode_connect_fields packet h))))))

Writes-write_will : (w : Option Will) → WillFits w → Writes (write_will w) (will_bytes w)
unfolding write_will
Writes-write_will none h = Writes-done
Writes-write_will (some w) h =
    Writes-then (Writes-write_properties w.properties h.0) (
      Writes-then (Writes-write_utf8_string w.topic h.1.0) (Writes-write_binary_data w.payload h.2))

Writes-text :
    (text : Option Bytes)
    → TextFits text
    → Writes (write_some write_utf8_string text) (option_bytes text)
Writes-text none h = Writes-done
Writes-text (some bs) h = Writes-write_utf8_string bs h.0

Writes-data :
    (payload : Option Bytes)
    → DataFits payload
    → Writes (write_some write_binary_data payload) (option_bytes payload)
Writes-data none h = Writes-done
Writes-data (some bs) h = Writes-write_binary_data bs h

pub Writes-encode_connect :
    (packet : ConnectPacket)
    → IsConnect packet
    → Writes (encode_connect packet) (connect_bytes packet)
unfolding encode_connect connect_bytes
Writes-encode_connect packet h = Writes-then (Writes-refuse_if _ _ h.named) (
    Writes-then (Writes-write_utf8_string protocol_name (omega arith)) (
      Writes-then (Writes-write_u8 mqtt_level_5) (
        Writes-then (Writes-write_u8 (connect_flags packet)) (
          Writes-then (Writes-write_u16 packet.keep_alive) (
            Writes-then (Writes-write_properties packet.properties h.fit) (
              Writes-then (Writes-write_utf8_string packet.client_id h.client.0) (
                Writes-then (Writes-write_will packet.will h.will) (
                  Writes-then (Writes-text packet.username h.user)
                    (Writes-data packet.password h.pass)))))))))
