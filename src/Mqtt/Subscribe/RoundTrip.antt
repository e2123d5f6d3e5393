-- ===== src/Mqtt/Subscribe/RoundTrip.antt =====
-- SUBSCRIBE and UNSUBSCRIBE packets that were written are read back.
use rs_netty.Common.{
  ℕ, zero, suc, ◌+◌, ◌≤◌, ◌<◌, ◌≡◌, ◌≢◌, refl, Bool, true, false, List, [], ◌∷◌, ◌++◌, length,
  arith, All, le→ltb,
}
use rs_netty.Common.Bytes.{Bytes, to_be_bytes}
use rs_netty.Error.{ok}
use rs_netty.Mqtt.Types.{
  QoS, at_most_once, from_u8, Subscription, SubscriptionOptions, SubscribePacket, UnsubscribePacket,
}
use rs_netty.Mqtt.Reader.{Reader, read_utf8_string}
use rs_netty.Mqtt.Reader.Reads.{
  Reads, ReadsAll, Reads-bind, Reads-end, Reads-map, ReadsAll-bind, ReadsAll-end, Reads-read_u8,
  Reads-read_utf8_string, prefixed,
}
use rs_netty.Mqtt.Reader.Many.{bytes_of_all, ReadsAll-read_while_remaining}
use rs_netty.Mqtt.Writer.{
  Put, Writes, Writes-then, Writes-done, Writes-refuse_if, Writes-write_u8, Writes-write_u16,
  Writes-write_utf8_string,
}
use rs_netty.Mqtt.Property.Wire.{IsText}
use rs_netty.Mqtt.Property.RoundTrip.{
  AllFit, section_bytes, Reads-read_properties, Writes-write_properties,
}
use rs_netty.Mqtt.Publish.RoundTrip.{IsId, Reads-read_packet_id, Writes-ensure_nonzero}
use rs_netty.Mqtt.Acks.{is_empty}
use rs_netty.Mqtt.Subscribe.{
  decode_options, decode_subscription, decode_subscribe, encode_options, encode_subscription,
  encode_subscribe, decode_unsubscribe, encode_unsubscribe, write_all,
}

abbrev options_of : QoS → Bool → Bool → ℕ → SubscriptionOptions
options_of qos no_local retain_as_published retain_handling = record {
  maximum_qos = qos;
  no_local = no_local;
  retain_as_published = retain_as_published;
  retain_handling = retain_handling;
}

-- Every combination of valid options, by evaluation.
options_read :
    (qos : QoS) (no_local retain_as_published : Bool) (retain_handling : ℕ) (r : Reader)
    → retain_handling ≤ 2
    → decode_options
        (encode_options (options_of qos no_local retain_as_published retain_handling))
        r
      ≡ ok (options_of qos no_local retain_as_published retain_handling, r)
unfolding decode_options encode_options from_u8
options_read at_most_once true true zero r h = refl
options_read _ true true zero r h = refl
options_read at_most_once true true (suc zero) r h = refl
options_read _ true true (suc zero) r h = refl
options_read at_most_once true true (suc (suc zero)) r h = refl
options_read _ true true (suc (suc zero)) r h = refl
options_read at_most_once true false zero r h = refl
options_read _ true false zero r h = refl
options_read at_most_once true false (suc zero) r h = refl
options_read _ true false (suc zero) r h = refl
options_read at_most_once true false (suc (suc zero)) r h = refl
options_read _ true false (suc (suc zero)) r h = refl
options_read at_most_once false true zero r h = refl
options_read _ false true zero r h = refl
options_read at_most_once false true (suc zero) r h = refl
options_read _ false true (suc zero) r h = refl
options_read at_most_once false true (suc (suc zero)) r h = refl
options_read _ false true (suc (suc zero)) r h = refl
options_read at_most_once false false zero r h = refl
options_read _ false false zero r h = refl
options_read at_most_once false false (suc zero) r h = refl
options_read _ false false (suc zero) r h = refl
options_read at_most_once false false (suc (suc zero)) r h = refl
options_read _ false false (suc (suc zero)) r h = refl
options_read _ _ _ (suc (suc (suc n))) r h = absurd (omega arith)

abbrev pub IsSubscription : Subscription → Type 0
IsSubscription s = IsText s.topic_filter × (s.options.retain_handling ≤ 2)

unfoldable pub subscription_bytes : Subscription → Bytes
subscription_bytes s = prefixed s.topic_filter ++ encode_options s.options ∷ []

Reads-decode_options :
    (o : SubscriptionOptions)
    → o.retain_handling ≤ 2
    → Reads (decode_options (encode_options o)) [] o
Reads-decode_options o h = record {
  run = λ src rest pos u e.
      let same : pos ≡ pos + 0 = omega arith in
      rw
        (options_read o.maximum_qos o.no_local o.retain_as_published o.retain_handling _ h, ← same);
}

Reads-decode_subscription :
    (s : Subscription) → IsSubscription s → Reads decode_subscription (subscription_bytes s) s
unfolding decode_subscription subscription_bytes
Reads-decode_subscription s h = Reads-bind _ (Reads-read_utf8_string s.topic_filter h.0.0 h.0.1) (
    Reads-end _ (Reads-read_u8 (encode_options s.options)) (
      Reads-map (λ o. record { topic_filter = s.topic_filter; options = o })
        (Reads-decode_options s.options h.1)))

Writes-encode_subscription :
    (s : Subscription) → IsSubscription s → Writes (encode_subscription s) (subscription_bytes s)
unfolding encode_subscription subscription_bytes
Writes-encode_subscription s h =
    Writes-then (Writes-refuse_if _ _ (le→ltb 2 s.options.retain_handling h.1)) (
      Writes-then (Writes-write_utf8_string s.topic_filter h.0.0)
        (Writes-write_u8 (encode_options s.options)))

module _ {A : Type 0} (write : A → Put) (bytes_of : A → Bytes) (P : A → Type 0)
    (writes : (x : A) → P x → Writes (write x) (bytes_of x)) where
  Writes-write_all :
      (xs : List A) → All P xs → Writes (write_all write xs) (bytes_of_all bytes_of xs)
  Writes-write_all [] h = Writes-done
  Writes-write_all (x ∷ xs) h = Writes-then (writes x h.0) (Writes-write_all xs h.1)

subscription-nonempty : (s : Subscription) → IsSubscription s → 0 < length (subscription_bytes s)
unfolding subscription_bytes
subscription-nonempty s h = omega arith

not_empty {ℓ} : {A : Type ℓ} (xs : List A) → xs ≢ [] → is_empty xs ≡ false
not_empty [] h = absurd (h refl)
not_empty (c ∷ xs) h = refl

pub record IsSubscribe (packet : SubscribePacket) : Type 0 where
  pub id : IsId packet.packet_id
  pub fit : AllFit packet.properties
  pub each : All IsSubscription packet.subscriptions
  pub some_item : packet.subscriptions ≢ []

unfoldable pub subscribe_bytes : SubscribePacket → Bytes
subscribe_bytes packet =
    to_be_bytes 2 packet.packet_id
    ++ (section_bytes packet.properties ++ bytes_of_all subscription_bytes packet.subscriptions)

pub ReadsAll-decode_subscribe :
    (packet : SubscribePacket)
    → IsSubscribe packet
    → ReadsAll decode_subscribe (subscribe_bytes packet) packet
unfolding decode_subscribe subscribe_bytes
ReadsAll-decode_subscribe packet h = ReadsAll-bind _ (Reads-read_packet_id packet.packet_id h.id) (
    ReadsAll-bind _ (Reads-read_properties packet.properties h.fit) (
      ReadsAll-end _
        (ReadsAll-read_while_remaining decode_subscription subscription_bytes IsSubscription
          Reads-decode_subscription subscription-nonempty packet.subscriptions h.each)
        (λ r. rw (not_empty packet.subscriptions h.some_item))))

pub Writes-encode_subscribe :
    (packet : SubscribePacket)
    → IsSubscribe packet
    → Writes (encode_subscribe packet) (subscribe_bytes packet)
unfolding encode_subscribe subscribe_bytes
Writes-encode_subscribe packet h =
    Writes-then (Writes-refuse_if _ _ (not_empty packet.subscriptions h.some_item)) (
      Writes-then (Writes-ensure_nonzero packet.packet_id h.id) (
        Writes-then (Writes-write_u16 packet.packet_id) (
          Writes-then (Writes-write_properties packet.properties h.fit) (
            Writes-write_all encode_subscription subscription_bytes IsSubscription
              Writes-encode_subscription packet.subscriptions h.each))))

pub record IsUnsubscribe (packet : UnsubscribePacket) : Type 0 where
  pub id : IsId packet.packet_id
  pub fit : AllFit packet.properties
  pub each : All IsText packet.topic_filters
  pub some_item : packet.topic_filters ≢ []

unfoldable pub unsubscribe_bytes : UnsubscribePacket → Bytes
unsubscribe_bytes packet =
    to_be_bytes 2 packet.packet_id
    ++ (section_bytes packet.properties ++ bytes_of_all prefixed packet.topic_filters)

pub ReadsAll-decode_unsubscribe :
    (packet : UnsubscribePacket)
    → IsUnsubscribe packet
    → ReadsAll decode_unsubscribe (unsubscribe_bytes packet) packet
unfolding decode_unsubscribe unsubscribe_bytes
ReadsAll-decode_unsubscribe packet h =
    ReadsAll-bind _ (Reads-read_packet_id packet.packet_id h.id) (
      ReadsAll-bind _ (Reads-read_properties packet.properties h.fit) (
        ReadsAll-end _
          (ReadsAll-read_while_remaining read_utf8_string prefixed IsText
            (λ s t. Reads-read_utf8_string s t.0 t.1) (λ s t. omega arith) packet.topic_filters
            h.each)
          (λ r. rw (not_empty packet.topic_filters h.some_item))))

pub Writes-encode_unsubscribe :
    (packet : UnsubscribePacket)
    → IsUnsubscribe packet
    → Writes (encode_unsubscribe packet) (unsubscribe_bytes packet)
unfolding encode_unsubscribe unsubscribe_bytes
Writes-encode_unsubscribe packet h =
    Writes-then (Writes-refuse_if _ _ (not_empty packet.topic_filters h.some_item)) (
      Writes-then (Writes-ensure_nonzero packet.packet_id h.id) (
        Writes-then (Writes-write_u16 packet.packet_id) (
          Writes-then (Writes-write_properties packet.properties h.fit) (
            Writes-write_all _ prefixed IsText (λ s t. Writes-write_utf8_string s t.0)
              packet.topic_filters h.each))))
