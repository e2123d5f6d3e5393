-- ===== src/WebSocket/Stream.antt =====
-- A stream of the messages of src/codec/websocket.rs, encoded and decoded.
use rs_netty.Common.{ℕ, ◌≡◌, refl, ap, false, none, some, All, List, [], ◌++◌}
use rs_netty.Common.Bytes.{Bytes}
use rs_netty.Error.{Result, ok}
use rs_netty.Codec.Framing.{reads, read_all, concat}
use rs_netty.Codec.Framing.Sent.{encode_all, sent, reads-sent}
use rs_netty.WebSocket.{WebSocketMessage, encode_message, decode_websocket_frame}
use rs_netty.WebSocket.Frame.{frame_bytes}
use rs_netty.WebSocket.Laws.{decode, decode-IsFraming}
use rs_netty.WebSocket.RoundTrip.{IsCarried, message_round_trip}

abbrev pub encode : Unit {0} → WebSocketMessage → Bytes → Result (Unit {0}) × Bytes
encode u m dst = encode_message m dst

decode-frame :
    (max : ℕ) (m : WebSocketMessage) (rest : Bytes)
    → IsCarried max m
    → decode max false tt (frame_bytes none m ++ rest) ≡ (ok (some m), tt, rest)
unfolding decode
decode-frame max m rest h = rw ((message_round_trip max m [] rest h).1)

decode-nothing : (max : ℕ) → decode max false tt [] ≡ (ok none, tt, [])
unfolding decode decode_websocket_frame
decode-nothing max = refl

-- Messages that RFC 6455 allows, whose payloads are of bytes, shorter than 2 ^ 63 and within the limit,
-- are encoded one after the other into a buffer. When its bytes arrive in any chunks at a decoder that
-- does not require masks, they are decoded to the same messages in the same order, with nothing left
-- over.
pub messages_arrive :
    (max : ℕ) (ms : List WebSocketMessage) (chunks : List Bytes)
    → All (IsCarried max) ms
    → concat chunks ≡ encode_all encode tt ms []
    → reads (decode max false) (read_all (decode max false) tt []) chunks ≡ sent tt ms
messages_arrive max ms chunks h e =
    reads-sent (decode max false) (λ u. Unit) (decode-IsFraming max false) tt tt encode
      (frame_bytes none) (IsCarried max) (λ m rest k. decode-frame max m rest k)
      (λ m dst k. ap (λ r. r.1) (message_round_trip max m dst [] k).0) (decode-nothing max) ms
      chunks h e
