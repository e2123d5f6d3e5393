-- ===== src/Examples/Messages.antt =====
-- WebSocket messages at concrete inputs.
use rs_netty.Common.{◌≡◌, refl, true, false, none, some, List, [], ◌∷◌, ◌++◌, arith}
use rs_netty.Common.Bytes.{Bytes}
use rs_netty.Error.{ok}
use rs_netty.Utf8.{is_utf8}
use rs_netty.Codec.Framing.{Agree, IsSettled, reads, read_all, concat}
use rs_netty.Codec.Framing.Sent.{encode_all, sent}
use rs_netty.WebSocket.Stream
use rs_netty.WebSocket.Stream.{messages_arrive}
use rs_netty.WebSocket.{
  ping, encode_frame, encode_control_frame, WebSocketMessage, text, close, valid_close_code,
  decode_websocket_frame, encode_message,
}
use rs_netty.WebSocket.Frame.{frame_bytes}
use rs_netty.WebSocket.Laws.{decode, messages_stable}
use rs_netty.WebSocket.RoundTrip.{IsCarried, masked_frame_read, message_round_trip}

abbrev hi : WebSocketMessage
hi = text (104 ∷ 105 ∷ [])

hi-IsCarried : IsCarried 64 hi
unfolding is_utf8
hi-IsCarried = (refl, (omega arith, (omega arith, tt)), omega arith, omega arith)

abbrev bye : WebSocketMessage
bye = close (some (record { code = 1000; reason = 98 ∷ [] }))

bye-IsCarried : IsCarried 64 bye
unfolding is_utf8 valid_close_code
bye-IsCarried = (
  (refl, refl, omega arith),
  (omega arith, (omega arith, (omega arith, tt))),
  omega arith,
  omega arith,
)

abbrev key : Bytes
key = 55 ∷ 250 ∷ 33 ∷ 61 ∷ []

masked_frame_read_example :
    decode_websocket_frame 64 true (frame_bytes (some key) hi ++ 129 ∷ [])
    ≡ (ok (some hi), 129 ∷ [])
masked_frame_read_example =
    masked_frame_read 64 true key hi (129 ∷ [])
      (refl, (omega arith, (omega arith, (omega arith, (omega arith, tt))))) hi-IsCarried

message_round_trip_example :
    (encode_message bye [] ≡ (ok tt, [] ++ frame_bytes none bye))
    × (decode_websocket_frame 64 false (frame_bytes none bye ++ 129 ∷ [])
        ≡ (ok (some bye), 129 ∷ []))
message_round_trip_example = message_round_trip 64 bye [] (129 ∷ []) bye-IsCarried

-- A ping without a payload, in two parts, and the start of a text.
abbrev chunks : List Bytes
chunks = (137 ∷ []) ∷ (128 ∷ 1 ∷ 2 ∷ 3 ∷ 4 ∷ 129 ∷ []) ∷ []

messages_stable_example :
    Agree
      (reads (decode 64 true) (read_all (decode 64 true) tt []) chunks)
      (read_all (decode 64 true) tt (concat chunks))
    × IsSettled (read_all (decode 64 true) tt (concat chunks))
messages_stable_example = messages_stable 64 true chunks

-- "hi" and a ping without a payload, cut in the first header.
abbrev hi_chunks : List Bytes
hi_chunks = (129 ∷ []) ∷ (2 ∷ 104 ∷ 105 ∷ 137 ∷ 0 ∷ []) ∷ []

abbrev hi_ping : List WebSocketMessage
hi_ping = hi ∷ ping [] ∷ []

hi_ping-sent : concat hi_chunks ≡ encode_all Stream.encode tt hi_ping []
unfolding encode_message encode_frame encode_control_frame
hi_ping-sent = refl

messages_arrive_example :
    reads (decode 64 false) (read_all (decode 64 false) tt []) hi_chunks ≡ sent tt hi_ping
messages_arrive_example =
    messages_arrive 64 hi_ping hi_chunks
      (hi-IsCarried, ((omega arith, tt, omega arith, omega arith), tt)) hi_ping-sent
