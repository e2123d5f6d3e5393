-- ===== src/WebSocket.antt =====
-- The frames of src/codec/websocket.rs, after the opening handshake.
pub mod Laws
pub mod Frame
pub mod RoundTrip
pub mod Stream
use rs_netty.Common.{
  ℕ, zero, suc, ◌+◌, ◌*◌, ◌%◌, ◌^◌, Bool, true, false, not, ◌&&◌, ◌||◌, Option, none, some, List,
  [], ◌∷◌, ◌++◌, length, take, drop, get_or, ltb, leb, ◌==◌, ◌!=◌, if◌then◌else◌, bit_and, bit_or,
  bit_xor,
}
use rs_netty.Common.Bytes.{Bytes, to_be_bytes, from_be_bytes}
use rs_netty.Common.Words.{checked_add}
use rs_netty.Error.{Result, ok, err, Error, fmt, ◌>>=◌, ◌>>◌, map_ok, ok_or}
use rs_netty.Utf8.{from_utf8}

pub record WebSocketClose : Type 0 where
  pub code : ℕ
  pub reason : Bytes

pub data WebSocketMessage : Type 0 where
  text binary : Bytes → WebSocketMessage
  close : Option WebSocketClose → WebSocketMessage
  ping pong : Bytes → WebSocketMessage

unfoldable pub validate_payload_len_encoding : ℕ → ℕ → Result (Unit {0})
validate_payload_len_encoding encoded_len_kind payload_len =
    if encoded_len_kind == 126 && ltb payload_len 126
    then err (Error.decode (fmt "websocket payload length is not minimally encoded" []))
    else if encoded_len_kind == 127 && leb payload_len 65535
    then err (Error.decode (fmt "websocket payload length is not minimally encoded" []))
    else if encoded_len_kind == 127 && leb (2 ^ 63) payload_len
    then err (Error.decode (fmt "websocket 64-bit payload length uses the reserved high bit" []))
    else ok tt

abbrev is_control : ℕ → Bool
is_control opcode = leb 0x8 opcode && leb opcode 0xA

unfoldable pub validate_frame_header : Bool → ℕ → ℕ → Bool → ℕ → Bool → Result (Unit {0})
validate_frame_header fin rsv opcode masked payload_len require_mask =
    if require_mask && not masked
    then err (Error.decode (fmt "websocket client frame is not masked" []))
    else if rsv != 0
    then err (Error.decode (fmt "websocket reserved bits are set without an extension" []))
    else if is_control opcode && not fin
    then err (Error.decode (fmt "fragmented websocket control frame" []))
    else if is_control opcode && ltb 125 payload_len
    then err (Error.decode (fmt "websocket control frame payload exceeds 125 bytes" []))
    else if not fin
    then err (Error.decode (fmt "fragmented websocket data frames are not supported yet" []))
    else ok tt

unfoldable pub valid_close_code : ℕ → Bool
valid_close_code code =
    (leb 1000 code && leb code 1003)
    || (leb 1007 code && leb code 1014)
    || (leb 3000 code && leb code 4999)

-- `validate_close_code(code).map_err(..)`
abbrev validate_close_code : (Error) → ℕ → Result (Unit {0})
validate_close_code e code = if valid_close_code code then ok tt else err e

unfoldable pub decode_close : Bytes → Result (Option WebSocketClose)
decode_close [] = ok none
decode_close (b ∷ []) = err (Error.decode (fmt "websocket close payload cannot be one byte" []))
decode_close (b ∷ c ∷ reason) = do
  let code = from_be_bytes (b ∷ c ∷ [])
  validate_close_code
      (Error.decode (fmt "invalid websocket close status code: {message}" (code ∷ []))) code
  reason' ← from_utf8 Error.decode "invalid websocket close reason: {err}" reason
  ok (some (record { code = code; reason = reason' }))

unfoldable pub decode_payload : ℕ → Bytes → Result (Option WebSocketMessage)
decode_payload opcode payload =
    if opcode == 0x1
    then map_ok (λ bs. some (text bs))
        (from_utf8 Error.decode "invalid websocket text frame: {err}" payload)
    else if opcode == 0x2
    then ok (some (binary payload))
    else if opcode == 0x8
    then map_ok (λ c. some (close c)) (decode_close payload)
    else if opcode == 0x9
    then ok (some (ping payload))
    else if opcode == 0xA
    then ok (some (pong payload))
    else err (Error.decode (fmt "unsupported websocket opcode: {opcode}" (opcode ∷ [])))

-- `for (index, byte) in payload.iter_mut().enumerate() { *byte ^= mask[index % 4] }`
unfoldable pub apply_mask : Bytes → ℕ → Bytes → Bytes
apply_mask mask index [] = []
apply_mask mask index (byte ∷ payload) =
    bit_xor byte (get_or mask (index % 4) 0) ∷ apply_mask mask (index + 1) payload

-- The header's length and the payload's; `none` while the extended length is not there yet.
unfoldable pub payload_len_of : Bytes → Option (ℕ × ℕ)
payload_len_of src =
    let kind = bit_and (get_or src 1 0) 0x7f in
    if kind == 126
    then if ltb (length src) 4 then none else some (4, from_be_bytes (take 2 (drop 2 src)))
    else if kind == 127
    then if ltb (length src) 10 then none else some (10, from_be_bytes (take 8 (drop 2 src)))
    else some (2, kind)

abbrev pub is_masked : Bytes → Bool
is_masked src = bit_and (get_or src 1 0) 0x80 != 0

abbrev mask_len : Bytes → ℕ
mask_len src = if is_masked src then 4 else 0

-- The checks that do not wait for the payload: the length of the whole frame. On a 64-bit target
-- `usize::try_from` does not fail.
unfoldable pub frame_len_of : ℕ → Bytes → ℕ → ℕ → Result ℕ
frame_len_of max_frame_len src header_len payload_len = do
  validate_payload_len_encoding (bit_and (get_or src 1 0) 0x7f) payload_len
  if ltb max_frame_len payload_len
      then err (Error.frame_too_large payload_len max_frame_len)
      else (do
        header ←
            ok_or (checked_add header_len (mask_len src))
              (Error.decode (fmt "websocket frame length overflow" []))
        ok_or (checked_add header payload_len)
            (Error.decode (fmt "websocket frame length overflow" [])))

-- The message of a whole frame, once its header is checked.
unfoldable pub frame_message : Bytes → ℕ → ℕ → Result (Option WebSocketMessage)
frame_message frame header_len payload_len =
    let body = drop header_len frame in
    let payload =
      if is_masked frame
      then apply_mask (take 4 body) 0 (take payload_len (drop 4 body))
      else take payload_len body in
    decode_payload (bit_and (get_or frame 0 0) 0x0f) payload

abbrev pub header_of : Bytes → Bool → ℕ → Result (Unit {0})
header_of src require_masked payload_len =
    validate_frame_header (bit_and (get_or src 0 0) 0x80 != 0) (bit_and (get_or src 0 0) 0x70)
      (bit_and (get_or src 0 0) 0x0f) (is_masked src) payload_len require_masked

-- `validate_frame_header(..)?`, then the frame is split off; an error in its payload comes after that.
abbrev pub with_header :
    Bytes → ℕ → ℕ → ℕ → Result (Unit {0}) → Result (Option WebSocketMessage) × Bytes
with_header src header_len payload_len frame_len (err e) = (err e, src)
with_header src header_len payload_len frame_len (ok u) =
    (frame_message (take frame_len src) header_len payload_len, drop frame_len src)

abbrev pub with_frame_len :
    Bool → Bytes → ℕ → ℕ → Result ℕ → Result (Option WebSocketMessage) × Bytes
with_frame_len require_masked src header_len payload_len (err e) = (err e, src)
with_frame_len require_masked src header_len payload_len (ok frame_len) =
    if ltb (length src) frame_len
    then (ok none, src)
    else with_header src header_len payload_len frame_len (header_of src require_masked payload_len)

abbrev pub with_payload_len :
    ℕ → Bool → Bytes → Option (ℕ × ℕ) → Result (Option WebSocketMessage) × Bytes
with_payload_len max_frame_len require_masked src none = (ok none, src)
with_payload_len max_frame_len require_masked src (some (header_len, payload_len)) =
    with_frame_len require_masked src header_len payload_len
      (frame_len_of max_frame_len src header_len payload_len)

-- `decode_websocket_frame`; the second part is `src` after the call.
unfoldable pub decode_websocket_frame : ℕ → Bool → Bytes → Result (Option WebSocketMessage) × Bytes
decode_websocket_frame max_frame_len require_masked src =
    if ltb (length src) 2
    then (ok none, src)
    else with_payload_len max_frame_len require_masked src (payload_len_of src)

unfoldable pub encode_frame : ℕ → Bytes → Bytes → Result (Unit {0}) × Bytes
encode_frame opcode payload dst =
    let len = length payload in
    let dst' = dst ++ bit_or 0x80 opcode ∷ [] in
    if leb len 125
    then (ok tt, (dst' ++ len ∷ []) ++ payload)
    else if leb len 65535
    then (ok tt, ((dst' ++ 126 ∷ []) ++ to_be_bytes 2 len) ++ payload)
    else (ok tt, ((dst' ++ 127 ∷ []) ++ to_be_bytes 8 len) ++ payload)

unfoldable pub encode_control_frame : ℕ → Bytes → Bytes → Result (Unit {0}) × Bytes
encode_control_frame opcode payload dst =
    if ltb 125 (length payload)
    then (err (Error.encode (fmt "websocket control frame payload exceeds 125 bytes" [])), dst)
    else encode_frame opcode payload dst

unfoldable pub encode_close : Option WebSocketClose → Bytes → Result (Unit {0}) × Bytes
encode_close none dst = encode_control_frame 0x8 [] dst
encode_close (some c) dst =
    if valid_close_code c.code
    then encode_control_frame 0x8 (to_be_bytes 2 c.code ++ c.reason) dst
    else (
      err (Error.encode (fmt "invalid websocket close status code: {message}" (c.code ∷ []))),
      dst,
    )

-- `WebSocketCodec::encode` on a message; a handshake response is not one.
unfoldable pub encode_message : WebSocketMessage → Bytes → Result (Unit {0}) × Bytes
encode_message (text bytes) dst = encode_frame 0x1 bytes dst
encode_message (binary bytes) dst = encode_frame 0x2 bytes dst
encode_message (close c) dst = encode_close c dst
encode_message (ping bytes) dst = encode_control_frame 0x9 bytes dst
encode_message (pong bytes) dst = encode_control_frame 0xA bytes dst
