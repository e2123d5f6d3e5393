-- ===== src/WebSocket/RoundTrip.antt =====
-- A message in a frame, masked or not, is decoded to the message; `encode_message` writes the frame
-- without a mask.
use rs_netty.Common.{
  ℕ, ◌+◌, ◌^◌, ◌≤◌, ◌<◌, ◌≡◌, refl, ap, subst, append-nil, ◌!=◌, ◌∙◌, Bool, true, false, not, ◌&&◌,
  Bool-cases, inl, inr, Option, none, some, [], ◌∷◌, ◌++◌, length, take, drop, get_or, leb,
  if◌then◌else◌, bit_and, bit_or, arith, length-append, append_assoc, take-length_append,
  drop-length_append, take-append_both, drop-append_both,
}
use rs_netty.Common.Bytes.{Bytes, IsBytes, to_be_bytes}
use rs_netty.Error.{ok}
use rs_netty.WebSocket.{
  WebSocketMessage, text, binary, close, ping, pong, decode_payload, apply_mask, payload_len_of,
  frame_len_of, frame_message, header_of, is_masked, decode_websocket_frame, encode_frame,
  encode_control_frame, encode_close, encode_message, validate_frame_header,
  validate_payload_len_encoding,
}
use rs_netty.WebSocket.Frame.{
  hide-some, IsBit, IsKey, IsMessage, apply_mask-apply_mask, frame_bytes, Head-any, hide, key_of,
  len_bytes, length-apply_mask, mask_bit, opcode_of, payload_of, payload_read,
}

frame_len_lem :
    (max : ℕ) (src : Bytes) (h p kind : ℕ) (masked : Bool)
    → bit_and (get_or src 1 0) 0x7f ≡ kind
    → is_masked src ≡ masked
    → validate_payload_len_encoding kind p ≡ ok tt
    → p ≤ max
    → h ≤ 10
    → p < 2 ^ 63
    → frame_len_of max src h p ≡ ok (h + (if masked then 4 else 0) + p)
unfolding frame_len_of
frame_len_lem max src h p kind true low masked valid fits header small =
    rw (masked, low, valid) (ground arith)
frame_len_lem max src h p kind false low masked valid fits header small =
    rw (masked, low, valid) (ground arith)

-- A whole frame in front of the buffer.
decode_whole :
    (max : ℕ) (require_masked : Bool) (src frame rest : Bytes) (h p n : ℕ) (m : WebSocketMessage)
    → payload_len_of src ≡ some (h, p)
    → frame_len_of max src h p ≡ ok n
    → header_of src require_masked p ≡ ok tt
    → frame_message frame h p ≡ ok (some m)
    → take n src ≡ frame
    → drop n src ≡ rest
    → 2 ≤ length src
    → n ≤ length src
    → decode_websocket_frame max require_masked src ≡ (ok (some m), rest)
unfolding decode_websocket_frame
decode_whole max require_masked src frame rest h p n m lens flen header message taken left long
      whole =
    ground (arith, lens, flen, header, message, taken, left)

take-all : (n : ℕ) (xs : Bytes) → length xs ≡ n → take n xs ≡ xs
take-all n xs e =
    rw (← e) (subst (λ ys. take (length xs) ys ≡ xs) (append-nil xs) (take-length_append xs []))

mask_bit-IsBit : (mask : Option Bytes) → IsBit (mask_bit mask)
mask_bit-IsBit none = inl refl
mask_bit-IsBit (some key) = inr refl

module _ (mask : Option Bytes) (m : WebSocketMessage) (hkey : IsKey mask)
    (bytes : IsBytes (payload_of m)) (small : length (payload_of m) < 2 ^ 63) where
  len : ℕ
  len = length (payload_of m)

  front : Bytes
  front = (128 + opcode_of m) ∷ len_bytes (mask_bit mask) len

  length-hide : length (hide mask (payload_of m)) ≡ len
  unfolding len
  length-hide = go mask
    where
      go : (k : Option Bytes) → length (hide k (payload_of m)) ≡ length (payload_of m)
      go none = refl
      go (some key) = rw (hide-some key (payload_of m)) (length-apply_mask key 0 (payload_of m))

  -- What is behind the header of the frame.
  body : Bytes
  body = key_of mask ++ hide mask (payload_of m)

  unmask : Bool → Bytes → Bytes
  unmask masked b = if masked then apply_mask (take 4 b) 0 (take len (drop 4 b)) else take len b

  unmask-body : (masked : Bool) → masked ≡ (mask_bit mask != 0) → unmask masked body ≡ payload_of m
  unfolding unmask body len
  unmask-body masked e = rw e (go mask hkey)
    where
      go :
          (k : Option Bytes)
          → IsKey k
          → unmask (mask_bit k != 0) (key_of k ++ hide k (payload_of m)) ≡ payload_of m
      go none h = take-all len (payload_of m) refl
      go (some key) h =
          let hidden = apply_mask key 0 (payload_of m) in
          let t : take 4 (key ++ hidden) ≡ key = rw (← h.0) (take-length_append key hidden) in
          let d : drop 4 (key ++ hidden) ≡ hidden = rw (← h.0) (drop-length_append key hidden) in
          rw (hide-some key (payload_of m)) (
            rw (t, d, take-all len hidden (length-apply_mask key 0 (payload_of m)))
              (apply_mask-apply_mask key 0 (payload_of m) h.1 bytes))

  length-body : length body ≡ (if mask_bit mask != 0 then 4 else 0) + len
  unfolding body
  length-body = go mask hkey length-hide
    where
      go :
          (k : Option Bytes)
          → IsKey k
          → length (hide k (payload_of m)) ≡ len
          → length (key_of k ++ hide k (payload_of m)) ≡ (if mask_bit k != 0 then 4 else 0) + len
      go none h e = omega (arith, e)
      go (some key) h e = omega (arith, e, length-append key (hide (some key) (payload_of m)), h.0)

  -- The frame alone.
  frame_read :
      (n : ℕ)
      → length front ≡ 2 + n
      → is_masked (front ++ body) ≡ (mask_bit mask != 0)
      → frame_message (front ++ body) (2 + n) len ≡ decode_payload (opcode_of m) (payload_of m)
  unfolding frame_message front
  frame_read n e masked =
      let d : drop (2 + n) (front ++ body) ≡ body = rw (← e) (drop-length_append front body) in
      let low : bit_and (128 + opcode_of m) 0x0f ≡ opcode_of m = opcode_low m in
      rw (d, low) (ap (decode_payload (opcode_of m)) (unfold unmask in unmask-body _ masked))
    where
      opcode_low : (m' : WebSocketMessage) → bit_and (128 + opcode_of m') 0x0f ≡ opcode_of m'
      opcode_low (text b) = refl
      opcode_low (binary b) = refl
      opcode_low (close c) = refl
      opcode_low (ping b) = refl
      opcode_low (pong b) = refl

  module _ (max : ℕ) (require_masked : Bool) (rest : Bytes) (fits : len ≤ max) (good : IsMessage m)
      (asked : (require_masked && not (mask_bit mask != 0)) ≡ false) where
    header_good :
        (src : Bytes)
        → get_or src 0 0 ≡ 128 + opcode_of m
        → is_masked src ≡ (mask_bit mask != 0)
        → header_of src require_masked len ≡ ok tt
    unfolding len validate_frame_header
    header_good src first masked = rw (first, masked, asked) (go m good)
      where
        go :
            (m' : WebSocketMessage)
            → IsMessage m'
            → validate_frame_header
                (bit_and (128 + opcode_of m') 0x80 != 0)
                (bit_and (128 + opcode_of m') 0x70)
                (bit_and (128 + opcode_of m') 0x0f)
                true
                (length (payload_of m'))
                false
              ≡ ok tt
        go (text b) h = refl
        go (binary b) h = refl
        go (close none) h = refl
        go (close (some c)) h = ground arith
        go (ping b) h = ground arith
        go (pong b) h = ground arith

    decode_front :
        decode_websocket_frame max require_masked (front ++ (body ++ rest)) ≡ (ok (some m), rest)
    unfolding front len
    decode_front =
        let first = 128 + opcode_of m in
        let bit = mask_bit mask in
        let whole = front ++ (body ++ rest) in
        let (kind, n, (low, top, size, lens, valid, few)) =
          Head-any first bit len (body ++ rest) (mask_bit-IsBit mask) small in
        let (kind', n', (low', top', size', lens', valid', few')) =
          Head-any first bit len body (mask_bit-IsBit mask) small in
        let masked : is_masked whole ≡ (bit != 0) = ap (λ b. b != 0) top in
        let masked' : is_masked (front ++ body) ≡ (bit != 0) = ap (λ b. b != 0) top' in
        let front_len : length front ≡ 2 + n = omega (arith, size) in
        let total : length front + length body ≡ 2 + n + (if bit != 0 then 4 else 0) + len =
          omega (arith, front_len, length-body) in
        let taken : take (2 + n + (if bit != 0 then 4 else 0) + len) whole ≡ front ++ body =
          rw (← total) (take-append_both front body rest) in
        let left : drop (2 + n + (if bit != 0 then 4 else 0) + len) whole ≡ rest =
          rw (← total) (drop-append_both front body rest) in
        let message = frame_read n front_len masked' ∙ payload_read m good in
        let header = header_good whole refl masked in
        let flen =
          frame_len_lem max whole (2 + n) len kind (bit != 0) low masked valid fits
            (omega (arith, few)) small in
        decode_whole max require_masked whole (front ++ body) rest (2 + n) len _ m lens flen header
          message taken left (omega (arith, front_len, length-append front (body ++ rest)))
          (omega (arith, total, length-append front (body ++ rest), length-append body rest))

-- `encode_message` writes the frame without a mask.
encode_frame_lem :
    (opcode : ℕ) (payload dst : Bytes)
    → bit_or 0x80 opcode ≡ 128 + opcode
    → encode_frame opcode payload dst
      ≡ (ok tt, dst ++ ((128 + opcode) ∷ (len_bytes 0 (length payload) ++ payload)))
unfolding encode_frame len_bytes
encode_frame_lem opcode payload dst e = elim (Bool-cases (leb (length payload) 125)) [
  | inl a ↦
      let z : 0 + length payload ≡ length payload = omega arith in
      rw (a, e, z) (rw (append_assoc, append_assoc))
  | inr a ↦ elim (Bool-cases (leb (length payload) 65535)) [
    | inl b ↦ rw (a, b, e) (rw (append_assoc, append_assoc, append_assoc))
    | inr b ↦ rw (a, b, e) (rw (append_assoc, append_assoc, append_assoc))
  ]
]

encode_message_lem :
    (m : WebSocketMessage) (dst : Bytes)
    → IsMessage m
    → encode_message m dst ≡ (ok tt, dst ++ frame_bytes none m)
unfolding encode_message encode_close encode_control_frame frame_bytes
encode_message_lem (text b) dst h = encode_frame_lem 0x1 b dst refl
encode_message_lem (binary b) dst h = encode_frame_lem 0x2 b dst refl
encode_message_lem (close none) dst h = encode_frame_lem 0x8 [] dst refl
encode_message_lem (close (some c)) dst h =
    rw h.0 (ground (arith, encode_frame_lem 0x8 (to_be_bytes 2 c.code ++ c.reason) dst refl))
encode_message_lem (ping b) dst h = ground (arith, encode_frame_lem 0x9 b dst refl)
encode_message_lem (pong b) dst h = ground (arith, encode_frame_lem 0xA b dst refl)

-- The payload is of bytes, and no longer than the decoder's limit allows.
abbrev pub IsCarried : ℕ → WebSocketMessage → Type 0
IsCarried max m =
    IsMessage m
    × IsBytes (payload_of m)
    × (length (payload_of m) < 2 ^ 63)
    × (length (payload_of m) ≤ max)

frame_decoded :
    (max : ℕ) (require_masked : Bool) (mask : Option Bytes) (m : WebSocketMessage) (rest : Bytes)
    → IsKey mask
    → (require_masked && not (mask_bit mask != 0)) ≡ false
    → IsCarried max m
    → decode_websocket_frame max require_masked (frame_bytes mask m ++ rest) ≡ (ok (some m), rest)
unfolding frame_bytes front body len
frame_decoded max require_masked mask m rest k asked h =
    rw (append_assoc (front mask m k h.1 h.2) (body mask m k h.1 h.2) rest)
      (decode_front mask m k h.1 h.2 max require_masked rest h.3 h.0 asked)

-- A frame of a client, masked with a key of four bytes, is decoded to its message, whether masks are
-- required or not, and the bytes behind the frame stay. The message is one that RFC 6455 allows (a
-- text and a close reason are UTF-8, a close code is in its ranges, a control payload has at most 125
-- bytes), and its payload is of bytes, shorter than 2 ^ 63 and within the limit.
pub masked_frame_read :
    (max : ℕ) (require_masked : Bool) (key : Bytes) (m : WebSocketMessage) (rest : Bytes)
    → IsKey (some key)
    → IsCarried max m
    → decode_websocket_frame max require_masked (frame_bytes (some key) m ++ rest)
      ≡ (ok (some m), rest)
masked_frame_read max true key m rest k h = frame_decoded max true (some key) m rest k refl h
masked_frame_read max false key m rest k h = frame_decoded max false (some key) m rest k refl h

-- A message that RFC 6455 allows, whose payload is of bytes, shorter than 2 ^ 63 and within the limit,
-- is encoded as a frame without a mask, and a decoder that does not require masks reads the message
-- back from it and leaves the bytes behind it.
pub message_round_trip :
    (max : ℕ) (m : WebSocketMessage) (dst rest : Bytes)
    → IsCarried max m
    → (encode_message m dst ≡ (ok tt, dst ++ frame_bytes none m))
      × (decode_websocket_frame max false (frame_bytes none m ++ rest) ≡ (ok (some m), rest))
message_round_trip max m dst rest h =
    (encode_message_lem m dst h.0, frame_decoded max false none m rest tt refl h)
