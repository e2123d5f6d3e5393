-- ===== src/WebSocket/Frame.antt =====
-- The frame of a message as RFC 6455 has it, and what the parts of src/codec/websocket.rs find in it.
use rs_netty.Common.{
  ℕ, zero, suc, ◌+◌, ◌%◌, ◌^◌, ◌≤◌, ◌<◌, ◌≡◌, refl, sym, ap, ap₂, ◌∙◌, true, false, Bool-cases, inl,
  inr, ◌⊎◌, Option, none, some, [], ◌∷◌, ◌++◌, length, get_or, leb, if◌then◌else◌, bit_and, bit_xor,
  arith,
}
use rs_netty.Common.Bits.{and_7f, and_80, xor_twice}
use rs_netty.Common.Bytes.{Bytes, IsBytes, to_be_bytes, from_be_bytes-to_be_bytes}
use rs_netty.Error.{ok}
use rs_netty.Utf8.{is_utf8, from_utf8_ok}
use rs_netty.WebSocket.{
  WebSocketMessage, text, binary, close, ping, pong, WebSocketClose, valid_close_code, decode_close,
  decode_payload, apply_mask, payload_len_of, validate_payload_len_encoding,
}

pub get_or-lt : (bs : Bytes) (i : ℕ) → IsBytes bs → get_or bs i 0 < 256
get_or-lt [] i h = omega arith
get_or-lt (b ∷ bs) zero h = h.0
get_or-lt (b ∷ bs) (suc i) h = get_or-lt bs i h.1

-- Masking twice with the same key gives the payload back.
pub apply_mask-apply_mask :
    (mask : Bytes) (i : ℕ) (payload : Bytes)
    → IsBytes mask
    → IsBytes payload
    → apply_mask mask i (apply_mask mask i payload) ≡ payload
unfolding apply_mask
apply_mask-apply_mask mask i [] hm hp = refl
apply_mask-apply_mask mask i (b ∷ payload) hm hp =
    ap₂ ◌∷◌ (xor_twice b (get_or mask (i % 4) 0) hp.0 (get_or-lt mask (i % 4) hm))
      (apply_mask-apply_mask mask (i + 1) payload hm hp.1)

pub length-apply_mask :
    (mask : Bytes) (i : ℕ) (payload : Bytes) → length (apply_mask mask i payload) ≡ length payload
unfolding apply_mask
length-apply_mask mask i [] = refl
length-apply_mask mask i (b ∷ payload) = ap suc (length-apply_mask mask (i + 1) payload)

abbrev pub opcode_of : WebSocketMessage → ℕ
opcode_of (text bytes) = 0x1
opcode_of (binary bytes) = 0x2
opcode_of (close c) = 0x8
opcode_of (ping bytes) = 0x9
opcode_of (pong bytes) = 0xA

abbrev pub close_payload : Option WebSocketClose → Bytes
close_payload none = []
close_payload (some c) = to_be_bytes 2 c.code ++ c.reason

abbrev pub payload_of : WebSocketMessage → Bytes
payload_of (text bytes) = bytes
payload_of (binary bytes) = bytes
payload_of (close c) = close_payload c
payload_of (ping bytes) = bytes
payload_of (pong bytes) = bytes

abbrev pub IsClose : Option WebSocketClose → Type 0
IsClose none = Unit
IsClose (some c) =
    (valid_close_code c.code ≡ true) × (is_utf8 c.reason ≡ true) × (length c.reason ≤ 123)

-- What RFC 6455 asks of the payload of a message.
abbrev pub IsMessage : WebSocketMessage → Type 0
IsMessage (text bytes) = is_utf8 bytes ≡ true
IsMessage (binary bytes) = Unit
IsMessage (close c) = IsClose c
IsMessage (ping bytes) = length bytes ≤ 125
IsMessage (pong bytes) = length bytes ≤ 125

pub close_read : (c : Option WebSocketClose) → IsClose c → decode_close (close_payload c) ≡ ok c
unfolding decode_close valid_close_code
close_read none h = refl
close_read (some c) h =
    let small : c.code < 2 ^ 16 = ground arith in
    rw (from_be_bytes-to_be_bytes 2 c.code small) (rw h.0 (rw (from_utf8_ok _ _ c.reason h.1)))

pub payload_read :
    (m : WebSocketMessage) → IsMessage m → decode_payload (opcode_of m) (payload_of m) ≡ ok (some m)
unfolding decode_payload
payload_read (text bytes) h = rw (from_utf8_ok _ _ bytes h)
payload_read (binary bytes) h = refl
payload_read (close c) h = rw (close_read c h)
payload_read (ping bytes) h = refl
payload_read (pong bytes) h = refl

-- The mask bit of the second byte.
abbrev pub mask_bit : Option Bytes → ℕ
mask_bit none = 0
mask_bit (some key) = 128

abbrev pub key_of : Option Bytes → Bytes
key_of none = []
key_of (some key) = key

-- The payload under a key of four bytes, which is turned by one place from byte to byte.
pub xor_turning : ℕ → ℕ → ℕ → ℕ → Bytes → Bytes
xor_turning k0 k1 k2 k3 [] = []
xor_turning k0 k1 k2 k3 (b ∷ payload) = bit_xor b k0 ∷ xor_turning k1 k2 k3 k0 payload

abbrev pub hide : Option Bytes → Bytes → Bytes
hide none payload = payload
hide (some key) payload =
    xor_turning (get_or key 0 0) (get_or key 1 0) (get_or key 2 0) (get_or key 3 0) payload

-- The index that the decoder keeps and the turning key come to the same.
apply_mask-turning :
    (key : Bytes) (i : ℕ) (payload : Bytes)
    → apply_mask key i payload
      ≡ xor_turning
          (get_or key (i % 4) 0)
          (get_or key ((i + 1) % 4) 0)
          (get_or key ((i + 2) % 4) 0)
          (get_or key ((i + 3) % 4) 0)
          payload
unfolding apply_mask xor_turning
apply_mask-turning key i [] = refl
apply_mask-turning key i (b ∷ payload) =
    let e2 : i + 1 + 1 ≡ i + 2 = omega arith in
    let e3 : i + 1 + 2 ≡ i + 3 = omega arith in
    let e4 : (i + 1 + 3) % 4 ≡ i % 4 = omega arith in
    ap (λ bs. bit_xor b (get_or key (i % 4) 0) ∷ bs)
      (rw (e2, e3, e4) at (apply_mask-turning key (i + 1) payload))

pub hide-some : (key payload : Bytes) → hide (some key) payload ≡ apply_mask key 0 payload
hide-some key payload = sym (apply_mask-turning key 0 payload)

-- The shortest form of a payload's length.
unfoldable pub len_bytes : ℕ → ℕ → Bytes
len_bytes bit len =
    if leb len 125
    then (bit + len) ∷ []
    else if leb len 65535
    then (bit + 126) ∷ to_be_bytes 2 len
    else (bit + 127) ∷ to_be_bytes 8 len

-- The frame that RFC 6455 gives a message, with a masking key or without.
unfoldable pub frame_bytes : Option Bytes → WebSocketMessage → Bytes
frame_bytes mask m =
    (128 + opcode_of m)
    ∷ (len_bytes (mask_bit mask) (length (payload_of m))
        ++ (key_of mask ++ hide mask (payload_of m)))

abbrev pub IsKey : Option Bytes → Type 0
IsKey none = Unit
IsKey (some key) = (length key ≡ 4) × IsBytes key

abbrev pub IsBit : ℕ → Type 0
IsBit bit = (bit ≡ 0) ⊎ (bit ≡ 128)

pub low_bits : (bit k : ℕ) → IsBit bit → k < 128 → bit_and (bit + k) 0x7f ≡ k
low_bits bit k h hk = elim h [
  | inl z ↦ and_7f (bit + k) (omega arith) ∙ omega arith
  | inr z ↦ and_7f (bit + k) (omega arith) ∙ omega arith
]

pub top_bit : (bit k : ℕ) → IsBit bit → k < 128 → bit_and (bit + k) 0x80 ≡ bit
top_bit bit k h hk = elim h [
  | inl z ↦ and_80 (bit + k) (omega arith) ∙ omega arith
  | inr z ↦ and_80 (bit + k) (omega arith) ∙ omega arith
]

-- The second byte, which holds the mask bit and `kind`, and the length behind it.
module _ (first bit len : ℕ) (tail : Bytes) (hbit : IsBit bit) (small : len < 2 ^ 63) where
  abbrev pub Head : ℕ → ℕ → Type 0
  Head kind n =
      (bit_and (get_or (first ∷ (len_bytes bit len ++ tail)) 1 0) 0x7f ≡ kind)
      × (bit_and (get_or (first ∷ (len_bytes bit len ++ tail)) 1 0) 0x80 ≡ bit)
      × (length (len_bytes bit len) ≡ 1 + n)
      × (payload_len_of (first ∷ (len_bytes bit len ++ tail)) ≡ some (2 + n, len))
      × (validate_payload_len_encoding kind len ≡ ok tt)
      × (n ≤ 8)

  pub Head-short : leb len 125 ≡ true → Head len 0
  unfolding len_bytes payload_len_of validate_payload_len_encoding
  Head-short e =
      let low = low_bits bit len hbit (ground arith) in
      let top = top_bit bit len hbit (ground arith) in
      rw e (low, top, refl, ground (arith, low), ground arith, omega arith)

  pub Head-16 : leb len 125 ≡ false → leb len 65535 ≡ true → Head 126 2
  unfolding len_bytes payload_len_of validate_payload_len_encoding
  Head-16 e f =
      let low = low_bits bit 126 hbit (omega arith) in
      let top = top_bit bit 126 hbit (omega arith) in
      let back = from_be_bytes-to_be_bytes 2 len (ground arith) in
      rw (e, f) (low, top, refl, ground (arith, low, back), ground arith, omega arith)

  pub Head-64 : leb len 125 ≡ false → leb len 65535 ≡ false → Head 127 8
  unfolding len_bytes payload_len_of validate_payload_len_encoding
  Head-64 e f =
      let low = low_bits bit 127 hbit (omega arith) in
      let top = top_bit bit 127 hbit (omega arith) in
      let back = from_be_bytes-to_be_bytes 8 len (omega arith) in
      rw (e, f) (low, top, refl, ground (arith, low, back), ground arith, omega arith)

  pub Head-any : (kind : ℕ) × (n : ℕ) × Head kind n
  Head-any = elim (Bool-cases (leb len 125)) [
    | inl e ↦ (len, 0, Head-short e)
    | inr e ↦ elim (Bool-cases (leb len 65535)) [
      | inl f ↦ (126, 2, Head-16 e f)
      | inr f ↦ (127, 8, Head-64 e f)
    ]
  ]
