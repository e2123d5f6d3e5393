-- ===== src/WebSocket/Laws.antt =====
-- The frame decoder of src/codec/websocket.rs as a framing of the stream.
use rs_netty.Common.{
  ℕ, ◌+◌, ◌≤◌, ◌<◌, ◌≡◌, ◌≢◌, refl, ap, Bool, Bool-cases, inl, inr, ltb→le, Option, none, some,
  Option-cases, List, [], ◌++◌, length, take, drop, ltb, arith, length-append, length-drop,
  take-append, drop-append, get_or-append,
}
use rs_netty.Common.Bytes.{Bytes}
use rs_netty.Error.{Result, ok, err, Error, Result-cases}
use rs_netty.Codec.{Poll, IsErr, IsFraming}
use rs_netty.Codec.Framing.{Agree, IsSettled, reads, read_all, concat, reads-eq-read_all}
use rs_netty.WebSocket.{
  WebSocketMessage, payload_len_of, frame_len_of, frame_message, header_of, decode_payload,
  decode_websocket_frame,
}

-- The decoder's limits do not change from call to call.
unfoldable pub decode : ℕ → Bool → Unit {0} → Bytes → Poll (Unit {0}) WebSocketMessage
decode max require_masked u src =
    let (message, rest) = decode_websocket_frame max require_masked src in (message, tt, rest)

payload_len_of-append :
    (src more : Bytes) {n : ℕ × ℕ}
    → 2 ≤ length src
    → payload_len_of src ≡ some n
    → payload_len_of (src ++ more) ≡ some n
unfolding payload_len_of
payload_len_of-append src more long h = ground (
  arith,
  length-append src more,
  get_or-append src more 1 0,
  drop-append 2 src more,
  take-append 2 (drop 2 src) more,
  take-append 8 (drop 2 src) more,
  length-drop 2 src,
)

payload_len_of-le :
    (src : Bytes) {header_len payload_len : ℕ}
    → 2 ≤ length src
    → payload_len_of src ≡ some (header_len, payload_len)
    → (2 ≤ header_len) × (header_len ≤ length src)
unfolding payload_len_of
payload_len_of-le src long h = ground arith

frame_len_of-append :
    (max : ℕ) (src more : Bytes) (header_len payload_len : ℕ)
    → 2 ≤ length src
    → frame_len_of max (src ++ more) header_len payload_len
      ≡ frame_len_of max src header_len payload_len
unfolding frame_len_of
frame_len_of-append max src more header_len payload_len long =
    rw (get_or-append src more 1 0 (omega arith))

frame_len_of-le :
    (max : ℕ) (src : Bytes) (header_len payload_len : ℕ) {n : ℕ}
    → frame_len_of max src header_len payload_len ≡ ok n
    → (header_len + payload_len ≤ n) × (n ≤ header_len + 4 + max)
unfolding frame_len_of
frame_len_of-le max src header_len payload_len h = ground arith

decode_payload-some : (opcode : ℕ) (payload : Bytes) → decode_payload opcode payload ≢ ok none
unfolding decode_payload
decode_payload-some opcode payload h = ground arith

frame_message-some : (frame : Bytes) (h p : ℕ) → frame_message frame h p ≢ ok none
unfolding frame_message
frame_message-some frame h p = decode_payload-some _ _

header_of-append :
    (src more : Bytes) (require_masked : Bool) (payload_len : ℕ)
    → 2 ≤ length src
    → header_of (src ++ more) require_masked payload_len ≡ header_of src require_masked payload_len
header_of-append src more require_masked payload_len long =
    rw (get_or-append src more 1 0 (omega arith), get_or-append src more 0 0 (omega arith))

module _ (max : ℕ) (require_masked : Bool) (buf more : Bytes) {h p : ℕ} (long : 2 ≤ length buf)
    (lens : payload_len_of buf ≡ some (h, p)) where
  lens-frames :
      {x : WebSocketMessage} {rest : Bytes}
      → decode_websocket_frame max require_masked buf ≡ (ok (some x), rest)
      → (length rest < length buf)
        × (decode_websocket_frame max require_masked (buf ++ more) ≡ (ok (some x), rest ++ more))
  unfolding decode_websocket_frame
  lens-frames {x} {rest} e = elim (Result-cases (frame_len_of max buf h p)) [
    | inl (n, at) ↦ ground (
      arith,
      lens,
      at,
      payload_len_of-append buf more long lens,
      payload_len_of-le buf long lens,
      frame_len_of-append max buf more h p long,
      frame_len_of-le max buf h p at,
      header_of-append buf more require_masked p long,
      length-append buf more,
      length-drop n buf,
      take-append n buf more,
      drop-append n buf more,
    )
    | inr (failure, at) ↦ ground (arith, lens, at)
  ]

  lens-fails :
      {x : Error} {rest : Bytes}
      → decode_websocket_frame max require_masked buf ≡ (err x, rest)
      → IsErr (decode_websocket_frame max require_masked (buf ++ more)).0
  unfolding decode_websocket_frame
  lens-fails {x} {rest} e = elim (Result-cases (frame_len_of max buf h p)) [
    | inl (n, at) ↦ elim (Result-cases (header_of buf require_masked p)) [
      | inl (u, good) ↦ ground (
        arith,
        lens,
        at,
        good,
        payload_len_of-append buf more long lens,
        frame_len_of-append max buf more h p long,
        header_of-append buf more require_masked p long,
        length-append buf more,
        take-append n buf more,
      )
      | inr (y, bad) ↦ ground (
        arith,
        lens,
        at,
        bad,
        payload_len_of-append buf more long lens,
        frame_len_of-append max buf more h p long,
        header_of-append buf more require_masked p long,
        length-append buf more,
      )
    ]
    | inr (failure, at) ↦ ground (
      arith,
      lens,
      at,
      payload_len_of-append buf more long lens,
      frame_len_of-append max buf more h p long,
      length-append buf more,
    )
  ]

module _ (max : ℕ) (require_masked : Bool) (buf : Bytes) where
  frame-waits :
      {rest : Bytes} → decode_websocket_frame max require_masked buf ≡ (ok none, rest) → rest ≡ buf
  unfolding decode_websocket_frame
  frame-waits e = elim (Option-cases (payload_len_of buf)) [
    | inl absent ↦ ground (arith, absent)
    | inr ((h, p), lens) ↦ elim (Result-cases (frame_len_of max buf h p)) [
      | inl (n, at) ↦ elim (Result-cases (header_of buf require_masked p)) [
        | inl (u, good) ↦ ground (arith, lens, at, good, frame_message-some (take n buf) h p)
        | inr (y, bad) ↦ ground (arith, lens, at, bad)
      ]
      | inr (failure, at) ↦ ground (arith, lens, at)
    ]
  ]

  frame-frames :
      (more : Bytes) {x : WebSocketMessage} {rest : Bytes}
      → decode_websocket_frame max require_masked buf ≡ (ok (some x), rest)
      → (length rest < length buf)
        × (decode_websocket_frame max require_masked (buf ++ more) ≡ (ok (some x), rest ++ more))
  frame-frames more e = elim (Bool-cases (ltb (length buf) 2)) [
    | inl short ↦ absurd (unfold decode_websocket_frame in ground arith)
    | inr long ↦ elim (Option-cases (payload_len_of buf)) [
      | inl absent ↦ absurd (unfold decode_websocket_frame in ground (arith, absent))
      | inr ((h, p), lens) ↦
          lens-frames max require_masked buf more (ltb→le (length buf) 2 long) lens e
    ]
  ]

  frame-fails :
      (more : Bytes) {x : Error} {rest : Bytes}
      → decode_websocket_frame max require_masked buf ≡ (err x, rest)
      → IsErr (decode_websocket_frame max require_masked (buf ++ more)).0
  frame-fails more e = elim (Bool-cases (ltb (length buf) 2)) [
    | inl short ↦ absurd (unfold decode_websocket_frame in ground arith)
    | inr long ↦ elim (Option-cases (payload_len_of buf)) [
      | inl absent ↦ absurd (unfold decode_websocket_frame in ground (arith, absent))
      | inr ((h, p), lens) ↦
          lens-fails max require_masked buf more (ltb→le (length buf) 2 long) lens e
    ]
  ]

  -- `decode` gives what `decode_websocket_frame` gives.
  as_frame :
      {r : Result (Option WebSocketMessage)} {u : Unit} {rest : Bytes}
      → decode max require_masked tt buf ≡ (r, u, rest)
      → decode_websocket_frame max require_masked buf ≡ (r, rest)
  unfolding decode
  as_frame e = ap (λ x. (x.0, x.2)) e

pub decode-IsFraming :
    (max : ℕ) (require_masked : Bool) → IsFraming (decode max require_masked) (λ u. Unit)
unfolding decode
decode-IsFraming max require_masked = record {
  waits =
      λ s buf v e. (refl, frame-waits max require_masked buf (as_frame max require_masked buf e));
  frames = λ s buf more v e.
      let (shorter, longer) =
        frame-frames max require_masked buf more (as_frame max require_masked buf e) in
      (tt, shorter, rw longer);
  fails =
      λ s buf more v e. frame-fails max require_masked buf more (as_frame max require_masked buf e);
}

-- However the bytes of a connection are cut into reads, the decoder gives the messages, or the failure,
-- of the whole stream of frames, and its decoding loop ends.
pub messages_stable :
    (max : ℕ) (require_masked : Bool) (chunks : List Bytes)
    → Agree
        (reads (decode max require_masked) (read_all (decode max require_masked) tt []) chunks)
        (read_all (decode max require_masked) tt (concat chunks))
      × IsSettled (read_all (decode max require_masked) tt (concat chunks))
messages_stable max require_masked chunks =
    reads-eq-read_all (decode max require_masked) (λ u. Unit) (decode-IsFraming max require_masked)
      tt [] chunks tt
