-- ===== src/Mqtt/Codec/Laws.antt =====
-- `MqttCodec` as a framing of the stream.
use rs_netty.Common.{
  ℕ, zero, suc, ◌+◌, ◌*◌, ◌≤◌, ◌<◌, ◌≡◌, ◌≢◌, refl, Bool-cases, ltb→le, none, some, Option-cases,
  inl, inr, List, [], ◌∷◌, ◌++◌, length, take, drop, get_or, ltb, bit_and, arith, length-append,
  length-drop, take-append, drop-append, get_or-append,
}
use rs_netty.Common.Bytes.{Bytes}
use rs_netty.Error.{Result, ok, err, Error, Result-cases}
use rs_netty.Codec.{IsErr, IsFraming}
use rs_netty.Codec.Framing.{Agree, IsSettled, reads, read_all, concat, reads-eq-read_all}
use rs_netty.Mqtt.Types.{MqttPacket}
use rs_netty.Mqtt.VarInt.{prefix_loop, decode_remaining_length_prefix}
use rs_netty.Mqtt.Codec.{MqttCodec, decode_body, decode}

-- The loop over the length prefix: with a result it has read `n` bytes, and more bytes change
-- nothing; without one it has come to the end of the buffer, or seen its four bytes.
prefix_loop-append :
    (rounds index value multiplier : ℕ) (src more : Bytes) {r : Result (ℕ × ℕ)}
    → prefix_loop rounds index value multiplier src ≡ some r
    → prefix_loop rounds index value multiplier (src ++ more) ≡ some r
unfolding prefix_loop
prefix_loop-append zero index value multiplier src more h = cc
prefix_loop-append (suc rounds) index value multiplier [] more h = cc
prefix_loop-append (suc rounds) index value multiplier (b ∷ src) more {r} h = ground (
  arith,
  prefix_loop-append rounds (index + 1) (value + bit_and b 0x7f * multiplier) (multiplier * 128) src
      more {r = r},
)

prefix_loop-full :
    (rounds index value multiplier : ℕ) (src more : Bytes)
    → prefix_loop rounds index value multiplier src ≡ none
    → rounds ≤ length src
    → prefix_loop rounds index value multiplier (src ++ more) ≡ none
unfolding prefix_loop
prefix_loop-full zero index value multiplier src more h full = refl
prefix_loop-full (suc rounds) index value multiplier [] more h full = absurd (omega arith)
prefix_loop-full (suc rounds) index value multiplier (b ∷ src) more h full = ground (
  arith,
  prefix_loop-full rounds (index + 1) (value + bit_and b 0x7f * multiplier) (multiplier * 128) src
      more,
)

-- The prefix's own length is counted right, and lies in the buffer.
prefix_loop-le :
    (rounds index value multiplier : ℕ) (src : Bytes) {v n : ℕ}
    → prefix_loop rounds index value multiplier src ≡ some (ok (v, n))
    → n ≤ index + length src
unfolding prefix_loop
prefix_loop-le zero index value multiplier src h = cc
prefix_loop-le (suc rounds) index value multiplier [] h = cc
prefix_loop-le (suc rounds) index value multiplier (b ∷ src) {v} {n} h = ground (
  arith,
  prefix_loop-le rounds (index + 1) (value + bit_and b 0x7f * multiplier) (multiplier * 128) src
      {v = v} {n = n},
)

prefix_some :
    (src more : Bytes) {p : ℕ × ℕ}
    → decode_remaining_length_prefix src ≡ ok (some p)
    → decode_remaining_length_prefix (src ++ more) ≡ ok (some p)
unfolding decode_remaining_length_prefix
prefix_some src more {p} h = elim (Option-cases (prefix_loop 4 0 0 1 src)) [
  | inl absent ↦ ground (arith, absent)
  | inr (r, at) ↦ rw (prefix_loop-append 4 0 0 1 src more at) (rw at at h)
]

prefix_err :
    (src more : Bytes) {e : Error}
    → decode_remaining_length_prefix src ≡ err e
    → decode_remaining_length_prefix (src ++ more) ≡ err e
unfolding decode_remaining_length_prefix
prefix_err src more {e} h = elim (Option-cases (prefix_loop 4 0 0 1 src)) [
  | inl absent ↦
      ground (arith, absent, prefix_loop-full 4 0 0 1 src more absent, length-append src more)
  | inr (r, at) ↦ rw (prefix_loop-append 4 0 0 1 src more at) (rw at at h)
]

prefix_le :
    (src : Bytes) {v n : ℕ} → decode_remaining_length_prefix src ≡ ok (some (v, n)) → n ≤ length src
unfolding decode_remaining_length_prefix
prefix_le src {v} {n} h = elim (Option-cases (prefix_loop 4 0 0 1 src)) [
  | inl absent ↦ ground (arith, absent)
  | inr (r, at) ↦ ground (arith, at, prefix_loop-le 4 0 0 1 src {v = v} {n = n})
]

-- The first byte is not part of the prefix.
drop-first : (src more : Bytes) → 1 ≤ length src → drop 1 (src ++ more) ≡ drop 1 src ++ more
drop-first src more h = drop-append 1 src more h

module _ (s : MqttCodec) (buf more : Bytes) {v n : ℕ} (long : 2 ≤ length buf)
    (prefix : decode_remaining_length_prefix (drop 1 buf) ≡ ok (some (v, n))) where
  longer : decode_remaining_length_prefix (drop 1 (buf ++ more)) ≡ ok (some (v, n))
  longer = rw (drop-first buf more (omega arith)) (prefix_some (drop 1 buf) more prefix)

  header-le : 1 + n ≤ length buf
  header-le = omega (arith, prefix_le (drop 1 buf) prefix, length-drop 1 buf)

  prefix-frames :
      {x : MqttPacket} {s' : MqttCodec} {rest : Bytes}
      → decode s buf ≡ (ok (some x), s', rest)
      → (length rest < length buf) × (decode s (buf ++ more) ≡ (ok (some x), s', rest ++ more))
  unfolding decode
  prefix-frames {x} {s'} {rest} e = ground (
    arith,
    prefix,
    longer,
    length-append buf more,
    length-drop (1 + n + v) buf,
    take-append (1 + n + v) buf more,
    drop-append (1 + n + v) buf more,
    get_or-append buf more 0 0,
  )

  prefix-fails :
      {x : Error} {s' : MqttCodec} {rest : Bytes}
      → decode s buf ≡ (err x, s', rest)
      → IsErr (decode s (buf ++ more)).0
  unfolding decode
  prefix-fails {x} {s'} {rest} e = ground (
    arith,
    prefix,
    longer,
    length-append buf more,
    take-append (1 + n + v) buf more,
    get_or-append buf more 0 0,
  )

-- A packet takes more bytes than its header.
decode_body-some : (fixed_header : ℕ) (body : Bytes) → decode_body fixed_header body ≢ ok none
unfolding decode_body
decode_body-some fixed_header body h = ground arith

decode-waits :
    (s : MqttCodec) (buf : Bytes) {s' : MqttCodec} {rest : Bytes}
    → decode s buf ≡ (ok none, s', rest)
    → (s' ≡ s) × (rest ≡ buf)
unfolding decode
decode-waits s buf e = elim (Result-cases (decode_remaining_length_prefix (drop 1 buf))) [
  | inl (none, at) ↦ ground (arith, at)
  | inl (some (v, n), at) ↦
      ground (arith, at, decode_body-some (get_or buf 0 0) (drop (1 + n) (take (1 + n + v) buf)))
  | inr (x, at) ↦ ground (arith, at)
]

decode-frames :
    (s : MqttCodec) (buf more : Bytes) {x : MqttPacket} {s' : MqttCodec} {rest : Bytes}
    → decode s buf ≡ (ok (some x), s', rest)
    → (length rest < length buf) × (decode s (buf ++ more) ≡ (ok (some x), s', rest ++ more))
decode-frames s buf more e = elim (Bool-cases (ltb (length buf) 2)) [
  | inl short ↦ absurd (unfold decode in ground arith)
  | inr long ↦ elim (Result-cases (decode_remaining_length_prefix (drop 1 buf))) [
    | inl (none, at) ↦ absurd (unfold decode in ground (arith, at))
    | inl (some (v, n), at) ↦ prefix-frames s buf more (ltb→le (length buf) 2 long) at e
    | inr (x', at) ↦ absurd (unfold decode in ground (arith, at))
  ]
]

decode-fails :
    (s : MqttCodec) (buf more : Bytes) {x : Error} {s' : MqttCodec} {rest : Bytes}
    → decode s buf ≡ (err x, s', rest)
    → IsErr (decode s (buf ++ more)).0
decode-fails s buf more {x} e = elim (Bool-cases (ltb (length buf) 2)) [
  | inl short ↦ absurd (unfold decode in ground arith)
  | inr long ↦
      let long' : 2 ≤ length buf = ltb→le (length buf) 2 long in
      elim (Result-cases (decode_remaining_length_prefix (drop 1 buf))) [
        | inl (none, at) ↦ absurd (unfold decode in ground (arith, at))
        | inl (some (v, n), at) ↦ prefix-fails s buf more long' at e
        | inr (x', at) ↦
            let same : decode_remaining_length_prefix (drop 1 (buf ++ more)) ≡ err x' =
              rw (drop-first buf more (omega arith)) (prefix_err (drop 1 buf) more at) in
            unfold decode in ground (arith, same, length-append buf more)
      ]
]

pub decode-IsFraming : IsFraming decode (λ s. Unit)
decode-IsFraming = record {
  waits = λ s buf v e. decode-waits s buf e;
  frames =
      λ s buf more v e. let (shorter, longer) = decode-frames s buf more e in (tt, shorter, longer);
  fails = λ s buf more v e. decode-fails s buf more e;
}

-- However the bytes of a connection are cut into reads, the codec gives the packets, or the failure,
-- of the whole stream, and its decoding loop ends.
pub packets_stable :
    (codec : MqttCodec) (chunks : List Bytes)
    → Agree (reads decode (read_all decode codec []) chunks) (read_all decode codec (concat chunks))
      × IsSettled (read_all decode codec (concat chunks))
packets_stable codec chunks =
    reads-eq-read_all decode (λ s. Unit) decode-IsFraming codec [] chunks tt
