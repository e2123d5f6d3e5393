-- ===== src/Codec/FixedLength.antt =====
-- src/codec/fixed_length_frame.rs: frames of one fixed size.
use rs_netty.Common.{
  ℕ, ◌<◌, ◌≡◌, ap, subst, All, Option, none, some, List, [], ◌∷◌, ◌++◌, length, take, drop, ltb,
  ◌!=◌, if◌then◌else◌, arith, length-append, length-drop, take-append, drop-append,
  take-length_append, drop-length_append,
}
use rs_netty.Common.Bytes.{Bytes}
use rs_netty.Error.{Result, ok, err, Error, fmt}
use rs_netty.Codec.{Poll, IsFraming}
use rs_netty.Codec.Framing.{Agree, IsSettled, reads, read_all, concat, reads-eq-read_all}
use rs_netty.Codec.Framing.Sent.{encode_all, sent, reads-sent}

pub record FixedLengthFrameDecoder : Type 0 where
  pub frame_length : ℕ

-- `new`; `none` is the panic of its `assert!`.
unfoldable pub new : ℕ → Option FixedLengthFrameDecoder
new frame_length =
    if ltb 0 frame_length then some (record { frame_length = frame_length }) else none

unfoldable pub decode : FixedLengthFrameDecoder → Bytes → Poll FixedLengthFrameDecoder Bytes
decode self src =
    if ltb (length src) self.frame_length
    then (ok none, self, src)
    else (ok (some (take self.frame_length src)), self, drop self.frame_length src)

unfoldable pub encode : FixedLengthFrameDecoder → Bytes → Bytes → Result (Unit {0}) × Bytes
encode self item dst =
    if length item != self.frame_length
    then (
      err (
          Error.encode (
            fmt "fixed frame length mismatch: current={}, expected={}"
              (length item ∷ self.frame_length ∷ []))),
      dst,
    )
    else (ok tt, dst ++ item)

abbrev pub IsValid : FixedLengthFrameDecoder → Type 0
IsValid self = 0 < self.frame_length

decode-frames :
    (s : FixedLengthFrameDecoder) (buf more : Bytes) {x : Bytes} {s' : FixedLengthFrameDecoder}
    {rest : Bytes}
    → IsValid s
    → decode s buf ≡ (ok (some x), s', rest)
    → IsValid s'
      × (length rest < length buf)
      × (decode s (buf ++ more) ≡ (ok (some x), s', rest ++ more))
unfolding decode
decode-frames s buf more v e = ground (
  arith,
  length-drop s.frame_length buf,
  length-append buf more,
  take-append s.frame_length buf more,
  drop-append s.frame_length buf more,
)

-- With a positive frame length the decoder is a framing of the stream.
pub decode-IsFraming : IsFraming decode IsValid
decode-IsFraming = record {
  waits = λ s buf v e. unfold decode in ground arith;
  frames = λ s buf more v e. decode-frames s buf more v e;
  fails = λ s buf more v e. unfold decode in ground arith;
}

-- A stream is cut into the same frames in whatever chunks it is read, and the decoding loop ends.
-- The decoder is one that `new` made.
pub fixed_frames_stable :
    (n : ℕ) (codec : FixedLengthFrameDecoder) (chunks : List Bytes)
    → new n ≡ some codec
    → Agree (reads decode (read_all decode codec []) chunks) (read_all decode codec (concat chunks))
      × IsSettled (read_all decode codec (concat chunks))
unfolding new
fixed_frames_stable n codec chunks h =
    reads-eq-read_all decode IsValid decode-IsFraming codec [] chunks (ground arith)

-- An item of the configured length is encoded, and decoding it, with any bytes behind it, returns the
-- item and leaves those bytes.
pub fixed_frame_round_trip :
    (codec : FixedLengthFrameDecoder) (item rest : Bytes)
    → length item ≡ codec.frame_length
    → ((encode codec item []).0 ≡ ok tt)
      × (decode codec ((encode codec item []).1 ++ rest) ≡ (ok (some item), codec, rest))
unfolding encode decode
fixed_frame_round_trip codec item rest h = ground (
  arith,
  length-append item rest,
  ap (λ (n : ℕ). take n (item ++ rest)) h,
  ap (λ (n : ℕ). drop n (item ++ rest)) h,
  take-length_append item rest,
  drop-length_append item rest,
)

fixed-nothing :
    (codec : FixedLengthFrameDecoder) → IsValid codec → decode codec [] ≡ (ok none, codec, [])
unfolding decode
fixed-nothing codec v = ground arith

fixed-writes :
    (codec : FixedLengthFrameDecoder) (item dst : Bytes)
    → length item ≡ codec.frame_length
    → (encode codec item dst).1 ≡ dst ++ item
unfolding encode
fixed-writes codec item dst h = ground arith

-- Items of the configured, positive length that are encoded into one buffer, and whose bytes arrive
-- in any chunks, are decoded to the same items in the same order, with nothing left over.
pub fixed_frames_arrive :
    (codec : FixedLengthFrameDecoder) (items chunks : List Bytes)
    → IsValid codec
    → All (λ item. length item ≡ codec.frame_length) items
    → concat chunks ≡ encode_all encode codec items []
    → reads decode (read_all decode codec []) chunks ≡ sent codec items
fixed_frames_arrive codec items chunks v h e =
    reads-sent decode IsValid decode-IsFraming codec v encode (λ item. item)
      (λ item. length item ≡ codec.frame_length)
      (λ item rest k.
        subst (λ bs. decode codec (bs ++ rest) ≡ (ok (some item), codec, rest))
          (fixed-writes codec item [] k) (fixed_frame_round_trip codec item rest k).1)
      (λ item dst k. fixed-writes codec item dst k) (fixed-nothing codec v) items chunks h e
