-- ===== src/Codec/LengthField/Laws.antt =====
-- `LengthFieldBasedFrameDecoder` as a framing of the stream.
use rs_netty.Common.{
  ℕ, ◌+◌, ◌≤◌, ◌<◌, ◌≡◌, some, inl, inr, List, [], ◌++◌, length, take, drop, arith, length-append,
  length-drop, length-take, take-append, drop-append,
}
use rs_netty.Common.Bytes.{Bytes}
use rs_netty.Error.{ok, err, Error, Result-cases}
use rs_netty.Codec.{IsErr, IsFraming}
use rs_netty.Codec.Framing.{Agree, IsSettled, reads, read_all, concat, reads-eq-read_all}
use rs_netty.Codec.LengthField.{
  LengthFieldBasedFrameDecoder, IsConfigured, read_frame_length, frame_end_of, decode,
}

abbrev field_end : LengthFieldBasedFrameDecoder → ℕ
field_end s = s.length_field_offset + s.length_field_length

read_frame_length-append :
    (s : LengthFieldBasedFrameDecoder) (src more : Bytes)
    → field_end s ≤ length src
    → read_frame_length s (src ++ more) ≡ read_frame_length s src
unfolding read_frame_length
read_frame_length-append s src more h = rw (drop-same, take-same)
  where
    off : s.length_field_offset ≤ length src
    off = omega arith

    drop-same : drop s.length_field_offset (src ++ more) ≡ drop s.length_field_offset src ++ more
    drop-same = drop-append s.length_field_offset src more off

    take-same :
        take s.length_field_length (drop s.length_field_offset src ++ more)
        ≡ take s.length_field_length (drop s.length_field_offset src)
    take-same =
        take-append s.length_field_length (drop s.length_field_offset src) more
          (omega (arith, length-drop s.length_field_offset src))

frame_end_of-append :
    (s : LengthFieldBasedFrameDecoder) (src more : Bytes)
    → field_end s ≤ length src
    → frame_end_of s (src ++ more) ≡ frame_end_of s src
unfolding frame_end_of
frame_end_of-append s src more h = rw (read_frame_length-append s src more h)

-- A frame holds its length field, which is a byte at least, and is within the limit.
pub frame_end_bounds :
    (s : LengthFieldBasedFrameDecoder) (src : Bytes) {n : ℕ}
    → frame_end_of s src ≡ ok n
    → (0 < n) × (field_end s ≤ n) × (n ≤ s.max_frame_length)
unfolding frame_end_of read_frame_length
frame_end_bounds s src h = ground arith

decode-frames :
    (s : LengthFieldBasedFrameDecoder) (buf more : Bytes) {x : Bytes}
    {s' : LengthFieldBasedFrameDecoder} {rest : Bytes}
    → IsConfigured s
    → decode s buf ≡ (ok (some x), s', rest)
    → IsConfigured s'
      × (length rest < length buf)
      × (decode s (buf ++ more) ≡ (ok (some x), s', rest ++ more))
unfolding decode
decode-frames s buf more v e = elim (Result-cases (frame_end_of s buf)) [
  | inl (n, at) ↦ ground (
    arith,
    at,
    frame_end_bounds s buf at,
    frame_end_of-append s buf more,
    length-append buf more,
    length-drop n buf,
    take-append n buf more,
    drop-append n buf more,
  )
  | inr (failure, at) ↦ ground (arith, at)
]

decode-fails :
    (s : LengthFieldBasedFrameDecoder) (buf more : Bytes) {x : Error}
    {s' : LengthFieldBasedFrameDecoder} {rest : Bytes}
    → decode s buf ≡ (err x, s', rest)
    → IsErr (decode s (buf ++ more)).0
unfolding decode
decode-fails s buf more e = ground (arith, frame_end_of-append s buf more, length-append buf more)

pub decode-IsFraming : IsFraming decode IsConfigured
decode-IsFraming = record {
  waits = λ s buf v e. unfold decode in ground arith;
  frames = λ s buf more v e. decode-frames s buf more v e;
  fails = λ s buf more v e. decode-fails s buf more e;
}

-- For every configuration in which the length field ends within a `usize`: however the bytes of a
-- connection are cut into reads, the decoder gives the frames, or the failure, of the whole stream, and
-- its decoding loop ends.
pub length_frames_stable :
    (codec : LengthFieldBasedFrameDecoder) (chunks : List Bytes)
    → IsConfigured codec
    → Agree (reads decode (read_all decode codec []) chunks) (read_all decode codec (concat chunks))
      × IsSettled (read_all decode codec (concat chunks))
length_frames_stable codec chunks h =
    reads-eq-read_all decode IsConfigured decode-IsFraming codec [] chunks h

-- No frame that `decode` returns is longer than `max_frame_length`, and returning it takes at most so
-- many bytes from the buffer.
pub length_frame_bounds :
    (codec : LengthFieldBasedFrameDecoder) (buf : Bytes) {x : Bytes}
    {codec' : LengthFieldBasedFrameDecoder} {rest : Bytes}
    → decode codec buf ≡ (ok (some x), codec', rest)
    → (length x + codec.initial_bytes_to_strip ≤ codec.max_frame_length)
      × (length buf ≤ length rest + codec.max_frame_length)
unfolding decode
length_frame_bounds codec buf e = elim (Result-cases (frame_end_of codec buf)) [
  | inl (n, at) ↦ ground (
    arith,
    at,
    frame_end_bounds codec buf at,
    length-drop n buf,
    length-take n buf,
    length-drop codec.initial_bytes_to_strip (take n buf),
  )
  | inr (failure, at) ↦ ground (arith, at)
]
