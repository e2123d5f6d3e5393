-- ===== src/Codec/Line/Laws.antt =====
-- `LineCodec` as a framing of the stream, and its round trip.
use rs_netty.Common.{
  ℕ, suc, ◌+◌, ◌-◌, ◌≤◌, ◌<◌, ◌≡◌, ◌≢◌, refl, ap, true, false, Option, none, some, Option-cases,
  inl, inr, List, [], ◌∷◌, ◌++◌, length, take, drop, All, arith, length-append, length-drop,
  take-append, drop-append, take-length_append, append_assoc, All-append,
}
use rs_netty.Common.Bytes.{Bytes}
use rs_netty.Error.{ok, err, Error, map_ok}
use rs_netty.Utf8.{from_utf8, is_utf8, from_utf8_ok}
use rs_netty.Codec.{IsErr, IsFraming}
use rs_netty.Codec.Framing.Sent.{encode_all, sent, reads-sent}
use rs_netty.Codec.Framing.{Agree, IsSettled, reads, read_all, concat, reads-eq-read_all}
use rs_netty.Codec.Line.{LineCodec, position, ends_with, strip_cr, decode, encode}

abbrev or_later : Option ℕ → ℕ → Option ℕ → Option ℕ
or_later (some p) n later = some p
or_later none n none = none
or_later none n (some q) = some (n + q)

-- The first occurrence stays the first when bytes are added behind it.
position-append :
    (c : ℕ) (xs ys : Bytes)
    → position c (xs ++ ys) ≡ or_later (position c xs) (length xs) (position c ys)
unfolding position
position-append c [] ys = ground arith
position-append c (x ∷ xs) ys = ground (arith, position-append c xs ys)

abbrev Below : ℕ → Option ℕ → Type 0
Below n none = Unit
Below n (some p) = p < n

position-Below : (c : ℕ) (xs : Bytes) → Below (length xs) (position c xs)
unfolding position
position-Below c [] = tt
position-Below c (x ∷ xs) = ground (arith, position-Below c xs)

-- An item without `c` reaches up to the `c` behind it.
position_of_end :
    (c : ℕ) (xs ys : Bytes) → All (λ b. b ≢ c) xs → position c (xs ++ c ∷ ys) ≡ some (length xs)
unfolding position
position_of_end c [] ys h = ground arith
position_of_end c (x ∷ xs) ys h = ground (arith, position_of_end c xs ys h.1)

decode-frames :
    (s : LineCodec) (buf more : Bytes) {x : Bytes} {s' : LineCodec} {rest : Bytes}
    → decode s buf ≡ (ok (some x), s', rest)
    → (length rest < length buf) × (decode s (buf ++ more) ≡ (ok (some x), s', rest ++ more))
unfolding decode
decode-frames s buf more e = elim (Option-cases (position 10 buf)) [
  | inl absent ↦ ground arith
  | inr (p, at) ↦
      let below : p < length buf = rw at at (position-Below 10 buf) in
      ground (
        arith,
        position-append 10 buf more,
        length-drop (p + 1) buf,
        take-append p buf more,
        drop-append (p + 1) buf more,
      )
]

decode-fails :
    (s : LineCodec) (buf more : Bytes) {x : Error} {s' : LineCodec} {rest : Bytes}
    → decode s buf ≡ (err x, s', rest)
    → IsErr (decode s (buf ++ more)).0
unfolding decode
decode-fails s buf more e = elim (Option-cases (position 10 buf)) [
  | inl absent ↦ ground (arith, position-append 10 buf more, length-append buf more)
  | inr (p, at) ↦
      let below : p < length buf = rw at at (position-Below 10 buf) in
      ground (arith, position-append 10 buf more, take-append p buf more)
]

pub decode-IsFraming : IsFraming decode (λ s. Unit)
decode-IsFraming = record {
  waits = λ s buf v e. unfold decode in ground arith;
  frames =
      λ s buf more v e. let (shorter, longer) = decode-frames s buf more e in (tt, shorter, longer);
  fails = λ s buf more v e. decode-fails s buf more e;
}

-- However the bytes of a connection are cut into reads, the codec gives the lines, or the failure,
-- of the whole stream, and its decoding loop ends.
pub lines_stable :
    (codec : LineCodec) (chunks : List Bytes)
    → Agree (reads decode (read_all decode codec []) chunks) (read_all decode codec (concat chunks))
      × IsSettled (read_all decode codec (concat chunks))
lines_stable codec chunks = reads-eq-read_all decode (λ s. Unit) decode-IsFraming codec [] chunks tt

drop-line : (line rest : Bytes) → drop (length line + 1) (line ++ 10 ∷ rest) ≡ rest
drop-line [] rest = refl
drop-line (b ∷ line) rest =
    let e : suc (length line) + 1 ≡ suc (length line + 1) = omega arith in
    rw e (drop-line line rest)

-- A line within the limit, with its end and any bytes behind it.
decode_line :
    (codec : LineCodec) (line rest : Bytes)
    → All (λ b. b ≢ 10) line
    → length line ≤ codec.max_line_len
    → decode codec (line ++ 10 ∷ rest)
      ≡ (map_ok some (from_utf8 Error.decode "{err}" (strip_cr line)), codec, rest)
unfolding decode
decode_line codec line rest no_newline fits = ground (
  arith,
  position_of_end 10 line rest no_newline,
  take-length_append line (10 ∷ rest),
  drop-line line rest,
)

line_sent :
    (codec : LineCodec) (line rest : Bytes)
    → All (λ b. b ≢ 10) line
    → length line ≤ codec.max_line_len
    → decode codec ((encode codec line []).1 ++ rest)
      ≡ (map_ok some (from_utf8 Error.decode "{err}" (strip_cr line)), codec, rest)
unfolding encode
line_sent codec line rest no_newline fits =
    rw (append_assoc line (10 ∷ []) rest) (decode_line codec line rest no_newline fits)

ends_with-append : (c : ℕ) (xs : Bytes) → ends_with c (xs ++ c ∷ []) ≡ true
unfolding ends_with
ends_with-append c [] = ground arith
ends_with-append c (x ∷ []) = ground arith
ends_with-append c (x ∷ y ∷ xs) = ends_with-append c (y ∷ xs)

strip_cr-append : (line : Bytes) → strip_cr (line ++ 13 ∷ []) ≡ line
unfolding strip_cr
strip_cr-append line = ground (
  arith,
  ends_with-append 13 line,
  take-length_append line (13 ∷ []),
  ap (λ (n : ℕ). take n (line ++ 13 ∷ [])) shorter,
)
  where
    shorter : length (line ++ 13 ∷ []) - 1 ≡ length line
    shorter = omega (arith, length-append line (13 ∷ []))

-- A line that is UTF-8, holds no `\n`, does not end in `\r` and is within the limit comes back from
-- decoding what `encode` wrote, and the bytes behind it stay.
pub line_round_trip :
    (codec : LineCodec) (item rest : Bytes)
    → is_utf8 item ≡ true
    → All (λ b. b ≢ 10) item
    → ends_with 13 item ≡ false
    → length item ≤ codec.max_line_len
    → decode codec ((encode codec item []).1 ++ rest) ≡ (ok (some item), codec, rest)
unfolding strip_cr
line_round_trip codec item rest utf8 no_newline no_return fits =
    rw (line_sent codec item rest no_newline fits, no_return)
      (rw (from_utf8_ok Error.decode "{err}" item utf8))

-- Of a UTF-8 text without `\n`, shorter than the limit, that is encoded with a `\r` behind it, the text
-- comes back from decoding and the `\r` does not.
pub line_loses_cr :
    (codec : LineCodec) (item rest : Bytes)
    → is_utf8 item ≡ true
    → All (λ b. b ≢ 10) item
    → length item < codec.max_line_len
    → decode codec ((encode codec (item ++ 13 ∷ []) []).1 ++ rest) ≡ (ok (some item), codec, rest)
line_loses_cr codec item rest utf8 no_newline fits = rw (
  line_sent codec (item ++ 13 ∷ []) rest
      (All-append (λ b. b ≢ 10) item (13 ∷ []) no_newline (omega arith))
      (omega (arith, length-append item (13 ∷ []))),
  strip_cr-append item,
  from_utf8_ok Error.decode "{err}" item utf8,
)

-- A text that is one line: UTF-8, without `\n`, not ending in `\r`, and within the codec's limit.
abbrev pub IsLine : LineCodec → Bytes → Type 0
IsLine codec item =
    (is_utf8 item ≡ true)
    × All (λ b. b ≢ 10) item
    × (ends_with 13 item ≡ false)
    × (length item ≤ codec.max_line_len)

line-nothing : (codec : LineCodec) → decode codec [] ≡ (ok none, codec, [])
unfolding decode
line-nothing codec = ground arith

line-writes :
    (codec : LineCodec) (item dst : Bytes) → (encode codec item dst).1 ≡ dst ++ (item ++ 10 ∷ [])
unfolding encode
line-writes codec item dst = refl

-- Texts that are UTF-8, hold no `\n`, do not end in `\r` and are within the limit are encoded into one
-- buffer. When its bytes arrive in any chunks, they are decoded to the same texts in the same order,
-- with nothing left over.
pub lines_arrive :
    (codec : LineCodec) (items chunks : List Bytes)
    → All (IsLine codec) items
    → concat chunks ≡ encode_all encode codec items []
    → reads decode (read_all decode codec []) chunks ≡ sent codec items
unfolding encode
lines_arrive codec items chunks h e =
    reads-sent decode (λ s. Unit) decode-IsFraming codec tt encode (λ item. item ++ 10 ∷ [])
      (IsLine codec) (λ item rest k. line_round_trip codec item rest k.0 k.1 k.2 k.3)
      (λ item dst k. line-writes codec item dst) (line-nothing codec) items chunks h e
