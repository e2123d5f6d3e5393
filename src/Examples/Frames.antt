-- ===== src/Examples/Frames.antt =====
-- The framing decoders at concrete inputs.
use rs_netty.Common.{
  ℕ, zero, suc, ◌+◌, ◌≤◌, ◌≡◌, refl, true, false, some, List, [], ◌∷◌, ◌++◌, length, arith,
}
use rs_netty.Common.Bytes.{Bytes}
use rs_netty.Error.{Error, ok, err}
use rs_netty.Utf8.{is_utf8}
use rs_netty.Codec.{IsErr}
use rs_netty.Codec.Framing.{Agree, IsSettled, reads, read_all, concat, reads-eq-read_all}
use rs_netty.Codec.Framing.Sent.{encode_all, sent}
use rs_netty.Codec.FixedLength
use rs_netty.Codec.FixedLength.{FixedLengthFrameDecoder, fixed_frames_arrive}
use rs_netty.Codec.Line
use rs_netty.Codec.Line.{LineCodec, ends_with}
use rs_netty.Codec.Line.Laws.{line_loses_cr, lines_arrive}
use rs_netty.Codec.Line.Laws as LineLaws
use rs_netty.Codec.Delimiter
use rs_netty.Codec.Delimiter.{DelimiterBasedFrameDecoder}
use rs_netty.Codec.Delimiter.Laws.{delimited_frame_round_trip, split_delimiter_refused}
use rs_netty.Codec.LengthField
use rs_netty.Codec.LengthField.{
  LengthFieldBasedFrameDecoder, big_endian, little_endian, set_byte_order, new_prepender,
  set_prepender_order, prepend, frame_end_of, read_frame_length,
}
use rs_netty.Codec.LengthField.Laws.{length_frames_stable, length_frame_bounds}
use rs_netty.Codec.LengthField.RoundTrip.{one, three, length_frame_round_trip, length_too_long}

abbrev pairs : FixedLengthFrameDecoder
pairs = record { frame_length = 2 }

new-pairs : FixedLength.new 2 ≡ some pairs
unfolding FixedLength.new
new-pairs = refl

abbrev two_pairs : List Bytes
two_pairs = (1 ∷ 2 ∷ []) ∷ (3 ∷ 4 ∷ []) ∷ []

abbrev pair_chunks : List Bytes
pair_chunks = (1 ∷ []) ∷ (2 ∷ 3 ∷ []) ∷ (4 ∷ []) ∷ []

pairs_sent : concat pair_chunks ≡ encode_all FixedLength.encode pairs two_pairs []
unfolding FixedLength.encode
pairs_sent = refl

fixed_frames_arrive_example :
    reads FixedLength.decode (read_all FixedLength.decode pairs []) pair_chunks
    ≡ sent pairs two_pairs
fixed_frames_arrive_example =
    fixed_frames_arrive pairs two_pairs pair_chunks (omega arith) (refl, (refl, tt)) pairs_sent

abbrev lines : LineCodec
lines = record { max_line_len = 16 }

abbrev ab : Bytes
ab = 97 ∷ 98 ∷ []

ab_utf8 : is_utf8 ab ≡ true
unfolding is_utf8
ab_utf8 = refl

ab_ends : ends_with 13 ab ≡ false
unfolding ends_with
ab_ends = refl

line_loses_cr_example :
    Line.decode lines ((Line.encode lines (ab ++ 13 ∷ []) []).1 ++ 7 ∷ [])
    ≡ (ok (some ab), lines, 7 ∷ [])
line_loses_cr_example =
    line_loses_cr lines ab (7 ∷ []) ab_utf8 (omega arith, (omega arith, tt)) (omega arith)

abbrev ab_chunks : List Bytes
ab_chunks = (97 ∷ []) ∷ (98 ∷ 10 ∷ 97 ∷ []) ∷ (98 ∷ 10 ∷ []) ∷ []

lines_sent : concat ab_chunks ≡ encode_all Line.encode lines (ab ∷ ab ∷ []) []
unfolding Line.encode
lines_sent = refl

ab-IsLine : LineLaws.IsLine lines ab
ab-IsLine = (ab_utf8, (omega arith, (omega arith, tt)), ab_ends, omega arith)

lines_arrive_example :
    reads Line.decode (read_all Line.decode lines []) ab_chunks ≡ sent lines (ab ∷ ab ∷ [])
lines_arrive_example =
    lines_arrive lines (ab ∷ ab ∷ []) ab_chunks (ab-IsLine, (ab-IsLine, tt)) lines_sent

abbrev prefixed : LengthFieldBasedFrameDecoder
prefixed = LengthField.new 100 0 2

length_frames_stable_example :
    Agree
      (reads LengthField.decode
        (read_all LengthField.decode prefixed [])
        ((0 ∷ []) ∷ (1 ∷ 5 ∷ 0 ∷ []) ∷ []))
      (read_all LengthField.decode prefixed (concat ((0 ∷ []) ∷ (1 ∷ 5 ∷ 0 ∷ []) ∷ [])))
    × IsSettled (read_all LengthField.decode prefixed (concat ((0 ∷ []) ∷ (1 ∷ 5 ∷ 0 ∷ []) ∷ [])))
length_frames_stable_example =
    length_frames_stable prefixed ((0 ∷ []) ∷ (1 ∷ 5 ∷ 0 ∷ []) ∷ []) (omega arith)

abbrev one_frame : Bytes
one_frame = 0 ∷ 1 ∷ 5 ∷ 9 ∷ []

abbrev five : Bytes
five = 5 ∷ []

abbrev nine : Bytes
nine = 9 ∷ []

one_frame_read : LengthField.decode prefixed one_frame ≡ (ok (some five), prefixed, nine)
unfolding LengthField.decode frame_end_of read_frame_length
one_frame_read = refl

length_frame_bounds_example :
    (length five + prefixed.initial_bytes_to_strip ≤ prefixed.max_frame_length)
    × (length one_frame ≤ length nine + prefixed.max_frame_length)
length_frame_bounds_example = length_frame_bounds prefixed one_frame one_frame_read

length_frame_round_trip_example :
    ((prepend (set_prepender_order (new_prepender 3) little_endian) (7 ∷ 8 ∷ []) []).0 ≡ ok tt)
    × (LengthField.decode (set_byte_order (LengthField.new 64 0 3) little_endian) (
          (prepend (set_prepender_order (new_prepender 3) little_endian) (7 ∷ 8 ∷ []) []).1
          ++ 1 ∷ [])
        ≡ (ok (some (7 ∷ 8 ∷ [])), set_byte_order (LengthField.new 64 0 3) little_endian, 1 ∷ []))
length_frame_round_trip_example =
    length_frame_round_trip three little_endian 64 (7 ∷ 8 ∷ []) (1 ∷ []) (omega arith) (omega arith)
      (omega arith)

reads-eq-read_all_example :
    Agree
      (reads FixedLength.decode (read_all FixedLength.decode pairs (1 ∷ [])) two_pairs)
      (read_all FixedLength.decode pairs (1 ∷ [] ++ concat two_pairs))
    × IsSettled (read_all FixedLength.decode pairs (1 ∷ [] ++ concat two_pairs))
reads-eq-read_all_example =
    reads-eq-read_all FixedLength.decode FixedLength.IsValid FixedLength.decode-IsFraming pairs
      (1 ∷ []) two_pairs (omega arith)

abbrev zeros : ℕ → Bytes
zeros zero = []
zeros (suc n) = 0 ∷ zeros n

length_too_long_example :
    IsErr (prepend (set_prepender_order (new_prepender 1) big_endian) (zeros 256) (5 ∷ [])).0
    × ((prepend (set_prepender_order (new_prepender 1) big_endian) (zeros 256) (5 ∷ [])).1 ≡ 5 ∷ [])
length_too_long_example = length_too_long one big_endian (zeros 256) (5 ∷ []) (omega arith)

abbrev crlf : DelimiterBasedFrameDecoder
crlf = record { max_frame_length = 3; delimiters = (13 ∷ 10 ∷ []) ∷ []; strip_delimiter = true }

delimited_frame_round_trip_example :
    let (written, bytes) = Delimiter.encode crlf (1 ∷ 10 ∷ 13 ∷ []) [] in
    (written ≡ ok tt)
    × (Delimiter.decode crlf (bytes ++ (7 ∷ [])) ≡ (ok (some (1 ∷ 10 ∷ 13 ∷ [])), crlf, 7 ∷ []))
delimited_frame_round_trip_example =
    delimited_frame_round_trip 3 13 (10 ∷ []) (1 ∷ 10 ∷ 13 ∷ []) (7 ∷ []) crlf refl
      (refl, (refl, (refl, tt))) (omega arith)

split_delimiter_refused_example :
    (Delimiter.decode crlf (1 ∷ 2 ∷ 3 ∷ 13 ∷ 10 ∷ []) ≡ (ok (some (1 ∷ 2 ∷ 3 ∷ [])), crlf, []))
    × (Delimiter.decode crlf (1 ∷ 2 ∷ 3 ∷ 13 ∷ [])
        ≡ (err (Error.frame_too_large 4 3), crlf, 1 ∷ 2 ∷ 3 ∷ 13 ∷ []))
split_delimiter_refused_example =
    split_delimiter_refused 13 10 (1 ∷ 2 ∷ 3 ∷ []) [] crlf refl (
      (λ e. absurd (omega arith)),
      ((λ e. absurd (omega arith)), ((λ e. absurd (omega arith)), tt)),
    )
