-- ===== src/Examples/Http.antt =====
-- src/codec/http.rs at a concrete body, whose first chunk has an extension.
use rs_netty.Common.{◌<◌, ◌^◌, ◌≡◌, refl, false, some, List, [], ◌∷◌, ◌++◌, length, arith}
use rs_netty.Common.Bytes.{Bytes}
use rs_netty.Error.{ok}
use rs_netty.Utf8.{is_utf8}
use rs_netty.Codec.Http.{parse_chunk_size, trim, decode_chunked_body}
use rs_netty.Codec.Http.Bounds.{Bounded, chunked_body_bounds}
use rs_netty.Codec.Http.Laws.{IsSizeLine, wire, chunked_body_read}

-- `GET`
abbrev head : Bytes
head = 71 ∷ 69 ∷ 84 ∷ []

-- `2;a` and `1 `
abbrev two_chunks : List (Bytes × Bytes)
two_chunks = (50 ∷ 59 ∷ 97 ∷ [], 120 ∷ 13 ∷ []) ∷ (49 ∷ 32 ∷ [], 10 ∷ []) ∷ []

-- `0`
abbrev zero_line : Bytes
zero_line = 48 ∷ []

first-IsSizeLine : IsSizeLine (50 ∷ 59 ∷ 97 ∷ []) 2
unfolding is_utf8 parse_chunk_size trim
first-IsSizeLine = ((refl, (refl, (refl, tt))), refl, refl)

second-IsSizeLine : IsSizeLine (49 ∷ 32 ∷ []) 1
unfolding is_utf8 parse_chunk_size trim
second-IsSizeLine = ((refl, (refl, tt)), refl, refl)

zero-IsSizeLine : IsSizeLine zero_line 0
unfolding is_utf8 parse_chunk_size trim
zero-IsSizeLine = ((refl, tt), refl, refl)

chunked_body_read_example :
    decode_chunked_body (head ++ wire two_chunks zero_line (80 ∷ [])) 3 false 3
    ≡ ok (some (length (head ++ wire two_chunks zero_line []), 120 ∷ 13 ∷ 10 ∷ [], []))
chunked_body_read_example =
    chunked_body_read head two_chunks zero_line (80 ∷ []) 3 false
      ((first-IsSizeLine, omega arith), ((second-IsSizeLine, omega arith), tt)) zero-IsSizeLine
      (omega arith) (omega arith)

abbrev request : Bytes
request = head ++ wire two_chunks zero_line (80 ∷ [])

request_fits : length request < 2 ^ 64
request_fits = omega arith

chunked_body_bounds_example :
    Bounded request 3 false 3 request_fits (decode_chunked_body request 3 false 3)
chunked_body_bounds_example = chunked_body_bounds request 3 false 3 request_fits (omega arith)
