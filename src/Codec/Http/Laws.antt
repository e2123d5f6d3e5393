-- ===== src/Codec/Http/Laws.antt =====
-- src/codec/http.rs: a chunked body is read back.
use rs_netty.Common.{
  ℕ, zero, suc, ◌+◌, ◌-◌, ◌^◌, ◌≤◌, ◌<◌, ◌≡◌, refl, sym, ap, ◌∙◌, Bool, true, false, some, List, [],
  ◌∷◌, ◌++◌, append-nil, append_assoc, length, drop, All, ltb, leb, length-append, length-drop,
  drop-drop, take-length_append, drop-length_append, le→ltb, lt→ltb, ap₂, arith,
}
use rs_netty.Common.Bytes.{Bytes}
use rs_netty.Common.Words.{checked_add}
use rs_netty.Error.{Error, ok}
use rs_netty.Utf8.{is_utf8, from_utf8_ok}
use rs_netty.Codec.Delimiter.Laws.{Absent, position_of-Absent}
use rs_netty.Codec.Http.{
  crlf, slice, parse_chunk_size, find_crlf, saturating_add, finished, again, turn, turns,
  after_size, size_line, last_chunk, decode_chunked_body,
}

-- What stands at a position, and behind it.
slice-at :
    (src : Bytes) (pos : ℕ) (xs ys : Bytes)
    → drop pos src ≡ xs ++ ys
    → slice src pos (pos + length xs) ≡ xs
slice-at src pos xs ys e =
    let n : pos + length xs - pos ≡ length xs = omega arith in rw (n, e) (take-length_append xs ys)

drop-behind :
    (src : Bytes) (pos : ℕ) (xs ys : Bytes)
    → drop pos src ≡ xs ++ ys
    → drop (pos + length xs) src ≡ ys
drop-behind src pos xs ys e =
    drop-drop pos (length xs) src ∙ ap (drop (length xs)) e ∙ drop-length_append xs ys

-- What stands at a position is inside the buffer.
inside :
    (src : Bytes) (pos : ℕ) (xs ys : Bytes)
    → drop pos src ≡ xs ++ ys
    → 0 < length xs
    → pos + length xs ≤ length src
inside src pos xs ys e h =
    let n : length (drop pos src) ≡ length (xs ++ ys) = ap length e in
    omega (arith, n, length-drop pos src, length-append xs ys)

checked_add_fits : (a b : ℕ) → a + b < 2 ^ 64 → checked_add a b ≡ some (a + b)
checked_add_fits a b h = rw (lt→ltb (a + b) (2 ^ 64) h) refl

saturating_add_within : (a b max : ℕ) → a + b ≤ max → ltb max (saturating_add a b) ≡ false
saturating_add_within a b max h = ground arith

-- The decoder reads this size from the line: UTF-8 and without a line end, it may have an extension.
abbrev pub IsSizeLine : Bytes → ℕ → Type 0
IsSizeLine line n = Absent crlf line × (is_utf8 line ≡ true) × (parse_chunk_size line ≡ ok n)

-- A chunk: its size line, and data of this size, which is not empty.
abbrev pub IsChunk : Bytes × Bytes → Type 0
IsChunk (line, bytes) = IsSizeLine line (length bytes) × (0 < length bytes)

-- The chunks, and the last chunk without trailers, as RFC 9112 lays them out.
abbrev pub wire : List (Bytes × Bytes) → Bytes → Bytes → Bytes
wire [] last rest = last ++ (crlf ++ (crlf ++ rest))
wire ((line, bytes) ∷ chunks) last rest =
    line ++ (crlf ++ (bytes ++ (crlf ++ wire chunks last rest)))

abbrev pub body_of : List (Bytes × Bytes) → Bytes
body_of [] = []
body_of ((line, bytes) ∷ chunks) = bytes ++ body_of chunks

length-wire :
    (chunks : List (Bytes × Bytes)) (last rest : Bytes)
    → length chunks ≤ length (wire chunks last rest)
length-wire [] last rest = omega arith
length-wire ((line, bytes) ∷ chunks) last rest = omega (
  arith,
  length-wire chunks last rest,
  length-append line (crlf ++ (bytes ++ (crlf ++ wire chunks last rest))),
  length-append bytes (crlf ++ wire chunks last rest),
)

length-wire_chunk :
    (line bytes : Bytes) (chunks : List (Bytes × Bytes)) (last : Bytes)
    → length (wire ((line, bytes) ∷ chunks) last [])
      ≡ length line + 2 + length bytes + 2 + length (wire chunks last [])
length-wire_chunk line bytes chunks last = omega (
  arith,
  length-append line (crlf ++ (bytes ++ (crlf ++ wire chunks last []))),
  length-append bytes (crlf ++ wire chunks last []),
)

le→leb : (a b : ℕ) → a ≤ b → leb a b ≡ true
le→leb a b h = ground arith

module _ (src : Bytes) (max_body_len : ℕ) (preserve_trailers : Bool)
    (fits : length src + 2 < 2 ^ 64) where
  -- A chunk's data and the line end behind it.
  data_read :
      (pos : ℕ) (body : Bytes) (d : ℕ) (ds tail : Bytes)
      → drop pos src ≡ (d ∷ ds) ++ (crlf ++ tail)
      → length body + length (d ∷ ds) ≤ max_body_len
      → after_size src max_body_len preserve_trailers pos body (ok (length (d ∷ ds)))
        ≡ again (pos + length (d ∷ ds) + 2) (body ++ (d ∷ ds))
  unfolding after_size
  data_read pos body d ds tail e h =
      let behind : drop (pos + length (d ∷ ds)) src ≡ crlf ++ tail =
        drop-behind src pos (d ∷ ds) (crlf ++ tail) e in
      let inner : pos + length (d ∷ ds) + 2 ≤ length src =
        inside src (pos + length (d ∷ ds)) crlf tail behind (omega arith) in
      rw
        (
          saturating_add_within (length body) (length (d ∷ ds)) max_body_len h,
          checked_add_fits pos (length (d ∷ ds)) (omega arith),
          checked_add_fits (pos + length (d ∷ ds)) 2 (omega arith),
          le→ltb (length src) (pos + length (d ∷ ds) + 2) inner,
          behind,
          slice-at src pos (d ∷ ds) (crlf ++ tail) e,
        )
        refl

  line_read :
      (pos n : ℕ) (body line tail : Bytes)
      → drop pos src ≡ line ++ (crlf ++ tail)
      → IsSizeLine line n
      → turn src max_body_len preserve_trailers pos body
        ≡ after_size src max_body_len preserve_trailers (pos + length line + 2) body (ok n)
  unfolding turn find_crlf size_line
  line_read pos n body line tail e (absent, utf8, size) =
      rw
        (
          e,
          position_of-Absent 13 (10 ∷ []) line tail absent,
          slice-at src pos line (crlf ++ tail) e,
          from_utf8_ok Error.decode "chunk size line is not utf-8: {err}" line utf8,
          size,
        )
        refl

  last_read :
      (pos : ℕ) (body last rest : Bytes)
      → drop pos src ≡ last ++ (crlf ++ (crlf ++ rest))
      → IsSizeLine last 0
      → turn src max_body_len preserve_trailers pos body
        ≡ finished (ok (some (pos + length last + 2 + 2, body, [])))
  unfolding after_size last_chunk
  last_read pos body last rest e h =
      let behind : drop (pos + length last + 2) src ≡ crlf ++ rest =
        drop-behind src (pos + length last) crlf (crlf ++ rest)
          (drop-behind src pos last (crlf ++ (crlf ++ rest)) e) in
      let inner : pos + length last + 2 + 2 ≤ length src =
        inside src (pos + length last + 2) crlf rest behind (omega arith) in
      line_read pos 0 body last (crlf ++ rest) e h
      ∙ rw (le→leb (pos + length last + 2 + 2) (length src) inner, behind) refl

  chunk_read :
      (pos : ℕ) (body line bytes tail : Bytes)
      → drop pos src ≡ line ++ (crlf ++ (bytes ++ (crlf ++ tail)))
      → IsChunk (line, bytes)
      → length body + length bytes ≤ max_body_len
      → turn src max_body_len preserve_trailers pos body
        ≡ again (pos + length line + 2 + length bytes + 2) (body ++ bytes)
  chunk_read pos body line [] tail e (h, nonempty) k = absurd (omega arith)
  chunk_read pos body line (d ∷ ds) tail e (h, nonempty) k =
      line_read pos (length (d ∷ ds)) body line ((d ∷ ds) ++ (crlf ++ tail)) e h
      ∙ data_read (pos + length line + 2) body d ds tail
          (drop-behind src (pos + length line) crlf ((d ∷ ds) ++ (crlf ++ tail))
            (drop-behind src pos line (crlf ++ ((d ∷ ds) ++ (crlf ++ tail))) e))
          k

  turns-wire :
      (chunks : List (Bytes × Bytes)) (fuel pos : ℕ) (body last rest : Bytes)
      → drop pos src ≡ wire chunks last rest
      → All IsChunk chunks
      → IsSizeLine last 0
      → length body + length (body_of chunks) ≤ max_body_len
      → length chunks < fuel
      → turns src max_body_len preserve_trailers fuel pos body
        ≡ ok (some (pos + length (wire chunks last []), body ++ body_of chunks, []))
  unfolding turns
  turns-wire chunks zero pos body last rest e h l k f = absurd (omega arith)
  turns-wire [] (suc fuel) pos body last rest e h l k f =
      let n : pos + length (last ++ (crlf ++ (crlf ++ []))) ≡ pos + length last + 2 + 2 =
        omega (arith, length-append last (crlf ++ (crlf ++ []))) in
      rw (last_read pos body last rest e l, n, append-nil) refl
  turns-wire ((line, bytes) ∷ chunks) (suc fuel) pos body last rest e (c, h) l k f =
      let tail : Bytes = wire chunks last rest in
      let end : ℕ = pos + length line + 2 + length bytes in
      let behind : drop (end + 2) src ≡ tail = drop-behind src end crlf tail (
        drop-behind src (pos + length line + 2) bytes (crlf ++ tail) (
          drop-behind src (pos + length line) crlf (bytes ++ (crlf ++ tail))
            (drop-behind src pos line (crlf ++ (bytes ++ (crlf ++ tail))) e))) in
      rw
        (chunk_read pos body line bytes tail e c
          (omega (arith, length-append bytes (body_of chunks))))
        (turns-wire chunks fuel (end + 2) (body ++ bytes) last rest behind h l
            (omega (arith, length-append bytes (body_of chunks), length-append body bytes))
            (omega arith)
          ∙ ap₂ (λ (n : ℕ) (b : Bytes). ok (some (n, b, [])))
              (omega (arith, length-wire_chunk line bytes chunks last))
              (append_assoc body bytes (body_of chunks)))

-- A request is followed by chunks with data, of sizes that the decoder reads from their lines, and by
-- the last chunk without trailers; the data fits in the limit, and the buffer in memory. The decoder
-- returns the data of all chunks in order, and the end of the last chunk, whatever is behind it.
pub chunked_body_read :
    (head : Bytes) (chunks : List (Bytes × Bytes)) (last rest : Bytes) (max_body_len : ℕ)
    (preserve_trailers : Bool)
    → All IsChunk chunks
    → IsSizeLine last 0
    → length (body_of chunks) ≤ max_body_len
    → length (head ++ wire chunks last rest) + 2 < 2 ^ 64
    → decode_chunked_body
        (head ++ wire chunks last rest)
        max_body_len
        preserve_trailers
        (length head)
      ≡ ok (some (length (head ++ wire chunks last []), body_of chunks, []))
unfolding decode_chunked_body
chunked_body_read head chunks last rest max_body_len preserve_trailers h l k fits =
    turns-wire (head ++ wire chunks last rest) max_body_len preserve_trailers fits chunks
      (suc (length (head ++ wire chunks last rest))) (length head) [] last rest
      (drop-length_append head (wire chunks last rest)) h l (omega (arith, k))
      (omega (arith, length-wire chunks last rest, length-append head (wire chunks last rest)))
    ∙ ap (λ (n : ℕ). ok (some (n, body_of chunks, [])))
        (sym (length-append head (wire chunks last [])))
