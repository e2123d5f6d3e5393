-- ===== src/Codec/Http/Bounds.antt =====
-- src/codec/http.rs: a chunked body is within the limit, and its end within the buffer.
use rs_netty.Common.{
  ℕ, zero, suc, ◌+◌, ◌-◌, ◌^◌, ◌≤◌, ◌<◌, ◌≡◌, refl, ap, Bool, true, false, ◌&&◌, Bool-cases, inl,
  inr, Option, none, some, Option-cases, ◌≢◌, String, ltb→le, List, [], ◌∷◌, ◌++◌, length, drop,
  ltb, leb, length-append, length-drop, length-take, arith,
}
use rs_netty.Common.Bytes.{Bytes}
use rs_netty.Common.Words.{checked_add}
use rs_netty.Error.{Error, Result, no_fuel, ok, err, map_ok, ◌>>=◌}
use rs_netty.Utf8.{from_utf8}
use rs_netty.Codec.Delimiter.{starts_with, position_of}
use rs_netty.Codec.Http.{
  crlf, slice, Field, find_crlf, find_http_header_end_from, add_offset, saturating_add, Turn,
  finished, again, turn, turns, with_trailers, last_chunk, chunk_data, line_end, chunk_ends,
  after_size, size_line, decode_chunked_body, Chunked, on_turn, parse_trailers, parse_chunk_size,
  parse_header_fields, field, kept, split_from,
}

starts_with-fits : (d src : Bytes) → starts_with d src ≡ true → length d ≤ length src
starts_with-fits [] src h = omega arith
starts_with-fits (d ∷ ds) [] h = absurd (ground arith)
starts_with-fits (d ∷ ds) (b ∷ bs) h = ground (arith, starts_with-fits ds bs)

position_of-fits : (d src : Bytes) {n : ℕ} → position_of d src ≡ some n → n + length d ≤ length src
unfolding position_of
position_of-fits d [] h = absurd (ground arith)
position_of-fits d (b ∷ bs) {n} h = elim (Bool-cases (starts_with d (b ∷ bs))) [
  | inl e ↦ ground (arith, starts_with-fits d (b ∷ bs) e)
  | inr e ↦ elim (Option-cases (position_of d bs)) [
    | inl k ↦ absurd (ground (arith, e, k))
    | inr (m, k) ↦ let fits = position_of-fits d bs k in ground (arith, e, k, fits)
  ]
]

-- A text that is found behind `pos` lies in the buffer.
found-fits :
    (d src : Bytes) (pos : ℕ) {n : ℕ}
    → 0 < length d
    → add_offset pos (position_of d (drop pos src)) ≡ some n
    → (pos ≤ n) × (n + length d ≤ length src)
found-fits d src pos {n} some_bytes h = elim (Option-cases (position_of d (drop pos src))) [
  | inl k ↦ absurd (ground (arith, k))
  | inr (m, k) ↦
      let fits = position_of-fits d (drop pos src) k in
      let e : n ≡ pos + m = ground (arith, k) in omega (arith, e, fits, length-drop pos src)
]

checked_add-eq : (a b c : ℕ) → checked_add a b ≡ some c → c ≡ a + b
checked_add-eq a b c h = ground arith

chunk_size-answers : (line : Bytes) {e : Error} → parse_chunk_size line ≡ err e → e ≢ no_fuel
unfolding parse_chunk_size
chunk_size-answers line h = λ k. ground arith

from_utf8-answers : (text : String) (bs : Bytes) → from_utf8 Error.decode text bs ≢ err no_fuel
unfolding from_utf8
from_utf8-answers text bs = λ e. ground arith

field-answers : (line : Bytes) (found : Option ℕ) → field line found ≢ err no_fuel
unfolding field
field-answers line none = λ e. ground arith
field-answers line (some n) = λ e. ground arith

header_fields-answers : (lines : List Bytes) → parse_header_fields lines ≢ err no_fuel
unfolding parse_header_fields
header_fields-answers [] = λ e. ground arith
header_fields-answers ([] ∷ lines) = header_fields-answers lines
header_fields-answers ((b ∷ bs) ∷ lines) =
    go (field (b ∷ bs) (position_of (58 ∷ []) (b ∷ bs)))
      (field-answers (b ∷ bs) (position_of (58 ∷ []) (b ∷ bs))) (parse_header_fields lines)
      (header_fields-answers lines)
  where
    go :
        (f : Result Field)
        → f ≢ err no_fuel
        → (fs : Result (List Field)) → fs ≢ err no_fuel
        → (f >>= λ x. map_ok (λ xs. x ∷ xs) fs) ≢ err no_fuel
    go (err e) h fs k = λ p. h (let same : e ≡ no_fuel = cc in ap err same)
    go (ok x) h (ok xs) k = λ p. ground arith
    go (ok x) h (err e) k = λ p. k (let same : e ≡ no_fuel = cc in ap err same)

trailers-answers : (src : Bytes) (preserve : Bool) → parse_trailers src preserve ≢ err no_fuel
unfolding parse_trailers
trailers-answers [] preserve = λ e. ground arith
trailers-answers (b ∷ bs) preserve =
    go (from_utf8 Error.decode "http trailers are not utf-8: {err}" (b ∷ bs))
      (from_utf8-answers "http trailers are not utf-8: {err}" (b ∷ bs))
  where
    kept_fields :
        (fs : Result (List Field)) → fs ≢ err no_fuel → map_ok (kept preserve) fs ≢ err no_fuel
    kept_fields (ok fs) h = λ p. ground arith
    kept_fields (err e) h = λ p. h (let same : e ≡ no_fuel = cc in ap err same)

    go :
        (text : Result Bytes)
        → text ≢ err no_fuel
        → (text >>= λ t.
            map_ok (kept preserve) (parse_header_fields (split_from (length t) crlf t)))
          ≢ err no_fuel
    go (ok t) h =
        kept_fields (parse_header_fields (split_from (length t) crlf t))
          (header_fields-answers (split_from (length t) crlf t))
    go (err e) h = λ p. h (let same : e ≡ no_fuel = cc in ap err same)

module _ (src : Bytes) (max_body_len : ℕ) (preserve_trailers : Bool) (start : ℕ)
    (fits : length src < 2 ^ 64) where
  -- The body is within the limit, and was taken from between the start and this position.
  abbrev IsWithin : ℕ → Bytes → Type 0
  IsWithin pos body =
      (length body ≤ max_body_len) × (start + length body ≤ pos) × (pos ≤ length src)

  -- What may come of the loop.
  abbrev pub Bounded : Chunked → Type 0
  Bounded (ok none) = Unit
  Bounded (ok (some (end, body, trailers))) =
      (length body ≤ max_body_len) × (start + length body < end) × (end ≤ length src)
  Bounded (err e) = e ≢ no_fuel

  -- A turn that goes on has moved on.
  abbrev Moves : ℕ → Turn → Type 0
  Moves from (finished result) = Bounded result
  Moves from (again pos body) = IsWithin pos body × (from < pos)

  last-Bounded :
      (pos : ℕ) (body : Bytes)
      → IsWithin pos body
      → Bounded (last_chunk src max_body_len preserve_trailers pos body)
  unfolding last_chunk find_http_header_end_from with_trailers
  last-Bounded pos body w =
      elim (Bool-cases (leb (pos + 2) (length src) && starts_with crlf (drop pos src))) [
        | inl e ↦ let inner : pos + 2 ≤ length src = ground arith in rw e (w.0, omega arith, inner)
        | inr e ↦ rw e (found (add_offset pos (position_of (crlf ++ crlf) (drop pos src))) refl)
      ]
    where
      parsed :
          (end : ℕ) (trailers : Result (List Field))
          → pos ≤ end
          → end + 4 ≤ length src
          → trailers ≢ err no_fuel
          → Bounded (map_ok (λ fields. some (end + 4, body, fields)) trailers)
      parsed end (ok fields) h k n = (w.0, omega arith, k)
      parsed end (err e) h k n = λ same. n (ap err same)

      found :
          (o : Option ℕ)
          → add_offset pos (position_of (crlf ++ crlf) (drop pos src)) ≡ o
          → Bounded (with_trailers src max_body_len preserve_trailers pos body o)
      found none e = tt
      found (some end) e =
          let (h, k) = found-fits (crlf ++ crlf) src pos (omega arith) e in
          parsed end (parse_trailers (slice src pos end) preserve_trailers) h (omega (arith, k))
            (trailers-answers (slice src pos end) preserve_trailers)

  -- The size of a chunk that is allowed.
  abbrev IsAllowed : Bytes → ℕ → Type 0
  IsAllowed body size = ltb max_body_len (saturating_add (length body) size) ≡ false

  chunk_data-Moves :
      (from pos size crlf_end : ℕ) (body : Bytes)
      → IsWithin pos body
      → from < pos
      → IsAllowed body size
      → crlf_end ≡ pos + size + 2
      → Moves from (chunk_data src max_body_len preserve_trailers pos body (pos + size) crlf_end)
  chunk_data-Moves from pos size crlf_end body w h allowed e =
      elim (Bool-cases (ltb (length src) crlf_end)) [
        | inl k ↦ rw k tt
        | inr k ↦
            let inside : crlf_end ≤ length src = ltb→le (length src) crlf_end k in
            rw k (elim (Bool-cases (starts_with crlf (drop (pos + size) src))) [
              | inl l ↦
                  let longer : length (body ++ slice src pos (pos + size)) ≡ length body + size =
                    omega (
                      arith,
                      length-append body (slice src pos (pos + size)),
                      length-take (pos + size - pos) (drop pos src),
                      length-drop pos src,
                    ) in
                  let limit : length body + size ≤ max_body_len = ground (arith, allowed) in
                  rw l ((omega (arith, longer), omega (arith, longer), inside), omega arith)
              | inr l ↦ rw l (λ same. ground arith)
            ])
      ]

  line_end-Moves :
      (from pos size chunk_end : ℕ) (body : Bytes) (o : Option ℕ)
      → IsWithin pos body
      → from < pos
      → IsAllowed body size
      → chunk_end ≡ pos + size
      → checked_add chunk_end 2 ≡ o
      → Moves from (line_end src max_body_len preserve_trailers pos body chunk_end o)
  line_end-Moves from pos size chunk_end body none w h allowed e k = λ same. ground arith
  line_end-Moves from pos size chunk_end body (some crlf_end) w h allowed e k = rw e (
      chunk_data-Moves from pos size crlf_end body w h allowed
        (ground (arith, checked_add-eq chunk_end 2 crlf_end k)))

  chunk_ends-Moves :
      (from pos size : ℕ) (body : Bytes) (o : Option ℕ)
      → IsWithin pos body
      → from < pos
      → IsAllowed body size
      → checked_add pos size ≡ o
      → Moves from (chunk_ends src max_body_len preserve_trailers pos body o)
  chunk_ends-Moves from pos size body none w h allowed k = λ same. ground arith
  chunk_ends-Moves from pos size body (some chunk_end) w h allowed k =
      line_end-Moves from pos size chunk_end body (checked_add chunk_end 2) w h allowed
        (checked_add-eq pos size chunk_end k) refl

  data-Moves :
      (from pos n : ℕ) (body : Bytes)
      → IsWithin pos body
      → from < pos
      → Moves from (after_size src max_body_len preserve_trailers pos body (ok (suc n)))
  unfolding after_size
  data-Moves from pos n body w h =
      elim (Bool-cases (ltb max_body_len (saturating_add (length body) (suc n)))) [
        | inl e ↦ rw e (λ k. ground arith)
        | inr e ↦ rw e (chunk_ends-Moves from pos (suc n) body (checked_add pos (suc n)) w h e refl)
      ]

  size_line-Moves :
      (pos : ℕ) (body : Bytes)
      → IsWithin pos body
      → Moves pos (turn src max_body_len preserve_trailers pos body)
  unfolding turn find_crlf size_line after_size
  size_line-Moves pos body w = found (add_offset pos (position_of crlf (drop pos src))) refl
    where
      sized :
          (end : ℕ) (size : Result ℕ)
          → pos ≤ end
          → end + 2 ≤ length src
          → size ≢ err no_fuel
          → Moves pos (after_size src max_body_len preserve_trailers (end + 2) body size)
      sized end (err e) h k n = λ same. n (ap err same)
      sized end (ok zero) h k n = last-Bounded (end + 2) body (w.0, omega (arith, w.1), k)
      sized end (ok (suc n)) h k l =
          data-Moves pos (end + 2) n body (w.0, omega (arith, w.1), k) (omega arith)

      read : (text : Result Bytes) → text ≢ err no_fuel → (text >>= parse_chunk_size) ≢ err no_fuel
      read (ok line) h = λ same. chunk_size-answers line same refl
      read (err e) h = λ same. let k : e ≡ no_fuel = cc in h (ap err k)

      found :
          (o : Option ℕ)
          → add_offset pos (position_of crlf (drop pos src)) ≡ o
          → Moves pos (size_line src max_body_len preserve_trailers pos body o)
      found none e = tt
      found (some end) e =
          let (h, k) = found-fits crlf src pos (omega arith) e in
          sized end
            (from_utf8 Error.decode "chunk size line is not utf-8: {err}" (slice src pos end)
              >>= parse_chunk_size)
            h k
            (read (from_utf8 Error.decode "chunk size line is not utf-8: {err}" (slice src pos end))
              (from_utf8-answers "chunk size line is not utf-8: {err}" (slice src pos end)))

  turns-Bounded :
      (fuel pos : ℕ) (body : Bytes)
      → IsWithin pos body
      → length src - pos < fuel
      → Bounded (turns src max_body_len preserve_trailers fuel pos body)
  unfolding turns
  turns-Bounded zero pos body w h = elim h [ ]
  turns-Bounded (suc fuel) pos body w h =
      go (turn src max_body_len preserve_trailers pos body) (size_line-Moves pos body w)
        (λ pos' body' w' k. turns-Bounded fuel pos' body' w' k)
    where
      go :
          (t : Turn)
          → Moves pos t
          → ((pos' : ℕ) (body' : Bytes)
              → IsWithin pos' body'
              → length src - pos' < fuel
              → Bounded (turns src max_body_len preserve_trailers fuel pos' body'))
          → Bounded (
              on_turn src max_body_len preserve_trailers
                (turns src max_body_len preserve_trailers fuel)
                t)
      go (finished result) m ih = m
      go (again pos' body') (w', k) ih = ih pos' body' w' (omega (arith, w'.2))

  -- From a start in a buffer of fewer than 2 ^ 64 bytes: the decoder waits, or fails with an error of the
  -- program, as its loop always has fuel, or returns a body within the limit and an end of its last chunk
  -- in the buffer, behind the start by more than the body.
  pub chunked_body_bounds :
      start ≤ length src → Bounded (decode_chunked_body src max_body_len preserve_trailers start)
  unfolding decode_chunked_body
  chunked_body_bounds h =
      turns-Bounded (suc (length src)) start [] (omega arith, omega arith, h) (omega arith)
