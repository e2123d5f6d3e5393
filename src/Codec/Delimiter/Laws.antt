-- ===== src/Codec/Delimiter/Laws.antt =====
-- Delimited frames: the round trip, and the delimiter that is cut by a read.
use rs_netty.Common.{
  ℕ, ◌+◌, ◌≤◌, ◌<◌, ◌≡◌, ◌≢◌, refl, sym, ap, subst, ◌∙◌, true, false, ◌&&◌, none, some, [], ◌∷◌,
  ◌++◌, append_assoc, length, length-append, take-length_append, drop-append_both, All, ◌==◌,
  le→ltb, lt→ltb, arith,
}
use rs_netty.Common.Bytes.{Bytes}
use rs_netty.Error.{ok, err, Error}
use rs_netty.Codec.Delimiter.{
  DelimiterBasedFrameDecoder, new, starts_with, position_of, find_delimiter, decode, encode,
}

-- The delimiter begins nowhere in the item, also not across its end.
abbrev pub Absent : Bytes → Bytes → Type 0
Absent delimiter [] = Unit
Absent delimiter (b ∷ bs) =
    (starts_with delimiter ((b ∷ bs) ++ delimiter) ≡ false) × Absent delimiter bs

starts_with-append :
    (d src rest : Bytes) → length d ≤ length src → starts_with d (src ++ rest) ≡ starts_with d src
starts_with-append [] src rest h = refl
starts_with-append (d ∷ ds) [] rest h = absurd (omega arith)
starts_with-append (d ∷ ds) (b ∷ bs) rest h =
    ap (λ t. b == d && t) (starts_with-append ds bs rest (omega arith))

starts_with_self : (d rest : Bytes) → starts_with d (d ++ rest) ≡ true
starts_with_self [] rest = refl
starts_with_self (d ∷ ds) rest = ground (arith, starts_with_self ds rest)

pub position_of-Absent :
    (d0 : ℕ) (d item rest : Bytes)
    → Absent (d0 ∷ d) item
    → position_of (d0 ∷ d) (item ++ ((d0 ∷ d) ++ rest)) ≡ some (length item)
unfolding position_of
position_of-Absent d0 d [] rest h = rw (starts_with_self (d0 ∷ d) rest) refl
position_of-Absent d0 d (b ∷ bs) rest h =
    let same : starts_with (d0 ∷ d) ((b ∷ bs) ++ ((d0 ∷ d) ++ rest)) ≡ false =
      ap (starts_with (d0 ∷ d)) (sym (append_assoc (b ∷ bs) (d0 ∷ d) rest))
      ∙ starts_with-append (d0 ∷ d) ((b ∷ bs) ++ (d0 ∷ d)) rest
          (omega (arith, length-append bs (d0 ∷ d)))
      ∙ h.0 in
    rw (same, position_of-Absent d0 d bs rest h.1) refl

-- The decoder that `new` makes.
abbrev one_delimiter : ℕ → Bytes → DelimiterBasedFrameDecoder
one_delimiter max delimiter = record {
  max_frame_length = max;
  delimiters = delimiter ∷ [];
  strip_delimiter = true;
}

new-one_delimiter :
    (max d0 : ℕ) (d : Bytes) (codec : DelimiterBasedFrameDecoder)
    → new max (d0 ∷ d) ≡ some codec
    → one_delimiter max (d0 ∷ d) ≡ codec
new-one_delimiter max d0 d codec made = cc

decode_at :
    (max : ℕ) (delimiter item rest : Bytes)
    → position_of delimiter (item ++ (delimiter ++ rest)) ≡ some (length item)
    → length item ≤ max
    → decode (one_delimiter max delimiter) (item ++ (delimiter ++ rest))
      ≡ (ok (some item), one_delimiter max delimiter, rest)
unfolding decode find_delimiter
decode_at max delimiter item rest e h =
    rw
      (
        e,
        le→ltb max (length item) h,
        take-length_append item (delimiter ++ rest),
        drop-append_both item delimiter rest,
      )
      refl

-- For a decoder that `new` made with a delimiter that is not empty: an item in which the delimiter does
-- not begin, and within the limit, is encoded and decoded back, and the bytes behind it are left.
pub delimited_frame_round_trip :
    (max d0 : ℕ) (d item rest : Bytes) (codec : DelimiterBasedFrameDecoder)
    → new max (d0 ∷ d) ≡ some codec
    → Absent (d0 ∷ d) item
    → length item ≤ max
    → let (written, bytes) = encode codec item [] in
      (written ≡ ok tt) × (decode codec (bytes ++ rest) ≡ (ok (some item), codec, rest))
unfolding encode
delimited_frame_round_trip max d0 d item rest codec made h fits =
    subst
      (λ c.
        ((encode c item []).0 ≡ ok tt)
        × (decode c ((encode c item []).1 ++ rest) ≡ (ok (some item), c, rest)))
      (new-one_delimiter max d0 d codec made)
      (
        refl,
        ap (decode (one_delimiter max (d0 ∷ d))) (append_assoc item (d0 ∷ d) rest)
            ∙ decode_at max (d0 ∷ d) item rest (position_of-Absent d0 d item rest h) fits,
      )

-- Without its first byte a delimiter of two begins nowhere.
Absent-first : (d e : ℕ) (frame : Bytes) → All (λ b. b ≢ d) frame → Absent (d ∷ e ∷ []) frame
Absent-first d e [] h = tt
Absent-first d e (b ∷ bs) h = (ground arith, Absent-first d e bs h.1)

position_of-half :
    (d e : ℕ) (frame : Bytes)
    → All (λ b. b ≢ d) frame
    → position_of (d ∷ e ∷ []) (frame ++ (d ∷ [])) ≡ none
unfolding position_of
position_of-half d e [] h = ground arith
position_of-half d e (b ∷ bs) h = ground (arith, position_of-half d e bs h.1)

decode_none :
    (max : ℕ) (delimiter src : Bytes)
    → position_of delimiter src ≡ none
    → max < length src
    → decode (one_delimiter max delimiter) src
      ≡ (err (Error.frame_too_large (length src) max), one_delimiter max delimiter, src)
unfolding decode find_delimiter
decode_none max delimiter src e h = rw (e, lt→ltb max (length src) h) refl

-- For a delimiter of two bytes, and a frame of the largest length without the first of them: with the
-- whole delimiter behind it the frame is decoded; with only the first byte behind it, as after a read
-- that ends between the two, the decoder refuses it as too large.
pub split_delimiter_refused :
    (d e : ℕ) (frame rest : Bytes) (codec : DelimiterBasedFrameDecoder)
    → new (length frame) (d ∷ e ∷ []) ≡ some codec
    → All (λ b. b ≢ d) frame
    → (decode codec (frame ++ (d ∷ e ∷ rest)) ≡ (ok (some frame), codec, rest))
      × (decode codec (frame ++ (d ∷ [])) ≡ (
        err (Error.frame_too_large (length frame + 1) (length frame)),
        codec,
        frame ++ (d ∷ []),
      ))
split_delimiter_refused d e frame rest codec made h =
    subst
      (λ c.
        (decode c (frame ++ (d ∷ e ∷ rest)) ≡ (ok (some frame), c, rest))
        × (decode c (frame ++ (d ∷ [])) ≡ (
          err (Error.frame_too_large (length frame + 1) (length frame)),
          c,
          frame ++ (d ∷ []),
        )))
      (new-one_delimiter (length frame) d (e ∷ []) codec made)
      (
        decode_at (length frame) (d ∷ e ∷ []) frame rest
            (position_of-Absent d (e ∷ []) frame rest (Absent-first d e frame h)) (omega arith),
        subst
            (λ n. decode (one_delimiter (length frame) (d ∷ e ∷ [])) (frame ++ (d ∷ [])) ≡ (
              err (Error.frame_too_large n (length frame)),
              one_delimiter (length frame) (d ∷ e ∷ []),
              frame ++ (d ∷ []),
            ))
            (length-append frame (d ∷ []))
            (decode_none (length frame) (d ∷ e ∷ []) (frame ++ (d ∷ []))
              (position_of-half d e frame h) (omega (arith, length-append frame (d ∷ [])))),
      )
