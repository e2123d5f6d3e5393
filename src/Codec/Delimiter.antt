-- ===== src/Codec/Delimiter.antt =====
-- src/codec/delimiter_based_frame.rs: frames that end with one of several delimiters.
pub mod Laws
use rs_netty.Common.{
  ℕ, zero, suc, ◌+◌, ◌-◌, ◌≤◌, ◌<◌, ◌≡◌, ◌≢◌, refl, sym, ap, subst, ◌∙◌, Bool, true, false,
  Bool-cases, inl, inr, ◌&&◌, ◌||◌, Option, none, some, List, [], ◌∷◌, ◌++◌, append_assoc,
  append-nil, length, length-append, take, drop, take-length_append, drop-append_both, All, ltb,
  leb, ◌==◌, if◌then◌else◌, le→ltb, lt→ltb, arith,
}
use rs_netty.Common.Bytes.{Bytes}
use rs_netty.Error.{Result, ok, err, Error, fmt}
use rs_netty.Codec.{Poll}
use mathlib.Core.Option

pub record DelimiterBasedFrameDecoder : Type 0 where
  pub max_frame_length : ℕ
  pub delimiters : List Bytes
  pub strip_delimiter : Bool

abbrev is_empty : Bytes → Bool
is_empty [] = true
is_empty (b ∷ bs) = false

abbrev any_empty : List Bytes → Bool
any_empty [] = false
any_empty (d ∷ ds) = is_empty d || any_empty ds

abbrev no_delimiters : List Bytes → Bool
no_delimiters [] = true
no_delimiters (d ∷ ds) = false

-- `new_many`; `none` is the panic of its `assert!`s.
abbrev pub new_many : ℕ → List Bytes → Option DelimiterBasedFrameDecoder
new_many max delimiters =
    if no_delimiters delimiters || any_empty delimiters
    then none
    else some (record { max_frame_length = max; delimiters = delimiters; strip_delimiter = true })

abbrev pub new : ℕ → Bytes → Option DelimiterBasedFrameDecoder
new max delimiter = new_many max (delimiter ∷ [])

abbrev pub set_strip_delimiter : DelimiterBasedFrameDecoder → Bool → DelimiterBasedFrameDecoder
set_strip_delimiter self strip = record self { strip_delimiter = strip }

abbrev pub line_delimiter : ℕ → Option DelimiterBasedFrameDecoder
line_delimiter max = new_many max ((13 ∷ 10 ∷ []) ∷ (10 ∷ []) ∷ [])

abbrev pub starts_with : Bytes → Bytes → Bool
starts_with [] src = true
starts_with (d ∷ ds) [] = false
starts_with (d ∷ ds) (b ∷ bs) = b == d && starts_with ds bs

-- `src.windows(delimiter.len()).position(|window| window == delimiter)`
unfoldable pub position_of : Bytes → Bytes → Option ℕ
position_of delimiter [] = none
position_of delimiter (b ∷ bs) =
    if starts_with delimiter (b ∷ bs) then some 0 else Option.map suc (position_of delimiter bs)

-- The order of `min_by_key(|(pos, len)| (*pos, *len))`.
abbrev is_before : ℕ × ℕ → ℕ × ℕ → Bool
is_before (pos, len) (pos', len') = ltb pos pos' || (pos == pos' && ltb len len')

abbrev earliest : Option (ℕ × ℕ) → Option (ℕ × ℕ) → Option (ℕ × ℕ)
earliest none found = found
earliest (some first) none = some first
earliest (some first) (some other) = if is_before other first then some other else some first

abbrev with_len : ℕ → Option ℕ → Option (ℕ × ℕ)
with_len len none = none
with_len len (some pos) = some (pos, len)

unfoldable pub find_delimiter : Bytes → List Bytes → Option (ℕ × ℕ)
find_delimiter src [] = none
find_delimiter src (d ∷ ds) =
    earliest (with_len (length d) (position_of d src)) (find_delimiter src ds)

abbrev after_find :
    DelimiterBasedFrameDecoder → Bytes → Option (ℕ × ℕ) → Poll DelimiterBasedFrameDecoder Bytes
after_find self src none =
    if ltb self.max_frame_length (length src)
    then (err (Error.frame_too_large (length src) self.max_frame_length), self, src)
    else (ok none, self, src)
after_find self src (some (frame_end, delimiter_len)) =
    if ltb self.max_frame_length frame_end
    then (err (Error.frame_too_large frame_end self.max_frame_length), self, src)
    else (
      ok (
          some (
            if self.strip_delimiter
            then take frame_end src
            else take (frame_end + delimiter_len) src)),
      self,
      drop (frame_end + delimiter_len) src,
    )

unfoldable pub decode : DelimiterBasedFrameDecoder → Bytes → Poll DelimiterBasedFrameDecoder Bytes
decode self src = after_find self src (find_delimiter src self.delimiters)

abbrev append_delimiter : List Bytes → Bytes → Bytes → Result (Unit {0}) × Bytes
append_delimiter [] item dst = (err (Error.encode (fmt "missing delimiter" [])), dst)
append_delimiter (d ∷ ds) item dst = (ok tt, dst ++ (item ++ d))

unfoldable pub encode : DelimiterBasedFrameDecoder → Bytes → Bytes → Result (Unit {0}) × Bytes
encode self item dst = append_delimiter self.delimiters item dst
