-- ===== src/Codec/Line.antt =====
-- src/codec/line.rs: UTF-8 lines.
pub mod Laws
use rs_netty.Common.{
  ℕ, suc, ◌+◌, ◌-◌, ◌*◌, ◌≤◌, ◌<◌, ◌≡◌, ◌≢◌, refl, ap, Bool, true, false, Option, none, some, List,
  [], ◌∷◌, ◌++◌, length, take, drop, All, ltb, ◌==◌, if◌then◌else◌, arith,
}
use rs_netty.Common.Bytes.{Bytes}
use rs_netty.Error.{Result, ok, err, Error, fmt, map_ok}
use rs_netty.Utf8.{from_utf8}
use rs_netty.Codec.{Poll}
use mathlib.Core.Option

pub record LineCodec : Type 0 where
  pub max_line_len : ℕ

unfoldable pub new : LineCodec
new = record { max_line_len = 8 * 1024 }

unfoldable pub with_max_line_len : ℕ → LineCodec
with_max_line_len max_line_len = record { max_line_len = max_line_len }

-- `src.iter().position(|b| *b == c)`
unfoldable pub position : ℕ → Bytes → Option ℕ
position c [] = none
position c (b ∷ bs) = if b == c then some 0 else Option.map suc (position c bs)

-- `line.last() == Some(&c)`
unfoldable pub ends_with : ℕ → Bytes → Bool
ends_with c [] = false
ends_with c (b ∷ []) = b == c
ends_with c (b ∷ d ∷ bs) = ends_with c (d ∷ bs)

-- A `\r` before the line end is dropped.
unfoldable pub strip_cr : Bytes → Bytes
unfolding ends_with
strip_cr line = if ends_with 13 line then take (length line - 1) line else line

unfoldable pub decode : LineCodec → Bytes → Poll LineCodec Bytes
unfolding position strip_cr from_utf8
decode self src = elim (position 10 src) [
  | none ↦
      if ltb self.max_line_len (length src)
      then (err (Error.frame_too_large (length src) self.max_line_len), self, src)
      else (ok none, self, src)
  | some pos ↦
      if ltb self.max_line_len pos
      then (err (Error.frame_too_large pos self.max_line_len), self, src)
      else (
        map_ok some (from_utf8 Error.decode "{err}" (strip_cr (take pos src))),
        self,
        drop (pos + 1) src,
      )
]

unfoldable pub encode : LineCodec → Bytes → Bytes → Result (Unit {0}) × Bytes
encode self item dst = (ok tt, dst ++ (item ++ (10 ∷ [])))
