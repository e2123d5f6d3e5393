-- ===== src/Codec.antt =====
-- The stream codecs of src/codec/mod.rs: what a call of `Decoder::decode` leaves behind, and the laws
-- that make a decoder a framing of a byte stream.
pub mod Framing
pub mod ByteArray
pub mod FixedLength
pub mod Line
pub mod LengthField
pub mod Datagram
pub mod Delimiter
pub mod Json
pub mod Http
use rs_netty.Common.{◌≡◌, Option, none, some, ◌++◌, length, ◌<◌}
use rs_netty.Common.Bytes.{Bytes}
use rs_netty.Error.{Result, Error, ok, err}

-- The result of `decode(&mut self, src)`, then `self` and the buffer `src` after the call.
abbrev pub Poll : Type 0 → Type 0 → Type 0
Poll S Item = Result (Option Item) × S × Bytes

abbrev pub IsErr {ℓ} : {A : Type ℓ} → Result A → Type 0
IsErr (ok a) = ⊥
IsErr (err e) = Unit

-- A decoder that may be asked again whenever more bytes have come. While it waits it changes
-- nothing; a frame takes bytes from the front and does not depend on bytes behind it; an error is
-- not mended by more bytes. `Valid` is what the decoder's own state has to satisfy.
pub record IsFraming {S Item : Type 0} (decode : S → Bytes → Poll S Item) (Valid : S → Type 0)
    : Type 0 where
  pub waits :
      (s : S) (buf : Bytes) {s' : S} {rest : Bytes}
      → Valid s
      → decode s buf ≡ (ok none, s', rest)
      → (s' ≡ s) × (rest ≡ buf)
  pub frames :
      (s : S) (buf more : Bytes) {x : Item} {s' : S} {rest : Bytes}
      → Valid s
      → decode s buf ≡ (ok (some x), s', rest)
      → Valid s'
        × (length rest < length buf)
        × (decode s (buf ++ more) ≡ (ok (some x), s', rest ++ more))
  pub fails :
      (s : S) (buf more : Bytes) {e : Error} {s' : S} {rest : Bytes}
      → Valid s
      → decode s buf ≡ (err e, s', rest)
      → IsErr (decode s (buf ++ more)).0
