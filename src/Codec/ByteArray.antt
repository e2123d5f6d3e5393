-- ===== src/Codec/ByteArray.antt =====
-- src/codec/byte_array.rs: `ByteArrayDecoder` drains whatever is buffered.
use rs_netty.Common.{ℕ, ◌≡◌, refl, Option, none, some, [], ◌∷◌, ◌++◌}
use rs_netty.Common.Bytes.{Bytes}
use rs_netty.Error.{Result, ok}

-- `ByteArrayDecoder::decode`; the second part is `src` after the call.
unfoldable pub decode : Bytes → Result (Option Bytes) × Bytes
decode [] = (ok none, [])
decode (b ∷ src) = (ok (some (b ∷ src)), [])

-- `encode` of `ByteArrayDecoder` and of `ByteArrayEncoder`: `dst` after the call.
unfoldable pub encode : Bytes → Bytes → Result (Unit {0}) × Bytes
encode item dst = (ok tt, dst ++ item)

-- What is encoded into an empty buffer is decoded as one item, unless it is empty.
pub decode-encode :
    (b : ℕ) (item : Bytes) → decode (encode (b ∷ item) []).1 ≡ (ok (some (b ∷ item)), [])
unfolding decode encode
decode-encode b item = refl
