-- ===== src/Common/Bytes.antt =====
-- Integers as bytes: `to_be_bytes`, `from_be_bytes` and their little-endian forms.
use Prim.Native.Nat.{ℕ, zero, suc, ◌+◌, ◌*◌, ◌/◌, ◌%◌, ◌^◌, ◌<◌}
use mathlib.Core.Path.{◌≡◌, refl, ap, ◌∙◌}
use mathlib.Core.List.{List, [], ◌∷◌}
use native.Mathlib.Nat.{pow-suc}
use native.Mathlib.Omega.{arith}
use rs_netty.Common.Lists.{length, All}

abbrev pub Bytes : Type 0
Bytes = List ℕ

abbrev pub IsByte : ℕ → Type 0
IsByte b = b < 256

abbrev pub IsBytes : Bytes → Type 0
IsBytes = All IsByte

-- The bytes of `v`, the lowest first, in `n` bytes.
abbrev pub to_le_bytes : ℕ → ℕ → Bytes
to_le_bytes zero v = []
to_le_bytes (suc n) v = v % 256 ∷ to_le_bytes n (v / 256)

abbrev pub from_le_bytes : Bytes → ℕ
from_le_bytes [] = 0
from_le_bytes (b ∷ bs) = b + 256 * from_le_bytes bs

-- The bytes of `v`, the highest first, put before `rest`.
abbrev be_onto : ℕ → ℕ → Bytes → Bytes
be_onto zero v rest = rest
be_onto (suc n) v rest = be_onto n (v / 256) (v % 256 ∷ rest)

abbrev pub to_be_bytes : ℕ → ℕ → Bytes
to_be_bytes n v = be_onto n v []

abbrev be_from : ℕ → Bytes → ℕ
be_from acc [] = acc
be_from acc (b ∷ bs) = be_from (acc * 256 + b) bs

abbrev pub from_be_bytes : Bytes → ℕ
from_be_bytes bs = be_from 0 bs

pub length-to_le_bytes : (n v : ℕ) → length (to_le_bytes n v) ≡ n
length-to_le_bytes zero v = refl
length-to_le_bytes (suc n) v = ap suc (length-to_le_bytes n (v / 256))

pub from_le_bytes-to_le_bytes : (n v : ℕ) → v < 256 ^ n → from_le_bytes (to_le_bytes n v) ≡ v
from_le_bytes-to_le_bytes zero v h = omega arith
from_le_bytes-to_le_bytes (suc n) v h =
    omega (arith, from_le_bytes-to_le_bytes n (v / 256) (omega (arith, pow-suc 256 n)))

pub to_le_bytes-IsBytes : (n v : ℕ) → IsBytes (to_le_bytes n v)
to_le_bytes-IsBytes zero v = tt
to_le_bytes-IsBytes (suc n) v = (omega arith, to_le_bytes-IsBytes n (v / 256))

length-be_onto : (n v : ℕ) (rest : Bytes) → length (be_onto n v rest) ≡ n + length rest
length-be_onto zero v rest = omega arith
length-be_onto (suc n) v rest = omega (arith, length-be_onto n (v / 256) (v % 256 ∷ rest))

pub length-to_be_bytes : (n v : ℕ) → length (to_be_bytes n v) ≡ n
length-to_be_bytes n v = omega (arith, length-be_onto n v [])

be_from-be_onto :
    (n v acc : ℕ) (rest : Bytes)
    → v < 256 ^ n
    → be_from acc (be_onto n v rest) ≡ be_from (acc * 256 ^ n + v) rest
be_from-be_onto zero v acc rest h = ap (λ t. be_from t rest) (omega arith)
be_from-be_onto (suc n) v acc rest h =
    be_from-be_onto n (v / 256) acc (v % 256 ∷ rest) (omega (arith, pow-suc 256 n))
    ∙ ap (λ t. be_from t rest) (omega (arith, ap (λ (t : ℕ). acc * t) (pow-suc 256 n)))

pub from_be_bytes-to_be_bytes : (n v : ℕ) → v < 256 ^ n → from_be_bytes (to_be_bytes n v) ≡ v
from_be_bytes-to_be_bytes n v h = be_from-be_onto n v 0 [] h ∙ omega arith

be_onto-IsBytes : (n v : ℕ) (rest : Bytes) → IsBytes rest → IsBytes (be_onto n v rest)
be_onto-IsBytes zero v rest h = h
be_onto-IsBytes (suc n) v rest h = be_onto-IsBytes n (v / 256) (v % 256 ∷ rest) (omega arith, h)

pub to_be_bytes-IsBytes : (n v : ℕ) → IsBytes (to_be_bytes n v)
to_be_bytes-IsBytes n v = be_onto-IsBytes n v [] tt
