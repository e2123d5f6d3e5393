-- ===== src/Utf8.antt =====
-- The standard library's UTF-8 check, which `String::from_utf8` makes. A `String` of the program is
-- modelled by its bytes.
use rs_netty.Common.{ℕ, ◌≡◌, refl, Bool, true, false, ◌&&◌, [], ◌∷◌, ltb, leb, ◌==◌, String}
use rs_netty.Common.{if◌then◌else◌, arith, ◌<◌, All}
use rs_netty.Common.Bytes.{Bytes}
use rs_netty.Error.{Result, ok, err, Error, Message, fmt}

-- What the next byte may be: the start of a character, or one of so many continuation bytes. After
-- 0xe0, 0xed, 0xf0 and 0xf4 the first of these has a narrower range.
pub data Expect : Type 0 where
  start one two three after_e0 after_ed after_f0 after_f4 bad : Expect

abbrev within : ℕ → ℕ → ℕ → Bool
within lo hi b = leb lo b && leb b hi

step : Expect → ℕ → Expect
step start b =
    if ltb b 0x80
    then start
    else if within 0xc2 0xdf b
    then one
    else if b == 0xe0
    then after_e0
    else if b == 0xed
    then after_ed
    else if within 0xe1 0xef b
    then two
    else if b == 0xf0
    then after_f0
    else if within 0xf1 0xf3 b
    then three
    else if b == 0xf4
    then after_f4
    else bad
step one b = if within 0x80 0xbf b then start else bad
step two b = if within 0x80 0xbf b then one else bad
step three b = if within 0x80 0xbf b then two else bad
step after_e0 b = if within 0xa0 0xbf b then one else bad
step after_ed b = if within 0x80 0x9f b then one else bad
step after_f0 b = if within 0x90 0xbf b then two else bad
step after_f4 b = if within 0x80 0x8f b then two else bad
step bad b = bad

is_start : Expect → Bool
is_start start = true
is_start _ = false

run : Expect → Bytes → Bool
unfolding step is_start
run e [] = is_start e
run e (b ∷ bs) = run (step e b) bs

unfoldable pub is_utf8 : Bytes → Bool
unfolding run
is_utf8 bs = run start bs

-- `String::from_utf8(bytes).map_err(|err| make(err))`
unfoldable pub from_utf8 : (Message → Error) → String → Bytes → Result Bytes
from_utf8 make text bs = if is_utf8 bs then ok bs else err (make (fmt text []))

-- A text of ASCII bytes is UTF-8.
pub ascii-utf8 : (bs : Bytes) → All (λ b. b < 0x80) bs → is_utf8 bs ≡ true
unfolding is_utf8
ascii-utf8 [] h = refl
ascii-utf8 (b ∷ bs) h = ground (arith, ascii-utf8 bs h.1)

pub from_utf8_ok :
    (make : Message → Error) (text : String) (bs : Bytes)
    → is_utf8 bs ≡ true
    → from_utf8 make text bs ≡ ok bs
unfolding from_utf8
from_utf8_ok make text bs h = ground arith

-- What `from_utf8` returns is what it was given.
pub from_utf8-eq-ok :
    (make : Message → Error) (text : String) (bs : Bytes) {out : Bytes}
    → from_utf8 make text bs ≡ ok out
    → (out ≡ bs) × (is_utf8 bs ≡ true)
unfolding from_utf8
from_utf8-eq-ok make text bs h = ground arith
