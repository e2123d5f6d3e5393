-- ===== src/Mqtt/Connect/Flags.antt =====
-- The flags byte of CONNECT: `encode_connect` sets what `decode_connect` finds, in src/codec/mqtt.rs.
use rs_netty.Common.{ℕ, ◌/◌, ◌*◌, ◌^◌, ◌≡◌, refl, Bool, true, false, bit_and, bit_or}
use rs_netty.Mqtt.Types.{QoS, at_most_once, as_u8}
use rs_netty.Mqtt.Connect.{has, set_if}

-- What `decode_connect` finds in a flags byte: the username, password, will, will-retain, clean-start
-- and reserved bits, and the bits of the will's QoS.
abbrev pub flag_view : ℕ → Bool × Bool × Bool × Bool × Bool × Bool × ℕ
flag_view flags = (
  has flags 0x80,
  has flags 0x40,
  has flags 0x04,
  has flags 0x20,
  has flags 0x02,
  has flags 0x01,
  bit_and (flags / 2 ^ 3) 0x03,
)

abbrev pub low_flags : Bool → Bool → ℕ
low_flags u p = set_if p 0x40 (set_if u 0x80 0)

pub no_will :
    (u p c : Bool) → flag_view (set_if c 0x02 (low_flags u p)) ≡ (u, p, false, false, c, false, 0)
no_will true true true = refl
no_will true true false = refl
no_will true false true = refl
no_will true false false = refl
no_will false true true = refl
no_will false true false = refl
no_will false false true = refl
no_will false false false = refl

pub with_will :
    (qos : QoS) (u p c r : Bool)
    → flag_view
        (set_if c 0x02 (set_if r 0x20 (bit_or (bit_or (low_flags u p) 0x04) (as_u8 qos * 2 ^ 3))))
      ≡ (u, p, true, r, c, false, as_u8 qos)
with_will at_most_once true true true true = refl
with_will _ true true true true = refl
with_will at_most_once true true true false = refl
with_will _ true true true false = refl
with_will at_most_once true true false true = refl
with_will _ true true false true = refl
with_will at_most_once true true false false = refl
with_will _ true true false false = refl
with_will at_most_once true false true true = refl
with_will _ true false true true = refl
with_will at_most_once true false true false = refl
with_will _ true false true false = refl
with_will at_most_once true false false true = refl
with_will _ true false false true = refl
with_will at_most_once true false false false = refl
with_will _ true false false false = refl
with_will at_most_once false true true true = refl
with_will _ false true true true = refl
with_will at_most_once false true true false = refl
with_will _ false true true false = refl
with_will at_most_once false true false true = refl
with_will _ false true false true = refl
with_will at_most_once false true false false = refl
with_will _ false true false false = refl
with_will at_most_once false false true true = refl
with_will _ false false true true = refl
with_will at_most_once false false true false = refl
with_will _ false false true false = refl
with_will at_most_once false false false true = refl
with_will _ false false false true = refl
with_will at_most_once false false false false = refl
with_will _ false false false false = refl
