-- ===== src/Mqtt/Writer.antt =====
-- The `write_*` functions of src/codec/mqtt.rs. Each takes `dst` and returns what it is afterwards;
-- `dst` is local to `encode_packet`, so an error drops it.
use rs_netty.Common.{
  ℕ, ◌^◌, ◌≤◌, ◌<◌, ◌≡◌, refl, ap, ◌∙◌, Bool, true, false, [], ◌∷◌, ◌++◌, length, ltb, lt→ltb,
  String, if◌then◌else◌, append-nil, append_assoc,
}
use rs_netty.Common.Bytes.{Bytes, to_be_bytes}
use rs_netty.Error.{Result, ok, err, Error, fmt}
use rs_netty.Mqtt.Types.{max_remaining_length}
use rs_netty.Mqtt.VarInt.{write_variable_integer}
use rs_netty.Mqtt.VarInt.RoundTrip.{varint_bytes, write_variable_integer_lem}
use rs_netty.Mqtt.Reader.Reads.{prefixed}

abbrev pub Put : Type 0
Put = Bytes → Result Bytes

-- `m?; k`
abbrev pub after : Result Bytes → Put → Result Bytes
after (ok dst) k = k dst
after (err e) k = err e

infixr 5 ◌⨾◌
abbrev pub ◌⨾◌ : Put → Put → Put
◌⨾◌ m k dst = after (m dst) k

-- `Ok(())`
abbrev pub done : Put
done dst = ok dst

-- `if test { return Err(Error::Encode(..)) }`
abbrev pub refuse_if : Bool → String → Put
refuse_if true text dst = err (Error.encode (fmt text []))
refuse_if false text dst = ok dst

-- `dst.extend_from_slice(bytes)`
abbrev pub extend : Bytes → Put
extend bytes dst = ok (dst ++ bytes)

unfoldable pub write_u8 : ℕ → Put
write_u8 value = extend (value ∷ [])

unfoldable pub write_u16 : ℕ → Put
write_u16 value = extend (to_be_bytes 2 value)

unfoldable pub write_u32 : ℕ → Put
write_u32 value = extend (to_be_bytes 4 value)

unfoldable pub write_utf8_string : Bytes → Put
write_utf8_string value dst =
    if ltb (length value) (2 ^ 16)
    then (write_u16 (length value) ⨾ extend value) dst
    else err (Error.encode (fmt "{err}" []))

unfoldable pub write_binary_data : Bytes → Put
write_binary_data value dst =
    if ltb (length value) (2 ^ 16)
    then (write_u16 (length value) ⨾ extend value) dst
    else err (Error.encode (fmt "{err}" []))

-- `m` succeeds and appends `bs`.
pub record Writes (m : Put) (bs : Bytes) : Type 0 where
  pub run : (dst : Bytes) → m dst ≡ ok (dst ++ bs)

pub Writes-then :
    {m k : Put} {bs cs : Bytes} → Writes m bs → Writes k cs → Writes (m ⨾ k) (bs ++ cs)
Writes-then {bs = bs} {cs = cs} w v = record {
  run = λ dst. rw (w.run dst) (v.run (dst ++ bs) ∙ ap ok (append_assoc dst bs cs));
}

pub Writes-done : Writes done []
Writes-done = record { run = λ dst. rw append-nil }

pub Writes-extend : (bs : Bytes) → Writes (extend bs) bs
Writes-extend bs = record { run = λ dst. refl }

pub Writes-refuse_if :
    (test : Bool) (text : String) → test ≡ false → Writes (refuse_if test text) []
Writes-refuse_if test text h = record { run = λ dst. rw (h, append-nil) }

pub Writes-write_u8 : (v : ℕ) → Writes (write_u8 v) (v ∷ [])
unfolding write_u8
Writes-write_u8 v = Writes-extend (v ∷ [])

pub Writes-write_u16 : (v : ℕ) → Writes (write_u16 v) (to_be_bytes 2 v)
unfolding write_u16
Writes-write_u16 v = Writes-extend (to_be_bytes 2 v)

pub Writes-write_u32 : (v : ℕ) → Writes (write_u32 v) (to_be_bytes 4 v)
unfolding write_u32
Writes-write_u32 v = Writes-extend (to_be_bytes 4 v)

Writes-prefixed : (bs : Bytes) → Writes (write_u16 (length bs) ⨾ extend bs) (prefixed bs)
Writes-prefixed bs = Writes-then (Writes-write_u16 (length bs)) (Writes-extend bs)

pub Writes-write_utf8_string :
    (bs : Bytes) → length bs < 2 ^ 16 → Writes (write_utf8_string bs) (prefixed bs)
unfolding write_utf8_string
Writes-write_utf8_string bs h = record {
  run = λ dst. rw (lt→ltb (length bs) (2 ^ 16) h) ((Writes-prefixed bs).run dst);
}

pub Writes-write_binary_data :
    (bs : Bytes) → length bs < 2 ^ 16 → Writes (write_binary_data bs) (prefixed bs)
unfolding write_binary_data
Writes-write_binary_data bs h = record {
  run = λ dst. rw (lt→ltb (length bs) (2 ^ 16) h) ((Writes-prefixed bs).run dst);
}

pub Writes-write_variable_integer :
    (v : ℕ) → v ≤ max_remaining_length → Writes (write_variable_integer v) (varint_bytes v)
Writes-write_variable_integer v h = record { run = λ dst. write_variable_integer_lem v dst h }
