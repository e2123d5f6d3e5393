-- ===== src/Codec/Json.antt =====
-- src/codec/json.rs: the stages that turn texts into typed messages and back. The JSON library is
-- `to_string` and `from_slice`, with `none` for an error.
pub mod Laws
use rs_netty.Common.{Option, none, some, []}
use rs_netty.Common.Bytes.{Bytes}
use rs_netty.Error.{Result, Error, fmt, ok, err}
use rs_netty.Pipeline.{Flow, next, Stage}

abbrev pub JsonDecode : Type 0
JsonDecode = Unit {0}

abbrev pub JsonEncode : Type 0
JsonEncode = Unit {0}

abbrev printed : Option Bytes → Result (Flow Bytes)
printed none = err (Error.encode (fmt "json encode failed: {err}" []))
printed (some text) = ok (next text)

module _ {T : Type 0} where
  abbrev parsed : Option T → Result (Flow T)
  parsed none = err (Error.decode (fmt "json decode failed: {err}" []))
  parsed (some value) = ok (next value)

  unfoldable pub decode_json : (Bytes → Option T) → Bytes → Result (Flow T)
  decode_json from_slice src = parsed (from_slice src)

  unfoldable pub read : (Bytes → Option T) → Stage JsonDecode Bytes T
  unfolding decode_json
  read from_slice self msg = (decode_json from_slice msg, self)

  unfoldable pub write : (T → Option Bytes) → Stage JsonEncode T Bytes
  write to_string self msg = (printed (to_string msg), self)
