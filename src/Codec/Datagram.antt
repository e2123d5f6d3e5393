-- ===== src/Codec/Datagram.antt =====
-- src/codec/bytes_datagram.rs and src/codec/utf8_datagram.rs: codecs without a state.
use rs_netty.Common.{◌++◌}
use rs_netty.Common.Bytes.{Bytes}
use rs_netty.Error.{Result, Error, ok}
use rs_netty.Utf8.{from_utf8}
use rs_netty.Context.{Done, done}

abbrev pub BytesDatagramCodec : Type 0
BytesDatagramCodec = Unit {0}

unfoldable pub decode_bytes : BytesDatagramCodec → Bytes → Result Bytes × BytesDatagramCodec
decode_bytes self src = (ok src, self)

unfoldable pub encode_bytes : BytesDatagramCodec → Bytes → Bytes → Done × BytesDatagramCodec × Bytes
encode_bytes self item dst = (done, self, dst ++ item)

abbrev pub Utf8DatagramCodec : Type 0
Utf8DatagramCodec = Unit {0}

unfoldable pub decode_utf8 : Utf8DatagramCodec → Bytes → Result Bytes × Utf8DatagramCodec
unfolding from_utf8
decode_utf8 self src = (from_utf8 Error.decode "{err}" src, self)

unfoldable pub encode_utf8 : Utf8DatagramCodec → Bytes → Bytes → Done × Utf8DatagramCodec × Bytes
encode_utf8 self item dst = (done, self, dst ++ item)
