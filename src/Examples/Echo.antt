-- ===== src/Examples/Echo.antt =====
-- An echo server over frames of two bytes, with a socket that takes a hundred bytes.
use rs_netty.Common.{
  ℕ, suc, ◌+◌, refl, leb, if◌then◌else◌, Option, none, some, [], ◌∷◌, ◌++◌, append-nil, length,
  arith,
}
use rs_netty.Common.Bytes.{Bytes}
use rs_netty.Error.{Message, fmt, ok}
use rs_netty.Codec.FixedLength
use rs_netty.Codec.FixedLength.{FixedLengthFrameDecoder}
use rs_netty.Context.{Done, done, write_msg, write_and_flush_msg}
use rs_netty.Pipeline.{next, stop, Stage, identity}
use rs_netty.Pipeline.Runtime.{Wire, Sink, Sending, Handling, ready, waiting}
use rs_netty.Pipeline.Ledger.{IsSocket, IsAppending}
use rs_netty.Pipeline.Inbound.{StreamPipeline, Receiving}
use rs_netty.Tcp.Connection.{StreamConnectionRuntime}
use rs_netty.Tcp.Life.{new_runtime}

abbrev pub pairs : FixedLengthFrameDecoder
pairs = record { frame_length = 2 }

-- What the socket has taken is its state.
abbrev pub write_all : Bytes → Bytes → Option Message × Bytes
write_all out buf =
    if leb (length out + length buf) 100
    then (none, out ++ buf)
    else (some (fmt "broken pipe" []), out)

abbrev pub delivered : Bytes → Bytes
delivered out = out

pub write_all-IsSocket : IsSocket write_all delivered
write_all-IsSocket = record {
  sends = λ out buf e. ground arith;
  breaks = λ out buf e. ([], buf, refl, ground (arith, append-nil out));
}

abbrev pub encode : FixedLengthFrameDecoder → Bytes → Bytes → Done × FixedLengthFrameDecoder × Bytes
encode codec frame dst =
    let (result, dst') = FixedLength.encode codec frame dst in (result, codec, dst')

pub encode-IsAppending : IsAppending encode
unfolding FixedLength.encode
encode-IsAppending codec frame dst = ground (arith, append-nil dst)

-- The outbound stage counts, and stops empty messages.
abbrev pub not_empty : Stage ℕ Bytes Bytes
not_empty n [] = (ok stop, n)
not_empty n (b ∷ bs) = (ok (next (b ∷ bs)), suc n)

abbrev pub tx : Sending FixedLengthFrameDecoder ℕ Bytes Bytes Bytes
tx = record { encode = encode; process = not_empty; write_all = write_all }

-- The handler flushes its answer, then says goodbye.
abbrev pub echo : ℕ → Bytes → Handling Bytes ℕ
echo n msg =
    waiting (write_and_flush_msg msg ∷ []) n
      (λ answers. ready (write_msg (1 ∷ 2 ∷ []) ∷ []) done (suc n))

-- The handler answers without a flush.
abbrev pub plain_echo : ℕ → Bytes → Handling Bytes ℕ
plain_echo n msg = ready (write_msg msg ∷ []) done (suc n)

abbrev pub rx :
    (ℕ → Bytes → Handling Bytes ℕ)
    → Receiving FixedLengthFrameDecoder (Unit {0}) (Unit {0}) ℕ Bytes Bytes Bytes Bytes
rx read = record {
  decode = FixedLength.decode;
  inbound = identity;
  business = identity;
  read = read;
}

abbrev pub pipeline : StreamPipeline FixedLengthFrameDecoder (Unit {0}) (Unit {0}) ℕ ℕ
pipeline = record { codec = pairs; inbound = tt; business = tt; handler = 0; outbound = 0 }

abbrev pub idle_wire : Wire Bytes
idle_wire = record { socket = []; write_buf = []; stats = none }

-- Two bytes are buffered.
abbrev pub sink : Sink FixedLengthFrameDecoder ℕ Bytes
sink = record {
  codec = pairs;
  outbound = 0;
  wire = record { socket = 7 ∷ []; write_buf = 9 ∷ 9 ∷ []; stats = none };
}

abbrev pub connection :
    StreamConnectionRuntime
      (StreamPipeline FixedLengthFrameDecoder (Unit {0}) (Unit {0}) ℕ ℕ)
      Bytes
      Bytes
connection = new_runtime pipeline [] none
