-- ===== src/Examples/Datagrams.antt =====
-- The theorems on UDP, at a server that answers each datagram.
use rs_netty.Common.{
  ℕ, suc, ◌≤◌, ◌<◌, ◌≡◌, refl, Bool, false, Option, none, List, [], ◌∷◌, ◌++◌, arith,
}
use Prim.Native.Nat.{min}
use rs_netty.Common.Bytes.{Bytes}
use rs_netty.Error.{Message, datagram_too_large, err}
use rs_netty.Codec.Datagram.{encode_bytes, decode_bytes}
use rs_netty.Context.{done}
use rs_netty.Pipeline.{identity}
use rs_netty.Datagram.{Handling, ready, waiting, write_msg, write_and_flush_msg_to, new_context}
use rs_netty.Datagram.Runtime.{
  Sending, Receiving, Sink, run_handler, drain_datagram_outbox, run_commands,
  encode_datagram_outbound, flush_datagram,
}
use rs_netty.Datagram.Delivery.{IsUdpSocket, ledger, said, datagrams_arrive}
use rs_netty.Datagram.Socket.{
  UdpSocketConfig, default_config, Event, datagram, ended, read_capacity, Runtime, on_event, run,
}
use rs_netty.Datagram.Clean.{IsClean, run_socket-IsClean}
use rs_netty.Datagram.Size.{oversized_datagrams}

abbrev send_to : List (ℕ × Bytes) → Bytes → ℕ → Option Message × List (ℕ × Bytes)
send_to log buf peer = (none, log ++ ((peer, buf) ∷ []))

abbrev log : List (ℕ × Bytes) → List (ℕ × Bytes)
log n = n

send_to-IsUdpSocket : IsUdpSocket send_to log
send_to-IsUdpSocket = record { sends = λ n buf peer e. ground arith }

abbrev tx : Sending (Unit {0}) (Unit {0}) (List (ℕ × Bytes)) ℕ Bytes Bytes
tx = record { encode_datagram = encode_bytes; process = identity; send_to = send_to }

-- The answer goes to the sender, and a copy to peer 7 before it.
abbrev copy : ℕ → Bytes → Handling ℕ Bytes ℕ
copy n msg =
    waiting (write_and_flush_msg_to 7 msg ∷ []) n
      (λ answers. ready (write_msg msg ∷ []) done (suc n))

abbrev rx : Receiving (Unit {0}) (Unit {0}) (Unit {0}) ℕ ℕ Bytes Bytes Bytes Bytes
rx = record { decode_datagram = decode_bytes; inbound = identity; business = identity; read = copy }

abbrev sink : Sink (Unit {0}) (Unit {0}) (List (ℕ × Bytes))
sink = record { codec = tt; outbound = tt; socket = []; write_buf = [] }

abbrev runtime : Runtime rx tx
runtime = record {
  pipeline = record { codec = tt; inbound = tt; business = tt; handler = 0; outbound = tt };
  socket = [];
  write_buf = [];
  replies = [];
}

datagrams_arrive_example :
    let (result, h, ctx', s') = run_handler tx (copy 0 (5 ∷ 6 ∷ [])) (new_context 3) sink in
    (log s'.socket
      ≡ ledger tx log send_to-IsUdpSocket sink (said (copy 0 (5 ∷ 6 ∷ [])) (new_context 3)))
    × (s'.write_buf ≡ [])
    × (ctx'.outbox ≡ [])
unfolding run_handler drain_datagram_outbox run_commands encode_datagram_outbound flush_datagram
    encode_bytes
datagrams_arrive_example =
    datagrams_arrive tx log send_to-IsUdpSocket (copy 0 (5 ∷ 6 ∷ [])) (new_context 3) sink refl refl

abbrev turns : List (Bool × Event ℕ Bytes)
turns = (false, datagram 3 (5 ∷ 6 ∷ [])) ∷ (false, datagram 4 (8 ∷ [])) ∷ []

run_socket-IsClean_example :
    IsClean rx tx log send_to-IsUdpSocket (run rx tx default_config turns runtime)
run_socket-IsClean_example =
    run_socket-IsClean rx tx log send_to-IsUdpSocket default_config turns runtime refl

abbrev small : UdpSocketConfig
small = record default_config { max_datagram_size = 2; read_buffer_capacity = 2 }

oversized_datagrams_example :
    (2 < 2
      → on_event rx tx small (datagram 3 (5 ∷ 6 ∷ 7 ∷ [])) runtime
        ≡ (ended (err (datagram_too_large (min (read_capacity small) 3) 2)), runtime))
    × (2 ≤ 2
        → on_event rx tx small (datagram 3 (5 ∷ 6 ∷ 7 ∷ [])) runtime
          ≡ on_event rx tx small (datagram 3 (5 ∷ 6 ∷ [])) runtime)
oversized_datagrams_example =
    oversized_datagrams rx tx small 3 (5 ∷ 6 ∷ 7 ∷ []) runtime (omega arith) (omega arith)
