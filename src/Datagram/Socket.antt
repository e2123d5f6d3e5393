-- ===== src/Datagram/Socket.antt =====
-- `run_datagram_socket_with_life` of src/transport/udp/socket.rs: the loop of a UDP socket between its
-- hooks.
use rs_netty.Common.{
  ℕ, ◌*◌, ltb, if◌then◌else◌, Bool, true, false, Option, none, some, List, [], ◌∷◌, ◌++◌, length,
  take,
}
use rs_netty.Common.Bytes.{Bytes}
use rs_netty.Error.{Result, Message, fmt, io, pipeline, datagram_too_large, ok, err}
use rs_netty.Context.{Done, done}
use rs_netty.Pipeline.Inbound.{StreamPipeline}
use rs_netty.Datagram.{DatagramCommand, close, new_context}
use DatagramCommand.{write_to, write_to_and_flush}
use rs_netty.Datagram.Runtime.{
  Sending, Receiving, Sink, Received, sink_of, send_message, process_inbound_flushable,
}

pub record UdpSocketConfig : Type 0 where
  pub read_buffer_capacity : ℕ
  pub write_buffer_capacity : ℕ
  pub max_datagram_size : ℕ
  pub outbound_queue_size : ℕ

-- What changes while the socket runs. `replies` are the results sent to the callers of
-- `write_to_and_flush`.
pub record DatagramSocketRuntime (P N : Type 0) : Type 0 where
  pub pipeline : P
  pub socket : N
  pub write_buf : Bytes
  pub replies : List Done

-- What one branch of `select!` finds: a datagram as it was sent, an error, a command or a shutdown.
pub data Event (A W : Type 0) : Type 0 where
  datagram : A → Bytes → Event A W
  recv_error : Message → Event A W
  command : Option (DatagramCommand A W) → Event A W
  shutdown_changed : Event A W

abbrev pub larger : ℕ → ℕ → ℕ
larger a b = if ltb a b then b else a

-- The length of `read_buf`; `recv_from` drops the bytes of a datagram that do not fit.
abbrev pub read_capacity : UdpSocketConfig → ℕ
read_capacity config = larger (larger config.read_buffer_capacity config.max_datagram_size) 1

abbrev pub default_config : UdpSocketConfig
default_config = record {
  read_buffer_capacity = 64 * 1024;
  write_buffer_capacity = 8 * 1024;
  max_datagram_size = 64 * 1024;
  outbound_queue_size = 1024;
}

abbrev pub normalize : UdpSocketConfig → UdpSocketConfig
normalize config =
    let max_datagram_size : ℕ = larger config.max_datagram_size 1 in
    record config {
      max_datagram_size = max_datagram_size;
      read_buffer_capacity = larger (larger config.read_buffer_capacity max_datagram_size) 1;
    }

-- The loop goes on, or it has ended with a result.
pub data Progress : Type 0 where
  continue : Progress
  ended : Done → Progress

module _ {C I B H O N A Item Msg Cur W Out : Type 0} (rx : Receiving C I B H A Item Msg Cur W)
    (tx : Sending C O N A W Out) where
  abbrev pub Runtime : Type 0
  Runtime = DatagramSocketRuntime (StreamPipeline C I B H O) N

  abbrev pub unless_closed : Bool → Progress
  unless_closed true = ended done
  unless_closed false = continue

  abbrev pub after_process : Runtime → Received rx tx → Progress × Runtime
  after_process r (ok a, p, ctx, socket, buf) = (
    unless_closed ctx.close_requested,
    record r { pipeline = p; socket = socket; write_buf = buf },
  )
  after_process r (err e, p, ctx, socket, buf) =
      (ended (err e), record r { pipeline = p; socket = socket; write_buf = buf })

  abbrev pub after_decode : A → Runtime → Result Item × C → Progress × Runtime
  after_decode peer r (ok msg, codec) = after_process r (
      process_inbound_flushable rx tx (record r.pipeline { codec = codec }) (new_context peer)
        r.socket r.write_buf msg)
  after_decode peer r (err e, codec) =
      (ended (err e), record r { pipeline = record r.pipeline { codec = codec } })

  -- A datagram as it stands in the read buffer.
  unfoldable pub on_datagram : UdpSocketConfig → A → Bytes → Runtime → Progress × Runtime
  on_datagram config peer read r =
      if ltb config.max_datagram_size (length read)
      then (ended (err (datagram_too_large (length read) config.max_datagram_size)), r)
      else after_decode peer r (rx.decode_datagram r.pipeline.codec read)

  abbrev pub with_sink : Runtime → Done × Sink C O N → Done × Runtime
  with_sink r (result, s) = (
    result,
    record r {
      pipeline = record r.pipeline { codec = s.codec; outbound = s.outbound };
      socket = s.socket;
      write_buf = s.write_buf;
    },
  )

  -- What the two commands that write share.
  abbrev pub send_to_peer : A → W → Runtime → Done × Runtime
  send_to_peer peer msg r =
      with_sink r (send_message tx peer msg (sink_of rx tx r.pipeline r.socket r.write_buf))

  abbrev pub unless_failed : Done × Runtime → Progress × Runtime
  unless_failed (ok a, r) = (continue, r)
  unless_failed (err e, r) = (ended (err e), r)

  abbrev pub ack : Done → Done
  ack (ok a) = done
  ack (err e) = err (pipeline (fmt "write_to_and_flush failed: {err}" []))

  abbrev pub replied : Done × Runtime → Done × Runtime
  replied (result, r) = (result, record r { replies = r.replies ++ (ack result ∷ []) })

  unfoldable pub on_command : Option (DatagramCommand A W) → Runtime → Progress × Runtime
  on_command (some (write_to peer msg)) r = unless_failed (send_to_peer peer msg r)
  on_command (some (write_to_and_flush peer msg)) r =
      unless_failed (replied (send_to_peer peer msg r))
  on_command (some close) r = (ended done, r)
  on_command none r = (ended done, r)

  unfoldable pub on_event : UdpSocketConfig → Event A W → Runtime → Progress × Runtime
  on_event config (datagram peer bytes) r =
      on_datagram config peer (take (read_capacity config) bytes) r
  on_event config (recv_error e) r = (ended (err (io e)), r)
  on_event config (command cmd) r = on_command cmd r
  on_event config shutdown_changed r = (ended done, r)

  abbrev pub continue_with :
      (Runtime → Progress × Runtime) → Progress × Runtime → Progress × Runtime
  continue_with rest (continue, r) = rest r
  continue_with rest (ended result, r) = (ended result, r)

  abbrev pub unless_requested : (Runtime → Progress × Runtime) → Bool → Runtime → Progress × Runtime
  unless_requested rest true r = (ended done, r)
  unless_requested rest false r = rest r

  -- Each turn of the loop: whether shutdown was requested at its top, and the branch that was taken.
  unfoldable pub run : UdpSocketConfig → List (Bool × Event A W) → Runtime → Progress × Runtime
  run config [] r = (continue, r)
  run config ((requested, event) ∷ turns) r =
      unless_requested (λ r'. continue_with (run config turns) (on_event config event r')) requested
        r

  -- The hooks of a socket; `L` is what they keep.
  module _ {L : Type 0} (started stopped : L → Done × L) where
    abbrev pub after_run : L → Progress × Runtime → Option Done × L
    after_run l (continue, r) = (none, l)
    after_run l (ended (ok a), r) = let (result, l') = stopped l in (some result, l')
    after_run l (ended (err e), r) = let (result, l') = stopped l in (some (err e), l')

    abbrev pub after_started :
        UdpSocketConfig → List (Bool × Event A W) → Runtime → Done × L → Option Done × L
    after_started config turns r (ok a, l) = after_run l (run config turns r)
    after_started config turns r (err e, l) = (some (err e), l)

    unfoldable pub run_datagram_socket_with_life :
        UdpSocketConfig → List (Bool × Event A W) → Runtime → L → Option Done × L
    run_datagram_socket_with_life config turns r l = after_started config turns r (started l)
