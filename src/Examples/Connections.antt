-- ===== src/Examples/Connections.antt =====
-- The theorems on connections, at the echo server.
use rs_netty.Common.{
  ℕ, ◌+◌, ◌≡◌, ◌≢◌, ◌↔◌, refl, inl, inr, Bool, false, none, some, List, [], ◌∷◌, arith,
}
use rs_netty.Common.Bytes.{Bytes}
use rs_netty.Codec.FixedLength
use rs_netty.Codec.FixedLength.{FixedLengthFrameDecoder, IsValid}
use rs_netty.Codec.Framing.{concat}
use rs_netty.Context.{done, u64, new_stats}
use rs_netty.Pipeline.Runtime.{
  flush_write_buf, process_outbound, encode_outbound, run_commands, drain_stream_outbox,
  run_handler,
}
use rs_netty.Pipeline.Ledger.{ledger}
use rs_netty.Pipeline.Inbound.{StreamPipeline, stream_pipeline, process_inbound_flushable}
use rs_netty.Tcp.{TcpConnectionConfig, default_config, write, write_and_flush, good}
use rs_netty.Tcp.Connection.{
  StreamConnectionRuntime, Event, bytes_read, command, idle_elapsed, handle_command, send_message,
  frame_loop, handle_read, on_event, run,
}
use rs_netty.Tcp.Reasons.{RunEnd, run_reasons}
use rs_netty.Tcp.Commands.{on_command, write_and_flush_delivers, stopped_message_counted}
use rs_netty.Tcp.Commands as Commands
use rs_netty.Tcp.Stream.{IsSteady}
use rs_netty.Tcp.Reads.{received, one_read, chunks_as_one_read}
use rs_netty.Tcp.Steady.{stream_pipeline-IsSteady, ValidPipeline}
use rs_netty.Tcp.Life.{Fits, recording, no_life, run_stream_connection_with_life, hooks_called_once}
use rs_netty.Tcp.Idle.{IdleFor, idle_after_timeout}
use rs_netty.Tcp.Returns.{connection_returns}
use rs_netty.Examples.Echo.{
  write_all, write_all-IsSocket, encode-IsAppending, delivered, tx, rx, echo, pipeline, idle_wire,
  connection,
}

abbrev timed_config : TcpConnectionConfig
timed_config = record default_config { idle_timeout = some 30 }

-- A frame, half a frame, and the end of the stream.
abbrev turns : List (Bool × Event Bytes)
turns =
    (false, bytes_read (1 ∷ 2 ∷ [])) ∷ (false, bytes_read (3 ∷ [])) ∷ (false, bytes_read []) ∷ []

run_reasons_example :
    RunEnd
      (stream_pipeline (rx echo) tx)
      write_all
      turns
      (run (stream_pipeline (rx echo) tx) write_all default_config turns connection)
run_reasons_example =
    run_reasons (stream_pipeline (rx echo) tx) write_all default_config turns connection

connection_returns_example :
    (run_stream_connection_with_life
      (stream_pipeline (rx echo) tx)
      write_all
      no_life
      default_config
      turns
      pipeline
      []
      none
      tt).0
    ≢ none
connection_returns_example =
    connection_returns (rx echo) tx IsValid FixedLength.decode-IsFraming (λ c x dst v. v) no_life
      default_config turns pipeline [] none tt (omega arith) (inr (inr (inl tt)))

write_and_flush_delivers_example :
    let (result, r') = on_command (rx echo) tx (write_and_flush (5 ∷ 6 ∷ [])) connection in
    (delivered r'.wire.socket
      ≡ ledger tx delivered (Commands.sink (rx echo) tx connection) ((5 ∷ 6 ∷ []) ∷ []))
    × (r'.wire.write_buf ≡ [])
    × (result ≡ good none)
unfolding handle_command send_message process_outbound flush_write_buf FixedLength.encode
write_and_flush_delivers_example =
    write_and_flush_delivers (rx echo) tx delivered write_all-IsSocket encode-IsAppending connection
      (5 ∷ 6 ∷ []) refl

abbrev counting :
    StreamConnectionRuntime
      (StreamPipeline FixedLengthFrameDecoder (Unit {0}) (Unit {0}) ℕ ℕ)
      Bytes
      Bytes
counting = record connection { wire = record idle_wire { stats = some new_stats } }

stopped_message_counted_example :
    let (result, r') = on_command (rx echo) tx (write []) counting in
    (r'.wire.stats ≡ some (record new_stats { frames_written = u64 (0 + 1) }))
    × (r'.wire.socket ≡ [])
    × ((encode_outbound tx (Commands.sink (rx echo) tx counting) []).1.wire.stats ≡ some new_stats)
stopped_message_counted_example =
    stopped_message_counted (rx echo) tx counting [] 0 new_stats refl refl refl

steady_echo : IsSteady (stream_pipeline (rx echo) tx) (ValidPipeline IsValid)
steady_echo =
    stream_pipeline-IsSteady (rx echo) tx IsValid FixedLength.decode-IsFraming (λ c x dst v. v)

abbrev two_chunks : List Bytes
two_chunks = (1 ∷ []) ∷ (2 ∷ 3 ∷ []) ∷ []

-- The connection after the two chunks: one frame was answered, and a byte waits.
after_chunks :
    StreamConnectionRuntime
      (StreamPipeline FixedLengthFrameDecoder (Unit {0}) (Unit {0}) ℕ ℕ)
      Bytes
      Bytes
after_chunks =
    (run (stream_pipeline (rx echo) tx) write_all default_config (received two_chunks) connection).1

chunks_as_one_read_example :
    (run (stream_pipeline (rx echo) tx) write_all default_config (received two_chunks) connection
      ≡ (good none, after_chunks))
    ↔ (one_read
          (stream_pipeline (rx echo) tx)
          write_all
          (ValidPipeline IsValid)
          steady_echo
          (concat two_chunks)
          connection
        ≡ (good none, after_chunks))
unfolding frame_loop FixedLength.decode
chunks_as_one_read_example =
    chunks_as_one_read (stream_pipeline (rx echo) tx) write_all (ValidPipeline IsValid) steady_echo
      default_config two_chunks connection after_chunks (omega arith, refl) refl
      (((λ e. cc), ((λ e. cc), tt)), omega arith)

-- The two chunks do leave it open, and the socket has the frame and the goodbye.
echoed :
    (run
      (stream_pipeline (rx echo) tx)
      write_all
      default_config
      (received two_chunks)
      connection).1.wire.socket
    ≡ 1 ∷ 2 ∷ 1 ∷ 2 ∷ []
unfolding run on_event handle_read frame_loop FixedLength.decode process_inbound_flushable
    run_handler drain_stream_outbox run_commands encode_outbound flush_write_buf FixedLength.encode
echoed = refl

hooks_called_once_example :
    let (result, (l', log)) =
      run_stream_connection_with_life
        (stream_pipeline (rx echo) tx)
        write_all
        (recording no_life)
        default_config
        turns
        pipeline
        []
        none
        (tt, []) in
    Fits turns done
      (run (stream_pipeline (rx echo) tx) write_all default_config turns connection).0
      result
      log
hooks_called_once_example =
    hooks_called_once (stream_pipeline (rx echo) tx) write_all no_life default_config turns pipeline
      [] none tt

-- A read at time 5, a write at time 20, and the timer at time 36.
abbrev timed : List (ℕ × (Bool × Event Bytes))
timed =
    (5, (false, bytes_read (1 ∷ [])))
    ∷ (20, (false, command (some (write (1 ∷ 2 ∷ [])))))
    ∷ (36, (false, idle_elapsed))
    ∷ []

idle_after_timeout_example : IdleFor (stream_pipeline (rx echo) tx) write_all timed_config 0 timed
unfolding run on_event handle_read handle_command send_message frame_loop FixedLength.decode
    process_outbound flush_write_buf FixedLength.encode
idle_after_timeout_example =
    idle_after_timeout (stream_pipeline (rx echo) tx) write_all timed_config timed 0 connection
      (tt, (tt, (omega arith, tt))) refl
